-- ===== src/Transport/Stream.antt =====
-- The handler of a stream of length-prefixed messages, plain TCP and DoT (src/dns.rs). A read that
-- meets the end of the stream, an error or its timeout ends the connection, so the input here is the
-- bytes that arrive in time. What the outer world does is the record `Session`: the clocks, what
-- other tasks do to the shared state between two queries, and how each write ends.
use rust_encrypted_dns_serve.Base.{
  ℕ, zero, suc, ◌+◌, ◌*◌, ◌/◌, ◌%◌, ◌&&◌, Option, none, some, List, [], ◌∷◌, ◌++◌, Bytes, ltb, leb,
  if◌then◌else◌, length, take,
}
use rust_encrypted_dns_serve.Wire.Ip.{IpAddr}
use rust_encrypted_dns_serve.RateLimit.{Protocol}
use rust_encrypted_dns_serve.Engine.{
  AppState, Env, Job, Reply, ProcessOutcome, success, serv_fail, truncated, dropped, malformed,
  process_dns_query,
}
use rust_encrypted_dns_serve.Engine.System.{spawn}

abbrev pub max_tcp_msg_size : ℕ
max_tcp_msg_size = 65535

abbrev pub min_dns_msg_size : ℕ
min_dns_msg_size = 12

-- `read_exact`: so many bytes and what follows them.
unfoldable pub read_exact : ℕ → Bytes → Option (Bytes × Bytes)
read_exact zero s = some ([], s)
read_exact (suc n) [] = none
read_exact (suc n) (c ∷ s) = elim (read_exact n s) [
  | none ↦ none
  | some (taken, rest) ↦ some (c ∷ taken, rest)
]

-- `u16::from_be_bytes` of the prefix, and `to_be_bytes` of a length.
unfoldable pub read_len : Bytes → Option (ℕ × Bytes)
read_len (a ∷ b ∷ rest) = some (256 * a + b, rest)
read_len _ = none

unfoldable pub len_bytes : ℕ → Bytes
len_bytes n = (n / 256) ∷ (n % 256) ∷ []

-- Why a connection ends: the breaks of the loop.
pub data Ending : Type 0 where
  no_prefix bad_length no_payload too_long write_failed unparseable out_of_fuel : Ending

pub data Incoming : Type 0 where
  stopped : Ending → Incoming
  request : Bytes → Bytes → Incoming

unfoldable pub next_request : Bytes → Incoming
next_request s = elim (read_len s) [
  | none ↦ stopped no_prefix
  | some (req_len, rest) ↦
      if leb min_dns_msg_size req_len && leb req_len max_tcp_msg_size
      then (elim (read_exact req_len rest) [
        | none ↦ stopped no_payload
        | some (req, rest') ↦ request req rest'
      ])
      else stopped bad_length
]

-- What a stream does with an outcome.
pub data Reaction : Type 0 where
  respond : Bytes → Reaction
  skip close : Reaction

unfoldable pub reaction : ProcessOutcome → Reaction
reaction (success wire) = respond wire
reaction (serv_fail wire) = respond wire
reaction (truncated wire) = respond wire
reaction dropped = skip
reaction malformed = close

-- `write k` is how the write after the k-th query ends: `none` for success, or the number of bytes
-- that left before it failed or timed out.
pub record Session (Name : Type 0) : Type 0 where
  pub protocol : Protocol
  pub client_ip : IpAddr
  pub env : ℕ → Env Name
  pub now_ms : ℕ → ℕ
  pub now : ℕ → ℕ
  pub others : ℕ → AppState → AppState
  pub write : ℕ → Option ℕ

pub record Progress (Name : Type 0) : Type 0 where
  pub state : AppState
  pub spawned : List (Job Name)
  pub queries : ℕ
  pub written : Bytes

module _ {Name : Type 0} (S : Session Name) where
  open S use {protocol, client_ip, env, now_ms, now, others, write}

  -- The k-th query, in the state that it finds.
  unfoldable pub query : ℕ → AppState → Bytes → Reply Name
  query k st req = process_dns_query (env k) (others k st) protocol client_ip (now_ms k) (now k) req

  unfoldable pub send : ℕ → Bytes → Progress Name → Progress Name × Option Ending
  send k wire p = elim (write k) [
    | none ↦ (record p { written = p.written ++ (len_bytes (length wire) ++ wire) }, none)
    | some n ↦ (
      record p { written = p.written ++ take n (len_bytes (length wire) ++ wire) },
      some write_failed,
    )
  ]

  unfoldable pub react : ℕ → Reaction → Progress Name → Progress Name × Option Ending
  react k skip p = (p, none)
  react k close p = (p, some unparseable)
  react k (respond wire) p =
      if ltb max_tcp_msg_size (length wire) then (p, some too_long) else send k wire p

  unfoldable pub serve : Bytes → Progress Name → Progress Name × Option Ending
  serve req p =
      let r = query p.queries p.state req in
      react p.queries (reaction r.outcome)
        (record p { state = r.state; spawned = spawn r.spawned p.spawned; queries = p.queries + 1 })

  -- A `break`, or the next round.
  abbrev pub continue :
      (Progress Name → Progress Name × Ending)
      → Progress Name × Option Ending
      → Progress Name × Ending
  continue round (p, some e) = (p, e)
  continue round (p, none) = round p

  -- The loop, with the rounds left.
  unfoldable pub serve_loop : ℕ → Bytes → Progress Name → Progress Name × Ending
  serve_loop zero input p = (p, out_of_fuel)
  serve_loop (suc fuel) input p = elim (next_request input) [
    | stopped e ↦ (p, e)
    | request req rest ↦ continue (serve_loop fuel rest) (serve req p)
  ]

  unfoldable pub handle_length_prefixed_stream : AppState → Bytes → Progress Name × Ending
  handle_length_prefixed_stream st input =
      serve_loop (suc (length input)) input
        (record { state = st; spawned = []; queries = 0; written = [] })

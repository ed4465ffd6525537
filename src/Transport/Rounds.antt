-- ===== src/Transport/Rounds.antt =====
-- The rounds of the stream handler (src/dns.rs): how many there are, and that they end.
use rust_encrypted_dns_serve.Base.{
  ℕ, zero, suc, ◌+◌, ◌*◌, ◌≤◌, ◌<◌, ◌≡◌, refl, arith, Bool, true, false, ◌&&◌, Option, none, some,
  [], ◌∷◌, Bytes, leb, ltb, if◌then◌else◌, length, Bool-cases, Option-cases, inl, inr,
}
use rust_encrypted_dns_serve.Engine.{AppState}
use rust_encrypted_dns_serve.Engine.System.{spawn}
use rust_encrypted_dns_serve.Transport.Stream.{
  Session, Progress, Ending, Incoming, stopped, request, Reaction, respond, skip, close, no_prefix,
  bad_length, no_payload, too_long, write_failed, unparseable, out_of_fuel, read_exact, read_len,
  next_request, reaction, query, send, react, serve, continue, serve_loop,
  handle_length_prefixed_stream, max_tcp_msg_size, min_dns_msg_size,
}

-- A break of the source's loop.
abbrev pub is_break : Ending → Bool
is_break out_of_fuel = false
is_break no_prefix = true
is_break bad_length = true
is_break no_payload = true
is_break too_long = true
is_break write_failed = true
is_break unparseable = true

length-read_exact : (n : ℕ) (s t r : Bytes) → read_exact n s ≡ some (t, r) → length s ≡ n + length r
unfolding read_exact
length-read_exact zero s t r h = ground arith
length-read_exact (suc n) [] t r h = cc
length-read_exact (suc n) (c ∷ s) t r h = elim (Option-cases (read_exact n s)) [
  | inl failed ↦ let absent = rw (failed, read_exact) at h in cc
  | inr ((t', r'), e) ↦
      let found = rw (e, read_exact) at h in ground (arith, length-read_exact n s t' r' e)
]

-- What a request leaves of the input, and that a stop is a break.
abbrev Leaves : Bytes → Incoming → Type 0
Leaves s (stopped e) = is_break e ≡ true
Leaves s (request req rest) = 14 + length rest ≤ length s

length-read_len :
    (s : Bytes) (n : ℕ) (r : Bytes) → read_len s ≡ some (n, r) → length s ≡ 2 + length r
unfolding read_len
length-read_len [] n r h = cc
length-read_len (a ∷ []) n r h = cc
length-read_len (a ∷ b ∷ s) n r h = ground arith

next_request-Leaves : (s : Bytes) → Leaves s (next_request s)
unfolding next_request
next_request-Leaves s = elim (Option-cases (read_len s)) [
  | inl failed ↦ rw (failed, next_request) refl
  | inr ((n, r), e) ↦
      rw (e, next_request)
        (elim (Bool-cases (leb min_dns_msg_size n && leb n max_tcp_msg_size)) [
          | inr bad ↦ rw (bad, if◌then◌else◌) refl
          | inl good ↦
              rw (good, if◌then◌else◌)
                (elim (Option-cases (read_exact n r)) [
                  | inl short ↦ rw (short, next_request) refl
                  | inr ((t, r'), e') ↦
                      rw (e', next_request)
                        (ground (arith, length-read_len s n r e, length-read_exact n r t r' e'))
                ])
        ])
]

module _ {Name : Type 0} (S : Session Name) where
  -- One round serves one query, and an ending of its own is a break.
  abbrev Stops : Option Ending → Type 0
  Stops none = Unit
  Stops (some e) = is_break e ≡ true

  react-Stops :
      (k : ℕ) (ρ : Reaction) (p : Progress Name)
      → Stops (react S k ρ p).1 × ((react S k ρ p).0.queries ≡ p.queries)
  unfolding react send
  react-Stops k skip p = (tt, refl)
  react-Stops k close p = (refl, refl)
  react-Stops k (respond w) p = elim (Bool-cases (ltb max_tcp_msg_size (length w))) [
    | inl big ↦ rw (big, if◌then◌else◌) (refl, refl)
    | inr fits ↦
        rw (fits, if◌then◌else◌)
          (elim (Option-cases (S.write k)) [
            | inl done ↦ rw (done, send) (tt, refl)
            | inr (n, cut) ↦ rw (cut, send) (refl, refl)
          ])
  ]

  abbrev Ends : ℕ → ℕ → Progress Name × Ending → Type 0
  Ends queries bytes (p, e) = (is_break e ≡ true) × (14 * p.queries ≤ 14 * queries + bytes)

  continue-Ends :
      (round : Progress Name → Progress Name × Ending) (q bytes : ℕ)
      (r : Progress Name × Option Ending)
      → Stops r.1
      → r.0.queries ≡ q + 1
      → ((p : Progress Name) → Ends p.queries bytes (round p))
      → Ends q (14 + bytes) (continue S round r)
  continue-Ends round q bytes (p, some e) stops one more = (stops, omega arith)
  continue-Ends round q bytes (p, none) stops one more = let (a, b) = more p in (a, omega arith)

  Ends-weaken : (q m n : ℕ) (r : Progress Name × Ending) → m ≤ n → Ends q m r → Ends q n r
  Ends-weaken q m n (p, e) h (a, b) = (a, omega arith)

  serve-Stops :
      (req : Bytes) (p : Progress Name)
      → Stops (serve S req p).1 × ((serve S req p).0.queries ≡ p.queries + 1)
  unfolding serve
  serve-Stops req p =
      react-Stops p.queries (reaction (query S p.queries p.state req).outcome) (record p {
        state = (query S p.queries p.state req).state;
        spawned = spawn (query S p.queries p.state req).spawned p.spawned;
        queries = p.queries + 1;
      })

  abbrev served : ℕ → Progress Name → Incoming → Progress Name × Ending
  served fuel p (stopped e) = (p, e)
  served fuel p (request req rest) = continue S (serve_loop S fuel rest) (serve S req p)

  served-Ends :
      (fuel : ℕ) (input : Bytes) (p : Progress Name) (i : Incoming)
      → Leaves input i
      → length input ≤ fuel
      → ((rest : Bytes) (p' : Progress Name)
          → length rest < fuel
          → Ends p'.queries (length rest) (serve_loop S fuel rest p'))
      → Ends p.queries (length input) (served fuel p i)
  served-Ends fuel input p (stopped e) l h ih = (l, omega arith)
  served-Ends fuel input p (request req rest) l h ih =
      let (stops, one) = serve-Stops req p in
      Ends-weaken p.queries (14 + length rest) (length input)
        (continue S (serve_loop S fuel rest) (serve S req p)) l
        (continue-Ends (serve_loop S fuel rest) p.queries (length rest) (serve S req p) stops one
          (λ p'. ih rest p' (omega arith)))

  serve_loop-Ends :
      (fuel : ℕ) (input : Bytes) (p : Progress Name)
      → length input < fuel
      → Ends p.queries (length input) (serve_loop S fuel input p)
  unfolding serve_loop
  serve_loop-Ends zero input p h = absurd (omega arith)
  serve_loop-Ends (suc fuel) input p h =
      served-Ends fuel input p (next_request input) (next_request-Leaves input) (omega arith)
        (serve_loop-Ends fuel)

  -- Whatever bytes arrive, however the writes end, and whatever the queries are answered: the
  -- handler stops at one of the breaks of its loop, and has made at most one query for every 14
  -- bytes that arrived.
  pub stream_ends :
      (st : AppState) (input : Bytes)
      → let r = handle_length_prefixed_stream S st input in
        (is_break r.1 ≡ true) × (14 * r.0.queries ≤ length input)
  unfolding handle_length_prefixed_stream
  stream_ends st input =
      let (stops, few) =
        serve_loop-Ends (suc (length input)) input
          (record { state = st; spawned = []; queries = 0; written = [] }) (omega arith) in
      (stops, omega arith)

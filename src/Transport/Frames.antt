-- ===== src/Transport/Frames.antt =====
-- The stream handler (src/dns.rs) against its service on whole messages: the queries of a
-- connection in order, with the framing forgotten.
use rust_encrypted_dns_serve.Base.{
  ℕ, zero, suc, ◌+◌, ◌*◌, ◌/◌, ◌%◌, ◌≤◌, ◌<◌, ◌≡◌, refl, ◌∙◌, sym, arith, true, ◌&&◌, Option, none,
  some, List, [], ◌∷◌, ◌++◌, Bytes, ltb, leb, if◌then◌else◌, length, All, append_assoc, append-nil,
  length-append, Bool-cases, inl, inr,
}
use rust_encrypted_dns_serve.Engine.{
  AppState, ProcessOutcome, success, serv_fail, truncated, dropped, malformed,
}
use rust_encrypted_dns_serve.Engine.System.{spawn}
use rust_encrypted_dns_serve.Transport.Stream.{
  Session, Progress, Ending, stopped, request, respond, read_exact, read_len, len_bytes,
  next_request, reaction, query, send, react, serve, continue, serve_loop,
  handle_length_prefixed_stream, max_tcp_msg_size, min_dns_msg_size,
}

abbrev pub frame : Bytes → Bytes
frame m = len_bytes (length m) ++ m

abbrev pub frames : List Bytes → Bytes
frames [] = []
frames (m ∷ ms) = frame m ++ frames ms

-- What a reader of the other side gets from a stream of frames, with fuel.
unfoldable pub unframe : ℕ → Bytes → Option (List Bytes)
unframe zero s = none
unframe (suc fuel) [] = some []
unframe (suc fuel) (a ∷ s) = elim (read_len (a ∷ s)) [
  | none ↦ none
  | some (n, rest) ↦ elim (read_exact n rest) [
    | none ↦ none
    | some (m, rest') ↦ elim (unframe fuel rest') [ none ↦ none | some ms ↦ some (m ∷ ms) ]
  ]
]

-- The service on messages: the replies, and the state that is left.
pub record Served : Type 0 where
  pub replies : List Bytes
  pub state : AppState

abbrev also : Bytes → Served → Served
also w s = record s { replies = w ∷ s.replies }

abbrev pub IsFrameable : Bytes → Type 0
IsFrameable m = (min_dns_msg_size ≤ length m) × (length m ≤ max_tcp_msg_size)

read_exact-append : (m rest : Bytes) → read_exact (length m) (m ++ rest) ≡ some (m, rest)
unfolding read_exact
read_exact-append [] rest = refl
read_exact-append (c ∷ m) rest = rw (read_exact-append m rest, read_exact) refl

read_len-frame :
    (m rest : Bytes)
    → length m ≤ max_tcp_msg_size
    → read_len (frame m ++ rest) ≡ some (length m, m ++ rest)
unfolding read_len len_bytes
read_len-frame m rest h =
    let e : 256 * (length m / 256) + length m % 256 ≡ length m = omega arith in rw e refl

next_request-frame :
    (m rest : Bytes) → IsFrameable m → next_request (frame m ++ rest) ≡ request m rest
unfolding next_request
next_request-frame m rest h =
    let fits : (leb min_dns_msg_size (length m) && leb (length m) max_tcp_msg_size) ≡ true =
      ground arith in
    rw (read_len-frame m rest h.1, next_request)
      (rw (fits, if◌then◌else◌) (rw (read_exact-append m rest, next_request) refl))

length-frames :
    (ms : List Bytes) (tail : Bytes) → length ms + length tail ≤ length (frames ms ++ tail)
unfolding len_bytes
length-frames [] tail = omega arith
length-frames (m ∷ ms) tail =
    rw (append_assoc m (frames ms) tail)
      (omega (arith, length-frames ms tail, length-append m (frames ms ++ tail)))

pub unframe-frames :
    (ms : List Bytes) (fuel : ℕ)
    → All (λ m. length m ≤ max_tcp_msg_size) ms
    → length ms < fuel
    → unframe fuel (frames ms) ≡ some ms
unfolding unframe len_bytes
unframe-frames ms zero h k = absurd (omega arith)
unframe-frames [] (suc fuel) h k = refl
unframe-frames (m ∷ ms) (suc fuel) h k =
    rw (read_len-frame m (frames ms) h.0, unframe)
      (rw (read_exact-append m (frames ms), unframe)
        (rw (unframe-frames ms fuel h.1 (omega arith), unframe) refl))

-- One query's part of the service, before the rest of it: an answer of any kind is a reply, a query
-- that the limiter drops has none, and one that is malformed is the last. A reply that no frame can
-- hold ends the service too.
unfoldable pub deliver : Bytes → AppState → Served → Served
deliver w st rest =
    if ltb max_tcp_msg_size (length w) then record { replies = []; state = st } else also w rest

unfoldable pub before : ProcessOutcome → AppState → Served → Served
before (success w) st rest = deliver w st rest
before (serv_fail w) st rest = deliver w st rest
before (truncated w) st rest = deliver w st rest
before dropped st rest = rest
before malformed st rest = record { replies = []; state = st }

deliver_small :
    (w : Bytes) (st : AppState) (rest : Served)
    → All (λ m. length m ≤ max_tcp_msg_size) rest.replies
    → All (λ m. length m ≤ max_tcp_msg_size) (deliver w st rest).replies
unfolding deliver
deliver_small w st rest a = elim (Bool-cases (ltb max_tcp_msg_size (length w))) [
  | inl big ↦ rw (big, if◌then◌else◌) tt
  | inr fits ↦ rw (fits, if◌then◌else◌) (ground arith, a)
]

before_small :
    (o : ProcessOutcome) (st : AppState) (rest : Served)
    → All (λ m. length m ≤ max_tcp_msg_size) rest.replies
    → All (λ m. length m ≤ max_tcp_msg_size) (before o st rest).replies
unfolding before
before_small (success w) st rest a = deliver_small w st rest a
before_small (serv_fail w) st rest a = deliver_small w st rest a
before_small (truncated w) st rest a = deliver_small w st rest a
before_small dropped st rest a = a
before_small malformed st rest a = tt

module _ {Name : Type 0} (S : Session Name) where
  unfoldable pub serve_messages : ℕ → AppState → List Bytes → Served
  serve_messages k st [] = record { replies = []; state = st }
  serve_messages k st (m ∷ ms) =
      let r = query S k st m in before r.outcome r.state (serve_messages (k + 1) r.state ms)

  serve_messages_small :
      (k : ℕ) (st : AppState) (ms : List Bytes)
      → All (λ m. length m ≤ max_tcp_msg_size) (serve_messages k st ms).replies
  unfolding serve_messages
  serve_messages_small k st [] = tt
  serve_messages_small k st (m ∷ ms) =
      before_small _ _ _ (serve_messages_small (k + 1) (query S k st m).state ms)

  -- What a progress becomes by a service.
  abbrev Serves : Progress Name × Ending → Progress Name → Served → Type 0
  Serves r p s = (r.0.written ≡ p.written ++ frames s.replies) × (r.0.state ≡ s.state)

  abbrev wrote : Progress Name → Bytes → Progress Name
  wrote p w = record p { written = p.written ++ w }

  respond-Serves :
      (k fuel : ℕ) (w rest : Bytes) (p : Progress Name) (s : Served)
      → S.write k ≡ none
      → ((x : Bytes) → Serves (serve_loop S fuel rest (wrote p x)) (wrote p x) s)
      → Serves
          (continue S (serve_loop S fuel rest) (react S k (respond w) p))
          p
          (deliver w p.state s)
  unfolding react deliver send
  respond-Serves k fuel w rest p s writes ih = elim (Bool-cases (ltb max_tcp_msg_size (length w))) [
    | inl big ↦ rw (big, if◌then◌else◌) (sym (append-nil p.written), refl)
    | inr fits ↦
        let (a, b) = ih (frame w) in
        rw (fits, if◌then◌else◌)
          (rw (writes, send) (a ∙ append_assoc p.written (frame w) (frames s.replies), b))
  ]

  continue-Serves :
      (k fuel : ℕ) (o : ProcessOutcome) (rest : Bytes) (p : Progress Name) (s : Served)
      → S.write k ≡ none
      → ((x : Bytes) → Serves (serve_loop S fuel rest (wrote p x)) (wrote p x) s)
      → Serves
          (continue S (serve_loop S fuel rest) (react S k (reaction o) p))
          p
          (before o p.state s)
  unfolding react before reaction
  continue-Serves k fuel (success w) rest p s writes ih = respond-Serves k fuel w rest p s writes ih
  continue-Serves k fuel (serv_fail w) rest p s writes ih =
      respond-Serves k fuel w rest p s writes ih
  continue-Serves k fuel (truncated w) rest p s writes ih =
      respond-Serves k fuel w rest p s writes ih
  continue-Serves k fuel dropped rest p s writes ih = rw (append-nil p.written) at (ih [])
  continue-Serves k fuel malformed rest p s writes ih = (sym (append-nil p.written), refl)

  serve_loop-frames :
      ((k : ℕ) → S.write k ≡ none)
      → (fuel : ℕ) (ms : List Bytes) (tail : Bytes) (e : Ending) (p : Progress Name)
      → All IsFrameable ms
      → next_request tail ≡ stopped e
      → length ms < fuel
      → Serves (serve_loop S fuel (frames ms ++ tail) p) p (serve_messages p.queries p.state ms)
  unfolding serve_loop serve_messages serve
  serve_loop-frames writes zero ms tail e p f t h = absurd (omega arith)
  serve_loop-frames writes (suc fuel) [] tail e p f t h =
      rw (t, serve_loop) (sym (append-nil p.written), refl)
  serve_loop-frames writes (suc fuel) (m ∷ ms) tail e p f t h =
      let r = query S p.queries p.state m in
      let p' : Progress Name = record p {
        state = r.state;
        spawned = spawn r.spawned p.spawned;
        queries = p.queries + 1;
      } in
      rw (append_assoc (frame m) (frames ms) tail) (
        rw (next_request-frame m (frames ms ++ tail) f.0, serve_loop)
          (continue-Serves p.queries fuel r.outcome (frames ms ++ tail) p'
            (serve_messages (p.queries + 1) r.state ms) (writes p.queries)
            (λ w. serve_loop-frames writes fuel ms tail e (wrote p' w) f.1 t (omega arith))))

  -- Whatever the queries are answered and whatever other tasks do meanwhile: on a connection whose
  -- writes succeed, for queries of allowed lengths that are followed by no further whole frame, the
  -- bytes written are the frames of the replies of the service on messages, in the order of the
  -- queries, and a reader gets these replies back from them; and the state is the one that the
  -- service leaves.
  pub stream_serves_messages :
      (st : AppState) (ms : List Bytes) (tail : Bytes) (e : Ending)
      → ((k : ℕ) → S.write k ≡ none)
      → All IsFrameable ms
      → next_request tail ≡ stopped e
      → let r = (handle_length_prefixed_stream S st (frames ms ++ tail)).0 in
        let s = serve_messages 0 st ms in
        (r.written ≡ frames s.replies)
        × (unframe (suc (length r.written)) r.written ≡ some s.replies)
        × (r.state ≡ s.state)
  unfolding handle_length_prefixed_stream
  stream_serves_messages st ms tail e writes f t =
      let s = serve_messages 0 st ms in
      let (a, b) =
        serve_loop-frames writes (suc (length (frames ms ++ tail))) ms tail e
          (record { state = st; spawned = []; queries = 0; written = [] }) f t
          (omega (arith, length-frames ms tail)) in
      let small = serve_messages_small 0 st ms in
      let back : unframe (suc (length (frames s.replies))) (frames s.replies) ≡ some s.replies =
        unframe-frames s.replies (suc (length (frames s.replies))) small
          (omega (arith, length-frames s.replies [], length-append (frames s.replies) [])) in
      (a, rw a back, b)

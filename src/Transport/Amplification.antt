-- ===== src/Transport/Amplification.antt =====
-- What the UDP listener (src/dns.rs) sends to the source of a datagram.
use rust_encrypted_dns_serve.Base.{
  ℕ, ◌≤◌, ◌≡◌, refl, ap, ◌∙◌, ◌⊎◌, inl, inr, arith, Bool, true, false, not, ◌&&◌, Option, none,
  some, List, [], ◌∷◌, Bytes, bytes_eq, if◌then◌else◌, length, Bool-cases, Option-cases,
}
use rust_encrypted_dns_serve.Base.Map
use rust_encrypted_dns_serve.Wire.Ip.{IpAddr, is_loopback}
use rust_encrypted_dns_serve.Wire.Messages.{Query, Message}
use rust_encrypted_dns_serve.Dnssec.Status.{DnssecStatus}
use rust_encrypted_dns_serve.Cache.{CacheEntry, CacheFreshness, fresh, is_expired}
use rust_encrypted_dns_serve.RateLimit.{
  udp, RrlAction, allow, truncate, drop, should_challenge_large_response,
}
use rust_encrypted_dns_serve.Engine.{
  AppState, Env, Job, Client, ProcessOutcome, success, serv_fail, truncated, dropped, malformed,
  is_bogus, canonical, sized, tailor, serve_resolved, miss, from_entry, hit, answer, limited,
  cache_key, process_question, process_questions, process_dns_query, client_limits,
  make_truncated_wire, make_servfail_wire,
}
use rust_encrypted_dns_serve.Engine.Answers.{process_udp_size}
use rust_encrypted_dns_serve.Transport.Stream.{min_dns_msg_size}
use rust_encrypted_dns_serve.Transport.Datagram.{
  handle_datagram, datagram_reply, max_udp_query_size,
}

module _ {Name : Type 0} (E : Env Name) where
  -- A refusal is a message made of the request's id and question alone.
  abbrev Refuses : ℕ → Query Name → ProcessOutcome → Type 0
  Refuses id q (success w) = Unit
  Refuses id q (serv_fail w) = w ≡ make_servfail_wire E id q
  Refuses id q (truncated w) = w ≡ make_truncated_wire E id q
  Refuses id q dropped = Unit
  Refuses id q malformed = Unit

  sized-Refuses :
      (c : Client Name) (q : Query Name) (w : Bytes) → Refuses c.req.id q (sized E c q w)
  unfolding sized
  sized-Refuses c q w =
      elim (Bool-cases (should_challenge_large_response c.protocol c.ip (length w) c.max_payload)) [
        | inl big ↦ rw (big, if◌then◌else◌) refl
        | inr fits ↦ rw (fits, if◌then◌else◌) tt
      ]

  serve_resolved-Refuses :
      (st : AppState) (job : Option (Job Name)) (c : Client Name) (q : Query Name) (now : ℕ)
      (msg : Message Name) (status : DnssecStatus)
      → Refuses c.req.id q (serve_resolved E st job c q now msg status).outcome
  unfolding serve_resolved
  serve_resolved-Refuses st job c q now msg status =
      elim (Bool-cases (is_bogus status && (st.dnssec_enforce && not c.req.checking_disabled))) [
        | inl refused ↦ rw (refused, if◌then◌else◌) refl
        | inr served ↦
            rw (served, if◌then◌else◌)
              (elim (Option-cases (tailor E c q (canonical E status msg) status fresh now now)) [
                | inl failed ↦ rw (failed, serve_resolved) refl
                | inr (w, e) ↦ rw (e, serve_resolved) (sized-Refuses c q w)
              ])
      ]

  miss-Refuses :
      (st : AppState) (job : Option (Job Name)) (c : Client Name) (q : Query Name) (now : ℕ)
      → Refuses c.req.id q (miss E st job c q now).outcome
  unfolding miss
  miss-Refuses st job c q now = elim (Option-cases (E.resolve q.name q.query_type)) [
    | inl failed ↦ rw (failed, miss) refl
    | inr (msg, e) ↦ rw (e, miss) (serve_resolved-Refuses st job c q now msg _)
  ]

  hit-Refuses :
      (st : AppState) (c : Client Name) (q : Query Name) (now : ℕ) (e : CacheEntry)
      (f : CacheFreshness)
      → Refuses c.req.id q (hit E st c q now e f).outcome
  unfolding hit
  hit-Refuses st c q now e f = elim (Bool-cases (is_expired f)) [
    | inl old ↦ rw (old, if◌then◌else◌) (miss-Refuses st none c q now)
    | inr live ↦
        rw (live, if◌then◌else◌)
          (elim (Option-cases (from_entry E c q e f now)) [
            | inl failed ↦ rw (failed, hit) (miss-Refuses _ _ c q now)
            | inr (w, built) ↦ rw (built, hit) (sized-Refuses c q w)
          ])
  ]

  limited-Refuses :
      (st : AppState) (c : Client Name) (q : Query Name) (now : ℕ) (action : RrlAction)
      → Refuses c.req.id q (limited E st c q now action).outcome
  unfolding limited answer
  limited-Refuses st c q now allow =
      elim (Option-cases (Map.get (cache_key E q.name q.query_type) st.cache)) [
        | inl gone ↦ rw (gone, answer) (miss-Refuses st none c q now)
        | inr (e, found) ↦ rw (found, answer) (hit-Refuses st c q now e _)
      ]
  limited-Refuses st c q now truncate = refl
  limited-Refuses st c q now drop = tt

  question-Refuses :
      (st : AppState) (ip : IpAddr) (now_ms now : ℕ) (req : Message Name) (q : Query Name)
      → Refuses req.id q (process_question E st udp ip now_ms now req q).outcome
  unfolding process_question
  question-Refuses st ip now_ms now req q = limited-Refuses _ _ q now _

  process_one :
      (st : AppState) (ip : IpAddr) (now_ms now : ℕ) (buf : Bytes) (req : Message Name)
      (q : Query Name)
      → E.read buf ≡ some req
      → req.queries ≡ q ∷ []
      → (process_dns_query E st udp ip now_ms now buf).outcome
        ≡ (process_question E st udp ip now_ms now req q).outcome
  unfolding process_dns_query process_questions
  process_one st ip now_ms now buf req q r e =
      rw (r, process_dns_query)
        (ap (λ qs. (process_questions E st udp ip now_ms now req qs).outcome) e)

  -- What a request is answered with over UDP.
  abbrev Small : Message Name → Query Name → Bytes → Type 0
  Small req q w =
      (w ≡ make_servfail_wire E req.id q)
      ⊎ (w ≡ make_truncated_wire E req.id q)
      ⊎ ((length w ≤ (client_limits req.extensions).0) × (length w ≤ 1232))

  outcome-Small :
      (req : Message Name) (q : Query Name) (o : ProcessOutcome) (w : Bytes)
      → Refuses req.id q o
      → (o ≡ success w → (length w ≤ (client_limits req.extensions).0) × (length w ≤ 1232))
      → datagram_reply o ≡ some w
      → Small req q w
  unfolding datagram_reply
  outcome-Small req q (success v) w r fits h = inr (inr (fits (ground arith)))
  outcome-Small req q (serv_fail v) w r fits h = inl (ground arith)
  outcome-Small req q (truncated v) w r fits h = inr (inl (ground arith))
  outcome-Small req q dropped w r fits h = cc
  outcome-Small req q malformed w r fits h = cc

  abbrev pub Answers : Bytes → Bytes → Type 0
  Answers buf w =
      (req : Message Name) × (q : Query Name) × (E.read buf ≡ some req)
      × (req.queries ≡ q ∷ [])
      × Small req q w

  questions-Answers :
      (st : AppState) (ip : IpAddr) (now_ms now : ℕ) (buf : Bytes) (req : Message Name)
      (qs : List (Query Name)) (w : Bytes)
      → is_loopback ip ≡ false
      → E.read buf ≡ some req
      → req.queries ≡ qs
      → datagram_reply (process_questions E st udp ip now_ms now req qs).outcome ≡ some w
      → Answers buf w
  unfolding process_questions datagram_reply
  questions-Answers st ip now_ms now buf req [] w outside r e h = cc
  questions-Answers st ip now_ms now buf req (q ∷ q' ∷ qs) w outside r e h = cc
  questions-Answers st ip now_ms now buf req (q ∷ []) w outside r e h = (
    req,
    q,
    r,
    e,
    outcome-Small req q (process_question E st udp ip now_ms now req q).outcome w
        (question-Refuses st ip now_ms now req q)
        (λ ok.
          process_udp_size E st ip now_ms now buf req q r e outside
            (process_one st ip now_ms now buf req q r e ∙ ok))
        h,
  )

  process-Answers :
      (st : AppState) (ip : IpAddr) (now_ms now : ℕ) (buf w : Bytes)
      → is_loopback ip ≡ false
      → datagram_reply (process_dns_query E st udp ip now_ms now buf).outcome ≡ some w
      → Answers buf w
  unfolding process_dns_query datagram_reply
  process-Answers st ip now_ms now buf w outside h = elim (Option-cases (E.read buf)) [
    | inl garbage ↦ let absent = rw (garbage, process_dns_query) at h in cc
    | inr (req, r) ↦
        questions-Answers st ip now_ms now buf req req.queries w outside r refl
          (rw (r, process_dns_query) at h)
  ]

  -- The listener sends something to a source that is not on the loopback only for a datagram of 12
  -- to 4096 bytes, with a permit free, that decodes to a message with exactly one question; and what
  -- it sends is the SERVFAIL or the truncated message made of the request's id and question alone,
  -- or no longer than 1232 bytes and the client's buffer, taken between 512 and 1232.
  pub datagram_sent :
      (st : AppState) (permit : Bool) (ip : IpAddr) (now_ms now : ℕ) (buf : Bytes) {w : Bytes}
      → is_loopback ip ≡ false
      → (handle_datagram E st permit ip now_ms now buf).sent ≡ some w
      → (min_dns_msg_size ≤ length buf)
        × (length buf ≤ max_udp_query_size)
        × (permit ≡ true)
        × Answers buf w
  unfolding handle_datagram
  datagram_sent st permit ip now_ms now buf {w} outside h = (
    ground arith,
    ground arith,
    ground arith,
    process-Answers st ip now_ms now buf w outside (ground arith),
  )

-- ===== src/Engine/Clients.antt =====
-- The strict separation of the resolver's state from its clients, and the rejection of malformed
-- requests (src/engine.rs).
use rust_encrypted_dns_serve.Base.{
  ℕ, ◌≡◌, refl, sym, ◌∙◌, ap, inl, inr, arith, ◌&&◌, Option, none, some, [], ◌∷◌, Bytes, bytes_eq,
  if◌then◌else◌, Bool-cases, Option-cases,
}
use rust_encrypted_dns_serve.Base.Map
use rust_encrypted_dns_serve.Wire.Ip.{IpAddr}
use rust_encrypted_dns_serve.Wire.Messages.{Query, Message}
use rust_encrypted_dns_serve.Dnssec.Status.{DnssecStatus, secure}
use rust_encrypted_dns_serve.Cache.{CacheEntry, freshness_at, is_expired}
use rust_encrypted_dns_serve.RateLimit.{Protocol, RrlAction, allow, truncate, drop, check_query}
use rust_encrypted_dns_serve.Engine.{
  AppState, Env, Job, Client, is_cacheable, is_cacheable_dnssec, canonical, tailor, cache_key,
  store, from_entry, trigger, limited, answer, miss, hit, serve_resolved, process_question,
  process_questions, process_dns_query, rrl_key,
}
use rust_encrypted_dns_serve.Engine.Outcome.{client_of}

module _ {Name : Type 0} (E : Env Name) where
  abbrev resolved_state : AppState → Query Name → ℕ → Message Name → DnssecStatus → AppState
  resolved_state st q now msg status =
      if is_cacheable (canonical E status msg) && is_cacheable_dnssec status
      then record st {
        cache =
            store E (cache_key E q.name q.query_type) (canonical E status msg) status now st.cache;
      }
      else st

  serve_resolved_state :
      (st : AppState) (job : Option (Job Name)) (c : Client Name) (q : Query Name) (now : ℕ)
      (msg : Message Name) (status : DnssecStatus)
      → (serve_resolved E st job c q now msg status).state ≡ resolved_state st q now msg status
  unfolding serve_resolved is_cacheable_dnssec
  serve_resolved_state st job c q now msg secure = ground arith
  serve_resolved_state st job c q now msg _ = ground arith

  miss_state :
      (st : AppState) (job : Option (Job Name)) (c c' : Client Name) (q : Query Name) (now : ℕ)
      → (miss E st job c q now).state ≡ (miss E st job c' q now).state
  unfolding miss
  miss_state st job c c' q now = elim (Option-cases (E.resolve q.name q.query_type)) [
    | inl failed ↦ rw (failed, miss)
    | inr (msg, e) ↦
        let status = E.validate msg q.name q.query_type in
        rw (e, miss)
          (serve_resolved_state st job c q now msg status
            ∙ sym (serve_resolved_state st job c' q now msg status))
  ]

  -- The entry, if it decodes, can be encoded for the client.
  abbrev EncodesEntry : Client Name → Query Name → ℕ → CacheEntry → Type 0
  EncodesEntry c q now e =
      (base : Message Name)
      → E.read e.raw_wire ≡ some base
      → (w : Bytes) × (tailor E c q base e.dnssec_status (freshness_at e now E.max_stale)
            e.cached_at now
          ≡ some w)

  hit_state :
      (st : AppState) (c c' : Client Name) (q : Query Name) (now : ℕ) (e : CacheEntry)
      → EncodesEntry c q now e
      → EncodesEntry c' q now e
      → let f = freshness_at e now E.max_stale in
        (hit E st c q now e f).state ≡ (hit E st c' q now e f).state
  unfolding hit from_entry
  hit_state st c c' q now e enc enc' =
      let f = freshness_at e now E.max_stale in
      elim (Bool-cases (is_expired f)) [
        | inl old ↦ rw (old, if◌then◌else◌) (miss_state st none c c' q now)
        | inr live ↦
            rw (live, if◌then◌else◌)
              (elim (Option-cases (E.read e.raw_wire)) [
                | inl failed ↦
                    rw (failed, hit)
                      (miss_state (trigger E f q st).0 (trigger E f q st).1 c c' q now)
                | inr (base, r) ↦
                    let (w, one) = enc base r in
                    let (w', other) = enc' base r in rw (r, hit) (rw (one, hit) (rw (other, hit)))
              ])
      ]

  -- The stored entry for the question, if there is one that decodes, can be encoded for the client.
  abbrev pub Encodes : AppState → Client Name → Query Name → ℕ → Type 0
  Encodes st c q now =
      (e : CacheEntry)
      → Map.get (cache_key E q.name q.query_type) st.cache ≡ some e
      → EncodesEntry c q now e

  answer_state :
      (st : AppState) (c c' : Client Name) (q : Query Name) (now : ℕ)
      → Encodes st c q now
      → Encodes st c' q now
      → (answer E st c q now).state ≡ (answer E st c' q now).state
  unfolding answer
  answer_state st c c' q now enc enc' =
      elim (Option-cases (Map.get (cache_key E q.name q.query_type) st.cache)) [
        | inl gone ↦ rw (gone, answer) (miss_state st none c c' q now)
        | inr (e, found) ↦
            rw (found, answer) (hit_state st c c' q now e (enc e found) (enc' e found))
      ]

  limited_state :
      (st : AppState) (c c' : Client Name) (q : Query Name) (now : ℕ) (action : RrlAction)
      → Encodes st c q now
      → Encodes st c' q now
      → (limited E st c q now action).state ≡ (limited E st c' q now action).state
  unfolding limited
  limited_state st c c' q now allow enc enc' = answer_state st c c' q now enc enc'
  limited_state st c c' q now truncate enc enc' = refl
  limited_state st c c' q now drop enc enc' = refl

  asked :
      (st : AppState) (p : Protocol) (ip : IpAddr) (now_ms now : ℕ) (wire : Bytes)
      (req : Message Name) (q : Query Name)
      → E.read wire ≡ some req
      → req.queries ≡ q ∷ []
      → let checked = check_query (rrl_key E) st.rate_limiter p ip q.name q.query_type now_ms in
        process_dns_query E st p ip now_ms now wire
        ≡ limited E (record st { rate_limiter = checked.0 }) (client_of E p ip req) q now checked.1
  unfolding process_dns_query process_questions process_question
  asked st p ip now_ms now wire req q decoded single =
      rw (decoded, process_dns_query) (ap (process_questions E st p ip now_ms now req) single)

  -- What a query leaves in the cache, the limiter and the in-flight set depends on its question and
  -- its source, and on nothing else that the client sent: not the id, not the RD, AD and CD flags,
  -- not EDNS with its DO bit and buffer size. A stored entry that decodes can be encoded for both.
  pub process_state :
      (st : AppState) (p : Protocol) (ip : IpAddr) (now_ms now : ℕ) (wire wire' : Bytes)
      (req req' : Message Name) (q : Query Name)
      → E.read wire ≡ some req
      → E.read wire' ≡ some req'
      → req.queries ≡ q ∷ []
      → req'.queries ≡ q ∷ []
      → Encodes st (client_of E p ip req) q now
      → Encodes st (client_of E p ip req') q now
      → (process_dns_query E st p ip now_ms now wire).state
        ≡ (process_dns_query E st p ip now_ms now wire').state
  process_state st p ip now_ms now wire wire' req req' q d d' s s' enc enc' =
      let (rl, action) = check_query (rrl_key E) st.rate_limiter p ip q.name q.query_type now_ms in
      ap (λ r. r.state) (asked st p ip now_ms now wire req q d s)
      ∙ limited_state (record st { rate_limiter = rl }) (client_of E p ip req)
          (client_of E p ip req') q now action enc enc'
      ∙ sym (ap (λ r. r.state) (asked st p ip now_ms now wire' req' q d' s'))

-- ===== src/Engine/Outcome.antt =====
-- What a query's outcome says (src/engine.rs).
use rust_encrypted_dns_serve.Base.{
  ℕ, ◌≡◌, refl, inl, inr, arith, false, not, ◌&&◌, Option, none, some, [], ◌∷◌, Bytes, bytes_eq,
  if◌then◌else◌, Bool-cases, Option-cases,
}
use mathlib.Core.Path.{subst}
use rust_encrypted_dns_serve.Base.Map
use rust_encrypted_dns_serve.Wire.Ip.{IpAddr}
use rust_encrypted_dns_serve.Wire.Messages.{Query, Message}
use rust_encrypted_dns_serve.Dnssec.Status.{DnssecStatus}
use rust_encrypted_dns_serve.Cache.{
  CacheEntry, CacheFreshness, fresh, stale, expired, freshness_at, is_expired,
}
use rust_encrypted_dns_serve.RateLimit.{Protocol, RrlAction, allow, truncate, drop, check_query}
use rust_encrypted_dns_serve.Engine.{
  AppState, Env, Job, Client, success, is_bogus, canonical, sized, tailor, serve_resolved, miss,
  trigger, from_entry, hit, answer, limited, cache_key, process_question, process_questions,
  process_dns_query, client_limits, rrl_key,
}

module _ {Name : Type 0} (E : Env Name) where
  -- Where the bytes of an answer come from: an entry that has not expired, or this query's own
  -- resolution, which is no Bogus one unless the client or the operator accepts that.
  pub data Source (st : AppState) (c : Client Name) (q : Query Name) (now : ℕ) (w : Bytes)
      : Type 0 where
    cached :
        (e : CacheEntry) (base : Message Name)
        → Map.get (cache_key E q.name q.query_type) st.cache ≡ some e
        → is_expired (freshness_at e now E.max_stale) ≡ false
        → E.read e.raw_wire ≡ some base
        → tailor E c q base e.dnssec_status (freshness_at e now E.max_stale) e.cached_at now
          ≡ some w
        → Source st c q now w
    resolved :
        (msg : Message Name) (status : DnssecStatus)
        → E.resolve q.name q.query_type ≡ some msg
        → E.validate msg q.name q.query_type ≡ status
        → (is_bogus status && (st.dnssec_enforce && not c.req.checking_disabled)) ≡ false
        → tailor E c q (canonical E status msg) status fresh now now ≡ some w
        → Source st c q now w

  sized_success :
      (c : Client Name) (q : Query Name) (v : Bytes) {w : Bytes}
      → sized E c q v ≡ success w
      → (v ≡ w) × (sized E c q w ≡ success w)
  unfolding sized
  sized_success c q v h = ground arith

  abbrev pub From : AppState → Client Name → Query Name → ℕ → Bytes → Type 0
  From st c q now w = Source st c q now w × (sized E c q w ≡ success w)

  serve_resolved-Source :
      (st : AppState) (job : Option (Job Name)) (c : Client Name) (q : Query Name) (now : ℕ)
      (msg : Message Name) {w : Bytes}
      → E.resolve q.name q.query_type ≡ some msg
      → (serve_resolved E st job c q now msg (E.validate msg q.name q.query_type)).outcome
        ≡ success w
      → From st c q now w
  unfolding serve_resolved
  serve_resolved-Source st job c q now msg {w} r h =
      let status = E.validate msg q.name q.query_type in
      elim (Bool-cases (is_bogus status && (st.dnssec_enforce && not c.req.checking_disabled))) [
        | inl refused ↦ absurd (ground arith)
        | inr served ↦
            elim (Option-cases (tailor E c q (canonical E status msg) status fresh now now)) [
              | inl failed ↦ absurd (ground arith)
              | inr (v, e) ↦
                  let fits : sized E c q v ≡ success w = ground arith in
                  let (same, ok) = sized_success c q v fits in
                  (resolved msg status r refl served (rw (e, same)), ok)
            ]
      ]

  miss-Source :
      (st : AppState) (job : Option (Job Name)) (c : Client Name) (q : Query Name) (now : ℕ)
      {w : Bytes}
      → (miss E st job c q now).outcome ≡ success w
      → From st c q now w
  unfolding miss
  miss-Source st job c q now h = elim (Option-cases (E.resolve q.name q.query_type)) [
    | inl failed ↦ absurd (ground arith)
    | inr (msg, e) ↦ serve_resolved-Source st job c q now msg e (rw (e, miss) at h)
  ]

  Source-transfer :
      (st st' : AppState) (c : Client Name) (q : Query Name) (now : ℕ) (w : Bytes)
      → st'.cache ≡ st.cache
      → st'.dnssec_enforce ≡ st.dnssec_enforce
      → Source st' c q now w
      → Source st c q now w
  Source-transfer st st' c q now w same enforce (cached e base found live bytes built) =
      cached e base (rw (← same) found) live bytes built
  Source-transfer st st' c q now w same enforce (resolved msg status r v served built) =
      resolved msg status r v (rw (← enforce) served) built

  pub trigger_keeps :
      (f : CacheFreshness) (q : Query Name) (st : AppState)
      → ((trigger E f q st).0.cache ≡ st.cache)
        × ((trigger E f q st).0.dnssec_enforce ≡ st.dnssec_enforce)
  unfolding trigger
  trigger_keeps fresh q st = (refl, refl)
  trigger_keeps expired q st = (refl, refl)
  trigger_keeps stale q st = ground arith

  from_entry-some :
      (c : Client Name) (q : Query Name) (e : CacheEntry) (f : CacheFreshness) (now : ℕ) {w : Bytes}
      → from_entry E c q e f now ≡ some w
      → (base : Message Name) × (E.read e.raw_wire ≡ some base)
        × (tailor E c q base e.dnssec_status f e.cached_at now ≡ some w)
  unfolding from_entry
  from_entry-some c q e f now h = elim (Option-cases (E.read e.raw_wire)) [
    | inl failed ↦ absurd (ground arith)
    | inr (base, r) ↦ (base, r, rw (r, from_entry) at h)
  ]

  hit-Source :
      (st : AppState) (c : Client Name) (q : Query Name) (now : ℕ) (e : CacheEntry) {w : Bytes}
      → Map.get (cache_key E q.name q.query_type) st.cache ≡ some e
      → (hit E st c q now e (freshness_at e now E.max_stale)).outcome ≡ success w
      → From st c q now w
  unfolding hit
  hit-Source st c q now e {w} found h =
      let f = freshness_at e now E.max_stale in
      let (st', job) = trigger E f q st in
      let (same, enforce) = trigger_keeps f q st in
      elim (Bool-cases (is_expired f)) [
        | inl old ↦ miss-Source st none c q now (rw (old, if◌then◌else◌) at h)
        | inr live ↦ elim (Option-cases (from_entry E c q e f now)) [
          | inl failed ↦
              let (source, ok) = miss-Source st' job c q now {w = w} (ground arith) in
              (Source-transfer st st' c q now w same enforce source, ok)
          | inr (v, built) ↦
              let fits : sized E c q v ≡ success w = ground arith in
              let (is_v, ok) = sized_success c q v fits in
              let (base, r, t) = from_entry-some c q e f now built in
              (cached e base found live r (rw (t, is_v)), ok)
        ]
      ]

  answer-Source :
      (st : AppState) (c : Client Name) (q : Query Name) (now : ℕ) {w : Bytes}
      → (answer E st c q now).outcome ≡ success w
      → From st c q now w
  unfolding answer
  answer-Source st c q now h =
      elim (Option-cases (Map.get (cache_key E q.name q.query_type) st.cache)) [
        | inl gone ↦ miss-Source st none c q now (rw (gone, answer) at h)
        | inr (e, found) ↦ hit-Source st c q now e found (rw (found, answer) at h)
      ]

  limited-Source :
      (st : AppState) (c : Client Name) (q : Query Name) (now : ℕ) (action : RrlAction) {w : Bytes}
      → (limited E st c q now action).outcome ≡ success w
      → From st c q now w
  unfolding limited
  limited-Source st c q now allow h = answer-Source st c q now h
  limited-Source st c q now truncate h = cc
  limited-Source st c q now drop h = cc

  -- The client of a request that decodes.
  abbrev pub client_of : Protocol → IpAddr → Message Name → Client Name
  client_of p ip req = record {
    protocol = p;
    ip = ip;
    req = req;
    max_payload = (client_limits req.extensions).0;
    dnssec_ok = (client_limits req.extensions).1;
  }

  pub process-Source :
      (st : AppState) (p : Protocol) (ip : IpAddr) (now_ms now : ℕ) (wire : Bytes)
      (req : Message Name) (q : Query Name) {w : Bytes}
      → E.read wire ≡ some req
      → req.queries ≡ q ∷ []
      → (process_dns_query E st p ip now_ms now wire).outcome ≡ success w
      → From st (client_of p ip req) q now w
  unfolding process_dns_query process_questions process_question
  process-Source st p ip now_ms now wire req q {w} decoded single h =
      let asked : (process_questions E st p ip now_ms now req req.queries).outcome ≡ success w =
        rw (decoded, process_dns_query) at h in
      let one : (process_questions E st p ip now_ms now req (q ∷ [])).outcome ≡ success w =
        subst (λ qs. (process_questions E st p ip now_ms now req qs).outcome ≡ success w) single
          asked in
      let (rl, action) = check_query (rrl_key E) st.rate_limiter p ip q.name q.query_type now_ms in
      let st' = record st { rate_limiter = rl } in
      let (source, ok) = limited-Source st' (client_of p ip req) q now action one in
      (Source-transfer st st' (client_of p ip req) q now w refl refl source, ok)

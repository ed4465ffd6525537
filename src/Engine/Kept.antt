-- ===== src/Engine/Kept.antt =====
-- What the cache keeps over any query, revalidation and warm-up: a property of keys and entries that
-- holds of what the three paths store (src/engine.rs, src/main.rs).
use rust_encrypted_dns_serve.Base.{
  ℕ, ◌≡◌, refl, inl, inr, true, false, Option, none, some, List, [], ◌∷◌, Bytes, bytes_eq, All, not,
  ◌&&◌, ◌||◌, &&-true, if◌then◌else◌, Bool-cases, Option-cases,
}
use rust_encrypted_dns_serve.Base.Map
use rust_encrypted_dns_serve.Wire.Ip.{IpAddr}
use rust_encrypted_dns_serve.Wire.Messages.{Query, Message}
use rust_encrypted_dns_serve.Dnssec.Status.{
  DnssecStatus, secure, insecure_unsigned, insecure_unknown, bogus,
}
use rust_encrypted_dns_serve.Cache.{CacheEntry, CacheFreshness, DnsCache, is_expired}
use rust_encrypted_dns_serve.RateLimit.{Protocol, RrlAction, allow, truncate, drop}
use rust_encrypted_dns_serve.Engine.{
  AppState, Env, Job, Client, is_bogus, is_cacheable_dnssec, store, revalidated, revalidate,
  canonical, serve_resolved, miss, trigger, hit, answer, limited, from_entry, cache_key,
  is_cacheable, process_question, process_questions, process_dns_query, touch,
}
use rust_encrypted_dns_serve.Engine.Outcome.{trigger_keeps}
use rust_encrypted_dns_serve.Engine.Ttl.{calculate_cache_ttl}
use rust_encrypted_dns_serve.Startup.Preload.{is_unknown, neutral, warm, warm_answer}

module _ {Name : Type 0} where
  -- Two messages that differ in their header's flags and their id at most.
  abbrev pub SameRecords : Message Name → Message Name → Type 0
  SameRecords m m' =
      (m.response_code ≡ m'.response_code)
      × (m.answers ≡ m'.answers)
      × (m.name_servers ≡ m'.name_servers)
      × (m.additionals ≡ m'.additionals)

  -- `K` ties keys to questions, and `Q` is the property that is kept at a time.
  pub record Keeper (E : Env Name) (now : ℕ) (K : Bytes → Name → ℕ → Type 0)
      (Q : Bytes → CacheEntry → Type 0) : Type 0 where
    pub keyed : (n : Name) (t : ℕ) → K (cache_key E n t) n t
    pub stored :
        (k : Bytes) (n : Name) (t : ℕ) (m m' : Message Name) (status : DnssecStatus) (w : Bytes)
        → K k n t
        → E.resolve n t ≡ some m
        → E.validate m n t ≡ status
        → is_cacheable_dnssec status ≡ true
        → SameRecords m' m
        → E.to_bytes m' ≡ some w
        → Q k (record {
          raw_wire = w;
          min_ttl = calculate_cache_ttl m' status now;
          cached_at = now;
          last_revalidated_at = now;
          dnssec_status = status;
        })
    pub touched :
        (k : Bytes) (e : CacheEntry) → Q k e → Q k (record e { last_revalidated_at = now })

module _ {Name : Type 0} (E : Env Name) where
  pub canonical-SameRecords :
      (status : DnssecStatus) (m : Message Name) → SameRecords (canonical E status m) m
  unfolding canonical
  canonical-SameRecords status m = (refl, refl, refl, refl)

module _ {Name : Type 0} (E : Env Name) (now : ℕ) {K : Bytes → Name → ℕ → Type 0}
    {Q : Bytes → CacheEntry → Type 0} (keeper : Keeper E now K Q) where
  open keeper use {keyed, stored, touched}

  abbrev Kept : DnsCache → Type 0
  Kept = All (λ x. Q x.0 x.1)

  store-Kept :
      (k : Bytes) (n : Name) (t : ℕ) (m m' : Message Name) (status : DnssecStatus)
      (cache : DnsCache)
      → K k n t
      → E.resolve n t ≡ some m
      → E.validate m n t ≡ status
      → is_cacheable_dnssec status ≡ true
      → SameRecords m' m
      → Kept cache
      → Kept (store E k m' status now cache)
  unfolding store
  store-Kept k n t m m' status cache key r v good same a = elim (Option-cases (E.to_bytes m')) [
    | inl failed ↦ rw (failed, store) a
    | inr (w, b) ↦
        rw (b, store)
          (Map.All-insert_at Q k _ cache (stored k n t m m' status w key r v good same b) a)
  ]

  touch-Kept : (k : Bytes) (cache : DnsCache) → Kept cache → Kept (touch E now k cache)
  touch-Kept k cache a = elim (Option-cases (Map.get k cache)) [
    | inl gone ↦ rw (gone, touch) a
    | inr (e, found) ↦
        rw (found, touch)
          (Map.All-insert_at Q k _ cache (touched k e (Map.All-get_at Q k cache a found)) a)
  ]

  neutral-SameRecords :
      (status : DnssecStatus) (m : Message Name) → SameRecords (neutral status m) m
  unfolding neutral
  neutral-SameRecords status m = (refl, refl, refl, refl)

  serve_resolved-Kept :
      (st : AppState) (job : Option (Job Name)) (c : Client Name) (q : Query Name)
      (m : Message Name)
      → E.resolve q.name q.query_type ≡ some m
      → Kept st.cache
      → Kept (serve_resolved E st job c q now m (E.validate m q.name q.query_type)).state.cache
  unfolding serve_resolved
  serve_resolved-Kept st job c q m r a =
      let status = E.validate m q.name q.query_type in
      elim (Bool-cases (is_bogus status && (st.dnssec_enforce && not c.req.checking_disabled))) [
        | inl refused ↦ rw (refused, if◌then◌else◌) a
        | inr served ↦
            rw (served, if◌then◌else◌)
              (elim (Bool-cases
                (is_cacheable (canonical E status m) && is_cacheable_dnssec status)) [
                  | inl kept ↦
                      rw (kept, if◌then◌else◌)
                        (store-Kept (cache_key E q.name q.query_type) q.name q.query_type m
                          (canonical E status m) status st.cache (keyed q.name q.query_type) r refl
                          (&&-true _ _ kept).1 (canonical-SameRecords E status m) a)
                  | inr passed ↦ rw (passed, if◌then◌else◌) a
                ])
      ]

  miss-Kept :
      (st : AppState) (job : Option (Job Name)) (c : Client Name) (q : Query Name)
      → Kept st.cache
      → Kept (miss E st job c q now).state.cache
  unfolding miss
  miss-Kept st job c q a = elim (Option-cases (E.resolve q.name q.query_type)) [
    | inl failed ↦ rw (failed, miss) a
    | inr (m, r) ↦ rw (r, miss) (serve_resolved-Kept st job c q m r a)
  ]

  hit-Kept :
      (st : AppState) (c : Client Name) (q : Query Name) (e : CacheEntry) (f : CacheFreshness)
      → Kept st.cache
      → Kept (hit E st c q now e f).state.cache
  unfolding hit
  hit-Kept st c q e f a = elim (Bool-cases (is_expired f)) [
    | inl old ↦ rw (old, if◌then◌else◌) (miss-Kept st none c q a)
    | inr served ↦
        let a' : Kept (trigger E f q st).0.cache = rw ((trigger_keeps E f q st).0) a in
        rw (served, if◌then◌else◌)
          (elim (Option-cases (from_entry E c q e f now)) [
            | inl failed ↦
                rw (failed, hit) (miss-Kept (trigger E f q st).0 (trigger E f q st).1 c q a')
            | inr (wire, w) ↦ rw (w, hit) a'
          ])
  ]

  answer-Kept :
      (st : AppState) (c : Client Name) (q : Query Name)
      → Kept st.cache
      → Kept (answer E st c q now).state.cache
  unfolding answer
  answer-Kept st c q a = elim (Option-cases (Map.get (cache_key E q.name q.query_type) st.cache)) [
    | inl gone ↦ rw (gone, answer) (miss-Kept st none c q a)
    | inr (e, found) ↦ rw (found, answer) (hit-Kept st c q e _ a)
  ]

  limited-Kept :
      (st : AppState) (c : Client Name) (q : Query Name) (action : RrlAction)
      → Kept st.cache
      → Kept (limited E st c q now action).state.cache
  unfolding limited
  limited-Kept st c q allow a = answer-Kept st c q a
  limited-Kept st c q truncate a = a
  limited-Kept st c q drop a = a

  questions-Kept :
      (st : AppState) (p : Protocol) (ip : IpAddr) (now_ms : ℕ) (req : Message Name)
      (qs : List (Query Name))
      → Kept st.cache
      → Kept (process_questions E st p ip now_ms now req qs).state.cache
  unfolding process_questions process_question
  questions-Kept st p ip now_ms req [] a = a
  questions-Kept st p ip now_ms req (q ∷ []) a = limited-Kept _ _ q _ a
  questions-Kept st p ip now_ms req (q ∷ r ∷ qs) a = a

  pub process-Kept :
      (st : AppState) (p : Protocol) (ip : IpAddr) (now_ms : ℕ) (wire : Bytes)
      → Kept st.cache
      → Kept (process_dns_query E st p ip now_ms now wire).state.cache
  unfolding process_dns_query
  process-Kept st p ip now_ms wire a = elim (Option-cases (E.read wire)) [
    | inl garbage ↦ rw (garbage, process_dns_query) a
    | inr (req, e) ↦ rw (e, process_dns_query) (questions-Kept st p ip now_ms req req.queries a)
  ]

  revalidated-Kept :
      (job : Job Name) (m : Message Name) (cache : DnsCache)
      → K job.key job.qname job.qtype
      → E.resolve job.qname job.qtype ≡ some m
      → Kept cache
      → Kept (revalidated E now job m (E.validate m job.qname job.qtype) cache)
  unfolding revalidated
  revalidated-Kept job m cache key r a =
      let status = E.validate m job.qname job.qtype in
      elim (Bool-cases (is_bogus status)) [
        | inl refused ↦ rw (refused, if◌then◌else◌) a
        | inr good ↦
            rw (good, if◌then◌else◌)
              (elim (Bool-cases (is_cacheable m && is_cacheable_dnssec status)) [
                | inl kept ↦
                    rw (kept, if◌then◌else◌)
                      (store-Kept job.key job.qname job.qtype m (canonical E status m) status cache
                        key r refl (&&-true _ _ kept).1 (canonical-SameRecords E status m) a)
                | inr passed ↦ rw (passed, if◌then◌else◌) (touch-Kept job.key cache a)
              ])
      ]

  pub revalidate-Kept :
      (job : Job Name) (st : AppState)
      → K job.key job.qname job.qtype
      → Kept st.cache
      → Kept (revalidate E now job st).cache
  unfolding revalidate
  revalidate-Kept job st key a = elim (Option-cases (E.resolve job.qname job.qtype)) [
    | inl failed ↦ rw (failed, revalidate) a
    | inr (m, r) ↦ rw (r, revalidate) (revalidated-Kept job m st.cache key r a)
  ]

  settled :
      (status : DnssecStatus)
      → (is_bogus status || is_unknown status) ≡ false
      → is_cacheable_dnssec status ≡ true
  unfolding is_cacheable_dnssec
  settled secure h = refl
  settled insecure_unsigned h = refl
  settled insecure_unknown h = cc
  settled bogus h = cc

  pub warm-Kept : (n : Name) (t : ℕ) (cache : DnsCache) → Kept cache → Kept (warm E now n t cache)
  unfolding warm warm_answer
  warm-Kept n t cache a = elim (Option-cases (E.resolve n t)) [
    | inl failed ↦ rw (failed, warm) a
    | inr (m, r) ↦
        let status = E.validate m n t in
        rw (r, warm)
          (elim (Bool-cases (is_cacheable m)) [
            | inr passed ↦ rw (passed, if◌then◌else◌) a
            | inl answered ↦
                rw (answered, if◌then◌else◌)
                  (elim (Bool-cases (is_bogus status || is_unknown status)) [
                    | inl refused ↦ rw (refused, if◌then◌else◌) a
                    | inr kept ↦
                        rw (kept, if◌then◌else◌)
                          (store-Kept (cache_key E n t) n t m (neutral status m) status cache
                            (keyed n t) r refl (settled status kept) (neutral-SameRecords status m)
                            a)
                  ])
          ])
  ]

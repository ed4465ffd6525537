-- ===== src/Startup/Warmed.antt =====
-- A warmed entry (src/main.rs) against the entry that a query stores (src/engine.rs).
use rust_encrypted_dns_serve.Base.{
  beq_self, ℕ, ◌≡◌, refl, sym, ◌∙◌, ap, arith, true, false, ◌||◌, Option, none, some, Bytes,
  bytes_eq, if◌then◌else◌, Bool-cases, Option-cases, inl, inr,
}
use rust_encrypted_dns_serve.Base.Map
use rust_encrypted_dns_serve.Wire.Messages.{Query, Message}
use rust_encrypted_dns_serve.Dnssec.Status.{DnssecStatus}
use rust_encrypted_dns_serve.Cache.{CacheEntry, CacheFreshness, DnsCache, freshness_at, is_expired}
use rust_encrypted_dns_serve.Engine.{
  AppState, Env, Job, Client, store, canonical, serve_resolved, miss, hit, answer, tailor,
  from_entry, cache_key, is_bogus, is_cacheable,
}
use rust_encrypted_dns_serve.Engine.Response.{construct_client_response, construct_client_message}
use rust_encrypted_dns_serve.Engine.Ttl.{calculate_cache_ttl}
use rust_encrypted_dns_serve.Engine.Outcome.{trigger_keeps}
use rust_encrypted_dns_serve.Recursor.Ttl.{calculate_min_ttl}
use rust_encrypted_dns_serve.Startup.Preload.{neutral, is_unknown, warm_answer}

module _ {Name : Type 0} (E : Env Name) where
  serve_resolved_outcome :
      (st st' : AppState) (job job' : Option (Job Name)) (c : Client Name) (q : Query Name)
      (now : ℕ) (msg : Message Name) (status : DnssecStatus)
      → st.dnssec_enforce ≡ st'.dnssec_enforce
      → (serve_resolved E st job c q now msg status).outcome
        ≡ (serve_resolved E st' job' c q now msg status).outcome
  unfolding serve_resolved
  serve_resolved_outcome st st' job job' c q now msg status e = ground arith

  miss_outcome :
      (st st' : AppState) (job job' : Option (Job Name)) (c : Client Name) (q : Query Name)
      (now : ℕ)
      → st.dnssec_enforce ≡ st'.dnssec_enforce
      → (miss E st job c q now).outcome ≡ (miss E st' job' c q now).outcome
  unfolding miss
  miss_outcome st st' job job' c q now e = elim (Option-cases (E.resolve q.name q.query_type)) [
    | inl failed ↦ rw (failed, miss) refl
    | inr (msg, r) ↦ rw (r, miss) (serve_resolved_outcome st st' job job' c q now msg _ e)
  ]

  tailor-neutral :
      (c : Client Name) (q : Query Name) (msg : Message Name) (status : DnssecStatus)
      (f : CacheFreshness) (at now : ℕ)
      → tailor E c q (neutral status msg) status f at now
        ≡ tailor E c q (canonical E status msg) status f at now
  unfolding tailor construct_client_response construct_client_message neutral canonical
  tailor-neutral c q msg status f at now = refl

  -- The entries that the two paths store.
  abbrev entry : Bytes → Message Name → DnssecStatus → ℕ → CacheEntry
  entry wire msg status now = record {
    raw_wire = wire;
    min_ttl = calculate_cache_ttl msg status now;
    cached_at = now;
    last_revalidated_at = now;
    dnssec_status = status;
  }

  ttl-neutral :
      (msg : Message Name) (status : DnssecStatus) (now : ℕ)
      → calculate_cache_ttl (neutral status msg) status now
        ≡ calculate_cache_ttl (canonical E status msg) status now
  unfolding calculate_cache_ttl calculate_min_ttl neutral canonical
  ttl-neutral msg status now = refl

  from_entry-neutral :
      (c : Client Name) (q : Query Name) (msg : Message Name) (status : DnssecStatus)
      (f : CacheFreshness) (now later : ℕ) (w w' : Bytes)
      → E.read w ≡ some (neutral status msg)
      → E.read w' ≡ some (canonical E status msg)
      → from_entry E c q (entry w (neutral status msg) status now) f later
        ≡ from_entry E c q (entry w' (canonical E status msg) status now) f later
  unfolding from_entry
  from_entry-neutral c q msg status f now later w w' r r' =
      rw (r, from_entry) (rw (r', from_entry) (tailor-neutral c q msg status f now later))

  hit_outcome :
      (st st' : AppState) (c : Client Name) (q : Query Name) (now : ℕ) (e e' : CacheEntry)
      (f : CacheFreshness)
      → st.dnssec_enforce ≡ st'.dnssec_enforce
      → from_entry E c q e f now ≡ from_entry E c q e' f now
      → (hit E st c q now e f).outcome ≡ (hit E st' c q now e' f).outcome
  unfolding hit
  hit_outcome st st' c q now e e' f same built = elim (Bool-cases (is_expired f)) [
    | inl old ↦ rw (old, if◌then◌else◌) (miss_outcome st st' none none c q now same)
    | inr live ↦
        let kept = (trigger_keeps E f q st).1 ∙ same ∙ sym ((trigger_keeps E f q st').1) in
        rw (live, if◌then◌else◌)
          (elim (Option-cases (from_entry E c q e f now)) [
            | inl failed ↦
                rw (failed, hit) (rw (sym built ∙ failed, hit) (miss_outcome _ _ _ _ c q now kept))
            | inr (w, found) ↦ rw (found, hit) (rw (sym built ∙ found, hit) refl)
          ])
  ]

  freshness-ttl :
      (w w' : Bytes) (msg msg' : Message Name) (status : DnssecStatus) (now later : ℕ)
      → calculate_cache_ttl msg status now ≡ calculate_cache_ttl msg' status now
      → freshness_at (entry w msg status now) later E.max_stale
        ≡ freshness_at (entry w' msg' status now) later E.max_stale
  unfolding freshness_at
  freshness-ttl w w' msg msg' status now later e = rw e refl

  get-store :
      (key : Bytes) (msg : Message Name) (status : DnssecStatus) (now : ℕ) (cache : DnsCache)
      (w : Bytes)
      → E.to_bytes msg ≡ some w
      → Map.get key (store E key msg status now cache) ≡ some (entry w msg status now)
  unfolding store
  get-store key msg status now cache w b =
      rw (b, store)
        (Map.get-insert key key (entry w msg status now) cache
          ∙ ap (λ t. if t then some (entry w msg status now) else Map.get key cache) (beq_self key))

  warm_answer-store :
      (name : Name) (qtype now : ℕ) (msg : Message Name) (status : DnssecStatus) (cache : DnsCache)
      → is_cacheable msg ≡ true
      → (is_bogus status || is_unknown status) ≡ false
      → warm_answer E now name qtype msg status cache
        ≡ store E (cache_key E name qtype) (neutral status msg) status now cache
  unfolding warm_answer
  warm_answer-store name qtype now msg status cache good settled =
      rw (good, if◌then◌else◌) (rw (settled, if◌then◌else◌) refl)

  -- The state of a query whose answer was stored, and of one for which it was warmed.
  abbrev pub warmed : AppState → Query Name → ℕ → Message Name → DnssecStatus → AppState
  warmed st q now msg status = record st {
    cache = warm_answer E now q.name q.query_type msg status st.cache;
  }

  abbrev pub queried : AppState → Query Name → ℕ → Message Name → DnssecStatus → AppState
  queried st q now msg status = record st {
    cache = store E (cache_key E q.name q.query_type) (canonical E status msg) status now st.cache;
  }

  -- Where the codec reads back the two messages that it wrote, no client can tell at any later time
  -- whether the entry for its question was warmed or stored by a query at the same moment: for an
  -- answer and a status that are cached, the outcome of the query is the same in both states.
  pub answer-warmed :
      (st : AppState) (c : Client Name) (q : Query Name) (now later : ℕ) (msg : Message Name)
      (status : DnssecStatus) {w w' : Bytes}
      → is_cacheable msg ≡ true
      → (is_bogus status || is_unknown status) ≡ false
      → E.to_bytes (neutral status msg) ≡ some w
      → E.read w ≡ some (neutral status msg)
      → E.to_bytes (canonical E status msg) ≡ some w'
      → E.read w' ≡ some (canonical E status msg)
      → (answer E (warmed st q now msg status) c q later).outcome
        ≡ (answer E (queried st q now msg status) c q later).outcome
  unfolding answer
  answer-warmed st c q now later msg status {w} {w'} good settled b r b' r' =
      let key = cache_key E q.name q.query_type in
      let e = entry w (neutral status msg) status now in
      let e' = entry w' (canonical E status msg) status now in
      let found : Map.get key (warmed st q now msg status).cache ≡ some e =
        ap (Map.get key)
          (warm_answer-store q.name q.query_type now msg status st.cache good settled)
        ∙ get-store key (neutral status msg) status now st.cache w b in
      let found' : Map.get key (queried st q now msg status).cache ≡ some e' =
        get-store key (canonical E status msg) status now st.cache w' b' in
      let same : freshness_at e later E.max_stale ≡ freshness_at e' later E.max_stale =
        freshness-ttl w w' _ _ status now later (ttl-neutral msg status now) in
      rw (found, answer)
        (rw (found', answer)
          (ap (λ f. (hit E (warmed st q now msg status) c q later e f).outcome) same
            ∙ hit_outcome (warmed st q now msg status) (queried st q now msg status) c q later e e'
                (freshness_at e' later E.max_stale) refl
                (from_entry-neutral c q msg status (freshness_at e' later E.max_stale) now later w
                  w' r r')))

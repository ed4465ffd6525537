-- ===== src/Engine/System.antt =====
-- The pipeline with its background tasks, as a step relation: queries of any clients, the ends of
-- revalidations, passes of the limiter's cleanup and insertions of the cache's warm-up, in any order
-- (src/engine.rs, src/main.rs).
use rust_encrypted_dns_serve.Base.{
  ℕ, ◌+◌, ◌≡◌, ◌⊎◌, refl, arith, Bool, true, false, Option, none, some, List, [], ◌∷◌, ◌++◌, Bytes,
  bytes_eq, bytes_beq, bytes_beq_iff, if◌then◌else◌, Bool-cases, Option-cases, inl, inr,
}
use rust_encrypted_dns_serve.Base.Map
use rust_encrypted_dns_serve.Wire.Ip.{IpAddr}
use rust_encrypted_dns_serve.Wire.Messages.{Query, Message}
use rust_encrypted_dns_serve.Dnssec.Status.{DnssecStatus}
use rust_encrypted_dns_serve.Cache.{
  CacheEntry, CacheFreshness, fresh, stale, expired, freshness_at, is_expired,
}
use rust_encrypted_dns_serve.RateLimit.{Protocol, RrlAction, allow, truncate, drop, cleanup}
use rust_encrypted_dns_serve.Engine.{
  AppState, Env, Job, Client, revalidate, serve_resolved, miss, trigger, hit, answer, limited,
  from_entry, cache_key, process_question, process_questions, process_dns_query,
}
use rust_encrypted_dns_serve.Engine.Store.{
  AllValidated, process-AllValidated, revalidate-AllValidated, warm-AllValidated,
}
use rust_encrypted_dns_serve.Startup.Preload.{warm}

pub record System (Name : Type 0) : Type 0 where
  pub app : AppState
  pub jobs : List (Job Name)

abbrev pub spawn {ℓ} : {A : Type ℓ} → Option A → List A → List A
spawn none jobs = jobs
spawn (some j) jobs = j ∷ jobs

abbrev pub bit : Bool → ℕ
bit true = 1
bit false = 0

module _ {Name : Type 0} where
  -- At each step the codec, the resolver and the validator answer as they will.
  pub data Step (s : System Name) : System Name → Type 0 where
    query :
        (E : Env Name) (p : Protocol) (ip : IpAddr) (now_ms now : ℕ) (wire : Bytes)
        → Step s (record {
          app = (process_dns_query E s.app p ip now_ms now wire).state;
          jobs = spawn (process_dns_query E s.app p ip now_ms now wire).spawned s.jobs;
        })
    finish :
        (E : Env Name) (now : ℕ) (before : List (Job Name)) (job : Job Name)
        (after : List (Job Name))
        → s.jobs ≡ before ++ (job ∷ after)
        → Step s (record { app = revalidate E now job s.app; jobs = before ++ after })
    prune :
        (now_ms max_age : ℕ)
        → Step s (record {
          app = record (s.app) { rate_limiter = cleanup now_ms max_age s.app.rate_limiter };
          jobs = s.jobs;
        })
    preload :
        (E : Env Name) (now : ℕ) (name : Name) (qtype : ℕ)
        → Step s (record {
          app = record (s.app) { cache = warm E now name qtype s.app.cache };
          jobs = s.jobs;
        })

  pub data Reach (s : System Name) : System Name → Type 0 where
    here : Reach s s
    next : {t u : System Name} → Reach s t → Step t u → Reach s u

  -- How many running revalidations have a key.
  abbrev pub running : Bytes → List (Job Name) → ℕ
  running k [] = 0
  running k (j ∷ js) = (if bytes_beq j.key k then 1 else 0) + running k js

  pub record IsConsistent (s : System Name) : Type 0 where
    pub validated : AllValidated s.app.cache
    pub marked : (k : Bytes) → running k s.jobs ≡ bit (Map.contains_key k s.app.in_flight)

  running-append :
      (k : Bytes) (xs ys : List (Job Name)) → running k (xs ++ ys) ≡ running k xs + running k ys
  running-append k [] ys = omega arith
  running-append k (x ∷ xs) ys = omega (arith, running-append k xs ys)

  -- What a query does to the set: nothing, or it spawns one job for a key that was not in it.
  abbrev pub Spawns : Env Name → AppState → AppState → Option (Job Name) → Type 0
  Spawns E st st' o =
      ((o ≡ none) × (st'.in_flight ≡ st.in_flight))
      ⊎ ((j : Job Name) × (o ≡ some j)
          × (j.key ≡ cache_key E j.qname j.qtype)
          × (Map.contains_key j.key st.in_flight ≡ false)
          × (st'.in_flight ≡ Map.insert j.key tt st.in_flight))

  serve_resolved_keeps :
      (E : Env Name) (st : AppState) (job : Option (Job Name)) (c : Client Name) (q : Query Name)
      (now : ℕ) (msg : Message Name) (status : DnssecStatus)
      → ((serve_resolved E st job c q now msg status).spawned ≡ job)
        × ((serve_resolved E st job c q now msg status).state.in_flight ≡ st.in_flight)
  unfolding serve_resolved
  serve_resolved_keeps E st job c q now msg status = ground arith

  miss_keeps :
      (E : Env Name) (st : AppState) (job : Option (Job Name)) (c : Client Name) (q : Query Name)
      (now : ℕ)
      → ((miss E st job c q now).spawned ≡ job)
        × ((miss E st job c q now).state.in_flight ≡ st.in_flight)
  unfolding miss
  miss_keeps E st job c q now = elim (Option-cases (E.resolve q.name q.query_type)) [
    | inl failed ↦ rw (failed, miss) (refl, refl)
    | inr (msg, e) ↦
        rw (e, miss)
          (serve_resolved_keeps E st job c q now msg (E.validate msg q.name q.query_type))
  ]

  trigger-Spawns :
      (E : Env Name) (f : CacheFreshness) (q : Query Name) (st : AppState)
      → Spawns E st (trigger E f q st).0 (trigger E f q st).1
  unfolding trigger
  trigger-Spawns E fresh q st = inl (refl, refl)
  trigger-Spawns E expired q st = inl (refl, refl)
  trigger-Spawns E stale q st =
      elim (Bool-cases (Map.contains_key (cache_key E q.name q.query_type) st.in_flight)) [
        | inl busy ↦ rw (busy, if◌then◌else◌) (inl (refl, refl))
        | inr free ↦ rw (free, if◌then◌else◌) (inr (_, refl, refl, free, refl))
      ]

  Spawns-miss :
      (E : Env Name) (st st' : AppState) (job : Option (Job Name)) (c : Client Name)
      (q : Query Name) (now : ℕ)
      → Spawns E st st' job
      → Spawns E st (miss E st' job c q now).state (miss E st' job c q now).spawned
  Spawns-miss E st st' job c q now h =
      let (same, kept) = miss_keeps E st' job c q now in rw (same, kept) h

  hit-Spawns :
      (E : Env Name) (st : AppState) (c : Client Name) (q : Query Name) (now : ℕ) (e : CacheEntry)
      (f : CacheFreshness)
      → Spawns E st (hit E st c q now e f).state (hit E st c q now e f).spawned
  unfolding hit
  hit-Spawns E st c q now e f = elim (Bool-cases (is_expired f)) [
    | inl old ↦ rw (old, if◌then◌else◌) (Spawns-miss E st st none c q now (inl (refl, refl)))
    | inr served ↦
        rw (served, if◌then◌else◌)
          (elim (Option-cases (from_entry E c q e f now)) [
            | inl failed ↦
                rw (failed, hit)
                  (Spawns-miss E st (trigger E f q st).0 (trigger E f q st).1 c q now
                    (trigger-Spawns E f q st))
            | inr (wire, w) ↦ rw (w, hit) (trigger-Spawns E f q st)
          ])
  ]

  answer-Spawns :
      (E : Env Name) (st : AppState) (c : Client Name) (q : Query Name) (now : ℕ)
      → Spawns E st (answer E st c q now).state (answer E st c q now).spawned
  unfolding answer
  answer-Spawns E st c q now =
      elim (Option-cases (Map.get (cache_key E q.name q.query_type) st.cache)) [
        | inl gone ↦ rw (gone, answer) (Spawns-miss E st st none c q now (inl (refl, refl)))
        | inr (e, found) ↦
            rw (found, answer) (hit-Spawns E st c q now e (freshness_at e now E.max_stale))
      ]

  limited-Spawns :
      (E : Env Name) (st : AppState) (c : Client Name) (q : Query Name) (now : ℕ)
      (action : RrlAction)
      → Spawns E st (limited E st c q now action).state (limited E st c q now action).spawned
  unfolding limited
  limited-Spawns E st c q now allow = answer-Spawns E st c q now
  limited-Spawns E st c q now truncate = inl (refl, refl)
  limited-Spawns E st c q now drop = inl (refl, refl)

  questions-Spawns :
      (E : Env Name) (st : AppState) (p : Protocol) (ip : IpAddr) (now_ms now : ℕ)
      (req : Message Name) (qs : List (Query Name))
      → let r = process_questions E st p ip now_ms now req qs in Spawns E st r.state r.spawned
  unfolding process_questions process_question
  questions-Spawns E st p ip now_ms now req [] = inl (refl, refl)
  questions-Spawns E st p ip now_ms now req (q ∷ []) = limited-Spawns E _ _ q now _
  questions-Spawns E st p ip now_ms now req (q ∷ r ∷ qs) = inl (refl, refl)

  pub process-Spawns :
      (E : Env Name) (st : AppState) (p : Protocol) (ip : IpAddr) (now_ms now : ℕ) (wire : Bytes)
      → let r = process_dns_query E st p ip now_ms now wire in Spawns E st r.state r.spawned
  unfolding process_dns_query
  process-Spawns E st p ip now_ms now wire = elim (Option-cases (E.read wire)) [
    | inl garbage ↦ rw (garbage, process_dns_query) (inl (refl, refl))
    | inr (req, e) ↦
        rw (e, process_dns_query) (questions-Spawns E st p ip now_ms now req req.queries)
  ]

  -- The three kinds of step keep the marks.
  spawn_marks :
      (E : Env Name) (st st' : AppState) (o : Option (Job Name)) (js : List (Job Name)) (k : Bytes)
      → Spawns E st st' o
      → running k js ≡ bit (Map.contains_key k st.in_flight)
      → running k (spawn o js) ≡ bit (Map.contains_key k st'.in_flight)
  spawn_marks E st st' none js k (inl (o, same)) h = rw (same, h)
  spawn_marks E st st' none js k (inr (j, o, keyed, free, marked)) h = cc
  spawn_marks E st st' (some i) js k (inl (o, same)) h = cc
  spawn_marks E st st' (some i) js k (inr (j, o, keyed, free, marked)) h =
      let same : i.key ≡ j.key = ground arith in
      ground
        (arith, same, bytes_beq_iff j.key k, Map.contains_key-insert j.key k (tt {0}) st.in_flight)

  finish_marks :
      (E : Env Name) (now : ℕ) (st : AppState) (before : List (Job Name)) (job : Job Name)
      (after : List (Job Name)) (k : Bytes)
      → running k (before ++ (job ∷ after)) ≡ bit (Map.contains_key k st.in_flight)
      → running k (before ++ after) ≡ bit (Map.contains_key k (revalidate E now job st).in_flight)
  unfolding revalidate
  finish_marks E now st before job after k h = ground (
    arith,
    running-append k before (job ∷ after),
    running-append k before after,
    bytes_beq_iff job.key k,
    Map.contains_key-remove job.key k st.in_flight,
  )

  Step-IsConsistent : {s t : System Name} → Step s t → IsConsistent s → IsConsistent t
  Step-IsConsistent {s} (query E p ip now_ms now wire) c = record {
    validated = process-AllValidated E s.app p ip now_ms now wire c.validated;
    marked = λ k.
        spawn_marks E s.app (process_dns_query E s.app p ip now_ms now wire).state
          (process_dns_query E s.app p ip now_ms now wire).spawned s.jobs k
          (process-Spawns E s.app p ip now_ms now wire) (c.marked k);
  }
  Step-IsConsistent {s} (finish E now before job after e) c = record {
    validated = revalidate-AllValidated E now job s.app c.validated;
    marked = λ k. finish_marks E now s.app before job after k (rw (← e) (c.marked k));
  }
  Step-IsConsistent {s} (preload E now name qtype) c = record {
    validated = warm-AllValidated E now name qtype s.app.cache c.validated;
    marked = c.marked;
  }
  Step-IsConsistent (prune now_ms max_age) c = record { validated = c.validated; marked = c.marked }

  -- In every state that a consistent one leads to, whatever clients send and upstreams answer, also
  -- while the cache is warmed, the cache holds only entries that are Secure or proven unsigned, never
  -- Bogus or unknown ones, and the in-flight set holds a key exactly when one revalidation for it is
  -- running, never two.
  pub Reach-IsConsistent : {s t : System Name} → IsConsistent s → Reach s t → IsConsistent t
  Reach-IsConsistent c here = c
  Reach-IsConsistent c (next r st) = Step-IsConsistent st (Reach-IsConsistent c r)

-- ===== src/Engine/Malformed.antt =====
-- Which requests are rejected as malformed, and what that leaves (src/engine.rs).
use rust_encrypted_dns_serve.Base.{
  ℕ, ◌≡◌, ◌≢◌, ◌↔◌, ◌⊎◌, refl, sym, inl, inr, arith, Bool, true, false, Option, none, some, List,
  [], ◌∷◌, Bytes, bytes_eq, length, Option-cases,
}
use mathlib.Core.Path.{subst}
use rust_encrypted_dns_serve.Base.Map
use rust_encrypted_dns_serve.Wire.Ip.{IpAddr}
use rust_encrypted_dns_serve.Wire.Messages.{Query, Message}
use rust_encrypted_dns_serve.Dnssec.Status.{DnssecStatus}
use rust_encrypted_dns_serve.Cache.{freshness_at}
use rust_encrypted_dns_serve.RateLimit.{Protocol, RrlAction, allow, truncate, drop}
use rust_encrypted_dns_serve.Engine.{
  AppState, Env, Job, Client, ProcessOutcome, success, serv_fail, truncated, dropped, malformed,
  sized, cache_key, trigger, limited, answer, miss, hit, serve_resolved, process_question,
  process_questions, process_dns_query,
}

abbrev is_malformed : ProcessOutcome → Bool
is_malformed malformed = true
is_malformed (success w) = false
is_malformed (serv_fail w) = false
is_malformed (truncated w) = false
is_malformed dropped = false

module _ {Name : Type 0} (E : Env Name) where
  serve_resolved_well :
      (st : AppState) (job : Option (Job Name)) (c : Client Name) (q : Query Name) (now : ℕ)
      (msg : Message Name) (status : DnssecStatus)
      → is_malformed (serve_resolved E st job c q now msg status).outcome ≡ false
  unfolding serve_resolved sized
  serve_resolved_well st job c q now msg status = ground arith

  miss_well :
      (st : AppState) (job : Option (Job Name)) (c : Client Name) (q : Query Name) (now : ℕ)
      → is_malformed (miss E st job c q now).outcome ≡ false
  unfolding miss
  miss_well st job c q now = elim (Option-cases (E.resolve q.name q.query_type)) [
    | inl failed ↦ rw (failed, miss)
    | inr (msg, e) ↦
        rw (e, miss) (serve_resolved_well st job c q now msg (E.validate msg q.name q.query_type))
  ]

  answer_well :
      (st : AppState) (c : Client Name) (q : Query Name) (now : ℕ)
      → is_malformed (answer E st c q now).outcome ≡ false
  unfolding answer hit sized
  answer_well st c q now =
      elim (Option-cases (Map.get (cache_key E q.name q.query_type) st.cache)) [
        | inl gone ↦ rw (gone, answer) (miss_well st none c q now)
        | inr (e, found) ↦
            let t = trigger E (freshness_at e now E.max_stale) q st in
            rw (found, answer)
              (ground (arith, miss_well st none c q now, miss_well t.0 t.1 c q now))
      ]

  limited_well :
      (st : AppState) (c : Client Name) (q : Query Name) (now : ℕ) (action : RrlAction)
      → is_malformed (limited E st c q now action).outcome ≡ false
  unfolding limited
  limited_well st c q now allow = answer_well st c q now
  limited_well st c q now truncate = refl
  limited_well st c q now drop = refl

  question_well :
      (st : AppState) (p : Protocol) (ip : IpAddr) (now_ms now : ℕ) (req : Message Name)
      (q : Query Name)
      → is_malformed (process_question E st p ip now_ms now req q).outcome ≡ false
  unfolding process_question
  question_well st p ip now_ms now req q = limited_well _ _ q now _

  abbrev pub IsRejected : Bytes → Type 0
  IsRejected wire =
      (E.read wire ≡ none)
      ⊎ ((req : Message Name) × (E.read wire ≡ some req) × (length req.queries ≢ 1))

  questions_malformed :
      (st : AppState) (p : Protocol) (ip : IpAddr) (now_ms now : ℕ) (req : Message Name)
      (qs : List (Query Name))
      → ((process_questions E st p ip now_ms now req qs).outcome ≡ malformed → length qs ≢ 1)
        × (length qs ≢ 1
            → ((process_questions E st p ip now_ms now req qs).outcome ≡ malformed)
              × ((process_questions E st p ip now_ms now req qs).state ≡ st))
  unfolding process_questions
  questions_malformed st p ip now_ms now req [] = ((λ h. omega arith), (λ h. (refl, refl)))
  questions_malformed st p ip now_ms now req (q ∷ []) = (
    (λ h. absurd (ground (arith, question_well st p ip now_ms now req q))),
    (λ h. absurd (h refl)),
  )
  questions_malformed st p ip now_ms now req (q ∷ r ∷ qs) =
      ((λ h. omega arith), (λ h. (refl, refl)))

  -- A request is malformed exactly when its bytes do not decode, or decode to a message with no
  -- question or more than one; and such a request spends no token and changes nothing.
  pub process_malformed :
      (st : AppState) (p : Protocol) (ip : IpAddr) (now_ms now : ℕ) (wire : Bytes)
      → ((process_dns_query E st p ip now_ms now wire).outcome ≡ malformed ↔ IsRejected wire)
        × (IsRejected wire → (process_dns_query E st p ip now_ms now wire).state ≡ st)
  unfolding process_dns_query
  process_malformed st p ip now_ms now wire = elim (Option-cases (E.read wire)) [
    | inl garbage ↦ rw (garbage, process_dns_query) (((λ h. inl refl), (λ h. refl)), (λ h. refl))
    | inr (req, e) ↦
        let (only, then_so) = questions_malformed st p ip now_ms now req req.queries in
        let several : IsRejected wire → length req.queries ≢ 1 = λ r. elim r [
          | inl garbage ↦ absurd (ground arith)
          | inr (req', e', count) ↦
              let same : req ≡ req' = ground arith in
              subst (λ m. length m.queries ≢ 1) (sym same) count
        ] in
        (
          (
            (λ h. inr (req, e, only (rw (e, process_dns_query) at h))),
            (λ r. rw (e, process_dns_query) (then_so (several r)).0),
          ),
          (λ r. rw (e, process_dns_query) (then_so (several r)).1),
        )
  ]

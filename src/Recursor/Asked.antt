-- ===== src/Recursor/Asked.antt =====
-- A resolution answers the question that it was given (src/recursor.rs).
use rust_encrypted_dns_serve.Base.{
  ℕ, zero, suc, ◌+◌, ◌≡◌, arith, true, some, List, [], ◌∷◌, ◌++◌, Bytes, ◌==◌, find_map,
  if◌then◌else◌, Bool-cases, Option-cases, inl, inr,
}
use rust_encrypted_dns_serve.Wire.Codes.{yx_domain, cname_type}
use rust_encrypted_dns_serve.Wire.Ip.{IpAddr}
use rust_encrypted_dns_serve.Wire.Names.{NameOps}
use rust_encrypted_dns_serve.Wire.Messages.{Message}
use rust_encrypted_dns_serve.Recursor.Query.{Net, query_servers, one_match, response_matches}
use rust_encrypted_dns_serve.Recursor.Contact.{IsResponse, query_servers-IsResponse}
use rust_encrypted_dns_serve.Recursor.Dname.{Substituted, to_name, failed, dname_substitute}
use rust_encrypted_dns_serve.Recursor.Merge.{merge_redirection_response}
use rust_encrypted_dns_serve.Recursor.Chain.{
  Chain, in_loop, in_answers, unfinished, ends_at, has_record, find_cname,
}
use rust_encrypted_dns_serve.Recursor.Referral.{Referral, terminal, invalid, delegated, referral}
use rust_encrypted_dns_serve.Recursor.State.{
  State, Resolved, answered, stopped, Walk, Next, finish, go, max_depth, max_steps,
}
use rust_encrypted_dns_serve.Recursor.Redirect.{
  Resolver, seen_before, visit, redirect, joined, after_chain, follow_cname, follow_dname,
  synthesized, dname_at,
}
use rust_encrypted_dns_serve.Recursor.Resolve.{
  descend, next_servers, refer, on_response, on_failure, step, walk, resolve_internal, resolve,
}

module _ {Name : Type 0} (N : NameOps Name) (W : Net Name) where
  -- Exactly one question: that name, type and class IN.
  abbrev pub Asks : Name → ℕ → Message Name → Type 0
  Asks name rtype m = one_match N m.queries name rtype ≡ true

  abbrev pub Answers : Name → ℕ → Resolved Name → Type 0
  Answers name rtype (answered m st) = Asks name rtype m
  Answers name rtype (stopped e st) = Unit

  abbrev AnswersNext : Name → ℕ → Next Name → Type 0
  AnswersNext name rtype (finish r) = Answers name rtype r
  AnswersNext name rtype (go w st) = Unit

  joined-Answers :
      (name : Name) (rtype : ℕ) (response : Message Name) (r : Resolved Name)
      → Answers name rtype (joined N W name rtype response r)
  unfolding merge_redirection_response
  joined-Answers name rtype response (answered m st) = ground (arith, N.eq_refl name)
  joined-Answers name rtype response (stopped e st) = tt

  redirect-Answers :
      (rec : Resolver Name) (key : Bytes) (name : Name) (rtype : ℕ) (response : Message Name)
      (target : Name) (st : State)
      → Answers name rtype (redirect N W rec key name rtype response target st)
  unfolding redirect
  redirect-Answers rec key name rtype response target st =
      elim (Bool-cases (seen_before key st.visited)) [
        | inl again ↦ rw (again, redirect) tt
        | inr new ↦
            rw (new, redirect)
              (joined-Answers name rtype response (rec target rtype (visit key st)))
      ]

  after_chain-Answers :
      (rec : Resolver Name) (name : Name) (rtype : ℕ) (m : Message Name) (st : State)
      (c : Chain Name)
      → Asks name rtype m
      → Answers name rtype (after_chain N W rec name rtype m st c)
  after_chain-Answers rec name rtype m st in_loop h = tt
  after_chain-Answers rec name rtype m st unfinished h = tt
  after_chain-Answers rec name rtype m st in_answers h = h
  after_chain-Answers rec name rtype m st (ends_at target) h =
      redirect-Answers rec _ name rtype m target st

  synthesized-queries :
      (name n : Name) (ttl : ℕ) (m : Message Name)
      → (synthesized N W name n ttl m).queries ≡ m.queries
  synthesized-queries name n ttl m = elim (Bool-cases (has_record N name cname_type m.answers)) [
    | inl there ↦ rw (there, if◌then◌else◌)
    | inr missing ↦ rw (missing, if◌then◌else◌)
  ]

  follow_dname-Answers :
      (rec : Resolver Name) (name : Name) (rtype : ℕ) (m : Message Name) (ttl : ℕ)
      (s : Substituted Name) (st : State)
      → Asks name rtype m
      → Answers name rtype (follow_dname N W rec name rtype m ttl s st)
  unfolding follow_dname
  follow_dname-Answers rec name rtype m ttl (failed code) st h =
      elim (Bool-cases (code == yx_domain)) [
        | inl long ↦ rw (long, if◌then◌else◌) h
        | inr wrong ↦ rw (wrong, if◌then◌else◌) tt
      ]
  follow_dname-Answers rec name rtype m ttl (to_name n) st h =
      let working = synthesized N W name n ttl m in
      elim (Bool-cases (has_record N n rtype working.answers)) [
        | inl there ↦ rw (there, follow_dname) (rw (synthesized-queries name n ttl m) h)
        | inr elsewhere ↦
            rw (elsewhere, follow_dname) (redirect-Answers rec _ name rtype working n st)
      ]

  descend-AnswersNext :
      (name : Name) (rtype : ℕ) (owner : Name) (m : Message Name) (found : List IpAddr × State)
      → AnswersNext name rtype (descend N W owner m found)
  unfolding descend
  descend-AnswersNext name rtype owner m ([], st) = tt
  descend-AnswersNext name rtype owner m (ip ∷ ips, st) = tt

  refer-AnswersNext :
      (rec : Resolver Name) (name : Name) (rtype : ℕ) (w : Walk Name) (m : Message Name)
      (st : State) (r : Referral Name)
      → Asks name rtype m
      → AnswersNext name rtype (refer N W rec w m st r)
  refer-AnswersNext rec name rtype w m st terminal h = h
  refer-AnswersNext rec name rtype w m st invalid h = tt
  refer-AnswersNext rec name rtype w m st (delegated owner ns) h =
      descend-AnswersNext name rtype owner m (next_servers N W rec w owner ns m st)

  on_response-AnswersNext :
      (rec : Resolver Name) (name : Name) (rtype : ℕ) (w : Walk Name) (m : Message Name)
      (st : State)
      → Asks name rtype m
      → AnswersNext name rtype (on_response N W rec name rtype w m st)
  unfolding on_response follow_cname
  on_response-AnswersNext rec name rtype w m st h =
      elim (Bool-cases (has_record N name rtype m.answers)) [
        | inl there ↦ rw (there, on_response) h
        | inr elsewhere ↦
            rw (elsewhere, on_response)
              (elim (Option-cases (find_cname N name m.answers)) [
                | inr (target, e) ↦
                    rw (e, on_response) (after_chain-Answers rec name rtype m st _ h)
                | inl no_cname ↦
                    rw (no_cname, on_response)
                      (elim (Option-cases (find_map (dname_at N W name) m.answers)) [
                        | inr ((owner, (target, ttl)), e) ↦
                            rw (e, on_response)
                              (follow_dname-Answers rec name rtype m ttl
                                (dname_substitute N name owner target) st h)
                        | inl no_dname ↦
                            rw (no_dname, on_response)
                              (refer-AnswersNext rec name rtype w m st (referral N w name rtype m)
                                h)
                      ])
              ])
      ]

  matched-Asks :
      (name : Name) (rtype txid : ℕ) (m : Message Name)
      → response_matches N m txid name rtype ≡ true
      → Asks name rtype m
  unfolding response_matches
  matched-Asks name rtype txid m h = ground arith

  step-AnswersNext :
      (rec : Resolver Name) (name : Name) (rtype : ℕ) (w : Walk Name) (st : State)
      → AnswersNext name rtype (step N W rec name rtype w st)
  unfolding step on_failure
  step-AnswersNext rec name rtype w st =
      let asked = query_servers N W st.races w.servers name rtype in
      let st' = record st { races = st.races + 1; sent = st.sent ++ asked.1 } in
      elim (Option-cases asked.0) [
        | inl silent ↦
            rw (silent, step)
              (elim (Bool-cases w.using_cached) [
                | inl cached ↦ rw (cached, on_failure) tt
                | inr root ↦ rw (root, on_failure) tt
              ])
        | inr (m, e) ↦
            let ((ip, _, matched), _) : IsResponse N W st.races name rtype (some m) =
              rw e at ((query_servers-IsResponse N W st.races w.servers name rtype).1) in
            rw (e, step)
              (on_response-AnswersNext rec name rtype w m st'
                (matched-Asks name rtype (W.txid st.races ip) m matched))
      ]

  walk-Answers :
      (n : ℕ) (rec : Resolver Name) (name : Name) (rtype : ℕ) (w : Walk Name) (st : State)
      → Answers name rtype (walk N W n rec name rtype w st)
  unfolding walk
  walk-Answers zero rec name rtype w st = tt
  walk-Answers (suc n) rec name rtype w st =
      after (λ w' st'. walk-Answers n rec name rtype w' st') (step N W rec name rtype w st)
        (step-AnswersNext rec name rtype w st)
    where
      after :
          ((w' : Walk Name) (st' : State) → Answers name rtype (walk N W n rec name rtype w' st'))
          → (r : Next Name) → AnswersNext name rtype r
          → Answers name rtype
              (elim r [ finish f ↦ f | go w' st' ↦ walk N W n rec name rtype w' st' ])
      after again (finish f) k = k
      after again (go w' st') k = again w' st'

  -- Whatever the network answers, a message that a resolution returns has exactly one question: the
  -- name and the type that were asked for, in class IN, through every alias and referral.
  pub resolve-Answers :
      (name : Name) (rtype : ℕ) (st : State) → Answers name rtype (resolve N W name rtype st)
  unfolding resolve resolve_internal
  resolve-Answers name rtype st =
      walk-Answers max_steps (resolve_internal N W max_depth) name rtype _
        (record st { visited = [] })

-- ===== src/Recursor/Walks.antt =====
-- The loop of a resolution, and the resolution as a whole (src/recursor.rs).
use rust_encrypted_dns_serve.Base.{
  ℕ, zero, suc, ◌+◌, [], ◌++◌, find_map, All-append, Bool-cases, Option-cases, inl, inr,
}
use rust_encrypted_dns_serve.Wire.Names.{NameOps}
use rust_encrypted_dns_serve.Wire.Messages.{Message}
use rust_encrypted_dns_serve.Recursor.Query.{Net, query_servers}
use rust_encrypted_dns_serve.Recursor.Contact.{IsSafe, query_servers-IsSafe}
use rust_encrypted_dns_serve.Recursor.Dname.{dname_substitute}
use rust_encrypted_dns_serve.Recursor.Delegation.{purge_delegation_for, purge_from-All, start_name}
use rust_encrypted_dns_serve.Recursor.Chain.{has_record, find_cname}
use rust_encrypted_dns_serve.Recursor.Referral.{referral}
use rust_encrypted_dns_serve.Recursor.State.{State, Walk, Next, finish, go, max_depth, max_steps}
use rust_encrypted_dns_serve.Recursor.Redirect.{Resolver, follow_cname, dname_at}
use rust_encrypted_dns_serve.Recursor.Resolve.{
  on_response, on_failure, step, walk, start, resolve_internal, resolve,
}
use rust_encrypted_dns_serve.Recursor.Safety.{
  IsSafeEntry, IsSafeState, IsSafeNext, IsSafeResolver, state_of, after_chain-IsSafeState,
  follow_dname-IsSafeState, refer-IsSafeNext,
}

module _ {Name : Type 0} (N : NameOps Name) (W : Net Name) where
  on_response-IsSafeNext :
      (rec : Resolver Name) (name : Name) (rtype : ℕ) (w : Walk Name) (m : Message Name)
      (st : State)
      → IsSafeResolver rec
      → IsSafeState st
      → IsSafeNext (on_response N W rec name rtype w m st)
  unfolding on_response follow_cname
  on_response-IsSafeNext rec name rtype w m st good h =
      elim (Bool-cases (has_record N name rtype m.answers)) [
        | inl there ↦ rw (there, on_response) h
        | inr elsewhere ↦
            rw (elsewhere, on_response)
              (elim (Option-cases (find_cname N name m.answers)) [
                | inr (target, e) ↦
                    rw (e, on_response) (after_chain-IsSafeState N W rec name rtype m st _ good h)
                | inl no_cname ↦
                    rw (no_cname, on_response)
                      (elim (Option-cases (find_map (dname_at N W name) m.answers)) [
                        | inr ((owner, (target, ttl)), e) ↦
                            rw (e, on_response)
                              (follow_dname-IsSafeState N W rec name rtype m ttl
                                (dname_substitute N name owner target) st good h)
                        | inl no_dname ↦
                            rw (no_dname, on_response)
                              (refer-IsSafeNext N W rec w m st (referral N w name rtype m) good h)
                      ])
              ])
      ]

  on_failure-IsSafeNext :
      (name : Name) (rtype : ℕ) (w : Walk Name) (st : State)
      → IsSafeState st
      → IsSafeNext (on_failure N W name rtype w st)
  unfolding on_failure purge_delegation_for
  on_failure-IsSafeNext name rtype w st h = elim (Bool-cases w.using_cached) [
    | inl cached ↦
        rw (cached, on_failure)
          (
            h.0,
            purge_from-All N IsSafeEntry (N.labels (start_name N name rtype)) st.delegations
                (start_name N name rtype) h.1,
          )
    | inr root ↦ rw (root, on_failure) h
  ]

  step-IsSafeNext :
      (rec : Resolver Name) (name : Name) (rtype : ℕ) (w : Walk Name) (st : State)
      → IsSafeResolver rec
      → IsSafeState st
      → IsSafeNext (step N W rec name rtype w st)
  unfolding step
  step-IsSafeNext rec name rtype w st good h =
      let asked = query_servers N W st.races w.servers name rtype in
      let st' = record st { races = st.races + 1; sent = st.sent ++ asked.1 } in
      let safe : IsSafeState st' = (
        All-append IsSafe st.sent asked.1 h.0
            (query_servers-IsSafe N W st.races w.servers name rtype),
        h.1,
      ) in
      elim (Option-cases asked.0) [
        | inl failed ↦ rw (failed, step) (on_failure-IsSafeNext name rtype w st' safe)
        | inr (m, e) ↦ rw (e, step) (on_response-IsSafeNext rec name rtype w m st' good safe)
      ]

  walk-IsSafeState :
      (n : ℕ) (rec : Resolver Name) (name : Name) (rtype : ℕ) (w : Walk Name) (st : State)
      → IsSafeResolver rec
      → IsSafeState st
      → IsSafeState (state_of (walk N W n rec name rtype w st))
  unfolding walk
  walk-IsSafeState zero rec name rtype w st good h = h
  walk-IsSafeState (suc n) rec name rtype w st good h =
      after (λ w' st' k. walk-IsSafeState n rec name rtype w' st' good k)
        (step N W rec name rtype w st) (step-IsSafeNext rec name rtype w st good h)
    where
      after :
          ((w' : Walk Name) (st' : State)
            → IsSafeState st'
            → IsSafeState (state_of (walk N W n rec name rtype w' st')))
          → (r : Next Name) → IsSafeNext r
          → IsSafeState
              (state_of (elim r [ finish f ↦ f | go w' st' ↦ walk N W n rec name rtype w' st' ]))
      after again (finish f) k = k
      after again (go w' st') k = again w' st' k

  resolve_internal-IsSafeState : (n : ℕ) → IsSafeResolver (resolve_internal N W n)
  unfolding resolve_internal
  resolve_internal-IsSafeState zero name rtype st h = h
  resolve_internal-IsSafeState (suc n) name rtype st h =
      walk-IsSafeState max_steps (resolve_internal N W n) name rtype (start N W name rtype st) st
        (resolve_internal-IsSafeState n) h

  -- Whatever the network answers, a resolution sends packets only to addresses that are safe to
  -- query, and the delegations that it leaves for the next ones have only such servers. This covers
  -- its glue, the name servers that it resolves itself, and the start over from the root.
  pub resolve-IsSafeState :
      (name : Name) (rtype : ℕ) (st : State)
      → IsSafeState st
      → IsSafeState (state_of (resolve N W name rtype st))
  unfolding resolve
  resolve-IsSafeState name rtype st h =
      resolve_internal-IsSafeState (max_depth + 1) name rtype (record st { visited = [] }) h

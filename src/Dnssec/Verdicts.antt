-- ===== src/Dnssec/Verdicts.antt =====
-- What a Secure verdict on an answer rests on (src/dnssec.rs).
use rust_encrypted_dns_serve.Base.{
  ℕ, ◌≡◌, refl, arith, not, ◌&&◌, Option, List, [], ◌∷◌, ◌==◌, if◌then◌else◌, is_empty, All,
  Bool-cases, inl, inr,
}
use rust_encrypted_dns_serve.Wire.Codes.{cname_type, dname_record_type}
use rust_encrypted_dns_serve.Wire.Names.{NameOps}
use rust_encrypted_dns_serve.Wire.Messages.{RData, Record, Message}
use rust_encrypted_dns_serve.Dnssec.Status.{secure, insecure_unsigned, insecure_unknown, bogus}
use rust_encrypted_dns_serve.Dnssec.Signing.{Crypto}
use rust_encrypted_dns_serve.Dnssec.Negative.{sigs_of, rrset_of}
use rust_encrypted_dns_serve.Dnssec.Proofs.{Spends-refl}
use rust_encrypted_dns_serve.Dnssec.Authentic.{AllAuthentic}
use rust_encrypted_dns_serve.Dnssec.Zones.{Validator}
use rust_encrypted_dns_serve.Dnssec.Rrset.{validate_rrset}
use rust_encrypted_dns_serve.Dnssec.Secured.{Secured, Keeps, Keeps-trans, validate_rrset_lem}
use rust_encrypted_dns_serve.Dnssec.Redirects.{
  RedirectionStep, cname_step, dname_step, RedirectionChainResult, complete, cycle, too_long,
  last_name, collect_redirection_chain,
}
use rust_encrypted_dns_serve.Dnssec.Validation.{
  Verdict, and_secure, validate_at, validate_step, validate_steps, validate_target, validate_chain,
  validate_answer,
}

module _ {Name : Type 0} (N : NameOps Name) (C : Crypto Name)
    (resolve : Name → ℕ → Option (Message Name)) (read_dname : RData Name → Option Name)
    (now : ℕ) where
  -- The records of a type at a name are secured.
  abbrev pub SecuredAt : Name → ℕ → List (Record Name) → Type 0
  SecuredAt owner t all = Secured N C resolve now owner (rrset_of N C now owner t all)

  -- What an alias rests on: its CNAME record, or the DNAME record above it.
  abbrev pub SecuredStep : List (Record Name) → RedirectionStep Name → Type 0
  SecuredStep all (cname_step owner target) = SecuredAt owner cname_type all
  SecuredStep all (dname_step owner target input redirected) = SecuredAt owner dname_record_type all

  abbrev pub SecuredChain : Name → ℕ → List (Record Name) → RedirectionChainResult Name → Type 0
  SecuredChain name rtype all cycle = ⊥
  SecuredChain name rtype all too_long = ⊥
  SecuredChain name rtype all (complete chain) =
      All (SecuredStep all) chain × SecuredAt (last_name name chain) rtype all

  abbrev Ready : Validator → Type 0
  Ready v = AllAuthentic N C v.work.key_cache

  and_secure-Sound :
      (v : Validator) (r : Verdict) (f : Validator → Verdict) (P Q : Type 0)
      → Keeps N C resolve now v.work r.1.work × (r.0 ≡ secure → P)
      → ((u : Validator)
          → Ready u
          → Keeps N C resolve now u.work (f u).1.work × ((f u).0 ≡ secure → Q))
      → Keeps N C resolve now v.work (and_secure r f).1.work × ((and_secure r f).0 ≡ secure → P × Q)
  and_secure-Sound v (secure, u) f P Q (k, p) h =
      let (k', q) = h u k.0 in
      (Keeps-trans N C resolve now v.work u.work _ k k', λ e. (p refl, q e))
  and_secure-Sound v (insecure_unsigned, u) f P Q (k, p) h = (k, λ e. absurd (ground arith))
  and_secure-Sound v (insecure_unknown, u) f P Q (k, p) h = (k, λ e. absurd (ground arith))
  and_secure-Sound v (bogus, u) f P Q (k, p) h = (k, λ e. absurd (ground arith))

  validate_at_lem :
      (owner : Name) (t : ℕ) (all : List (Record Name)) (v : Validator)
      → Ready v
      → let r = validate_at N C resolve read_dname now owner t all v in
        Keeps N C resolve now v.work r.1.work × (r.0 ≡ secure → SecuredAt owner t all)
  unfolding validate_at
  validate_at_lem owner t all v a = elim (Bool-cases (is_empty (rrset_of N C now owner t all))) [
    | inl nothing ↦
        rw (nothing, if◌then◌else◌) ((a, Spends-refl v.work.budget), λ e. absurd (ground arith))
    | inr something ↦
        rw (something, if◌then◌else◌)
          (validate_rrset_lem N C resolve now owner t (rrset_of N C now owner t all) all v a)
  ]

  validate_target_lem :
      (owner : Name) (t : ℕ) (all : List (Record Name)) (v : Validator)
      → Ready v
      → let r = validate_target N C resolve read_dname now owner t all v in
        Keeps N C resolve now v.work r.1.work × (r.0 ≡ secure → SecuredAt owner t all)
  unfolding validate_target
  validate_target_lem owner t all v a =
      elim (Bool-cases (is_empty (rrset_of N C now owner t all))) [
        | inl nothing ↦
            rw (nothing, if◌then◌else◌) ((a, Spends-refl v.work.budget), λ e. absurd (ground arith))
        | inr something ↦
            rw (something, if◌then◌else◌)
              (validate_rrset_lem N C resolve now owner t (rrset_of N C now owner t all) all v a)
      ]

  synthesized_lem :
      (all : List (Record Name)) (input : Name) (u : Validator)
      → Ready u
      → let r : Verdict =
          if not (is_empty (rrset_of N C now input cname_type all))
            && not (is_empty (sigs_of N C now input cname_type all))
          then validate_rrset N C resolve now input cname_type
              (rrset_of N C now input cname_type all)
              all
              u
          else (secure, u) in
        Keeps N C resolve now u.work r.1.work × (r.0 ≡ secure → Unit {0})
  synthesized_lem all input u a =
      elim (Bool-cases (
        not (is_empty (rrset_of N C now input cname_type all))
        && not (is_empty (sigs_of N C now input cname_type all)))) [
          | inl signed ↦
              rw (signed, if◌then◌else◌)
                (
                  (validate_rrset_lem N C resolve now input cname_type
                      (rrset_of N C now input cname_type all) all u a).0,
                  λ e. tt,
                )
          | inr plain ↦ rw (plain, if◌then◌else◌) ((a, Spends-refl u.work.budget), λ e. tt)
        ]

  validate_step_lem :
      (all : List (Record Name)) (s : RedirectionStep Name) (v : Validator)
      → Ready v
      → let r = validate_step N C resolve read_dname now all s v in
        Keeps N C resolve now v.work r.1.work × (r.0 ≡ secure → SecuredStep all s)
  unfolding validate_step
  validate_step_lem all (cname_step owner target) v a = validate_at_lem owner cname_type all v a
  validate_step_lem all (dname_step owner target input redirected) v a =
      let (k, p) =
        and_secure-Sound v (validate_at N C resolve read_dname now owner dname_record_type all v) _
          (SecuredAt owner dname_record_type all) (Unit {0})
          (validate_at_lem owner dname_record_type all v a)
          (λ u b. synthesized_lem all input u b) in
      (k, λ e. (p e).0)

  validate_steps_lem :
      (all : List (Record Name)) (ss : List (RedirectionStep Name)) (v : Validator)
      → Ready v
      → let r = validate_steps N C resolve read_dname now all ss v in
        Keeps N C resolve now v.work r.1.work × (r.0 ≡ secure → All (SecuredStep all) ss)
  unfolding validate_steps
  validate_steps_lem all [] v a = ((a, Spends-refl v.work.budget), λ e. tt)
  validate_steps_lem all (s ∷ ss) v a =
      and_secure-Sound v (validate_step N C resolve read_dname now all s v)
        (validate_steps N C resolve read_dname now all ss) (SecuredStep all s)
        (All (SecuredStep all) ss) (validate_step_lem all s v a)
        (λ u b. validate_steps_lem all ss u b)

  validate_chain_lem :
      (name : Name) (rtype : ℕ) (all : List (Record Name)) (c : RedirectionChainResult Name)
      (v : Validator)
      → Ready v
      → let r = validate_chain N C resolve read_dname now name rtype all c v in
        Keeps N C resolve now v.work r.1.work × (r.0 ≡ secure → SecuredChain name rtype all c)
  validate_chain_lem name rtype all cycle v a =
      ((a, Spends-refl v.work.budget), λ e. absurd (ground arith))
  validate_chain_lem name rtype all too_long v a =
      ((a, Spends-refl v.work.budget), λ e. absurd (ground arith))
  validate_chain_lem name rtype all (complete chain) v a =
      and_secure-Sound v (validate_steps N C resolve read_dname now all chain v)
        (validate_target N C resolve read_dname now (last_name name chain) rtype all)
        (All (SecuredStep all) chain) (SecuredAt (last_name name chain) rtype all)
        (validate_steps_lem all chain v a)
        (λ u b. validate_target_lem (last_name name chain) rtype all u b)

  -- A positive answer is Secure only if its aliases neither run in a cycle nor exceed the limit, the
  -- record behind each alias is secured, and so are the records at the end: by a signature within its
  -- period, of a zone that encloses the owner, under a key that chains to the root's anchors. This
  -- holds with a cache of such keys, which it leaves; and it takes no signature check beyond the
  -- budget.
  pub validate_answer_lem :
      (name : Name) (rtype : ℕ) (all : List (Record Name)) (v : Validator)
      → AllAuthentic N C v.work.key_cache
      → let r = validate_answer N C resolve read_dname now name rtype all v in
        let chain =
          if rtype == cname_type
          then complete []
          else collect_redirection_chain N read_dname name all in
        Keeps N C resolve now v.work r.1.work × (r.0 ≡ secure → SecuredChain name rtype all chain)
  unfolding validate_answer
  validate_answer_lem name rtype all v a = validate_chain_lem name rtype all _ v a

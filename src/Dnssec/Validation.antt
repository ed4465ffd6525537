-- ===== src/Dnssec/Validation.antt =====
-- The validation of a whole message (src/dnssec.rs).
use rust_encrypted_dns_serve.Base.{
  ℕ, not, ◌&&◌, ◌||◌, Option, none, some, List, [], ◌∷◌, ◌==◌, if◌then◌else◌, any, find, is_empty,
}
use rust_encrypted_dns_serve.Wire.Codes.{
  cname_type, dname_record_type, nsec_type, nsec3_type, no_error, nx_domain,
}
use rust_encrypted_dns_serve.Wire.Names.{NameOps}
use rust_encrypted_dns_serve.Wire.Messages.{Dnskey, RData, Record, Message}
use rust_encrypted_dns_serve.Recursor.Chain.{cname_of}
use rust_encrypted_dns_serve.Dnssec.Status.{
  DnssecStatus, secure, insecure_unsigned, insecure_unknown, bogus, ValidationBudget,
}
use rust_encrypted_dns_serve.Dnssec.Signing.{Crypto}
use rust_encrypted_dns_serve.Dnssec.Negative.{
  sigs_of, rrset_of, verify_negative_rrset, validate_nsec, validate_nsec3,
}
use rust_encrypted_dns_serve.Dnssec.Trust.{
  Work, ChainResult, trusted, unsigned, untrusted, build_trust_chain,
}
use rust_encrypted_dns_serve.Dnssec.Zones.{Validator, is_soa}
use rust_encrypted_dns_serve.Dnssec.Rrset.{validate_rrset}
use rust_encrypted_dns_serve.Dnssec.Redirects.{
  RedirectionStep, cname_step, dname_step, RedirectionChainResult, complete, cycle, too_long,
  last_name, collect_redirection_chain,
}

abbrev pub Verdict : Type 0
Verdict = DnssecStatus × Validator

-- Only a Secure verdict lets the validation go on.
abbrev pub and_secure : Verdict → (Validator → Verdict) → Verdict
and_secure (secure, v) f = f v
and_secure (insecure_unsigned, v) f = (insecure_unsigned, v)
and_secure (insecure_unknown, v) f = (insecure_unknown, v)
and_secure (bogus, v) f = (bogus, v)

module _ {Name : Type 0} where
  -- The last CNAME record's data.
  abbrev last_cname : Option (RData Name) → List (Record Name) → Option (RData Name)
  last_cname d [] = d
  last_cname d (r ∷ rs) = last_cname (if r.record_type == cname_type then some r.rdata else d) rs

  abbrev cname_or : Name → Option (RData Name) → Name
  cname_or name none = name
  cname_or name (some d) = elim (cname_of d) [ none ↦ name | some target ↦ target ]

  unfoldable pub final_target : Name → Message Name → Name
  final_target qname m = cname_or qname (last_cname none m.answers)

module _ {Name : Type 0} (N : NameOps Name) (C : Crypto Name)
    (resolve : Name → ℕ → Option (Message Name)) (read_dname : RData Name → Option Name)
    (now : ℕ) where
  open N use {eq, zone_of}

  -- The records of a type at a name must be there, and valid.
  unfoldable pub validate_at : Name → ℕ → List (Record Name) → Validator → Verdict
  validate_at owner t all v =
      if is_empty (rrset_of N C now owner t all)
      then (bogus, v)
      else validate_rrset N C resolve now owner t (rrset_of N C now owner t all) all v

  unfoldable pub validate_step : List (Record Name) → RedirectionStep Name → Validator → Verdict
  validate_step all (cname_step owner target) v = validate_at owner cname_type all v
  validate_step all (dname_step owner target input redirected) v =
      and_secure (validate_at owner dname_record_type all v) (λ v'.
        if not (is_empty (rrset_of N C now input cname_type all))
          && not (is_empty (sigs_of N C now input cname_type all))
        then validate_rrset N C resolve now input cname_type (rrset_of N C now input cname_type all)
            all v'
        else (secure, v'))

  unfoldable pub validate_steps :
      List (Record Name) → List (RedirectionStep Name) → Validator → Verdict
  validate_steps all [] v = (secure, v)
  validate_steps all (s ∷ ss) v = and_secure (validate_step all s v) (validate_steps all ss)

  -- The records at the end of the aliases.
  unfoldable pub validate_target : Name → ℕ → List (Record Name) → Validator → Verdict
  validate_target owner rtype all v =
      if is_empty (rrset_of N C now owner rtype all)
      then (insecure_unknown, v)
      else validate_rrset N C resolve now owner rtype (rrset_of N C now owner rtype all) all v

  abbrev pub validate_chain :
      Name → ℕ → List (Record Name) → RedirectionChainResult Name → Validator → Verdict
  validate_chain name rtype all cycle v = (bogus, v)
  validate_chain name rtype all too_long v = (bogus, v)
  validate_chain name rtype all (complete chain) v =
      and_secure (validate_steps all chain v) (validate_target (last_name name chain) rtype all)

  unfoldable pub validate_answer : Name → ℕ → List (Record Name) → Validator → Verdict
  validate_answer name rtype all v =
      validate_chain name rtype all
        (if rtype == cname_type
          then complete []
          else collect_redirection_chain N read_dname name all)
        v

  -- The proof of a negative response, by the keys of its zone.
  unfoldable pub validate_denial :
      List Dnskey
      → Name
      → ℕ
      → Record Name
      → List (Record Name)
      → ValidationBudget
      → DnssecStatus × ValidationBudget
  validate_denial keys target qtype soa authority b =
      let (ok, b') = verify_negative_rrset N C now soa authority keys b in
      if not ok
      then (bogus, b')
      else if any (λ r. r.record_type == nsec3_type) authority
      then validate_nsec3 N C now keys target qtype authority b'
      else if any (λ r. r.record_type == nsec_type) authority
      then validate_nsec N C now keys target qtype authority b'
      else (bogus, b')

  abbrev pub with_budget : Validator → Work → DnssecStatus × ValidationBudget → Verdict
  with_budget v w (s, b) = (s, record v { work = record w { budget = b } })

  abbrev pub by_chain :
      Name → ℕ → Record Name → Message Name → Validator → ChainResult × Work → Verdict
  by_chain target qtype soa m v (trusted keys ttl, w) =
      with_budget v w (validate_denial keys target qtype soa m.name_servers w.budget)
  by_chain target qtype soa m v (unsigned ttl, w) = (insecure_unsigned, record v { work = w })
  by_chain target qtype soa m v (untrusted, w) = (bogus, record v { work = w })

  unfoldable pub validate_negative : Message Name → Name → ℕ → Validator → Verdict
  validate_negative m qname qtype v = elim (find (λ r. is_soa r.rdata) m.name_servers) [
    | none ↦ (insecure_unknown, v)
    | some soa ↦
        (let target = final_target qname m in
          if zone_of soa.name target
            || eq soa.name target
            || zone_of soa.name qname
            || eq soa.name qname
          then by_chain target qtype soa m v (build_trust_chain N C resolve now soa.name v.work)
          else (bogus, v))
  ]

  unfoldable pub validate_message : Message Name → Name → ℕ → Validator → Verdict
  validate_message m qname qtype v =
      if m.response_code == nx_domain
      then validate_negative m qname qtype v
      else if m.response_code == no_error
      then (if is_empty m.answers
          then validate_negative m qname qtype v
          else validate_answer qname qtype m.answers v)
      else (insecure_unknown, v)

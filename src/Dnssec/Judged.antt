-- ===== src/Dnssec/Judged.antt =====
-- What a Secure verdict on a whole message rests on (src/dnssec.rs).
use mathlib.Core.Path.{subst}
use rust_encrypted_dns_serve.Base.{
  Bytes, ℕ, ◌≤◌, ◌≡◌, refl, ap, ◌⊎◌, inl, inr, arith, Bool, true, false, ◌||◌, Option, some, List,
  [], ◌==◌, ==_iff, if◌then◌else◌, any, find, is_empty, All, Bool-cases, Option-cases,
}
use rust_encrypted_dns_serve.Wire.Codes.{nsec_type, nsec3_type, cname_type, no_error, nx_domain}
use rust_encrypted_dns_serve.Wire.Names.{NameOps}
use rust_encrypted_dns_serve.Wire.Messages.{Dnskey, RData, Record, Message}
use rust_encrypted_dns_serve.Dnssec.Status.{
  DnssecStatus, secure, ValidationBudget, default_budget, per_validation_max_sig_checks,
}
use rust_encrypted_dns_serve.Dnssec.Signing.{Crypto}
use rust_encrypted_dns_serve.Dnssec.Negative.{
  verify_negative_rrset, proof_records, nsec3_status, max_nsec3_iterations,
}
use rust_encrypted_dns_serve.Dnssec.Proofs.{
  Spends, Spends-refl, Spends-trans, IsSigned, verify_negative_rrset_lem,
}
use rust_encrypted_dns_serve.Dnssec.Denials.{Nsec3Proof, validate_nsec_lem, validate_nsec3_lem}
use rust_encrypted_dns_serve.Dnssec.Evidence.{IsDenied, nsec_status-IsDenied}
use rust_encrypted_dns_serve.Dnssec.Trust.{
  Work, ChainResult, trusted, unsigned, untrusted, build_trust_chain,
}
use rust_encrypted_dns_serve.Dnssec.Authentic.{IsAuthentic, AllAuthentic}
use rust_encrypted_dns_serve.Dnssec.Chains.{Trusts, build_trust_chain_lem}
use rust_encrypted_dns_serve.Dnssec.Zones.{Validator, is_soa}
use rust_encrypted_dns_serve.Dnssec.Secured.{Keeps}
use rust_encrypted_dns_serve.Dnssec.Redirects.{complete, collect_redirection_chain}
use rust_encrypted_dns_serve.Dnssec.Validation.{
  final_target, validate_denial, by_chain, validate_negative, validate_message,
}
use rust_encrypted_dns_serve.Dnssec.Verdicts.{SecuredChain, validate_answer_lem}

module _ {Name : Type 0} (N : NameOps Name) (C : Crypto Name)
    (resolve : Name → ℕ → Option (Message Name)) (read_dname : RData Name → Option Name)
    (now : ℕ) where
  abbrev has_type : ℕ → List (Record Name) → Bool
  has_type t = any (λ r. r.record_type == t)

  -- The denial of the type at the target by NSEC3 or NSEC records that are each signed by one of the
  -- keys: the former as the checks of NSEC3 accept it, the latter by what the records show.
  abbrev pub Denied : List Dnskey → Name → ℕ → List (Record Name) → Type 0
  Denied keys target qtype authority =
      let hashed = proof_records N C now nsec3_type authority in
      let named = proof_records N C now nsec_type authority in
      (All (IsSigned N C now authority keys) hashed
        × ((salt : Bytes) × (iterations : ℕ) × (iterations ≤ max_nsec3_iterations)
            × (nsec3_status N C now target qtype hashed salt iterations ≡ secure)))
      ⊎ (All (IsSigned N C now authority keys) named × IsDenied N target qtype named)

  hashed_lem :
      (keys : List Dnskey) (target : Name) (qtype : ℕ) (authority : List (Record Name))
      (s : DnssecStatus)
      → Nsec3Proof N C now keys target qtype authority s
      → s ≡ secure
      → Denied keys target qtype authority
  hashed_lem keys target qtype authority s proof e =
      inl (subst (Nsec3Proof N C now keys target qtype authority) e proof refl)

  validate_denial_lem :
      (keys : List Dnskey) (target : Name) (qtype : ℕ) (soa : Record Name)
      (authority : List (Record Name)) (b : ValidationBudget)
      → let r = validate_denial N C resolve read_dname now keys target qtype soa authority b in
        Spends b r.1
        × (r.0 ≡ secure → IsSigned N C now authority keys soa × Denied keys target qtype authority)
  unfolding validate_denial
  validate_denial_lem keys target qtype soa authority b =
      let (signed, spent) = verify_negative_rrset_lem N C now soa authority keys b in
      let b' = (verify_negative_rrset N C now soa authority keys b).1 in
      let (denial3, spent3) = validate_nsec3_lem N C now keys target qtype authority b' in
      let (denial, spent1) = validate_nsec_lem N C now keys target qtype authority b' in
      elim (Bool-cases (verify_negative_rrset N C now soa authority keys b).0) [
        | inr bad ↦ rw (bad, if◌then◌else◌) (spent, λ e. absurd (ground arith))
        | inl ok ↦
            rw (ok, if◌then◌else◌)
              (elim (Bool-cases (has_type nsec3_type authority)) [
                | inl hashed ↦
                    rw (hashed, if◌then◌else◌)
                      (
                        Spends-trans b b' _ spent spent3,
                        λ e. (signed ok, hashed_lem keys target qtype authority _ denial3 e),
                      )
                | inr plain ↦
                    rw (plain, if◌then◌else◌)
                      (elim (Bool-cases (has_type nsec_type authority)) [
                        | inl named ↦
                            rw (named, if◌then◌else◌)
                              (
                                Spends-trans b b' _ spent spent1,
                                λ e.
                                    let (by, status) = denial e in
                                    (
                                      signed ok,
                                      inr (
                                        by,
                                        nsec_status-IsDenied N C now target qtype
                                            (proof_records N C now nsec_type authority) status,
                                      ),
                                    ),
                              )
                        | inr nothing ↦
                            rw (nothing, if◌then◌else◌) (spent, λ e. absurd (ground arith))
                      ])
              ])
      ]

  -- What a Secure verdict on a negative response rests on: the SOA record of the authority section
  -- belongs to a zone that encloses the name at the end of the aliases or the name that was asked
  -- for, keys of this zone chain to the root's anchors, and they sign the SOA record and the denial.
  abbrev pub SecuredDenial : Message Name → Name → ℕ → Type 0
  SecuredDenial m qname qtype =
      (soa : Record Name) × (keys : List Dnskey) × (find (λ r. is_soa r.rdata) m.name_servers
        ≡ some soa)
      × ((N.zone_of soa.name (final_target qname m)
            || N.eq soa.name (final_target qname m)
            || N.zone_of soa.name qname
            || N.eq soa.name qname)
          ≡ true)
      × IsAuthentic N C (N.lower_string soa.name) keys
      × IsSigned N C now m.name_servers keys soa
      × Denied keys (final_target qname m) qtype m.name_servers

  by_chain_lem :
      (target : Name) (qtype : ℕ) (soa : Record Name) (m : Message Name) (v : Validator)
      (r : ChainResult × Work)
      → Trusts N C resolve now soa.name r.0
      → Keeps N C resolve now v.work r.1
      → let x = by_chain N C resolve read_dname now target qtype soa m v r in
        Keeps N C resolve now v.work x.1.work
        × (x.0 ≡ secure
            → (keys : List Dnskey) × IsAuthentic N C (N.lower_string soa.name) keys
              × IsSigned N C now m.name_servers keys soa
              × Denied keys target qtype m.name_servers)
  by_chain_lem target qtype soa m v (trusted keys ttl, w) t (a, spent) =
      let (more, good) = validate_denial_lem keys target qtype soa m.name_servers w.budget in
      (
        (a, Spends-trans v.work.budget w.budget _ spent more),
        λ e. (keys, t, (good e).0, (good e).1),
      )
  by_chain_lem target qtype soa m v (unsigned ttl, w) t k = (k, λ e. absurd (ground arith))
  by_chain_lem target qtype soa m v (untrusted, w) t k = (k, λ e. absurd (ground arith))

  validate_negative_lem :
      (m : Message Name) (qname : Name) (qtype : ℕ) (v : Validator)
      → AllAuthentic N C v.work.key_cache
      → let x = validate_negative N C resolve read_dname now m qname qtype v in
        Keeps N C resolve now v.work x.1.work × (x.0 ≡ secure → SecuredDenial m qname qtype)
  unfolding validate_negative
  validate_negative_lem m qname qtype v a =
      elim (Option-cases (find (λ r. is_soa r.rdata) m.name_servers)) [
        | inl nothing ↦
            rw (nothing, validate_negative)
              ((a, Spends-refl v.work.budget), λ e. absurd (ground arith))
        | inr (soa, found) ↦
            let target = final_target qname m in
            let (trusts, authentic, spent) =
              build_trust_chain_lem N C resolve now soa.name v.work a in
            let (kept, good) =
              by_chain_lem target qtype soa m v (build_trust_chain N C resolve now soa.name v.work)
                trusts (authentic, spent) in
            rw (found, validate_negative)
              (elim (Bool-cases (
                N.zone_of soa.name target
                || N.eq soa.name target
                || N.zone_of soa.name qname
                || N.eq soa.name qname)) [
                  | inr outside ↦
                      rw (outside, if◌then◌else◌)
                        ((a, Spends-refl v.work.budget), λ e. absurd (ground arith))
                  | inl inside ↦
                      rw (inside, if◌then◌else◌)
                        (
                          kept,
                          λ e.
                              let (keys, ks, signed, denied) = good e in
                              (soa, keys, refl, inside, ks, signed, denied),
                        )
                ])
      ]

  -- No name, or a name without records.
  abbrev pub IsNegative : Message Name → Type 0
  IsNegative m =
      (m.response_code ≡ nx_domain) ⊎ ((m.response_code ≡ no_error) × (is_empty m.answers ≡ true))

  -- The evidence for a message, by its kind.
  abbrev pub SecuredMessage : Message Name → Name → ℕ → Type 0
  SecuredMessage m qname qtype =
      (IsNegative m × SecuredDenial m qname qtype)
      ⊎ ((m.response_code ≡ no_error)
          × (is_empty m.answers ≡ false)
          × SecuredChain N C resolve read_dname now qname qtype m.answers (
              if qtype == cname_type
              then complete []
              else collect_redirection_chain N read_dname qname m.answers))

  judged_lem :
      (m : Message Name) (qname : Name) (qtype : ℕ) (v : Validator)
      → AllAuthentic N C v.work.key_cache
      → let x = validate_message N C resolve read_dname now m qname qtype v in
        Keeps N C resolve now v.work x.1.work × (x.0 ≡ secure → SecuredMessage m qname qtype)
  unfolding validate_message
  judged_lem m qname qtype v a =
      let (kept, denied) = validate_negative_lem m qname qtype v a in
      let (kept', proven) =
        validate_answer_lem N C resolve read_dname now qname qtype m.answers v a in
      elim (Bool-cases (m.response_code == nx_domain)) [
        | inl absent ↦
            rw (absent, if◌then◌else◌)
              (kept, λ e. inl (inl ((==_iff m.response_code nx_domain).0 absent), denied e))
        | inr present ↦
            rw (present, if◌then◌else◌)
              (elim (Bool-cases (m.response_code == no_error)) [
                | inr strange ↦
                    rw (strange, if◌then◌else◌)
                      ((a, Spends-refl v.work.budget), λ e. absurd (ground arith))
                | inl good ↦
                    let code : m.response_code ≡ no_error =
                      (==_iff m.response_code no_error).0 good in
                    rw (good, if◌then◌else◌)
                      (elim (Bool-cases (is_empty m.answers)) [
                        | inl none_there ↦
                            rw (none_there, if◌then◌else◌)
                              (kept, λ e. inl (inr (code, refl), denied e))
                        | inr some_there ↦
                            rw (some_there, if◌then◌else◌) (kept', λ e. inr (code, refl, proven e))
                      ])
              ])
      ]

  -- With the budget of a new validation and a cache of keys that chain to the root's anchors, the
  -- validation of a message leaves such a cache, verifies at most 24 signatures, and finds the message
  -- Secure only for NXDOMAIN, for NOERROR without answers, or for NOERROR with answers. In the first two
  -- cases the keys of a zone that encloses the name that was asked for, or the name that the answer
  -- section's last CNAME gives, and that chain to the anchors, sign the SOA record and either NSEC3
  -- records that the checks accept as a denial of the type at that last name, or NSEC records that show
  -- it: no such records at the name, or a gap at the name and a wildcard that cannot give it. In the third, the answers and each of
  -- the aliases before them have a signature of keys that chain to the anchors.
  pub validate_message_lem :
      (m : Message Name) (qname : Name) (qtype : ℕ) (v : Validator)
      → AllAuthentic N C v.work.key_cache
      → v.work.budget ≡ default_budget
      → let x = validate_message N C resolve read_dname now m qname qtype v in
        AllAuthentic N C x.1.work.key_cache
        × (x.1.work.budget.performed ≤ per_validation_max_sig_checks)
        × (x.0 ≡ secure → SecuredMessage m qname qtype)
  unfolding default_budget
  validate_message_lem m qname qtype v a b =
      let ((a', spent), good) = judged_lem m qname qtype v a in
      let used : v.work.budget.sig_checks ≡ 0 = ap (λ c. c.sig_checks) b in
      let most : v.work.budget.max_sig_checks ≡ 24 = ap (λ c. c.max_sig_checks) b in
      let none_yet : v.work.budget.performed ≡ 0 = ap (λ c. c.performed) b in
      let (same, counted, more, within) = spent in
      let inside = within (omega arith) in (a', omega arith, good)

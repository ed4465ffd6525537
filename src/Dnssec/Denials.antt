-- ===== src/Dnssec/Denials.antt =====
-- What a negative verdict rests on (src/dnssec.rs).
use rust_encrypted_dns_serve.Base.{
  ℕ, ◌≤◌, ◌≡◌, refl, arith, Bool, true, false, not, List, Bytes, ◌==◌, ltb, if◌then◌else◌, any,
  is_empty, All, Bool-cases, Option-cases, inl, inr,
}
use rust_encrypted_dns_serve.Wire.Codes.{nsec_type, nsec3_type}
use rust_encrypted_dns_serve.Wire.Names.{NameOps}
use rust_encrypted_dns_serve.Wire.Messages.{Dnskey, Record}
use rust_encrypted_dns_serve.Dnssec.Status.{
  DnssecStatus, secure, bogus, is_proven, ValidationBudget,
}
use rust_encrypted_dns_serve.Dnssec.Signing.{Crypto}
use rust_encrypted_dns_serve.Dnssec.Hashed.{nsec3_of}
use rust_encrypted_dns_serve.Dnssec.Negative.{
  verify_all, proof_records, first_nsec3, same_parameters, max_nsec3_iterations, nsec_status,
  validate_nsec, nsec3_status, validate_nsec3,
}
use rust_encrypted_dns_serve.Dnssec.Proofs.{Spends, Spends-refl, IsSigned, verify_all_lem}

module _ {Name : Type 0} (N : NameOps Name) (C : Crypto Name) (now : ℕ) where
  verdict-Secure :
      (ok : Bool) (s : DnssecStatus)
      → (if ok then s else bogus) ≡ secure
      → (ok ≡ true) × (s ≡ secure)
  verdict-Secure true s h = (refl, h)
  verdict-Secure false s h = cc

  -- A denial by NSEC is Secure only if a signature by one of the keys verifies over each of the
  -- records that it rests on, and the checks of NSEC accept these; and every signature that
  -- it verifies is counted within the budget.
  pub validate_nsec_lem :
      (keys : List Dnskey) (qname : Name) (qtype : ℕ) (authority : List (Record Name))
      (b : ValidationBudget)
      → let r = validate_nsec N C now keys qname qtype authority b in
        let records = proof_records N C now nsec_type authority in
        (r.0 ≡ secure
          → All (IsSigned N C now authority keys) records
            × (nsec_status N C now qname qtype records ≡ secure))
        × Spends b r.1
  unfolding validate_nsec
  validate_nsec_lem keys qname qtype authority b =
      let records = proof_records N C now nsec_type authority in
      let (signed, spent) = verify_all_lem N C now records authority keys b in
      elim (Bool-cases (is_empty records)) [
        | inl nothing ↦ rw (nothing, if◌then◌else◌) ((λ h. cc), Spends-refl b)
        | inr something ↦
            rw (something, if◌then◌else◌)
              (
                (λ h.
                    let (ok, proven) =
                      verdict-Secure (verify_all N C now records authority keys b).0 _ h in
                    (signed ok, proven)),
                spent,
              )
      ]

  verdict-proven :
      (ok : Bool) (s : DnssecStatus)
      → is_proven (if ok then s else bogus) ≡ true
      → (ok ≡ true) × (s ≡ (if ok then s else bogus))
  verdict-proven true s h = (refl, refl)
  verdict-proven false s h = absurd (ground arith)

  abbrev pub Nsec3Proof : List Dnskey → Name → ℕ → List (Record Name) → DnssecStatus → Type 0
  Nsec3Proof keys qname qtype authority s =
      let records = proof_records N C now nsec3_type authority in
      is_proven s ≡ true
      → All (IsSigned N C now authority keys) records
        × ((salt : Bytes) × (iterations : ℕ) × (iterations ≤ max_nsec3_iterations)
            × (nsec3_status N C now qname qtype records salt iterations ≡ s))

  -- A denial by NSEC3 is Secure, or proves an insecure delegation, only if a signature by one of the
  -- keys verifies over each of the records that it rests on, their iterations are within the cap,
  -- and the checks of NSEC3 accept these; and every signature that it verifies is counted within the
  -- budget.
  pub validate_nsec3_lem :
      (keys : List Dnskey) (qname : Name) (qtype : ℕ) (authority : List (Record Name))
      (b : ValidationBudget)
      → let r = validate_nsec3 N C now keys qname qtype authority b in
        Nsec3Proof keys qname qtype authority r.0 × Spends b r.1
  unfolding validate_nsec3
  validate_nsec3_lem keys qname qtype authority b =
      let records = proof_records N C now nsec3_type authority in
      let (signed, spent) = verify_all_lem N C now records authority keys b in
      elim (Option-cases (first_nsec3 N C now records)) [
        | inl nothing ↦ rw (nothing, validate_nsec3) ((λ h. absurd (ground arith)), Spends-refl b)
        | inr (first, e) ↦
            rw (e, validate_nsec3)
              (elim (Bool-cases (not (first.hash_algorithm == 1))) [
                | inl strange ↦
                    rw (strange, if◌then◌else◌) ((λ h. absurd (ground arith)), Spends-refl b)
                | inr sha1 ↦
                    rw (sha1, if◌then◌else◌)
                      (elim (Bool-cases (ltb max_nsec3_iterations first.iterations)) [
                        | inl many ↦
                            rw (many, if◌then◌else◌) ((λ h. absurd (ground arith)), Spends-refl b)
                        | inr few ↦
                            rw (few, if◌then◌else◌)
                              (elim (Bool-cases (
                                any (λ r. not (same_parameters N C now first (nsec3_of r.rdata)))
                                  records)) [
                                    | inl mixed ↦
                                        rw (mixed, if◌then◌else◌)
                                          ((λ h. absurd (ground arith)), Spends-refl b)
                                    | inr same ↦
                                        rw (same, if◌then◌else◌)
                                          (
                                            (λ h.
                                                let (ok, proven) =
                                                  verdict-proven
                                                    (verify_all N C now records authority keys b).0
                                                    _ h in
                                                (
                                                  signed ok,
                                                  (
                                                    first.salt,
                                                    first.iterations,
                                                    ground arith,
                                                    proven,
                                                  ),
                                                )),
                                            spent,
                                          )
                                  ])
                      ])
              ])
      ]

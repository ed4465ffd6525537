-- ===== src/Dnssec/Negative.antt =====
-- The validation of negative proofs (src/dnssec.rs): every record of the proof is verified, within
-- the budget, before the proof is read.
use rust_encrypted_dns_serve.Base.{
  ℕ, Bool, true, false, not, ◌&&◌, ◌||◌, Option, none, some, List, [], ◌∷◌, Bytes, bytes_beq, ◌==◌,
  ltb, if◌then◌else◌, any, keep, keep_map, is_empty, take,
}
use rust_encrypted_dns_serve.Wire.Codes.{ds_type, nsec_type, nsec3_type}
use rust_encrypted_dns_serve.Wire.Names.{NameOps}
use rust_encrypted_dns_serve.Wire.Messages.{Rrsig, Dnskey, Nsec3, RData, Record}
use rust_encrypted_dns_serve.Dnssec.Status.{
  DnssecStatus, insecure_unknown, bogus, ValidationBudget, can_check_sig, perform,
}
use rust_encrypted_dns_serve.Dnssec.Signing.{Crypto, key_tag_matches, verify_rrsig}
use rust_encrypted_dns_serve.Dnssec.Nsec.{
  check_nsec_nodata, find_nsec_closest_encloser, check_nsec_wildcard_nodata, check_nsec_nxdomain,
}
use rust_encrypted_dns_serve.Dnssec.Hashed.{
  nsec3_of, check_nsec3_nodata, find_nsec3_closest_provable_encloser, check_nsec3_wildcard_nodata,
  check_nsec3_nxdomain,
}

abbrev pub max_negative_records : ℕ
max_negative_records = 8

abbrev pub max_nsec3_iterations : ℕ
max_nsec3_iterations = 150

-- How a search for a signature that verifies ends: found, stopped by the budget, or with none.
pub data Search : Type 0 where
  verified exhausted unverified : Search

abbrev pub is_verified : Search → Bool
is_verified verified = true
is_verified exhausted = false
is_verified unverified = false

abbrev pub or_else : Option DnssecStatus → DnssecStatus → DnssecStatus
or_else none s = s
or_else (some t) s = t

module _ {Name : Type 0} where
  abbrev pub covering : ℕ → RData Name → Option (Rrsig Name)
  covering t (RData.rrsig s) = if s.type_covered == t then some s else none
  covering t _ = none

module _ {Name : Type 0} (N : NameOps Name) (C : Crypto Name) (now : ℕ) where
  open N use {eq, base_name}

  -- One key for one signature: it costs a check where the key's tag is the signature's.
  unfoldable pub try_keys :
      Name
      → List (Record Name)
      → Rrsig Name
      → List Dnskey
      → ValidationBudget
      → Search × ValidationBudget
  try_keys owner rrset sig [] b = (unverified, b)
  try_keys owner rrset sig (k ∷ ks) b = elim (key_tag_matches N C k sig.key_tag) [
    | false ↦ try_keys owner rrset sig ks b
    | true ↦
        (let (b', allowed) = can_check_sig b in
          elim allowed [
            | false ↦ (exhausted, b')
            | true ↦ elim (verify_rrsig N C sig k owner rrset now) [
              | true ↦ (verified, perform b')
              | false ↦ try_keys owner rrset sig ks (perform b')
            ]
          ])
  ]

  abbrev pub and_then :
      Search × ValidationBudget
      → (ValidationBudget → Search × ValidationBudget)
      → Search × ValidationBudget
  and_then (verified, b) f = (verified, b)
  and_then (exhausted, b) f = (exhausted, b)
  and_then (unverified, b) f = f b

  unfoldable pub try_sigs :
      Name
      → List (Record Name)
      → List Dnskey
      → List (Rrsig Name)
      → ValidationBudget
      → Search × ValidationBudget
  try_sigs owner rrset keys [] b = (unverified, b)
  try_sigs owner rrset keys (s ∷ ss) b =
      and_then (try_keys owner rrset s keys b) (try_sigs owner rrset keys ss)

  abbrev pub sigs_of : Name → ℕ → List (Record Name) → List (Rrsig Name)
  sigs_of owner t = keep_map (λ r. if eq r.name owner then covering t r.rdata else none)

  abbrev pub rrset_of : Name → ℕ → List (Record Name) → List (Record Name)
  rrset_of owner t = keep (λ r. eq r.name owner && r.record_type == t)

  unfoldable pub verify_negative_rrset :
      Record Name → List (Record Name) → List Dnskey → ValidationBudget → Bool × ValidationBudget
  verify_negative_rrset rec authority keys b =
      if is_empty (sigs_of rec.name rec.record_type authority)
        || is_empty (rrset_of rec.name rec.record_type authority)
      then (false, b)
      else (let (found, b') =
            try_sigs rec.name (rrset_of rec.name rec.record_type authority) keys
              (sigs_of rec.name rec.record_type authority) b in
          (is_verified found, b'))

  -- The loop over the records of the proof.
  unfoldable pub verify_all :
      List (Record Name)
      → List (Record Name)
      → List Dnskey
      → ValidationBudget
      → Bool × ValidationBudget
  verify_all [] authority keys b = (true, b)
  verify_all (r ∷ rs) authority keys b =
      let (ok, b') = verify_negative_rrset r authority keys b in
      elim ok [ false ↦ (false, b') | true ↦ verify_all rs authority keys b' ]

  abbrev pub proof_records : ℕ → List (Record Name) → List (Record Name)
  proof_records t authority = take max_negative_records (keep (λ r. r.record_type == t) authority)

  -- What verified NSEC records prove.
  unfoldable pub nsec_status : Name → ℕ → List (Record Name) → DnssecStatus
  nsec_status qname qtype records =
      or_else (check_nsec_nodata N qname qtype records)
        (elim (find_nsec_closest_encloser N qname records) [
          | none ↦ bogus
          | some closest ↦
              or_else (check_nsec_wildcard_nodata N qname qtype closest records)
                (or_else (check_nsec_nxdomain N qname closest records) bogus)
        ])

  unfoldable pub validate_nsec :
      List Dnskey
      → Name
      → ℕ
      → List (Record Name)
      → ValidationBudget
      → DnssecStatus × ValidationBudget
  validate_nsec keys qname qtype authority b =
      if is_empty (proof_records nsec_type authority)
      then (bogus, b)
      else (let (ok, b') = verify_all (proof_records nsec_type authority) authority keys b in
          (if ok then nsec_status qname qtype (proof_records nsec_type authority) else bogus, b'))

  abbrev pub same_parameters : Nsec3 → Option Nsec3 → Bool
  same_parameters first none = false
  same_parameters first (some n) =
      n.hash_algorithm == first.hash_algorithm
      && n.iterations == first.iterations
      && bytes_beq n.salt first.salt

  abbrev encloser_or_parent : Name → ℕ → Option Name → Option Name
  encloser_or_parent qname qtype none = if qtype == ds_type then some (base_name qname) else none
  encloser_or_parent qname qtype (some c) = some c

  -- What verified NSEC3 records prove.
  unfoldable pub nsec3_status : Name → ℕ → List (Record Name) → Bytes → ℕ → DnssecStatus
  nsec3_status qname qtype records salt iterations =
      or_else (check_nsec3_nodata N C qname qtype records salt iterations)
        (elim (encloser_or_parent qname qtype
          (find_nsec3_closest_provable_encloser N C qname records salt iterations)) [
            | none ↦ bogus
            | some closest ↦
                if eq closest qname
                then bogus
                else or_else (check_nsec3_wildcard_nodata N C closest qtype records salt iterations)
                    (or_else (check_nsec3_nxdomain N C qname closest qtype records salt iterations)
                      bogus)
          ])

  abbrev pub first_nsec3 : List (Record Name) → Option Nsec3
  first_nsec3 [] = none
  first_nsec3 (r ∷ rs) = nsec3_of r.rdata

  unfoldable pub validate_nsec3 :
      List Dnskey
      → Name
      → ℕ
      → List (Record Name)
      → ValidationBudget
      → DnssecStatus × ValidationBudget
  validate_nsec3 keys qname qtype authority b =
      let records = proof_records nsec3_type authority in
      elim (first_nsec3 records) [
        | none ↦ (bogus, b)
        | some first ↦
            if not (first.hash_algorithm == 1)
            then (insecure_unknown, b)
            else if ltb max_nsec3_iterations first.iterations
            then (insecure_unknown, b)
            else if any (λ r. not (same_parameters first (nsec3_of r.rdata))) records
            then (bogus, b)
            else (let (ok, b') = verify_all records authority keys b in
                (
                  if ok
                      then nsec3_status qname qtype records first.salt first.iterations
                      else bogus,
                  b',
                ))
      ]

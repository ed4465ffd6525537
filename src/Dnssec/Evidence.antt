-- ===== src/Dnssec/Evidence.antt =====
-- What a Secure denial by NSEC records shows (src/dnssec.rs).
use rust_encrypted_dns_serve.Base.{
  ℕ, ◌≡◌, ◌∙◌, ◌⊎◌, inl, inr, arith, Bool, true, false, not, ◌&&◌, ◌||◌, Option, none, some, List,
  [], ◌∷◌, zero, suc, any, find, find_map, All, Bool-cases, Option-cases,
}
use rust_encrypted_dns_serve.Wire.Codes.{nsec_type, cname_type}
use rust_encrypted_dns_serve.Wire.Names.{NameOps}
use rust_encrypted_dns_serve.Wire.Messages.{Nsec, Dnskey, Record}
use rust_encrypted_dns_serve.Dnssec.Status.{secure, bogus, ValidationBudget}
use rust_encrypted_dns_serve.Dnssec.Signing.{Crypto}
use rust_encrypted_dns_serve.Dnssec.Nsec.{
  has_type, bitmap_nodata, nsec_of, covers_name, closest_from, find_nsec_closest_encloser,
  nsec_nodata_at, check_nsec_nodata, check_nsec_wildcard_nodata, check_nsec_nxdomain,
}
use rust_encrypted_dns_serve.Dnssec.Negative.{or_else, proof_records, nsec_status, validate_nsec}
use rust_encrypted_dns_serve.Dnssec.Proofs.{Spends, IsSigned}
use rust_encrypted_dns_serve.Dnssec.Denials.{validate_nsec_lem}

module _ {Name : Type 0} (N : NameOps Name) where
  abbrev lacks : ℕ → Option (Nsec Name) → Bool
  lacks qtype none = false
  lacks qtype (some n) =
      not (has_type qtype n.type_bit_maps) && not (has_type cname_type n.type_bit_maps)

  -- A record at a name whose bitmap has neither the type nor CNAME.
  abbrev denies_at : ℕ → Name → Record Name → Bool
  denies_at qtype name r = N.eq r.name name && lacks qtype (nsec_of r.rdata)

  -- The name has no records of the type; or it lies in the gap of a record, and a name above it that
  -- owns a record has a wildcard that lies in a gap or has no records of the type.
  abbrev pub IsDenied : Name → ℕ → List (Record Name) → Type 0
  IsDenied qname qtype records =
      (any (denies_at qtype qname) records ≡ true)
      ⊎ ((any (covers_name N qname) records ≡ true)
          × (c : Name) × (any (λ r. N.eq r.name c) records ≡ true)
          × ((any (covers_name N (N.wildcard c)) records
                || any (denies_at qtype (N.wildcard c)) records)
              ≡ true))

  nodata_at :
      (qname : Name) (qtype : ℕ) (r : Record Name)
      → nsec_nodata_at N qname qtype r ≡ some secure
      → denies_at qtype qname r ≡ true
  unfolding bitmap_nodata
  nodata_at qname qtype r h = elim (Option-cases (nsec_of r.rdata)) [
    | inl other ↦ absurd (ground arith)
    | inr (n, e) ↦ rw e (ground arith)
  ]

  nodata :
      (qname : Name) (qtype : ℕ) (records : List (Record Name))
      → check_nsec_nodata N qname qtype records ≡ some secure
      → any (denies_at qtype qname) records ≡ true
  unfolding check_nsec_nodata
  nodata qname qtype [] h = absurd (ground arith)
  nodata qname qtype (r ∷ rs) h = elim (Option-cases (nsec_nodata_at N qname qtype r)) [
    | inl gone ↦ let rest = nodata qname qtype rs (rw (gone, find_map) at h) in ground (arith, rest)
    | inr (s, e) ↦
        let same : some s ≡ some secure = rw (e, find_map) at h in
        let here = nodata_at qname qtype r (e ∙ same) in ground (arith, here)
  ]

  closest-owner :
      (n : ℕ) (records : List (Record Name)) (cur : Name) {c : Name}
      → closest_from N n records cur ≡ some c
      → any (λ r. N.eq r.name c) records ≡ true
  unfolding closest_from
  closest-owner zero records cur h = absurd (ground arith)
  closest-owner (suc n) records cur {c} h = elim (Bool-cases (any (λ r. N.eq r.name cur) records)) [
    | inl here ↦ ground arith
    | inr there ↦ closest-owner n records (N.base_name cur) (ground arith)
  ]

  found_wildcard :
      (name : Name) (qtype : ℕ) (records : List (Record Name)) {r : Record Name}
      → find (λ x. N.eq x.name name) records ≡ some r
      → lacks qtype (nsec_of r.rdata) ≡ true
      → any (denies_at qtype name) records ≡ true
  found_wildcard name qtype [] h k = absurd (ground arith)
  found_wildcard name qtype (x ∷ xs) {r} h k = elim (Bool-cases (N.eq x.name name)) [
    | inl here ↦
        let same : x ≡ r = ground arith in
        let good : lacks qtype (nsec_of x.rdata) ≡ true = rw same k in ground (arith, here, good)
    | inr there ↦
        let rest = found_wildcard name qtype xs {r = r} (ground arith) k in ground (arith, rest)
  ]

  wildcard_nodata :
      (qname : Name) (qtype : ℕ) (c : Name) (records : List (Record Name))
      → check_nsec_wildcard_nodata N qname qtype c records ≡ some secure
      → (any (covers_name N qname) records ≡ true)
        × (any (denies_at qtype (N.wildcard c)) records ≡ true)
  unfolding check_nsec_wildcard_nodata
  wildcard_nodata qname qtype c records h =
      elim (Option-cases (find (λ r. N.eq r.name (N.wildcard c)) records)) [
        | inl gone ↦ absurd (ground arith)
        | inr (r, e) ↦ elim (Option-cases (nsec_of r.rdata)) [
          | inl other ↦ absurd (ground arith)
          | inr (n, f) ↦
              let without : lacks qtype (nsec_of r.rdata) ≡ true = rw f (ground arith) in
              (ground arith, found_wildcard (N.wildcard c) qtype records e without)
        ]
      ]

  nxdomain :
      (qname c : Name) (records : List (Record Name))
      → check_nsec_nxdomain N qname c records ≡ some secure
      → (any (covers_name N qname) records ≡ true)
        × (any (covers_name N (N.wildcard c)) records ≡ true)
  unfolding check_nsec_nxdomain
  nxdomain qname c records h = ground arith

  below_closest :
      (qname : Name) (qtype : ℕ) (c : Name) (records : List (Record Name))
      → any (λ r. N.eq r.name c) records ≡ true
      → or_else
          (check_nsec_wildcard_nodata N qname qtype c records)
          (or_else (check_nsec_nxdomain N qname c records) bogus)
        ≡ secure
      → IsDenied qname qtype records
  below_closest qname qtype c records owns h =
      elim (Option-cases (check_nsec_wildcard_nodata N qname qtype c records)) [
        | inr (s, e) ↦
            let same : s ≡ secure = rw (e, or_else) at h in
            let (gap, none_there) = wildcard_nodata qname qtype c records (rw (← same) e) in
            inr (gap, c, owns, ground (arith, none_there))
        | inl gone ↦ elim (Option-cases (check_nsec_nxdomain N qname c records)) [
          | inr (s, e) ↦
              let same : s ≡ secure = rw (e, or_else) at (rw (gone, or_else) at h) in
              let (gap, no_wildcard) = nxdomain qname c records (rw (← same) e) in
              inr (gap, c, owns, ground (arith, no_wildcard))
          | inl nothing ↦ absurd (ground arith)
        ]
      ]

  pub nsec_status-IsDenied :
      (C : Crypto Name) (now : ℕ) (qname : Name) (qtype : ℕ) (records : List (Record Name))
      → nsec_status N C now qname qtype records ≡ secure
      → IsDenied qname qtype records
  unfolding nsec_status find_nsec_closest_encloser
  nsec_status-IsDenied C now qname qtype records h =
      elim (Option-cases (check_nsec_nodata N qname qtype records)) [
        | inr (s, e) ↦
            let same : s ≡ secure = rw (e, or_else) at h in
            inl (nodata qname qtype records (rw (← same) e))
        | inl gone ↦ elim (Option-cases (find_nsec_closest_encloser N qname records)) [
          | inl no_encloser ↦ absurd (ground arith)
          | inr (c, e) ↦
              below_closest qname qtype c records (closest-owner _ records _ e)
                (rw (e, nsec_status) at (rw (gone, or_else) at h))
        ]
      ]

module _ {Name : Type 0} (N : NameOps Name) (C : Crypto Name) (now : ℕ) where
  -- A Secure denial by NSEC verifies, within the budget, a signature by one of the keys over each of
  -- the records that it rests on. These show that the name has no records of the type; or that it lies
  -- in the gap of one of them, while the wildcard below some name that owns one of them lies in such a
  -- gap too or has no records of the type. Which name that is, is the code's choice.
  pub validate_nsec-IsDenied :
      (keys : List Dnskey) (qname : Name) (qtype : ℕ) (authority : List (Record Name))
      (b : ValidationBudget)
      → (validate_nsec N C now keys qname qtype authority b).0 ≡ secure
      → let records = proof_records N C now nsec_type authority in
        All (IsSigned N C now authority keys) records
        × IsDenied N qname qtype records
        × Spends b (validate_nsec N C now keys qname qtype authority b).1
  validate_nsec-IsDenied keys qname qtype authority b h =
      let (good, spent) = validate_nsec_lem N C now keys qname qtype authority b in
      let (signed, status) = good h in
      (
        signed,
        nsec_status-IsDenied N C now qname qtype (proof_records N C now nsec_type authority) status,
        spent,
      )

-- ===== src/Dnssec/Nsec.antt =====
-- Proofs of non-existence by NSEC records (src/dnssec.rs).
use rust_encrypted_dns_serve.Base.{
  ℕ, zero, suc, Bool, false, not, ◌&&◌, ◌||◌, Option, none, some, List, ◌==◌, if◌then◌else◌, any,
  find, find_map,
}
use rust_encrypted_dns_serve.Wire.Codes.{cname_type, soa_type, ds_type}
use rust_encrypted_dns_serve.Wire.Names.{NameOps}
use rust_encrypted_dns_serve.Wire.Messages.{Nsec, RData, Record}
use rust_encrypted_dns_serve.Dnssec.Status.{DnssecStatus, secure, bogus}

abbrev pub max_closest_encloser_steps : ℕ
max_closest_encloser_steps = 16

abbrev pub has_type : ℕ → List ℕ → Bool
has_type t = any (λ u. u == t)

-- What a bitmap says of a type at a name that exists: the type's absence, or that the proof is the
-- parent's business.
unfoldable pub bitmap_nodata : ℕ → List ℕ → Option DnssecStatus
bitmap_nodata qtype bits =
    if qtype == ds_type && has_type soa_type bits
    then some bogus
    else if not (has_type qtype bits) && not (has_type cname_type bits)
    then some secure
    else none

module _ {Name : Type 0} where
  abbrev pub nsec_of : RData Name → Option (Nsec Name)
  nsec_of (RData.nsec n) = some n
  nsec_of _ = none

module _ {Name : Type 0} (N : NameOps Name) where
  open N use {eq, is_root, base_name, less, wildcard}

  -- `nsec_covers`, on names in lower case.
  unfoldable pub nsec_covers : Name → Name → Name → Bool
  nsec_covers owner next target =
      if less owner next
      then less owner target && less target next
      else less owner target || less target next

  abbrev pub covers_name : Name → Record Name → Bool
  covers_name target r = elim (nsec_of r.rdata) [
    | none ↦ false
    | some n ↦ nsec_covers r.name n.next_domain_name target
  ]

  unfoldable pub closest_from : ℕ → List (Record Name) → Name → Option Name
  closest_from zero records cur = none
  closest_from (suc n) records cur =
      let rest = closest_from n records (base_name cur) in
      if any (λ r. eq r.name cur) records then some cur else if is_root cur then none else rest

  unfoldable pub find_nsec_closest_encloser : Name → List (Record Name) → Option Name
  find_nsec_closest_encloser qname records =
      closest_from max_closest_encloser_steps records
        (if is_root qname then qname else base_name qname)

  abbrev pub nsec_nodata_at : Name → ℕ → Record Name → Option DnssecStatus
  nsec_nodata_at qname qtype r =
      if eq r.name qname
      then (elim (nsec_of r.rdata) [ none ↦ none | some n ↦ bitmap_nodata qtype n.type_bit_maps ])
      else none

  unfoldable pub check_nsec_nodata : Name → ℕ → List (Record Name) → Option DnssecStatus
  check_nsec_nodata qname qtype = find_map (nsec_nodata_at qname qtype)

  unfoldable pub check_nsec_wildcard_nodata :
      Name → ℕ → Name → List (Record Name) → Option DnssecStatus
  check_nsec_wildcard_nodata qname qtype closest records =
      elim (find (λ r. eq r.name (wildcard closest)) records) [
        | none ↦ none
        | some r ↦ elim (nsec_of r.rdata) [
          | none ↦ none
          | some n ↦
              if has_type qtype n.type_bit_maps || has_type cname_type n.type_bit_maps
              then none
              else if any (covers_name qname) records
              then some secure
              else none
        ]
      ]

  unfoldable pub check_nsec_nxdomain : Name → Name → List (Record Name) → Option DnssecStatus
  check_nsec_nxdomain qname closest records =
      if any (covers_name qname) records && any (covers_name (wildcard closest)) records
      then some secure
      else none

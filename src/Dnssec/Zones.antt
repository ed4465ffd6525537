-- ===== src/Dnssec/Zones.antt =====
-- Whether the zone of a name is signed (src/dnssec.rs): its apex, and the cache of verdicts on zones.
-- The climbs from a name to the root take as many steps as the name has labels.
use rust_encrypted_dns_serve.Base.{
  ℕ, zero, suc, ◌+◌, Bool, true, false, ◌&&◌, ◌||◌, Option, none, some, List, [], ◌∷◌, ◌++◌, Bytes,
  bytes_eq, ◌==◌, ltb, if◌then◌else◌, any, min,
}
use rust_encrypted_dns_serve.Base.Map
use rust_encrypted_dns_serve.Base.Map.{Map}
use rust_encrypted_dns_serve.Wire.Codes.{soa_type, cname_type}
use rust_encrypted_dns_serve.Wire.Names.{NameOps}
use rust_encrypted_dns_serve.Wire.Messages.{RData, Record, Message}
use rust_encrypted_dns_serve.Dnssec.Status.{ZoneSignedness, signed, proven_unsigned, unknown}
use rust_encrypted_dns_serve.Dnssec.Signing.{Crypto}
use rust_encrypted_dns_serve.Dnssec.Trust.{
  Work, ChainResult, trusted, unsigned, untrusted, build_trust_chain,
}

pub record SignedZoneEntry : Type 0 where
  pub signedness : ZoneSignedness
  pub expires_at : ℕ

-- The state of a validation: budget and trusted keys, and the verdicts on zones.
pub record Validator : Type 0 where
  pub work : Work
  pub zones : Map Bytes SignedZoneEntry

module _ {Name : Type 0} where
  abbrev pub is_soa : RData Name → Bool
  is_soa RData.soa = true
  is_soa _ = false

module _ {Name : Type 0} (N : NameOps Name) where
  open N use {eq, zone_of, is_root, base_name, num_labels}

  abbrev is_better : Option Name → Name → Bool
  is_better none soa = true
  is_better (some best) soa = ltb (num_labels best) (num_labels soa)

  -- The SOA owner with the most labels among those that enclose the name.
  unfoldable pub best_soa : Name → Option Name → List (Record Name) → Option Name
  best_soa name best [] = best
  best_soa name best (r ∷ rs) =
      best_soa name
        (if is_soa r.rdata && ((eq r.name name || zone_of r.name name) && is_better best r.name)
          then some r.name
          else best)
        rs

  abbrev has_at : Name → ℕ → List (Record Name) → Bool
  has_at n t = any (λ r. eq r.name n && r.record_type == t)

  unfoldable pub apex_in : Name → Name → Option (Message Name) → Option Name
  apex_in name candidate none = none
  apex_in name candidate (some m) =
      if has_at candidate soa_type m.answers
      then some candidate
      else if has_at candidate cname_type m.answers
      then none
      else best_soa name none (m.answers ++ m.name_servers)

module _ {Name : Type 0} (N : NameOps Name) (C : Crypto Name)
    (resolve : Name → ℕ → Option (Message Name)) (now : ℕ) where
  open N use {eq, is_root, base_name, labels, lower_string}

  unfoldable pub apex_from : ℕ → Name → Name → Option Name
  apex_from zero name candidate = apex_in N name candidate (resolve candidate soa_type)
  apex_from (suc n) name candidate = elim (apex_in N name candidate (resolve candidate soa_type)) [
    | some zone ↦ some zone
    | none ↦ elim (is_root candidate) [
      | true ↦ none
      | false ↦ apex_from n name (base_name candidate)
    ]
  ]

  unfoldable pub find_zone_apex : Name → Option Name
  find_zone_apex name = apex_from (labels name) name name

  -- What an entry that has not expired says of the name: a signed zone only speaks for its apex.
  abbrev entry_says : Name → Name → Option SignedZoneEntry → Option ZoneSignedness
  entry_says name cur none = none
  entry_says name cur (some e) =
      if ltb now e.expires_at
      then (elim e.signedness [
        | proven_unsigned ↦ some proven_unsigned
        | signed ↦ if eq cur name then some signed else none
        | unknown ↦ none
      ])
      else none

  unfoldable pub cached_from : ℕ → Map Bytes SignedZoneEntry → Name → Name → Option ZoneSignedness
  cached_from zero m name cur = entry_says name cur (Map.get (lower_string cur) m)
  cached_from (suc n) m name cur =
      let rest = cached_from n m name (base_name cur) in
      elim (entry_says name cur (Map.get (lower_string cur) m)) [
        | some s ↦ some s
        | none ↦ if is_root cur then none else rest
      ]

  abbrev pub or_parent : Name → Option Name → Name
  or_parent name none = if is_root name then name else base_name name
  or_parent name (some zone) = zone

  abbrev pub note_zone :
      Name → ZoneSignedness → ℕ → Map Bytes SignedZoneEntry → Map Bytes SignedZoneEntry
  note_zone zone s ttl =
      Map.insert (lower_string zone) (record { signedness = s; expires_at = now + min ttl 86400 })

  abbrev pub judged :
      Name → Map Bytes SignedZoneEntry → ChainResult × Work → ZoneSignedness × Validator
  judged zone zones (trusted keys ttl, w) =
      (signed, record { work = w; zones = note_zone zone signed ttl zones })
  judged zone zones (unsigned ttl, w) =
      (proven_unsigned, record { work = w; zones = note_zone zone proven_unsigned ttl zones })
  judged zone zones (untrusted, w) = (unknown, record { work = w; zones = zones })

  unfoldable pub is_zone_signed : Name → Validator → ZoneSignedness × Validator
  is_zone_signed name v = elim (cached_from (labels name) v.zones name name) [
    | some s ↦ (s, v)
    | none ↦
        (let zone = or_parent name (find_zone_apex name) in
          judged zone v.zones (build_trust_chain N C resolve now zone v.work))
  ]

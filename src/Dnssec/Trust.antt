-- ===== src/Dnssec/Trust.antt =====
-- The chain of trust from the root's anchors to a zone (src/dnssec.rs). The loop over the names from
-- the root to the zone is a recursion on the zone's labels: each name takes the keys of its parent.
-- One clock reading stands for those of a validation, and `resolve` for the resolver's answers.
use rust_encrypted_dns_serve.Base.{
  ℕ, zero, suc, ◌+◌, ◌||◌, Option, none, some, List, [], ◌∷◌, Bytes, bytes_eq, ◌==◌, ltb,
  if◌then◌else◌, any, keep, keep_map, is_empty, min,
}
use rust_encrypted_dns_serve.Base.Map
use rust_encrypted_dns_serve.Base.Map.{Map}
use rust_encrypted_dns_serve.Wire.Codes.{ds_type, dnskey_type, nsec_type, nsec3_type}
use rust_encrypted_dns_serve.Wire.Names.{NameOps}
use rust_encrypted_dns_serve.Wire.Messages.{Dnskey, Record, Message}
use rust_encrypted_dns_serve.Recursor.Ttl.{calculate_min_ttl}
use rust_encrypted_dns_serve.Dnssec.Status.{DnssecStatus, bogus, is_proven, ValidationBudget}
use rust_encrypted_dns_serve.Dnssec.Signing.{Crypto}
use rust_encrypted_dns_serve.Dnssec.Anchors.{
  Anchor, root_trust_anchors, anchor_of, is_zone_key, matched_keys, ds_records, zone_keys,
  sigs_covering,
}
use rust_encrypted_dns_serve.Dnssec.Negative.{
  Search, verified, exhausted, unverified, try_sigs, rrset_of, validate_nsec, validate_nsec3,
}

pub record CachedZoneKeys : Type 0 where
  pub keys : List Dnskey
  pub expires_at : ℕ

-- The budget, and the cache of trusted keys.
pub record Work : Type 0 where
  pub budget : ValidationBudget
  pub key_cache : Map Bytes CachedZoneKeys

pub data ChainResult : Type 0 where
  trusted : List Dnskey → ℕ → ChainResult
  unsigned : ℕ → ChainResult
  untrusted : ChainResult

-- Why a chain ends above its zone: a proven absence of usable DS records, or a failure.
pub data Halt : Type 0 where
  no_ds : ℕ → Halt
  broken : Halt

-- A name on the path: the chain ends there, or it has trusted keys.
pub data Progress : Type 0 where
  ended : Halt → Work → Progress
  reached : List Dnskey → ℕ → Work → Progress

-- The DS records of a zone: the chain ends, or these are what the keys must match.
pub data Delegation : Type 0 where
  no_chain : Halt → ValidationBudget → Delegation
  anchored : List Anchor → ℕ → ValidationBudget → Delegation

module _ {Name : Type 0} (N : NameOps Name) (C : Crypto Name) (now : ℕ) where
  open N use {is_root, lower_string}

  -- The parent says that there is no DS record.
  unfoldable pub deny_ds :
      List Dnskey → Name → List (Record Name) → ValidationBudget → DnssecStatus × ValidationBudget
  deny_ds keys zone authority b =
      if any (λ r. r.record_type == nsec3_type) authority
      then validate_nsec3 N C now keys zone ds_type authority b
      else if any (λ r. r.record_type == nsec_type) authority
      then validate_nsec N C now keys zone ds_type authority b
      else (bogus, b)

  abbrev pub after_denial : ℕ → DnssecStatus × ValidationBudget → Delegation
  after_denial ttl (s, b) = if is_proven s then no_chain (no_ds ttl) b else no_chain broken b

  abbrev pub after_signature : Message Name → List Anchor → Search × ValidationBudget → Delegation
  after_signature m [] (verified, b) = no_chain (no_ds (calculate_min_ttl m)) b
  after_signature m (a ∷ rest) (verified, b) = anchored (a ∷ rest) (calculate_min_ttl m) b
  after_signature m anchors (exhausted, b) = no_chain broken b
  after_signature m anchors (unverified, b) = no_chain broken b

  -- The DS part of a round: the parent's keys must sign the zone's DS records, or their absence.
  unfoldable pub delegation_of :
      List Dnskey → Name → Option (Message Name) → ValidationBudget → Delegation
  delegation_of keys zone none b = no_chain broken b
  delegation_of keys zone (some m) b =
      if is_empty (ds_records N C zone m)
      then after_denial (calculate_min_ttl m) (deny_ds keys zone m.name_servers b)
      else if is_empty (sigs_covering N C ds_type m)
      then no_chain broken b
      else after_signature m (keep_map anchor_of (ds_records N C zone m)) (
          try_sigs N C now zone (rrset_of N C now zone ds_type m.answers) keys
            (sigs_covering N C ds_type m) b)

  abbrev pub key_ttl : Name → ℕ → Message Name → ℕ
  key_ttl zone ds_ttl m =
      if is_root zone then calculate_min_ttl m else min (calculate_min_ttl m) ds_ttl

  -- The keys are remembered, and trusted for the next name.
  abbrev pub accept_keys :
      Name → ℕ → Message Name → Map Bytes CachedZoneKeys → Search × ValidationBudget → Progress
  accept_keys zone ds_ttl m cache (verified, b) =
      let keys = keep is_zone_key (zone_keys N C zone m) in
      let ttl = key_ttl zone ds_ttl m in
      reached keys ttl (record {
        budget = b;
        key_cache =
            Map.insert (lower_string zone) (record { keys = keys; expires_at = now + ttl }) cache;
      })
  accept_keys zone ds_ttl m cache (exhausted, b) =
      ended broken (record { budget = b; key_cache = cache })
  accept_keys zone ds_ttl m cache (unverified, b) =
      ended broken (record { budget = b; key_cache = cache })

  -- The DNSKEY part: a key that an anchor matches must sign the zone's keys.
  unfoldable pub keys_of : Name → List Anchor → ℕ → Option (Message Name) → Work → Progress
  keys_of zone anchors ds_ttl none w = ended broken w
  keys_of zone anchors ds_ttl (some m) w =
      if is_empty (zone_keys N C zone m)
        || is_empty (sigs_covering N C dnskey_type m)
        || is_empty (matched_keys N C zone anchors (zone_keys N C zone m))
      then ended broken w
      else accept_keys zone ds_ttl m w.key_cache (
          try_sigs N C now zone (rrset_of N C now zone dnskey_type m.answers)
            (matched_keys N C zone anchors (zone_keys N C zone m)) (sigs_covering N C dnskey_type m)
            w.budget)

module _ {Name : Type 0} (N : NameOps Name) (C : Crypto Name)
    (resolve : Name → ℕ → Option (Message Name)) (now : ℕ) where
  open N use {is_root, base_name, labels, lower_string}

  abbrev pub live : Option CachedZoneKeys → Option (List Dnskey)
  live none = none
  live (some c) = if ltb now c.expires_at then some c.keys else none

  abbrev pub cached_keys : Name → Work → Option (List Dnskey)
  cached_keys zone w = live (Map.get (lower_string zone) w.key_cache)

  abbrev pub enter : Name → Work → Delegation → Progress
  enter zone w (no_chain r b) = ended r (record w { budget = b })
  enter zone w (anchored anchors ds_ttl b) =
      keys_of N C now zone anchors ds_ttl (resolve zone dnskey_type) (record w { budget = b })

  -- A round of the loop, for the root and for a name below it.
  unfoldable pub root_step : Name → Work → Progress
  root_step zone w = elim (cached_keys zone w) [
    | some keys ↦ reached keys 300 w
    | none ↦ keys_of N C now zone root_trust_anchors 300 (resolve zone dnskey_type) w
  ]

  unfoldable pub zone_step : Name → List Dnskey → ℕ → Work → Progress
  zone_step zone parent_keys last_ttl w = elim (cached_keys zone w) [
    | some keys ↦ reached keys last_ttl w
    | none ↦ enter zone w (delegation_of N C now parent_keys zone (resolve zone ds_type) w.budget)
  ]

  abbrev pub below : Name → Progress → Progress
  below zone (ended r w) = ended r w
  below zone (reached keys ttl w) = zone_step zone keys ttl w

  unfoldable pub chain_to : ℕ → Name → Work → Progress
  chain_to zero zone w = root_step zone w
  chain_to (suc n) zone w =
      let parent = chain_to n (base_name zone) w in
      if is_root zone then root_step zone w else below zone parent

  abbrev pub finished : Progress → ChainResult × Work
  finished (ended (no_ds ttl) w) = (unsigned ttl, w)
  finished (ended broken w) = (untrusted, w)
  finished (reached keys ttl w) = (trusted keys ttl, w)

  unfoldable pub build_trust_chain : Name → Work → ChainResult × Work
  build_trust_chain target_zone w = finished (chain_to (labels target_zone) target_zone w)

-- ===== src/Dnssec/Authentic.antt =====
-- Keys that the chain of trust vouches for (src/dnssec.rs).
use mathlib.Core.Path.{subst}
use rust_encrypted_dns_serve.Base.{
  ℕ, ◌+◌, ◌≡◌, refl, arith, true, ◌||◌, Option, none, some, List, [], ◌∷◌, Bytes, bytes_eq,
  bytes_beq, bytes_beq_iff, ◌==◌, if◌then◌else◌, any, keep, keep_map, is_empty, Bool-cases, inl,
  inr,
}
use rust_encrypted_dns_serve.Base.Map
use rust_encrypted_dns_serve.Base.Map.{Map}
use rust_encrypted_dns_serve.Wire.Codes.{ds_type, dnskey_type, nsec_type, nsec3_type}
use rust_encrypted_dns_serve.Wire.Names.{NameOps}
use rust_encrypted_dns_serve.Wire.Messages.{Dnskey, Record, Message}
use rust_encrypted_dns_serve.Dnssec.Status.{DnssecStatus, is_proven, ValidationBudget}
use rust_encrypted_dns_serve.Dnssec.Signing.{Crypto}
use rust_encrypted_dns_serve.Dnssec.Negative.{
  Search, verified, exhausted, unverified, is_verified, try_sigs, rrset_of,
}
use rust_encrypted_dns_serve.Dnssec.Proofs.{
  Spends, Spends-refl, any_verifies, try_sigs-Spends, try_sigs_sound,
}
use rust_encrypted_dns_serve.Dnssec.Denials.{validate_nsec_lem, validate_nsec3_lem}
use rust_encrypted_dns_serve.Dnssec.Anchors.{
  Anchor, root_trust_anchors, anchor_of, is_zone_key, matched_keys, ds_records, zone_keys,
  sigs_covering,
}
use rust_encrypted_dns_serve.Dnssec.Trust.{
  CachedZoneKeys, Work, Progress, ended, reached, Delegation, no_chain, anchored, deny_ds,
  after_denial, after_signature, delegation_of, accept_keys, keys_of, key_ttl,
}

module _ {Name : Type 0} (N : NameOps Name) (C : Crypto Name) where
  -- Some message lists the keys of the zone, and a key among them that an anchor matches signs them.
  abbrev pub KeysFrom : List Anchor → Name → List Dnskey → Type 0
  KeysFrom anchors zone keys =
      (m : Message Name) × (now : ℕ) × (keys ≡ keep is_zone_key (zone_keys N C zone m))
      × (any_verifies N C now zone (rrset_of N C now zone dnskey_type m.answers)
            (matched_keys N C zone anchors (zone_keys N C zone m)) (sigs_covering N C dnskey_type m)
          ≡ true)

  -- Some message lists DS records of the zone, which are the anchors, and one of the parent's keys
  -- signs them.
  abbrev pub AnchorsFrom : List Dnskey → Name → List Anchor → Type 0
  AnchorsFrom parent zone anchors =
      (m : Message Name) × (now : ℕ) × (anchors ≡ keep_map anchor_of (ds_records N C zone m))
      × (any_verifies N C now zone (rrset_of N C now zone ds_type m.answers) parent
            (sigs_covering N C ds_type m)
          ≡ true)

  -- The keys of a zone, by its lower-case text, that chain to the root's anchors.
  pub data IsAuthentic : Bytes → List Dnskey → Type 0 where
    at_root :
        (zone : Name) (keys : List Dnskey)
        → N.is_root zone ≡ true
        → KeysFrom root_trust_anchors zone keys
        → IsAuthentic (N.lower_string zone) keys
    below_parent :
        (zone : Name) (parent : List Dnskey) (anchors : List Anchor) (keys : List Dnskey)
        → IsAuthentic (N.lower_string (N.base_name zone)) parent
        → AnchorsFrom parent zone anchors
        → KeysFrom anchors zone keys
        → IsAuthentic (N.lower_string zone) keys

  abbrev pub AllAuthentic : Map Bytes CachedZoneKeys → Type 0
  AllAuthentic m = (k : Bytes) (c : CachedZoneKeys) → Map.get k m ≡ some c → IsAuthentic k c.keys

  -- What a round leaves: a cache of authentic keys, authentic keys for its zone, and a budget that is
  -- not overspent.
  abbrev pub Sound : ValidationBudget → Name → Progress → Type 0
  Sound b zone (ended r w) = AllAuthentic w.key_cache × Spends b w.budget
  Sound b zone (reached keys ttl w) =
      AllAuthentic w.key_cache × Spends b w.budget × IsAuthentic (N.lower_string zone) keys

  insert-AllAuthentic :
      (k : Bytes) (c : CachedZoneKeys) (m : Map Bytes CachedZoneKeys)
      → IsAuthentic k c.keys
      → AllAuthentic m
      → AllAuthentic (Map.insert k c m)
  insert-AllAuthentic k c m h a j d found =
      let read : (if bytes_beq k j then some c else Map.get j m) ≡ some d =
        rw (Map.get-insert k j c m) at found in
      elim (Bool-cases (bytes_beq k j)) [
        | inl same ↦
            let key : k ≡ j = (bytes_beq_iff k j).0 same in
            let value : some c ≡ some d = rw (same, if◌then◌else◌) at read in
            let entry : c ≡ d = ground arith in
            subst (λ e. IsAuthentic j e.keys) entry (subst (λ i. IsAuthentic i c.keys) key h)
        | inr other ↦ a j d (rw (other, if◌then◌else◌) at read)
      ]

  -- Keys that were found for a zone, from anchors that vouch for them.
  accept_keys-Sound :
      (zone : Name) (anchors : List Anchor) (ds_ttl now : ℕ) (m : Message Name)
      (cache : Map Bytes CachedZoneKeys) (b : ValidationBudget) (found : Search × ValidationBudget)
      → AllAuthentic cache
      → Spends b found.1
      → (is_verified found.0 ≡ true
          → IsAuthentic (N.lower_string zone) (keep is_zone_key (zone_keys N C zone m)))
      → Sound b zone (accept_keys N C now zone ds_ttl m cache found)
  accept_keys-Sound zone anchors ds_ttl now m cache b (verified, c) a spent good =
      let keys = keep is_zone_key (zone_keys N C zone m) in
      let entry : CachedZoneKeys = record {
        keys = keys;
        expires_at = now + key_ttl N C now zone ds_ttl m;
      } in
      (insert-AllAuthentic (N.lower_string zone) entry cache (good refl) a, spent, good refl)
  accept_keys-Sound zone anchors ds_ttl now m cache b (exhausted, c) a spent good = (a, spent)
  accept_keys-Sound zone anchors ds_ttl now m cache b (unverified, c) a spent good = (a, spent)

  -- What anchors must do to make keys authentic.
  abbrev pub Vouch : List Anchor → Name → Type 0
  Vouch anchors zone =
      (keys : List Dnskey) → KeysFrom anchors zone keys → IsAuthentic (N.lower_string zone) keys

  pub keys_of-Sound :
      (zone : Name) (anchors : List Anchor) (ds_ttl now : ℕ) (o : Option (Message Name)) (w : Work)
      → AllAuthentic w.key_cache
      → Vouch anchors zone
      → Sound w.budget zone (keys_of N C now zone anchors ds_ttl o w)
  unfolding keys_of
  keys_of-Sound zone anchors ds_ttl now none w a v = (a, Spends-refl w.budget)
  keys_of-Sound zone anchors ds_ttl now (some m) w a v =
      let keys = zone_keys N C zone m in
      let sigs = sigs_covering N C dnskey_type m in
      let matched = matched_keys N C zone anchors keys in
      let rrset = rrset_of N C now zone dnskey_type m.answers in
      elim (Bool-cases (is_empty keys || is_empty sigs || is_empty matched)) [
        | inl nothing ↦ rw (nothing, if◌then◌else◌) (a, Spends-refl w.budget)
        | inr something ↦
            rw (something, if◌then◌else◌)
              (accept_keys-Sound zone anchors ds_ttl now m w.key_cache w.budget
                (try_sigs N C now zone rrset matched sigs w.budget) a
                (try_sigs-Spends N C now zone rrset matched sigs w.budget)
                (λ h.
                  v (keep is_zone_key keys)
                    (m, now, refl, try_sigs_sound N C now zone rrset matched sigs w.budget h)))
      ]

  -- The DS part: what it spends, and that the anchors come from the parent's keys.
  abbrev pub DelegationSound : ValidationBudget → List Dnskey → Name → Delegation → Type 0
  DelegationSound b parent zone (no_chain r c) = Spends b c
  DelegationSound b parent zone (anchored anchors ttl c) =
      Spends b c × AnchorsFrom parent zone anchors

  deny_ds-Spends :
      (now : ℕ) (keys : List Dnskey) (zone : Name) (authority : List (Record Name))
      (b : ValidationBudget)
      → Spends b (deny_ds N C now keys zone authority b).1
  unfolding deny_ds
  deny_ds-Spends now keys zone authority b =
      elim (Bool-cases (any (λ r. r.record_type == nsec3_type) authority)) [
        | inl hashed ↦
            rw (hashed, if◌then◌else◌) (validate_nsec3_lem N C now keys zone ds_type authority b).1
        | inr plain ↦
            rw (plain, if◌then◌else◌)
              (elim (Bool-cases (any (λ r. r.record_type == nsec_type) authority)) [
                | inl some_nsec ↦
                    rw (some_nsec, if◌then◌else◌)
                      (validate_nsec_lem N C now keys zone ds_type authority b).1
                | inr no_nsec ↦ rw (no_nsec, if◌then◌else◌) (Spends-refl b)
              ])
      ]

  after_denial-DelegationSound :
      (now ttl : ℕ) (b : ValidationBudget) (parent : List Dnskey) (zone : Name)
      (r : DnssecStatus × ValidationBudget)
      → Spends b r.1
      → DelegationSound b parent zone (after_denial N C now ttl r)
  after_denial-DelegationSound now ttl b parent zone (s, c) h = elim (Bool-cases (is_proven s)) [
    | inl proven ↦ rw (proven, if◌then◌else◌) h
    | inr unproven ↦ rw (unproven, if◌then◌else◌) h
  ]

  after_signature-DelegationSound :
      (now : ℕ) (b : ValidationBudget) (parent : List Dnskey) (zone : Name) (m : Message Name)
      (anchors : List Anchor) (found : Search × ValidationBudget)
      → Spends b found.1
      → (is_verified found.0 ≡ true → AnchorsFrom parent zone anchors)
      → DelegationSound b parent zone (after_signature N C now m anchors found)
  after_signature-DelegationSound now b parent zone m [] (verified, c) h v = h
  after_signature-DelegationSound now b parent zone m (a ∷ rest) (verified, c) h v = (h, v refl)
  after_signature-DelegationSound now b parent zone m [] (exhausted, c) h v = h
  after_signature-DelegationSound now b parent zone m (a ∷ rest) (exhausted, c) h v = h
  after_signature-DelegationSound now b parent zone m [] (unverified, c) h v = h
  after_signature-DelegationSound now b parent zone m (a ∷ rest) (unverified, c) h v = h

  pub delegation_of-DelegationSound :
      (now : ℕ) (parent : List Dnskey) (zone : Name) (o : Option (Message Name))
      (b : ValidationBudget)
      → DelegationSound b parent zone (delegation_of N C now parent zone o b)
  unfolding delegation_of
  delegation_of-DelegationSound now parent zone none b = Spends-refl b
  delegation_of-DelegationSound now parent zone (some m) b =
      let sigs = sigs_covering N C ds_type m in
      let rrset = rrset_of N C now zone ds_type m.answers in
      elim (Bool-cases (is_empty (ds_records N C zone m))) [
        | inl nothing ↦
            rw (nothing, if◌then◌else◌)
              (after_denial-DelegationSound now _ b parent zone
                (deny_ds N C now parent zone m.name_servers b)
                (deny_ds-Spends now parent zone m.name_servers b))
        | inr something ↦
            rw (something, if◌then◌else◌)
              (elim (Bool-cases (is_empty sigs)) [
                | inl unsigned_ds ↦ rw (unsigned_ds, if◌then◌else◌) (Spends-refl b)
                | inr signed_ds ↦
                    rw (signed_ds, if◌then◌else◌)
                      (after_signature-DelegationSound now b parent zone m
                        (keep_map anchor_of (ds_records N C zone m))
                        (try_sigs N C now zone rrset parent sigs b)
                        (try_sigs-Spends N C now zone rrset parent sigs b)
                        (λ h. (m, now, refl, try_sigs_sound N C now zone rrset parent sigs b h)))
              ])
      ]

-- ===== src/Dnssec/Chains.antt =====
-- The chain of trust as a whole (src/dnssec.rs).
use mathlib.Core.Path.{subst}
use rust_encrypted_dns_serve.Base.{
  ℕ, zero, suc, ◌≤◌, ◌≡◌, refl, arith, true, Option, none, some, List, Bytes, bytes_eq,
  if◌then◌else◌, Bool-cases, Option-cases, inl, inr,
}
use rust_encrypted_dns_serve.Wire.Codes.{ds_type, dnskey_type}
use rust_encrypted_dns_serve.Wire.Names.{NameOps}
use rust_encrypted_dns_serve.Wire.Messages.{Dnskey, Message}
use rust_encrypted_dns_serve.Dnssec.Status.{ValidationBudget}
use rust_encrypted_dns_serve.Dnssec.Signing.{Crypto}
use rust_encrypted_dns_serve.Dnssec.Proofs.{Spends, Spends-refl, Spends-trans}
use rust_encrypted_dns_serve.Dnssec.Anchors.{root_trust_anchors}
use rust_encrypted_dns_serve.Dnssec.Trust.{
  CachedZoneKeys, Work, ChainResult, trusted, unsigned, untrusted, no_ds, broken, Progress, ended,
  reached, Delegation, no_chain, anchored, cached_keys, live, enter, root_step, zone_step, below,
  chain_to, finished, build_trust_chain,
}
use rust_encrypted_dns_serve.Dnssec.Authentic.{
  IsAuthentic, AllAuthentic, Sound, at_root, below_parent, DelegationSound, keys_of-Sound,
  delegation_of-DelegationSound,
}

module _ {Name : Type 0} (N : NameOps Name) (C : Crypto Name)
    (resolve : Name → ℕ → Option (Message Name)) (now : ℕ) where
  cached_keys-IsAuthentic :
      (k : Bytes) (o : Option CachedZoneKeys) (keys : List Dnskey)
      → ((c : CachedZoneKeys) → o ≡ some c → IsAuthentic N C k c.keys)
      → live N C resolve now o ≡ some keys
      → IsAuthentic N C k keys
  cached_keys-IsAuthentic k none keys a h = absurd (ground arith)
  cached_keys-IsAuthentic k (some c) keys a h =
      let same : c.keys ≡ keys = ground arith in subst (λ ks. IsAuthentic N C k ks) same (a c refl)

  root_step-Sound :
      (zone : Name) (w : Work)
      → N.is_root zone ≡ true
      → AllAuthentic N C w.key_cache
      → Sound N C w.budget zone (root_step N C resolve now zone w)
  unfolding root_step
  root_step-Sound zone w top a = elim (Option-cases (cached_keys N C resolve now zone w)) [
    | inr (keys, e) ↦
        rw (e, root_step)
          (
            a,
            Spends-refl w.budget,
            cached_keys-IsAuthentic (N.lower_string zone) _ keys (a (N.lower_string zone)) e,
          )
    | inl nothing ↦
        rw (nothing, root_step)
          (keys_of-Sound N C zone root_trust_anchors 300 now (resolve zone dnskey_type) w a
            (λ keys from. at_root zone keys top from))
  ]

  -- Later work on the budget of an earlier round.
  Sound-Spends :
      (b c : ValidationBudget) (zone : Name) (p : Progress)
      → Spends b c
      → Sound N C c zone p
      → Sound N C b zone p
  Sound-Spends b c zone (ended r w) h (a, s) = (a, Spends-trans b c w.budget h s)
  Sound-Spends b c zone (reached keys ttl w) h (a, s, good) =
      (a, Spends-trans b c w.budget h s, good)

  enter-Sound :
      (zone : Name) (parent : List Dnskey) (w : Work) (d : Delegation)
      → AllAuthentic N C w.key_cache
      → IsAuthentic N C (N.lower_string (N.base_name zone)) parent
      → DelegationSound N C w.budget parent zone d
      → Sound N C w.budget zone (enter N C resolve now zone w d)
  enter-Sound zone parent w (no_chain r b) a p h = (a, h)
  enter-Sound zone parent w (anchored anchors ttl b) a p (spent, from) =
      Sound-Spends w.budget b zone _ spent (
        keys_of-Sound N C zone anchors ttl now (resolve zone dnskey_type) (record w { budget = b })
          a (λ keys signed. below_parent zone parent anchors keys p from signed))

  zone_step-Sound :
      (zone : Name) (parent : List Dnskey) (ttl : ℕ) (w : Work)
      → AllAuthentic N C w.key_cache
      → IsAuthentic N C (N.lower_string (N.base_name zone)) parent
      → Sound N C w.budget zone (zone_step N C resolve now zone parent ttl w)
  unfolding zone_step
  zone_step-Sound zone parent ttl w a p = elim (Option-cases (cached_keys N C resolve now zone w)) [
    | inr (keys, e) ↦
        rw (e, zone_step)
          (
            a,
            Spends-refl w.budget,
            cached_keys-IsAuthentic (N.lower_string zone) _ keys (a (N.lower_string zone)) e,
          )
    | inl nothing ↦
        rw (nothing, zone_step)
          (enter-Sound zone parent w _ a p
            (delegation_of-DelegationSound N C now parent zone (resolve zone ds_type) w.budget))
  ]

  below-Sound :
      (b : ValidationBudget) (zone : Name) (p : Progress)
      → Sound N C b (N.base_name zone) p
      → Sound N C b zone (below N C resolve now zone p)
  below-Sound b zone (ended r w) h = h
  below-Sound b zone (reached keys ttl w) (a, spent, good) =
      Sound-Spends b w.budget zone _ spent (zone_step-Sound zone keys ttl w a good)

  chain_to-Sound :
      (n : ℕ) (zone : Name) (w : Work)
      → N.labels zone ≤ n
      → AllAuthentic N C w.key_cache
      → Sound N C w.budget zone (chain_to N C resolve now n zone w)
  unfolding chain_to
  chain_to-Sound zero zone w h a = root_step-Sound zone w (ground (arith, N.is_root_iff zone)) a
  chain_to-Sound (suc n) zone w h a = elim (Bool-cases (N.is_root zone)) [
    | inl top ↦ rw (top, if◌then◌else◌) (root_step-Sound zone w top a)
    | inr lower ↦
        rw (lower, if◌then◌else◌)
          (below-Sound w.budget zone (chain_to N C resolve now n (N.base_name zone) w)
            (chain_to-Sound n (N.base_name zone) w (ground (arith, N.labels-base_name zone)) a))
  ]

  -- What a result says: trusted keys are authentic.
  abbrev pub Trusts : Name → ChainResult → Type 0
  Trusts zone (trusted keys ttl) = IsAuthentic N C (N.lower_string zone) keys
  Trusts zone (unsigned ttl) = Unit
  Trusts zone untrusted = Unit

  finished-Sound :
      (b : ValidationBudget) (zone : Name) (p : Progress)
      → Sound N C b zone p
      → Trusts zone (finished N C resolve now p).0
        × AllAuthentic N C (finished N C resolve now p).1.key_cache
        × Spends b (finished N C resolve now p).1.budget
  finished-Sound b zone (ended (no_ds ttl) w) (a, s) = (tt, a, s)
  finished-Sound b zone (ended broken w) (a, s) = (tt, a, s)
  finished-Sound b zone (reached keys ttl w) (a, s, good) = (good, a, s)

  -- The keys that the chain of trust yields for a zone chain by DS and DNSKEY records to the anchors
  -- of the root, each link signed by the keys above it. This holds with a cache of such keys, which
  -- it leaves; and it verifies no more signatures than it counts, and the count stays within its limit.
  pub build_trust_chain_lem :
      (zone : Name) (w : Work)
      → AllAuthentic N C w.key_cache
      → let r = build_trust_chain N C resolve now zone w in
        Trusts zone r.0 × AllAuthentic N C r.1.key_cache × Spends w.budget r.1.budget
  unfolding build_trust_chain
  build_trust_chain_lem zone w a =
      finished-Sound w.budget zone _ (chain_to-Sound (N.labels zone) zone w (omega arith) a)

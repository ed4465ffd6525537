-- ===== src/Dnssec/Secured.antt =====
-- What a Secure verdict on an RRset rests on (src/dnssec.rs).
use rust_encrypted_dns_serve.Base.{
  ℕ, ◌≡◌, refl, arith, Bool, true, false, ◌&&◌, ◌||◌, Option, List, [], ◌∷◌, ◌==◌, if◌then◌else◌,
  any, keep, is_empty, All, All-keep, Bool-cases, Option-cases, inl, inr,
}
use rust_encrypted_dns_serve.Wire.Names.{NameOps}
use rust_encrypted_dns_serve.Wire.Messages.{Rrsig, Dnskey, Record, Message}
use rust_encrypted_dns_serve.Dnssec.Status.{
  DnssecStatus, secure, insecure_unsigned, bogus, ZoneSignedness, signed, proven_unsigned, unknown,
  ValidationBudget, can_check_sig, perform,
}
use rust_encrypted_dns_serve.Dnssec.Signing.{Crypto, tag_of, verify_rrsig}
use rust_encrypted_dns_serve.Dnssec.Negative.{
  Search, verified, exhausted, unverified, is_verified, sigs_of,
}
use rust_encrypted_dns_serve.Dnssec.Proofs.{
  Spends, Spends-refl, Spends-trans, perform-Spends, can_check_sig-Spends,
}
use rust_encrypted_dns_serve.Dnssec.Trust.{
  Work, ChainResult, trusted, unsigned, untrusted, build_trust_chain,
}
use rust_encrypted_dns_serve.Dnssec.Authentic.{IsAuthentic, AllAuthentic}
use rust_encrypted_dns_serve.Dnssec.Chains.{Trusts, build_trust_chain_lem}
use rust_encrypted_dns_serve.Dnssec.Zones.{
  Validator, is_zone_signed, judged, cached_from, find_zone_apex, or_parent,
}
use rust_encrypted_dns_serve.Dnssec.Rrset.{
  unsigned_status, is_candidate, check_keys, Tried, verdict, no_verdict, after_keys, after_trust,
  try_candidates, validate_rrset,
}

module _ {Name : Type 0} (N : NameOps Name) (C : Crypto Name)
    (resolve : Name → ℕ → Option (Message Name)) (now : ℕ) where
  abbrev key_secures : Name → List (Record Name) → Rrsig Name → Dnskey → Bool
  key_secures owner target s k = tag_of N C k == s.key_tag && verify_rrsig N C s k owner target now

  -- A signature within its period, by a zone that encloses the owner, that verifies over the records
  -- under one of the authentic keys of that zone.
  abbrev pub Secured : Name → List (Record Name) → Type 0
  Secured owner target =
      (s : Rrsig Name) × (keys : List Dnskey) × (is_candidate N C resolve now owner s ≡ true)
      × IsAuthentic N C (N.lower_string s.signer_name) keys
      × (any (key_secures owner target s) keys ≡ true)

  -- What a validation does to its state.
  abbrev pub Keeps : Work → Work → Type 0
  Keeps w w' = AllAuthentic N C w'.key_cache × Spends w.budget w'.budget

  check_keys_lem :
      (owner : Name) (target : List (Record Name)) (s : Rrsig Name) (ks : List Dnskey)
      (b : ValidationBudget)
      → let r = check_keys N C resolve now owner target s ks b in
        Spends b r.1 × (is_verified r.0 ≡ true → any (key_secures owner target s) ks ≡ true)
  unfolding check_keys
  check_keys_lem owner target s [] b = (Spends-refl b, λ h. absurd (ground arith))
  check_keys_lem owner target s (k ∷ ks) b =
      let b' = (can_check_sig b).0 in
      let one = can_check_sig-Spends b in
      elim (Bool-cases (can_check_sig b).1) [
        | inr over ↦ rw (over, check_keys) (one, λ h. absurd (ground arith))
        | inl allowed ↦
            rw (allowed, check_keys)
              (elim (Bool-cases (tag_of N C k == s.key_tag)) [
                | inr other ↦
                    let (more, later) = check_keys_lem owner target s ks b' in
                    rw (other, check_keys)
                      (Spends-trans b b' _ one more, λ h. let rest = later h in ground arith)
                | inl tagged ↦
                    let done = perform-Spends b allowed in
                    rw (tagged, check_keys)
                      (elim (Bool-cases (verify_rrsig N C s k owner target now)) [
                        | inl good ↦ rw (good, check_keys) (done, λ h. ground arith)
                        | inr bad ↦
                            let (more, later) = check_keys_lem owner target s ks (perform b') in
                            rw (bad, check_keys)
                              (
                                Spends-trans b (perform b') _ done more,
                                λ h. let rest = later h in ground arith,
                              )
                      ])
              ])
      ]

  -- What one signature yields.
  abbrev TriedSound : Work → Name → List (Record Name) → Tried N C resolve now → Type 0
  TriedSound w owner target (verdict v w') = Keeps w w' × (v ≡ secure → Secured owner target)
  TriedSound w owner target (no_verdict t w') = Keeps w w'

  after_keys-TriedSound :
      (w w' : Work) (owner : Name) (target : List (Record Name)) (found : Search × ValidationBudget)
      → AllAuthentic N C w'.key_cache
      → Spends w.budget found.1
      → (is_verified found.0 ≡ true → Secured owner target)
      → TriedSound w owner target (after_keys N C resolve now w' found)
  after_keys-TriedSound w w' owner target (verified, b) a spent h = ((a, spent), λ _. h refl)
  after_keys-TriedSound w w' owner target (exhausted, b) a spent h = ((a, spent), λ e. cc)
  after_keys-TriedSound w w' owner target (unverified, b) a spent h = (a, spent)

  after_trust-TriedSound :
      (w : Work) (owner : Name) (target : List (Record Name)) (s : Rrsig Name)
      (r : ChainResult × Work)
      → is_candidate N C resolve now owner s ≡ true
      → Trusts N C resolve now s.signer_name r.0
      → Keeps w r.1
      → TriedSound w owner target (after_trust N C resolve now owner target s r)
  after_trust-TriedSound w owner target s (trusted keys ttl, w') c t (a, spent) =
      let (more, good) = check_keys_lem owner target s keys w'.budget in
      after_keys-TriedSound w w' owner target
        (check_keys N C resolve now owner target s keys w'.budget) a
        (Spends-trans w.budget w'.budget _ spent more) (λ h. (s, keys, c, t, good h))
  after_trust-TriedSound w owner target s (unsigned ttl, w') c t k = k
  after_trust-TriedSound w owner target s (untrusted, w') c t k = (k, λ e. cc)

  pub Keeps-trans : (u v w : Work) → Keeps u v → Keeps v w → Keeps u w
  Keeps-trans u v w (a, s) (a', s') = (a', Spends-trans u.budget v.budget w.budget s s')

  last_verdict :
      (any_trusted : Bool) → (if any_trusted then bogus else insecure_unsigned) ≡ secure → ⊥
  last_verdict true h = cc
  last_verdict false h = cc

  try_candidates_lem :
      (owner : Name) (target : List (Record Name)) (t : Bool) (ss : List (Rrsig Name)) (w : Work)
      → All (λ s. is_candidate N C resolve now owner s ≡ true) ss
      → AllAuthentic N C w.key_cache
      → let r = try_candidates N C resolve now owner target t ss w in
        Keeps w r.1 × (r.0 ≡ secure → Secured owner target)
  unfolding try_candidates
  try_candidates_lem owner target t [] w c a =
      ((a, Spends-refl w.budget), λ h. absurd (last_verdict t h))
  try_candidates_lem owner target t (s ∷ ss) w c a =
      let chain = build_trust_chain N C resolve now s.signer_name w in
      let (trusts, authentic, spent) = build_trust_chain_lem N C resolve now s.signer_name w a in
      after (λ t' w' a'. try_candidates_lem owner target t' ss w' c.1 a')
        (after_trust N C resolve now owner target s chain)
        (after_trust-TriedSound w owner target s chain c.0 trusts (authentic, spent))
    where
      after :
          ((t' : Bool) (w' : Work)
            → AllAuthentic N C w'.key_cache
            → let r = try_candidates N C resolve now owner target t' ss w' in
              Keeps w' r.1 × (r.0 ≡ secure → Secured owner target))
          → (tried : Tried N C resolve now) → TriedSound w owner target tried
          → let r : DnssecStatus × Work = elim tried [
            | verdict v w' ↦ (v, w')
            | no_verdict t' w' ↦ try_candidates N C resolve now owner target (t || t') ss w'
          ] in
            Keeps w r.1 × (r.0 ≡ secure → Secured owner target)
      after again (verdict v w') k = k
      after again (no_verdict t' w') k =
          let (kept, good) = again (t || t') w' k.0 in (Keeps-trans w w' _ k kept, good)

  judged-Keeps :
      (zone : Name) (v : Validator) (r : ChainResult × Work)
      → Keeps v.work r.1
      → Keeps v.work (judged N C resolve now zone v.zones r).1.work
  judged-Keeps zone v (trusted keys ttl, w) k = k
  judged-Keeps zone v (unsigned ttl, w) k = k
  judged-Keeps zone v (untrusted, w) k = k

  is_zone_signed-Keeps :
      (name : Name) (v : Validator)
      → AllAuthentic N C v.work.key_cache
      → Keeps v.work (is_zone_signed N C resolve now name v).1.work
  unfolding is_zone_signed
  is_zone_signed-Keeps name v a =
      elim (Option-cases (cached_from N C resolve now (N.labels name) v.zones name name)) [
        | inr (s, e) ↦ rw (e, is_zone_signed) (a, Spends-refl v.work.budget)
        | inl nothing ↦
            let zone = or_parent N C resolve now name (find_zone_apex N C resolve now name) in
            let (_, authentic, spent) = build_trust_chain_lem N C resolve now zone v.work a in
            rw (nothing, is_zone_signed)
              (judged-Keeps zone v (build_trust_chain N C resolve now zone v.work)
                (authentic, spent))
      ]

  unsigned_status_insecure : (s : ZoneSignedness) → unsigned_status s ≡ secure → ⊥
  unfolding unsigned_status
  unsigned_status_insecure signed h = cc
  unsigned_status_insecure proven_unsigned h = cc
  unsigned_status_insecure unknown h = cc

  -- An RRset is Secure only if a signature within its period, by a zone that encloses the owner,
  -- verifies over it under a key of that zone that chains to the root's anchors. This holds with a
  -- cache of such keys, which it leaves; and it takes no signature check beyond the budget.
  pub validate_rrset_lem :
      (owner : Name) (rtype : ℕ) (target all : List (Record Name)) (v : Validator)
      → AllAuthentic N C v.work.key_cache
      → let r = validate_rrset N C resolve now owner rtype target all v in
        Keeps v.work r.1.work × (r.0 ≡ secure → Secured owner target)
  unfolding validate_rrset
  validate_rrset_lem owner rtype target all v a =
      let sigs = sigs_of N C now owner rtype all in
      elim (Bool-cases (is_empty sigs)) [
        | inl nothing ↦
            rw (nothing, if◌then◌else◌)
              (
                is_zone_signed-Keeps owner v a,
                λ h. absurd (unsigned_status_insecure (is_zone_signed N C resolve now owner v).0 h),
              )
        | inr something ↦
            rw (something, if◌then◌else◌)
              (elim (Bool-cases (is_empty (keep (is_candidate N C resolve now owner) sigs))) [
                | inl stale ↦ rw (stale, if◌then◌else◌) ((a, Spends-refl v.work.budget), λ h. cc)
                | inr live ↦
                    rw (live, if◌then◌else◌)
                      (try_candidates_lem owner target false
                        (keep (is_candidate N C resolve now owner) sigs) v.work
                        (All-keep (is_candidate N C resolve now owner) sigs) a)
              ])
      ]

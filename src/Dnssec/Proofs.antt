-- ===== src/Dnssec/Proofs.antt =====
-- What a negative proof rests on, and what it costs (src/dnssec.rs).
use rust_encrypted_dns_serve.Base.{
  ℕ, ◌+◌, ◌≤◌, ◌≡◌, refl, arith, Bool, true, ◌&&◌, ◌||◌, List, [], ◌∷◌, if◌then◌else◌, any,
  is_empty, All, Bool-cases, inl, inr,
}
use rust_encrypted_dns_serve.Wire.Names.{NameOps}
use rust_encrypted_dns_serve.Wire.Messages.{Rrsig, Dnskey, Record}
use rust_encrypted_dns_serve.Dnssec.Status.{ValidationBudget, can_check_sig, perform}
use rust_encrypted_dns_serve.Dnssec.Signing.{Crypto, key_tag_matches, verify_rrsig}
use rust_encrypted_dns_serve.Dnssec.Negative.{
  Search, verified, exhausted, unverified, is_verified, try_keys, try_sigs, and_then, sigs_of,
  rrset_of, verify_negative_rrset, verify_all,
}

-- The budget after some work: the same bound, no count beyond it, and every signature that was
-- verified meanwhile was counted.
abbrev pub Spends : ValidationBudget → ValidationBudget → Type 0
Spends b c =
    (c.max_sig_checks ≡ b.max_sig_checks)
    × (c.performed + b.sig_checks ≤ b.performed + c.sig_checks)
    × (b.sig_checks ≤ c.sig_checks)
    × (b.sig_checks ≤ b.max_sig_checks → c.sig_checks ≤ c.max_sig_checks)

pub Spends-refl : (b : ValidationBudget) → Spends b b
Spends-refl b = (refl, omega arith, omega arith, λ h. h)

pub Spends-trans : (b c d : ValidationBudget) → Spends b c → Spends c d → Spends b d
Spends-trans b c d (p, n, q, r) (p', n', q', r') =
    (omega arith, omega arith, omega arith, λ h. r' (r h))

pub perform-Spends :
    (b : ValidationBudget) → (can_check_sig b).1 ≡ true → Spends b (perform (can_check_sig b).0)
unfolding can_check_sig
perform-Spends b h = ground arith

pub can_check_sig-Spends : (b : ValidationBudget) → Spends b (can_check_sig b).0
unfolding can_check_sig
can_check_sig-Spends b = ground arith

module _ {Name : Type 0} (N : NameOps Name) (C : Crypto Name) (now : ℕ) where
  abbrev key_verifies : Name → List (Record Name) → Rrsig Name → Dnskey → Bool
  key_verifies owner rrset s k =
      key_tag_matches N C k s.key_tag && verify_rrsig N C s k owner rrset now

  abbrev pub any_verifies : Name → List (Record Name) → List Dnskey → List (Rrsig Name) → Bool
  any_verifies owner rrset keys = any (λ s. any (key_verifies owner rrset s) keys)

  pub try_keys-Spends :
      (owner : Name) (rrset : List (Record Name)) (s : Rrsig Name) (ks : List Dnskey)
      (b : ValidationBudget)
      → Spends b (try_keys N C now owner rrset s ks b).1
  unfolding try_keys
  try_keys-Spends owner rrset s [] b = Spends-refl b
  try_keys-Spends owner rrset s (k ∷ ks) b = elim (Bool-cases (key_tag_matches N C k s.key_tag)) [
    | inr other ↦ rw (other, try_keys) (try_keys-Spends owner rrset s ks b)
    | inl tagged ↦
        let b' = (can_check_sig b).0 in
        let one = can_check_sig-Spends b in
        rw (tagged, try_keys)
          (elim (Bool-cases (can_check_sig b).1) [
            | inr over ↦ rw (over, try_keys) one
            | inl allowed ↦
                let b'' = perform b' in
                let done = perform-Spends b allowed in
                rw (allowed, try_keys)
                  (elim (Bool-cases (verify_rrsig N C s k owner rrset now)) [
                    | inl good ↦ rw (good, try_keys) done
                    | inr bad ↦
                        rw (bad, try_keys)
                          (Spends-trans b b'' _ done (try_keys-Spends owner rrset s ks b''))
                  ])
          ])
  ]

  try_keys_sound :
      (owner : Name) (rrset : List (Record Name)) (s : Rrsig Name) (ks : List Dnskey)
      (b : ValidationBudget)
      → is_verified (try_keys N C now owner rrset s ks b).0 ≡ true
      → any (key_verifies owner rrset s) ks ≡ true
  unfolding try_keys
  try_keys_sound owner rrset s [] b h = absurd (ground arith)
  try_keys_sound owner rrset s (k ∷ ks) b h = elim (Bool-cases (key_tag_matches N C k s.key_tag)) [
    | inr other ↦
        let rest = try_keys_sound owner rrset s ks b (rw (other, try_keys) at h) in
        ground (arith, rest)
    | inl tagged ↦ elim (Bool-cases (can_check_sig b).1) [
      | inr over ↦ absurd (ground arith)
      | inl allowed ↦ elim (Bool-cases (verify_rrsig N C s k owner rrset now)) [
        | inl good ↦ ground arith
        | inr bad ↦
            let later : is_verified
                  (try_keys N C now owner rrset s ks (perform (can_check_sig b).0)).0
                ≡ true =
              rw (bad, try_keys) at (rw (allowed, try_keys) at (rw (tagged, try_keys) at h)) in
            let rest = try_keys_sound owner rrset s ks (perform (can_check_sig b).0) later in
            ground (arith, rest)
      ]
    ]
  ]

  and_then-Spends :
      (b : ValidationBudget) (r : Search × ValidationBudget)
      (f : ValidationBudget → Search × ValidationBudget)
      → Spends b r.1
      → ((c : ValidationBudget) → Spends c (f c).1)
      → Spends b (and_then N C now r f).1
  and_then-Spends b (verified, c) f h k = h
  and_then-Spends b (exhausted, c) f h k = h
  and_then-Spends b (unverified, c) f h k = Spends-trans b c (f c).1 h (k c)

  pub try_sigs-Spends :
      (owner : Name) (rrset : List (Record Name)) (ks : List Dnskey) (ss : List (Rrsig Name))
      (b : ValidationBudget)
      → Spends b (try_sigs N C now owner rrset ks ss b).1
  unfolding try_sigs
  try_sigs-Spends owner rrset ks [] b = Spends-refl b
  try_sigs-Spends owner rrset ks (s ∷ ss) b =
      and_then-Spends b (try_keys N C now owner rrset s ks b) (try_sigs N C now owner rrset ks ss)
        (try_keys-Spends owner rrset s ks b) (λ c. try_sigs-Spends owner rrset ks ss c)

  and_then_sound :
      (r : Search × ValidationBudget) (f : ValidationBudget → Search × ValidationBudget)
      (x y : Bool)
      → is_verified (and_then N C now r f).0 ≡ true
      → (is_verified r.0 ≡ true → x ≡ true)
      → ((c : ValidationBudget) → is_verified (f c).0 ≡ true → y ≡ true)
      → (x || y) ≡ true
  and_then_sound (verified, c) f x y h p q = let first = p refl in ground arith
  and_then_sound (exhausted, c) f x y h p q = absurd (ground arith)
  and_then_sound (unverified, c) f x y h p q = let second = q c h in ground arith

  pub try_sigs_sound :
      (owner : Name) (rrset : List (Record Name)) (ks : List Dnskey) (ss : List (Rrsig Name))
      (b : ValidationBudget)
      → is_verified (try_sigs N C now owner rrset ks ss b).0 ≡ true
      → any_verifies owner rrset ks ss ≡ true
  unfolding try_sigs
  try_sigs_sound owner rrset ks [] b h = absurd (ground arith)
  try_sigs_sound owner rrset ks (s ∷ ss) b h =
      and_then_sound (try_keys N C now owner rrset s ks b) (try_sigs N C now owner rrset ks ss)
        (any (key_verifies owner rrset s) ks) (any_verifies owner rrset ks ss) h
        (try_keys_sound owner rrset s ks b) (λ c. try_sigs_sound owner rrset ks ss c)

  -- A record of the authority section whose RRset a signature over it by one of the keys covers.
  abbrev pub IsSigned : List (Record Name) → List Dnskey → Record Name → Type 0
  IsSigned authority keys r =
      any_verifies r.name (rrset_of N C now r.name r.record_type authority) keys
        (sigs_of N C now r.name r.record_type authority)
      ≡ true

  pub verify_negative_rrset_lem :
      (r : Record Name) (authority : List (Record Name)) (keys : List Dnskey) (b : ValidationBudget)
      → ((verify_negative_rrset N C now r authority keys b).0 ≡ true → IsSigned authority keys r)
        × Spends b (verify_negative_rrset N C now r authority keys b).1
  unfolding verify_negative_rrset
  verify_negative_rrset_lem r authority keys b =
      let sigs = sigs_of N C now r.name r.record_type authority in
      let rrset = rrset_of N C now r.name r.record_type authority in
      elim (Bool-cases (is_empty sigs || is_empty rrset)) [
        | inl nothing ↦ rw (nothing, if◌then◌else◌) ((λ h. absurd (ground arith)), Spends-refl b)
        | inr something ↦
            rw (something, if◌then◌else◌)
              (
                (λ h. try_sigs_sound r.name rrset keys sigs b h),
                try_sigs-Spends r.name rrset keys sigs b,
              )
      ]

  pub verify_all_lem :
      (rs authority : List (Record Name)) (keys : List Dnskey) (b : ValidationBudget)
      → ((verify_all N C now rs authority keys b).0 ≡ true → All (IsSigned authority keys) rs)
        × Spends b (verify_all N C now rs authority keys b).1
  unfolding verify_all
  verify_all_lem [] authority keys b = ((λ h. tt), Spends-refl b)
  verify_all_lem (r ∷ rs) authority keys b =
      let first = verify_negative_rrset N C now r authority keys b in
      let (signed, spent) = verify_negative_rrset_lem r authority keys b in
      elim (Bool-cases first.0) [
        | inr bad ↦ rw (bad, verify_all) ((λ h. absurd (ground arith)), spent)
        | inl good ↦
            let (rest, more) = verify_all_lem rs authority keys first.1 in
            rw (good, verify_all)
              ((λ h. (signed good, rest h)), Spends-trans b first.1 _ spent more)
      ]

-- ===== src/Engine/Ttl.antt =====
-- The TTL under which an answer is cached (src/engine.rs).
use rust_encrypted_dns_serve.Base.{
  ℕ, ◌+◌, ◌-◌, ◌%◌, ◌^◌, ◌≤◌, ◌≡◌, refl, arith, Bool, true, false, ◌&&◌, ◌||◌, not, any, Option,
  none, some, List, [], ◌∷◌, ◌++◌, All, min, ◌==◌, ltb, if◌then◌else◌, Option-cases, inl, inr,
}
use rust_encrypted_dns_serve.Wire.Messages.{RData, Rrsig, Record, Message}
use rust_encrypted_dns_serve.Dnssec.Status.{DnssecStatus, secure}
use rust_encrypted_dns_serve.Recursor.Ttl.{u32_max, calculate_min_ttl, calculate_min_ttl-le}
use rust_encrypted_dns_serve.Engine.Response.{is_secure}

-- `exp.wrapping_sub(now32)`, and its sign as an `i32`: positive is below 2^31 and not 0.
unfoldable pub until_expiry : ℕ → ℕ → ℕ
until_expiry exp now32 = (exp + 2 ^ 32 - now32) % 2 ^ 32

abbrev pub is_positive_i32 : ℕ → Bool
is_positive_i32 d = ltb 0 d && ltb d (2 ^ 31)

module _ {Name : Type 0} where
  abbrev pub rrsig_of : RData Name → Option (Rrsig Name)
  rrsig_of (RData.rrsig s) = some s
  rrsig_of _ = none

  -- One record of the loop; `none` is the early return on an expired signature.
  unfoldable pub bound_by : ℕ → ℕ → Option (Rrsig Name) → Option ℕ
  bound_by now32 acc none = some acc
  bound_by now32 acc (some s) =
      let diff = until_expiry s.sig_expiration now32 in
      if is_positive_i32 diff then some (min acc diff) else none

  unfoldable pub min_rrsig_validity : ℕ → ℕ → List (Record Name) → Option ℕ
  min_rrsig_validity now32 acc [] = some acc
  min_rrsig_validity now32 acc (r ∷ rs) = elim (bound_by now32 acc (rrsig_of r.rdata)) [
    | none ↦ none
    | some m ↦ min_rrsig_validity now32 m rs
  ]

  unfoldable pub calculate_cache_ttl : Message Name → DnssecStatus → ℕ → ℕ
  calculate_cache_ttl msg status now =
      let ttl = calculate_min_ttl msg in
      if is_secure status
      then (elim (min_rrsig_validity (now % 2 ^ 32) u32_max (msg.answers ++ msg.name_servers)) [
        | none ↦ 0
        | some m ↦ if m == u32_max then ttl else min ttl m
      ])
      else ttl

  pub calculate_cache_ttl-le :
      (msg : Message Name) (status : DnssecStatus) (now : ℕ)
      → calculate_cache_ttl msg status now ≤ calculate_min_ttl msg
  unfolding calculate_cache_ttl
  calculate_cache_ttl-le msg status now = ground arith

  -- The signature does not end before the given time is over.
  abbrev pub CoversFor : ℕ → ℕ → Option (Rrsig Name) → Type 0
  CoversFor ttl now32 none = Unit
  CoversFor ttl now32 (some s) = ttl ≤ until_expiry s.sig_expiration now32

  bound_by-CoversFor :
      (now32 acc : ℕ) (o : Option (Rrsig Name)) {m : ℕ}
      → bound_by now32 acc o ≡ some m
      → (m ≤ acc) × CoversFor m now32 o
  unfolding bound_by
  bound_by-CoversFor now32 acc none h = (ground arith, tt)
  bound_by-CoversFor now32 acc (some s) h = ground arith

  CoversFor-weaken :
      (s t now32 : ℕ) (o : Option (Rrsig Name)) → s ≤ t → CoversFor t now32 o → CoversFor s now32 o
  CoversFor-weaken s t now32 none h k = tt
  CoversFor-weaken s t now32 (some g) h k = omega arith

  min_rrsig_validity-CoversFor :
      (now32 acc : ℕ) (rs : List (Record Name)) {m : ℕ}
      → min_rrsig_validity now32 acc rs ≡ some m
      → (m ≤ acc) × All (λ r. CoversFor m now32 (rrsig_of r.rdata)) rs
  unfolding min_rrsig_validity
  min_rrsig_validity-CoversFor now32 acc [] h = (ground arith, tt)
  min_rrsig_validity-CoversFor now32 acc (r ∷ rs) {m} h =
      elim (Option-cases (bound_by now32 acc (rrsig_of r.rdata))) [
        | inl none_left ↦ absurd (ground arith)
        | inr (n, e) ↦
            let (le, here) = bound_by-CoversFor now32 acc (rrsig_of r.rdata) e in
            let (rest, there) = min_rrsig_validity-CoversFor now32 n rs {m = m} (ground arith) in
            (omega arith, (CoversFor-weaken m n now32 (rrsig_of r.rdata) rest here, there))
      ]

  covers_zero :
      (now32 : ℕ) (rs : List (Record Name)) → All (λ r. CoversFor 0 now32 (rrsig_of r.rdata)) rs
  covers_zero now32 [] = tt
  covers_zero now32 (r ∷ rs) = (zero_covers (rrsig_of r.rdata), covers_zero now32 rs)
    where
      zero_covers : (o : Option (Rrsig Name)) → CoversFor 0 now32 o
      zero_covers none = tt
      zero_covers (some s) = omega arith

  covers-All :
      (s t now32 : ℕ) (rs : List (Record Name))
      → s ≤ t
      → All (λ r. CoversFor t now32 (rrsig_of r.rdata)) rs
      → All (λ r. CoversFor s now32 (rrsig_of r.rdata)) rs
  covers-All s t now32 [] h k = tt
  covers-All s t now32 (r ∷ rs) h k =
      (CoversFor-weaken s t now32 (rrsig_of r.rdata) h k.0, covers-All s t now32 rs h k.1)

  -- The signature has ended, by the serial arithmetic of RFC 1982.
  abbrev pub has_expired : ℕ → Option (Rrsig Name) → Bool
  has_expired now32 none = false
  has_expired now32 (some s) = not (is_positive_i32 (until_expiry s.sig_expiration now32))

  bound_by-expired :
      (now32 acc : ℕ) (s : Rrsig Name) (b : Bool) (n : ℕ)
      → bound_by now32 acc (some s) ≡ some n
      → (has_expired now32 (some s) || b) ≡ true
      → b ≡ true
  unfolding bound_by
  bound_by-expired now32 acc s b n e h = ground arith

  min_rrsig_validity_expired :
      (now32 acc : ℕ) (rs : List (Record Name))
      → any (λ r. has_expired now32 (rrsig_of r.rdata)) rs ≡ true
      → min_rrsig_validity now32 acc rs ≡ none
  unfolding min_rrsig_validity
  min_rrsig_validity_expired now32 acc [] h = cc
  min_rrsig_validity_expired now32 acc (r ∷ rs) h =
      elim (Option-cases (bound_by now32 acc (rrsig_of r.rdata))) [
        | inl gone ↦ rw (gone, min_rrsig_validity)
        | inr (n, e) ↦
            rw (e, min_rrsig_validity)
              (min_rrsig_validity_expired now32 n rs (
                rest (rrsig_of r.rdata) (any (λ x. has_expired now32 (rrsig_of x.rdata)) rs) n e h))
      ]
    where
      rest :
          (o : Option (Rrsig Name)) (b : Bool) (n : ℕ)
          → bound_by now32 acc o ≡ some n
          → (has_expired now32 o || b) ≡ true
          → b ≡ true
      rest none b n e h = h
      rest (some s) b n e h = bound_by-expired now32 acc s b n e h

  -- A Secure answer is cached for no longer than its records and every signature over them last,
  -- counted in the 32-bit serial arithmetic of RFC 1982, and not at all if one of these signatures
  -- has ended. The signatures are those of the answer and authority sections.
  pub calculate_cache_ttl_secure :
      (msg : Message Name) (now : ℕ)
      → let ttl = calculate_cache_ttl msg secure now in
        let signed_part = msg.answers ++ msg.name_servers in
        (ttl ≤ calculate_min_ttl msg)
        × All (λ r. CoversFor ttl (now % 2 ^ 32) (rrsig_of r.rdata)) signed_part
        × (any (λ r. has_expired (now % 2 ^ 32) (rrsig_of r.rdata)) signed_part ≡ true → ttl ≡ 0)
  unfolding calculate_cache_ttl
  calculate_cache_ttl_secure msg now =
      let now32 = now % 2 ^ 32 in
      let signed_part = msg.answers ++ msg.name_servers in
      elim (Option-cases (min_rrsig_validity now32 u32_max signed_part)) [
        | inl gone ↦
            rw (gone, calculate_cache_ttl) (omega arith, covers_zero now32 signed_part, λ _. refl)
        | inr (m, e) ↦
            let (le, covers) = min_rrsig_validity-CoversFor now32 u32_max signed_part e in
            let day = (calculate_min_ttl-le msg).0 in
            rw (e, calculate_cache_ttl)
              (
                ground arith,
                covers-All _ m now32 signed_part (ground arith) covers,
                λ ended.
                    absurd
                      (ground (arith, min_rrsig_validity_expired now32 u32_max signed_part ended)),
              )
      ]

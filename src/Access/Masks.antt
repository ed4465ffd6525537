-- ===== src/Access/Masks.antt =====
-- What a mask of leading ones keeps of a number (src/acl.rs).
use Prim.Native.Nat.{min, bit_and, digits, bit_and-bitwise}
use native.Mathlib.Nat.{
  zero-add, sub-zero, div-div-eq-div-mul, mod-eq_of_lt, add-mul-mod_self_right, two-pow-succ,
}
use mathlib.Core.Path.{◌≡⟨◌⟩◌, ◌∎}
use rust_encrypted_dns_serve.Base.{
  ℕ, zero, suc, ◌+◌, ◌-◌, ◌*◌, ◌/◌, ◌%◌, ◌^◌, ◌≤◌, ◌<◌, ◌≡◌, refl, sym, ap, ◌∙◌, arith, false, ◌==◌,
  if◌then◌else◌,
}
use rust_encrypted_dns_serve.Access.{mask}

twos : ℕ → ℕ
twos zero = 1
twos (suc n) = 2 * twos n

pow-twos : (n : ℕ) → 2 ^ n ≡ twos n
unfolding twos
pow-twos zero = refl
pow-twos (suc n) = omega (arith, two-pow-succ n, pow-twos n)

-- j ones before k zeros, the numbers of j + k digits, and a number with its last k digits cleared.
ones : ℕ → ℕ → ℕ
ones zero zero = 0
ones (suc j) zero = 2 * ones j zero + 1
ones j (suc k) = 2 * ones j k

limit : ℕ → ℕ → ℕ
limit zero zero = 1
limit (suc j) zero = 2 * limit j zero
limit j (suc k) = 2 * limit j k

cleared : ℕ → ℕ → ℕ
cleared zero a = a
cleared (suc k) a = 2 * cleared k (a / 2)

cleared-zero : (k : ℕ) → cleared k 0 ≡ 0
unfolding cleared
cleared-zero zero = refl
cleared-zero (suc k) = omega (arith, cleared-zero k)

digits_step :
    (n a b c q : ℕ)
    → b / 2 ≡ c
    → digits (λ x. 0) min n (suc a / 2) c ≡ q
    → digits (λ x. 0) min (suc n) (suc a) b ≡ 2 * q + min (suc a % 2) (b % 2)
digits_step n a b c q half ih =
    omega (arith, ap (λ d. digits (λ x. 0) min n (suc a / 2) d) half, ih)

one_small : (a : ℕ) → suc a < limit 0 0 → ⊥
unfolding limit
one_small a l = omega arith

ones_odd : (j : ℕ) → ones (suc j) 0 ≡ 2 * ones j 0 + 1
unfolding ones
ones_odd j = refl

ones_even : (j k : ℕ) → ones j (suc k) ≡ 2 * ones j k
unfolding ones
ones_even j k = refl

limit_double : (j : ℕ) → limit (suc j) 0 ≡ 2 * limit j 0
unfolding limit
limit_double j = refl

limit_even : (j k : ℕ) → limit j (suc k) ≡ 2 * limit j k
unfolding limit
limit_even j k = refl

cleared_none : (a : ℕ) → cleared 0 a ≡ a
unfolding cleared
cleared_none a = refl

cleared-suc : (k a : ℕ) → cleared (suc k) a ≡ 2 * cleared k (a / 2)
unfolding cleared
cleared-suc k a = refl

digits-ones :
    (n j k a : ℕ) → a ≤ n → a < limit j k → digits (λ b. 0) min n a (ones j k) ≡ cleared k a
digits-ones zero j k zero h l = sym (cleared-zero k)
digits-ones (suc n) j k zero h l = sym (cleared-zero k)
digits-ones zero j k (suc a) h l = absurd (omega arith)
digits-ones (suc n) zero zero (suc a) h l = absurd (one_small a l)
digits-ones (suc n) (suc j) zero (suc a) h l =
    digits_step n a (ones (suc j) zero) (ones j zero) (suc a / 2) (omega (arith, ones_odd j)) (
      digits-ones n j zero (suc a / 2) (omega arith) (omega (arith, limit_double j))
      ∙ cleared_none (suc a / 2))
    ∙ omega (arith, ones_odd j, cleared_none (suc a))
digits-ones (suc n) j (suc k) (suc a) h l =
    digits_step n a (ones j (suc k)) (ones j k) (cleared k (suc a / 2))
      (omega (arith, ones_even j k))
      (digits-ones n j k (suc a / 2) (omega arith) (omega (arith, limit_even j k)))
    ∙ omega (arith, ones_even j k, cleared-suc k (suc a))

-- The closed forms.
cleared_lem : (k a : ℕ) → cleared k a ≡ a / twos k * twos k
unfolding twos
cleared_lem zero a = omega (arith, cleared_none a)
cleared_lem (suc k) a =
    cleared-suc k a
    ∙ ap (λ x. 2 * x) (cleared_lem k (a / 2))
    ∙ ap (λ x. 2 * (x * twos k)) (div-div-eq-div-mul a 2 (twos k))
    ∙ double (a / (2 * twos k)) (twos k)
  where
    double : (q t : ℕ) → 2 * (q * t) ≡ q * (2 * t)
    double q t = grind arith

limit_zero : limit 0 0 ≡ 1
unfolding limit
limit_zero = refl

twos_none : twos 0 ≡ 1
unfolding twos
twos_none = refl

twos-suc : (n : ℕ) → twos (suc n) ≡ 2 * twos n
unfolding twos
twos-suc n = refl

limit_lem : (j k : ℕ) → limit j k ≡ twos (j + k)
limit_lem zero zero = limit_zero ∙ sym twos_none
limit_lem (suc j) zero =
    let e : suc j + 0 ≡ suc (j + 0) = omega arith in
    omega (arith, limit_double j, limit_lem j zero, ap twos e, twos-suc (j + 0))
limit_lem j (suc k) =
    let e : j + suc k ≡ suc (j + k) = omega arith in
    omega (arith, limit_even j k, limit_lem j k, ap twos e, twos-suc (j + k))

ones_zero : ones 0 0 ≡ 0
unfolding ones
ones_zero = refl

ones_lem : (j k : ℕ) → ones j k + twos k ≡ limit j k
ones_lem zero zero = omega (arith, ones_zero, twos_none, limit_zero)
ones_lem (suc j) zero = omega (arith, ones_odd j, twos_none, limit_double j, ones_lem j zero)
ones_lem j (suc k) = omega (arith, ones_even j k, twos-suc k, limit_even j k, ones_lem j k)

twos_pos : (n : ℕ) → 0 < twos n
twos_pos zero = omega (arith, twos_none)
twos_pos (suc n) = omega (arith, twos-suc n, twos_pos n)

shifted : (o a w : ℕ) → o + a ≡ w → 0 < a → (w - 1) * a ≡ o + (a - 1) * w
shifted o zero w h p = absurd (omega arith)
shifted o (suc a) zero h p = absurd (omega arith)
shifted o (suc a) (suc w) h p =
    let e : w ≡ o + a = omega arith in
    let m : w * suc a ≡ w * a + w = grind arith in
    let n : a * suc w ≡ w * a + a = grind arith in
    let less_w : suc w - 1 ≡ w = omega arith in
    let less_a : a ≡ suc a - 1 = omega arith in
    let same : w * suc a ≡ o + a * suc w = omega arith in
    ap (λ x. x * suc a) less_w ∙ same ∙ ap (λ x. o + x * suc w) less_a

ones_none : (w : ℕ) → ones 0 w ≡ 0
ones_none w = omega (arith, ones_lem 0 w, limit_lem 0 w, ap twos (zero-add w))

mask_lem : (w p : ℕ) → p ≤ w → mask w p ≡ ones p (w - p)
unfolding mask
mask_lem w zero h = sym (ap (λ k. ones 0 k) (sub-zero w) ∙ ones_none w)
mask_lem w (suc p) h =
    let k = w - suc p in
    let whole : ones (suc p) k + twos k ≡ twos w =
      ones_lem (suc p) k ∙ limit_lem (suc p) k ∙ ap twos (omega arith) in
    let shift : (2 ^ w - 1) * 2 ^ k % 2 ^ w ≡ ones (suc p) k =
      (2 ^ w - 1) * 2 ^ k % 2 ^ w
      ≡⟨ (rw (pow-twos w, pow-twos k) refl) ⟩ (twos w - 1) * twos k % twos w
      ≡⟨ ap (λ x. x % twos w) (shifted (ones (suc p) k) (twos k) (twos w) whole (twos_pos k)) ⟩
        (ones (suc p) k + (twos k - 1) * twos w) % twos w
      ≡⟨ add-mul-mod_self_right (ones (suc p) k) (twos k - 1) (twos w) ⟩ ones (suc p) k % twos w
      ≡⟨ mod-eq_of_lt (omega (arith, whole, twos_pos k)) ⟩ ones (suc p) k ∎ in
    let some_bits : (suc p == 0) ≡ false = ground arith in rw (some_bits, if◌then◌else◌) shift

-- A mask of the first p digits keeps these, for a number of w digits.
pub bit_and-mask :
    (w p a : ℕ) → p ≤ w → a < 2 ^ w → bit_and a (mask w p) ≡ a / 2 ^ (w - p) * 2 ^ (w - p)
bit_and-mask w p a h l =
    let k = w - p in
    let room : a < limit p k = omega (arith, limit_lem p k, pow-twos w, ap twos (full w p h)) in
    ap (bit_and a) (mask_lem w p h)
    ∙ bit_and-bitwise a (ones p k)
    ∙ digits-ones a p k a (omega arith) room
    ∙ cleared_lem k a
    ∙ (rw (pow-twos k) refl)
  where
    full : (w p : ℕ) → p ≤ w → p + (w - p) ≡ w
    full w p h = omega arith

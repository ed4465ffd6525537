-- ===== src/Base/Lists.antt =====
-- Lists over the native numbers, and the iterator methods that the source calls, as Boolean and
-- optional searches.
use Prim.Native.Nat.{ℕ, zero, suc, ◌+◌, ◌≤◌}
use mathlib.Core.Path.{◌≡◌, refl, ap}
use mathlib.Core.Bool.{Bool, true, false, ◌||◌}
use mathlib.Core.List.{List, [], ◌∷◌, ◌++◌}
use mathlib.Core.Option.{Option, none, some}
use mathlib.Core.Logic.{inl, inr}
use native.Mathlib.Omega.{arith}
use rust_encrypted_dns_serve.Base.Tests.{if◌then◌else◌, Bool-cases, Option-cases}

-- A predicate of every member, by recursion.
abbrev pub All {ℓ κ} : {A : Type ℓ} → (A → Type κ) → List A → Type κ
All P [] = Unit
All P (x ∷ xs) = P x × All P xs

module _ {ℓ} {A : Type ℓ} where
  abbrev pub length : List A → ℕ
  length [] = 0
  length (x ∷ xs) = suc (length xs)

  abbrev pub is_empty : List A → Bool
  is_empty [] = true
  is_empty (x ∷ xs) = false

  -- `iter().any(..)`
  abbrev pub any : (A → Bool) → List A → Bool
  any p [] = false
  any p (x ∷ xs) = p x || any p xs

  -- `iter().filter(..).collect()`, over a Boolean test
  abbrev pub keep : (A → Bool) → List A → List A
  keep p [] = []
  keep p (x ∷ xs) = if p x then x ∷ keep p xs else keep p xs

  -- `iter().find(..)`
  abbrev pub find : (A → Bool) → List A → Option A
  find p [] = none
  find p (x ∷ xs) = if p x then some x else find p xs

  abbrev pub take : ℕ → List A → List A
  take zero xs = []
  take (suc n) [] = []
  take (suc n) (x ∷ xs) = x ∷ take n xs

  -- `iter().find_map(..)` and `iter().filter_map(..).collect()`
  abbrev pub find_map {κ} : {B : Type κ} → (A → Option B) → List A → Option B
  find_map f [] = none
  find_map f (x ∷ xs) = elim (f x) [ some b ↦ some b | none ↦ find_map f xs ]

  abbrev pub keep_map {κ} : {B : Type κ} → (A → Option B) → List A → List B
  keep_map f [] = []
  keep_map f (x ∷ xs) = elim (f x) [ some b ↦ b ∷ keep_map f xs | none ↦ keep_map f xs ]

  pub length-append : (xs ys : List A) → length (xs ++ ys) ≡ length xs + length ys
  length-append [] ys = omega arith
  length-append (x ∷ xs) ys = omega (arith, length-append xs ys)

  pub length-take-le : (n : ℕ) (xs : List A) → length (take n xs) ≤ n
  length-take-le zero xs = omega arith
  length-take-le (suc n) [] = omega arith
  length-take-le (suc n) (x ∷ xs) = omega (arith, length-take-le n xs)

  pub append-nil : (xs : List A) → xs ++ [] ≡ xs
  append-nil [] = refl
  append-nil (x ∷ xs) = ap (λ ys. x ∷ ys) (append-nil xs)

  pub append_assoc : (xs ys zs : List A) → (xs ++ ys) ++ zs ≡ xs ++ (ys ++ zs)
  append_assoc [] ys zs = refl
  append_assoc (x ∷ xs) ys zs = ap (λ ws. x ∷ ws) (append_assoc xs ys zs)

  pub All-append {κ} : (P : A → Type κ) (xs ys : List A) → All P xs → All P ys → All P (xs ++ ys)
  All-append P [] ys hx hy = hy
  All-append P (x ∷ xs) ys hx hy = (hx.0, All-append P xs ys hx.1 hy)

  pub All-weaken {κ ι} :
      (P : A → Type κ) (Q : A → Type ι)
      → ((x : A) → P x → Q x)
      → (xs : List A) → All P xs
      → All Q xs
  All-weaken P Q f [] h = tt
  All-weaken P Q f (x ∷ xs) h = (f x h.0, All-weaken P Q f xs h.1)

  -- What a filter keeps passes its test, and keeps what held of the whole list.
  pub All-keep : (p : A → Bool) (xs : List A) → All (λ x. p x ≡ true) (keep p xs)
  All-keep p [] = tt
  All-keep p (x ∷ xs) = elim (Bool-cases (p x)) [
    | inl e ↦ rw (e, keep) (e, All-keep p xs)
    | inr e ↦ rw (e, keep) (All-keep p xs)
  ]

  pub All-keep_of {κ} : (P : A → Type κ) (p : A → Bool) (xs : List A) → All P xs → All P (keep p xs)
  All-keep_of P p [] h = tt
  All-keep_of P p (x ∷ xs) h = elim (Bool-cases (p x)) [
    | inl e ↦ rw (e, keep) (h.0, All-keep_of P p xs h.1)
    | inr e ↦ rw (e, keep) (All-keep_of P p xs h.1)
  ]

  pub All-keep_map {κ ι} :
      {B : Type κ} (P : B → Type ι) (f : A → Option B)
      → ((x : A) (y : B) → f x ≡ some y → P y)
      → (xs : List A) → All P (keep_map f xs)
  All-keep_map P f h [] = tt
  All-keep_map P f h (x ∷ xs) = elim (Option-cases (f x)) [
    | inl e ↦ rw (e, keep_map) (All-keep_map P f h xs)
    | inr (y, e) ↦ rw (e, keep_map) (h x y e, All-keep_map P f h xs)
  ]

  pub any-eq : (p q : A → Bool) (xs : List A) → All (λ x. p x ≡ q x) xs → any p xs ≡ any q xs
  any-eq p q [] h = refl
  any-eq p q (x ∷ xs) h = rw (h.0, any-eq p q xs h.1) refl

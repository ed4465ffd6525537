-- ===== src/Base/Map.antt =====
-- A concurrent map as an association list: the methods of `DashMap` that the source calls.
use Prim.Native.Nat.{◌+◌, ◌≤◌}
use mathlib.Core.Path.{◌≡◌, refl, subst}
use mathlib.Core.Logic.{inl, inr}
use mathlib.Core.Bool.{Bool, true, false}
use mathlib.Core.Option.{Option, none, some}
use mathlib.Core.List.{List, [], ◌∷◌}
use native.Mathlib.Omega.{arith}
use rust_encrypted_dns_serve.Base.Tests.{if◌then◌else◌, Bool-cases}
use rust_encrypted_dns_serve.Base.Lists.{All, length, keep}
use rust_encrypted_dns_serve.Base.Equality.{Eq, ◌===◌}

abbrev pub Map {ℓ κ} : Type ℓ → Type κ → Type (ℓ ⊔ κ)
Map K V = List (K × V)

abbrev pub passing {κ} : {V : Type κ} → (V → Bool) → Option V → Option V
passing p none = none
passing p (some v) = if p v then some v else none

module _ {ℓ κ} {K : Type ℓ} {V : Type κ} ⦃e : Eq K⦄ where
  abbrev pub get : K → Map K V → Option V
  get k [] = none
  get k ((j, v) ∷ m) = if j === k then some v else get k m

  abbrev pub contains_key : K → Map K V → Bool
  contains_key k m = elim (get k m) [ some _ ↦ true | none ↦ false ]

  abbrev pub insert : K → V → Map K V → Map K V
  insert k v [] = (k, v) ∷ []
  insert k v ((j, w) ∷ m) = if j === k then (k, v) ∷ m else (j, w) ∷ insert k v m

  abbrev pub remove : K → Map K V → Map K V
  remove k [] = []
  remove k ((j, w) ∷ m) = if j === k then remove k m else (j, w) ∷ remove k m

  -- A read after a write, in one equation for both keys.
  pub get-insert :
      (k j : K) (v : V) (m : Map K V) → get j (insert k v m) ≡ (if k === j then some v else get j m)
  get-insert k j v [] = refl
  get-insert k j v ((i, w) ∷ m) =
      ground (arith, e.beq_iff k j, e.beq_iff i k, e.beq_iff i j, get-insert k j v m)

  pub get-remove :
      (k j : K) (m : Map K V) → get j (remove k m) ≡ (if k === j then none else get j m)
  get-remove k j [] = ground arith
  get-remove k j ((i, w) ∷ m) =
      ground (arith, e.beq_iff k j, e.beq_iff i k, e.beq_iff i j, get-remove k j m)

  pub contains_key-insert :
      (k j : K) (v : V) (m : Map K V)
      → contains_key j (insert k v m) ≡ (if k === j then true else contains_key j m)
  contains_key-insert k j v m = ground (arith, get-insert k j v m)

  pub contains_key-remove :
      (k j : K) (m : Map K V)
      → contains_key j (remove k m) ≡ (if k === j then false else contains_key j m)
  contains_key-remove k j m = ground (arith, get-remove k j m)

  -- A predicate of the values that is kept by an insertion of a value that meets it.
  pub All-insert {ι} :
      (P : V → Type ι) (k : K) (v : V) (m : Map K V)
      → P v
      → All (λ x. P x.1) m
      → All (λ x. P x.1) (insert k v m)
  All-insert P k v [] p h = (p, tt)
  All-insert P k v ((j, w) ∷ m) p h = elim (Bool-cases (j === k)) [
    | inl q ↦ rw (q, insert) (p, h.1)
    | inr q ↦ rw (q, insert) (h.0, All-insert P k v m p h.1)
  ]

  pub All-remove {ι} :
      (P : V → Type ι) (k : K) (m : Map K V) → All (λ x. P x.1) m → All (λ x. P x.1) (remove k m)
  All-remove P k [] h = tt
  All-remove P k ((j, w) ∷ m) h = elim (Bool-cases (j === k)) [
    | inl q ↦ rw (q, remove) (All-remove P k m h.1)
    | inr q ↦ rw (q, remove) (h.0, All-remove P k m h.1)
  ]

  -- What is read from a map meets what all of its values meet.
  pub All-get {ι} :
      (P : V → Type ι) (k : K) (m : Map K V) {v : V} → All (λ x. P x.1) m → get k m ≡ some v → P v
  All-get P k [] h q = absurd (ground arith)
  All-get P k ((j, w) ∷ m) {v} h q = elim (Bool-cases (j === k)) [
    | inl r ↦ let s : w ≡ v = ground arith in subst P s h.0
    | inr r ↦ All-get P k m h.1 (rw (r, get) at q)
  ]

  -- The same for a predicate of keys and values.
  pub All-insert_at {ι} :
      (P : K → V → Type ι) (k : K) (v : V) (m : Map K V)
      → P k v
      → All (λ x. P x.0 x.1) m
      → All (λ x. P x.0 x.1) (insert k v m)
  All-insert_at P k v [] p h = (p, tt)
  All-insert_at P k v ((j, w) ∷ m) p h = elim (Bool-cases (j === k)) [
    | inl q ↦ rw (q, insert) (p, h.1)
    | inr q ↦ rw (q, insert) (h.0, All-insert_at P k v m p h.1)
  ]

  pub All-get_at {ι} :
      (P : K → V → Type ι) (k : K) (m : Map K V) {v : V}
      → All (λ x. P x.0 x.1) m
      → get k m ≡ some v
      → P k v
  All-get_at P k [] h q = absurd (ground arith)
  All-get_at P k ((j, w) ∷ m) {v} h q = elim (Bool-cases (j === k)) [
    | inl r ↦
        let s : w ≡ v = ground arith in subst (P k) s (subst (λ i. P i w) ((e.beq_iff j k).0 r) h.0)
    | inr r ↦ All-get_at P k m h.1 (rw (r, get) at q)
  ]

  pub length-insert-le : (k : K) (v : V) (m : Map K V) → length (insert k v m) ≤ length m + 1
  length-insert-le k v [] = omega arith
  length-insert-le k v ((j, w) ∷ m) = ground (arith, length-insert-le k v m)

  -- No key stands twice, as in every map of the program.
  abbrev pub Distinct : Map K V → Type κ
  Distinct [] = Unit
  Distinct ((k, v) ∷ m) = (get k m ≡ none) × Distinct m

  pub insert-Distinct : (k : K) (v : V) (m : Map K V) → Distinct m → Distinct (insert k v m)
  insert-Distinct k v [] h = (refl, tt)
  insert-Distinct k v ((j, w) ∷ m) h = elim (Bool-cases (j === k)) [
    | inl q ↦ rw (q, insert) (ground (arith, e.beq_iff j k), h.1)
    | inr q ↦
        rw (q, insert)
          (
            ground (arith, e.beq_iff j k, e.beq_iff k j, get-insert k j v m),
            insert-Distinct k v m h.1,
          )
  ]

  -- `retain`
  pub get-keep :
      (p : V → Bool) (k : K) (m : Map K V)
      → Distinct m
      → get k (keep (λ x. p x.1) m) ≡ passing p (get k m)
  get-keep p k [] h = refl
  get-keep p k ((j, w) ∷ m) h = ground (arith, e.beq_iff j k, get-keep p k m h.1)

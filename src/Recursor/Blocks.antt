-- ===== src/Recursor/Blocks.antt =====
-- Which IPv4 addresses may be queried, by the registry of special-purpose blocks.
use Prim.Native.Nat.{bit_and}
use rust_encrypted_dns_serve.Base.{
  ℕ, zero, suc, ◌+◌, ◌*◌, ◌/◌, ◌%◌, ◌<◌, ◌≡◌, refl, arith, Bool, true, false, not, ◌&&◌, ◌||◌, List,
  [], ◌∷◌, ◌==◌, leb, any, if◌then◌else◌, Bool-cases, inl, inr,
}
use rust_encrypted_dns_serve.Wire.Ip.{v4, v6}
use rust_encrypted_dns_serve.Recursor.Safe.{
  is_shared, is_safe_v4, is_special_v6, is_safe_upstream_ip,
}

-- An address as a number, and a block by its first and last address.
abbrev pub bits_of : ℕ → ℕ → ℕ → ℕ → ℕ
bits_of a b c d = 16777216 * a + 65536 * b + 256 * c + d

abbrev pub in_block : ℕ → ℕ × ℕ → Bool
in_block n (first, last) = leb first n && leb n last

abbrev pub special_blocks : List (ℕ × ℕ)
special_blocks =
    (bits_of 10 0 0 0, bits_of 10 255 255 255)
    ∷ (bits_of 172 16 0 0, bits_of 172 31 255 255)
    ∷ (bits_of 192 168 0 0, bits_of 192 168 255 255)
    ∷ (bits_of 127 0 0 0, bits_of 127 255 255 255)
    ∷ (bits_of 169 254 0 0, bits_of 169 254 255 255)
    ∷ (bits_of 255 255 255 255, bits_of 255 255 255 255)
    ∷ (bits_of 192 0 2 0, bits_of 192 0 2 255)
    ∷ (bits_of 198 51 100 0, bits_of 198 51 100 255)
    ∷ (bits_of 203 0 113 0, bits_of 203 0 113 255)
    ∷ (bits_of 0 0 0 0, bits_of 0 0 0 0)
    ∷ (bits_of 224 0 0 0, bits_of 239 255 255 255)
    ∷ (bits_of 100 64 0 0, bits_of 100 127 255 255)
    ∷ (bits_of 198 18 0 0, bits_of 198 19 255 255)
    ∷ (bits_of 0 0 0 0, bits_of 0 255 255 255)
    ∷ []

abbrev all_below : ℕ → (ℕ → Bool) → Bool
all_below zero p = true
all_below (suc n) p = p n && all_below n p

all_below_lem : (n b : ℕ) (p : ℕ → Bool) → all_below n p ≡ true → b < n → p b ≡ true
all_below_lem zero b p h k = absurd (omega arith)
all_below_lem (suc n) b p h k = elim (Bool-cases (b == n)) [
  | inl same ↦ let e : b ≡ n = ground arith in rw e (ground arith)
  | inr less ↦ all_below_lem n b p (ground arith) (ground arith)
]

abbrev agree : Bool → Bool → Bool
agree x y = if x then y else not y

shared_bits : (b : ℕ) → b < 256 → (bit_and b 0b1100_0000 == 0b0100_0000) ≡ (leb 64 b && leb b 127)
shared_bits b h =
    let both =
      all_below_lem 256 b
        (λ x. agree (bit_and x 0b1100_0000 == 0b0100_0000) (leb 64 x && leb x 127)) refl h in
    same (bit_and b 0b1100_0000 == 0b0100_0000) (leb 64 b && leb b 127) both
  where
    same : (x y : Bool) → agree x y ≡ true → x ≡ y
    same true true e = refl
    same false false e = refl
    same true false e = cc
    same false true e = cc

or_assoc : (x y z : Bool) → ((x || y) || z) ≡ (x || (y || z))
or_assoc true y z = refl
or_assoc false y z = refl

or_false : (x : Bool) → (x || false) ≡ x
or_false true = refl
or_false false = refl

-- A test of the parts of an address, as a block.
module _ (a b c d : ℕ) (ha : a < 256) (hb : b < 256) (hc : c < 256) (hd : d < 256) where
  abbrev n : ℕ
  n = bits_of a b c d

  one_part : (x : ℕ) → (a == x) ≡ in_block n (bits_of x 0 0 0, bits_of x 255 255 255)
  one_part x = ground arith

  one_range : (x y : ℕ) → (leb x a && leb a y) ≡ in_block n (bits_of x 0 0 0, bits_of y 255 255 255)
  one_range x y = ground arith

  two_parts :
      (x y : ℕ) → y < 256 → (a == x && b == y) ≡ in_block n (bits_of x y 0 0, bits_of x y 255 255)
  two_parts x y h = ground arith

  three_parts :
      (x y z : ℕ)
      → y < 256
      → z < 256
      → (a == x && b == y && c == z) ≡ in_block n (bits_of x y z 0, bits_of x y z 255)
  three_parts x y z hy hz = ground arith

  four_parts :
      (x y : ℕ)
      → y < 256
      → (a == x && b == y && c == y && d == y) ≡ in_block n (bits_of x y y y, bits_of x y y y)
  four_parts x y h = ground arith

  private_172 :
      (a == 172 && leb 16 b && leb b 31) ≡ in_block n (bits_of 172 16 0 0, bits_of 172 31 255 255)
  private_172 = ground arith

  benchmark_198 :
      (a == 198 && (b == 18 || b == 19)) ≡ in_block n (bits_of 198 18 0 0, bits_of 198 19 255 255)
  benchmark_198 = ground arith

  shared_100 : is_shared a b ≡ in_block n (bits_of 100 64 0 0, bits_of 100 127 255 255)
  unfolding is_shared
  shared_100 = ground (arith, shared_bits b hb)

  is_safe_v4_lem : is_safe_v4 a b c d ≡ not (any (in_block (bits_of a b c d)) special_blocks)
  unfolding is_safe_v4
  is_safe_v4_lem = rw (four_parts 0 0 (omega arith)) (
      simp (
        one_part 10,
        private_172,
        two_parts 192 168 (omega arith),
        one_part 127,
        two_parts 169 254 (omega arith),
        four_parts 255 255 (omega arith),
        three_parts 192 0 2 (omega arith) (omega arith),
        three_parts 198 51 100 (omega arith) (omega arith),
        three_parts 203 0 113 (omega arith) (omega arith),
        one_range 224 239,
        shared_100,
        benchmark_198,
        one_part 0,
        or_assoc,
        or_false,
      ))

  mapped_parts :
      ((256 * a + b) / 256 ≡ a)
      × ((256 * a + b) % 256 ≡ b)
      × ((256 * c + d) / 256 ≡ c)
      × ((256 * c + d) % 256 ≡ d)
  mapped_parts = (omega arith, omega arith, omega arith, omega arith)

  -- The tests refuse exactly the IPv4 addresses of the special-purpose blocks, and an IPv6 address
  -- that maps an IPv4 one exactly where they refuse that one.
  pub is_safe_upstream_ip_blocks :
      let public = not (any (in_block (bits_of a b c d)) special_blocks) in
      (is_safe_upstream_ip (v4 a b c d) ≡ public)
      × (is_safe_upstream_ip (v6 0 0 0 0 0 0xffff (256 * a + b) (256 * c + d)) ≡ public)
  unfolding is_safe_upstream_ip is_special_v6
  is_safe_upstream_ip_blocks =
      let (pa, pb, pc, pd) = mapped_parts in (is_safe_v4_lem, rw (pa, pb, pc, pd) is_safe_v4_lem)

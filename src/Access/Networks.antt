-- ===== src/Access/Networks.antt =====
-- The access list (src/acl.rs) against the leading bits of addresses.
use native.Mathlib.Nat.{mul-div_cancel, one-le-pow}
use Prim.Native.Nat.{bit_and}
use mathlib.Core.Path.{subst}
use rust_encrypted_dns_serve.Base.{
  ℕ, ◌-◌, ◌*◌, ◌/◌, ◌^◌, ◌≤◌, ◌<◌, ◌≡◌, refl, sym, ap, ◌∙◌, arith, Bool, false, ◌&&◌, ◌||◌, Option,
  some, Bytes, ◌==◌, ==_iff, ltb, if◌then◌else◌, any, keep_map, All, All-keep_map, All-weaken,
  any-eq, Bool-cases, Option-cases, inl, inr, is_empty,
}
use rust_encrypted_dns_serve.Base.Text.{trim, split_once, split_on, parse_uint}
use rust_encrypted_dns_serve.Wire.Ip.{IpAddr, v4, v6}
use rust_encrypted_dns_serve.Access.{
  AclEntry, normalize_ip, from_be_bytes, mask, cidr_contains, is_allowed, max_prefix, cidr_of,
  parse_cidr, part_entry, from_env, is_one, or_default,
}
use rust_encrypted_dns_serve.Access.Masks.{bit_and-mask}

-- Octets are bytes, and segments have 16 bits.
abbrev pub IsAddress : IpAddr → Type 0
IsAddress (v4 a b c d) = (a < 256) × (b < 256) × (c < 256) × (d < 256)
IsAddress (v6 a b c d e f g h) =
    (a < 65536)
    × (b < 65536)
    × (c < 65536)
    × (d < 65536)
    × (e < 65536)
    × (f < 65536)
    × (g < 65536)
    × (h < 65536)

-- Two addresses of one family with the same first bits.
abbrev pub shares_prefix : IpAddr → ℕ → IpAddr → Bool
shares_prefix (v4 a b c d) p (v4 a' b' c' d') =
    from_be_bytes (v4 a b c d) / 2 ^ (32 - p) == from_be_bytes (v4 a' b' c' d') / 2 ^ (32 - p)
shares_prefix (v4 a b c d) p (v6 a' b' c' d' e' f' g' h') = false
shares_prefix (v6 a b c d e f g h) p (v4 a' b' c' d') = false
shares_prefix (v6 a b c d e f g h) p (v6 a' b' c' d' e' f' g' h') =
    from_be_bytes (v6 a b c d e f g h) / 2 ^ (128 - p)
    == from_be_bytes (v6 a' b' c' d' e' f' g' h') / 2 ^ (128 - p)

pow_pos : (n : ℕ) → 0 < 2 ^ n
pow_pos n = one-le-pow n 2 (omega arith)

==-mul : (x y m : ℕ) → 0 < m → (x * m == y * m) ≡ (x == y)
==-mul x y m h = elim (Bool-cases (x == y)) [
  | inl same ↦ ground (arith, ap (λ n. n * m) ((==_iff x y).0 same))
  | inr other ↦ elim (Bool-cases (x * m == y * m)) [
    | inl q ↦
        let e : x ≡ y =
          sym (mul-div_cancel x h)
          ∙ ap (λ n. n / m) ((==_iff (x * m) (y * m)).0 q)
          ∙ mul-div_cancel y h in
        ground (arith, e)
    | inr q ↦ ground arith
  ]
]

masked_lem :
    (w p a b : ℕ)
    → p ≤ w
    → a < 2 ^ w
    → b < 2 ^ w
    → (bit_and a (mask w p) == bit_and b (mask w p)) ≡ (a / 2 ^ (w - p) == b / 2 ^ (w - p))
masked_lem w p a b h ha hb =
    ap (λ n. n == bit_and b (mask w p)) (bit_and-mask w p a h ha)
    ∙ ap (λ n. a / 2 ^ (w - p) * 2 ^ (w - p) == n) (bit_and-mask w p b h hb)
    ∙ ==-mul (a / 2 ^ (w - p)) (b / 2 ^ (w - p)) (2 ^ (w - p)) (pow_pos (w - p))

from_be_bytes-lt : (a b c d : ℕ) → IsAddress (v4 a b c d) → from_be_bytes (v4 a b c d) < 2 ^ 32
unfolding from_be_bytes
from_be_bytes-lt a b c d h = omega arith

from_be_bytes_v6-lt :
    (a b c d e f g h : ℕ)
    → IsAddress (v6 a b c d e f g h)
    → from_be_bytes (v6 a b c d e f g h) < 2 ^ 128
unfolding from_be_bytes
from_be_bytes_v6-lt a b c d e f g h i = omega arith

cidr_contains_lem :
    (net : IpAddr) (p : ℕ) (ip : IpAddr)
    → p ≤ max_prefix net
    → IsAddress net
    → IsAddress ip
    → cidr_contains net p ip ≡ shares_prefix net p ip
unfolding cidr_contains
cidr_contains_lem (v4 a b c d) p (v4 a' b' c' d') h i j =
    masked_lem 32 p _ _ h (from_be_bytes-lt a b c d i) (from_be_bytes-lt a' b' c' d' j)
cidr_contains_lem (v4 a b c d) p (v6 a' b' c' d' e' f' g' h') h i j = refl
cidr_contains_lem (v6 a b c d e f g h) p (v4 a' b' c' d') k i j = refl
cidr_contains_lem (v6 a b c d e f g h) p (v6 a' b' c' d' e' f' g' h') k i j =
    masked_lem 128 p _ _ k (from_be_bytes_v6-lt a b c d e f g h i)
      (from_be_bytes_v6-lt a' b' c' d' e' f' g' h' j)

normalize_ip-IsAddress : (ip : IpAddr) → IsAddress ip → IsAddress (normalize_ip ip)
unfolding normalize_ip
normalize_ip-IsAddress (v4 a b c d) i = i
normalize_ip-IsAddress (v6 a b c d e f g h) i =
    elim (Bool-cases (a == 0 && b == 0 && c == 0 && d == 0 && e == 0 && f == 0xffff)) [
      | inl mapped ↦ rw (mapped, if◌then◌else◌) (omega arith)
      | inr own ↦ rw (own, if◌then◌else◌) i
    ]

-- What the parser accepts.
abbrev IsValid : AclEntry → Type 0
IsValid e = IsAddress e.network × (e.prefix_len ≤ max_prefix e.network)

module _ (parse_ip : Bytes → Option IpAddr)
    (reads : (s : Bytes) (ip : IpAddr) → parse_ip s ≡ some ip → IsAddress ip) where
  cidr_of-IsValid : (s : Bytes) (p : ℕ) (e : AclEntry) → cidr_of parse_ip s p ≡ some e → IsValid e
  unfolding cidr_of
  cidr_of-IsValid s p e h = elim (Option-cases (parse_ip s)) [
    | inl failed ↦ let absent = rw (failed, cidr_of) at h in cc
    | inr (ip, r) ↦
        let found = rw (r, cidr_of) at h in
        elim (Bool-cases (ltb (max_prefix ip) p)) [
          | inl long ↦ let absent = rw (long, if◌then◌else◌) at found in cc
          | inr fits ↦
              let made = rw (fits, if◌then◌else◌) at found in
              let short : p ≤ max_prefix ip = ground arith in
              let net : ip ≡ e.network = cc in
              let len : p ≡ e.prefix_len = cc in
              (subst IsAddress net (reads s ip r), rw (← net, ← len) short)
        ]
  ]

  parse_cidr-IsValid : (s : Bytes) (e : AclEntry) → parse_cidr parse_ip s ≡ some e → IsValid e
  unfolding parse_cidr
  parse_cidr-IsValid s e h = elim (Option-cases (split_once b'/' s)) [
    | inl plain ↦ cidr_of-IsValid s _ e (rw (plain, parse_cidr) at h)
    | inr ((a, b), parts) ↦
        let two_parts = rw (parts, parse_cidr) at h in
        elim (Option-cases (parse_uint 255 b)) [
          | inl failed ↦ let absent = rw (failed, parse_cidr) at two_parts in cc
          | inr (p, n) ↦ cidr_of-IsValid a p e (rw (n, parse_cidr) at two_parts)
        ]
  ]

  part_entry-IsValid : (s : Bytes) (e : AclEntry) → part_entry parse_ip s ≡ some e → IsValid e
  part_entry-IsValid s e h = elim (Bool-cases (is_empty (trim s))) [
    | inl blank ↦ let absent = rw (blank, if◌then◌else◌) at h in cc
    | inr text ↦ parse_cidr-IsValid (trim s) e (rw (text, if◌then◌else◌) at h)
  ]

  entries-IsValid :
      (spec : Bytes) → All IsValid (keep_map (part_entry parse_ip) (split_on b',' spec))
  entries-IsValid spec =
      All-keep_map IsValid (part_entry parse_ip) part_entry-IsValid (split_on b',' spec)

  -- With an address parser that yields proper addresses, the list that the environment names lets an
  -- address in exactly when DISABLE_ACL is "1", or the address, an IPv4-mapped one taken for its IPv4
  -- address, has the family and the first prefix_len bits of some entry's network; with no valid
  -- entry, none.
  pub is_allowed_lem :
      (disable_acl allowed_clients : Option Bytes) (ip : IpAddr)
      → IsAddress ip
      → is_allowed (from_env parse_ip disable_acl allowed_clients) ip ≡ (
          is_one disable_acl
          || any
              (λ e. shares_prefix e.network e.prefix_len (normalize_ip ip))
              (from_env parse_ip disable_acl allowed_clients).entries)
  unfolding is_allowed from_env
  is_allowed_lem disable_acl allowed_clients ip i = elim (Bool-cases (is_one disable_acl)) [
    | inl off ↦ rw (off, if◌then◌else◌) refl
    | inr on ↦
        rw (on, if◌then◌else◌)
          (any-eq _ _ _ (
            All-weaken IsValid
              (λ e.
                cidr_contains e.network e.prefix_len (normalize_ip ip)
                ≡ shares_prefix e.network e.prefix_len (normalize_ip ip))
              (λ e v.
                cidr_contains_lem e.network e.prefix_len (normalize_ip ip) v.1 v.0
                  (normalize_ip-IsAddress ip i))
              _ (entries-IsValid (or_default allowed_clients))))
  ]

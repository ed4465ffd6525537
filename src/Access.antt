-- ===== src/Access.antt =====
-- The access list for plain DNS, src/acl.rs: the networks that the environment names, and whether an
-- address lies in one of them. The texts of addresses are read by `parse_ip`.
pub mod Masks
pub mod Networks
use Prim.Native.Nat.{bit_and}
use rust_encrypted_dns_serve.Base.{
  ℕ, ◌+◌, ◌-◌, ◌*◌, ◌/◌, ◌%◌, ◌^◌, Bool, true, false, ◌&&◌, Option, none, some, List, [], ◌∷◌,
  keep_map, Bytes, bytes_beq, ◌==◌, ltb, if◌then◌else◌, any, is_empty,
}
use rust_encrypted_dns_serve.Base.Text.{codes, trim, contains, split_once, split_on, parse_uint}
use rust_encrypted_dns_serve.Wire.Ip.{IpAddr, v4, v6, is_ipv4}

pub record AclEntry : Type 0 where
  pub network : IpAddr
  pub prefix_len : ℕ

pub record Acl : Type 0 where
  pub entries : List AclEntry
  pub default_allow : Bool

-- `to_ipv4_mapped`
unfoldable pub normalize_ip : IpAddr → IpAddr
normalize_ip (v4 a b c d) = v4 a b c d
normalize_ip (v6 a b c d e f g h) =
    if a == 0 && b == 0 && c == 0 && d == 0 && e == 0 && f == 0xffff
    then v4 (g / 256) (g % 256) (h / 256) (h % 256)
    else v6 a b c d e f g h

-- The octets as one number, as `from_be_bytes` reads them: 32 bits, or 128.
unfoldable pub from_be_bytes : IpAddr → ℕ
from_be_bytes (v4 a b c d) = ((a * 256 + b) * 256 + c) * 256 + d
from_be_bytes (v6 a b c d e f g h) =
    ((((((a * 65536 + b) * 65536 + c) * 65536 + d) * 65536 + e) * 65536 + f) * 65536 + g) * 65536
    + h

-- `MAX << (w - prefix_len)` in w bits, or 0.
unfoldable pub mask : ℕ → ℕ → ℕ
mask w prefix_len = if prefix_len == 0 then 0 else (2 ^ w - 1) * 2 ^ (w - prefix_len) % 2 ^ w

abbrev agree : ℕ → ℕ → ℕ → ℕ → Bool
agree w prefix_len net check = bit_and net (mask w prefix_len) == bit_and check (mask w prefix_len)

unfoldable pub cidr_contains : IpAddr → ℕ → IpAddr → Bool
cidr_contains (v4 a b c d) prefix_len (v4 a' b' c' d') =
    agree 32 prefix_len (from_be_bytes (v4 a b c d)) (from_be_bytes (v4 a' b' c' d'))
cidr_contains (v4 a b c d) prefix_len (v6 a' b' c' d' e' f' g' h') = false
cidr_contains (v6 a b c d e f g h) prefix_len (v4 a' b' c' d') = false
cidr_contains (v6 a b c d e f g h) prefix_len (v6 a' b' c' d' e' f' g' h') =
    agree 128 prefix_len (from_be_bytes (v6 a b c d e f g h))
      (from_be_bytes (v6 a' b' c' d' e' f' g' h'))

unfoldable pub is_allowed : Acl → IpAddr → Bool
is_allowed acl ip =
    if acl.default_allow
    then true
    else any (λ e. cidr_contains e.network e.prefix_len (normalize_ip ip)) acl.entries

abbrev default_spec : Bytes
default_spec =
    codes
      "127.0.0.0/8,::1/128,10.0.0.0/8,172.16.0.0/12,192.168.0.0/16,169.254.0.0/16,fe80::/10,fc00::/7"

abbrev pub max_prefix : IpAddr → ℕ
max_prefix ip = if is_ipv4 ip then 32 else 128

abbrev pub is_one : Option Bytes → Bool
is_one none = false
is_one (some v) = bytes_beq v (codes "1")

abbrev or_default : Option Bytes → Bytes
or_default none = default_spec
or_default (some v) = v

module _ (parse_ip : Bytes → Option IpAddr) where
  unfoldable pub cidr_of : Bytes → ℕ → Option AclEntry
  cidr_of ip_part prefix_part = elim (parse_ip ip_part) [
    | none ↦ none
    | some ip ↦
        if ltb (max_prefix ip) prefix_part
        then none
        else some (record { network = ip; prefix_len = prefix_part })
  ]

  unfoldable pub parse_cidr : Bytes → Option AclEntry
  parse_cidr s = elim (split_once b'/' s) [
    | none ↦ cidr_of s (if contains s (codes ":") then 128 else 32)
    | some (a, b) ↦ elim (parse_uint 255 b) [ none ↦ none | some p ↦ cidr_of a p ]
  ]

  abbrev part_entry : Bytes → Option AclEntry
  part_entry part = let p = trim part in if is_empty p then none else parse_cidr p

  -- The two variables of the environment are arguments.
  unfoldable pub from_env : Option Bytes → Option Bytes → Acl
  from_env disable_acl allowed_clients =
      if is_one disable_acl then record { entries = []; default_allow = true } else record {
        entries = keep_map part_entry (split_on b',' (or_default allowed_clients));
        default_allow = false;
      }

-- ===== src/Tests/Access.antt =====
-- The theorem on src/acl.rs at a small list.
use mathlib.Core.Path.{subst}
use rust_encrypted_dns_serve.Base.{
  ◌≡◌, refl, arith, true, ◌||◌, Option, none, some, Bytes, bytes_beq, if◌then◌else◌, any,
  Bool-cases, inl, inr,
}
use rust_encrypted_dns_serve.Base.Text.{codes, parse_uint, parse_digits}
use rust_encrypted_dns_serve.Wire.Ip.{IpAddr, v4, v6}
use rust_encrypted_dns_serve.Access.{
  is_allowed, from_env, is_one, normalize_ip, cidr_contains, from_be_bytes, mask, parse_cidr,
  cidr_of,
}
use rust_encrypted_dns_serve.Access.Networks.{IsAddress, shares_prefix, is_allowed_lem}

some_injective : {a b : IpAddr} → some a ≡ some b → a ≡ b
some_injective h = cc

abbrev parse_ip : Bytes → Option IpAddr
parse_ip s = if bytes_beq s (codes "10.0.0.0") then some (v4 10 0 0 0) else none

parse_ip-IsAddress : (s : Bytes) (ip : IpAddr) → parse_ip s ≡ some ip → IsAddress ip
parse_ip-IsAddress s ip h = elim (Bool-cases (bytes_beq s (codes "10.0.0.0"))) [
  | inl known ↦
      let e : v4 10 0 0 0 ≡ ip = some_injective (rw (known, if◌then◌else◌) at h) in
      subst IsAddress e (omega arith)
  | inr other ↦ let absent = rw (other, if◌then◌else◌) at h in cc
]

abbrev spec : Option Bytes
spec = some (codes "10.0.0.0/8, nonsense")

-- 10.9.8.7 as an IPv4-mapped address.
abbrev mapped : IpAddr
mapped = v6 0 0 0 0 0 0xffff 0x0a09 0x0807

mapped_allowed : is_allowed (from_env parse_ip none spec) mapped ≡ true
unfolding is_allowed from_env normalize_ip cidr_contains from_be_bytes mask parse_cidr cidr_of
    parse_uint parse_digits
mapped_allowed = refl

is_allowed_lem_example : is_allowed (from_env parse_ip none spec) mapped ≡ (
    is_one none
    || any
        (λ e. shares_prefix e.network e.prefix_len (normalize_ip mapped))
        (from_env parse_ip none spec).entries)
is_allowed_lem_example = is_allowed_lem parse_ip parse_ip-IsAddress none spec mapped (omega arith)

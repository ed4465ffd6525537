-- ===== src/Recursor/Safe.antt =====
-- Which addresses the resolver may query (src/recursor.rs).
use Prim.Native.Nat.{bit_and}
use rust_encrypted_dns_serve.Base.{
  ℕ, ◌/◌, ◌%◌, Bool, true, false, not, ◌&&◌, ◌||◌, List, ◌==◌, leb, if◌then◌else◌, keep,
}
use rust_encrypted_dns_serve.Wire.Ip.{IpAddr, v4, v6}

-- The tests of `std::net::Ipv4Addr` that the source calls.
abbrev is_private : ℕ → ℕ → Bool
is_private a b = a == 10 || (a == 172 && leb 16 b && leb b 31) || (a == 192 && b == 168)

abbrev is_documentation : ℕ → ℕ → ℕ → Bool
is_documentation a b c =
    (a == 192 && b == 0 && c == 2)
    || (a == 198 && b == 51 && c == 100)
    || (a == 203 && b == 0 && c == 113)

abbrev is_broadcast : ℕ → ℕ → ℕ → ℕ → Bool
is_broadcast a b c d = a == 255 && b == 255 && c == 255 && d == 255

abbrev is_unspecified : ℕ → ℕ → ℕ → ℕ → Bool
is_unspecified a b c d = a == 0 && b == 0 && c == 0 && d == 0

-- Shared address space: `(o[1] & 0b1100_0000) == 0b0100_0000` under 100.
unfoldable pub is_shared : ℕ → ℕ → Bool
is_shared a b = a == 100 && bit_and b 0b1100_0000 == 0b0100_0000

unfoldable pub is_safe_v4 : ℕ → ℕ → ℕ → ℕ → Bool
unfolding is_shared
is_safe_v4 a b c d = not (
    is_private a b
    || a == 127
    || (a == 169 && b == 254)
    || is_broadcast a b c d
    || is_documentation a b c
    || is_unspecified a b c d
    || (leb 224 a && leb a 239)
    || is_shared a b
    || (a == 198 && (b == 18 || b == 19))
    || a == 0)

abbrev is_mapped : ℕ → ℕ → ℕ → ℕ → ℕ → ℕ → Bool
is_mapped a b c d e f = a == 0 && b == 0 && c == 0 && d == 0 && e == 0 && f == 0xffff

-- Loopback, unspecified and multicast, then unique local and link local by the masks of the source.
unfoldable pub is_special_v6 : ℕ → ℕ → ℕ → ℕ → ℕ → ℕ → ℕ → ℕ → Bool
is_special_v6 a b c d e f g h =
    (a == 0 && b == 0 && c == 0 && d == 0 && e == 0 && f == 0 && g == 0 && (h == 1 || h == 0))
    || a / 256 == 0xff
    || bit_and a 0xfe00 == 0xfc00
    || bit_and a 0xffc0 == 0xfe80

unfoldable pub is_safe_upstream_ip : IpAddr → Bool
is_safe_upstream_ip (v4 a b c d) = is_safe_v4 a b c d
is_safe_upstream_ip (v6 a b c d e f g h) =
    if is_special_v6 a b c d e f g h
    then false
    else if is_mapped a b c d e f
    then is_safe_v4 (g / 256) (g % 256) (h / 256) (h % 256)
    else true

abbrev pub filter_safe_ips : List IpAddr → List IpAddr
filter_safe_ips = keep is_safe_upstream_ip

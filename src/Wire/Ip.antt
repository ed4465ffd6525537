-- ===== src/Wire/Ip.antt =====
-- Addresses: `std::net::IpAddr`, by its octets and its segments.
use rust_encrypted_dns_serve.Base.{
  ℕ, ap, ◌≡◌, refl, ◌↔◌, Bool, true, false, ◌&&◌, [], ◌∷◌, ◌==◌, Eq, Bytes, bytes_beq,
  bytes_beq_iff,
}

pub data IpAddr : Type 0 where
  v4 : ℕ → ℕ → ℕ → ℕ → IpAddr
  v6 : ℕ → ℕ → ℕ → ℕ → ℕ → ℕ → ℕ → ℕ → IpAddr

-- The numbers of an address in a row; their count tells the families apart.
abbrev pub ip_code : IpAddr → Bytes
ip_code (v4 a b c d) = a ∷ b ∷ c ∷ d ∷ []
ip_code (v6 a b c d e f g h) = a ∷ b ∷ c ∷ d ∷ e ∷ f ∷ g ∷ h ∷ []

abbrev pub ip_beq : IpAddr → IpAddr → Bool
ip_beq x y = bytes_beq (ip_code x) (ip_code y)

-- The other way round, so that equal codes give equal addresses.
abbrev of_code : Bytes → IpAddr
of_code (a ∷ b ∷ c ∷ d ∷ []) = v4 a b c d
of_code (a ∷ b ∷ c ∷ d ∷ e ∷ f ∷ g ∷ h ∷ []) = v6 a b c d e f g h
of_code _ = v4 0 0 0 0

of_code-ip_code : (x : IpAddr) → of_code (ip_code x) ≡ x
of_code-ip_code (v4 a b c d) = refl
of_code-ip_code (v6 a b c d e f g h) = refl

ip_code_injective : (x y : IpAddr) → ip_code x ≡ ip_code y → x ≡ y
ip_code_injective x y p = cc (of_code-ip_code x, of_code-ip_code y, ap of_code p)

pub ip_beq_iff : (x y : IpAddr) → (ip_beq x y ≡ true) ↔ (x ≡ y)
ip_beq_iff x y = (
  (λ h. ip_code_injective x y ((bytes_beq_iff _ _).0 h)),
  (λ p. (bytes_beq_iff (ip_code x) (ip_code y)).1 (ap ip_code p)),
)

instance abbrev pub ip_eq : Eq IpAddr
ip_eq = record { beq = ip_beq; beq_iff = ip_beq_iff }

abbrev pub is_ipv4 : IpAddr → Bool
is_ipv4 (v4 a b c d) = true
is_ipv4 (v6 a b c d e f g h) = false

-- `IpAddr::is_loopback`: 127.0.0.0/8 and ::1.
unfoldable pub is_loopback : IpAddr → Bool
is_loopback (v4 a b c d) = a == 127
is_loopback (v6 a b c d e f g h) =
    a == 0 && b == 0 && c == 0 && d == 0 && e == 0 && f == 0 && g == 0 && h == 1

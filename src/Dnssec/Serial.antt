-- ===== src/Dnssec/Serial.antt =====
-- The validity period of a signature (src/dnssec.rs), in the 32-bit serial arithmetic of RFC 1982.
use rust_encrypted_dns_serve.Base.{
  ℕ, ◌+◌, ◌-◌, ◌%◌, ◌^◌, ◌≤◌, ◌<◌, ◌≡◌, ◌↔◌, arith, Bool, true, ◌&&◌, ltb,
}
use rust_encrypted_dns_serve.Wire.Messages.{Rrsig}

-- `wrapping_sub`, and the signs of its result as an `i32`.
unfoldable pub wrapping_sub : ℕ → ℕ → ℕ
wrapping_sub a b = (a + 2 ^ 32 - b) % 2 ^ 32

abbrev pub is_nonnegative_i32 : ℕ → Bool
is_nonnegative_i32 d = ltb d (2 ^ 31)

abbrev pub is_positive_i32 : ℕ → Bool
is_positive_i32 d = ltb 0 d && ltb d (2 ^ 31)

unfoldable pub rrsig_time_valid : {Name : Type 0} → Rrsig Name → ℕ → Bool
rrsig_time_valid sig now =
    let now32 = now % 2 ^ 32 in
    is_nonnegative_i32 (wrapping_sub now32 sig.sig_inception)
    && is_nonnegative_i32 (wrapping_sub sig.sig_expiration now32)
    && is_positive_i32 (wrapping_sub sig.sig_expiration sig.sig_inception)

-- For a period of less than 68 years that starts at a second of Unix time and whose ends are written
-- modulo 2^32, and a clock within 68 years of both ends, a signature is valid exactly from its
-- inception to its expiration: also where the 32-bit times wrap around.
pub rrsig_time_valid_lem :
    {Name : Type 0} (sig : Rrsig Name) (inception expiration now : ℕ)
    → sig.sig_inception ≡ inception % 2 ^ 32
    → sig.sig_expiration ≡ expiration % 2 ^ 32
    → inception < expiration
    → expiration < inception + 2 ^ 31
    → now < inception + 2 ^ 31
    → inception < now + 2 ^ 31
    → expiration < now + 2 ^ 31
    → now < expiration + 2 ^ 31
    → (rrsig_time_valid sig now ≡ true) ↔ ((inception ≤ now) × (now ≤ expiration))
unfolding rrsig_time_valid wrapping_sub
rrsig_time_valid_lem sig i e now hi he h1 h2 h3 h4 h5 h6 = ground arith

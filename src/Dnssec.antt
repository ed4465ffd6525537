-- ===== src/Dnssec.antt =====
-- The DNSSEC validator, src/dnssec.rs.
pub mod Status
pub mod Serial
pub mod Signing
pub mod Nsec
pub mod Hashed
pub mod Negative
pub mod Proofs
pub mod Denials
pub mod Evidence
pub mod Anchors
pub mod Trust
pub mod Authentic
pub mod Chains
pub mod Zones
pub mod Rrset
pub mod Secured
pub mod Redirects
pub mod Validation
pub mod Verdicts
pub mod Judged

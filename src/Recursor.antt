-- ===== src/Recursor.antt =====
-- The iterative resolver, src/recursor.rs.
pub mod Ttl
pub mod Safe
pub mod Query
pub mod Dname
pub mod Merge
pub mod Delegation
pub mod Chain
pub mod State
pub mod Referral
pub mod Redirect
pub mod Resolve
pub mod Contact
pub mod Contacted
pub mod Safety
pub mod Walks
pub mod Blocks
pub mod Asked

-- ===== src/Transport.antt =====
-- The transports that hand requests to the pipeline: plain UDP and TCP (src/dns.rs), DNS over TLS
-- (src/dot.rs) and DNS over HTTPS (src/doh.rs). What each outcome of the pipeline means for a
-- transport is a function of its own.
pub mod Stream
pub mod Frames
pub mod Rounds
pub mod Datagram
pub mod Accept
pub mod Amplification
pub mod Doh
pub mod Methods

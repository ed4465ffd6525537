-- ===== src/Wire.antt =====
-- The data of the DNS messages that the resolver handles: src/engine.rs, src/recursor.rs and
-- src/dnssec.rs read and write them through the getters and setters of hickory-proto's types.
-- A record here has the fields that those calls reach; the codes of types, classes and response
-- codes are their numbers on the wire.
pub mod Codes
pub mod Ip
pub mod Names
pub mod Messages

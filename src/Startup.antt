-- ===== src/Startup.antt =====
-- Server start, src/main.rs and src/tranco.rs: the ports that the listeners get, the list of popular
-- domains, and the task that fills the cache with them before clients ask.
pub mod Settings
pub mod Ports
pub mod Preload
pub mod Domains
pub mod Lines
pub mod Listed
pub mod Warmed

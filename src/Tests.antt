-- ===== src/Tests.antt =====
-- Examples: the theorems at concrete inputs.
mod Toy
mod Engine
mod Limiter
mod Store
mod Net
mod Resolver
mod Keys
mod Validator
mod Judged
mod Transport
mod Access
mod Startup
mod Server

-- ===== src/Lib.antt =====
-- A model of the encrypted DNS server, with the theorems that make its query path correct.
--
-- A request reaches the server over UDP, TCP, DoT or DoH. Each transport hands its bytes to
-- `process_dns_query` of src/engine.rs, which asks the rate limiter (src/ratelimit.rs), looks in the
-- answer cache (src/cache.rs), and otherwise has the resolver (src/recursor.rs) ask the authoritative
-- servers and the validator (src/dnssec.rs) judge what they said. A stale entry is served and spawns
-- one background revalidation.
--
-- Which file models what:
--   Base: shared helpers, Boolean tests, lists, and `Map` for DashMap and HashMap.
--   Wire: what the program takes from hickory-proto as data (addresses, records, messages), and
--     `NameOps`, its names, as an interface with the laws of its documentation.
--   Cache: src/cache.rs. `CacheEntry` and `freshness_at`, and the loops that load and save.
--   RateLimit: src/ratelimit.rs. One function for each part of `check_query`, and `cleanup`.
--   Recursor: src/recursor.rs, in children for TTLs, safe addresses, one upstream query (`Net` has what
--     the network delivers), DNAME, merging, delegations, CNAME chains, referrals, and `Resolve` for
--     `resolve_internal`.
--   Dnssec: src/dnssec.rs, in children for serial times, signatures (`Crypto` has the primitives), NSEC,
--     NSEC3, negative proofs, the chain of trust, zones, RRsets, aliases and whole messages.
--   Engine: src/engine.rs. `AppState` is threaded; `Env` stands for the codec, the resolver and the
--     validator; a spawned task is a `Job`, and `revalidate` is its end. `Engine.System` has any
--     interleaving of queries, ends of jobs, passes of the cleanup and insertions of the warm-up as a
--     step relation.
--   Transport: src/dns.rs, src/dot.rs and src/doh.rs. `Stream` has the loop over length-prefixed frames
--     (`Session` is what the outer world does on a connection), `Datagram` a round of the UDP listener,
--     `Accept` the TCP and DoT listeners, `Doh` the HTTP handlers; `Frames`, `Rounds`, `Amplification`
--     and `Methods` have the theorems.
--   Startup: src/main.rs and src/tranco.rs. `Settings` reads the environment, `Ports` binds the listeners,
--     `Domains` finds the domains and `Preload` warms the cache with them; `Listed` and `Warmed` have the theorems.
--   Server: the pipeline with the validator's verdicts. `Engine.Kept` says what any path into the cache
--     keeps and `Cache.Carried` what the file keeps; `Backed` applies both to what the validator found, and
--     `Genuine` has the theorem.
--   Access: src/acl.rs, the access list, with `Masks` for its bit masks.
--
-- Bounds: the depth of the resolver is what is left of MAX_DEPTH + 1 and its rounds are MAX_STEPS, both
-- by structural recursion, so that running out is the source's own error. A climb from a name to the
-- root has as many steps as labels, which `NameOps` says is enough. The loop over CNAME records has one
-- step more than the response has answers. The validator's limits of 16 are the source's. The loop over a stream
-- has one round more than bytes arrive, and each round but the last takes 14 bytes at least.
--
-- The validator's budget has one field that the source has not: `performed` counts the calls of
-- `verify_rrsig` as they happen, so that the limit can be stated of them.
--
-- Numbers are native and non-negative. A 32-bit wrap-around is written out as `% 2 ^ 32`; the clock's
-- `saturating_sub` is the subtraction of ℕ. The limiter's capacity and rate are taken as not
-- negative, though `Settings` reads them with a sign.
-- A map is an association list, so its iteration order is that of insertion. The atomics of one query
-- of the limiter run one after the other: races between two queries on one bucket are not modelled.
--
-- Text is taken as ASCII bytes; the texts of addresses and base64 are read by parameters. A read that
-- fails, ends or times out ends a connection, so a stream's input is the bytes that arrive in time.
--
-- Not modelled: sockets, timers, semaphores, TLS, files and HTTP routing, logging, and the
-- cryptographic primitives. src/acl.rs and src/dnscheck.rs are not
-- part of the crate: no module declares them.
pub mod Base
pub mod Wire
pub mod Dnssec
pub mod Cache
pub mod RateLimit
pub mod Recursor
pub mod Engine
pub mod Transport
pub mod Access
pub mod Startup
pub mod Server
pub mod Tests

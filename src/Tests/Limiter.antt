-- ===== src/Tests/Limiter.antt =====
-- The theorems on src/ratelimit.rs at concrete queries.
use rust_encrypted_dns_serve.Base.{
  ℕ, ◌+◌, ◌-◌, ◌*◌, ◌≤◌, ◌≡◌, ◌≢◌, refl, arith, List, [], ◌∷◌, Bytes,
}
use rust_encrypted_dns_serve.Wire.Codes.{a_type}
use rust_encrypted_dns_serve.Wire.Ip.{IpAddr, v4, ip_eq}
use rust_encrypted_dns_serve.RateLimit.{
  tcp, allow, truncate, drop, RateLimiter, new, check_query, cleanup, epoch_of, count_of,
}
use rust_encrypted_dns_serve.RateLimit.Buckets.{Call, passes, passes-le, last_time, level}
use rust_encrypted_dns_serve.RateLimit.Duplicates.{
  domain_run, domain_run_second, check_query_streams, replicate,
}
use rust_encrypted_dns_serve.RateLimit.Cleanup.{cleanup-level}
use rust_encrypted_dns_serve.Tests.Toy.{client}

abbrev key_of : IpAddr → ℕ → ℕ → Bytes
key_of subnet name qtype = name ∷ qtype ∷ []

abbrev call : ℕ → Call ℕ
call at = record { protocol = tcp; client_ip = client; qname = 5; qtype = a_type; at_ms = at }

abbrev calls : List (Call ℕ)
calls = call 1000 ∷ call 1010 ∷ call 1500 ∷ []

abbrev subnet : IpAddr
subnet = v4 203 0 112 0

passes-le_example :
    1000 * passes key_of subnet (new 1 2) calls ≤ 1000 * 1 + (last_time 1000 calls - 1000) * 2
passes-le_example =
    passes-le key_of subnet 1 2 1000 calls (omega arith, (omega arith, (omega arith, tt)))

domain_run_second_example :
    domain_run (record { state = 0; penalized_until_sec = 0 }) (replicate 5 1000)
    ≡ allow ∷ truncate ∷ drop ∷ replicate 2 drop
unfolding epoch_of count_of
domain_run_second_example =
    domain_run_second 2 1000 (record { state = 0; penalized_until_sec = 0 }) (omega arith)
      (omega arith, omega arith, λ h. refl)

check_query_streams_example :
    let r = check_query key_of (new 1 2) tcp client 5 a_type 1000_000 in
    (r.0.rrl_buckets ≡ []) × (r.1 ≢ truncate)
unfolding new
check_query_streams_example =
    check_query_streams key_of (new 1 2) tcp client 5 a_type 1000_000 (λ h. cc)

abbrev used : RateLimiter
used = record {
  subnet_buckets =
      (subnet, record { tokens = 0; last_refill_millis = 1000; last_seen_millis = 2000 }) ∷ [];
  rrl_buckets = [];
  capacity = 20;
  refill_per_sec = 10;
}

cleanup-level_example :
    level (cleanup 900_000 600_000 used) subnet 900_000 ≤ level used subnet 900_000
cleanup-level_example =
    cleanup-level subnet 900_000 600_000 used (refl, tt) (omega arith) (omega arith)
      (λ b found. ground arith)

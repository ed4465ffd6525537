-- ===== src/RateLimit/Cleanup.antt =====
-- The pruning of stale buckets (src/ratelimit.rs).
use native.Mathlib.Nat.{le_trans, mul-le-mul_right}
use rust_encrypted_dns_serve.Base.{ℕ, ◌-◌, ◌*◌, ◌≤◌, ◌≡◌, arith, some, leb, Option-cases, inl, inr}
use rust_encrypted_dns_serve.Base.Map
use rust_encrypted_dns_serve.Wire.Ip.{IpAddr, ip_eq}
use rust_encrypted_dns_serve.RateLimit.{Bucket, RateLimiter, cleanup}
use rust_encrypted_dns_serve.RateLimit.Buckets.{level}

-- Pruning removes exactly the subnets that were last seen before the cutoff.
pub get-cleanup :
    (s : IpAddr) (now max_age : ℕ) (rl : RateLimiter)
    → Map.Distinct rl.subnet_buckets
    → Map.get s (cleanup now max_age rl).subnet_buckets
      ≡ Map.passing (λ b. leb (now - max_age) b.last_seen_millis) (Map.get s rl.subnet_buckets)
unfolding cleanup
get-cleanup s now max_age rl d =
    Map.get-keep (λ b. leb (now - max_age) b.last_seen_millis) s rl.subnet_buckets d

long_wait :
    (capacity rate wait max_age : ℕ)
    → max_age ≤ wait
    → 1000 * capacity ≤ max_age * rate
    → 1000 * capacity ≤ wait * rate
long_wait capacity rate wait max_age h k = le_trans k (mul-le-mul_right rate h)

-- Where an idle subnet's bucket fills up within `max_age`, pruning gives no subnet more than it
-- has earned: its credit does not grow. No bucket was refilled after it was last seen.
pub cleanup-level :
    (s : IpAddr) (now max_age : ℕ) (rl : RateLimiter)
    → Map.Distinct rl.subnet_buckets
    → max_age ≤ now
    → 1000 * rl.capacity ≤ max_age * rl.refill_per_sec
    → ((b : Bucket)
        → Map.get s rl.subnet_buckets ≡ some b
        → b.last_refill_millis ≤ b.last_seen_millis)
    → level (cleanup now max_age rl) s now ≤ level rl s now
unfolding cleanup
cleanup-level s now max_age rl d young rate seen =
    elim (Option-cases (Map.get s rl.subnet_buckets)) [
      | inl gone ↦ ground (arith, get-cleanup s now max_age rl d)
      | inr (b, found) ↦ ground (
        arith,
        get-cleanup s now max_age rl d,
        seen b found,
        long_wait rl.capacity rl.refill_per_sec (now - b.last_refill_millis) max_age,
      )
    ]

-- ===== src/Cache/Freshness.antt =====
-- The freshness of an entry (src/cache.rs).
use rust_encrypted_dns_serve.Base.{ℕ, ◌+◌, ◌-◌, ◌^◌, ◌≤◌, ◌<◌, ◌≡◌, ◌↔◌, arith, false}
use rust_encrypted_dns_serve.Cache.{
  CacheEntry, CacheFreshness, fresh, stale, expired, freshness_at, is_expired,
}

-- For an entry whose limits do not pass 64 bits, the three states split the ages at the TTL and at
-- the TTL plus the stale allowance: exactly below the first is fresh, exactly between them is
-- stale, and exactly from the second on is expired.
pub freshness_at_windows :
    (e : CacheEntry) (now max_stale : ℕ)
    → e.min_ttl + max_stale < 2 ^ 64
    → ((freshness_at e now max_stale ≡ fresh) ↔ (now - e.cached_at < e.min_ttl))
      × ((freshness_at e now max_stale ≡ stale)
          ↔ ((e.min_ttl ≤ now - e.cached_at) × (now - e.cached_at < e.min_ttl + max_stale)))
      × ((freshness_at e now max_stale ≡ expired) ↔ (e.min_ttl + max_stale ≤ now - e.cached_at))
unfolding freshness_at
freshness_at_windows e now max_stale h = ground arith

abbrev rank : CacheFreshness → ℕ
rank fresh = 0
rank stale = 1
rank expired = 2

-- As the clock runs on, an entry never becomes fresher, and a longer stale allowance never makes
-- it less servable.
freshness_at_mono :
    (e : CacheEntry) (now later s t : ℕ)
    → now ≤ later
    → t ≤ s
    → rank (freshness_at e now s) ≤ rank (freshness_at e later t)
unfolding freshness_at
freshness_at_mono e now later s t h k = ground arith

pub expired_stays :
    (e : CacheEntry) (now later s : ℕ)
    → now ≤ later
    → is_expired (freshness_at e later s) ≡ false
    → is_expired (freshness_at e now s) ≡ false
unfolding freshness_at
expired_stays e now later s h k = ground arith

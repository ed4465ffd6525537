-- ===== src/RateLimit.antt =====
-- The rate limiter, src/ratelimit.rs: a token bucket for each subnet and, for UDP, a counter for
-- each subnet, name and type. The atomics of one query are run one after the other. Times and
-- tokens are non-negative, as the clock and any sensible configuration give them; the two halves of
-- the packed 64-bit state are joined by `+`, since they have no bit in common.
pub mod Buckets
pub mod Duplicates
pub mod Cleanup
use rust_encrypted_dns_serve.Base.{
  ℕ, ◌+◌, ◌-◌, ◌*◌, ◌/◌, ◌%◌, ◌^◌, min, Bool, true, false, not, ◌&&◌, ◌||◌, Option, none, some,
  List, [], ◌∷◌, ◌++◌, Bytes, bytes_eq, ltb, leb, ◌==◌, if◌then◌else◌, length, keep,
}
use rust_encrypted_dns_serve.Base.Map
use rust_encrypted_dns_serve.Base.Map.{Map}
use rust_encrypted_dns_serve.Wire.Codes.{any_type}
use rust_encrypted_dns_serve.Wire.Ip.{IpAddr, v4, v6, ip_eq, is_loopback}

abbrev pub max_tracked_rrl_entries : ℕ
max_tracked_rrl_entries = 65_536

pub data RrlAction : Type 0 where
  allow truncate drop : RrlAction

-- The `protocol` argument: "UDP", "TCP", "DoT" or "DoH".
pub data Protocol : Type 0 where
  udp tcp dot doh : Protocol

abbrev pub is_udp : Protocol → Bool
is_udp udp = true
is_udp tcp = false
is_udp dot = false
is_udp doh = false

pub record Bucket : Type 0 where
  pub tokens : ℕ
  pub last_refill_millis : ℕ
  pub last_seen_millis : ℕ

pub record DomainRateBucket : Type 0 where
  pub state : ℕ
  pub penalized_until_sec : ℕ

pub record RateLimiter : Type 0 where
  pub subnet_buckets : Map IpAddr Bucket
  pub rrl_buckets : Map Bytes DomainRateBucket
  pub capacity : ℕ
  pub refill_per_sec : ℕ

unfoldable pub new : ℕ → ℕ → RateLimiter
new capacity refill_per_sec = record {
  subnet_buckets = [];
  rrl_buckets = [];
  capacity = capacity;
  refill_per_sec = refill_per_sec;
}

unfoldable pub to_subnet : IpAddr → IpAddr
to_subnet (v4 a b c d) = v4 a b c 0
to_subnet (v6 a b c d e f g h) = v6 a b c d 0 0 0 0

-- The refill of `check_query`.
unfoldable pub refill : ℕ → ℕ → ℕ → Bucket → Bucket
refill capacity rate now_ms b =
    let elapsed_ms = now_ms - b.last_refill_millis in
    let new_tokens = elapsed_ms * rate / 1000 in
    if ltb 0 elapsed_ms && ltb 0 new_tokens
    then record b { tokens = min (b.tokens + new_tokens) capacity; last_refill_millis = now_ms }
    else b

-- `token_acquired`: `false` is the `Err` of the update, which leaves the tokens alone.
unfoldable pub acquire : Bucket → Bucket × Bool
acquire b = if ltb 0 b.tokens then (record b { tokens = b.tokens - 1 }, true) else (b, false)

abbrev pub full_bucket : ℕ → ℕ → Bucket
full_bucket capacity now_ms = record {
  tokens = capacity;
  last_refill_millis = now_ms;
  last_seen_millis = now_ms;
}

abbrev pub found_or : Bucket → Option Bucket → Bucket
found_or b none = b
found_or b (some c) = c

-- A query's use of its bucket, from the stored bucket or a new one.
unfoldable pub use_bucket : ℕ → ℕ → ℕ → Option Bucket → Bucket × Bool
use_bucket capacity rate now_ms o =
    let b = found_or (full_bucket capacity now_ms) o in
    acquire (refill capacity rate now_ms (record b { last_seen_millis = now_ms }))

-- The upper half is the second, the lower half the count; `as u64` and `<<` keep 64 bits.
unfoldable pub pack : ℕ → ℕ → ℕ
pack epoch count = epoch * 2 ^ 32 % 2 ^ 64 + count

unfoldable pub epoch_of : ℕ → ℕ
epoch_of state = state / 2 ^ 32

unfoldable pub count_of : ℕ → ℕ
count_of state = state % 2 ^ 32

abbrev pub new_domain_bucket : ℕ → DomainRateBucket
new_domain_bucket now_s = record { state = pack now_s 0; penalized_until_sec = 0 }

-- The `fetch_update` of the packed state: the count it yields, and the new state.
unfoldable pub count_query : ℕ → ℕ → ℕ × ℕ
count_query now_s state =
    if ltb (epoch_of state) now_s
    then (1, pack now_s 1)
    else (let n = min (count_of state + 1) (2 ^ 32 - 1) in (n, pack (epoch_of state) n))

-- The part of `check_query` that works on the entry of the domain.
unfoldable pub domain_step : ℕ → DomainRateBucket → DomainRateBucket × RrlAction
domain_step now_s d =
    if ltb now_s d.penalized_until_sec
    then (record d { penalized_until_sec = now_s + 3 }, drop)
    else (let (n, state) = count_query now_s d.state in
        let counted = record d { state = state } in
        if n == 1
        then (counted, allow)
        else if n == 2
        then (counted, truncate)
        else (record counted { penalized_until_sec = now_s + 3 }, drop))

abbrev pub found_domain : DomainRateBucket → Option DomainRateBucket → DomainRateBucket
found_domain d none = d
found_domain d (some c) = c

-- The duplicate-domain part of `check_query`, on the table.
unfoldable pub rrl_step :
    ℕ → Bytes → Map Bytes DomainRateBucket → Map Bytes DomainRateBucket × RrlAction
rrl_step now_s key m =
    if not (Map.contains_key key m) && leb max_tracked_rrl_entries (length m)
    then (m, allow)
    else (let (d, action) =
          domain_step now_s (found_domain (new_domain_bucket now_s) (Map.get key m)) in
        (Map.insert key d m, action))

-- `check_query`, after the two tests that need no state. `key` is `rrl_key`.
unfoldable pub limited_query : RateLimiter → Protocol → IpAddr → Bytes → ℕ → RateLimiter × RrlAction
limited_query rl protocol subnet key now_ms =
    let (b, acquired) =
      use_bucket rl.capacity rl.refill_per_sec now_ms (Map.get subnet rl.subnet_buckets) in
    let used = record rl { subnet_buckets = Map.insert subnet b rl.subnet_buckets } in
    if not acquired
    then (used, drop)
    else if not (is_udp protocol)
    then (used, allow)
    else (let (m, action) = rrl_step (now_ms / 1000) key used.rrl_buckets in
        (record used { rrl_buckets = m }, action))

-- `key_of` makes the text of the subnet, the name and the type that is the key of the table.
unfoldable pub check_query {ℓ} :
    {Name : Type ℓ}
    → (IpAddr → Name → ℕ → Bytes)
    → RateLimiter
    → Protocol
    → IpAddr
    → Name
    → ℕ
    → ℕ
    → RateLimiter × RrlAction
check_query key_of rl protocol client_ip qname qtype now_ms =
    if is_loopback client_ip
    then (rl, allow)
    else if is_udp protocol && qtype == any_type
    then (rl, drop)
    else (let subnet = to_subnet client_ip in
        limited_query rl protocol subnet (key_of subnet qname qtype) now_ms)

unfoldable pub should_challenge_large_response : Protocol → IpAddr → ℕ → ℕ → Bool
should_challenge_large_response protocol client_ip resp_bytes client_max_payload =
    if not (is_udp protocol) || is_loopback client_ip
    then false
    else ltb client_max_payload resp_bytes

-- `cleanup`; before the first `max_age` of the epoch the source's cutoff is negative, and keeps all.
unfoldable pub cleanup : ℕ → ℕ → RateLimiter → RateLimiter
cleanup now_ms max_age_ms rl =
    let cutoff_ms = now_ms - max_age_ms in
    record rl {
      subnet_buckets = keep (λ x. leb cutoff_ms x.1.last_seen_millis) rl.subnet_buckets;
      rrl_buckets = keep (λ x. leb (cutoff_ms / 1000) (epoch_of x.1.state)) rl.rrl_buckets;
    }

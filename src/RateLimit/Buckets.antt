-- ===== src/RateLimit/Buckets.antt =====
-- The subnet token bucket (src/ratelimit.rs): its bound over a run of queries.
use native.Mathlib.Nat.{add-mul, mul-le-mul_right}
use rust_encrypted_dns_serve.Base.{
  ℕ, ◌+◌, ◌-◌, ◌*◌, ◌≤◌, ◌≡◌, arith, Bool, true, false, not, ◌&&◌, Option, none, some, List, [],
  ◌∷◌, Bytes, if◌then◌else◌, bytes_eq,
}
use mathlib.Core.Path.{subst}
use rust_encrypted_dns_serve.Base.Map
use rust_encrypted_dns_serve.Wire.Ip.{IpAddr, ip_eq, ip_beq, ip_beq_iff, is_loopback}
use rust_encrypted_dns_serve.RateLimit.{
  Protocol, RrlAction, allow, truncate, drop, Bucket, RateLimiter, to_subnet, refill, acquire,
  use_bucket, full_bucket, limited_query, check_query, new,
}

-- What a bucket can still pay, in thousandths of a token. A subnet with no bucket has a full one.
abbrev pub credit : ℕ → ℕ → ℕ → Option Bucket → ℕ
credit capacity rate now none = 1000 * capacity
credit capacity rate now (some b) = 1000 * b.tokens + (now - b.last_refill_millis) * rate

abbrev pub cost : Bool → ℕ
cost true = 1000
cost false = 0

wait_split :
    (r now later rate : ℕ)
    → now ≤ later
    → (later - r) * rate ≤ (now - r) * rate + (later - now) * rate
wait_split r now later rate h = rw (← add-mul) (mul-le-mul_right rate (omega arith))

wait_join :
    (now mid later rate : ℕ)
    → now ≤ mid
    → mid ≤ later
    → (mid - now) * rate + (later - mid) * rate ≤ (later - now) * rate
wait_join now mid later rate h k = rw (← add-mul) (mul-le-mul_right rate (omega arith))

-- One query before a run: what it costs, what the run costs, and the two waits.
add_query :
    (b : Bool) (n level' level wait wait' all : ℕ)
    → level' + cost b ≤ level + wait
    → 1000 * n ≤ level' + wait'
    → wait + wait' ≤ all
    → 1000 * ((if b then 1 else 0) + n) ≤ level + all
add_query true n l' l v v' a h k w = omega arith
add_query false n l' l v v' a h k w = omega arith

sub_zero : (later rate : ℕ) → (later - later) * rate ≡ 0
sub_zero later rate = grind arith

refill-credit :
    (capacity rate now : ℕ) (b : Bucket)
    → credit capacity rate now (some (refill capacity rate now b))
      ≤ credit capacity rate now (some b)
unfolding refill
refill-credit capacity rate now b = ground arith

acquire-credit :
    (capacity rate now : ℕ) (b : Bucket)
    → credit capacity rate now (some (acquire b).0) + cost (acquire b).1
      ≤ credit capacity rate now (some b)
unfolding acquire
acquire-credit capacity rate now b = ground arith

use_bucket-credit :
    (capacity rate now later : ℕ) (o : Option Bucket)
    → now ≤ later
    → credit capacity rate later (some (use_bucket capacity rate later o).0)
        + cost (use_bucket capacity rate later o).1
      ≤ credit capacity rate now o + (later - now) * rate
unfolding use_bucket
use_bucket-credit capacity rate now later none h =
    let b = full_bucket capacity later in
    omega (
      arith,
      acquire-credit capacity rate later (refill capacity rate later b),
      refill-credit capacity rate later b,
      sub_zero later rate,
    )
use_bucket-credit capacity rate now later (some b) h =
    let seen = record b { last_seen_millis = later } in
    omega (
      arith,
      acquire-credit capacity rate later (refill capacity rate later seen),
      refill-credit capacity rate later seen,
      wait_split b.last_refill_millis now later rate h,
    )

wait-credit :
    (capacity rate now later : ℕ) (o : Option Bucket)
    → now ≤ later
    → credit capacity rate later o ≤ credit capacity rate now o + (later - now) * rate
wait-credit capacity rate now later none h = omega arith
wait-credit capacity rate now later (some b) h =
    omega (arith, wait_split b.last_refill_millis now later rate h)

abbrev is_drop : RrlAction → Bool
is_drop drop = true
is_drop allow = false
is_drop truncate = false

-- The credit of a subnet.
abbrev pub level : RateLimiter → IpAddr → ℕ → ℕ
level rl s now = credit rl.capacity rl.refill_per_sec now (Map.get s rl.subnet_buckets)

limited_query-level :
    (rl : RateLimiter) (p : Protocol) (subnet s : IpAddr) (key : Bytes) (now later : ℕ)
    → now ≤ later
    → level (limited_query rl p subnet key later).0 s later
        + cost (ip_beq subnet s && not (is_drop (limited_query rl p subnet key later).1))
      ≤ level rl s now + (later - now) * rl.refill_per_sec
unfolding limited_query
limited_query-level rl p subnet s key now later h = ground (
  arith,
  use_bucket-credit rl.capacity rl.refill_per_sec now later (Map.get subnet rl.subnet_buckets) h,
  wait-credit rl.capacity rl.refill_per_sec now later (Map.get s rl.subnet_buckets) h,
  Map.get-insert subnet s
      (use_bucket rl.capacity rl.refill_per_sec later (Map.get subnet rl.subnet_buckets)).0
      rl.subnet_buckets,
  ip_beq_iff subnet s,
)

pub record Call {ℓ} (Name : Type ℓ) : Type ℓ where
  pub protocol : Protocol
  pub client_ip : IpAddr
  pub qname : Name
  pub qtype : ℕ
  pub at_ms : ℕ

module _ {ℓ} {Name : Type ℓ} where
  -- A query of the subnet that is answered or challenged. A loopback client is not counted.
  abbrev pub passed : IpAddr → Call Name → RrlAction → Bool
  passed s c action =
      not (is_loopback c.client_ip) && (ip_beq (to_subnet c.client_ip) s && not (is_drop action))

  -- The queries come in the order of their times, none before the given one.
  abbrev pub InOrder : ℕ → List (Call Name) → Type 0
  InOrder now [] = Unit
  InOrder now (c ∷ cs) = (now ≤ c.at_ms) × InOrder c.at_ms cs

  abbrev pub last_time : ℕ → List (Call Name) → ℕ
  last_time now [] = now
  last_time now (c ∷ cs) = last_time c.at_ms cs

  last_time-ge : (now : ℕ) (cs : List (Call Name)) → InOrder now cs → now ≤ last_time now cs
  last_time-ge now [] h = omega arith
  last_time-ge now (c ∷ cs) h = omega (arith, last_time-ge c.at_ms cs h.1)

module _ {ℓ} {Name : Type ℓ} (key_of : IpAddr → Name → ℕ → Bytes) where
  abbrev pub step : RateLimiter → Call Name → RateLimiter × RrlAction
  step rl c = check_query key_of rl c.protocol c.client_ip c.qname c.qtype c.at_ms

  step-level :
      (rl : RateLimiter) (c : Call Name) (s : IpAddr) (now : ℕ)
      → now ≤ c.at_ms
      → level (step rl c).0 s c.at_ms + cost (passed s c (step rl c).1)
        ≤ level rl s now + (c.at_ms - now) * rl.refill_per_sec
  unfolding check_query
  step-level rl c s now h = ground (
    arith,
    wait-credit rl.capacity rl.refill_per_sec now c.at_ms (Map.get s rl.subnet_buckets) h,
    limited_query-level rl c.protocol (to_subnet c.client_ip) s
        (key_of (to_subnet c.client_ip) c.qname c.qtype) now c.at_ms h,
  )

  step_settings :
      (rl : RateLimiter) (c : Call Name)
      → ((step rl c).0.capacity ≡ rl.capacity) × ((step rl c).0.refill_per_sec ≡ rl.refill_per_sec)
  unfolding check_query limited_query
  step_settings rl c = ground arith

  -- The state after a run, and how many queries of a subnet pass in it.
  unfoldable pub run : RateLimiter → List (Call Name) → RateLimiter
  run rl [] = rl
  run rl (c ∷ cs) = run (step rl c).0 cs

  unfoldable pub passes : IpAddr → RateLimiter → List (Call Name) → ℕ
  passes s rl [] = 0
  passes s rl (c ∷ cs) = (if passed s c (step rl c).1 then 1 else 0) + passes s (step rl c).0 cs

  passes-le_level :
      (s : IpAddr) (rl : RateLimiter) (now : ℕ) (cs : List (Call Name))
      → InOrder now cs
      → 1000 * passes s rl cs ≤ level rl s now + (last_time now cs - now) * rl.refill_per_sec
  unfolding passes
  passes-le_level s rl now [] h = omega arith
  passes-le_level s rl now (c ∷ cs) h =
      let rest = passes-le_level s (step rl c).0 c.at_ms cs h.1 in
      let one = step-level rl c s now h.0 in
      let (cap, rate) = step_settings rl c in
      let join =
        wait_join now c.at_ms (last_time c.at_ms cs) rl.refill_per_sec h.0
          (last_time-ge c.at_ms cs h.1) in
      add_query (passed s c (step rl c).1) (passes s (step rl c).0 cs) _ _ _ _ _ one
        (subst
          (λ r.
            1000 * passes s (step rl c).0 cs
            ≤ level (step rl c).0 s c.at_ms + (last_time c.at_ms cs - c.at_ms) * r)
          rate rest)
        join

-- From a new limiter, whatever clients ask over whatever protocols, a subnet of non-loopback
-- clients gets at most `capacity` queries through, and `refill_per_sec` more for each second of
-- the run.
pub passes-le {ℓ} :
    {Name : Type ℓ} (key_of : IpAddr → Name → ℕ → Bytes) (s : IpAddr) (capacity rate now : ℕ)
    (cs : List (Call Name))
    → InOrder now cs
    → 1000 * passes key_of s (new capacity rate) cs
      ≤ 1000 * capacity + (last_time now cs - now) * rate
unfolding new
passes-le key_of s capacity rate now cs h = passes-le_level key_of s (new capacity rate) now cs h

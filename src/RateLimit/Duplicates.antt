-- ===== src/RateLimit/Duplicates.antt =====
-- The duplicate-domain limit of UDP queries (src/ratelimit.rs).
use rust_encrypted_dns_serve.Base.{
  ℕ, zero, suc, ◌+◌, ◌^◌, ◌≤◌, ◌<◌, ◌≡◌, ◌≢◌, refl, arith, List, [], ◌∷◌, Bytes, ap, ◌∙◌,
}
use mathlib.Core.Path.{ap₂}
use rust_encrypted_dns_serve.Wire.Ip.{IpAddr}
use rust_encrypted_dns_serve.RateLimit.{
  Protocol, udp, RrlAction, allow, truncate, drop, DomainRateBucket, RateLimiter, pack, epoch_of,
  count_of, count_query, domain_step, limited_query, check_query,
}

-- A second and a count below 2^32 are read back from the packed state.
pub pack_fields :
    (epoch count : ℕ)
    → epoch < 2 ^ 32
    → count < 2 ^ 32
    → (epoch_of (pack epoch count) ≡ epoch) × (count_of (pack epoch count) ≡ count)
unfolding pack epoch_of count_of
pack_fields epoch count h k = (omega arith, omega arith)

-- The answers to a run of queries for one key, by the seconds at which they come.
pub domain_run : DomainRateBucket → List ℕ → List RrlAction
domain_run d [] = []
domain_run d (t ∷ ts) = let (d', action) = domain_step t d in action ∷ domain_run d' ts

abbrev pub replicate {ℓ} : {A : Type ℓ} → ℕ → A → List A
replicate zero a = []
replicate (suc n) a = a ∷ replicate n a

-- A bucket with no penalty that has counted nothing in second `t`: a new one, or an old one.
abbrev pub IsIdle : ℕ → DomainRateBucket → Type 0
IsIdle t d =
    (d.penalized_until_sec ≤ t)
    × (epoch_of d.state ≤ t)
    × (epoch_of d.state ≡ t → count_of d.state ≡ 0)

abbrev HasCounted : ℕ → ℕ → DomainRateBucket → Type 0
HasCounted t n d = (d.penalized_until_sec ≤ t) × (epoch_of d.state ≡ t) × (count_of d.state ≡ n)

first_query :
    (t : ℕ) (d : DomainRateBucket)
    → t < 2 ^ 32
    → IsIdle t d
    → ((domain_step t d).1 ≡ allow) × HasCounted t 1 (domain_step t d).0
unfolding domain_step count_query
first_query t d h i = ground (arith, pack_fields t 1 h (omega arith))

second_query :
    (t : ℕ) (d : DomainRateBucket)
    → t < 2 ^ 32
    → HasCounted t 1 d
    → ((domain_step t d).1 ≡ truncate) × HasCounted t 2 (domain_step t d).0
unfolding domain_step count_query
second_query t d h c = ground (arith, pack_fields t 2 h (omega arith))

third_query :
    (t : ℕ) (d : DomainRateBucket)
    → HasCounted t 2 d
    → ((domain_step t d).1 ≡ drop) × ((domain_step t d).0.penalized_until_sec ≡ t + 3)
unfolding domain_step count_query
third_query t d c = ground arith

penalized_query :
    (t : ℕ) (d : DomainRateBucket)
    → t < d.penalized_until_sec
    → ((domain_step t d).1 ≡ drop) × ((domain_step t d).0.penalized_until_sec ≡ t + 3)
unfolding domain_step
penalized_query t d h = ground arith

-- Every query comes less than three seconds after the one before it.
abbrev pub IsPersistent : ℕ → List ℕ → Type 0
IsPersistent until [] = Unit
IsPersistent until (t ∷ ts) = (t < until) × IsPersistent (t + 3) ts

abbrev pub all_drop : List ℕ → List RrlAction
all_drop [] = []
all_drop (t ∷ ts) = drop ∷ all_drop ts

pub domain_run_penalized :
    (d : DomainRateBucket) (ts : List ℕ)
    → IsPersistent d.penalized_until_sec ts
    → domain_run d ts ≡ all_drop ts
unfolding domain_run
domain_run_penalized d [] h = refl
domain_run_penalized d (t ∷ ts) h =
    let (dropped, longer) = penalized_query t d h.0 in
    ap₂ ◌∷◌ dropped (domain_run_penalized (domain_step t d).0 ts (rw longer h.1))

replicate-IsPersistent : (n t : ℕ) → IsPersistent (t + 3) (replicate n t)
replicate-IsPersistent zero t = tt
replicate-IsPersistent (suc n) t = (omega arith, replicate-IsPersistent n t)

all_drop-replicate : (n t : ℕ) → all_drop (replicate n t) ≡ replicate n drop
all_drop-replicate zero t = refl
all_drop-replicate (suc n) t = ap (◌∷◌ drop) (all_drop-replicate n t)

-- Of the queries for one key that come within one second to a bucket with no penalty and no count
-- in that second, the first is answered, the second is challenged to come over TCP, and all later
-- ones are dropped. The second is below 2^32.
pub domain_run_second :
    (n t : ℕ) (d : DomainRateBucket)
    → t < 2 ^ 32
    → IsIdle t d
    → domain_run d (replicate (suc (suc (suc n))) t) ≡ allow ∷ truncate ∷ drop ∷ replicate n drop
unfolding domain_run
domain_run_second n t d h i =
    let (one, counted) = first_query t d h i in
    let d' = (domain_step t d).0 in
    let (two, twice) = second_query t d' h counted in
    let d'' = (domain_step t d').0 in
    let (three, penalty) = third_query t d'' twice in
    ap₂ ◌∷◌ one (
      ap₂ ◌∷◌ two (
        ap₂ ◌∷◌ three (
          domain_run_penalized (domain_step t d'').0 (replicate n t)
            (rw penalty (replicate-IsPersistent n t))
          ∙ all_drop-replicate n t)))

module _ {ℓ} {Name : Type ℓ} (key_of : IpAddr → Name → ℕ → Bytes) where
  -- TCP, DoT and DoH queries are never challenged and never touch the duplicate-domain table.
  pub check_query_streams :
      (rl : RateLimiter) (p : Protocol) (ip : IpAddr) (qname : Name) (qtype now_ms : ℕ)
      → p ≢ udp
      → ((check_query key_of rl p ip qname qtype now_ms).0.rrl_buckets ≡ rl.rrl_buckets)
        × ((check_query key_of rl p ip qname qtype now_ms).1 ≢ truncate)
  unfolding check_query limited_query
  check_query_streams rl p ip qname qtype now_ms h = ground arith

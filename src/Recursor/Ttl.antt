-- ===== src/Recursor/Ttl.antt =====
-- The times to live that the resolver derives from a response (src/recursor.rs).
use rust_encrypted_dns_serve.Base.{
  ℕ, ◌-◌, ◌^◌, ◌≤◌, arith, List, [], ◌∷◌, All, min, ◌==◌, if◌then◌else◌,
}
use rust_encrypted_dns_serve.Wire.Messages.{Record, Message}

abbrev pub u32_max : ℕ
u32_max = 2 ^ 32 - 1

abbrev pub min_delegation_ttl : ℕ
min_delegation_ttl = 300

abbrev pub max_delegation_ttl : ℕ
max_delegation_ttl = 172_800

module _ {Name : Type 0} where
  -- A loop `for r in .. { min_ttl = min_ttl.min(r.ttl()) }`.
  unfoldable pub lower_ttl : ℕ → List (Record Name) → ℕ
  lower_ttl acc [] = acc
  lower_ttl acc (r ∷ rs) = lower_ttl (min acc r.ttl) rs

  unfoldable pub calculate_min_ttl : Message Name → ℕ
  calculate_min_ttl msg =
      let min_ttl =
        lower_ttl (lower_ttl (lower_ttl u32_max msg.answers) msg.name_servers) msg.additionals in
      if min_ttl == u32_max then 300 else min min_ttl 86400

  unfoldable pub delegation_ttl : Message Name → ℕ
  delegation_ttl msg =
      let min_ttl = lower_ttl (lower_ttl u32_max msg.name_servers) msg.additionals in
      if min_ttl == u32_max then min_delegation_ttl else min min_ttl max_delegation_ttl

  pub lower_ttl-le : (acc : ℕ) (rs : List (Record Name)) → lower_ttl acc rs ≤ acc
  unfolding lower_ttl
  lower_ttl-le acc [] = omega arith
  lower_ttl-le acc (r ∷ rs) = omega (arith, lower_ttl-le (min acc r.ttl) rs)

  abbrev pub HasTtlFrom : ℕ → List (Record Name) → Type 0
  HasTtlFrom t rs = All (λ r. t ≤ r.ttl) rs

  HasTtlFrom-weaken :
      (s t : ℕ) (rs : List (Record Name)) → s ≤ t → HasTtlFrom t rs → HasTtlFrom s rs
  HasTtlFrom-weaken s t [] h k = tt
  HasTtlFrom-weaken s t (r ∷ rs) h k = (omega arith, HasTtlFrom-weaken s t rs h k.1)

  lower_ttl-HasTtlFrom : (acc : ℕ) (rs : List (Record Name)) → HasTtlFrom (lower_ttl acc rs) rs
  unfolding lower_ttl
  lower_ttl-HasTtlFrom acc [] = tt
  lower_ttl-HasTtlFrom acc (r ∷ rs) =
      (omega (arith, lower_ttl-le (min acc r.ttl) rs), lower_ttl-HasTtlFrom (min acc r.ttl) rs)

  min_ttl-le :
      (msg : Message Name)
      → let low =
          lower_ttl (lower_ttl (lower_ttl u32_max msg.answers) msg.name_servers) msg.additionals in
        (calculate_min_ttl msg ≤ low) × (calculate_min_ttl msg ≤ 86400)
  unfolding calculate_min_ttl
  min_ttl-le msg = ground arith

  -- The TTL of a response is at most a day, and at most that of each of its records.
  pub calculate_min_ttl-le :
      (msg : Message Name)
      → (calculate_min_ttl msg ≤ 86400)
        × HasTtlFrom (calculate_min_ttl msg) msg.answers
        × HasTtlFrom (calculate_min_ttl msg) msg.name_servers
        × HasTtlFrom (calculate_min_ttl msg) msg.additionals
  calculate_min_ttl-le msg =
      let answers = lower_ttl u32_max msg.answers in
      let servers = lower_ttl answers msg.name_servers in
      let (low, day) = min_ttl-le msg in
      (
        day,
        HasTtlFrom-weaken _ answers msg.answers
            (omega
              (arith, lower_ttl-le servers msg.additionals, lower_ttl-le answers msg.name_servers))
            (lower_ttl-HasTtlFrom u32_max msg.answers),
        HasTtlFrom-weaken _ servers msg.name_servers
            (omega (arith, lower_ttl-le servers msg.additionals))
            (lower_ttl-HasTtlFrom answers msg.name_servers),
        HasTtlFrom-weaken _ _ msg.additionals low (lower_ttl-HasTtlFrom servers msg.additionals),
      )

  -- A delegation is kept for at most two days, and no longer than its records in the authority and
  -- additional sections say.
  pub delegation_ttl-le :
      (msg : Message Name)
      → (delegation_ttl msg ≤ max_delegation_ttl)
        × HasTtlFrom (delegation_ttl msg) msg.name_servers
        × HasTtlFrom (delegation_ttl msg) msg.additionals
  unfolding delegation_ttl
  delegation_ttl-le msg =
      let servers = lower_ttl u32_max msg.name_servers in
      let more = lower_ttl-le servers msg.additionals in
      (
        ground arith,
        HasTtlFrom-weaken _ servers msg.name_servers (ground arith)
            (lower_ttl-HasTtlFrom u32_max msg.name_servers),
        HasTtlFrom-weaken _ _ msg.additionals (ground arith)
            (lower_ttl-HasTtlFrom servers msg.additionals),
      )

-- ===== src/Recursor/Delegation.antt =====
-- The delegations that the resolver remembers (src/recursor.rs). The climb from a name to the root
-- takes as many steps as the name has labels.
use rust_encrypted_dns_serve.Base.{
  ℕ, zero, suc, ◌≤◌, ◌≡◌, refl, arith, true, false, Option, none, some, List, Bytes, bytes_eq, ◌==◌,
  ltb, if◌then◌else◌, Bool-cases, Option-cases, inl, inr, All,
}
use rust_encrypted_dns_serve.Base.Map
use rust_encrypted_dns_serve.Base.Map.{Map}
use rust_encrypted_dns_serve.Wire.Codes.{ds_type}
use rust_encrypted_dns_serve.Wire.Ip.{IpAddr}
use rust_encrypted_dns_serve.Wire.Names.{NameOps}

pub record DelegationEntry : Type 0 where
  pub servers : List IpAddr
  pub expires_at : ℕ

abbrev pub Delegations : Type 0
Delegations = Map Bytes DelegationEntry

module _ {Name : Type 0} (N : NameOps Name) where
  open N use {labels, is_root, base_name, lower_string}

  -- A DS record is its parent's: the climb starts there.
  unfoldable pub start_name : Name → ℕ → Name
  start_name name rtype = if rtype == ds_type then base_name name else name

  abbrev usable : ℕ → Option DelegationEntry → Option (List IpAddr)
  usable now none = none
  usable now (some e) = if ltb now e.expires_at then some e.servers else none

  unfoldable pub find_from : ℕ → ℕ → Delegations → Name → Option (List IpAddr)
  find_from zero now m current = usable now (Map.get (lower_string current) m)
  find_from (suc n) now m current =
      let rest = find_from n now m (base_name current) in
      elim (usable now (Map.get (lower_string current) m)) [
        | some ips ↦ some ips
        | none ↦ if is_root current then none else rest
      ]

  unfoldable pub find_cached_start : ℕ → Delegations → Name → ℕ → Option (List IpAddr)
  find_cached_start now m name rtype =
      let start = start_name name rtype in find_from (labels start) now m start

  unfoldable pub purge_from : ℕ → Delegations → Name → Delegations
  purge_from zero m current = Map.remove (lower_string current) m
  purge_from (suc n) m current =
      let rest = purge_from n m (base_name current) in
      if Map.contains_key (lower_string current) m
      then Map.remove (lower_string current) m
      else if is_root current
      then m
      else rest

  unfoldable pub purge_delegation_for : Delegations → Name → ℕ → Delegations
  purge_delegation_for m name rtype =
      let start = start_name name rtype in purge_from (labels start) m start

  -- The names from one up to the root.
  pub data Encloses (a : Name) : Name → Type 0 where
    itself : Encloses a a
    above : {b : Name} → is_root b ≡ false → Encloses a (base_name b) → Encloses a b

  -- An entry for a name that encloses the given one, and that has not expired.
  abbrev pub Known : ℕ → Delegations → Name → List IpAddr → Type 0
  Known now m name ips =
      (a : Name) × Encloses a name
      × ((e : DelegationEntry) × (Map.get (lower_string a) m ≡ some e)
          × (ltb now e.expires_at ≡ true)
          × (e.servers ≡ ips))

  usable-some :
      (now : ℕ) (o : Option DelegationEntry) {ips : List IpAddr}
      → usable now o ≡ some ips
      → (e : DelegationEntry) × (o ≡ some e) × (ltb now e.expires_at ≡ true) × (e.servers ≡ ips)
  usable-some now none h = absurd (ground arith)
  usable-some now (some e) h = (e, refl, ground arith, ground arith)

  find_from-Known :
      (n now : ℕ) (m : Delegations) (b : Name) {ips : List IpAddr}
      → find_from n now m b ≡ some ips
      → Known now m b ips
  unfolding find_from
  find_from-Known zero now m b h = (b, itself, usable-some now (Map.get (lower_string b) m) h)
  find_from-Known (suc n) now m b h =
      elim (Option-cases (usable now (Map.get (lower_string b) m))) [
        | inr (found, e) ↦ (
          b,
          itself,
          usable-some now (Map.get (lower_string b) m) (rw e (rw (e, find_from) at h)),
        )
        | inl gone ↦ elim (Bool-cases (is_root b)) [
          | inl top ↦ absurd (ground arith)
          | inr lower ↦
              let (a, encloses, known) = find_from-Known n now m (base_name b) (ground arith) in
              (a, above lower encloses, known)
        ]
      ]

  find_from-none :
      (n now : ℕ) (m : Delegations) (b a : Name) (e : DelegationEntry)
      → labels b ≤ n
      → Encloses a b
      → Map.get (lower_string a) m ≡ some e
      → ltb now e.expires_at ≡ true
      → find_from n now m b ≡ none
      → ⊥
  unfolding find_from
  find_from-none zero now m b a e fuel itself found live h = ground arith
  find_from-none (suc n) now m b a e fuel itself found live h = ground arith
  find_from-none zero now m b a e fuel (above lower up) found live h =
      ground (arith, N.is_root_iff b)
  find_from-none (suc n) now m b a e fuel (above lower up) found live h =
      find_from-none n now m (base_name b) a e (ground (arith, N.labels-base_name b)) up found live
        (ground arith)

  -- The search finds the servers of an entry that has not expired, for a name between the start and
  -- the root, and finds nothing only where there is no such entry.
  pub find_cached_start_lem :
      (now : ℕ) (m : Delegations) (name : Name) (rtype : ℕ)
      → ((ips : List IpAddr)
          → find_cached_start now m name rtype ≡ some ips
          → Known now m (start_name name rtype) ips)
        × (find_cached_start now m name rtype ≡ none
            → (ips : List IpAddr) → ¬ Known now m (start_name name rtype) ips)
  unfolding find_cached_start
  find_cached_start_lem now m name rtype =
      let start = start_name name rtype in
      (
        (λ ips h. find_from-Known (labels start) now m start h),
        (λ h ips known.
            let (a, encloses, (e, found, live, _)) = known in
            find_from-none (labels start) now m start a e (omega arith) encloses found live h),
      )

  pub purge_from-All :
      (P : DelegationEntry → Type 0) (n : ℕ) (m : Delegations) (b : Name)
      → All (λ x. P x.1) m
      → All (λ x. P x.1) (purge_from n m b)
  unfolding purge_from
  purge_from-All P zero m b h = Map.All-remove P (lower_string b) m h
  purge_from-All P (suc n) m b h = elim (Bool-cases (Map.contains_key (lower_string b) m)) [
    | inl here ↦ rw (here, if◌then◌else◌) (Map.All-remove P (lower_string b) m h)
    | inr gone ↦
        rw (gone, if◌then◌else◌)
          (elim (Bool-cases (is_root b)) [
            | inl top ↦ rw (top, if◌then◌else◌) h
            | inr lower ↦ rw (lower, if◌then◌else◌) (purge_from-All P n m (base_name b) h)
          ])
  ]

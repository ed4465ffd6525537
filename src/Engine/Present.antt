-- ===== src/Engine/Present.antt =====
-- What a client's response shows of the canonical message (src/engine.rs).
use rust_encrypted_dns_serve.Base.{
  ℕ, ◌-◌, ◌%◌, ◌^◌, ◌≤◌, ◌<◌, ◌≡◌, arith, Bool, true, false, not, List, [], ◌∷◌, All, All-keep_of,
  if◌then◌else◌, Bool-cases, inl, inr, ◌==◌,
}
use rust_encrypted_dns_serve.Wire.Codes.{opt_type}
use rust_encrypted_dns_serve.Wire.Messages.{Record, Message}
use rust_encrypted_dns_serve.Dnssec.Status.{DnssecStatus}
use rust_encrypted_dns_serve.Cache.{CacheEntry, CacheFreshness, freshness_at, is_expired}
use rust_encrypted_dns_serve.Recursor.Ttl.{calculate_min_ttl, calculate_min_ttl-le}
use rust_encrypted_dns_serve.Engine.Ttl.{calculate_cache_ttl, calculate_cache_ttl-le}
use rust_encrypted_dns_serve.Engine.Response.{
  is_dnssec_record, compute_ttl, is_shown, present, without_opt, construct_client_message,
}

served_ttl :
    (e : CacheEntry) (now s t : ℕ)
    → is_expired (freshness_at e now s) ≡ false
    → e.min_ttl ≤ 2 ^ 32
    → e.min_ttl ≤ t
    → 0 < compute_ttl (freshness_at e now s) ((now - e.cached_at) % 2 ^ 32) t
unfolding freshness_at compute_ttl
served_ttl e now s t h small le = ground arith

module _ {Name : Type 0} where
  -- A record that a client without DO may see: an ordinary one, or one of the type it asked for.
  abbrev pub IsPlain : ℕ → Record Name → Type 0
  IsPlain qtype r = is_dnssec_record r.record_type ≡ true → r.record_type ≡ qtype

  is_shown-IsPlain : (qtype : ℕ) (r : Record Name) → is_shown false qtype r ≡ true → IsPlain qtype r
  unfolding is_shown
  is_shown-IsPlain qtype r h d = ground arith

  present-IsPlain :
      (qtype : ℕ) (f : CacheFreshness) (age : ℕ) (rs : List (Record Name))
      → All (IsPlain qtype) (present false qtype f age rs)
  unfolding present
  present-IsPlain qtype f age [] = tt
  present-IsPlain qtype f age (r ∷ rs) = elim (Bool-cases (is_shown false qtype r)) [
    | inl shown ↦
        rw (shown, if◌then◌else◌) (is_shown-IsPlain qtype r shown, present-IsPlain qtype f age rs)
    | inr hidden ↦ rw (hidden, if◌then◌else◌) (present-IsPlain qtype f age rs)
  ]

  -- A client that did not set DO sees no RRSIG, NSEC or NSEC3 in any section, but for the type that
  -- it asked for.
  pub construct-IsPlain :
      (base req : Message Name) (qtype : ℕ) (s : DnssecStatus) (f : CacheFreshness)
      (at max_payload now : ℕ)
      → let m = construct_client_message base qtype s f at req max_payload false now in
        All (IsPlain qtype) m.answers
        × All (IsPlain qtype) m.name_servers
        × All (IsPlain qtype) m.additionals
  unfolding construct_client_message
  construct-IsPlain base req qtype s f at max_payload now = (
    present-IsPlain qtype f _ base.answers,
    present-IsPlain qtype f _ base.name_servers,
    present-IsPlain qtype f _ (without_opt base.additionals),
  )

  present-All :
      (P Q : ℕ → Type 0) (dnssec_ok : Bool) (qtype : ℕ) (f : CacheFreshness) (age : ℕ)
      → ((t : ℕ) → P t → Q (compute_ttl f age t))
      → (rs : List (Record Name)) → All (λ r. P r.ttl) rs
      → All (λ r. Q r.ttl) (present dnssec_ok qtype f age rs)
  unfolding present
  present-All P Q o qtype f age step [] h = tt
  present-All P Q o qtype f age step (r ∷ rs) h = elim (Bool-cases (is_shown o qtype r)) [
    | inl shown ↦
        rw (shown, if◌then◌else◌) (step r.ttl h.0, present-All P Q o qtype f age step rs h.1)
    | inr hidden ↦ rw (hidden, if◌then◌else◌) (present-All P Q o qtype f age step rs h.1)
  ]

  -- Every section of the message meets a condition on its TTLs.
  abbrev pub TtlsMeet : (ℕ → Type 0) → Message Name → Type 0
  TtlsMeet P m =
      All (λ r. P r.ttl) m.answers
      × All (λ r. P r.ttl) m.name_servers
      × All (λ r. P r.ttl) m.additionals

  construct-TtlsMeet :
      (P Q : ℕ → Type 0) (base req : Message Name) (qtype : ℕ) (s : DnssecStatus)
      (f : CacheFreshness) (at max_payload now : ℕ) (dnssec_ok : Bool)
      → ((t : ℕ) → P t → Q (compute_ttl f ((now - at) % 2 ^ 32) t))
      → TtlsMeet P base
      → TtlsMeet Q (construct_client_message base qtype s f at req max_payload dnssec_ok now)
  unfolding construct_client_message
  construct-TtlsMeet P Q base req qtype s f at max_payload now o step (a, n, d) = (
    present-All P Q o qtype f _ step base.answers a,
    present-All P Q o qtype f _ step base.name_servers n,
    present-All P Q o qtype f _ step (without_opt base.additionals)
        (All-keep_of (λ r. P r.ttl) (λ r. not (r.record_type == opt_type)) base.additionals d),
  )

  -- As long as an entry that was made from a canonical message is served, fresh or stale, no record
  -- of it reaches a client with a TTL of 0: the entry stops being fresh before its shortest record
  -- ends, and a stale record gets a positive TTL.
  pub construct_served_ttls :
      (base req : Message Name) (qtype : ℕ) (s : DnssecStatus) (e : CacheEntry)
      (max_payload now max_stale : ℕ) (dnssec_ok : Bool)
      → e.min_ttl ≡ calculate_cache_ttl base s e.cached_at
      → is_expired (freshness_at e now max_stale) ≡ false
      → TtlsMeet
          (λ t. 0 < t)
          (construct_client_message base qtype s
            (freshness_at e now max_stale)
            e.cached_at
            req
            max_payload
            dnssec_ok
            now)
  construct_served_ttls base req qtype s e max_payload now max_stale o made h =
      let low = calculate_cache_ttl-le base s e.cached_at in
      let (day, a, n, d) = calculate_min_ttl-le base in
      construct-TtlsMeet (λ t. calculate_min_ttl base ≤ t) (λ t. 0 < t) base req qtype s
        (freshness_at e now max_stale) e.cached_at max_payload now o
        (λ t le. served_ttl e now max_stale t h (omega arith) (omega arith)) (a, n, d)

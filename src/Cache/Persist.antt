-- ===== src/Cache/Persist.antt =====
-- Loading and saving the cache (src/cache.rs).
use rust_encrypted_dns_serve.Base.{
  ℕ, ◌+◌, ◌≤◌, ◌≡◌, refl, arith, false, Option, none, some, [], ◌∷◌, Bytes, All, length,
  if◌then◌else◌, Bool-cases, inl, inr, bytes_eq, bytes_beq_iff, ◌∙◌,
}
use rust_encrypted_dns_serve.Base.Map
use rust_encrypted_dns_serve.Base.Map.{Map}
use rust_encrypted_dns_serve.Cache.{
  CacheEntry, DnsCache, LoadReport, freshness_at, is_expired, load_entry, load_entries, load_cache,
  save_entries, save_cache,
}
use rust_encrypted_dns_serve.Cache.Freshness.{expired_stays}

abbrev pub total : LoadReport → ℕ
total r = r.inserted + r.discarded_expired + r.discarded_legacy

total-load_entries :
    (now max_stale : ℕ) (raw : Map Bytes (Option CacheEntry)) (r : LoadReport)
    → total (load_entries now max_stale raw r) ≡ total r + length raw
unfolding load_entries load_entry
total-load_entries now s [] r = omega arith
total-load_entries now s ((k, none) ∷ raw) r =
    omega (arith, total-load_entries now s raw (load_entry now s k none r))
total-load_entries now s ((k, some e) ∷ raw) r =
    ground (arith, total-load_entries now s raw (load_entry now s k (some e) r))

abbrev pub IsServable : ℕ → ℕ → CacheEntry → Type 0
IsServable now max_stale e = is_expired (freshness_at e now max_stale) ≡ false

load_entry-IsServable :
    (now s : ℕ) (k : Bytes) (v : Option CacheEntry) (r : LoadReport)
    → All (λ x. IsServable now s x.1) r.cache
    → All (λ x. IsServable now s x.1) (load_entry now s k v r).cache
unfolding load_entry
load_entry-IsServable now s k none r h = h
load_entry-IsServable now s k (some e) r h = elim (Bool-cases (is_expired (freshness_at e now s))) [
  | inl old ↦ rw old h
  | inr ok ↦ rw ok (Map.All-insert (IsServable now s) k e r.cache ok h)
]

load_entries-IsServable :
    (now s : ℕ) (raw : Map Bytes (Option CacheEntry)) (r : LoadReport)
    → All (λ x. IsServable now s x.1) r.cache
    → All (λ x. IsServable now s x.1) (load_entries now s raw r).cache
unfolding load_entries
load_entries-IsServable now s [] r h = h
load_entries-IsServable now s ((k, v) ∷ raw) r h =
    load_entries-IsServable now s raw (load_entry now s k v r) (load_entry-IsServable now s k v r h)

-- Whatever the file holds, loading it into an empty cache leaves only entries that may be served,
-- and every stored value is counted once: as inserted, as expired or as unreadable.
pub load_cache_sound :
    (now s : ℕ) (raw : Map Bytes (Option CacheEntry))
    → All (λ x. IsServable now s x.1) (load_cache now s (some raw) []).cache
      × (total (load_cache now s (some raw) []) ≡ length raw)
unfolding load_cache
load_cache_sound now s raw =
    (load_entries-IsServable now s raw _ tt, omega (arith, total-load_entries now s raw _))

-- What is left of a looked-up entry at a later time.
abbrev pub servable : ℕ → ℕ → Option CacheEntry → Option CacheEntry
servable now s none = none
servable now s (some e) = if is_expired (freshness_at e now s) then none else some e

abbrev or_else : Option CacheEntry → Option CacheEntry → Option CacheEntry
or_else none o = o
or_else (some e) o = some e

-- A map as it stands in the file.
abbrev pub stored : DnsCache → Map Bytes (Option CacheEntry)
stored [] = []
stored ((k, e) ∷ m) = (k, some e) ∷ stored m

get-save_entries :
    (now s : ℕ) (k : Bytes) (items out : DnsCache)
    → Map.Distinct items
    → Map.get k (save_entries now s items out)
      ≡ or_else (servable now s (Map.get k items)) (Map.get k out)
unfolding save_entries
get-save_entries now s k [] out h = refl
get-save_entries now s k ((j, e) ∷ items) out h = ground (
  arith,
  get-save_entries now s k items
      (if is_expired (freshness_at e now s) then out else Map.insert j e out) h.1,
  Map.get-insert j k e out,
  bytes_beq_iff j k,
)

save_entries-Distinct :
    (now s : ℕ) (items out : DnsCache)
    → Map.Distinct out
    → Map.Distinct (save_entries now s items out)
unfolding save_entries
save_entries-Distinct now s [] out h = h
save_entries-Distinct now s ((j, e) ∷ items) out h =
    elim (Bool-cases (is_expired (freshness_at e now s))) [
      | inl old ↦ rw (old, if◌then◌else◌) (save_entries-Distinct now s items out h)
      | inr ok ↦
          rw (ok, if◌then◌else◌)
            (save_entries-Distinct now s items (Map.insert j e out) (Map.insert-Distinct j e out h))
    ]

get-load_entries :
    (now s : ℕ) (k : Bytes) (m : DnsCache) (r : LoadReport)
    → Map.Distinct m
    → Map.get k (load_entries now s (stored m) r).cache
      ≡ or_else (servable now s (Map.get k m)) (Map.get k r.cache)
unfolding load_entries load_entry
get-load_entries now s k [] r h = refl
get-load_entries now s k ((j, e) ∷ m) r h = ground (
  arith,
  get-load_entries now s k m (load_entry now s j (some e) r) h.1,
  Map.get-insert j k e r.cache,
  bytes_beq_iff j k,
)

-- A cache saved at one time and loaded back at a later one answers for each key exactly the entry
-- that it had, unless that has expired by the time of loading.
pub load_cache-save_cache :
    (now later s : ℕ) (k : Bytes) (cache : DnsCache)
    → now ≤ later
    → Map.Distinct cache
    → Map.get k (load_cache later s (some (stored (save_cache now s cache))) []).cache
      ≡ servable later s (Map.get k cache)
unfolding load_cache save_cache
load_cache-save_cache now later s k cache h d =
    get-load_entries later s k (save_entries now s cache []) _
      (save_entries-Distinct now s cache [] tt)
    ∙ rw (get-save_entries now s k cache [] d) (twice (Map.get k cache))
  where
    twice :
        (o : Option CacheEntry)
        → or_else (servable later s (or_else (servable now s o) none)) none ≡ servable later s o
    twice none = refl
    twice (some e) = ground (arith, expired_stays e now later s h)

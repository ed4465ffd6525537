-- ===== src/Cache/Carried.antt =====
-- What an entry has, it keeps through the file (src/cache.rs).
use rust_encrypted_dns_serve.Base.{
  ℕ, Option, none, some, [], ◌∷◌, Bytes, All, if◌then◌else◌, Bool-cases, inl, inr, bytes_eq,
}
use rust_encrypted_dns_serve.Base.Map
use rust_encrypted_dns_serve.Base.Map.{Map}
use rust_encrypted_dns_serve.Cache.{
  CacheEntry, DnsCache, LoadReport, freshness_at, is_expired, load_entry, load_entries, load_cache,
  save_entries, save_cache,
}
use rust_encrypted_dns_serve.Cache.Persist.{stored}

module _ (Q : Bytes → CacheEntry → Type 0) where
  abbrev Has : DnsCache → Type 0
  Has = All (λ x. Q x.0 x.1)

  abbrev Readable : Bytes → Option CacheEntry → Type 0
  Readable k none = Unit {0}
  Readable k (some e) = Q k e

  -- The values of a file that can be read.
  abbrev pub OnDisk : Option (Map Bytes (Option CacheEntry)) → Type 0
  OnDisk none = Unit {0}
  OnDisk (some raw) = All (λ x. Readable x.0 x.1) raw

  stored-Has : (m : DnsCache) → Has m → OnDisk (some (stored m))
  stored-Has [] h = tt
  stored-Has ((k, e) ∷ m) h = (h.0, stored-Has m h.1)

  save_entries-Has :
      (now s : ℕ) (items out : DnsCache) → Has items → Has out → Has (save_entries now s items out)
  unfolding save_entries
  save_entries-Has now s [] out h o = o
  save_entries-Has now s ((k, e) ∷ items) out h o =
      elim (Bool-cases (is_expired (freshness_at e now s))) [
        | inl old ↦ rw (old, if◌then◌else◌) (save_entries-Has now s items out h.1 o)
        | inr ok ↦
            rw (ok, if◌then◌else◌)
              (save_entries-Has now s items (Map.insert k e out) h.1
                (Map.All-insert_at Q k e out h.0 o))
      ]

  pub save_cache-OnDisk :
      (now s : ℕ) (cache : DnsCache) → Has cache → OnDisk (some (stored (save_cache now s cache)))
  unfolding save_cache
  save_cache-OnDisk now s cache h =
      stored-Has (save_cache now s cache) (save_entries-Has now s cache [] h tt)

  load_entry-Has :
      (now s : ℕ) (k : Bytes) (v : Option CacheEntry) (r : LoadReport)
      → Readable k v
      → Has r.cache
      → Has (load_entry now s k v r).cache
  unfolding load_entry
  load_entry-Has now s k none r q h = h
  load_entry-Has now s k (some e) r q h = elim (Bool-cases (is_expired (freshness_at e now s))) [
    | inl old ↦ rw old h
    | inr ok ↦ rw ok (Map.All-insert_at Q k e r.cache q h)
  ]

  load_entries-Has :
      (now s : ℕ) (raw : Map Bytes (Option CacheEntry)) (r : LoadReport)
      → OnDisk (some raw)
      → Has r.cache
      → Has (load_entries now s raw r).cache
  unfolding load_entries
  load_entries-Has now s [] r q h = h
  load_entries-Has now s ((k, v) ∷ raw) r q h =
      load_entries-Has now s raw (load_entry now s k v r) q.1 (load_entry-Has now s k v r q.0 h)

  pub load_cache-Has :
      (now s : ℕ) (disk : Option (Map Bytes (Option CacheEntry))) (cache : DnsCache)
      → OnDisk disk
      → Has cache
      → Has (load_cache now s disk cache).cache
  unfolding load_cache
  load_cache-Has now s none cache q h = h
  load_cache-Has now s (some raw) cache q h = load_entries-Has now s raw _ q h

-- ===== src/Tests/Store.antt =====
-- The theorems on src/cache.rs at concrete entries.
use rust_encrypted_dns_serve.Base.{
  ◌≡◌, refl, arith, Option, none, some, [], ◌∷◌, All, Bytes, bytes_eq,
}
use rust_encrypted_dns_serve.Base.Map
use rust_encrypted_dns_serve.Base.Map.{Map}
use rust_encrypted_dns_serve.Cache.{CacheEntry, DnsCache, load_cache, save_cache}
use rust_encrypted_dns_serve.Cache.Persist.{
  load_cache-save_cache, load_cache_sound, stored, servable, IsServable, total,
}
use rust_encrypted_dns_serve.Tests.Toy.{entry}

abbrev two_entries : DnsCache
two_entries = (1 ∷ [], entry) ∷ (2 ∷ [], record entry { min_ttl = 5 }) ∷ []

load_cache-save_cache_example :
    Map.get
      (2 ∷ [])
      (load_cache 1300 100 (some (stored (save_cache 1050 100 two_entries))) []).cache
    ≡ servable 1300 100 (Map.get (2 ∷ []) two_entries)
load_cache-save_cache_example =
    load_cache-save_cache 1050 1300 100 (2 ∷ []) two_entries (omega arith) (refl, (refl, tt))

abbrev one_unreadable : Map Bytes (Option CacheEntry)
one_unreadable = (1 ∷ [], some entry) ∷ (2 ∷ [], none) ∷ []

load_cache_sound_example :
    All (λ x. IsServable 1300 100 x.1) (load_cache 1300 100 (some one_unreadable) []).cache
    × (total (load_cache 1300 100 (some one_unreadable) []) ≡ 2)
load_cache_sound_example = load_cache_sound 1300 100 one_unreadable

-- ===== src/Cache.antt =====
-- The answer cache, src/cache.rs: entries, their freshness, and what is loaded from and saved to
-- the disk. A key is the bytes of a string; the file's JSON is what serde_json makes of it, so a
-- stored value is `none` where `from_value` fails.
pub mod Persist
pub mod Carried
pub mod Freshness
use rust_encrypted_dns_serve.Base.{
  ℕ, ◌+◌, ◌-◌, ◌*◌, ◌^◌, min, Bool, true, false, Option, none, some, List, [], ◌∷◌, Bytes, bytes_eq,
  ltb, if◌then◌else◌,
}
use rust_encrypted_dns_serve.Base.Map
use rust_encrypted_dns_serve.Base.Map.{Map}
use rust_encrypted_dns_serve.Dnssec.Status.{DnssecStatus}

abbrev pub stale_serve_ttl : ℕ
stale_serve_ttl = 30

pub data CacheFreshness : Type 0 where
  fresh stale expired : CacheFreshness

pub record CacheEntry : Type 0 where
  pub raw_wire : Bytes
  pub min_ttl : ℕ
  pub cached_at : ℕ
  pub last_revalidated_at : ℕ
  pub dnssec_status : DnssecStatus

abbrev pub DnsCache : Type 0
DnsCache = Map Bytes CacheEntry

abbrev u64_max : ℕ
u64_max = 2 ^ 64 - 1

-- `-` on ℕ is `saturating_sub`.
abbrev saturating_add : ℕ → ℕ → ℕ
saturating_add a b = min (a + b) u64_max

unfoldable pub freshness_at : CacheEntry → ℕ → ℕ → CacheFreshness
freshness_at e now max_stale =
    let age = now - e.cached_at in
    if ltb age e.min_ttl
    then fresh
    else if ltb age (saturating_add e.min_ttl max_stale)
    then stale
    else expired

abbrev pub is_expired : CacheFreshness → Bool
is_expired expired = true
is_expired stale = false
is_expired fresh = false

pub record LoadReport : Type 0 where
  pub cache : DnsCache
  pub inserted : ℕ
  pub discarded_expired : ℕ
  pub discarded_legacy : ℕ

-- One round of the loop of `load_cache_from_disk`.
unfoldable pub load_entry : ℕ → ℕ → Bytes → Option CacheEntry → LoadReport → LoadReport
load_entry now max_stale k none r = record r { discarded_legacy = r.discarded_legacy + 1 }
load_entry now max_stale k (some e) r =
    if is_expired (freshness_at e now max_stale)
    then record r { discarded_expired = r.discarded_expired + 1 }
    else record r { cache = Map.insert k e r.cache; inserted = r.inserted + 1 }

unfoldable pub load_entries : ℕ → ℕ → Map Bytes (Option CacheEntry) → LoadReport → LoadReport
load_entries now max_stale [] r = r
load_entries now max_stale ((k, v) ∷ raw) r =
    load_entries now max_stale raw (load_entry now max_stale k v r)

-- `load_cache_from_disk`; `none` is a file that is missing, cannot be opened or is no JSON object.
unfoldable pub load_cache : ℕ → ℕ → Option (Map Bytes (Option CacheEntry)) → DnsCache → LoadReport
load_cache now max_stale none cache = record {
  cache = cache;
  inserted = 0;
  discarded_expired = 0;
  discarded_legacy = 0;
}
load_cache now max_stale (some raw) cache =
    load_entries now max_stale raw
      (record { cache = cache; inserted = 0; discarded_expired = 0; discarded_legacy = 0 })

-- The loop of `save_cache_to_disk_sync`: the map that is written.
unfoldable pub save_entries : ℕ → ℕ → DnsCache → DnsCache → DnsCache
save_entries now max_stale [] out = out
save_entries now max_stale ((k, e) ∷ items) out =
    save_entries now max_stale items
      (if is_expired (freshness_at e now max_stale) then out else Map.insert k e out)

unfoldable pub save_cache : ℕ → ℕ → DnsCache → DnsCache
save_cache now max_stale cache = save_entries now max_stale cache []

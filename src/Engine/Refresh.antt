-- ===== src/Engine/Refresh.antt =====
-- What is stored, and the end of a background revalidation (src/engine.rs).
use rust_encrypted_dns_serve.Base.{ℕ, true, false, ◌&&◌, none, some, Bytes, bytes_eq, if◌then◌else◌}
use rust_encrypted_dns_serve.Base.Map
use rust_encrypted_dns_serve.Wire.Messages.{Message}
use rust_encrypted_dns_serve.Dnssec.Status.{DnssecStatus}
use rust_encrypted_dns_serve.Cache.{DnsCache}
use rust_encrypted_dns_serve.Engine.Response.{is_secure}
use rust_encrypted_dns_serve.Engine.Ttl.{calculate_cache_ttl}
use rust_encrypted_dns_serve.Engine.State.{
  AppState, Env, Job, is_bogus, is_cacheable, is_cacheable_dnssec,
}

module _ {Name : Type 0} (E : Env Name) where
  open E use {to_bytes, resolve, validate}

  -- The entry for a canonical message, as the miss path and the revalidation write it.
  unfoldable pub store : Bytes → Message Name → DnssecStatus → ℕ → DnsCache → DnsCache
  store key msg status now cache = elim (to_bytes msg) [
    | none ↦ cache
    | some wire ↦
        Map.insert key
          (record {
            raw_wire = wire;
            min_ttl = calculate_cache_ttl msg status now;
            cached_at = now;
            last_revalidated_at = now;
            dnssec_status = status;
          })
          cache
  ]

  -- The flags that are set before a message is stored.
  unfoldable pub canonical : DnssecStatus → Message Name → Message Name
  canonical status msg = record msg {
    authentic_data = is_secure status;
    authoritative = false;
    recursion_available = true;
  }

  -- The task of stale-while-revalidate, at the time at which it ends.
  abbrev pub touch : ℕ → Bytes → DnsCache → DnsCache
  touch now key cache = elim (Map.get key cache) [
    | none ↦ cache
    | some e ↦ Map.insert key (record e { last_revalidated_at = now }) cache
  ]

  unfoldable pub revalidated : ℕ → Job Name → Message Name → DnssecStatus → DnsCache → DnsCache
  revalidated now job msg status cache =
      if is_bogus status
      then cache
      else if is_cacheable msg && is_cacheable_dnssec status
      then store job.key (canonical status msg) status now cache
      else touch now job.key cache

  unfoldable pub revalidate : ℕ → Job Name → AppState → AppState
  revalidate now job st =
      let cache : DnsCache = elim (resolve job.qname job.qtype) [
        | none ↦ st.cache
        | some msg ↦ revalidated now job msg (validate msg job.qname job.qtype) st.cache
      ] in
      record st { cache = cache; in_flight = Map.remove job.key st.in_flight }

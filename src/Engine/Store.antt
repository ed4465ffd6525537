-- ===== src/Engine/Store.antt =====
-- Which verdicts the cache holds over any run (src/engine.rs): an instance of `Keeper`.
use rust_encrypted_dns_serve.Base.{ℕ, ◌≡◌, true, Bytes, bytes_eq, All}
use rust_encrypted_dns_serve.Wire.Ip.{IpAddr}
use rust_encrypted_dns_serve.Cache.{CacheEntry, DnsCache}
use rust_encrypted_dns_serve.RateLimit.{Protocol}
use rust_encrypted_dns_serve.Engine.{
  AppState, Env, Job, is_cacheable_dnssec, revalidate, process_dns_query,
}
use rust_encrypted_dns_serve.Engine.Kept.{Keeper, process-Kept, revalidate-Kept, warm-Kept}
use rust_encrypted_dns_serve.Startup.Preload.{warm}

-- Only validated data, and data proven to be unsigned, is stored.
abbrev pub IsValidated : CacheEntry → Type 0
IsValidated e = is_cacheable_dnssec e.dnssec_status ≡ true

abbrev pub AllValidated : DnsCache → Type 0
AllValidated = All (λ x. IsValidated x.1)

module _ {Name : Type 0} (E : Env Name) where
  validated : (now : ℕ) → Keeper E now (λ k n t. Unit {0}) (λ k e. IsValidated e)
  validated now = record {
    keyed = λ n t. tt;
    stored = λ k n t m m' status w key r v good same b. good;
    touched = λ k e h. h;
  }

  pub process-AllValidated :
      (st : AppState) (p : Protocol) (ip : IpAddr) (now_ms now : ℕ) (wire : Bytes)
      → AllValidated st.cache
      → AllValidated (process_dns_query E st p ip now_ms now wire).state.cache
  process-AllValidated st p ip now_ms now wire =
      process-Kept E now (validated now) st p ip now_ms wire

  pub revalidate-AllValidated :
      (now : ℕ) (job : Job Name) (st : AppState)
      → AllValidated st.cache
      → AllValidated (revalidate E now job st).cache
  revalidate-AllValidated now job st = revalidate-Kept E now (validated now) job st tt

  pub warm-AllValidated :
      (now : ℕ) (name : Name) (qtype : ℕ) (cache : DnsCache)
      → AllValidated cache
      → AllValidated (warm E now name qtype cache)
  warm-AllValidated now = warm-Kept E now (validated now)

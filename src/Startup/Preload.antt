-- ===== src/Startup/Preload.antt =====
-- Warming the cache (src/main.rs). The task of a domain looks for its key in the cache as it stands
-- then, and inserts into the cache as it stands when the answer is there; `from_str` reads names.
use rust_encrypted_dns_serve.Base.{
  ℕ, Bool, true, false, ◌||◌, Option, none, some, List, [], ◌∷◌, ◌++◌, Bytes, bytes_eq, ◌==◌,
  if◌then◌else◌,
}
use rust_encrypted_dns_serve.Base.Map
use rust_encrypted_dns_serve.Wire.Codes.{a_type, aaaa_type}
use rust_encrypted_dns_serve.Wire.Messages.{Message}
use rust_encrypted_dns_serve.Dnssec.Status.{
  DnssecStatus, secure, insecure_unsigned, insecure_unknown, bogus,
}
use rust_encrypted_dns_serve.Cache.{DnsCache}
use rust_encrypted_dns_serve.Engine.{Env, is_bogus, is_cacheable, store, cache_key}
use rust_encrypted_dns_serve.Engine.Response.{is_secure}

abbrev pub is_unknown : DnssecStatus → Bool
is_unknown insecure_unknown = true
is_unknown secure = false
is_unknown insecure_unsigned = false
is_unknown bogus = false

-- `ends_with('.')`
abbrev ends_with_dot : Bytes → Bool
ends_with_dot [] = false
ends_with_dot (c ∷ []) = c == b'.'
ends_with_dot (c ∷ d ∷ s) = ends_with_dot (d ∷ s)

unfoldable pub fqdn : Bytes → Bytes
fqdn domain = if ends_with_dot domain then domain else domain ++ (b'.' ∷ [])

module _ {Name : Type 0} where
  -- The flags of the message that is stored.
  unfoldable pub neutral : DnssecStatus → Message Name → Message Name
  neutral status msg = record msg {
    id = 0;
    authoritative = false;
    recursion_available = true;
    recursion_desired = false;
    checking_disabled = false;
    authentic_data = is_secure status;
  }

module _ {Name : Type 0} (E : Env Name) where
  -- What is done with an answer.
  unfoldable pub warm_answer : ℕ → Name → ℕ → Message Name → DnssecStatus → DnsCache → DnsCache
  warm_answer now name qtype msg status cache =
      if is_cacheable msg
      then if is_bogus status || is_unknown status
        then cache
        else store E (cache_key E name qtype) (neutral status msg) status now cache
      else cache

  unfoldable pub warm : ℕ → Name → ℕ → DnsCache → DnsCache
  warm now name qtype cache = elim (E.resolve name qtype) [
    | none ↦ cache
    | some msg ↦ warm_answer now name qtype msg (E.validate msg name qtype) cache
  ]

  -- One round of the loop over the types, with no other task between the look-up and the insertion.
  unfoldable pub preload_type : ℕ → Name → ℕ → DnsCache → DnsCache
  preload_type now name qtype cache =
      if Map.contains_key (cache_key E name qtype) cache then cache else warm now name qtype cache

  unfoldable pub preload_domain : (Bytes → Option Name) → ℕ → Bytes → DnsCache → DnsCache
  preload_domain from_str now domain cache = elim (from_str (fqdn domain)) [
    | none ↦ cache
    | some name ↦ preload_type now name aaaa_type (preload_type now name a_type cache)
  ]

  -- The domains one after the other, each at its time.
  unfoldable pub preload_domains : (Bytes → Option Name) → List (Bytes × ℕ) → DnsCache → DnsCache
  preload_domains from_str [] cache = cache
  preload_domains from_str ((domain, now) ∷ domains) cache =
      preload_domains from_str domains (preload_domain from_str now domain cache)

-- ===== src/Server/Genuine.antt =====
-- What an answer with the AD bit presents (src/engine.rs, src/dnssec.rs).
use rust_encrypted_dns_serve.Base.{
  ℕ, ◌-◌, ◌<◌, ◌≡◌, refl, sym, ◌∙◌, ◌⊎◌, inl, inr, arith, true, Option, some, [], ◌∷◌, Bytes,
  bytes_eq,
}
use rust_encrypted_dns_serve.Base.Map
use rust_encrypted_dns_serve.Wire.Ip.{IpAddr}
use rust_encrypted_dns_serve.Wire.Names.{NameOps}
use rust_encrypted_dns_serve.Wire.Messages.{RData, Query, Message}
use rust_encrypted_dns_serve.Dnssec.Status.{DnssecStatus, secure}
use rust_encrypted_dns_serve.Dnssec.Signing.{Crypto}
use rust_encrypted_dns_serve.Cache.{CacheEntry, CacheFreshness, fresh, freshness_at}
use rust_encrypted_dns_serve.RateLimit.{Protocol}
use rust_encrypted_dns_serve.Engine.{
  Env, Client, canonical, success, tailor, cache_key, process_dns_query,
}
use rust_encrypted_dns_serve.Engine.Response.{construct_client_message, construct_client_response}
use rust_encrypted_dns_serve.Engine.Ttl.{calculate_cache_ttl}
use rust_encrypted_dns_serve.Engine.Outcome.{Source, cached, resolved, process-Source, client_of}
use rust_encrypted_dns_serve.Engine.Kept.{SameRecords, canonical-SameRecords}
use rust_encrypted_dns_serve.Server.{Server, Resolve, env, Run}
use rust_encrypted_dns_serve.Server.Backed.{
  Evident, judge_lem, IsBacked, IsSound, Run-IsSound, env-cache_key,
}

module _ {Name : Type 0} (E : Env Name) where
  current :
      (e : CacheEntry) (now s ttl : ℕ)
      → freshness_at e now s ≡ fresh
      → e.min_ttl ≡ ttl
      → now - e.cached_at < ttl
  unfolding freshness_at
  current e now s ttl f h = ground arith

  -- The message behind an answer, as it is sent to the client.
  abbrev pub Sent : Client Name → Query Name → Message Name → ℕ → ℕ → Message Name
  Sent c q base at now =
      construct_client_message base q.query_type secure fresh at c.req c.max_payload c.dnssec_ok now

  ad_grounds :
      (c : Client Name) (q : Query Name) (base : Message Name) (s : DnssecStatus)
      (f : CacheFreshness) (at now : ℕ)
      → let m =
          construct_client_message base q.query_type s f at c.req c.max_payload c.dnssec_ok now in
        m.authentic_data ≡ true → (s ≡ secure) × (f ≡ fresh)
  unfolding construct_client_message
  ad_grounds c q base s f at now ad = ground arith

  tailor-Sent :
      (c : Client Name) (q : Query Name) (base : Message Name) (s : DnssecStatus)
      (f : CacheFreshness) (at now : ℕ) {w : Bytes}
      → tailor E c q base s f at now ≡ some w
      → (m : Message Name) × (E.to_bytes m ≡ some w)
        × (m.authentic_data ≡ true → (s ≡ secure) × (f ≡ fresh) × (m ≡ Sent c q base at now))
  unfolding tailor construct_client_response
  tailor-Sent c q base s f at now h = (
    construct_client_message base q.query_type s f at c.req c.max_payload c.dnssec_ok now,
    h,
    λ ad. let (is_s, is_f) = ad_grounds c q base s f at now ad in (is_s, is_f, rw (is_s, is_f)),
  )

module _ {Name : Type 0} (N : NameOps Name) (C : Crypto Name)
    (read_dname : RData Name → Option Name) (E : Env Name) where
  -- The message itself but for flags and id, or what the codec reads from its encoding; and, in the
  -- second case, a time at which its records and signatures still last.
  abbrev pub Carries : ℕ → ℕ → Message Name → Message Name → Type 0
  Carries at now base msg =
      ((at ≡ now) × SameRecords base msg)
      ⊎ ((copy : Message Name) × (w : Bytes) × (E.to_bytes copy ≡ some w)
          × (E.read w ≡ some base)
          × SameRecords copy msg
          × (now - at < calculate_cache_ttl copy secure at))

  abbrev pub IsGenuine : Client Name → Query Name → ℕ → Message Name → Type 0
  IsGenuine c q now m =
      (n : Name) × (t : ℕ) × (msg : Message Name) × (base : Message Name) × (at : ℕ) × (cache_key E
          n t
        ≡ cache_key E q.name q.query_type)
      × Evident N C read_dname msg n t at
      × Carries at now base msg
      × (m ≡ Sent E c q base at now)

  abbrev Shown : Client Name → Query Name → ℕ → Bytes → Type 0
  Shown c q now w =
      (m : Message Name) × (E.to_bytes m ≡ some w) × (m.authentic_data ≡ true → IsGenuine c q now m)

  Source-Shown :
      (s : Server Name) (resolve : Resolve Name) (c : Client Name) (q : Query Name) (now : ℕ)
      {w : Bytes}
      → IsSound N C read_dname E s
      → Source (env N C read_dname E resolve now s.validator) s.system.app c q now w
      → Shown c q now w
  Source-Shown s resolve c q now h (cached e base found live bytes built) =
      let F = env N C read_dname E resolve now s.validator in
      let (m, encoded, ad) =
        tailor-Sent F c q base e.dnssec_status (freshness_at e now E.max_stale) e.cached_at now
          built in
      let key = env-cache_key N C read_dname E resolve now s.validator q.name q.query_type in
      let behind =
        Map.All-get_at (IsBacked N C read_dname E) _ s.system.app.cache h.entries found in
      (
        m,
        encoded,
        λ set.
            let (is_s, is_f, sent) = ad set in
            let (n, t, msg, copy, keyed, stored, same, ttl, evident) = behind is_s in
            (
              n,
              t,
              msg,
              base,
              e.cached_at,
              sym keyed ∙ key,
              evident,
              inr (copy, e.raw_wire, stored, bytes, same, current E e now E.max_stale _ is_f ttl),
              sent,
            ),
      )
  Source-Shown s resolve c q now h (resolved msg status r v served built) =
      let F = env N C read_dname E resolve now s.validator in
      let (m, encoded, ad) =
        tailor-Sent F c q (canonical F status msg) status fresh now now built in
      (
        m,
        encoded,
        λ set.
            let (is_s, is_f, sent) = ad set in
            (
              q.name,
              q.query_type,
              msg,
              canonical F status msg,
              now,
              refl,
              (judge_lem N C read_dname resolve now msg q.name q.query_type s.validator h.keys).1
                  (v ∙ is_s),
              inl (refl, canonical-SameRecords F status msg),
              sent,
            ),
      )

  -- In any run of the server, with saves and restarts, from one whose Secure entries, also those in the
  -- file, are backed, whose revalidations have their question's key and whose keys chain to the root's
  -- anchors, as in one that has none of them, an answer with the AD bit presents a message for which
  -- there is the evidence of a Secure verdict (for its answers where it is NOERROR with answers, and
  -- otherwise for a denial), for a question with the same cache key: one that was resolved now, or one
  -- read from the encoding of a message that had the same records when it was stored, and whose TTL
  -- from then is not over. The run leaves such a server.
  pub process-IsGenuine :
      {s t : Server Name} (resolve : Resolve Name) (p : Protocol) (ip : IpAddr) (now_ms now : ℕ)
      (wire : Bytes) (req : Message Name) (q : Query Name) {w : Bytes}
      → IsSound N C read_dname E s
      → Run N C read_dname E s t
      → E.read wire ≡ some req
      → req.queries ≡ q ∷ []
      → (process_dns_query
          (env N C read_dname E resolve now t.validator)
          t.system.app
          p
          ip
          now_ms
          now
          wire).outcome
        ≡ success w
      → IsSound N C read_dname E t
        × (m : Message Name) × (E.to_bytes m ≡ some w)
        × (m.authentic_data ≡ true → IsGenuine (client_of E p ip req) q now m)
  process-IsGenuine {t = t} resolve p ip now_ms now wire req q h run decoded single answered =
      let sound = Run-IsSound N C read_dname E h run in
      let F = env N C read_dname E resolve now t.validator in
      let source =
        process-Source F t.system.app p ip now_ms now wire req q decoded single answered in
      let (m, encoded, ad) = Source-Shown t resolve (client_of E p ip req) q now sound source.0 in
      (sound, m, encoded, ad)

-- ===== src/Engine/Answers.antt =====
-- The promises of the pipeline to one client (src/engine.rs).
use rust_encrypted_dns_serve.Base.{
  ℕ, ◌≤◌, ◌≡◌, ◌≢◌, refl, ◌∙◌, ◌⊎◌, inl, inr, arith, true, false, ◌||◌, Option, none, some, [], ◌∷◌,
  Bytes, bytes_eq, length,
}
use rust_encrypted_dns_serve.Base.Map
use rust_encrypted_dns_serve.Wire.Ip.{IpAddr, is_loopback}
use rust_encrypted_dns_serve.Wire.Messages.{Query, Message, Edns}
use rust_encrypted_dns_serve.Dnssec.Status.{DnssecStatus, secure, bogus}
use rust_encrypted_dns_serve.Cache.{CacheEntry, CacheFreshness, fresh, freshness_at, is_expired}
use rust_encrypted_dns_serve.RateLimit.{Protocol, udp, should_challenge_large_response}
use rust_encrypted_dns_serve.Engine.Response.{construct_client_message, construct_client_response}
use rust_encrypted_dns_serve.Engine.Outcome.{Source, cached, resolved, process-Source, client_of}
use rust_encrypted_dns_serve.Engine.{
  AppState, Env, Client, success, canonical, sized, tailor, cache_key, process_dns_query,
  client_limits, clamp,
}

clamp_range : (o : Option Edns) → (512 ≤ (client_limits o).0) × ((client_limits o).0 ≤ 1232)
unfolding client_limits clamp
clamp_range none = (omega arith, omega arith)
clamp_range (some e) = ground arith

module _ {Name : Type 0} (E : Env Name) where
  sized_udp :
      (c : Client Name) (q : Query Name) (w : Bytes)
      → c.protocol ≡ udp
      → is_loopback c.ip ≡ false
      → sized E c q w ≡ success w
      → length w ≤ c.max_payload
  unfolding sized should_challenge_large_response
  sized_udp c q w p l h = ground arith

  -- An answer over UDP to a client that is not on the loopback is never longer than the buffer
  -- that the client advertised, taken between 512 and 1232 bytes.
  pub process_udp_size :
      (st : AppState) (ip : IpAddr) (now_ms now : ℕ) (wire : Bytes) (req : Message Name)
      (q : Query Name) {w : Bytes}
      → E.read wire ≡ some req
      → req.queries ≡ q ∷ []
      → is_loopback ip ≡ false
      → (process_dns_query E st udp ip now_ms now wire).outcome ≡ success w
      → (length w ≤ (client_limits req.extensions).0) × (length w ≤ 1232)
  process_udp_size st ip now_ms now wire req q {w} decoded single outside h =
      let (source, ok) = process-Source E st udp ip now_ms now wire req q decoded single h in
      let fits = sized_udp (client_of E udp ip req) q w refl outside ok in
      (fits, omega (arith, clamp_range req.extensions))

  -- What vouches for an answer: an entry stored as Secure that is still fresh, or this query's own
  -- resolution, validated as Secure.
  abbrev pub Vouched : AppState → Query Name → ℕ → Type 0
  Vouched st q now =
      ((e : CacheEntry) × (Map.get (cache_key E q.name q.query_type) st.cache ≡ some e)
        × (e.dnssec_status ≡ secure)
        × (freshness_at e now E.max_stale ≡ fresh))
      ⊎ ((msg : Message Name) × (E.resolve q.name q.query_type ≡ some msg)
          × (E.validate msg q.name q.query_type ≡ secure))

  tailor_message :
      (c : Client Name) (q : Query Name) (base : Message Name) (s : DnssecStatus)
      (f : CacheFreshness) (at now : ℕ) {w : Bytes}
      → tailor E c q base s f at now ≡ some w
      → (m : Message Name) × (E.to_bytes m ≡ some w)
        × (m.id ≡ c.req.id)
        × (m.authentic_data ≡ true
            → (s ≡ secure)
              × (f ≡ fresh)
              × (c.req.checking_disabled ≡ false)
              × ((c.dnssec_ok || c.req.authentic_data) ≡ true))
  unfolding tailor construct_client_response construct_client_message
  tailor_message c q base s f at now h = (
    construct_client_message base q.query_type s f at c.req c.max_payload c.dnssec_ok now,
    h,
    refl,
    λ ad. ground arith,
  )

  abbrev pub Promise : AppState → Message Name → Query Name → ℕ → Bytes → Type 0
  Promise st req q now w =
      (m : Message Name) × (E.to_bytes m ≡ some w)
      × (m.id ≡ req.id)
      × (m.authentic_data ≡ true
          → Vouched st q now
            × (req.checking_disabled ≡ false)
            × (((client_limits req.extensions).1 || req.authentic_data) ≡ true))

  Source-Promise :
      (st : AppState) (p : Protocol) (ip : IpAddr) (req : Message Name) (q : Query Name) (now : ℕ)
      (w : Bytes)
      → Source E st (client_of E p ip req) q now w
      → Promise st req q now w
  Source-Promise st p ip req q now w (cached e base found live bytes built) =
      let c = client_of E p ip req in
      let (m, encoded, id, ad) =
        tailor_message c q base e.dnssec_status (freshness_at e now E.max_stale) e.cached_at now
          built in
      (m, encoded, id, λ set. let (s, f, cd, wants) = ad set in (inl (e, found, s, f), cd, wants))
  Source-Promise st p ip req q now w (resolved msg status r v served built) =
      let c = client_of E p ip req in
      let (m, encoded, id, ad) =
        tailor_message c q (canonical E status msg) status fresh now now built in
      (m, encoded, id, λ set. let (s, f, cd, wants) = ad set in (inr (msg, r, v ∙ s), cd, wants))

  -- Every answer carries the client's transaction id, and has the AD bit only for data that a fresh
  -- Secure entry or a Secure resolution of this question vouches for, and only for a client that
  -- asked for it by DO or AD and did not disable checking.
  pub process_answer :
      (st : AppState) (p : Protocol) (ip : IpAddr) (now_ms now : ℕ) (wire : Bytes)
      (req : Message Name) (q : Query Name) {w : Bytes}
      → E.read wire ≡ some req
      → req.queries ≡ q ∷ []
      → (process_dns_query E st p ip now_ms now wire).outcome ≡ success w
      → Promise st req q now w
  process_answer st p ip now_ms now wire req q {w} decoded single h =
      Source-Promise st p ip req q now w
        (process-Source E st p ip now_ms now wire req q decoded single h).0

  -- With enforcement on and checking not disabled, a query whose resolution is Bogus gets no
  -- answer, unless an entry that has not expired is stored for it.
  pub process_bogus :
      (st : AppState) (p : Protocol) (ip : IpAddr) (now_ms now : ℕ) (wire : Bytes)
      (req : Message Name) (q : Query Name) (msg : Message Name) (w : Bytes)
      → E.read wire ≡ some req
      → req.queries ≡ q ∷ []
      → st.dnssec_enforce ≡ true
      → req.checking_disabled ≡ false
      → E.resolve q.name q.query_type ≡ some msg
      → E.validate msg q.name q.query_type ≡ bogus
      → ((e : CacheEntry)
          → Map.get (cache_key E q.name q.query_type) st.cache ≡ some e
          → is_expired (freshness_at e now E.max_stale) ≡ true)
      → (process_dns_query E st p ip now_ms now wire).outcome ≢ success w
  process_bogus st p ip now_ms now wire req q msg w decoded single on cd r v old h =
      refuse (process-Source E st p ip now_ms now wire req q decoded single h).0
    where
      refuse : Source E st (client_of E p ip req) q now w → ⊥
      refuse (cached e base found live bytes built) = cc (old e found)
      refuse (resolved m s r' v' served built) = ground arith

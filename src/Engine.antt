-- ===== src/Engine.antt =====
-- The query pipeline, src/engine.rs: from the bytes of a request to the outcome for its transport.
-- What the pipeline calls is the record `Env`: the codec of hickory-proto, the texts of addresses
-- and types, and the two components that it starts, the resolver and the validator, by the answers
-- that they give to this query. Background revalidation is a job that the query spawns, and whose
-- run is a step of its own.
pub mod Response
pub mod Ttl
mod State
mod Refresh
pub mod Clients
pub mod Malformed
pub mod Present
pub mod Outcome
pub mod Answers
pub mod Kept
pub mod Store
pub mod System
use rust_encrypted_dns_serve.Base.{
  ℕ, ◌*◌, ◌≤◌, Bool, true, false, not, ◌&&◌, ◌||◌, Option, none, some, List, [], ◌∷◌, ◌++◌, Bytes,
  bytes_eq, ◌==◌, ltb, if◌then◌else◌, length,
}
use rust_encrypted_dns_serve.Base.Map
use rust_encrypted_dns_serve.Base.Map.{Map}
use rust_encrypted_dns_serve.Wire.Codes.{no_error, nx_domain}
use rust_encrypted_dns_serve.Wire.Ip.{IpAddr}
use rust_encrypted_dns_serve.Wire.Messages.{Query, Edns, Message}
use rust_encrypted_dns_serve.Dnssec.Status.{
  DnssecStatus, secure, insecure_unsigned, insecure_unknown, bogus,
}
use rust_encrypted_dns_serve.Cache.{
  CacheEntry, CacheFreshness, DnsCache, fresh, stale, expired, freshness_at, is_expired,
}
use rust_encrypted_dns_serve.RateLimit.{
  Protocol, RrlAction, allow, truncate, drop, RateLimiter, check_query,
  should_challenge_large_response,
}
pub use State.{
  AppState, ProcessOutcome, success, serv_fail, truncated, dropped, malformed, Env, Job, Reply,
  Client, is_bogus,
}
unfoldable pub use State.{clamp, client_limits, is_cacheable_dnssec, is_cacheable}
pub use Refresh.{touch}
unfoldable pub use Refresh.{store, canonical, revalidated, revalidate}
use Response.{
  is_secure, construct_client_response, truncated_message, servfail_message, unwrap_or_default,
}

module _ {Name : Type 0} (E : Env Name) where
  open E use {
    read, to_bytes, show_type, show_ip, lower_ascii, lower_string, resolve, validate, max_stale,
  }

  -- `cache_key` and `rrl_key`.
  unfoldable pub cache_key : Name → ℕ → Bytes
  cache_key qname qtype =
      lower_ascii qname ++ (b':' ∷ (show_type qtype ++ (b':' ∷ b'I' ∷ b'N' ∷ [])))

  unfoldable pub rrl_key : IpAddr → Name → ℕ → Bytes
  rrl_key subnet qname qtype =
      show_ip subnet ++ (b':' ∷ (lower_string qname ++ (b':' ∷ show_type qtype)))

  unfoldable pub make_truncated_wire : ℕ → Query Name → Bytes
  make_truncated_wire id q = unwrap_or_default (to_bytes (truncated_message id q))

  unfoldable pub make_servfail_wire : ℕ → Query Name → Bytes
  make_servfail_wire id q = unwrap_or_default (to_bytes (servfail_message id q))

  -- The size check after tailoring.
  unfoldable pub sized : Client Name → Query Name → Bytes → ProcessOutcome
  sized c q wire =
      if should_challenge_large_response c.protocol c.ip (length wire) c.max_payload
      then truncated (make_truncated_wire c.req.id q)
      else success wire

  unfoldable pub tailor :
      Client Name → Query Name → Message Name → DnssecStatus → CacheFreshness → ℕ → ℕ → Option Bytes
  tailor c q base status freshness cached_at now =
      construct_client_response to_bytes base q.query_type status freshness cached_at c.req
        c.max_payload c.dnssec_ok now

  -- The miss path, after resolution and validation.
  unfoldable pub serve_resolved :
      AppState
      → Option (Job Name)
      → Client Name
      → Query Name
      → ℕ
      → Message Name
      → DnssecStatus
      → Reply Name
  serve_resolved st job c q now msg status =
      if is_bogus status && (st.dnssec_enforce && not c.req.checking_disabled)
      then record { state = st; spawned = job; outcome = serv_fail (make_servfail_wire c.req.id q) }
      else (let msg' = canonical E status msg in
          let st' =
            if is_cacheable msg' && is_cacheable_dnssec status
            then record st {
              cache = store E (cache_key q.name q.query_type) msg' status now st.cache;
            }
            else st in
          let wire = tailor c q msg' status fresh now now in
          record {
            state = st';
            spawned = job;
            outcome = elim wire [
              | none ↦ serv_fail (make_servfail_wire c.req.id q)
              | some w ↦ sized c q w
            ];
          })

  unfoldable pub miss : AppState → Option (Job Name) → Client Name → Query Name → ℕ → Reply Name
  miss st job c q now = elim (resolve q.name q.query_type) [
    | none ↦ record {
      state = st;
      spawned = job;
      outcome = serv_fail (make_servfail_wire c.req.id q);
    }
    | some msg ↦ serve_resolved st job c q now msg (validate msg q.name q.query_type)
  ]

  -- `in_flight.insert(..).is_none()`: a stale hit spawns a job unless one is running for its key.
  unfoldable pub trigger : CacheFreshness → Query Name → AppState → AppState × Option (Job Name)
  trigger fresh q st = (st, none)
  trigger expired q st = (st, none)
  trigger stale q st =
      let key = cache_key q.name q.query_type in
      if Map.contains_key key st.in_flight then (st, none) else (
        record st { in_flight = Map.insert key tt st.in_flight },
        some (record { key = key; qname = q.name; qtype = q.query_type }),
      )

  -- The response from an entry; `none` where the stored bytes or the response fail to convert.
  unfoldable pub from_entry :
      Client Name → Query Name → CacheEntry → CacheFreshness → ℕ → Option Bytes
  from_entry c q e freshness now = elim (read e.raw_wire) [
    | none ↦ none
    | some cached ↦ tailor c q cached e.dnssec_status freshness e.cached_at now
  ]

  unfoldable pub hit :
      AppState → Client Name → Query Name → ℕ → CacheEntry → CacheFreshness → Reply Name
  hit st c q now e freshness =
      if is_expired freshness
      then miss st none c q now
      else (let (st', job) = trigger freshness q st in
          elim (from_entry c q e freshness now) [
            | none ↦ miss st' job c q now
            | some wire ↦ record { state = st'; spawned = job; outcome = sized c q wire }
          ])

  unfoldable pub answer : AppState → Client Name → Query Name → ℕ → Reply Name
  answer st c q now = elim (Map.get (cache_key q.name q.query_type) st.cache) [
    | none ↦ miss st none c q now
    | some e ↦ hit st c q now e (freshness_at e now max_stale)
  ]

  unfoldable pub limited : AppState → Client Name → Query Name → ℕ → RrlAction → Reply Name
  limited st c q now allow = answer st c q now
  limited st c q now truncate = record {
    state = st;
    spawned = none;
    outcome = truncated (make_truncated_wire c.req.id q);
  }
  limited st c q now drop = record { state = st; spawned = none; outcome = dropped }

  unfoldable pub process_question :
      AppState → Protocol → IpAddr → ℕ → ℕ → Message Name → Query Name → Reply Name
  process_question st protocol ip now_ms now req q =
      let (max_payload, dnssec_ok) = client_limits req.extensions in
      let c : Client Name = record {
        protocol = protocol;
        ip = ip;
        req = req;
        max_payload = max_payload;
        dnssec_ok = dnssec_ok;
      } in
      let (rl, action) =
        check_query rrl_key st.rate_limiter protocol ip q.name q.query_type now_ms in
      limited (record st { rate_limiter = rl }) c q now action

  abbrev reject : AppState → Reply Name
  reject st = record { state = st; spawned = none; outcome = malformed }

  -- Exactly one question, or the message is malformed.
  unfoldable pub process_questions :
      AppState → Protocol → IpAddr → ℕ → ℕ → Message Name → List (Query Name) → Reply Name
  process_questions st protocol ip now_ms now req (q ∷ []) =
      process_question st protocol ip now_ms now req q
  process_questions st protocol ip now_ms now req _ = reject st

  -- `now_ms` is the clock that the limiter reads, `now` the one that the cache reads.
  unfoldable pub process_dns_query : AppState → Protocol → IpAddr → ℕ → ℕ → Bytes → Reply Name
  process_dns_query st protocol ip now_ms now req_wire = elim (read req_wire) [
    | none ↦ reject st
    | some req ↦ process_questions st protocol ip now_ms now req req.queries
  ]

-- ===== src/Tests/Engine.antt =====
-- The theorems on src/engine.rs at concrete queries.
use rust_encrypted_dns_serve.Base.{
  ℕ, ◌%◌, ◌^◌, ◌≤◌, ◌<◌, ◌≡◌, ◌≢◌, ◌↔◌, refl, true, false, [], ◌∷◌, ◌++◌, All, any,
}
use rust_encrypted_dns_serve.Dnssec.Status.{secure, bogus}
use rust_encrypted_dns_serve.Cache.{freshness_at, fresh}
use rust_encrypted_dns_serve.RateLimit.{
  udp, tcp, check_query, limited_query, to_subnet, use_bucket, refill, acquire, rrl_step,
  domain_step, count_query, pack, epoch_of, count_of, should_challenge_large_response,
}
use rust_encrypted_dns_serve.Wire.Ip.{is_loopback}
use rust_encrypted_dns_serve.Recursor.Ttl.{calculate_min_ttl, lower_ttl}
use rust_encrypted_dns_serve.Engine.Response.{
  construct_client_message, construct_client_response, present, is_shown, is_dnssec_record,
}
use rust_encrypted_dns_serve.Engine.Ttl.{
  calculate_cache_ttl, min_rrsig_validity, bound_by, calculate_cache_ttl_secure, CoversFor,
  rrsig_of, has_expired,
}
use rust_encrypted_dns_serve.Engine.{
  process_dns_query, process_questions, process_question, limited, answer, miss, serve_resolved,
  tailor, sized, canonical, store, cache_key, rrl_key, client_limits, clamp, success, malformed,
  is_cacheable, is_cacheable_dnssec,
}
use rust_encrypted_dns_serve.Engine.Answers.{
  Promise, process_answer, process_bogus, process_udp_size,
}
use rust_encrypted_dns_serve.Engine.Clients.{process_state}
use rust_encrypted_dns_serve.Engine.Malformed.{process_malformed, IsRejected}
use rust_encrypted_dns_serve.Engine.Present.{
  construct-IsPlain, construct_served_ttls, IsPlain, TtlsMeet,
}
use rust_encrypted_dns_serve.Engine.System.{query, here, next, IsConsistent, Reach-IsConsistent}
use rust_encrypted_dns_serve.Tests.Toy.{
  toy, empty_state, old_state, question, client, request, response, entry,
}

process_answer_example :
    Promise (toy secure) empty_state (request 7 0 1 40) question 1000 (7 ∷ 1 ∷ 1 ∷ [])
unfolding process_dns_query process_questions process_question limited answer miss serve_resolved
    tailor sized canonical store cache_key rrl_key client_limits clamp construct_client_response
    construct_client_message present is_shown is_dnssec_record check_query limited_query is_loopback
    to_subnet use_bucket refill acquire rrl_step domain_step count_query pack epoch_of count_of
    should_challenge_large_response is_cacheable is_cacheable_dnssec
process_answer_example =
    process_answer (toy secure) empty_state udp client 1000_000 1000 (7 ∷ 0 ∷ 1 ∷ 40 ∷ [])
      (request 7 0 1 40) question refl refl refl

-- One client asks twice, and the system has no job running.
Reach-IsConsistent_example : IsConsistent {Name = ℕ} (record {
  app =
      (process_dns_query
        (toy secure)
        empty_state
        tcp
        client
        1000_000
        1000
        (7 ∷ 0 ∷ 1 ∷ 40 ∷ [])).state;
  jobs = [];
})
unfolding process_dns_query process_questions process_question limited answer miss serve_resolved
    check_query limited_query is_loopback to_subnet use_bucket refill acquire cache_key store
    is_cacheable is_cacheable_dnssec
Reach-IsConsistent_example =
    Reach-IsConsistent {s = record { app = empty_state; jobs = [] }}
      (record { validated = tt; marked = λ k. refl })
      (next here (query (toy secure) tcp client 1000_000 1000 (7 ∷ 0 ∷ 1 ∷ 40 ∷ [])))

process_bogus_example :
    (process_dns_query
      (toy bogus)
      empty_state
      udp
      client
      1000_000
      1000
      (7 ∷ 0 ∷ 1 ∷ 40 ∷ [])).outcome
    ≢ success (7 ∷ 0 ∷ 1 ∷ [])
unfolding cache_key
process_bogus_example =
    process_bogus (toy bogus) empty_state udp client 1000_000 1000 (7 ∷ 0 ∷ 1 ∷ 40 ∷ [])
      (request 7 0 1 40) question (response 77 0 1) (7 ∷ 0 ∷ 1 ∷ []) refl refl refl refl refl refl
      (λ e found. cc)

-- One client sets DO and a large buffer, the other CD, another id and a small buffer.
process_state_example :
    (process_dns_query (toy secure) old_state udp client 1100_000 1100 (7 ∷ 0 ∷ 1 ∷ 40 ∷ [])).state
    ≡ (process_dns_query (toy secure) old_state udp client 1100_000 1100 (9 ∷ 1 ∷ 0 ∷ 6 ∷ [])).state
unfolding cache_key tailor construct_client_response construct_client_message
process_state_example =
    process_state (toy secure) old_state udp client 1100_000 1100 (7 ∷ 0 ∷ 1 ∷ 40 ∷ [])
      (9 ∷ 1 ∷ 0 ∷ 6 ∷ []) (request 7 0 1 40) (request 9 1 0 6) question refl refl refl refl
      (λ e found base r. (_, refl)) (λ e found base r. (_, refl))

process_udp_size_example : (3 ≤ (client_limits (request 7 0 1 40).extensions).0) × (3 ≤ 1232)
unfolding process_dns_query process_questions process_question limited answer miss serve_resolved
    tailor sized canonical store cache_key rrl_key client_limits clamp construct_client_response
    construct_client_message present is_shown is_dnssec_record check_query limited_query is_loopback
    to_subnet use_bucket refill acquire rrl_step domain_step count_query pack epoch_of count_of
    should_challenge_large_response is_cacheable is_cacheable_dnssec
process_udp_size_example =
    process_udp_size (toy secure) empty_state client 1000_000 1000 (7 ∷ 0 ∷ 1 ∷ 40 ∷ [])
      (request 7 0 1 40) question {w = 7 ∷ 1 ∷ 1 ∷ []} refl refl refl refl

calculate_cache_ttl_secure_example :
    let msg = response 7 0 1 in
    let ttl = calculate_cache_ttl msg secure 1000 in
    (ttl ≤ calculate_min_ttl msg)
    × All (λ r. CoversFor ttl (1000 % 2 ^ 32) (rrsig_of r.rdata)) (msg.answers ++ msg.name_servers)
    × (any (λ r. has_expired (1000 % 2 ^ 32) (rrsig_of r.rdata)) (msg.answers ++ msg.name_servers)
          ≡ true
        → ttl ≡ 0)
calculate_cache_ttl_secure_example = calculate_cache_ttl_secure (response 7 0 1) 1000

process_malformed_example :
    let r = process_dns_query (toy secure) empty_state udp client 1000_000 1000 (4 ∷ []) in
    (r.outcome ≡ malformed ↔ IsRejected (toy secure) (4 ∷ []))
    × (IsRejected (toy secure) (4 ∷ []) → r.state ≡ empty_state)
process_malformed_example =
    process_malformed (toy secure) empty_state udp client 1000_000 1000 (4 ∷ [])

construct-IsPlain_example :
    let m =
      construct_client_message
        (response 77 1 2)
        1
        secure
        fresh
        1000
        (request 7 0 0 40)
        1232
        false
        1100 in
    All (IsPlain 1) m.answers × All (IsPlain 1) m.name_servers × All (IsPlain 1) m.additionals
construct-IsPlain_example =
    construct-IsPlain (response 77 1 2) (request 7 0 0 40) 1 secure fresh 1000 1232 1100

-- The entry of 600 seconds, 700 seconds later: stale, and served.
construct_served_ttls_example :
    TtlsMeet
      (λ t. 0 < t)
      (construct_client_message
        (response 77 1 1)
        1
        secure
        (freshness_at entry 1700 86400)
        1000
        (request 7 0 0 40)
        1232
        false
        1700)
unfolding calculate_cache_ttl calculate_min_ttl lower_ttl min_rrsig_validity bound_by freshness_at
construct_served_ttls_example =
    construct_served_ttls (response 77 1 1) (request 7 0 0 40) 1 secure entry 1232 1700 86400 false
      refl refl

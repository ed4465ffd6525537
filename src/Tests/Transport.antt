-- ===== src/Tests/Transport.antt =====
-- The theorems on src/dns.rs and src/doh.rs at concrete connections and requests.
use rust_encrypted_dns_serve.Base.{
  ℕ, suc, arith, ◌+◌, ◌*◌, ◌≤◌, ◌≡◌, refl, true, none, some, List, [], ◌∷◌, ◌++◌, map, Bytes,
  bytes_beq, leb, if◌then◌else◌, length, take,
}
use rust_encrypted_dns_serve.Base.Text.{codes}
use rust_encrypted_dns_serve.Wire.Ip.{v4, is_loopback}
use rust_encrypted_dns_serve.Dnssec.Status.{secure}
use rust_encrypted_dns_serve.RateLimit.{
  tcp, check_query, limited_query, to_subnet, use_bucket, refill, acquire, rrl_step, domain_step,
  count_query, pack, epoch_of, count_of, should_challenge_large_response,
}
use rust_encrypted_dns_serve.Engine.{
  Env, process_dns_query, process_questions, process_question, limited, answer, miss,
  serve_resolved, hit, trigger, from_entry, tailor, sized, canonical, store, cache_key, rrl_key,
  client_limits, clamp, is_cacheable, is_cacheable_dnssec,
}
use rust_encrypted_dns_serve.Engine.Response.{
  construct_client_message, construct_client_response, present, is_shown, is_dnssec_record,
  compute_ttl,
}
use rust_encrypted_dns_serve.Engine.Ttl.{calculate_cache_ttl, min_rrsig_validity, bound_by}
use rust_encrypted_dns_serve.Recursor.Ttl.{calculate_min_ttl, lower_ttl}
use rust_encrypted_dns_serve.Cache.{freshness_at}
use rust_encrypted_dns_serve.Transport.Stream.{
  Session, handle_length_prefixed_stream, next_request, read_len, query, no_prefix,
}
use rust_encrypted_dns_serve.Transport.Frames.{
  before, deliver, frames, unframe, serve_messages, stream_serves_messages,
}
use rust_encrypted_dns_serve.Transport.Rounds.{is_break, stream_ends}
use rust_encrypted_dns_serve.Transport.Datagram.{handle_datagram, datagram_reply}
use rust_encrypted_dns_serve.Transport.Amplification.{Answers, datagram_sent}
use rust_encrypted_dns_serve.Transport.Doh.{
  Http, HeaderMap, handle_doh_get, handle_doh_post, is_acceptable_media_type, is_dns_message,
  padding,
}
use rust_encrypted_dns_serve.Transport.Methods.{doh_get-post, doh_remote_headers, to_url}
use rust_encrypted_dns_serve.Tests.Toy.{toy, empty_state, client, read}

-- Requests are padded to 12 bytes.
abbrev padded : Env ℕ
padded = record (toy secure) { read = λ s. if leb 12 (length s) then read (take 4 s) else read s }

abbrev ask : ℕ → Bytes
ask id = id ∷ 0 ∷ 1 ∷ 40 ∷ 0 ∷ 0 ∷ 0 ∷ 0 ∷ 0 ∷ 0 ∷ 0 ∷ 0 ∷ []

-- A connection on which another task changes nothing and every write succeeds.
abbrev line : Session ℕ
line = record {
  protocol = tcp;
  client_ip = client;
  env = λ k. padded;
  now_ms = λ k. 1000_000 + 1000 * k;
  now = λ k. 1000 + k;
  others = λ k st. st;
  write = λ k. none;
}

abbrev two : List Bytes
two = ask 7 ∷ ask 8 ∷ []

-- The second query is answered from the cache.
two_replies :
    (serve_messages line 0 empty_state two).replies ≡ (7 ∷ 1 ∷ 1 ∷ []) ∷ (8 ∷ 1 ∷ 1 ∷ []) ∷ []
unfolding serve_messages before deliver query process_dns_query process_questions process_question
    limited answer miss serve_resolved hit trigger from_entry freshness_at tailor sized canonical
    store cache_key rrl_key client_limits clamp construct_client_response construct_client_message
    present is_shown is_dnssec_record check_query limited_query is_loopback to_subnet use_bucket
    refill acquire rrl_step domain_step count_query pack epoch_of count_of
    should_challenge_large_response is_cacheable is_cacheable_dnssec calculate_cache_ttl
    calculate_min_ttl min_rrsig_validity bound_by lower_ttl compute_ttl
two_replies = refl

stream_serves_messages_example :
    let r = (handle_length_prefixed_stream line empty_state (frames two ++ (1 ∷ []))).0 in
    let s = serve_messages line 0 empty_state two in
    (r.written ≡ frames s.replies)
    × (unframe (suc (length r.written)) r.written ≡ some s.replies)
    × (r.state ≡ s.state)
unfolding next_request read_len
stream_serves_messages_example =
    stream_serves_messages line empty_state two (1 ∷ []) no_prefix (λ k. refl) (omega arith) refl

stream_ends_example :
    let r = handle_length_prefixed_stream line empty_state (1 ∷ 2 ∷ 3 ∷ []) in
    (is_break r.1 ≡ true) × (14 * r.0.queries ≤ 3)
stream_ends_example = stream_ends line empty_state (1 ∷ 2 ∷ 3 ∷ [])

-- One datagram of 12 bytes, with a permit.
datagram_sent_example :
    (12 ≤ length (ask 7))
    × (length (ask 7) ≤ 4096)
    × (true ≡ true)
    × Answers padded (ask 7) (7 ∷ 1 ∷ 1 ∷ [])
unfolding handle_datagram datagram_reply process_dns_query process_questions process_question
    limited answer miss serve_resolved tailor sized canonical store cache_key rrl_key client_limits
    clamp construct_client_response construct_client_message present is_shown is_dnssec_record
    check_query limited_query is_loopback to_subnet use_bucket refill acquire rrl_step domain_step
    count_query pack epoch_of count_of should_challenge_large_response is_cacheable
    is_cacheable_dnssec
datagram_sent_example = datagram_sent padded empty_state true client 1000_000 1000 (ask 7) refl refl

abbrev http : Http
http = record {
  parse_ip = λ s. if bytes_beq s (codes "10.0.0.7") then some (v4 10 0 0 7) else none;
  decode = λ s. if bytes_beq s (codes "BwAB+A==") then some (ask 7) else none;
}

abbrev plain : HeaderMap
plain = (codes "content-type", codes "application/dns-message") ∷ []

abbrev forged : HeaderMap
forged = (codes "cf-connecting-ip", codes "10.0.0.7") ∷ plain

doh_get-post_example :
    let post = handle_doh_post http padded empty_state 1000_000 1000 plain client (ask 7) in
    let text = map to_url (codes "BwAB+A") in
    (handle_doh_get http padded empty_state 1000_000 1000 plain client (some text) ≡ post)
    × (handle_doh_get http padded empty_state 1000_000 1000 plain client
          (some (text ++ padding (codes "BwAB+A")))
        ≡ post)
unfolding is_acceptable_media_type is_dns_message
doh_get-post_example =
    doh_get-post http padded empty_state 1000_000 1000 plain client (codes "BwAB+A") (ask 7) refl
      refl (refl, (refl, (refl, (refl, (refl, (refl, tt)))))) refl refl refl

doh_remote_headers_example :
    let get = handle_doh_get http padded empty_state 1000_000 1000 in
    let post = handle_doh_post http padded empty_state 1000_000 1000 in
    (get forged client none ≡ get plain client none)
    × (post forged client (ask 7) ≡ post plain client (ask 7))
unfolding is_loopback
doh_remote_headers_example =
    doh_remote_headers http padded empty_state 1000_000 1000 forged plain client refl none (ask 7)
      refl refl

-- ===== src/Tests/Server.antt =====
-- The theorem on the whole server at a name that is warmed, saved, loaded again and asked for.
use rust_encrypted_dns_serve.Base.{
  ℕ, ◌≡◌, refl, true, none, some, Option, [], ◌∷◌, ◌==◌, if◌then◌else◌,
}
use rust_encrypted_dns_serve.Wire.Codes.{a_type}
use rust_encrypted_dns_serve.Wire.Ip.{v4, is_loopback}
use rust_encrypted_dns_serve.Wire.Messages.{RData, Message, MessageType, new_message}
use rust_encrypted_dns_serve.Dnssec.Status.{secure, can_check_sig, default_budget}
use rust_encrypted_dns_serve.Dnssec.Serial.{rrsig_time_valid, wrapping_sub}
use rust_encrypted_dns_serve.Recursor.Chain.{find_cname}
use rust_encrypted_dns_serve.Recursor.Ttl.{calculate_min_ttl, lower_ttl}
use rust_encrypted_dns_serve.Dnssec.Redirects.{collect_redirection_chain, collect, next_step}
use rust_encrypted_dns_serve.Dnssec.Validation.{
  validate_message, validate_answer, validate_steps, validate_target,
}
use rust_encrypted_dns_serve.Dnssec.Rrset.{validate_rrset, is_candidate, try_candidates, check_keys}
use rust_encrypted_dns_serve.Dnssec.Signing.{
  verify_rrsig, build_tbs, verify_signature, parse_rsa_public_key, compute_key_tag,
  compute_ds_digest, key_tag_matches,
}
use rust_encrypted_dns_serve.Dnssec.Anchors.{matched_keys, matched_by, matches_anchor}
use rust_encrypted_dns_serve.Dnssec.Trust.{build_trust_chain, chain_to, root_step, keys_of}
use rust_encrypted_dns_serve.Dnssec.Negative.{try_sigs, try_keys}
use rust_encrypted_dns_serve.Cache.{
  DnsCache, freshness_at, load_cache, load_entries, load_entry, save_cache, save_entries,
}
use rust_encrypted_dns_serve.Cache.Persist.{stored}
use rust_encrypted_dns_serve.RateLimit.{
  new, udp, check_query, limited_query, to_subnet, use_bucket, refill, acquire, rrl_step,
  domain_step, count_query, pack, epoch_of, count_of, should_challenge_large_response,
}
use rust_encrypted_dns_serve.Engine.Response.{
  construct_client_message, construct_client_response, present, is_shown, is_dnssec_record,
}
use rust_encrypted_dns_serve.Engine.Ttl.{
  calculate_cache_ttl, min_rrsig_validity, bound_by, until_expiry,
}
use rust_encrypted_dns_serve.Engine.{
  Client, process_dns_query, process_questions, process_question, limited, answer, hit, trigger,
  from_entry, tailor, sized, store, cache_key, rrl_key, client_limits, clamp, is_cacheable,
}
use rust_encrypted_dns_serve.Engine.Outcome.{client_of}
use rust_encrypted_dns_serve.Startup.Preload.{warm, warm_answer, neutral}
use rust_encrypted_dns_serve.Server.{Server, judge, env, preload, learn, save, restart, start, next}
use rust_encrypted_dns_serve.Server.Backed.{IsSound}
use rust_encrypted_dns_serve.Server.Genuine.{IsGenuine, process-IsGenuine}
use rust_encrypted_dns_serve.Tests.Net.{numbers}
use rust_encrypted_dns_serve.Tests.Keys.{all_good, signed, upstream, fresh_work}
use rust_encrypted_dns_serve.Tests.Toy.{toy, empty_state, question, client, request}

-- The root signs the address of the name 5.
abbrev host : Message ℕ
host = record new_message {
  message_type = MessageType.response;
  answers = signed 5 a_type (RData.a (v4 1 2 3 4));
}

abbrev found : ℕ → ℕ → Option (Message ℕ)
found n t = if n == 5 then some host else upstream n t

abbrev idle : Server ℕ
idle = record {
  system = record { app = empty_state; jobs = [] };
  validator = record { work = fresh_work; zones = [] };
  disk = none;
}

-- The cache of the server that warms the name.
abbrev warmed : DnsCache
warmed =
    warm (env numbers all_good (λ d. none) (toy secure) found 1000 idle.validator) 1000 5 a_type []

-- It is saved, and the server starts again.
abbrev restarted : Server ℕ
restarted = record idle {
  system = record {
    app = record {
      cache = (load_cache 1060 86400 (some (stored (save_cache 1050 86400 warmed))) []).cache;
      rate_limiter = new 20 10;
      dnssec_enforce = true;
      in_flight = [];
    };
    jobs = [];
  };
  disk = some (stored (save_cache 1050 86400 warmed));
}

abbrev asking : Client ℕ
asking = client_of (toy secure) udp client (request 7 0 1 40)

process-IsGenuine_example :
    IsSound numbers all_good (λ d. none) (toy secure) restarted
    × (m : Message ℕ) × ((toy secure).to_bytes m ≡ some (7 ∷ 1 ∷ 2 ∷ []))
    × (m.authentic_data ≡ true
        → IsGenuine numbers all_good (λ d. none) (toy secure) asking question 1100 m)
unfolding process_dns_query process_questions process_question limited answer hit trigger from_entry
    tailor sized store cache_key rrl_key client_limits clamp construct_client_response
    construct_client_message present is_shown is_dnssec_record check_query limited_query is_loopback
    to_subnet use_bucket refill acquire rrl_step domain_step count_query pack epoch_of count_of
    should_challenge_large_response is_cacheable freshness_at calculate_cache_ttl min_rrsig_validity
    bound_by until_expiry calculate_min_ttl lower_ttl warm warm_answer neutral judge
    validate_message validate_answer collect_redirection_chain collect next_step find_cname
    validate_steps validate_target validate_rrset is_candidate rrsig_time_valid wrapping_sub
    try_candidates check_keys can_check_sig verify_rrsig build_tbs verify_signature
    parse_rsa_public_key build_trust_chain chain_to root_step keys_of matched_keys matched_by
    matches_anchor compute_key_tag compute_ds_digest try_sigs try_keys key_tag_matches
    default_budget load_cache load_entries load_entry save_cache save_entries new
process-IsGenuine_example =
    process-IsGenuine numbers all_good (λ d. none) (toy secure) {s = idle} {t = restarted} found udp
      client 1100_000 1100 (7 ∷ 0 ∷ 1 ∷ 40 ∷ []) (request 7 0 1 40) question {w = 7 ∷ 1 ∷ 2 ∷ []}
      (record { entries = tt; jobs = tt; keys = λ k c gone. cc; saved = tt })
      (next
        (next (next (next start (preload found 1000 5 a_type)) (learn found 1000 host 5 a_type))
          (save 1050))
        (restart 1060 20 10 true))
      refl refl refl

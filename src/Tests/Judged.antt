-- ===== src/Tests/Judged.antt =====
-- The theorem on the validation of whole messages (src/dnssec.rs), and what it finds of two of them.
use rust_encrypted_dns_serve.Base.{ℕ, ◌≤◌, ◌≡◌, refl, none, [], ◌∷◌, ◌++◌, bytes_eq}
use rust_encrypted_dns_serve.Wire.Codes.{ns_type, cname_type, soa_type, nx_domain, in_class}
use rust_encrypted_dns_serve.Wire.Messages.{RData, Message, MessageType, new_message}
use rust_encrypted_dns_serve.Dnssec.Status.{
  secure, default_budget, per_validation_max_sig_checks, can_check_sig,
}
use rust_encrypted_dns_serve.Dnssec.Authentic.{AllAuthentic}
use rust_encrypted_dns_serve.Dnssec.Serial.{rrsig_time_valid, wrapping_sub}
use rust_encrypted_dns_serve.Dnssec.Zones.{Validator}
use rust_encrypted_dns_serve.Dnssec.Signing.{
  verify_rrsig, build_tbs, verify_signature, parse_rsa_public_key, compute_key_tag,
  compute_ds_digest, key_tag_matches,
}
use rust_encrypted_dns_serve.Dnssec.Anchors.{matched_keys, matched_by, matches_anchor}
use rust_encrypted_dns_serve.Dnssec.Trust.{build_trust_chain, chain_to, root_step, keys_of}
use rust_encrypted_dns_serve.Dnssec.Nsec.{
  nsec_covers, bitmap_nodata, closest_from, find_nsec_closest_encloser, check_nsec_nodata,
  check_nsec_wildcard_nodata, check_nsec_nxdomain,
}
use rust_encrypted_dns_serve.Dnssec.Negative.{
  try_sigs, try_keys, verify_negative_rrset, verify_all, validate_nsec, nsec_status,
}
use rust_encrypted_dns_serve.Dnssec.Validation.{
  final_target, validate_denial, validate_negative, validate_message,
}
use rust_encrypted_dns_serve.Dnssec.Judged.{SecuredMessage, validate_message_lem}
use rust_encrypted_dns_serve.Tests.Net.{numbers}
use rust_encrypted_dns_serve.Tests.Keys.{all_good, signed, upstream, fresh_work, denial}

abbrev start : Validator
start = record { work = fresh_work; zones = [] }

-- The root has an address record, and no record of another type.
abbrev no_data : Message ℕ
no_data = record new_message {
  message_type = MessageType.response;
  name_servers = signed 0 soa_type RData.soa ++ denial;
}

validate_message_lem_example :
    let x = validate_message numbers all_good upstream (λ d. none) 1000 no_data 0 ns_type start in
    AllAuthentic numbers all_good x.1.work.key_cache
    × (x.1.work.budget.performed ≤ per_validation_max_sig_checks)
    × (x.0 ≡ secure → SecuredMessage numbers all_good upstream (λ d. none) 1000 no_data 0 ns_type)
unfolding default_budget
validate_message_lem_example =
    validate_message_lem numbers all_good upstream (λ d. none) 1000 no_data 0 ns_type start
      (λ k c found. cc) refl

no_data_secure :
    (validate_message numbers all_good upstream (λ d. none) 1000 no_data 0 ns_type start).0 ≡ secure
unfolding validate_message validate_negative validate_denial final_target rrsig_time_valid
    wrapping_sub can_check_sig verify_rrsig build_tbs verify_signature parse_rsa_public_key
    build_trust_chain chain_to root_step keys_of matched_keys matched_by matches_anchor
    compute_key_tag compute_ds_digest try_sigs try_keys key_tag_matches verify_negative_rrset
    verify_all validate_nsec nsec_status nsec_covers bitmap_nodata closest_from
    find_nsec_closest_encloser check_nsec_nodata check_nsec_wildcard_nodata check_nsec_nxdomain
no_data_secure = refl

-- An alias without a signature in front of the denial: the name 7 is said to be the root's name.
abbrev forged : Message ℕ
forged = record no_data {
  response_code = nx_domain;
  answers =
      record {
        name = 7;
        record_type = cname_type;
        dns_class = in_class;
        ttl = 600;
        rdata = RData.cname 0;
      }
      ∷ [];
}

forged_secure :
    (validate_message numbers all_good upstream (λ d. none) 1000 forged 7 ns_type start).0 ≡ secure
unfolding validate_message validate_negative validate_denial final_target rrsig_time_valid
    wrapping_sub can_check_sig verify_rrsig build_tbs verify_signature parse_rsa_public_key
    build_trust_chain chain_to root_step keys_of matched_keys matched_by matches_anchor
    compute_key_tag compute_ds_digest try_sigs try_keys key_tag_matches verify_negative_rrset
    verify_all validate_nsec nsec_status nsec_covers bitmap_nodata closest_from
    find_nsec_closest_encloser check_nsec_nodata check_nsec_wildcard_nodata check_nsec_nxdomain
forged_secure = refl

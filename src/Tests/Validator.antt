-- ===== src/Tests/Validator.antt =====
-- The theorems on src/dnssec.rs at concrete keys and records.
use rust_encrypted_dns_serve.Base.{
  List, none, ℕ, ◌≤◌, ◌≡◌, ◌↔◌, refl, arith, true, [], ◌∷◌, All, bytes_eq,
}
use rust_encrypted_dns_serve.Wire.Codes.{a_type, ns_type, nsec_type}
use rust_encrypted_dns_serve.Wire.Messages.{Rrsig, Record, RData}
use rust_encrypted_dns_serve.Dnssec.Status.{secure}
use rust_encrypted_dns_serve.Dnssec.Serial.{rrsig_time_valid, rrsig_time_valid_lem}
use rust_encrypted_dns_serve.Dnssec.Negative.{
  validate_nsec, proof_records, nsec_status, verify_all, verify_negative_rrset,
}
use rust_encrypted_dns_serve.Dnssec.Proofs.{Spends, IsSigned}
use rust_encrypted_dns_serve.Dnssec.Evidence.{IsDenied, validate_nsec-IsDenied}
use rust_encrypted_dns_serve.Dnssec.Nsec.{
  nsec_covers, bitmap_nodata, closest_from, find_nsec_closest_encloser, check_nsec_nodata,
  check_nsec_wildcard_nodata, check_nsec_nxdomain,
}
use rust_encrypted_dns_serve.Dnssec.Trust.{build_trust_chain}
use rust_encrypted_dns_serve.Dnssec.Chains.{Trusts, build_trust_chain_lem}
use rust_encrypted_dns_serve.Dnssec.Authentic.{AllAuthentic}
use rust_encrypted_dns_serve.Dnssec.Zones.{Validator}
use rust_encrypted_dns_serve.Dnssec.Rrset.{validate_rrset}
use rust_encrypted_dns_serve.Dnssec.Redirects.{collect_redirection_chain}
use rust_encrypted_dns_serve.Dnssec.Validation.{validate_answer}
use rust_encrypted_dns_serve.Wire.Ip.{v4}
use rust_encrypted_dns_serve.Dnssec.Serial.{wrapping_sub}
use rust_encrypted_dns_serve.Dnssec.Status.{can_check_sig}
use rust_encrypted_dns_serve.Recursor.Chain.{find_cname}
use rust_encrypted_dns_serve.Dnssec.Redirects.{collect, next_step}
use rust_encrypted_dns_serve.Dnssec.Validation.{validate_steps, validate_target}
use rust_encrypted_dns_serve.Dnssec.Rrset.{is_candidate, try_candidates, check_keys}
use rust_encrypted_dns_serve.Dnssec.Signing.{
  verify_rrsig, build_tbs, verify_signature, parse_rsa_public_key, compute_key_tag,
  compute_ds_digest, key_tag_matches,
}
use rust_encrypted_dns_serve.Dnssec.Anchors.{matched_keys, matched_by, matches_anchor}
use rust_encrypted_dns_serve.Dnssec.Trust.{chain_to, root_step, keys_of}
use rust_encrypted_dns_serve.Dnssec.Negative.{try_sigs, try_keys}
use rust_encrypted_dns_serve.Tests.Net.{numbers}
use rust_encrypted_dns_serve.Tests.Keys.{
  all_good, root_key, signature, signed, upstream, fresh_work, denial,
}

-- From a hundred seconds before 2^32 to a hundred seconds after it.
abbrev wrapping : Rrsig ℕ
wrapping = record (signature a_type 0) { sig_inception = 4294967196; sig_expiration = 100 }

rrsig_time_valid_lem_example :
    (rrsig_time_valid wrapping 4294967300 ≡ true)
    ↔ ((4294967196 ≤ 4294967300) × (4294967300 ≤ 4294967396))
rrsig_time_valid_lem_example =
    rrsig_time_valid_lem wrapping 4294967196 4294967396 4294967300 refl refl (omega arith)
      (omega arith) (omega arith) (omega arith) (omega arith) (omega arith)

validate_nsec-IsDenied_example :
    let records = proof_records numbers all_good 1000 nsec_type denial in
    All (IsSigned numbers all_good 1000 denial (root_key ∷ [])) records
    × IsDenied numbers 5 ns_type records
    × Spends fresh_work.budget
        (validate_nsec numbers all_good 1000 (root_key ∷ []) 5 ns_type denial fresh_work.budget).1
unfolding validate_nsec nsec_status nsec_covers bitmap_nodata closest_from
    find_nsec_closest_encloser check_nsec_nodata check_nsec_wildcard_nodata check_nsec_nxdomain
    verify_all verify_negative_rrset try_sigs try_keys can_check_sig verify_rrsig rrsig_time_valid
    wrapping_sub build_tbs verify_signature parse_rsa_public_key compute_key_tag key_tag_matches
validate_nsec-IsDenied_example =
    validate_nsec-IsDenied numbers all_good 1000 (root_key ∷ []) 5 ns_type denial fresh_work.budget
      refl

build_trust_chain_lem_example :
    let r = build_trust_chain numbers all_good upstream 1000 0 fresh_work in
    Trusts numbers all_good upstream 1000 0 r.0
    × AllAuthentic numbers all_good r.1.key_cache
    × Spends fresh_work.budget r.1.budget
build_trust_chain_lem_example =
    build_trust_chain_lem numbers all_good upstream 1000 0 fresh_work (λ k c found. cc)

abbrev start : Validator
start = record { work = fresh_work; zones = [] }

-- The root signs an address record of its own.
abbrev host : List (Record ℕ)
host = signed 0 a_type (RData.a (v4 9 9 9 9))

-- The root's own record is Secure: its key matches the anchor, and the signatures verify.
host_secure :
    (validate_answer numbers all_good upstream (λ d. none) 1000 0 a_type host start).0 ≡ secure
unfolding validate_answer collect_redirection_chain collect next_step find_cname validate_steps
    validate_target validate_rrset is_candidate rrsig_time_valid wrapping_sub try_candidates
    check_keys can_check_sig verify_rrsig build_tbs verify_signature parse_rsa_public_key
    build_trust_chain chain_to root_step keys_of matched_keys matched_by matches_anchor
    compute_key_tag compute_ds_digest try_sigs try_keys key_tag_matches
host_secure = refl

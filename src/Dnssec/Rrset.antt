-- ===== src/Dnssec/Rrset.antt =====
-- The validation of one RRset (src/dnssec.rs).
use rust_encrypted_dns_serve.Base.{
  ℕ, Bool, true, false, ◌&&◌, ◌||◌, Option, List, [], ◌∷◌, ◌==◌, if◌then◌else◌, keep, is_empty,
}
use rust_encrypted_dns_serve.Wire.Names.{NameOps}
use rust_encrypted_dns_serve.Wire.Messages.{Rrsig, Dnskey, Record, Message}
use rust_encrypted_dns_serve.Dnssec.Status.{
  DnssecStatus, secure, insecure_unsigned, insecure_unknown, bogus, ZoneSignedness, signed,
  proven_unsigned, unknown, ValidationBudget, can_check_sig, perform,
}
use rust_encrypted_dns_serve.Dnssec.Serial.{rrsig_time_valid}
use rust_encrypted_dns_serve.Dnssec.Signing.{Crypto, tag_of, verify_rrsig}
use rust_encrypted_dns_serve.Dnssec.Negative.{Search, verified, exhausted, unverified, sigs_of}
use rust_encrypted_dns_serve.Dnssec.Trust.{
  Work, ChainResult, trusted, unsigned, untrusted, build_trust_chain,
}
use rust_encrypted_dns_serve.Dnssec.Zones.{Validator, is_zone_signed}

-- The verdict on an RRset without signatures.
unfoldable pub unsigned_status : ZoneSignedness → DnssecStatus
unsigned_status signed = bogus
unsigned_status proven_unsigned = insecure_unsigned
unsigned_status unknown = insecure_unknown

module _ {Name : Type 0} (N : NameOps Name) (C : Crypto Name)
    (resolve : Name → ℕ → Option (Message Name)) (now : ℕ) where
  open N use {eq, zone_of}

  -- Within its period, by a zone that encloses the owner.
  unfoldable pub is_candidate : Name → Rrsig Name → Bool
  is_candidate owner s =
      rrsig_time_valid s now && (zone_of s.signer_name owner || eq s.signer_name owner)

  -- The trusted keys, each at the cost of a check.
  unfoldable pub check_keys :
      Name
      → List (Record Name)
      → Rrsig Name
      → List Dnskey
      → ValidationBudget
      → Search × ValidationBudget
  check_keys owner target s [] b = (unverified, b)
  check_keys owner target s (k ∷ ks) b =
      let (b', allowed) = can_check_sig b in
      elim allowed [
        | false ↦ (exhausted, b')
        | true ↦ elim (tag_of N C k == s.key_tag) [
          | false ↦ check_keys owner target s ks b'
          | true ↦ elim (verify_rrsig N C s k owner target now) [
            | true ↦ (verified, perform b')
            | false ↦ check_keys owner target s ks (perform b')
          ]
        ]
      ]

  -- One signature: a verdict, or whether a trusted chain was found.
  pub data Tried : Type 0 where
    verdict : DnssecStatus → Work → Tried
    no_verdict : Bool → Work → Tried

  abbrev pub after_keys : Work → Search × ValidationBudget → Tried
  after_keys w (verified, b) = verdict secure (record w { budget = b })
  after_keys w (exhausted, b) = verdict bogus (record w { budget = b })
  after_keys w (unverified, b) = no_verdict true (record w { budget = b })

  abbrev pub after_trust : Name → List (Record Name) → Rrsig Name → ChainResult × Work → Tried
  after_trust owner target s (trusted keys ttl, w) =
      after_keys w (check_keys owner target s keys w.budget)
  after_trust owner target s (unsigned ttl, w) = no_verdict false w
  after_trust owner target s (untrusted, w) = verdict bogus w

  unfoldable pub try_candidates :
      Name → List (Record Name) → Bool → List (Rrsig Name) → Work → DnssecStatus × Work
  try_candidates owner target any_trusted [] w =
      (if any_trusted then bogus else insecure_unsigned, w)
  try_candidates owner target any_trusted (s ∷ ss) w =
      elim (after_trust owner target s (build_trust_chain N C resolve now s.signer_name w)) [
        | verdict v w' ↦ (v, w')
        | no_verdict t w' ↦ try_candidates owner target (any_trusted || t) ss w'
      ]

  unfoldable pub validate_rrset :
      Name → ℕ → List (Record Name) → List (Record Name) → Validator → DnssecStatus × Validator
  validate_rrset owner rtype target all v =
      let sigs = sigs_of N C now owner rtype all in
      if is_empty sigs
      then (let (s, v') = is_zone_signed N C resolve now owner v in (unsigned_status s, v'))
      else if is_empty (keep (is_candidate owner) sigs)
      then (bogus, v)
      else (let (status, w) =
            try_candidates owner target false (keep (is_candidate owner) sigs) v.work in
          (status, record v { work = w }))

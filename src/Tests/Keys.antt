-- ===== src/Tests/Keys.antt =====
-- A cryptography in which every signature verifies and every key has the first anchor's digest, and a
-- root zone with one key.
use rust_encrypted_dns_serve.Base.{
  ℕ, true, Option, none, some, List, [], ◌∷◌, Bytes, ◌==◌, if◌then◌else◌,
}
use rust_encrypted_dns_serve.Wire.Codes.{in_class, dnskey_type, rrsig_type, nsec_type, a_type}
use rust_encrypted_dns_serve.Wire.Messages.{
  Rrsig, Dnskey, RData, Record, Message, MessageType, new_message,
}
use rust_encrypted_dns_serve.Dnssec.Signing.{Crypto}
use rust_encrypted_dns_serve.Dnssec.Anchors.{Anchor, root_trust_anchors}
use rust_encrypted_dns_serve.Dnssec.Trust.{Work}

abbrev first_digest : List Anchor → Bytes
first_digest [] = []
first_digest (a ∷ rest) = a.digest

abbrev pub all_good : Crypto ℕ
all_good = record {
  calculate_key_tag = λ k. some 20326;
  emit_key = λ k. some k.public_bytes;
  emit_owner = λ n. some (n ∷ []);
  emit_name = λ n. some (n ∷ []);
  emit_rdata = λ d. some [];
  wildcard_of = λ n labels. some n;
  sha256 = λ b. first_digest root_trust_anchors;
  sha384 = λ b. [];
  sha1 = λ b. b;
  wire_name = λ n. n ∷ [];
  verify_rsa = λ a e n m s. true;
  verify_key = λ a k m s. true;
  library_verify = λ k m s. true;
}

abbrev pub root_key : Dnskey
root_key = record { flags = 257; algorithm = 8; public_bytes = 3 ∷ [] }

abbrev pub signature : ℕ → ℕ → Rrsig ℕ
signature type_covered signer = record {
  type_covered = type_covered;
  algorithm = 8;
  num_labels = 0;
  original_ttl = 600;
  sig_expiration = 5000;
  sig_inception = 500;
  key_tag = 20326;
  signer_name = signer;
  sig = [];
}

abbrev pub signed : ℕ → ℕ → RData ℕ → List (Record ℕ)
signed name t d =
    record { name = name; record_type = t; dns_class = in_class; ttl = 600; rdata = d }
    ∷ record {
      name = name;
      record_type = rrsig_type;
      dns_class = in_class;
      ttl = 600;
      rdata = RData.rrsig (signature t 0);
    }
    ∷ []

abbrev root_keys : Message ℕ
root_keys = record new_message {
  message_type = MessageType.response;
  answers = signed 0 dnskey_type (RData.dnskey root_key);
}

-- Only the root answers, and only for its keys.
abbrev pub upstream : ℕ → ℕ → Option (Message ℕ)
upstream n t = if n == 0 then (if t == dnskey_type then some root_keys else none) else none

abbrev pub fresh_work : Work
fresh_work = record {
  budget = record { sig_checks = 0; max_sig_checks = 24; performed = 0 };
  key_cache = [];
}

-- The root's denial of what lies between the names 0 and 9.
abbrev pub denial : List (Record ℕ)
denial =
    signed 0 nsec_type (RData.nsec (record { next_domain_name = 9; type_bit_maps = a_type ∷ [] }))

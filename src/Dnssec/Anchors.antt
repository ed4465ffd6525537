-- ===== src/Dnssec/Anchors.antt =====
-- What keys must match: trust anchors and DS records, and the records of a zone (src/dnssec.rs).
use rust_encrypted_dns_serve.Base.{
  ℕ, ◌/◌, ◌%◌, Bool, false, ◌&&◌, ◌||◌, Option, none, some, List, [], ◌∷◌, ◌++◌, Bytes, bytes_beq,
  bytes_eq, ◌==◌, if◌then◌else◌, keep_map,
}
use rust_encrypted_dns_serve.Wire.Names.{NameOps}
use rust_encrypted_dns_serve.Wire.Messages.{Rrsig, Dnskey, Ds, RData, Message}
use rust_encrypted_dns_serve.Dnssec.Signing.{Crypto, tag_of, compute_ds_digest}
use rust_encrypted_dns_serve.Dnssec.Negative.{covering}

-- What a key must match: a trust anchor or a DS record.
pub record Anchor : Type 0 where
  pub tag : ℕ
  pub algorithm : ℕ
  pub digest_type : ℕ
  pub digest : Bytes

-- `ROOT_TRUST_ANCHORS`, with the digests decoded.
abbrev pub root_trust_anchors : List Anchor
root_trust_anchors =
    record {
      tag = 20326;
      algorithm = 8;
      digest_type = 2;
      digest =
          0xe0 ∷ 0x6d ∷ 0x44 ∷ 0xb8 ∷ 0x0b ∷ 0x8f ∷ 0x1d ∷ 0x39 ∷ 0xa9 ∷ 0x5c ∷ 0x0b ∷ 0x0d ∷ 0x7c
          ∷ 0x65 ∷ 0xd0 ∷ 0x84 ∷ 0x58 ∷ 0xe8 ∷ 0x80 ∷ 0x40 ∷ 0x9b ∷ 0xbc ∷ 0x68 ∷ 0x34 ∷ 0x57 ∷ 0x10
          ∷ 0x42 ∷ 0x37 ∷ 0xc7 ∷ 0xf8 ∷ 0xec ∷ 0x8d ∷ [];
    }
    ∷ record {
      tag = 38696;
      algorithm = 8;
      digest_type = 2;
      digest =
          0x68 ∷ 0x3d ∷ 0x2d ∷ 0x0a ∷ 0xcb ∷ 0x8c ∷ 0x9b ∷ 0x71 ∷ 0x2a ∷ 0x19 ∷ 0x48 ∷ 0xb2 ∷ 0x7f
          ∷ 0x74 ∷ 0x12 ∷ 0x19 ∷ 0x29 ∷ 0x8d ∷ 0x0a ∷ 0x45 ∷ 0x0d ∷ 0x61 ∷ 0x2c ∷ 0x48 ∷ 0x3a ∷ 0xf4
          ∷ 0x44 ∷ 0xa4 ∷ 0xc0 ∷ 0xfb ∷ 0x2b ∷ 0x16 ∷ [];
    }
    ∷ []

module _ {Name : Type 0} where
  abbrev pub ds_of : RData Name → Option Ds
  ds_of (RData.ds d) = some d
  ds_of _ = none

  abbrev pub dnskey_of : RData Name → Option Dnskey
  dnskey_of (RData.dnskey k) = some k
  dnskey_of _ = none

-- SHA-256 and SHA-384 digests of keys of the supported algorithms.
unfoldable pub anchor_of : Ds → Option Anchor
anchor_of d =
    if (d.digest_type == 2 || d.digest_type == 4)
      && (d.algorithm == 8
          || d.algorithm == 10
          || d.algorithm == 13
          || d.algorithm == 14
          || d.algorithm == 15
          || d.algorithm == 18)
    then some (record {
      tag = d.key_tag;
      algorithm = d.algorithm;
      digest_type = d.digest_type;
      digest = d.digest;
    })
    else none

-- `flags() & 0x0100`
abbrev pub is_zone_key : Dnskey → Bool
is_zone_key k = k.flags / 256 % 2 == 1

module _ {Name : Type 0} (N : NameOps Name) (C : Crypto Name) where
  open N use {eq}

  abbrev has_digest : Bytes → Option Bytes → Bool
  has_digest d none = false
  has_digest d (some e) = bytes_beq e d

  unfoldable pub matches_anchor : Name → Dnskey → Anchor → Bool
  matches_anchor zone k a =
      a.tag == tag_of N C k
      && a.algorithm == k.algorithm
      && has_digest a.digest (compute_ds_digest N C zone k a.digest_type)

  -- A key for each anchor that it matches.
  unfoldable pub matched_by : Name → Dnskey → List Anchor → List Dnskey
  matched_by zone k [] = []
  matched_by zone k (a ∷ rest) =
      let others = matched_by zone k rest in if matches_anchor zone k a then k ∷ others else others

  unfoldable pub matched_keys : Name → List Anchor → List Dnskey → List Dnskey
  matched_keys zone anchors [] = []
  matched_keys zone anchors (k ∷ ks) = matched_by zone k anchors ++ matched_keys zone anchors ks

  -- `filter(|r| r.name() == zone)`, then the records of one kind.
  abbrev pub ds_records : Name → Message Name → List Ds
  ds_records zone m = keep_map (λ r. if eq r.name zone then ds_of r.rdata else none) m.answers

  abbrev pub zone_keys : Name → Message Name → List Dnskey
  zone_keys zone m = keep_map (λ r. if eq r.name zone then dnskey_of r.rdata else none) m.answers

  abbrev pub sigs_covering : ℕ → Message Name → List (Rrsig Name)
  sigs_covering t m = keep_map (λ r. covering t r.rdata) m.answers

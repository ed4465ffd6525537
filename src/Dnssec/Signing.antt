-- ===== src/Dnssec/Signing.antt =====
-- Keys, digests and signatures (src/dnssec.rs). The hashes, the signature algorithms and the encoder
-- of hickory-proto are the record `Crypto`.
use rust_encrypted_dns_serve.Base.{
  ℕ, zero, suc, ◌+◌, ◌*◌, ◌/◌, ◌%◌, ◌^◌, Bool, true, false, not, ◌&&◌, ◌||◌, Option, none, some,
  List, [], ◌∷◌, ◌++◌, Bytes, ◌==◌, ltb, if◌then◌else◌, any, is_empty, length, take,
}
use rust_encrypted_dns_serve.Wire.Names.{NameOps}
use rust_encrypted_dns_serve.Wire.Messages.{Rrsig, Dnskey, RData, Record}
use rust_encrypted_dns_serve.Recursor.Dname.{drop_bytes}
use rust_encrypted_dns_serve.Dnssec.Serial.{rrsig_time_valid}

pub record Crypto (Name : Type 0) : Type 0 where
  -- `calculate_key_tag` and `emit` of a key
  pub calculate_key_tag : Dnskey → Option ℕ
  pub emit_key : Dnskey → Option Bytes
  -- a name as it is and in lower case, and record data, by the encoder with canonical names
  pub emit_owner : Name → Option Bytes
  pub emit_name : Name → Option Bytes
  pub emit_rdata : RData Name → Option Bytes
  -- `Name::from_str` of `*.` before the last labels of a name
  pub wildcard_of : Name → ℕ → Option Name
  pub sha256 : Bytes → Bytes
  pub sha384 : Bytes → Bytes
  -- NSEC3's SHA-1, by the wire form of a name
  pub sha1 : Bytes → Bytes
  pub wire_name : Name → Bytes
  -- the primitives: RSA by exponent and modulus, the others by the key, and the library's own check
  pub verify_rsa : ℕ → Bytes → Bytes → Bytes → Bytes → Bool
  pub verify_key : ℕ → Bytes → Bytes → Bytes → Bool
  pub library_verify : Dnskey → Bytes → Bytes → Bool

abbrev pub u16_bytes : ℕ → Bytes
u16_bytes n = n / 256 % 256 ∷ n % 256 ∷ []

abbrev pub u32_bytes : ℕ → Bytes
u32_bytes n = n / 16777216 % 256 ∷ n / 65536 % 256 ∷ n / 256 % 256 ∷ n % 256 ∷ []

-- The sum over a key's bytes, those at even places in the upper half of a 16-bit word.
unfoldable pub sum_words : Bytes → ℕ
sum_words [] = 0
sum_words (a ∷ []) = 256 * a
sum_words (a ∷ b ∷ rest) = 256 * a + b + sum_words rest

unfoldable pub fold_tag : ℕ → ℕ
fold_tag ac = (ac + ac / 65536 % 65536) % 65536

unfoldable pub parse_rsa_public_key : Bytes → Option (Bytes × Bytes)
parse_rsa_public_key bytes = elim (exponent_length bytes) [
  | none ↦ none
  | some (exp_len, rest) ↦
      (let modulus = drop_bytes exp_len rest in
        if ltb (length rest) exp_len
        then none
        else if is_empty modulus || ltb (length modulus) 256 || ltb 1024 (length modulus)
        then none
        else some (take exp_len rest, modulus))
]
  where
    exponent_length : Bytes → Option (ℕ × Bytes)
    exponent_length [] = none
    exponent_length (zero ∷ a ∷ b ∷ rest) = some (256 * a + b, rest)
    exponent_length (zero ∷ rest) = none
    exponent_length (suc n ∷ rest) = some (suc n, rest)

-- The order of byte strings, and `sort_by` on a key.
abbrev pub bytes_le : Bytes → Bytes → Bool
bytes_le [] ys = true
bytes_le (x ∷ xs) [] = false
bytes_le (x ∷ xs) (y ∷ ys) = if x == y then bytes_le xs ys else ltb x y

abbrev pub insert_entry : Bytes × Bytes → List (Bytes × Bytes) → List (Bytes × Bytes)
insert_entry e [] = e ∷ []
insert_entry (k, v) ((j, w) ∷ rest) =
    if bytes_le k j then (k, v) ∷ (j, w) ∷ rest else (j, w) ∷ insert_entry (k, v) rest

abbrev pub sort_entries : List (Bytes × Bytes) → List (Bytes × Bytes)
sort_entries [] = []
sort_entries (e ∷ es) = insert_entry e (sort_entries es)

abbrev pub wires : List (Bytes × Bytes) → Bytes
wires [] = []
wires ((k, w) ∷ es) = w ++ wires es

abbrev pub rsa_sha256 : ℕ
rsa_sha256 = 8

abbrev pub rsa_sha512 : ℕ
rsa_sha512 = 10

-- ECDSA P-256 and P-384, Ed25519 and ML-DSA-44.
abbrev pub is_other_algorithm : ℕ → Bool
is_other_algorithm a = a == 13 || a == 14 || a == 15 || a == 18

-- The keys of the two curves get the prefix of an uncompressed point.
abbrev pub key_point : ℕ → Bytes → Bytes
key_point a key = if a == 13 || a == 14 then 4 ∷ key else key

module _ {Name : Type 0} (N : NameOps Name) (C : Crypto Name) where
  open N use {eq, num_labels}
  open C use {
    calculate_key_tag, emit_key, emit_owner, emit_name, emit_rdata, wildcard_of, sha256, sha384,
    verify_rsa, verify_key, library_verify,
  }

  unfoldable pub compute_key_tag : Dnskey → Option ℕ
  compute_key_tag k = elim (calculate_key_tag k) [
    | some tag ↦ some tag
    | none ↦ elim (emit_key k) [ none ↦ none | some buf ↦ some (fold_tag (sum_words buf)) ]
  ]

  abbrev tag_or_max : Option ℕ → ℕ
  tag_or_max none = 65535
  tag_or_max (some t) = t

  -- `compute_key_tag(..).unwrap_or(u16::MAX)`, and `key_tag_matches`.
  abbrev pub tag_of : Dnskey → ℕ
  tag_of k = tag_or_max (compute_key_tag k)

  unfoldable pub key_tag_matches : Dnskey → ℕ → Bool
  key_tag_matches k tag = tag_of k == tag

  unfoldable pub compute_ds_digest : Name → Dnskey → ℕ → Option Bytes
  compute_ds_digest owner k digest_type = elim (emit_owner owner) [
    | none ↦ none
    | some n ↦ elim (emit_key k) [
      | none ↦ none
      | some b ↦
          if digest_type == 2
          then some (sha256 (n ++ b))
          else if digest_type == 4
          then some (sha384 (n ++ b))
          else none
    ]
  ]

  -- A record in the form that is signed, with its data as the key to sort by.
  abbrev entry_of : Rrsig Name → Bytes → Record Name → Option (Bytes × Bytes)
  entry_of sig owner rec = elim (emit_rdata rec.rdata) [
    | none ↦ none
    | some content ↦ some (
      content,
      owner
          ++ u16_bytes rec.record_type
          ++ u16_bytes rec.dns_class
          ++ u32_bytes sig.original_ttl
          ++ u16_bytes (length content % 2 ^ 16)
          ++ content,
    )
  ]

  abbrev entries : Rrsig Name → Bytes → List (Record Name) → Option (List (Bytes × Bytes))
  entries sig owner [] = some []
  entries sig owner (r ∷ rs) = elim (entry_of sig owner r) [
    | none ↦ none
    | some e ↦ elim (entries sig owner rs) [ none ↦ none | some es ↦ some (e ∷ es) ]
  ]

  abbrev or_owner : Name → Option Name → Name
  or_owner owner none = owner
  or_owner owner (some n) = n

  abbrev canonical_owner : Rrsig Name → Name → Name
  canonical_owner sig owner =
      if ltb sig.num_labels (num_labels owner)
      then or_owner owner (wildcard_of owner sig.num_labels)
      else owner

  -- Every record has the type that is signed, the class of the first and the owner.
  abbrev pub is_rrset : Rrsig Name → Name → ℕ → List (Record Name) → Bool
  is_rrset sig owner class records = not (
      any
        (λ r.
          not (r.record_type == sig.type_covered)
          || not (r.dns_class == class)
          || not (eq r.name owner))
        records)

  abbrev header : Rrsig Name → Bytes → Bytes
  header sig signer =
      u16_bytes sig.type_covered
      ++ (sig.algorithm ∷ sig.num_labels ∷ [])
      ++ u32_bytes sig.original_ttl
      ++ u32_bytes sig.sig_expiration
      ++ u32_bytes sig.sig_inception
      ++ u16_bytes sig.key_tag
      ++ signer

  unfoldable pub build_tbs : Rrsig Name → Name → List (Record Name) → Option Bytes
  build_tbs sig owner [] = none
  build_tbs sig owner (r ∷ rs) =
      if is_rrset sig owner r.dns_class (r ∷ rs)
      then (elim (emit_name sig.signer_name) [
        | none ↦ none
        | some signer ↦ elim (emit_name (canonical_owner sig owner)) [
          | none ↦ none
          | some owner_wire ↦ elim (entries sig owner_wire (r ∷ rs)) [
            | none ↦ none
            | some es ↦ some (header sig signer ++ wires (sort_entries es))
          ]
        ]
      ])
      else none

  unfoldable pub verify_signature : ℕ → Bytes → Bytes → Bytes → Bool
  verify_signature algorithm key message sig =
      if algorithm == rsa_sha256 || algorithm == rsa_sha512
      then (elim (parse_rsa_public_key key) [
        | none ↦ false
        | some (exponent, modulus) ↦ verify_rsa algorithm exponent modulus message sig
      ])
      else is_other_algorithm algorithm
        && verify_key algorithm (key_point algorithm key) message sig

  unfoldable pub verify_rrsig : Rrsig Name → Dnskey → Name → List (Record Name) → ℕ → Bool
  verify_rrsig sig k owner records now =
      if not (rrsig_time_valid sig now)
      then false
      else if not (sig.algorithm == k.algorithm)
      then false
      else (elim (build_tbs sig owner records) [
        | none ↦ false
        | some tbs ↦
            verify_signature sig.algorithm k.public_bytes tbs sig.sig
            || library_verify k tbs sig.sig
      ])

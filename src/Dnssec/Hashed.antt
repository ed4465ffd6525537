-- ===== src/Dnssec/Hashed.antt =====
-- Proofs of non-existence by NSEC3 records (src/dnssec.rs).
use rust_encrypted_dns_serve.Base.{
  ℕ, zero, suc, ◌+◌, ◌-◌, ◌*◌, ◌/◌, ◌%◌, ◌^◌, Bool, true, false, not, ◌&&◌, ◌||◌, Option, none,
  some, List, [], ◌∷◌, ◌++◌, Bytes, bytes_beq, ◌==◌, leb, if◌then◌else◌, any, find, find_map,
  length,
}
use rust_encrypted_dns_serve.Wire.Codes.{cname_type, ds_type}
use rust_encrypted_dns_serve.Wire.Names.{NameOps}
use rust_encrypted_dns_serve.Wire.Messages.{Nsec3, RData, Record}
use rust_encrypted_dns_serve.Recursor.Dname.{trim_end_dots, split_dots}
use rust_encrypted_dns_serve.Dnssec.Status.{DnssecStatus, secure, insecure_unsigned, bogus}
use rust_encrypted_dns_serve.Dnssec.Signing.{Crypto, bytes_le}
use rust_encrypted_dns_serve.Dnssec.Nsec.{max_closest_encloser_steps, has_type, bitmap_nodata}

-- The place of an upper-case letter or digit in the alphabet `0-9A-V`.
abbrev pub base32hex_value : ℕ → Option ℕ
base32hex_value c =
    if leb 48 c && leb c 57
    then some (c - 48)
    else if leb 65 c && leb c 86
    then some (c - 55)
    else none

abbrev pub to_upper : ℕ → ℕ
to_upper c = if leb 97 c && leb c 122 then c - 32 else c

-- The loop of `base32hex_decode`, with its accumulator of 64 bits.
unfoldable pub decode_bits : ℕ → ℕ → Bytes → Option Bytes
decode_bits bits count [] = some []
decode_bits bits count (c ∷ s) = elim (base32hex_value (to_upper c)) [
  | none ↦ none
  | some val ↦
      (let bits' = (bits * 32 + val) % 2 ^ 64 in
        elim (leb 8 (count + 5)) [
          | false ↦ decode_bits bits' (count + 5) s
          | true ↦ elim (decode_bits bits' (count + 5 - 8) s) [
            | none ↦ none
            | some out ↦ some (bits' / 2 ^ (count + 5 - 8) % 256 ∷ out)
          ]
        ])
]

unfoldable pub base32hex_decode : Bytes → Option Bytes
base32hex_decode s = decode_bits 0 0 s

abbrev first_label : List Bytes → Bytes
first_label [] = []
first_label (l ∷ ls) = l

abbrev sized_20 : Option Bytes → Option Bytes
sized_20 none = none
sized_20 (some h) = if length h == 20 then some h else none

abbrev pub is_hash : Bytes → Option Bytes → Bool
is_hash h none = false
is_hash h (some k) = bytes_beq k h

module _ {Name : Type 0} where
  abbrev pub nsec3_of : RData Name → Option Nsec3
  nsec3_of (RData.nsec3 n) = some n
  nsec3_of _ = none

-- An owner's hash and the next one, as a segment of the circle of hashes.
unfoldable pub hash_covers : Bytes → Bytes → Bytes → Bool
hash_covers owner next target =
    if bytes_le owner next
    then bytes_le owner target && not (bytes_le next target)
    else bytes_le owner target || not (bytes_le next target)

abbrev pub rehash : (Bytes → Bytes) → Bytes → ℕ → Bytes → Bytes
rehash sha1 salt zero hash = hash
rehash sha1 salt (suc n) hash = rehash sha1 salt n (sha1 (hash ++ salt))

module _ {Name : Type 0} (N : NameOps Name) (C : Crypto Name) where
  open N use {eq, is_root, base_name, labels, wildcard, text}
  open C use {sha1, wire_name}

  unfoldable pub nsec3_owner_hash : Record Name → Option Bytes
  nsec3_owner_hash r =
      sized_20 (base32hex_decode (first_label (split_dots (trim_end_dots (text r.name)))))

  unfoldable pub nsec3_covers : Record Name → Bytes → Bool
  nsec3_covers r target = elim (nsec3_owner_hash r) [
    | none ↦ false
    | some owner ↦ elim (nsec3_of r.rdata) [
      | none ↦ false
      | some n ↦ hash_covers owner n.next_hashed_owner_name target
    ]
  ]

  unfoldable pub nsec3_hash : Name → Bytes → ℕ → Bytes
  nsec3_hash name salt iterations = rehash sha1 salt iterations (sha1 (wire_name name ++ salt))

  abbrev pub matches_hash : Bytes → Record Name → Bool
  matches_hash h r = is_hash h (nsec3_owner_hash r)

  unfoldable pub provable_from : ℕ → List (Record Name) → Bytes → ℕ → Name → Option Name
  provable_from zero records salt iterations cur = none
  provable_from (suc n) records salt iterations cur =
      let rest = provable_from n records salt iterations (base_name cur) in
      if any (matches_hash (nsec3_hash cur salt iterations)) records
      then some cur
      else if is_root cur
      then none
      else rest

  unfoldable pub find_nsec3_closest_provable_encloser :
      Name → List (Record Name) → Bytes → ℕ → Option Name
  find_nsec3_closest_provable_encloser qname records salt iterations =
      provable_from max_closest_encloser_steps records salt iterations qname

  abbrev nsec3_nodata_at : Bytes → ℕ → Record Name → Option DnssecStatus
  nsec3_nodata_at hashed qtype r =
      if matches_hash hashed r
      then (elim (nsec3_of r.rdata) [ none ↦ none | some n ↦ bitmap_nodata qtype n.type_bit_maps ])
      else none

  unfoldable pub check_nsec3_nodata :
      Name → ℕ → List (Record Name) → Bytes → ℕ → Option DnssecStatus
  check_nsec3_nodata qname qtype records salt iterations =
      find_map (nsec3_nodata_at (nsec3_hash qname salt iterations) qtype) records

  unfoldable pub check_nsec3_wildcard_nodata :
      Name → ℕ → List (Record Name) → Bytes → ℕ → Option DnssecStatus
  check_nsec3_wildcard_nodata closest qtype records salt iterations =
      elim (find (matches_hash (nsec3_hash (wildcard closest) salt iterations)) records) [
        | none ↦ none
        | some r ↦ elim (nsec3_of r.rdata) [
          | none ↦ none
          | some n ↦
              if has_type qtype n.type_bit_maps || has_type cname_type n.type_bit_maps
              then none
              else some secure
        ]
      ]

  -- The loop for the name one label below the encloser; `none` where the root is passed. It ends
  -- within as many rounds as the name has labels.
  unfoldable pub next_closer_from : ℕ → Name → Name → Option Name
  next_closer_from zero closest n = if eq (base_name n) closest then some n else none
  next_closer_from (suc f) closest n =
      let rest = next_closer_from f closest (base_name n) in
      if eq (base_name n) closest then some n else if eq (base_name n) n then none else rest

  abbrev is_opt_out : Option Nsec3 → Bool
  is_opt_out none = false
  is_opt_out (some n) = n.flags % 2 == 1

  unfoldable pub check_nsec3_nxdomain :
      Name → Name → ℕ → List (Record Name) → Bytes → ℕ → Option DnssecStatus
  check_nsec3_nxdomain qname closest qtype records salt iterations =
      elim (next_closer_from (labels qname) closest qname) [
        | none ↦ some bogus
        | some next_closer ↦
            elim (find (λ r. nsec3_covers r (nsec3_hash next_closer salt iterations)) records) [
              | none ↦ none
              | some covering ↦
                  if is_opt_out (nsec3_of covering.rdata) && qtype == ds_type
                  then some insecure_unsigned
                  else if any (λ r. nsec3_covers r (nsec3_hash (wildcard closest) salt iterations))
                      records
                  then some secure
                  else some bogus
            ]
      ]

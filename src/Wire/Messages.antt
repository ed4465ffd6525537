-- ===== src/Wire/Messages.antt =====
-- Records and messages.
use rust_encrypted_dns_serve.Base.{ℕ, Bool, false, Bytes, List, [], Option, none}
use rust_encrypted_dns_serve.Wire.Codes.{no_error, query_op}
use rust_encrypted_dns_serve.Wire.Ip.{IpAddr}

-- The fields of an RRSIG; the times are 32-bit serial numbers.
pub record Rrsig (Name : Type 0) : Type 0 where
  pub type_covered : ℕ
  pub algorithm : ℕ
  pub num_labels : ℕ
  pub original_ttl : ℕ
  pub sig_expiration : ℕ
  pub sig_inception : ℕ
  pub key_tag : ℕ
  pub signer_name : Name
  pub sig : Bytes

pub record Nsec (Name : Type 0) : Type 0 where
  pub next_domain_name : Name
  pub type_bit_maps : List ℕ

pub record Nsec3 : Type 0 where
  pub hash_algorithm : ℕ
  pub flags : ℕ
  pub iterations : ℕ
  pub salt : Bytes
  pub next_hashed_owner_name : Bytes
  pub type_bit_maps : List ℕ

pub record Dnskey : Type 0 where
  pub flags : ℕ
  pub algorithm : ℕ
  pub public_bytes : Bytes

pub record Ds : Type 0 where
  pub key_tag : ℕ
  pub algorithm : ℕ
  pub digest_type : ℕ
  pub digest : Bytes

-- The cases of `RData` that the source matches on.
pub data RData (Name : Type 0) : Type 0 where
  a : IpAddr → RData Name
  aaaa : IpAddr → RData Name
  ns : Name → RData Name
  cname : Name → RData Name
  soa : RData Name
  rrsig : Rrsig Name → RData Name
  nsec : Nsec Name → RData Name
  nsec3 : Nsec3 → RData Name
  dnskey : Dnskey → RData Name
  ds : Ds → RData Name
  other : Bytes → RData Name

pub record Record (Name : Type 0) : Type 0 where
  pub name : Name
  pub record_type : ℕ
  pub dns_class : ℕ
  pub ttl : ℕ
  pub rdata : RData Name

pub record Query (Name : Type 0) : Type 0 where
  pub name : Name
  pub query_type : ℕ
  pub query_class : ℕ

pub record Edns : Type 0 where
  pub max_payload : ℕ
  pub dnssec_ok : Bool
  pub version : ℕ

pub data MessageType : Type 0 where
  query response : MessageType

pub record Message (Name : Type 0) : Type 0 where
  pub id : ℕ
  pub message_type : MessageType
  pub op_code : ℕ
  pub authoritative : Bool
  pub truncated : Bool
  pub recursion_desired : Bool
  pub recursion_available : Bool
  pub authentic_data : Bool
  pub checking_disabled : Bool
  pub response_code : ℕ
  pub queries : List (Query Name)
  pub answers : List (Record Name)
  pub name_servers : List (Record Name)
  pub additionals : List (Record Name)
  pub extensions : Option Edns

-- `Message::new()`: a query with every flag clear and every section empty.
abbrev pub new_message : {Name : Type 0} → Message Name
new_message = record {
  id = 0;
  message_type = MessageType.query;
  op_code = query_op;
  authoritative = false;
  truncated = false;
  recursion_desired = false;
  recursion_available = false;
  authentic_data = false;
  checking_disabled = false;
  response_code = no_error;
  queries = [];
  answers = [];
  name_servers = [];
  additionals = [];
  extensions = none;
}

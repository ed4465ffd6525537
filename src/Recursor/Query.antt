-- ===== src/Recursor/Query.antt =====
-- One upstream query, and the race over the servers of a zone (src/recursor.rs). The network is the
-- record `Net`: what UDP and TCP deliver, the transaction ids, the shuffles and the order in which
-- racing queries end, each by the number of the race.
use rust_encrypted_dns_serve.Base.{
  ℕ, Bool, true, false, not, ◌&&◌, ◌||◌, Option, none, some, List, [], ◌∷◌, ◌++◌, Bytes, ◌==◌, leb,
  ltb, if◌then◌else◌, keep, length,
}
use rust_encrypted_dns_serve.Wire.Codes.{no_error, nx_domain, form_err, query_op, in_class}
use rust_encrypted_dns_serve.Wire.Ip.{IpAddr, is_ipv4}
use rust_encrypted_dns_serve.Wire.Names.{NameOps}
use rust_encrypted_dns_serve.Wire.Messages.{Query, RData, Record, Message, MessageType}
use rust_encrypted_dns_serve.Recursor.Safe.{is_safe_upstream_ip}

pub record Net (Name : Type 0) : Type 0 where
  -- `Message::read`; `Name::read` on the data of a DNAME record; `==` on records
  pub read : Bytes → Option (Message Name)
  pub same_record : Record Name → Record Name → Bool
  pub read_dname : RData Name → Option Name
  -- the datagram that answers, and the frame that answers over TCP to the first and the second
  -- attempt, `none` for an error or a timeout
  pub udp : ℕ → IpAddr → Name → ℕ → Option Bytes
  pub tcp : ℕ → Bool → IpAddr → Name → ℕ → Option Bytes
  pub txid : ℕ → IpAddr → ℕ
  -- `shuffle`, and the order in which the members of a batch end
  pub shuffle : ℕ → List IpAddr → List IpAddr
  pub order : ℕ → List IpAddr → List IpAddr
  -- `now_secs()`
  pub clock : ℕ → ℕ

abbrev pub is_response : MessageType → Bool
is_response MessageType.response = true
is_response MessageType.query = false

-- Bytes 10 and 11 of the header, ARCOUNT, set to zero.
abbrev clear_arcount : Bytes → Bytes
clear_arcount (a ∷ b ∷ c ∷ d ∷ e ∷ f ∷ g ∷ h ∷ i ∷ j ∷ k ∷ l ∷ rest) =
    a ∷ b ∷ c ∷ d ∷ e ∷ f ∷ g ∷ h ∷ i ∷ j ∷ 0 ∷ 0 ∷ rest
clear_arcount buf = buf

abbrev arcount_pos : Bytes → Bool
arcount_pos (a ∷ b ∷ c ∷ d ∷ e ∷ f ∷ g ∷ h ∷ i ∷ j ∷ k ∷ l ∷ rest) = ltb 0 k || ltb 0 l
arcount_pos buf = false

module _ {Name : Type 0} (N : NameOps Name) where
  abbrev pub one_match : List (Query Name) → Name → ℕ → Bool
  one_match [] sent_name rtype = false
  one_match (q ∷ []) sent_name rtype =
      q.query_type == rtype && q.query_class == in_class && N.eq q.name sent_name
  one_match (q ∷ r ∷ qs) sent_name rtype = false

  unfoldable pub response_matches : Message Name → ℕ → Name → ℕ → Bool
  response_matches m txid sent_name rtype =
      m.id == txid
      && is_response m.message_type
      && m.op_code == query_op
      && one_match m.queries sent_name rtype

module _ {Name : Type 0} (N : NameOps Name) (W : Net Name) where
  open W use {read, udp, tcp, txid, shuffle, order}

  -- `decode_response`: a message that fails to decode is read again without its additionals.
  unfoldable pub decode_response : Bytes → Option (Message Name)
  decode_response buf = elim (read buf) [
    | some m ↦ some m
    | none ↦ if leb 12 (length buf) && arcount_pos buf then read (clear_arcount buf) else none
  ]

  -- A query over TCP: the length of the frame is checked before it is read.
  unfoldable pub via_tcp : ℕ → Bool → IpAddr → Name → ℕ → Option (Message Name)
  via_tcp race again ip name rtype = elim (tcp race again ip name rtype) [
    | none ↦ none
    | some frame ↦
        if leb 12 (length frame) && leb (length frame) 65535 then decode_response frame else none
  ]

  -- The response that is looked at: that of UDP, or of TCP where UDP's is FORMERR or no message.
  unfoldable pub first_response : ℕ → IpAddr → Name → ℕ → Option (Message Name)
  first_response race ip name rtype = elim (udp race ip name rtype) [
    | none ↦ none
    | some buf ↦ elim (decode_response buf) [
      | none ↦ via_tcp race false ip name rtype
      | some m ↦ if m.response_code == form_err then via_tcp race false ip name rtype else some m
    ]
  ]

  -- A response that does not match the query is an error.
  abbrev pub matching : ℕ → IpAddr → Name → ℕ → Option (Message Name) → Option (Message Name)
  matching race ip name rtype none = none
  matching race ip name rtype (some m) =
      if response_matches N m (txid race ip) name rtype then some m else none

  -- A truncated response is replaced by that of TCP.
  abbrev pub untruncated : ℕ → IpAddr → Name → ℕ → Option (Message Name) → Option (Message Name)
  untruncated race ip name rtype none = none
  untruncated race ip name rtype (some m) =
      if m.truncated then matching race ip name rtype (via_tcp race true ip name rtype) else some m

  -- The result, `none` for an error, and the addresses that packets were sent to.
  unfoldable pub query_socket : ℕ → IpAddr → Name → ℕ → Option (Message Name) × List IpAddr
  query_socket race ip name rtype = if not (is_safe_upstream_ip ip) then (none, []) else (
    untruncated race ip name rtype
        (matching race ip name rtype (first_response race ip name rtype)),
    ip ∷ [],
  )

  abbrev is_usable : Message Name → Bool
  is_usable m = m.response_code == no_error || m.response_code == nx_domain

  -- `join_next`, over the members of a batch in the order in which they end.
  unfoldable pub first_usable : ℕ → List IpAddr → Name → ℕ → Option (Message Name)
  first_usable race [] name rtype = none
  first_usable race (ip ∷ ips) name rtype = elim ((query_socket race ip name rtype).0) [
    | none ↦ first_usable race ips name rtype
    | some m ↦ if is_usable m then some m else first_usable race ips name rtype
  ]

  unfoldable pub sent_to : ℕ → List IpAddr → Name → ℕ → List IpAddr
  sent_to race [] name rtype = []
  sent_to race (ip ∷ ips) name rtype =
      (query_socket race ip name rtype).1 ++ sent_to race ips name rtype

  unfoldable pub query_batch : ℕ → List IpAddr → Name → ℕ → Option (Message Name) × List IpAddr
  query_batch race chunk name rtype =
      (first_usable race (order race chunk) name rtype, sent_to race chunk name rtype)

  abbrev pub or_next :
      Option (Message Name) × List IpAddr
      → Option (Message Name) × List IpAddr
      → Option (Message Name) × List IpAddr
  or_next (some m, sent) later = (some m, sent)
  or_next (none, sent) (r, sent') = (r, sent ++ sent')

  -- `chunks(3)`. What comes after a batch with an answer is not asked.
  unfoldable pub query_batches : ℕ → List IpAddr → Name → ℕ → Option (Message Name) × List IpAddr
  query_batches race [] name rtype = (none, [])
  query_batches race (a ∷ []) name rtype = query_batch race (a ∷ []) name rtype
  query_batches race (a ∷ b ∷ []) name rtype = query_batch race (a ∷ b ∷ []) name rtype
  query_batches race (a ∷ b ∷ c ∷ rest) name rtype =
      let later = query_batches race rest name rtype in
      or_next (query_batch race (a ∷ b ∷ c ∷ []) name rtype) later

  -- `query_servers_with_fallback`: IPv4 first, each family shuffled.
  unfoldable pub query_servers : ℕ → List IpAddr → Name → ℕ → Option (Message Name) × List IpAddr
  query_servers race [] name rtype = (none, [])
  query_servers race (ip ∷ ips) name rtype =
      query_batches race
        (shuffle race (keep is_ipv4 (ip ∷ ips))
          ++ shuffle race (keep (λ x. not (is_ipv4 x)) (ip ∷ ips)))
        name rtype

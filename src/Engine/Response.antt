-- ===== src/Engine/Response.antt =====
-- Building the response for one client from a canonical message (src/engine.rs).
use rust_encrypted_dns_serve.Base.{
  ℕ, ◌-◌, ◌%◌, ◌^◌, Bool, true, false, not, ◌&&◌, ◌||◌, Option, none, some, List, [], ◌∷◌, Bytes,
  ◌==◌, if◌then◌else◌, keep,
}
use rust_encrypted_dns_serve.Wire.Codes.{rrsig_type, nsec_type, nsec3_type, opt_type, serv_fail}
use rust_encrypted_dns_serve.Wire.Messages.{Record, Query, Edns, Message, MessageType, new_message}
use rust_encrypted_dns_serve.Dnssec.Status.{
  DnssecStatus, secure, insecure_unsigned, insecure_unknown, bogus,
}
use rust_encrypted_dns_serve.Cache.{CacheFreshness, fresh, stale, expired, stale_serve_ttl}

unfoldable pub is_dnssec_record : ℕ → Bool
is_dnssec_record t = t == rrsig_type || t == nsec_type || t == nsec3_type

abbrev pub is_secure : DnssecStatus → Bool
is_secure secure = true
is_secure insecure_unsigned = false
is_secure insecure_unknown = false
is_secure bogus = false

abbrev pub is_fresh : CacheFreshness → Bool
is_fresh fresh = true
is_fresh stale = false
is_fresh expired = false

-- The closure `compute_ttl`.
unfoldable pub compute_ttl : CacheFreshness → ℕ → ℕ → ℕ
compute_ttl fresh age ttl = ttl - age
compute_ttl stale age ttl = stale_serve_ttl
compute_ttl expired age ttl = 0

abbrev pub response_edns : Bool → ℕ → Option Edns → Option Edns
response_edns dnssec_ok max_payload none = none
response_edns dnssec_ok max_payload (some _) =
    some (record { max_payload = max_payload % 2 ^ 16; dnssec_ok = dnssec_ok; version = 0 })

module _ {Name : Type 0} where
  -- The test that skips DNSSEC records for a client that did not ask for them.
  unfoldable pub is_shown : Bool → ℕ → Record Name → Bool
  unfolding is_dnssec_record
  is_shown dnssec_ok qtype r =
      not (not dnssec_ok && (is_dnssec_record r.record_type && not (r.record_type == qtype)))

  -- The loop over a section.
  unfoldable pub present : Bool → ℕ → CacheFreshness → ℕ → List (Record Name) → List (Record Name)
  present dnssec_ok qtype freshness age [] = []
  present dnssec_ok qtype freshness age (r ∷ rs) =
      let rest = present dnssec_ok qtype freshness age rs in
      if is_shown dnssec_ok qtype r
      then record r { ttl = compute_ttl freshness age r.ttl } ∷ rest
      else rest

  -- The loop over the additional section leaves out the OPT record first.
  abbrev pub without_opt : List (Record Name) → List (Record Name)
  without_opt = keep (λ r. not (r.record_type == opt_type))

  -- `construct_client_response`, up to the encoding.
  unfoldable pub construct_client_message :
      Message Name
      → ℕ
      → DnssecStatus
      → CacheFreshness
      → ℕ
      → Message Name
      → ℕ
      → Bool
      → ℕ
      → Message Name
  construct_client_message base qtype status freshness cached_at req max_payload dnssec_ok now =
      let age = (now - cached_at) % 2 ^ 32 in
      record {
        id = req.id;
        message_type = MessageType.response;
        op_code = req.op_code;
        authoritative = false;
        truncated = false;
        recursion_desired = req.recursion_desired;
        recursion_available = true;
        authentic_data =
            is_secure status
            && is_fresh freshness
            && (dnssec_ok || req.authentic_data)
            && not req.checking_disabled;
        checking_disabled = req.checking_disabled;
        response_code = base.response_code;
        queries = req.queries;
        answers = present dnssec_ok qtype freshness age base.answers;
        name_servers = present dnssec_ok qtype freshness age base.name_servers;
        additionals = present dnssec_ok qtype freshness age (without_opt base.additionals);
        extensions = response_edns dnssec_ok max_payload req.extensions;
      }

  unfoldable pub construct_client_response :
      (Message Name → Option Bytes)
      → Message Name
      → ℕ
      → DnssecStatus
      → CacheFreshness
      → ℕ
      → Message Name
      → ℕ
      → Bool
      → ℕ
      → Option Bytes
  construct_client_response to_bytes base qtype status freshness cached_at req max_payload dnssec_ok
        now =
      to_bytes (
        construct_client_message base qtype status freshness cached_at req max_payload dnssec_ok
          now)

  -- The messages of `make_truncated_wire` and `make_servfail_wire`.
  unfoldable pub truncated_message : ℕ → Query Name → Message Name
  truncated_message id q = record new_message {
    id = id;
    message_type = MessageType.response;
    truncated = true;
    recursion_available = true;
    authoritative = false;
    queries = q ∷ [];
  }

  unfoldable pub servfail_message : ℕ → Query Name → Message Name
  servfail_message id q = record new_message {
    id = id;
    message_type = MessageType.response;
    response_code = serv_fail;
    recursion_available = true;
    authoritative = false;
    queries = q ∷ [];
  }

abbrev pub unwrap_or_default : Option Bytes → Bytes
unwrap_or_default none = []
unwrap_or_default (some w) = w

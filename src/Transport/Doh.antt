-- ===== src/Transport/Doh.antt =====
-- DNS over HTTPS (src/doh.rs): the handlers of GET and POST, from the headers and the payload of a
-- request to its response. A header is here by its value as text: one that `to_str` refuses is as
-- one that is absent. `Http` has what the handlers call: the reading of addresses and the decoder of
-- the base64 crate, which wants padded text of the standard alphabet.
use Prim.Native.String.{String}
use rust_encrypted_dns_serve.Base.{
  ℕ, zero, suc, ◌-◌, ◌%◌, Bool, true, false, not, ◌||◌, Option, none, some, [], ◌∷◌, ◌++◌, map,
  Bytes, bytes_eq, ◌==◌, ltb, if◌then◌else◌, length, is_empty,
}
use rust_encrypted_dns_serve.Base.Map
use rust_encrypted_dns_serve.Base.Map.{Map}
use rust_encrypted_dns_serve.Base.Text.{
  codes, trim, to_ascii_lower, starts_with, contains, split_once,
}
use rust_encrypted_dns_serve.Wire.Ip.{IpAddr, is_loopback}
use rust_encrypted_dns_serve.RateLimit.{doh}
use rust_encrypted_dns_serve.Engine.{
  AppState, Env, Job, ProcessOutcome, success, serv_fail, truncated, dropped, malformed,
  process_dns_query,
}

abbrev pub max_doh_payload : ℕ
max_doh_payload = 4096

abbrev pub HeaderMap : Type 0
HeaderMap = Map Bytes Bytes

pub record Response : Type 0 where
  pub status : ℕ
  pub headers : HeaderMap
  pub body : Bytes

pub record Http : Type 0 where
  pub parse_ip : Bytes → Option IpAddr
  pub decode : Bytes → Option Bytes

abbrev pub header : HeaderMap → String → Option Bytes
header headers name = Map.get (codes name) headers

-- A status with a text.
abbrev pub problem : ℕ → String → Response
problem status text = record { status = status; headers = []; body = codes text }

abbrev pub dns_message : Bytes
dns_message = codes "application/dns-message"

unfoldable pub make_dns_response : Bytes → Response
make_dns_response bytes = record {
  status = 200;
  headers =
      (codes "content-type", dns_message)
      ∷ (codes "cache-control", codes "no-cache")
      ∷ (codes "access-control-allow-origin", codes "*")
      ∷ (codes "access-control-allow-methods", codes "GET, POST, OPTIONS")
      ∷ [];
  body = bytes;
}

unfoldable pub handle_doh_options : Response
handle_doh_options = record {
  status = 200;
  headers =
      (codes "access-control-allow-origin", codes "*")
      ∷ (codes "access-control-allow-methods", codes "GET, POST, OPTIONS")
      ∷ (codes "access-control-allow-headers", codes "content-type, accept")
      ∷ (codes "access-control-max-age", codes "86400")
      ∷ [];
  body = [];
}

unfoldable pub handle_dns_outcome : ProcessOutcome → Response
handle_dns_outcome (success wire) = make_dns_response wire
handle_dns_outcome (serv_fail wire) = make_dns_response wire
handle_dns_outcome (truncated wire) = make_dns_response wire
handle_dns_outcome malformed = problem 400 "Malformed or invalid DNS message"
handle_dns_outcome dropped = problem 429 "Rate limit exceeded"

abbrev accepts : Bytes → Bool
accepts accept =
    contains accept dns_message
    || contains accept (codes "*/*")
    || contains accept (codes "application/*")

unfoldable pub is_acceptable_media_type : HeaderMap → Bool
is_acceptable_media_type headers = elim (header headers "accept") [
  | none ↦ true
  | some v ↦ accepts (map to_ascii_lower (trim v))
]

unfoldable pub is_dns_message : HeaderMap → Bool
is_dns_message headers = elim (header headers "content-type") [
  | none ↦ false
  | some ct ↦ starts_with (map to_ascii_lower (trim ct)) dns_message
]

-- `replace('-', "+").replace('_', "/")`
abbrev pub from_url : ℕ → ℕ
from_url c = if c == b'-' then b'+' else if c == b'_' then b'/' else c

abbrev pub repeat : ℕ → ℕ → Bytes
repeat zero c = []
repeat (suc n) c = c ∷ repeat n c

abbrev pub padding : Bytes → Bytes
padding s = repeat ((4 - length s % 4) % 4) b'='

-- The text before the first comma.
abbrev pub first_part : Bytes → Bytes
first_part s = elim (split_once b',' s) [ none ↦ s | some (a, b) ↦ a ]

module _ (H : Http) where
  open H use {parse_ip, decode}

  unfoldable pub decode_dns_param : Bytes → Option Bytes
  decode_dns_param input = let s = map from_url (trim input) in decode (s ++ padding s)

  abbrev ip_of : Option Bytes → Option IpAddr
  ip_of none = none
  ip_of (some v) = parse_ip (trim v)

  abbrev ip_or : Option IpAddr → IpAddr → IpAddr
  ip_or none peer = peer
  ip_or (some ip) peer = ip

  abbrev first_ip : Option Bytes → Option IpAddr
  first_ip none = none
  first_ip (some v) = parse_ip (trim (first_part v))

  unfoldable pub extract_client_ip : HeaderMap → IpAddr → IpAddr
  extract_client_ip headers peer =
      if is_loopback peer
      then ip_or (ip_of (header headers "cf-connecting-ip")) (
          ip_or (ip_of (header headers "x-real-ip"))
            (ip_or (first_ip (header headers "x-forwarded-for")) peer))
      else peer

pub record Handled (Name : Type 0) : Type 0 where
  pub state : AppState
  pub spawned : Option (Job Name)
  pub response : Response

module _ {Name : Type 0} (H : Http) (E : Env Name) (st : AppState) (now_ms now : ℕ) where
  -- A refusal before the pipeline.
  abbrev pub refuse : Response → Handled Name
  refuse r = record { state = st; spawned = none; response = r }

  unfoldable pub answer_payload : HeaderMap → IpAddr → Bytes → Handled Name
  answer_payload headers peer payload =
      let r = process_dns_query E st doh (extract_client_ip H headers peer) now_ms now payload in
      record { state = r.state; spawned = r.spawned; response = handle_dns_outcome r.outcome }

  unfoldable pub handle_decoded : HeaderMap → IpAddr → Option Bytes → Handled Name
  handle_decoded headers peer none = refuse (problem 400 "Invalid base64url encoding")
  handle_decoded headers peer (some b) =
      if is_empty b
      then refuse (problem 400 "Empty decoded DNS query payload")
      else if ltb max_doh_payload (length b)
      then refuse (problem 413 "DNS query exceeds size limit")
      else answer_payload headers peer b

  unfoldable pub handle_param : HeaderMap → IpAddr → Option Bytes → Handled Name
  handle_param headers peer none = refuse (problem 400 "Missing 'dns' query parameter")
  handle_param headers peer (some d) =
      if is_empty (trim d)
      then refuse (problem 400 "Empty 'dns' query parameter")
      else handle_decoded headers peer (decode_dns_param H (trim d))

  unfoldable pub handle_doh_get : HeaderMap → IpAddr → Option Bytes → Handled Name
  handle_doh_get headers peer dns =
      if is_acceptable_media_type headers
      then handle_param headers peer dns
      else refuse (problem 406 "Accept header must include application/dns-message or */*")

  unfoldable pub handle_doh_post : HeaderMap → IpAddr → Bytes → Handled Name
  handle_doh_post headers peer body =
      if not (is_dns_message headers)
      then refuse (problem 415 "Content-Type must be application/dns-message")
      else if not (is_acceptable_media_type headers)
      then refuse (problem 406 "Accept header must include application/dns-message or */*")
      else if is_empty body
      then refuse (problem 400 "Empty request body")
      else if ltb max_doh_payload (length body)
      then refuse (problem 413 "DNS query exceeds size limit")
      else answer_payload headers peer body

-- ===== src/Engine/State.antt =====
-- The state of the query pipeline and what it calls (src/engine.rs).
use rust_encrypted_dns_serve.Base.{
  ℕ, Bool, true, false, ◌||◌, Option, none, some, Bytes, bytes_eq, ◌==◌, ltb, if◌then◌else◌,
}
use rust_encrypted_dns_serve.Base.Map.{Map}
use rust_encrypted_dns_serve.Wire.Codes.{no_error, nx_domain}
use rust_encrypted_dns_serve.Wire.Ip.{IpAddr}
use rust_encrypted_dns_serve.Wire.Messages.{Edns, Message}
use rust_encrypted_dns_serve.Dnssec.Status.{
  DnssecStatus, secure, insecure_unsigned, insecure_unknown, bogus,
}
use rust_encrypted_dns_serve.Cache.{DnsCache}
use rust_encrypted_dns_serve.RateLimit.{Protocol, RateLimiter}

pub record AppState : Type 0 where
  pub cache : DnsCache
  pub rate_limiter : RateLimiter
  pub dnssec_enforce : Bool
  pub in_flight : Map Bytes (Unit {0})

pub data ProcessOutcome : Type 0 where
  success : Bytes → ProcessOutcome
  serv_fail : Bytes → ProcessOutcome
  truncated : Bytes → ProcessOutcome
  dropped : ProcessOutcome
  malformed : ProcessOutcome

pub record Env (Name : Type 0) : Type 0 where
  -- `Message::read` and `to_bytes`
  pub read : Bytes → Option (Message Name)
  pub to_bytes : Message Name → Option Bytes
  -- `Display` of types and addresses, and the lower-case texts of a name
  pub show_type : ℕ → Bytes
  pub show_ip : IpAddr → Bytes
  pub lower_ascii : Name → Bytes
  pub lower_string : Name → Bytes
  -- `RecursiveResolver::resolve`, `none` for an error, and `DnssecValidator::validate_message`
  pub resolve : Name → ℕ → Option (Message Name)
  pub validate : Message Name → Name → ℕ → DnssecStatus
  -- `max_stale_secs()`
  pub max_stale : ℕ

-- The key of a revalidation, with the question that it asks again.
pub record Job (Name : Type 0) : Type 0 where
  pub key : Bytes
  pub qname : Name
  pub qtype : ℕ

pub record Reply (Name : Type 0) : Type 0 where
  pub state : AppState
  pub spawned : Option (Job Name)
  pub outcome : ProcessOutcome

-- What the client said of its buffer and of DNSSEC.
pub record Client (Name : Type 0) : Type 0 where
  pub protocol : Protocol
  pub ip : IpAddr
  pub req : Message Name
  pub max_payload : ℕ
  pub dnssec_ok : Bool

unfoldable pub clamp : ℕ → ℕ → ℕ → ℕ
clamp lo hi x = if ltb x lo then lo else if ltb hi x then hi else x

unfoldable pub client_limits : Option Edns → ℕ × Bool
client_limits none = (512, false)
client_limits (some e) = (clamp 512 1232 e.max_payload, e.dnssec_ok)

unfoldable pub is_cacheable_dnssec : DnssecStatus → Bool
is_cacheable_dnssec secure = true
is_cacheable_dnssec insecure_unsigned = true
is_cacheable_dnssec insecure_unknown = false
is_cacheable_dnssec bogus = false

abbrev pub is_bogus : DnssecStatus → Bool
is_bogus bogus = true
is_bogus secure = false
is_bogus insecure_unsigned = false
is_bogus insecure_unknown = false

module _ {Name : Type 0} where
  unfoldable pub is_cacheable : Message Name → Bool
  is_cacheable msg = msg.response_code == no_error || msg.response_code == nx_domain

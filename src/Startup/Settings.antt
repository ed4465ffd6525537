-- ===== src/Startup/Settings.antt =====
-- The settings that the environment gives (src/main.rs, src/cache.rs). `var` has the variables whose
-- values are text.
use rust_encrypted_dns_serve.Base.{
  ℕ, ◌-◌, ◌^◌, Bool, true, not, Option, none, some, [], ◌∷◌, Bytes, bytes_beq, ◌==◌, if◌then◌else◌,
  is_empty,
}
use rust_encrypted_dns_serve.Base.Text.{codes, parse_digits, parse_uint}

-- An `i64`: a number, or a number below zero by its size.
pub data Signed : Type 0 where
  plus minus : ℕ → Signed

abbrev negated : Option ℕ → Option Signed
negated none = none
negated (some n) = some (minus n)

abbrev as_plus : Option ℕ → Option Signed
as_plus none = none
as_plus (some n) = some (plus n)

-- `parse` of an `i64`.
unfoldable pub parse_int : Bytes → Option Signed
parse_int [] = none
parse_int (c ∷ s) =
    if c == b'-'
    then (if is_empty s then none else negated (parse_digits (2 ^ 63) 0 s))
    else as_plus (parse_uint (2 ^ 63 - 1) (c ∷ s))

-- `ok().and_then(|s| s.parse().ok()).unwrap_or(default)`
abbrev parsed_or {ℓ} : {A : Type ℓ} → (Bytes → Option A) → A → Option Bytes → A
parsed_or parse default none = default
parsed_or parse default (some s) = elim (parse s) [ none ↦ default | some v ↦ v ]

abbrev text_or : Bytes → Option Bytes → Bytes
text_or default none = default
text_or default (some s) = s

-- `map(|v| v != "0").unwrap_or(true)`
abbrev unless_zero : Option Bytes → Bool
unless_zero none = true
unless_zero (some v) = not (bytes_beq v (codes "0"))

abbrev is_one : Option Bytes → Bool
is_one o = bytes_beq (text_or [] o) (codes "1")

pub record WarmSettings : Type 0 where
  pub warm_limit : ℕ
  pub concurrency : ℕ

pub record QuerySettings : Type 0 where
  pub rl_capacity : Signed
  pub rl_per_sec : Signed
  pub dnssec_enforce : Bool

pub record ListenSettings : Type 0 where
  pub host : Bytes
  pub dns_port : ℕ
  pub dot_port : ℕ
  pub doh_port : ℕ
  pub doh_no_tls : Bool

module _ (var : Bytes → Option Bytes) where
  -- Sizes have 64 bits.
  abbrev size_or : ℕ → Bytes → ℕ
  size_or default key = parsed_or (parse_uint (2 ^ 64 - 1)) default (var key)

  abbrev port_or : ℕ → Bytes → ℕ
  port_or default key = parsed_or (parse_uint (2 ^ 16 - 1)) default (var key)

  unfoldable pub warm_settings : WarmSettings
  warm_settings = record {
    warm_limit = size_or 0 (codes "WARM_LIMIT");
    concurrency = size_or 6 (codes "WARM_CONCURRENCY");
  }

  unfoldable pub query_settings : QuerySettings
  query_settings = record {
    rl_capacity = parsed_or parse_int (plus 300) (var (codes "RATE_LIMIT_BURST"));
    rl_per_sec = parsed_or parse_int (plus 60) (var (codes "RATE_LIMIT_PER_SEC"));
    dnssec_enforce = unless_zero (var (codes "DNSSEC_ENFORCE"));
  }

  unfoldable pub listen_settings : ListenSettings
  listen_settings = record {
    host = text_or (codes "0.0.0.0") (var (codes "HOST"));
    dns_port = port_or 53 (codes "DNS_PORT");
    dot_port = port_or 853 (codes "DOT_PORT");
    doh_port = port_or 443 (codes "DOH_PORT");
    doh_no_tls = is_one (var (codes "DOH_NO_TLS"));
  }

  -- The certificate's path and the key's.
  unfoldable pub tls_paths : Bytes × Bytes
  tls_paths = (
    text_or (codes "fullchain.pem") (var (codes "CERT_PATH")),
    text_or (codes "privkey.pem") (var (codes "KEY_PATH")),
  )

  -- `DEFAULT_MAX_STALE_SECS` where the variable is no number.
  unfoldable pub max_stale_secs : ℕ
  max_stale_secs = size_or 300 (codes "MAX_STALE_SECS")

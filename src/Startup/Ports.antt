-- ===== src/Startup/Ports.antt =====
-- Binding the listeners (src/main.rs). What the system says to a bind of a port is an argument.
use rust_encrypted_dns_serve.Base.{ℕ, Option, none, some}

pub data Bind : Type 0 where
  bound permission_denied failed : Bind

-- `bind_udp` and `bind_tcp`: the port that is bound, `none` for an error.
abbrev granted : ℕ → Bind → Option ℕ
granted port bound = some port
granted port permission_denied = none
granted port failed = none

unfoldable pub bind_or_fallback : (ℕ → Bind) → ℕ → ℕ → Option ℕ
bind_or_fallback bind preferred fallback = elim (bind preferred) [
  | bound ↦ some preferred
  | permission_denied ↦ granted fallback (bind fallback)
  | failed ↦ none
]

pub record Ports : Type 0 where
  pub dns : ℕ
  pub dns_tcp : ℕ
  pub dot : ℕ
  pub doh : ℕ

infixl 5 ◌>>=◌
abbrev ◌>>=◌ : {A B : Type 0} → Option A → (A → Option B) → Option B
none >>= f = none
some a >>= f = f a

-- The binds of `main`, in its order; plain TCP asks for the port that UDP got.
unfoldable pub bind_listeners : (ℕ → Bind) → (ℕ → Bind) → ℕ → ℕ → ℕ → Option Ports
bind_listeners udp tcp dns_port dot_port doh_port = do
  active_dns ← bind_or_fallback udp dns_port 5053
  active_tcp ← bind_or_fallback tcp active_dns 5053
  active_dot ← bind_or_fallback tcp dot_port 8853
  active_doh ← bind_or_fallback tcp doh_port 8443
  some (record { dns = active_dns; dns_tcp = active_tcp; dot = active_dot; doh = active_doh })

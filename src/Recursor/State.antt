-- ===== src/Recursor/State.antt =====
-- The state of a resolution (src/recursor.rs): the remembered delegations, the set `visited`, how
-- many races have been run, and the addresses that packets were sent to.
use rust_encrypted_dns_serve.Base.{ℕ, Bool, Option, List, [], ◌∷◌, Bytes}
use rust_encrypted_dns_serve.Wire.Ip.{IpAddr, v4}
use rust_encrypted_dns_serve.Wire.Messages.{Message}
use rust_encrypted_dns_serve.Recursor.Delegation.{Delegations}

pub data RecursorError : Type 0 where
  depth_exceeded step_limit_exceeded all_nameservers_failed glue_resolution_failed no_progress :
      RecursorError

pub record State : Type 0 where
  pub delegations : Delegations
  pub visited : List Bytes
  pub races : ℕ
  pub sent : List IpAddr

pub data Resolved (Name : Type 0) : Type 0 where
  answered : Message Name → State → Resolved Name
  stopped : RecursorError → State → Resolved Name

-- What a round of the loop works on.
pub record Walk (Name : Type 0) : Type 0 where
  pub using_cached : Bool
  pub servers : List IpAddr
  pub last_zone : Option Name
  pub bailiwick : Name

-- The loop ends, or goes on.
pub data Next (Name : Type 0) : Type 0 where
  finish : Resolved Name → Next Name
  go : Walk Name → State → Next Name

abbrev pub max_depth : ℕ
max_depth = 16

abbrev pub max_steps : ℕ
max_steps = 16

abbrev pub root_servers : List IpAddr
root_servers =
    v4 198 41 0 4
    ∷ v4 199 9 14 201
    ∷ v4 192 33 4 12
    ∷ v4 199 7 91 13
    ∷ v4 192 203 230 10
    ∷ v4 192 5 5 241
    ∷ v4 192 112 36 4
    ∷ v4 198 97 190 53
    ∷ v4 192 36 148 17
    ∷ v4 192 58 128 30
    ∷ v4 193 0 14 129
    ∷ v4 199 7 83 42
    ∷ v4 202 12 27 33
    ∷ []

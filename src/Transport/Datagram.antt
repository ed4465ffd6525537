-- ===== src/Transport/Datagram.antt =====
-- The UDP listener (src/dns.rs): one round of its loop for a datagram that was received, with the
-- task that it spawns. Whether a permit of the semaphore is free is an argument.
use rust_encrypted_dns_serve.Base.{ℕ, Bool, Option, none, some, Bytes, ltb, if◌then◌else◌, length}
use rust_encrypted_dns_serve.Wire.Ip.{IpAddr}
use rust_encrypted_dns_serve.RateLimit.{udp}
use rust_encrypted_dns_serve.Engine.{
  AppState, Env, Job, ProcessOutcome, success, serv_fail, truncated, dropped, malformed,
  process_dns_query,
}
use rust_encrypted_dns_serve.Transport.Stream.{min_dns_msg_size}

abbrev pub max_udp_query_size : ℕ
max_udp_query_size = 4096

-- What is sent back.
unfoldable pub datagram_reply : ProcessOutcome → Option Bytes
datagram_reply (success resp) = some resp
datagram_reply (serv_fail resp) = some resp
datagram_reply (truncated resp) = some resp
datagram_reply dropped = none
datagram_reply malformed = none

pub record Handled (Name : Type 0) : Type 0 where
  pub state : AppState
  pub spawned : Option (Job Name)
  pub sent : Option Bytes

module _ {Name : Type 0} (E : Env Name) where
  abbrev ignore : AppState → Handled Name
  ignore st = record { state = st; spawned = none; sent = none }

  unfoldable pub handle_datagram : AppState → Bool → IpAddr → ℕ → ℕ → Bytes → Handled Name
  handle_datagram st permit ip now_ms now buf =
      if ltb (length buf) min_dns_msg_size
      then ignore st
      else if ltb max_udp_query_size (length buf)
      then ignore st
      else if permit
      then (let r = process_dns_query E st udp ip now_ms now buf in
          record { state = r.state; spawned = r.spawned; sent = datagram_reply r.outcome })
      else ignore st

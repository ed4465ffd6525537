-- ===== src/Transport/Accept.antt =====
-- The listeners of plain TCP (src/dns.rs) and of DoT (src/dot.rs): what becomes of a connection that
-- was accepted. Whether a permit of the semaphore is free, and how the TLS handshake ends, are
-- arguments; `none` is a connection that is dropped unserved.
use rust_encrypted_dns_serve.Base.{Bool, true, false, Option, none, some, Bytes}
use rust_encrypted_dns_serve.RateLimit.{tcp, dot}
use rust_encrypted_dns_serve.Engine.{AppState}
use rust_encrypted_dns_serve.Transport.Stream.{
  Session, Progress, Ending, handle_length_prefixed_stream,
}

pub data Handshake : Type 0 where
  established handshake_failed timed_out : Handshake

module _ {Name : Type 0} (S : Session Name) where
  -- The session's protocol is the one that the listener passes.
  unfoldable pub run_tcp_listener : AppState → Bool → Bytes → Option (Progress Name × Ending)
  run_tcp_listener st true input =
      some (handle_length_prefixed_stream (record S { protocol = tcp }) st input)
  run_tcp_listener st false input = none

  unfoldable pub run_dot_listener :
      AppState → Bool → Handshake → Bytes → Option (Progress Name × Ending)
  run_dot_listener st true established input =
      some (handle_length_prefixed_stream (record S { protocol = dot }) st input)
  run_dot_listener st true handshake_failed input = none
  run_dot_listener st true timed_out input = none
  run_dot_listener st false handshake input = none

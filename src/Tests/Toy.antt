-- ===== src/Tests/Toy.antt =====
-- A small instance of what the pipeline takes as a parameter: names are numbers, a request is four
-- bytes (id, CD, DO, buffer size in hundreds), a response three (id, AD, number of answers).
use rust_encrypted_dns_serve.Base.{
  ℕ, zero, suc, ◌*◌, true, Option, none, some, List, [], ◌∷◌, Bytes, ◌==◌, if◌then◌else◌, length,
}
use rust_encrypted_dns_serve.Wire.Codes.{a_type, in_class}
use rust_encrypted_dns_serve.Wire.Ip.{IpAddr, v4, v6}
use rust_encrypted_dns_serve.Wire.Messages.{Record, RData, Query, MessageType, Message, new_message}
use rust_encrypted_dns_serve.Dnssec.Status.{DnssecStatus, secure}
use rust_encrypted_dns_serve.Cache.{CacheEntry}
use rust_encrypted_dns_serve.Engine.{AppState, Env}

abbrev pub question : Query ℕ
question = record { name = 5; query_type = a_type; query_class = in_class }

abbrev pub client : IpAddr
client = v4 203 0 112 9

abbrev pub address_record : Record ℕ
address_record = record {
  name = 5;
  record_type = a_type;
  dns_class = in_class;
  ttl = 600;
  rdata = RData.a (v4 1 2 3 4);
}

abbrev pub copies : ℕ → List (Record ℕ)
copies zero = []
copies (suc n) = address_record ∷ copies n

abbrev pub request : ℕ → ℕ → ℕ → ℕ → Message ℕ
request id cd dnssec size = record new_message {
  id = id;
  checking_disabled = cd == 1;
  queries = question ∷ [];
  extensions = some (record { max_payload = 100 * size; dnssec_ok = dnssec == 1; version = 0 });
}

abbrev pub response : ℕ → ℕ → ℕ → Message ℕ
response id ad n = record new_message {
  id = id;
  message_type = MessageType.response;
  authentic_data = ad == 1;
  queries = question ∷ [];
  answers = copies n;
}

abbrev pub read : Bytes → Option (Message ℕ)
read (id ∷ cd ∷ dnssec ∷ size ∷ []) = some (request id cd dnssec size)
read (id ∷ ad ∷ n ∷ []) = some (response id ad n)
read (id ∷ []) = some (record new_message { id = id })
read _ = none

abbrev pub to_bytes : Message ℕ → Option Bytes
to_bytes m = some (m.id ∷ (if m.authentic_data then 1 else 0) ∷ length m.answers ∷ [])

abbrev show_ip : IpAddr → Bytes
show_ip (v4 a b c d) = a ∷ b ∷ c ∷ d ∷ []
show_ip (v6 a b c d e f g h) = a ∷ b ∷ c ∷ d ∷ e ∷ f ∷ g ∷ h ∷ []

-- The resolver finds one address; the validator says what it is told to.
abbrev pub toy : DnssecStatus → Env ℕ
toy status = record {
  read = read;
  to_bytes = to_bytes;
  show_type = λ t. t ∷ [];
  show_ip = show_ip;
  lower_ascii = λ n. n ∷ [];
  lower_string = λ n. n ∷ [];
  resolve = λ n t. some (response 77 0 1);
  validate = λ m n t. status;
  max_stale = 86400;
}

abbrev pub empty_state : AppState
empty_state = record {
  cache = [];
  rate_limiter = record {
    subnet_buckets = [];
    rrl_buckets = [];
    capacity = 20;
    refill_per_sec = 10;
  };
  dnssec_enforce = true;
  in_flight = [];
}

abbrev pub entry : CacheEntry
entry = record {
  raw_wire = 77 ∷ 1 ∷ 1 ∷ [];
  min_ttl = 600;
  cached_at = 1000;
  last_revalidated_at = 1000;
  dnssec_status = secure;
}

-- The state that has the entry for the question.
abbrev pub old_state : AppState
old_state = record empty_state { cache = (5 ∷ b':' ∷ a_type ∷ b':' ∷ b'I' ∷ b'N' ∷ [], entry) ∷ [] }

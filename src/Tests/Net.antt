-- ===== src/Tests/Net.antt =====
-- Names that are numbers, each the child of the one before it, and a network whose servers all know
-- every address.
use rust_encrypted_dns_serve.Base.{
  ℕ, ◌-◌, refl, if◌then◌else◌, true, Option, none, some, List, [], ◌∷◌, Bytes, ◌==◌, leb, ltb,
  nat_eq, beq_self,
}
use rust_encrypted_dns_serve.Wire.Codes.{in_class, a_type, cname_type}
use rust_encrypted_dns_serve.Wire.Ip.{v4}
use rust_encrypted_dns_serve.Wire.Names.{NameOps}
use rust_encrypted_dns_serve.Wire.Messages.{Record, RData, MessageType, Message, new_message}
use rust_encrypted_dns_serve.Recursor.Query.{Net}
use rust_encrypted_dns_serve.Recursor.State.{State}

abbrev from_str : Bytes → Option ℕ
from_str [] = none
from_str (n ∷ s) = some n

abbrev pub numbers : NameOps ℕ
numbers = record {
  root = 0;
  labels = λ n. n;
  num_labels = λ n. n;
  is_root = λ n. n == 0;
  base_name = λ n. n - 1;
  eq = λ m n. m == n;
  zone_of = λ m n. leb m n;
  less = λ m n. ltb m n;
  lower_string = λ n. n ∷ [];
  lower_ascii = λ n. n ∷ [];
  wildcard = λ n. n;
  text = λ n. n ∷ [];
  from_str = from_str;
  is_root_iff = λ n. refl;
  labels-base_name = λ n. refl;
  eq_refl = beq_self;
}

abbrev pub alias_record : Record ℕ
alias_record = record {
  name = 7;
  record_type = cname_type;
  dns_class = in_class;
  ttl = 60;
  rdata = RData.cname 8;
}

abbrev pub host_record : Record ℕ
host_record = record {
  name = 8;
  record_type = a_type;
  dns_class = in_class;
  ttl = 60;
  rdata = RData.a (v4 1 2 3 4);
}

-- The response with a number for its question: 7 is an alias of 8, and 8 has an address.
abbrev answers_to : ℕ → List (Record ℕ)
answers_to n = if n == 7 then alias_record ∷ [] else if n == 8 then host_record ∷ [] else []

abbrev pub reply : ℕ → Message ℕ
reply n = record new_message {
  id = 99;
  message_type = MessageType.response;
  authoritative = true;
  queries = record { name = n; query_type = a_type; query_class = in_class } ∷ [];
  answers = answers_to n;
}

abbrev read : Bytes → Option (Message ℕ)
read [] = none
read (n ∷ s) = some (reply n)

abbrev pub network : Net ℕ
network = record {
  read = read;
  same_record = λ r s. r.name == s.name;
  read_dname = λ d. none;
  udp = λ race ip n t. some (n ∷ []);
  tcp = λ race again ip n t. none;
  txid = λ race ip. 99;
  shuffle = λ race ips. ips;
  order = λ race ips. ips;
  clock = λ race. 1000;
}

abbrev pub first_state : State
first_state = record { delegations = []; visited = []; races = 0; sent = [] }

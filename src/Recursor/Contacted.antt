-- ===== src/Recursor/Contacted.antt =====
-- A race takes its answer from a server that it has contacted (src/recursor.rs).
use mathlib.Core.Logic.Or
use mathlib.Core.List.{
  Mem, Mem-prop, not-mem-nil, mem-cons_self, mem-cons_of_mem, eq-or-mem_of_mem-cons,
  mem-append_right, Subset,
}
use mathlib.Core.Path.{subst}
use rust_encrypted_dns_serve.Base.{
  ℕ, ◌≡◌, ◌||◌, true, Option, none, some, List, [], ◌∷◌, ◌++◌, ◌==◌, if◌then◌else◌, All, Bool-cases,
  Option-cases, inl, inr,
}
use rust_encrypted_dns_serve.Wire.Codes.{no_error, nx_domain}
use rust_encrypted_dns_serve.Wire.Ip.{IpAddr}
use rust_encrypted_dns_serve.Wire.Names.{NameOps}
use rust_encrypted_dns_serve.Wire.Messages.{Message}
use rust_encrypted_dns_serve.Recursor.Query.{
  Net, response_matches, query_socket, first_usable, sent_to, query_batch, query_batches,
  query_servers, or_next,
}
use rust_encrypted_dns_serve.Recursor.Contact.{IsSafe, query_servers-IsSafe, query_socket-Matches}

module _ {Name : Type 0} (N : NameOps Name) (W : Net Name) (race : ℕ) (name : Name)
    (rtype : ℕ) where
  -- The response of one server, to the transaction id that it was sent, for the question that it was
  -- sent, with a code that ends the race.
  abbrev AnswerOf : IpAddr → Message Name → Type 0
  AnswerOf ip m =
      IsSafe ip
      × (response_matches N m (W.txid race ip) name rtype ≡ true)
      × ((m.response_code == no_error || m.response_code == nx_domain) ≡ true)

  -- An answer is that of one of the servers.
  abbrev pub IsAnswer : List IpAddr → Option (Message Name) → Type 0
  IsAnswer ips none = Unit
  IsAnswer ips (some m) = (ip : IpAddr) × Mem ip ips × AnswerOf ip m

  abbrev Later : IpAddr → (List IpAddr) → Option (Message Name) → Type 0
  Later ip ips o = IsAnswer ips o → IsAnswer (ip ∷ ips) o

  later : (ip : IpAddr) (ips : List IpAddr) (o : Option (Message Name)) → Later ip ips o
  later ip ips none h = tt
  later ip ips (some m) (i, here, of) = (i, mem-cons_of_mem ip here, of)

  first_usable-IsAnswer : (ips : List IpAddr) → IsAnswer ips (first_usable N W race ips name rtype)
  unfolding first_usable
  first_usable-IsAnswer [] = tt
  first_usable-IsAnswer (ip ∷ ips) =
      let rest = later ip ips (first_usable N W race ips name rtype) (first_usable-IsAnswer ips) in
      elim (Option-cases (query_socket N W race ip name rtype).0) [
        | inl failed ↦ rw (failed, first_usable) rest
        | inr (m, e) ↦
            rw (e, first_usable)
              (elim (Bool-cases (m.response_code == no_error || m.response_code == nx_domain)) [
                | inl good ↦
                    let (safe, matched) = query_socket-Matches N W race ip name rtype e in
                    rw (good, if◌then◌else◌) (ip, mem-cons_self, (safe, matched, good))
                | inr bad ↦ rw (bad, if◌then◌else◌) rest
              ])
      ]

  -- Every safe member of a batch is sent a query.
  sent_to-Mem :
      (ips : List IpAddr) (ip : IpAddr)
      → IsSafe ip
      → Mem ip ips
      → Mem ip (sent_to N W race ips name rtype)
  unfolding sent_to query_socket
  sent_to-Mem [] ip safe h = absurd (not-mem-nil h)
  sent_to-Mem (x ∷ ips) ip safe h =
      Or.elim Mem-prop (eq-or-mem_of_mem-cons h)
        (λ same.
          let safe' : IsSafe x = subst IsSafe same safe in
          rw (safe', if◌then◌else◌)
            (subst (λ y. Mem ip (y ∷ sent_to N W race ips name rtype)) same mem-cons_self))
        (λ there.
          mem-append_right (query_socket N W race x name rtype).1 (sent_to-Mem ips ip safe there))

  narrow :
      (ips js : List IpAddr) (o : Option (Message Name))
      → ((ip : IpAddr) → IsSafe ip → Mem ip ips → Mem ip js)
      → IsAnswer ips o
      → IsAnswer js o
  narrow ips js none f h = tt
  narrow ips js (some m) f (ip, here, of) = (ip, f ip of.0 here, of)

  module _ (order_Subset : (ips : List IpAddr) → Subset (W.order race ips) ips) where
    abbrev Answered : Option (Message Name) × List IpAddr → Type 0
    Answered r = IsAnswer r.1 r.0

    query_batch-Answered : (chunk : List IpAddr) → Answered (query_batch N W race chunk name rtype)
    unfolding query_batch
    query_batch-Answered chunk =
        narrow (W.order race chunk) (sent_to N W race chunk name rtype) _
          (λ ip safe here. sent_to-Mem chunk ip safe (order_Subset chunk ip here))
          (first_usable-IsAnswer (W.order race chunk))

    or_next-Answered :
        (r s : Option (Message Name) × List IpAddr)
        → Answered r
        → Answered s
        → Answered (or_next N W r s)
    or_next-Answered (some m, sent) s h k = h
    or_next-Answered (none, sent) (o, sent') h k =
        narrow sent' (sent ++ sent') o (λ ip safe here. mem-append_right sent here) k

    query_batches-Answered : (ips : List IpAddr) → Answered (query_batches N W race ips name rtype)
    unfolding query_batches
    query_batches-Answered [] = tt
    query_batches-Answered (a ∷ []) = query_batch-Answered (a ∷ [])
    query_batches-Answered (a ∷ b ∷ []) = query_batch-Answered (a ∷ b ∷ [])
    query_batches-Answered (a ∷ b ∷ c ∷ rest) =
        or_next-Answered (query_batch N W race (a ∷ b ∷ c ∷ []) name rtype)
          (query_batches N W race rest name rtype) (query_batch-Answered (a ∷ b ∷ c ∷ []))
          (query_batches-Answered rest)

    -- Where only members of a batch end in it, a race contacts only addresses that are safe to query,
    -- and takes for its answer only a response that carries the transaction id and the question of the
    -- query that was sent to one of the addresses it has contacted, with NOERROR or NXDOMAIN.
    pub query_servers-IsAnswer :
        (ips : List IpAddr)
        → let r = query_servers N W race ips name rtype in All IsSafe r.1 × IsAnswer r.1 r.0
    unfolding query_servers
    query_servers-IsAnswer [] = (tt, tt)
    query_servers-IsAnswer (ip ∷ ips) =
        (query_servers-IsSafe N W race (ip ∷ ips) name rtype, query_batches-Answered _)

-- ===== src/Recursor/Contact.antt =====
-- Whom a race over the servers contacts, and what response it takes (src/recursor.rs).
use mathlib.Core.Path.{subst}
use rust_encrypted_dns_serve.Base.{
  ℕ, ◌≡◌, arith, Bool, true, false, ◌||◌, Option, none, some, List, [], ◌∷◌, ◌==◌, if◌then◌else◌,
  All, All-append, Bool-cases, Option-cases, inl, inr,
}
use rust_encrypted_dns_serve.Wire.Codes.{no_error, nx_domain}
use rust_encrypted_dns_serve.Wire.Ip.{IpAddr}
use rust_encrypted_dns_serve.Wire.Names.{NameOps}
use rust_encrypted_dns_serve.Wire.Messages.{Message}
use rust_encrypted_dns_serve.Recursor.Safe.{is_safe_upstream_ip}
use rust_encrypted_dns_serve.Recursor.Query.{
  Net, response_matches, query_socket, first_response, via_tcp, first_usable, sent_to, query_batch,
  query_batches, query_servers, matching, untruncated, or_next,
}

abbrev pub IsSafe : IpAddr → Type 0
IsSafe ip = is_safe_upstream_ip ip ≡ true

module _ {Name : Type 0} (N : NameOps Name) (W : Net Name) where
  query_socket-IsSafe :
      (race : ℕ) (ip : IpAddr) (name : Name) (rtype : ℕ)
      → All IsSafe (query_socket N W race ip name rtype).1
  unfolding query_socket
  query_socket-IsSafe race ip name rtype = elim (Bool-cases (is_safe_upstream_ip ip)) [
    | inl safe ↦ rw (safe, if◌then◌else◌) (safe, tt)
    | inr unsafe ↦ rw (unsafe, if◌then◌else◌) tt
  ]

  sent_to-IsSafe :
      (race : ℕ) (ips : List IpAddr) (name : Name) (rtype : ℕ)
      → All IsSafe (sent_to N W race ips name rtype)
  unfolding sent_to
  sent_to-IsSafe race [] name rtype = tt
  sent_to-IsSafe race (ip ∷ ips) name rtype =
      All-append IsSafe (query_socket N W race ip name rtype).1 (sent_to N W race ips name rtype)
        (query_socket-IsSafe race ip name rtype) (sent_to-IsSafe race ips name rtype)

  or_next-IsSafe :
      (r s : Option (Message Name) × List IpAddr)
      → All IsSafe r.1
      → All IsSafe s.1
      → All IsSafe (or_next N W r s).1
  or_next-IsSafe (some m, sent) s h k = h
  or_next-IsSafe (none, sent) (r, sent') h k = All-append IsSafe sent sent' h k

  query_batches-IsSafe :
      (race : ℕ) (ips : List IpAddr) (name : Name) (rtype : ℕ)
      → All IsSafe (query_batches N W race ips name rtype).1
  unfolding query_batches query_batch
  query_batches-IsSafe race [] name rtype = tt
  query_batches-IsSafe race (a ∷ []) name rtype = sent_to-IsSafe race (a ∷ []) name rtype
  query_batches-IsSafe race (a ∷ b ∷ []) name rtype = sent_to-IsSafe race (a ∷ b ∷ []) name rtype
  query_batches-IsSafe race (a ∷ b ∷ c ∷ rest) name rtype =
      or_next-IsSafe (query_batch N W race (a ∷ b ∷ c ∷ []) name rtype)
        (query_batches N W race rest name rtype) (sent_to-IsSafe race (a ∷ b ∷ c ∷ []) name rtype)
        (query_batches-IsSafe race rest name rtype)

  pub query_servers-IsSafe :
      (race : ℕ) (ips : List IpAddr) (name : Name) (rtype : ℕ)
      → All IsSafe (query_servers N W race ips name rtype).1
  unfolding query_servers
  query_servers-IsSafe race [] name rtype = tt
  query_servers-IsSafe race (ip ∷ ips) name rtype = query_batches-IsSafe race _ name rtype

  -- A response to some transaction of this race, for the question that was sent, with a code that ends
  -- the race.
  abbrev pub IsResponse : ℕ → Name → ℕ → Option (Message Name) → Type 0
  IsResponse race name rtype none = Unit
  IsResponse race name rtype (some m) =
      ((ip : IpAddr) × IsSafe ip × (response_matches N m (W.txid race ip) name rtype ≡ true))
      × ((m.response_code == no_error || m.response_code == nx_domain) ≡ true)

  abbrev Matches : ℕ → IpAddr → Name → ℕ → Option (Message Name) → Type 0
  Matches race ip name rtype none = Unit
  Matches race ip name rtype (some m) = response_matches N m (W.txid race ip) name rtype ≡ true

  matching-Matches :
      (race : ℕ) (ip : IpAddr) (name : Name) (rtype : ℕ) (o : Option (Message Name))
      → Matches race ip name rtype (matching N W race ip name rtype o)
  matching-Matches race ip name rtype none = tt
  matching-Matches race ip name rtype (some m) =
      elim (Bool-cases (response_matches N m (W.txid race ip) name rtype)) [
        | inl matched ↦ rw (matched, if◌then◌else◌) matched
        | inr other ↦ rw (other, if◌then◌else◌) tt
      ]

  either-Matches :
      (race : ℕ) (ip : IpAddr) (name : Name) (rtype : ℕ) (b : Bool) (o p : Option (Message Name))
      → Matches race ip name rtype o
      → Matches race ip name rtype p
      → Matches race ip name rtype (if b then o else p)
  either-Matches race ip name rtype true o p h k = h
  either-Matches race ip name rtype false o p h k = k

  untruncated-Matches :
      (race : ℕ) (ip : IpAddr) (name : Name) (rtype : ℕ) (o : Option (Message Name))
      → Matches race ip name rtype o
      → Matches race ip name rtype (untruncated N W race ip name rtype o)
  untruncated-Matches race ip name rtype none h = tt
  untruncated-Matches race ip name rtype (some m) h =
      either-Matches race ip name rtype m.truncated _ (some m)
        (matching-Matches race ip name rtype (via_tcp N W race true ip name rtype)) h

  pub query_socket-Matches :
      (race : ℕ) (ip : IpAddr) (name : Name) (rtype : ℕ) {m : Message Name}
      → (query_socket N W race ip name rtype).0 ≡ some m
      → IsSafe ip × (response_matches N m (W.txid race ip) name rtype ≡ true)
  unfolding query_socket
  query_socket-Matches race ip name rtype {m} h = elim (Bool-cases (is_safe_upstream_ip ip)) [
    | inr unsafe ↦ absurd (ground arith)
    | inl safe ↦
        let first = first_response N W race ip name rtype in
        let got : untruncated N W race ip name rtype (matching N W race ip name rtype first)
            ≡ some m =
          rw (safe, if◌then◌else◌) at h in
        (
          safe,
          subst (λ o. Matches race ip name rtype o) got
              (untruncated-Matches race ip name rtype _
                (matching-Matches race ip name rtype first)),
        )
  ]

  first_usable-IsResponse :
      (race : ℕ) (ips : List IpAddr) (name : Name) (rtype : ℕ)
      → IsResponse race name rtype (first_usable N W race ips name rtype)
  unfolding first_usable
  first_usable-IsResponse race [] name rtype = tt
  first_usable-IsResponse race (ip ∷ ips) name rtype =
      elim (Option-cases (query_socket N W race ip name rtype).0) [
        | inl failed ↦ rw (failed, first_usable) (first_usable-IsResponse race ips name rtype)
        | inr (m, e) ↦
            rw (e, first_usable)
              (elim (Bool-cases (m.response_code == no_error || m.response_code == nx_domain)) [
                | inl good ↦
                    let (safe, matched) = query_socket-Matches race ip name rtype e in
                    rw (good, if◌then◌else◌) ((ip, safe, matched), good)
                | inr bad ↦ rw (bad, if◌then◌else◌) (first_usable-IsResponse race ips name rtype)
              ])
      ]

  or_next-IsResponse :
      (race : ℕ) (name : Name) (rtype : ℕ) (r s : Option (Message Name) × List IpAddr)
      → IsResponse race name rtype r.0
      → IsResponse race name rtype s.0
      → IsResponse race name rtype (or_next N W r s).0
  or_next-IsResponse race name rtype (some m, sent) s h k = h
  or_next-IsResponse race name rtype (none, sent) (r, sent') h k = k

  query_batches-IsResponse :
      (race : ℕ) (ips : List IpAddr) (name : Name) (rtype : ℕ)
      → IsResponse race name rtype (query_batches N W race ips name rtype).0
  unfolding query_batches query_batch
  query_batches-IsResponse race [] name rtype = tt
  query_batches-IsResponse race (a ∷ []) name rtype = first_usable-IsResponse race _ name rtype
  query_batches-IsResponse race (a ∷ b ∷ []) name rtype = first_usable-IsResponse race _ name rtype
  query_batches-IsResponse race (a ∷ b ∷ c ∷ rest) name rtype =
      or_next-IsResponse race name rtype (query_batch N W race (a ∷ b ∷ c ∷ []) name rtype)
        (query_batches N W race rest name rtype) (first_usable-IsResponse race _ name rtype)
        (query_batches-IsResponse race rest name rtype)

  pub query_servers-IsResponse :
      (race : ℕ) (ips : List IpAddr) (name : Name) (rtype : ℕ)
      → All IsSafe (query_servers N W race ips name rtype).1
        × IsResponse race name rtype (query_servers N W race ips name rtype).0
  unfolding query_servers
  query_servers-IsResponse race [] name rtype = (tt, tt)
  query_servers-IsResponse race (ip ∷ ips) name rtype =
      (query_batches-IsSafe race _ name rtype, query_batches-IsResponse race _ name rtype)

-- ===== src/Recursor/Safety.antt =====
-- A resolution contacts and remembers only safe addresses (src/recursor.rs).
use rust_encrypted_dns_serve.Base.{
  ℕ, Option, List, [], ◌∷◌, ◌++◌, Bytes, bytes_eq, ◌==◌, leb, length, if◌then◌else◌, All,
  All-append, All-keep, any, keep_map, take, Bool-cases, inl, inr,
}
use rust_encrypted_dns_serve.Base.Map
use rust_encrypted_dns_serve.Wire.Codes.{a_type, aaaa_type, yx_domain}
use rust_encrypted_dns_serve.Wire.Ip.{IpAddr, ip_beq}
use rust_encrypted_dns_serve.Wire.Names.{NameOps}
use rust_encrypted_dns_serve.Wire.Messages.{RData, Message}
use rust_encrypted_dns_serve.Recursor.Safe.{is_safe_upstream_ip, filter_safe_ips}
use rust_encrypted_dns_serve.Recursor.Query.{Net}
use rust_encrypted_dns_serve.Recursor.Contact.{IsSafe}
use rust_encrypted_dns_serve.Recursor.Dname.{Substituted, to_name, failed}
use rust_encrypted_dns_serve.Recursor.Delegation.{DelegationEntry}
use rust_encrypted_dns_serve.Recursor.Chain.{
  Chain, in_loop, in_answers, unfinished, ends_at, has_record,
}
use rust_encrypted_dns_serve.Recursor.Referral.{
  Referral, terminal, invalid, delegated, glue, glue_of,
}
use rust_encrypted_dns_serve.Recursor.State.{
  State, Resolved, answered, stopped, Walk, Next, finish, go,
}
use rust_encrypted_dns_serve.Recursor.Redirect.{
  Resolver, seen_before, visit, redirect, follow_dname, after_chain, joined, synthesized,
}
use rust_encrypted_dns_serve.Recursor.Resolve.{
  dedup, resolve_ns, resolve_all_ns, next_servers, descend, addresses, refer, ns_key, a_address,
  aaaa_address,
}

abbrev pub IsSafeEntry : DelegationEntry → Type 0
IsSafeEntry e = All IsSafe e.servers

-- Every packet went to a safe address, and every remembered server is safe.
abbrev pub IsSafeState : State → Type 0
IsSafeState st = All IsSafe st.sent × All (λ x. IsSafeEntry x.1) st.delegations

-- The addresses are safe, and so is the state.
abbrev IsSafePair : List IpAddr × State → Type 0
IsSafePair (ips, st) = All IsSafe ips × IsSafeState st

dedup-IsSafe : (seen ips : List IpAddr) → All IsSafe ips → All IsSafe (dedup seen ips)
unfolding dedup
dedup-IsSafe seen [] h = tt
dedup-IsSafe seen (ip ∷ ips) h = elim (Bool-cases (any (ip_beq ip) seen)) [
  | inl old ↦ rw (old, if◌then◌else◌) (dedup-IsSafe seen ips h.1)
  | inr new ↦ rw (new, if◌then◌else◌) (h.0, dedup-IsSafe (ip ∷ seen) ips h.1)
]

module _ {Name : Type 0} where
  abbrev pub state_of : Resolved Name → State
  state_of (answered m st) = st
  state_of (stopped e st) = st

  abbrev pub IsSafeNext : Next Name → Type 0
  IsSafeNext (finish r) = IsSafeState (state_of r)
  IsSafeNext (go w st) = IsSafeState st

  abbrev pub IsSafeResolver : Resolver Name → Type 0
  IsSafeResolver rec =
      (name : Name) (rtype : ℕ) (st : State)
      → IsSafeState st
      → IsSafeState (state_of (rec name rtype st))

  addresses-IsSafePair :
      (f : RData Name → Option IpAddr) (r : Resolved Name)
      → IsSafeState (state_of r)
      → IsSafePair (addresses f r)
  addresses-IsSafePair f (answered m st) h =
      (All-keep is_safe_upstream_ip (keep_map (λ r. f r.rdata) m.answers), h)
  addresses-IsSafePair f (stopped e st) h = (tt, h)

module _ {Name : Type 0} (N : NameOps Name) (W : Net Name) where
  joined-IsSafeState :
      (name : Name) (rtype : ℕ) (response : Message Name) (r : Resolved Name)
      → IsSafeState (state_of r)
      → IsSafeState (state_of (joined N W name rtype response r))
  joined-IsSafeState name rtype response (answered m st) h = h
  joined-IsSafeState name rtype response (stopped e st) h = h

  redirect-IsSafeState :
      (rec : Resolver Name) (key : Bytes) (name : Name) (rtype : ℕ) (response : Message Name)
      (target : Name) (st : State)
      → IsSafeResolver rec
      → IsSafeState st
      → IsSafeState (state_of (redirect N W rec key name rtype response target st))
  unfolding redirect
  redirect-IsSafeState rec key name rtype response target st good h =
      elim (Bool-cases (seen_before key st.visited)) [
        | inl again ↦ rw (again, redirect) h
        | inr new ↦
            rw (new, redirect)
              (joined-IsSafeState name rtype response (rec target rtype (visit key st))
                (good target rtype (visit key st) h))
      ]

  pub after_chain-IsSafeState :
      (rec : Resolver Name) (name : Name) (rtype : ℕ) (response : Message Name) (st : State)
      (c : Chain Name)
      → IsSafeResolver rec
      → IsSafeState st
      → IsSafeState (state_of (after_chain N W rec name rtype response st c))
  after_chain-IsSafeState rec name rtype response st in_loop good h = h
  after_chain-IsSafeState rec name rtype response st unfinished good h = h
  after_chain-IsSafeState rec name rtype response st in_answers good h = h
  after_chain-IsSafeState rec name rtype response st (ends_at target) good h =
      redirect-IsSafeState rec _ name rtype response target st good h

  pub follow_dname-IsSafeState :
      (rec : Resolver Name) (name : Name) (rtype : ℕ) (response : Message Name) (ttl : ℕ)
      (s : Substituted Name) (st : State)
      → IsSafeResolver rec
      → IsSafeState st
      → IsSafeState (state_of (follow_dname N W rec name rtype response ttl s st))
  unfolding follow_dname
  follow_dname-IsSafeState rec name rtype response ttl (failed code) st good h =
      elim (Bool-cases (code == yx_domain)) [
        | inl long ↦ rw (long, if◌then◌else◌) h
        | inr wrong ↦ rw (wrong, if◌then◌else◌) h
      ]
  follow_dname-IsSafeState rec name rtype response ttl (to_name n) st good h =
      let working = synthesized N W name n ttl response in
      elim (Bool-cases (has_record N n rtype working.answers)) [
        | inl there ↦ rw (there, follow_dname) h
        | inr elsewhere ↦
            rw (elsewhere, follow_dname) (redirect-IsSafeState rec _ name rtype working n st good h)
      ]

  resolve_ns-IsSafePair :
      (rec : Resolver Name) (n : Name) (st : State)
      → IsSafeResolver rec
      → IsSafeState st
      → IsSafePair (resolve_ns N W rec n st)
  unfolding resolve_ns
  resolve_ns-IsSafePair rec n st good h =
      let key = ns_key (N.lower_string n) in
      elim (Bool-cases (seen_before key st.visited)) [
        | inl again ↦ rw (again, resolve_ns) (tt, h)
        | inr new ↦
            let four = addresses a_address (rec n a_type (visit key st)) in
            let (fours, safe) =
              addresses-IsSafePair a_address (rec n a_type (visit key st))
                (good n a_type (visit key st) h) in
            let (sixes, safe') =
              addresses-IsSafePair aaaa_address (rec n aaaa_type four.1)
                (good n aaaa_type four.1 safe) in
            rw (new, resolve_ns) (All-append IsSafe _ _ fours sixes, safe')
      ]

  resolve_all_ns-IsSafePair :
      (rec : Resolver Name) (ns : List Name) (ips : List IpAddr) (st : State)
      → IsSafeResolver rec
      → All IsSafe ips
      → IsSafeState st
      → IsSafePair (resolve_all_ns N W rec ns ips st)
  unfolding resolve_all_ns
  resolve_all_ns-IsSafePair rec [] ips st good a h = (a, h)
  resolve_all_ns-IsSafePair rec (n ∷ ns) ips st good a h =
      let found = resolve_ns N W rec n st in
      let (more, safe) = resolve_ns-IsSafePair rec n st good h in
      let all = All-append IsSafe ips found.0 a more in
      elim (Bool-cases (leb 4 (length (ips ++ found.0)))) [
        | inl enough ↦ rw (enough, resolve_all_ns) (all, safe)
        | inr few ↦
            rw (few, resolve_all_ns)
              (resolve_all_ns-IsSafePair rec ns (ips ++ found.0) found.1 good all safe)
      ]

  next_servers-IsSafePair :
      (rec : Resolver Name) (w : Walk Name) (owner : Name) (ns : List Name)
      (response : Message Name) (st : State)
      → IsSafeResolver rec
      → IsSafeState st
      → IsSafePair (next_servers N W rec w owner ns response st)
  unfolding next_servers glue
  next_servers-IsSafePair rec w owner ns response st good h =
      let given = keep_map (glue_of N w.bailiwick owner ns) response.additionals in
      from_glue (filter_safe_ips given) (All-keep is_safe_upstream_ip given)
    where
      from_glue :
          (ips : List IpAddr)
          → All IsSafe ips
          → IsSafePair (elim ips [
            | ip ∷ rest ↦ (ip ∷ rest, st)
            | [] ↦
                (let (found, st') = resolve_all_ns N W rec (take 4 ns) [] st in
                  (dedup [] found, st'))
          ])
      from_glue (ip ∷ rest) a = (a, h)
      from_glue [] a =
          let (found, safe) = resolve_all_ns-IsSafePair rec (take 4 ns) [] st good tt h in
          (dedup-IsSafe [] (resolve_all_ns N W rec (take 4 ns) [] st).0 found, safe)

  descend-IsSafeNext :
      (owner : Name) (response : Message Name) (found : List IpAddr × State)
      → IsSafePair found
      → IsSafeNext (descend N W owner response found)
  unfolding descend
  descend-IsSafeNext owner response ([], st) (a, h) = h
  descend-IsSafeNext owner response (ip ∷ ips, st) (a, (sent, kept)) =
      (sent, Map.All-insert IsSafeEntry (N.lower_string owner) _ st.delegations a kept)

  pub refer-IsSafeNext :
      (rec : Resolver Name) (w : Walk Name) (response : Message Name) (st : State)
      (r : Referral Name)
      → IsSafeResolver rec
      → IsSafeState st
      → IsSafeNext (refer N W rec w response st r)
  refer-IsSafeNext rec w response st terminal good h = h
  refer-IsSafeNext rec w response st invalid good h = h
  refer-IsSafeNext rec w response st (delegated owner ns) good h =
      descend-IsSafeNext owner response _
        (next_servers-IsSafePair rec w owner ns response st good h)

-- ===== src/Recursor/Resolve.antt =====
-- `resolve_internal` (src/recursor.rs). The depth is what is left of MAX_DEPTH + 1, so that the
-- recursion is structural, and so are the rounds of the loop in MAX_STEPS. An inner resolution is
-- the argument `rec` of all that starts one.
use rust_encrypted_dns_serve.Base.{
  ℕ, zero, suc, ◌+◌, true, false, Option, none, some, List, [], ◌∷◌, ◌++◌, Bytes, bytes_eq, leb,
  if◌then◌else◌, any, find_map, keep_map, is_empty, length, take,
}
use rust_encrypted_dns_serve.Base.Map
use rust_encrypted_dns_serve.Wire.Codes.{a_type, aaaa_type}
use rust_encrypted_dns_serve.Wire.Ip.{IpAddr, ip_beq}
use rust_encrypted_dns_serve.Wire.Names.{NameOps}
use rust_encrypted_dns_serve.Wire.Messages.{RData, Message}
use rust_encrypted_dns_serve.Recursor.Ttl.{delegation_ttl}
use rust_encrypted_dns_serve.Recursor.Safe.{filter_safe_ips}
use rust_encrypted_dns_serve.Recursor.Query.{Net, query_servers}
use rust_encrypted_dns_serve.Recursor.Dname.{dname_substitute}
use rust_encrypted_dns_serve.Recursor.Delegation.{find_cached_start, purge_delegation_for}
use rust_encrypted_dns_serve.Recursor.Chain.{has_record, find_cname}
use rust_encrypted_dns_serve.Recursor.Redirect.{
  seen_before, visit, Resolver, follow_cname, dname_at, follow_dname,
}
use rust_encrypted_dns_serve.Recursor.Referral.{
  Referral, terminal, invalid, delegated, referral, glue,
}
use rust_encrypted_dns_serve.Recursor.State.{
  depth_exceeded, step_limit_exceeded, all_nameservers_failed, glue_resolution_failed, no_progress,
  State, Resolved, answered, stopped, Walk, Next, finish, go, max_depth, max_steps, root_servers,
}

-- The prefix "ns:resolve:".
abbrev pub ns_key : Bytes → Bytes
ns_key s = b'n' ∷ b's' ∷ b':' ∷ b'r' ∷ b'e' ∷ b's' ∷ b'o' ∷ b'l' ∷ b'v' ∷ b'e' ∷ b':' ∷ s

-- `retain(|ip| seen_ips.insert(*ip))`
unfoldable pub dedup : List IpAddr → List IpAddr → List IpAddr
dedup seen [] = []
dedup seen (ip ∷ ips) =
    let later = dedup seen ips in
    let fresh = dedup (ip ∷ seen) ips in if any (ip_beq ip) seen then later else ip ∷ fresh

module _ {Name : Type 0} where
  abbrev pub a_address : RData Name → Option IpAddr
  a_address (RData.a ip) = some ip
  a_address _ = none

  abbrev pub aaaa_address : RData Name → Option IpAddr
  aaaa_address (RData.aaaa ip) = some ip
  aaaa_address _ = none

  -- The safe addresses of an inner answer, none for an error, and the state it leaves.
  abbrev pub addresses : (RData Name → Option IpAddr) → Resolved Name → List IpAddr × State
  addresses f (answered m st) = (filter_safe_ips (keep_map (λ r. f r.rdata) m.answers), st)
  addresses f (stopped e st) = ([], st)

  abbrev from_root : Name → Walk Name
  from_root root = record {
    using_cached = false;
    servers = root_servers;
    last_zone = none;
    bailiwick = root;
  }

module _ {Name : Type 0} (N : NameOps Name) (W : Net Name) where
  open N use {root, lower_string}
  open W use {clock}

  -- The addresses of one name server, by A and by AAAA.
  unfoldable pub resolve_ns : Resolver Name → Name → State → List IpAddr × State
  resolve_ns rec ns_name st = elim (seen_before (ns_key (lower_string ns_name)) st.visited) [
    | true ↦ ([], st)
    | false ↦
        (let (four, st4) =
            addresses a_address (rec ns_name a_type (visit (ns_key (lower_string ns_name)) st)) in
          let (six, st6) = addresses aaaa_address (rec ns_name aaaa_type st4) in (four ++ six, st6))
  ]

  unfoldable pub resolve_all_ns :
      Resolver Name → List Name → List IpAddr → State → List IpAddr × State
  resolve_all_ns rec [] ips st = (ips, st)
  resolve_all_ns rec (n ∷ ns) ips st =
      let (more, st') = resolve_ns rec n st in
      elim (leb 4 (length (ips ++ more))) [
        | true ↦ (ips ++ more, st')
        | false ↦ resolve_all_ns rec ns (ips ++ more) st'
      ]

  -- Glue, or the resolved addresses of up to four name servers.
  unfoldable pub next_servers :
      Resolver Name → Walk Name → Name → List Name → Message Name → State → List IpAddr × State
  next_servers rec w owner ns_names response st =
      elim (glue N w.bailiwick owner ns_names response) [
        | ip ∷ ips ↦ (ip ∷ ips, st)
        | [] ↦ (let (ips, st') = resolve_all_ns rec (take 4 ns_names) [] st in (dedup [] ips, st'))
      ]

  abbrev pub remember : Name → Message Name → List IpAddr → State → State
  remember owner response ips st = record st {
    delegations =
        Map.insert (lower_string owner)
          (record { servers = ips; expires_at = clock st.races + delegation_ttl response })
          st.delegations;
  }

  unfoldable pub descend : Name → Message Name → List IpAddr × State → Next Name
  descend owner response ([], st) = finish (stopped glue_resolution_failed st)
  descend owner response (ip ∷ ips, st) =
      go
        (record {
          using_cached = false;
          servers = ip ∷ ips;
          last_zone = some owner;
          bailiwick = owner;
        })
        (remember owner response (ip ∷ ips) st)

  abbrev pub refer : Resolver Name → Walk Name → Message Name → State → Referral Name → Next Name
  refer rec w response st terminal = finish (answered response st)
  refer rec w response st invalid = finish (stopped no_progress st)
  refer rec w response st (delegated owner ns_names) =
      descend owner response (next_servers rec w owner ns_names response st)

  -- A response: an answer, an alias, or a referral.
  unfoldable pub on_response :
      Resolver Name → Name → ℕ → Walk Name → Message Name → State → Next Name
  on_response rec name rtype w response st = elim (has_record N name rtype response.answers) [
    | true ↦ finish (answered response st)
    | false ↦ elim (find_cname N name response.answers) [
      | some target ↦ finish (follow_cname N W rec name rtype response target st)
      | none ↦ elim (find_map (dname_at N W name) response.answers) [
        | some (owner, (target, ttl)) ↦
            finish (
              follow_dname N W rec name rtype response ttl (dname_substitute N name owner target)
                st)
        | none ↦ refer rec w response st (referral N w name rtype response)
      ]
    ]
  ]

  -- The servers failed: a remembered delegation is forgotten, and the search starts over.
  unfoldable pub on_failure : Name → ℕ → Walk Name → State → Next Name
  on_failure name rtype w st = elim w.using_cached [
    | true ↦
        go (from_root root)
          (record st { delegations = purge_delegation_for N st.delegations name rtype })
    | false ↦ finish (stopped all_nameservers_failed st)
  ]

  unfoldable pub step : Resolver Name → Name → ℕ → Walk Name → State → Next Name
  step rec name rtype w st =
      let (response, sent) = query_servers N W st.races w.servers name rtype in
      let st' = record st { races = st.races + 1; sent = st.sent ++ sent } in
      elim response [
        | none ↦ on_failure name rtype w st'
        | some m ↦ on_response rec name rtype w m st'
      ]

  unfoldable pub walk : ℕ → Resolver Name → Name → ℕ → Walk Name → State → Resolved Name
  walk zero rec name rtype w st = stopped step_limit_exceeded st
  walk (suc n) rec name rtype w st = elim (step rec name rtype w st) [
    | finish r ↦ r
    | go w' st' ↦ walk n rec name rtype w' st'
  ]

  -- Where the walk starts: at a remembered delegation, or at the root.
  unfoldable pub start : Name → ℕ → State → Walk Name
  start name rtype st = elim (find_cached_start N (clock st.races) st.delegations name rtype) [
    | none ↦ from_root root
    | some ips ↦
        if is_empty ips
        then from_root root
        else record (from_root root) { using_cached = true; servers = ips }
  ]

  unfoldable pub resolve_internal : ℕ → Resolver Name
  resolve_internal zero name rtype st = stopped depth_exceeded st
  resolve_internal (suc n) name rtype st =
      walk max_steps (resolve_internal n) name rtype (start name rtype st) st

  unfoldable pub resolve : Resolver Name
  resolve name rtype st = resolve_internal (max_depth + 1) name rtype (record st { visited = [] })

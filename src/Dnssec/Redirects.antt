-- ===== src/Dnssec/Redirects.antt =====
-- The aliases of an answer (src/dnssec.rs), at most MAX_CNAME_CHAIN of them.
use rust_encrypted_dns_serve.Base.{
  ℕ, zero, suc, true, false, not, ◌&&◌, Option, none, some, List, [], ◌∷◌, ◌==◌, if◌then◌else◌, any,
  find_map,
}
use rust_encrypted_dns_serve.Wire.Codes.{dname_record_type}
use rust_encrypted_dns_serve.Wire.Names.{NameOps}
use rust_encrypted_dns_serve.Wire.Messages.{RData, Record}
use rust_encrypted_dns_serve.Recursor.Dname.{Substituted, to_name, failed, dname_substitute}
use rust_encrypted_dns_serve.Recursor.Chain.{find_cname}

abbrev pub max_cname_chain : ℕ
max_cname_chain = 16

pub data RedirectionStep (Name : Type 0) : Type 0 where
  cname_step : Name → Name → RedirectionStep Name
  dname_step : Name → Name → Name → Name → RedirectionStep Name

pub data RedirectionChainResult (Name : Type 0) : Type 0 where
  complete : List (RedirectionStep Name) → RedirectionChainResult Name
  cycle too_long : RedirectionChainResult Name

module _ {Name : Type 0} where
  abbrev prepend : RedirectionStep Name → RedirectionChainResult Name → RedirectionChainResult Name
  prepend s (complete c) = complete (s ∷ c)
  prepend s cycle = cycle
  prepend s too_long = too_long

  -- The name after a step.
  abbrev pub after_step : RedirectionStep Name → Name
  after_step (cname_step owner target) = target
  after_step (dname_step owner target input redirected) = redirected

  abbrev pub last_name : Name → List (RedirectionStep Name) → Name
  last_name name [] = name
  last_name name (s ∷ ss) = last_name (after_step s) ss

module _ {Name : Type 0} (N : NameOps Name) (read_dname : RData Name → Option Name) where
  open N use {eq, zone_of}

  abbrev substituted_step : Name → Name → Name → Substituted Name → Option (RedirectionStep Name)
  substituted_step owner target current (failed code) = none
  substituted_step owner target current (to_name sub) = some (dname_step owner target current sub)

  abbrev dname_step_at : Name → Record Name → Option (RedirectionStep Name)
  dname_step_at current r =
      if r.record_type == dname_record_type && (zone_of r.name current && not (eq r.name current))
      then (elim (read_dname r.rdata) [
        | none ↦ none
        | some target ↦
            substituted_step r.name target current (dname_substitute N current r.name target)
      ])
      else none

  -- The next alias of a name: a CNAME, or a DNAME above it.
  unfoldable pub next_step : List (Record Name) → Name → Option (RedirectionStep Name)
  next_step records current = elim (find_cname N current records) [
    | some target ↦ some (cname_step current target)
    | none ↦ find_map (dname_step_at current) records
  ]

  unfoldable pub collect : ℕ → List (Record Name) → List Name → Name → RedirectionChainResult Name
  collect zero records seen current = if any (eq current) seen then cycle else too_long
  collect (suc n) records seen current = elim (any (eq current) seen) [
    | true ↦ cycle
    | false ↦ elim (next_step records current) [
      | none ↦ complete []
      | some s ↦ prepend s (collect n records (current ∷ seen) (after_step s))
    ]
  ]

  unfoldable pub collect_redirection_chain : Name → List (Record Name) → RedirectionChainResult Name
  collect_redirection_chain name records = collect max_cname_chain records [] name

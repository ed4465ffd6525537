-- ===== src/Recursor/Redirect.antt =====
-- Where the resolver follows an alias (src/recursor.rs): a CNAME or a DNAME record. An inner resolution
-- is the argument `rec`.
use rust_encrypted_dns_serve.Base.{
  ℕ, ◌+◌, Bool, true, false, not, ◌&&◌, Option, none, some, List, [], ◌∷◌, ◌++◌, Bytes, bytes_beq,
  bytes_eq, ◌==◌, if◌then◌else◌, any, length,
}
use rust_encrypted_dns_serve.Wire.Codes.{cname_type, dname_record_type, in_class, yx_domain}
use rust_encrypted_dns_serve.Wire.Names.{NameOps}
use rust_encrypted_dns_serve.Wire.Messages.{RData, Record, Message}
use rust_encrypted_dns_serve.Recursor.Query.{Net}
use rust_encrypted_dns_serve.Recursor.Dname.{Substituted, to_name, failed}
use rust_encrypted_dns_serve.Recursor.Merge.{merge_redirection_response}
use rust_encrypted_dns_serve.Recursor.Chain.{
  Chain, in_loop, in_answers, unfinished, ends_at, has_record, follow_cnames,
}
use rust_encrypted_dns_serve.Recursor.State.{no_progress, State, Resolved, answered, stopped}

abbrev pub seen_before : Bytes → List Bytes → Bool
seen_before k = any (bytes_beq k)

-- The prefixes "cname:" and "dname:".
abbrev pub cname_key : Bytes → Bytes
cname_key s = b'c' ∷ b'n' ∷ b'a' ∷ b'm' ∷ b'e' ∷ b':' ∷ s

abbrev pub dname_key : Bytes → Bytes
dname_key s = b'd' ∷ b'n' ∷ b'a' ∷ b'm' ∷ b'e' ∷ b':' ∷ s

abbrev pub visit : Bytes → State → State
visit k st = record st { visited = k ∷ st.visited }

abbrev pub Resolver : Type 0 → Type 0
Resolver Name = Name → ℕ → State → Resolved Name

module _ {Name : Type 0} (N : NameOps Name) (W : Net Name) where
  open N use {eq, zone_of, lower_string}
  open W use {read_dname, same_record}

  abbrev pub joined : Name → ℕ → Message Name → Resolved Name → Resolved Name
  joined name rtype response (stopped e st) = stopped e st
  joined name rtype response (answered m st) =
      answered (merge_redirection_response same_record name rtype response m) st

  -- An alias leads elsewhere: once for each target.
  unfoldable pub redirect :
      Resolver Name → Bytes → Name → ℕ → Message Name → Name → State → Resolved Name
  redirect rec key name rtype response target st = elim (seen_before key st.visited) [
    | true ↦ stopped no_progress st
    | false ↦ joined name rtype response (rec target rtype (visit key st))
  ]

  abbrev pub after_chain :
      Resolver Name → Name → ℕ → Message Name → State → Chain Name → Resolved Name
  after_chain rec name rtype response st in_loop = stopped no_progress st
  after_chain rec name rtype response st unfinished = stopped no_progress st
  after_chain rec name rtype response st in_answers = answered response st
  after_chain rec name rtype response st (ends_at target) =
      redirect rec (cname_key (lower_string target)) name rtype response target st

  unfoldable pub follow_cname :
      Resolver Name → Name → ℕ → Message Name → Name → State → Resolved Name
  follow_cname rec name rtype response target st = after_chain rec name rtype response st (
      follow_cnames N (length response.answers + 1) response.answers rtype (lower_string name ∷ [])
        target)

  -- `extract_dname_target`, and the search for a DNAME above the name.
  unfoldable pub extract_dname_target : Record Name → Option Name
  extract_dname_target r = if r.record_type == dname_record_type then read_dname r.rdata else none

  abbrev pub dname_at : Name → Record Name → Option (Name × (Name × ℕ))
  dname_at name r =
      if r.record_type == dname_record_type && (zone_of r.name name && not (eq r.name name))
      then (elim (extract_dname_target r) [
        | some target ↦ some (r.name, (target, r.ttl))
        | none ↦ none
      ])
      else none

  abbrev pub synthesized : Name → Name → ℕ → Message Name → Message Name
  synthesized name substituted ttl response =
      if has_record N name cname_type response.answers then response else record response {
        answers =
            response.answers
            ++ (record {
              name = name;
              record_type = cname_type;
              dns_class = in_class;
              ttl = ttl;
              rdata = RData.cname substituted;
            }
                ∷ []);
      }

  unfoldable pub follow_dname :
      Resolver Name → Name → ℕ → Message Name → ℕ → Substituted Name → State → Resolved Name
  follow_dname rec name rtype response ttl (failed code) st =
      if code == yx_domain
      then answered (record response { response_code = yx_domain }) st
      else stopped no_progress st
  follow_dname rec name rtype response ttl (to_name substituted) st =
      let working = synthesized name substituted ttl response in
      elim (has_record N substituted rtype working.answers) [
        | true ↦ answered working st
        | false ↦
            redirect rec (dname_key (lower_string substituted)) name rtype working substituted st
      ]

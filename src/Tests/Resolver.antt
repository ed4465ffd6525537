-- ===== src/Tests/Resolver.antt =====
-- The theorems on src/recursor.rs at concrete names.
use rust_encrypted_dns_serve.Base.{
  ℕ, Option, some, none, length, ◌==◌, ◌+◌, ◌*◌, ◌≤◌, ◌≡◌, ◌↔◌, refl, Bytes, bytes_beq, find,
  if◌then◌else◌, arith, false, none, some, List, [], ◌∷◌, All, nat_eq, beq_self, bytes_eq,
}
use rust_encrypted_dns_serve.Base.Text.{codes}
use rust_encrypted_dns_serve.Wire.Codes.{a_type, in_class}
use rust_encrypted_dns_serve.Wire.Ip.{v4, v6}
use rust_encrypted_dns_serve.Wire.Messages.{Record}
use rust_encrypted_dns_serve.Recursor.Ttl.{
  calculate_min_ttl, calculate_min_ttl-le, delegation_ttl, delegation_ttl-le, max_delegation_ttl,
  HasTtlFrom,
}
use rust_encrypted_dns_serve.Recursor.Safe.{is_safe_upstream_ip}
use rust_encrypted_dns_serve.Recursor.Blocks.{is_safe_upstream_ip_blocks}
use rust_encrypted_dns_serve.Recursor.Query.{query_servers}
use rust_encrypted_dns_serve.Recursor.Contact.{IsSafe}
use rust_encrypted_dns_serve.Recursor.Contacted.{IsAnswer, query_servers-IsAnswer}
use rust_encrypted_dns_serve.Recursor.Delegation.{
  Delegations, Known, find_cached_start, find_cached_start_lem, start_name,
}
use rust_encrypted_dns_serve.Recursor.Chain.{follow_cnames, follow_cnames_lem, Follows, find_cname}
use rust_encrypted_dns_serve.Recursor.Merge.{
  StartsWith, Holds, merge_redirection_response, merge_redirection_response_lem,
}
use rust_encrypted_dns_serve.Recursor.Resolve.{resolve}
use rust_encrypted_dns_serve.Recursor.Safety.{IsSafeState, state_of}
use rust_encrypted_dns_serve.Recursor.Walks.{resolve-IsSafeState}
use rust_encrypted_dns_serve.Recursor.Asked.{Answers, resolve-Answers}
use rust_encrypted_dns_serve.Wire.Names.{NameOps}
use rust_encrypted_dns_serve.Recursor.Dname.{
  to_name, substituted_text, Substitutes, dname_substitute, dname_substitute-to_name,
}
use rust_encrypted_dns_serve.Recursor.State.{Resolved, answered, stopped}
use rust_encrypted_dns_serve.Recursor.Safe.{is_safe_v4, is_shared}
use rust_encrypted_dns_serve.Recursor.Merge.{add_missing}
use rust_encrypted_dns_serve.Recursor.Delegation.{find_from}
use rust_encrypted_dns_serve.Recursor.Query.{
  query_batches, query_batch, first_usable, sent_to, query_socket, first_response, decode_response,
  response_matches,
}
use rust_encrypted_dns_serve.Recursor.Redirect.{follow_cname, redirect}
use rust_encrypted_dns_serve.Recursor.Resolve.{resolve_internal, walk, start, step, on_response}
use rust_encrypted_dns_serve.Tests.Net.{
  numbers, network, first_state, reply, alias_record, host_record,
}

resolve-IsSafeState_example : IsSafeState (state_of (resolve numbers network 7 a_type first_state))
resolve-IsSafeState_example = resolve-IsSafeState numbers network 7 a_type first_state (tt, tt)

resolve-Answers_example :
    Answers numbers network 7 a_type (resolve numbers network 7 a_type first_state)
resolve-Answers_example = resolve-Answers numbers network 7 a_type first_state

query_servers-IsAnswer_example :
    let asked = query_servers numbers network 3 (v4 192 168 1 1 ∷ v4 9 9 9 9 ∷ []) 8 a_type in
    All IsSafe asked.1 × IsAnswer numbers network 3 8 a_type asked.1 asked.0
query_servers-IsAnswer_example =
    query_servers-IsAnswer numbers network 3 8 a_type (λ ips ip here. here)
      (v4 192 168 1 1 ∷ v4 9 9 9 9 ∷ [])

is_safe_upstream_ip_blocks_example :
    (is_safe_upstream_ip (v4 100 100 3 4) ≡ false)
    × (is_safe_upstream_ip (v6 0 0 0 0 0 0xffff (256 * 100 + 100) (256 * 3 + 4)) ≡ false)
is_safe_upstream_ip_blocks_example =
    is_safe_upstream_ip_blocks 100 100 3 4 (omega arith) (omega arith) (omega arith) (omega arith)

abbrev remembered : Delegations
remembered =
    (3 ∷ [], record { servers = v4 9 9 9 9 ∷ []; expires_at = 2000 })
    ∷ (5 ∷ [], record { servers = v4 8 8 8 8 ∷ []; expires_at = 500 })
    ∷ []

find_cached_start_lem_example :
    ((ips : List _)
      → find_cached_start numbers 1000 remembered 6 a_type ≡ some ips
      → Known numbers 1000 remembered (start_name numbers 6 a_type) ips)
    × (find_cached_start numbers 1000 remembered 6 a_type ≡ none
        → (ips : List _) → ¬ Known numbers 1000 remembered (start_name numbers 6 a_type) ips)
find_cached_start_lem_example = find_cached_start_lem numbers 1000 remembered 6 a_type

follow_cnames_lem_example :
    Follows numbers
      (alias_record ∷ host_record ∷ [])
      a_type
      7
      (follow_cnames numbers 3 (alias_record ∷ host_record ∷ []) a_type ((7 ∷ []) ∷ []) 8)
unfolding find_cname
follow_cnames_lem_example =
    follow_cnames_lem numbers (alias_record ∷ host_record ∷ []) a_type 7 8 refl

merge_redirection_response_lem_example :
    let same = λ (r s : Record ℕ). r.name == s.name in
    let m = merge_redirection_response same 7 a_type (reply 7) (reply 8) in
    (m.queries ≡ record { name = 7; query_type = a_type; query_class = in_class } ∷ [])
    × StartsWith same (reply 7).answers m.answers
    × All (λ r. Holds same r m.answers) (reply 8).answers
    × StartsWith same (reply 8).name_servers m.name_servers
    × ((P : Record ℕ → Type 0)
        → All P (reply 7).answers
        → All P (reply 8).answers
        → All P m.answers)
merge_redirection_response_lem_example =
    merge_redirection_response_lem (λ r s. r.name == s.name) 7 a_type (reply 7) (reply 8)
      (λ r. beq_self r.name)

calculate_min_ttl-le_example :
    let t = calculate_min_ttl (reply 8) in
    (t ≤ 86400)
    × HasTtlFrom t (reply 8).answers
    × HasTtlFrom t (reply 8).name_servers
    × HasTtlFrom t (reply 8).additionals
calculate_min_ttl-le_example = calculate_min_ttl-le (reply 8)

delegation_ttl-le_example :
    let t = delegation_ttl (reply 8) in
    (t ≤ max_delegation_ttl)
    × HasTtlFrom t (reply 8).name_servers
    × HasTtlFrom t (reply 8).additionals
delegation_ttl-le_example = delegation_ttl-le (reply 8)

-- Name 7 is resolved through its alias: both records answer, after two races from the root.
abbrev outcome_of : Resolved ℕ → Option (ℕ × ℕ)
outcome_of (answered m st) = some (length m.answers, length st.sent)
outcome_of (stopped e st) = none

resolve_alias : outcome_of (resolve numbers network 7 a_type first_state) ≡ some (2, 6)
unfolding resolve resolve_internal walk start step find_cached_start find_from query_servers
    query_batches query_batch first_usable sent_to query_socket first_response decode_response
    response_matches is_safe_upstream_ip is_safe_v4 is_shared on_response find_cname follow_cname
    follow_cnames redirect merge_redirection_response add_missing start_name
resolve_alias = refl

-- Names with texts: the root and "b.", "a.b.", "c.", "a.c." and "a.bc." below it.
abbrev spell : ℕ → Bytes
spell n =
    if n == 1
    then codes "b."
    else if n == 2
    then codes "a.b."
    else if n == 3
    then codes "c."
    else if n == 4
    then codes "a.c."
    else if n == 5
    then codes "a.bc."
    else codes "."

abbrev spelled : NameOps ℕ
spelled = record numbers {
  lower_string = spell;
  text = spell;
  from_str = λ s. find (λ n. bytes_beq (spell n) s) (1 ∷ 2 ∷ 3 ∷ 4 ∷ 5 ∷ []);
}

dname_substitute-to_name_example :
    (dname_substitute spelled 2 1 3 ≡ to_name 4) ↔ Substitutes spelled 2 1 3 4
dname_substitute-to_name_example = dname_substitute-to_name spelled 2 1 3 4

below_owner : dname_substitute spelled 2 1 3 ≡ to_name 4
unfolding dname_substitute substituted_text
below_owner = refl

-- With the root for its owner, the name "a.b." becomes "a.bc." for the target "c.".
root_owner_fuses : dname_substitute spelled 2 0 3 ≡ to_name 5
unfolding dname_substitute substituted_text
root_owner_fuses = refl

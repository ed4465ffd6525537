-- ===== src/Recursor/Referral.antt =====
-- What a response without the wanted records says: that the search ends, or where to go on
-- (src/recursor.rs).
use rust_encrypted_dns_serve.Base.{
  ℕ, Bool, true, false, not, ◌&&◌, ◌||◌, Option, none, some, List, ◌==◌, if◌then◌else◌, any, find,
  find_map, keep_map, is_empty,
}
use rust_encrypted_dns_serve.Wire.Codes.{ns_type, ds_type, nx_domain}
use rust_encrypted_dns_serve.Wire.Ip.{IpAddr}
use rust_encrypted_dns_serve.Wire.Names.{NameOps}
use rust_encrypted_dns_serve.Wire.Messages.{RData, Record, Message}
use rust_encrypted_dns_serve.Recursor.Safe.{filter_safe_ips}
use rust_encrypted_dns_serve.Recursor.State.{Walk}

pub data Referral (Name : Type 0) : Type 0 where
  terminal invalid : Referral Name
  delegated : Name → List Name → Referral Name

module _ {Name : Type 0} where
  abbrev soa_owner : Record Name → Option Name
  soa_owner r = elim (is_soa r.rdata) [ true ↦ some r.name | false ↦ none ]
    where
      is_soa : RData Name → Bool
      is_soa RData.soa = true
      is_soa _ = false

  abbrev ns_of : RData Name → Option Name
  ns_of (RData.ns n) = some n
  ns_of _ = none

  abbrev is_ns : Record Name → Bool
  is_ns r = r.record_type == ns_type

  abbrev ns_target : Record Name → Option Name
  ns_target r = if is_ns r then ns_of r.rdata else none

  abbrev address_of : RData Name → Option IpAddr
  address_of (RData.a ip) = some ip
  address_of (RData.aaaa ip) = some ip
  address_of _ = none

module _ {Name : Type 0} (N : NameOps Name) where
  open N use {eq, zone_of, is_root}

  abbrev soa_covers : Name → ℕ → Option Name → Bool
  soa_covers name rtype none = false
  soa_covers name rtype (some zone) =
      zone_of zone name
      || eq zone name
      || (rtype == ds_type && (zone_of name zone || zone_of zone name))

  abbrev same_zone : Option Name → Name → Bool
  same_zone none owner = false
  same_zone (some z) owner = eq z owner

  -- The tests on the owner of the delegation, after the NS records have been gathered.
  unfoldable pub accept : Walk Name → Name → Name → List Name → Referral Name
  accept w name owner ns_names =
      if is_empty ns_names
      then terminal
      else if same_zone w.last_zone owner
      then invalid
      else if (zone_of owner name || eq owner name)
          && (is_root w.bailiwick || zone_of w.bailiwick owner || eq w.bailiwick owner)
      then delegated owner ns_names
      else invalid

  unfoldable pub referral : Walk Name → Name → ℕ → Message Name → Referral Name
  referral w name rtype response =
      if soa_covers name rtype (find_map soa_owner response.name_servers)
      then terminal
      else if response.response_code == nx_domain && response.authoritative
      then terminal
      else if is_empty response.name_servers
      then invalid
      else (elim (find is_ns response.name_servers) [
        | none ↦ terminal
        | some first ↦
            if any (λ r. is_ns r && not (eq r.name first.name)) response.name_servers
            then invalid
            else accept w name first.name (keep_map ns_target response.name_servers)
      ])

  -- The address of an additional record that may be used as glue.
  unfoldable pub glue_of : Name → Name → List Name → Record Name → Option IpAddr
  glue_of bailiwick owner ns_names r =
      if any (λ n. eq n r.name) ns_names
        && (is_root bailiwick
            || zone_of bailiwick r.name
            || eq bailiwick r.name
            || zone_of owner r.name
            || eq owner r.name)
      then address_of r.rdata
      else none

  unfoldable pub glue : Name → Name → List Name → Message Name → List IpAddr
  glue bailiwick owner ns_names response =
      filter_safe_ips (keep_map (glue_of bailiwick owner ns_names) response.additionals)

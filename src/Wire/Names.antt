-- ===== src/Wire/Names.antt =====
-- Domain names. `Name` is hickory-proto's type: its operations are a parameter, with the laws of
-- its documentation that the development uses.
use rust_encrypted_dns_serve.Base.{ℕ, ◌-◌, ◌≡◌, Bool, true, ◌==◌, Bytes, Option}

-- `eq` and `zone_of` disregard case. `labels` counts the labels, the root's none; `base_name`
-- drops the leftmost label. `less` is the canonical order of RFC 4034.
pub record NameOps (Name : Type 0) : Type 0 where
  pub root : Name
  pub labels : Name → ℕ
  -- hickory-proto's `num_labels`, which leaves out the `*` of a wildcard
  pub num_labels : Name → ℕ
  pub is_root : Name → Bool
  pub base_name : Name → Name
  pub eq : Name → Name → Bool
  pub zone_of : Name → Name → Bool
  pub less : Name → Name → Bool
  -- `to_string().to_lowercase()` and `to_ascii().to_lowercase()`
  pub lower_string : Name → Bytes
  pub lower_ascii : Name → Bytes
  -- `wildcard`: the name `*.` before the given one, as `Name::from_str` reads it
  pub wildcard : Name → Name
  -- `dname_substitute` of src/recursor.rs works on the text of names
  pub text : Name → Bytes
  pub from_str : Bytes → Option Name
  pub is_root_iff : (n : Name) → is_root n ≡ (labels n == 0)
  pub labels-base_name : (n : Name) → labels (base_name n) ≡ labels n - 1
  pub eq_refl : (n : Name) → eq n n ≡ true

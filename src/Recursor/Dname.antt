-- ===== src/Recursor/Dname.antt =====
-- DNAME substitution (src/recursor.rs), on the lower-case text of names.
use rust_encrypted_dns_serve.Base.{
  true, false, ◌≤◌, ◌≡◌, ◌↔◌, refl, sym, arith, All, ℕ, zero, suc, ◌-◌, Bool, not, ◌&&◌, ◌||◌, none,
  some, List, [], ◌∷◌, ◌++◌, Bytes, bytes_beq, bytes_beq_iff, ◌==◌, leb, ltb, if◌then◌else◌, length,
  length-append, take, any,
}
use rust_encrypted_dns_serve.Wire.Codes.{form_err, yx_domain}
use rust_encrypted_dns_serve.Wire.Names.{NameOps}

abbrev pub drop_bytes : ℕ → Bytes → Bytes
drop_bytes zero s = s
drop_bytes (suc n) [] = []
drop_bytes (suc n) (c ∷ s) = drop_bytes n s

-- `ends_with`
abbrev pub ends_with : Bytes → Bytes → Bool
ends_with s t = leb (length t) (length s) && bytes_beq (drop_bytes (length s - length t) s) t

abbrev pub dot_byte : ℕ
dot_byte = b'.'

-- `trim_end_matches('.')`
abbrev pub trim_end_dots : Bytes → Bytes
trim_end_dots [] = []
trim_end_dots (c ∷ s) = elim (trim_end_dots s) [
  | [] ↦ if c == dot_byte then [] else c ∷ []
  | d ∷ r ↦ c ∷ d ∷ r
]

-- `split('.')`: the parts between the dots, one more than there are dots.
abbrev push_first : ℕ → List Bytes → List Bytes
push_first c [] = (c ∷ []) ∷ []
push_first c (l ∷ ls) = (c ∷ l) ∷ ls

abbrev pub split_dots : Bytes → List Bytes
split_dots [] = [] ∷ []
split_dots (c ∷ s) =
    let rest = split_dots s in if c == dot_byte then [] ∷ rest else push_first c rest

-- What stands in front of a text's end.
abbrev front_of : Bytes → Bytes → Bytes
front_of s t = take (length s - length t) s

take-drop_bytes : (n : ℕ) (s : Bytes) → take n s ++ drop_bytes n s ≡ s
take-drop_bytes zero s = refl
take-drop_bytes (suc n) [] = refl
take-drop_bytes (suc n) (c ∷ s) = rw (take-drop_bytes n s) refl

ends_with-front : (s t : Bytes) → ends_with s t ≡ true → s ≡ front_of s t ++ t
ends_with-front s t h =
    let rest : drop_bytes (length s - length t) s ≡ t =
      (bytes_beq_iff (drop_bytes (length s - length t) s) t).0 (ground arith) in
    sym (rw rest at (take-drop_bytes (length s - length t) s))

length-front : (s t : Bytes) → length (s ++ t) - length t ≡ length s
length-front s t = omega (arith, length-append s t)

take-append : (s t : Bytes) → take (length s) (s ++ t) ≡ s
take-append [] t = refl
take-append (c ∷ s) t = rw (take-append s t) refl

drop_bytes-append : (s t : Bytes) → drop_bytes (length s) (s ++ t) ≡ t
drop_bytes-append [] t = refl
drop_bytes-append (c ∷ s) t = drop_bytes-append s t

front_of-append : (s t : Bytes) → front_of (s ++ t) t ≡ s
front_of-append s t = rw (length-front s t) (take-append s t)

ends_with-append : (s t : Bytes) → ends_with (s ++ t) t ≡ true
ends_with-append s t =
    let same = (bytes_beq_iff t t).1 refl in
    let long : leb (length t) (length (s ++ t)) ≡ true = ground (arith, length-append s t) in
    rw (length-front s t, drop_bytes-append s t, long) same

pub data Substituted (Name : Type 0) : Type 0 where
  to_name : Name → Substituted Name
  failed : ℕ → Substituted Name

module _ {Name : Type 0} (N : NameOps Name) where
  open N use {eq, zone_of, lower_string, text, from_str}

  -- The text of the new name, before it is read.
  unfoldable pub substituted_text : Name → Name → Name → Bytes
  substituted_text name owner target =
      let name_str = lower_string name in
      take (length name_str - length (lower_string owner)) name_str ++ text target

  abbrev has_long_label : Bytes → Bool
  has_long_label s = any (λ label. ltb 63 (length label)) (split_dots (trim_end_dots s))

  unfoldable pub dname_substitute : Name → Name → Name → Substituted Name
  dname_substitute name owner target =
      if not (zone_of owner name) || eq owner name
      then failed form_err
      else if not (ends_with (lower_string name) (lower_string owner))
      then failed form_err
      else (let new_name_str = substituted_text name owner target in
          if ltb 255 (length new_name_str)
          then failed yx_domain
          else if has_long_label new_name_str
          then failed yx_domain
          else (elim (from_str new_name_str) [ none ↦ failed yx_domain | some n ↦ to_name n ]))

  none_longer :
      (ls : List Bytes)
      → any (λ label. ltb 63 (length label)) ls ≡ false
      → All (λ label. length label ≤ 63) ls
  none_longer [] h = tt
  none_longer (l ∷ ls) h = (ground arith, none_longer ls (ground arith))

  all_short :
      (ls : List Bytes)
      → All (λ label. length label ≤ 63) ls
      → any (λ label. ltb 63 (length label)) ls ≡ false
  all_short [] h = refl
  all_short (l ∷ ls) h = let rest = all_short ls h.1 in let here = h.0 in ground (arith, rest, here)

  -- A substitution as it is described: the target's text takes the place of the owner's at the end of
  -- the name's, for a name below the owner; the new text has at most 255 bytes and no label over 63,
  -- and is read as the new name. A root owner's text is the final dot of the name's, which goes too.
  abbrev pub Substitutes : Name → Name → Name → Name → Type 0
  Substitutes name owner target n =
      (zone_of owner name ≡ true)
      × (eq owner name ≡ false)
      × (front : Bytes) × (lower_string name ≡ front ++ lower_string owner)
      × (from_str (front ++ text target) ≡ some n)
      × (length (front ++ text target) ≤ 255)
      × All (λ label. length label ≤ 63) (split_dots (trim_end_dots (front ++ text target)))

  to_name-Substitutes :
      (name owner target : Name) {n : Name}
      → dname_substitute name owner target ≡ to_name n
      → Substitutes name owner target n
  unfolding dname_substitute substituted_text
  to_name-Substitutes name owner target h =
      let ends : ends_with (lower_string name) (lower_string owner) ≡ true = ground arith in
      (
        ground arith,
        ground arith,
        front_of (lower_string name) (lower_string owner),
        ends_with-front (lower_string name) (lower_string owner) ends,
        ground arith,
        ground arith,
        none_longer
            (split_dots
              (trim_end_dots (front_of (lower_string name) (lower_string owner) ++ text target)))
            (ground arith),
      )

  Substitutes-to_name :
      (name owner target : Name) {n : Name}
      → Substitutes name owner target n
      → dname_substitute name owner target ≡ to_name n
  unfolding dname_substitute substituted_text
  Substitutes-to_name name owner target (below, other, front, split, read, fits, short) =
      let ends : ends_with (lower_string name) (lower_string owner) ≡ true =
        rw split (ends_with-append front (lower_string owner)) in
      let same : front_of (lower_string name) (lower_string owner) ≡ front =
        rw split (front_of-append front (lower_string owner)) in
      let no_long = all_short (split_dots (trim_end_dots (front ++ text target))) short in
      let small : ltb 255 (length (front ++ text target)) ≡ false = ground arith in
      rw (below, other, if◌then◌else◌)
        (rw (ends, if◌then◌else◌) (rw (same, small, no_long, read, dname_substitute) refl))

  -- A DNAME substitution yields a name exactly when the target's text takes the place of the owner's
  -- at the end of the name's text, the name lies strictly below the owner, and the new text has at most
  -- 255 bytes, no label over 63, and is read as that name.
  pub dname_substitute-to_name :
      (name owner target n : Name)
      → (dname_substitute name owner target ≡ to_name n) ↔ Substitutes name owner target n
  dname_substitute-to_name name owner target n =
      (to_name-Substitutes name owner target, Substitutes-to_name name owner target)

-- ===== src/Startup/Lines.antt =====
-- The lines of a saved list of domains are read back (src/tranco.rs).
use rust_encrypted_dns_serve.Base.{
  ℕ, suc, ◌+◌, ◌-◌, ◌<◌, ◌≡◌, refl, inl, inr, arith, Bool, true, false, none, some, List, [], ◌∷◌,
  ◌++◌, Bytes, All, ◌==◌, leb, if◌then◌else◌, is_empty, take, Bool-cases,
}
use rust_encrypted_dns_serve.Base.Text.{
  is_space, IsWord, trim-word, starts_with, split_once, onto_first,
}
use rust_encrypted_dns_serve.Startup.Domains.{
  lines, write_lines, non_empty, domain_of, read_domains,
}

not_newline : (c : ℕ) → is_space c ≡ false → (c == 10) ≡ false
not_newline c h = ground arith

lines-append : (d s : Bytes) → IsWord d → lines (d ++ (10 ∷ s)) ≡ d ∷ lines s
unfolding lines
lines-append [] s h = refl
lines-append (c ∷ d) s h =
    rw (not_newline c h.0, if◌then◌else◌) (rw (lines-append d s h.1, onto_first) refl)

abbrev HasNo : ℕ → Bytes → Type 0
HasNo x = All (λ c. (c == x) ≡ false)

split_once-none : (x : ℕ) (d : Bytes) → HasNo x d → split_once x d ≡ none
split_once-none x [] h = refl
split_once-none x (c ∷ d) h = rw (h.0, if◌then◌else◌) (rw (split_once-none x d h.1) refl)

non_empty-some : (d : Bytes) → is_empty d ≡ false → non_empty d ≡ some d
non_empty-some [] h = absurd cc
non_empty-some (c ∷ d) h = refl

module _ (is_utf8 : Bytes → Bool) where
  -- A text without white space and commas that is no comment.
  abbrev pub IsDomain : Bytes → Type 0
  IsDomain d =
      IsWord d
      × HasNo b',' d
      × (is_empty d ≡ false)
      × (starts_with d (b'#' ∷ []) ≡ false)
      × (is_utf8 d ≡ true)

  pub lines-write_lines : (ds : List Bytes) → All IsDomain ds → lines (write_lines ds) ≡ ds
  unfolding write_lines lines
  lines-write_lines [] h = refl
  lines-write_lines (d ∷ ds) h =
      rw (lines-append d (write_lines ds) h.0.0, lines-write_lines ds h.1) refl

  domain_of-IsDomain : (d : Bytes) → IsDomain d → domain_of true d ≡ some d
  unfolding domain_of
  domain_of-IsDomain d (word, no_comma, full, no_comment, utf8) =
      rw (trim-word d word, full, no_comment, split_once-none b',' d no_comma)
        (non_empty-some d full)

  pub read_domains-take :
      (limit n : ℕ) (ds : List Bytes)
      → n < limit
      → All IsDomain ds
      → read_domains is_utf8 true limit n ds ≡ take (limit - n) ds
  unfolding read_domains
  read_domains-take limit n [] below h =
      let one_more : limit - n ≡ suc (limit - (n + 1)) = omega arith in rw one_more refl
  read_domains-take limit n (d ∷ ds) below h =
      let one_more : limit - n ≡ suc (limit - (n + 1)) = omega arith in
      rw (h.0.4, domain_of-IsDomain d h.0, one_more)
        (elim (Bool-cases (leb limit (n + 1))) [
          | inl full ↦
              let none_left : limit - (n + 1) ≡ 0 = ground arith in rw (full, none_left) refl
          | inr room ↦
              let below' : n + 1 < limit = ground arith in
              rw (room, read_domains-take limit (n + 1) ds below' h.1) refl
        ])

-- ===== src/Base/Text.antt =====
-- Text as its ASCII bytes, and the methods of `str` that the source calls.
use Prim.Native.Nat.{ℕ, ◌+◌, ◌-◌, ◌*◌}
use Prim.Native.Char.{code}
use Prim.Native.String.{String}
use mathlib.Core.Path.{◌≡◌, refl}
use mathlib.Core.Bool.{Bool, true, false, ◌&&◌, ◌||◌}
use mathlib.Core.List.{List, [], ◌∷◌}
use mathlib.Core.Option.{Option, none, some}
use rust_encrypted_dns_serve.Base.Tests.{if◌then◌else◌, leb, ◌==◌}
use rust_encrypted_dns_serve.Base.Lists.{All, is_empty}
use rust_encrypted_dns_serve.Base.Equality.{Bytes}

-- A literal of the source.
abbrev pub codes : String → Bytes
codes String.[] = []
codes (String.◌∷◌ c s) = code c ∷ codes s

abbrev pub is_space : ℕ → Bool
is_space c = c == b' ' || (leb 9 c && leb c 13)

abbrev pub trim_start : Bytes → Bytes
trim_start [] = []
trim_start (c ∷ s) = if is_space c then trim_start s else c ∷ s

abbrev pub trim_end : Bytes → Bytes
trim_end [] = []
trim_end (c ∷ s) = elim (trim_end s) [ [] ↦ if is_space c then [] else c ∷ [] | d ∷ r ↦ c ∷ d ∷ r ]

abbrev pub trim : Bytes → Bytes
trim s = trim_end (trim_start s)

abbrev pub to_ascii_lower : ℕ → ℕ
to_ascii_lower c = if leb b'A' c && leb c b'Z' then c + 32 else c

abbrev pub starts_with : Bytes → Bytes → Bool
starts_with s [] = true
starts_with [] (d ∷ t) = false
starts_with (c ∷ s) (d ∷ t) = (c == d) && starts_with s t

-- `contains` of a text.
abbrev pub contains : Bytes → Bytes → Bool
contains [] t = starts_with [] t
contains (c ∷ s) t = starts_with (c ∷ s) t || contains s t

-- `split_once` at a character: the texts before and after its first occurrence.
abbrev pub split_once : ℕ → Bytes → Option (Bytes × Bytes)
split_once d [] = none
split_once d (c ∷ s) =
    if c == d
    then some ([], s)
    else elim (split_once d s) [ none ↦ none | some (a, b) ↦ some (c ∷ a, b) ]

-- `split` at a character: one part more than there are such characters.
abbrev pub onto_first : ℕ → List Bytes → List Bytes
onto_first c [] = (c ∷ []) ∷ []
onto_first c (l ∷ ls) = (c ∷ l) ∷ ls

abbrev pub split_on : ℕ → Bytes → List Bytes
split_on d [] = [] ∷ []
split_on d (c ∷ s) = let rest = split_on d s in if c == d then [] ∷ rest else onto_first c rest

-- `parse` of an unsigned type: digits after an optional plus sign, with a value of at most the
-- type's maximum.
unfoldable pub parse_digits : ℕ → ℕ → Bytes → Option ℕ
parse_digits limit n [] = some n
parse_digits limit n (c ∷ s) =
    let rest = parse_digits limit (10 * n + (c - b'0')) s in
    if leb b'0' c && leb c b'9' && leb (10 * n + (c - b'0')) limit then rest else none

unfoldable pub parse_uint : ℕ → Bytes → Option ℕ
parse_uint limit [] = none
parse_uint limit (c ∷ s) =
    if c == b'+'
    then (if is_empty s then none else parse_digits limit 0 s)
    else parse_digits limit 0 (c ∷ s)

abbrev pub IsWord : Bytes → Type 0
IsWord = All (λ c. is_space c ≡ false)

trim_start-word : (s : Bytes) → IsWord s → trim_start s ≡ s
trim_start-word [] h = refl
trim_start-word (c ∷ s) h = rw (h.0, if◌then◌else◌) refl

trim_end-word : (s : Bytes) → IsWord s → trim_end s ≡ s
trim_end-word [] h = refl
trim_end-word (c ∷ []) h = rw (h.0, if◌then◌else◌) refl
trim_end-word (c ∷ d ∷ s) h = rw (trim_end-word (d ∷ s) h.1, trim_end) refl

-- Nothing is trimmed from a text with no white space.
pub trim-word : (s : Bytes) → IsWord s → trim s ≡ s
trim-word s h = rw (trim_start-word s h) (trim_end-word s h)

-- ===== src/Startup/Domains.antt =====
-- The list of domains to warm (src/tranco.rs): from the local file, from a download, or built in. A
-- file is its bytes, `none` where it cannot be opened, and what is written to it is written whole;
-- the answer of the network and the reader of zip archives are parameters.
use rust_encrypted_dns_serve.Base.{
  ℕ, ◌+◌, ◌*◌, Bool, true, false, ◌&&◌, Option, none, some, List, [], ◌∷◌, ◌++◌, Bytes, ◌==◌, ltb,
  leb, if◌then◌else◌, is_empty, length, take,
}
use rust_encrypted_dns_serve.Base.Text.{codes, trim, starts_with, split_once, onto_first}

abbrev pub max_download_size_bytes : ℕ
max_download_size_bytes = 25 * 1024 * 1024

abbrev pub embedded_fallback : List Bytes
embedded_fallback =
    codes "google.com"
    ∷ codes "youtube.com"
    ∷ codes "facebook.com"
    ∷ codes "wikipedia.org"
    ∷ codes "amazon.com"
    ∷ codes "reddit.com"
    ∷ codes "netflix.com"
    ∷ codes "bing.com"
    ∷ codes "microsoft.com"
    ∷ codes "apple.com"
    ∷ codes "github.com"
    ∷ codes "cloudflare.com"
    ∷ codes "archlinux.org"
    ∷ codes "ubuntu.com"
    ∷ codes "example.com"
    ∷ []

-- `BufRead::lines`; a carriage return at a line's end is left to `trim`.
unfoldable pub lines : Bytes → List Bytes
lines [] = []
lines (c ∷ s) = let rest = lines s in if c == 10 then [] ∷ rest else onto_first c rest

-- `writeln!` of each.
unfoldable pub write_lines : List Bytes → Bytes
write_lines [] = []
write_lines (d ∷ ds) = d ++ (10 ∷ write_lines ds)

-- What follows the first comma, or the whole line.
abbrev pub after_comma : Bytes → Option (Bytes × Bytes) → Bytes
after_comma trimmed none = trimmed
after_comma trimmed (some (rank, d)) = trim d

abbrev pub non_empty : Bytes → Option Bytes
non_empty [] = none
non_empty (c ∷ s) = some (c ∷ s)

-- The domain of one line; only the local file has comments.
unfoldable pub domain_of : Bool → Bytes → Option Bytes
domain_of comments line =
    let trimmed = trim line in
    if is_empty trimmed
    then none
    else if comments && starts_with trimmed (b'#' ∷ [])
    then none
    else non_empty (after_comma trimmed (split_once b',' trimmed))

-- The answer to the request; `none` where its body fails.
pub record Response : Type 0 where
  pub is_success : Bool
  pub content_length : Option ℕ
  pub bytes : Option Bytes

-- The domains, and the file afterwards.
pub record Listing : Type 0 where
  pub domains : List Bytes
  pub file : Option Bytes

-- `is_utf8` is the check of `lines`, at which the reading ends.
module _ (is_utf8 : Bytes → Bool) where
  -- The loop, with the number of domains that it has.
  unfoldable pub read_domains : Bool → ℕ → ℕ → List Bytes → List Bytes
  read_domains comments limit n [] = []
  read_domains comments limit n (line ∷ rest) =
      let skipped = read_domains comments limit n rest in
      let more = read_domains comments limit (n + 1) rest in
      if is_utf8 line
      then elim (domain_of comments line) [
        | none ↦ skipped
        | some d ↦ d ∷ (if leb limit (n + 1) then [] else more)
      ]
      else []

  unfoldable pub load_from_file : Option Bytes → ℕ → Option (List Bytes)
  load_from_file none limit = none
  load_from_file (some content) limit = some (read_domains true limit 0 (lines content))

  abbrev pub is_too_long : Option ℕ → Bool
  is_too_long none = false
  is_too_long (some n) = ltb max_download_size_bytes n

  -- The first file of the archive; `none` where it cannot be opened.
  unfoldable pub first_file : ℕ → List (Option Bytes) → Option (List Bytes)
  first_file limit [] = some []
  first_file limit (none ∷ files) = none
  first_file limit (some content ∷ files) = some (read_domains false limit 0 (lines content))

  module _ (unzip : Bytes → Option (List (Option Bytes))) where
    abbrev pub extract : ℕ → Option Bytes → Option (List Bytes)
    extract limit none = none
    extract limit (some b) = elim (unzip b) [ none ↦ none | some files ↦ first_file limit files ]

    -- `none` of a response is a client or a request that fails.
    unfoldable pub download_and_extract : ℕ → Option Response → Option (List Bytes)
    download_and_extract limit none = none
    download_and_extract limit (some r) =
        if r.is_success
        then (if is_too_long r.content_length then none else extract limit r.bytes)
        else none

    -- After no local file had enough domains; `created` says whether the file can be created.
    unfoldable pub downloaded : ℕ → Option Bytes → Bool → Option (List Bytes) → Listing
    downloaded limit file created none = record {
      domains = take limit embedded_fallback;
      file = file;
    }
    downloaded limit file created (some ds) = record {
      domains = ds;
      file = if created then some (write_lines ds) else file;
    }

    abbrev pub local : ℕ → Option (List Bytes) → Option (List Bytes)
    local limit none = none
    local limit (some ds) = if leb limit (length ds) then some ds else none

    unfoldable pub get_or_download : ℕ → Option Bytes → Option Response → Bool → Listing
    get_or_download limit file response created =
        if limit == 0
        then record { domains = []; file = file }
        else elim (local limit (load_from_file file limit)) [
          | some ds ↦ record { domains = ds; file = file }
          | none ↦ downloaded limit file created (download_and_extract limit response)
        ]

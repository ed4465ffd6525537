-- ===== src/Startup/Listed.antt =====
-- A list of domains that was saved is found again (src/tranco.rs).
use rust_encrypted_dns_serve.Base.{
  ℕ, zero, suc, ◌+◌, ◌-◌, ◌≤◌, ◌<◌, ◌≡◌, refl, inl, inr, arith, Bool, true, false, Option, none,
  some, List, [], ◌∷◌, Bytes, All, ◌==◌, leb, if◌then◌else◌, length, take, Bool-cases, Option-cases,
}
use rust_encrypted_dns_serve.Startup.Domains.{
  lines, write_lines, domain_of, read_domains, load_from_file, first_file, extract, Response,
  download_and_extract, downloaded, local, get_or_download,
}
use rust_encrypted_dns_serve.Startup.Lines.{IsDomain, lines-write_lines, read_domains-take}

take-all {ℓ} : {A : Type ℓ} → (n : ℕ) (xs : List A) → length xs ≤ n → take n xs ≡ xs
take-all zero [] h = refl
take-all zero (x ∷ xs) h = absurd (omega arith)
take-all (suc n) [] h = refl
take-all (suc n) (x ∷ xs) h = rw (take-all n xs (omega arith)) refl

module _ (is_utf8 : Bytes → Bool) where
  read_domains-le :
      (comments : Bool) (limit n : ℕ) (ls : List Bytes)
      → n < limit
      → n + length (read_domains is_utf8 comments limit n ls) ≤ limit
  unfolding read_domains
  read_domains-le comments limit n [] below = omega arith
  read_domains-le comments limit n (l ∷ ls) below = elim (Bool-cases (is_utf8 l)) [
    | inr broken ↦ rw (broken, if◌then◌else◌) (omega arith)
    | inl whole ↦
        rw (whole, if◌then◌else◌)
          (elim (Option-cases (domain_of comments l)) [
            | inl skipped ↦ rw (skipped, read_domains) (read_domains-le comments limit n ls below)
            | inr (d, found) ↦
                rw (found, read_domains)
                  (elim (Bool-cases (leb limit (n + 1))) [
                    | inl full ↦ rw (full, if◌then◌else◌) (ground arith)
                    | inr room ↦
                        let below' : n + 1 < limit = ground arith in
                        let rest = read_domains-le comments limit (n + 1) ls below' in
                        rw (room, if◌then◌else◌) (omega arith)
                  ])
          ])
  ]

  load_from_file-le :
      (file : Option Bytes) (limit : ℕ) {ds : List Bytes}
      → 0 < limit
      → load_from_file is_utf8 file limit ≡ some ds
      → length ds ≤ limit
  unfolding load_from_file
  load_from_file-le none limit pos h = absurd cc
  load_from_file-le (some content) limit pos h =
      ground (arith, read_domains-le true limit 0 (lines content) pos)

  load_from_file-write_lines :
      (limit : ℕ) (ds : List Bytes)
      → 0 < limit
      → All (IsDomain is_utf8) ds
      → load_from_file is_utf8 (some (write_lines ds)) limit ≡ some (take limit ds)
  unfolding load_from_file
  load_from_file-write_lines limit ds pos h =
      let whole : limit - 0 ≡ limit = omega arith in
      rw (lines-write_lines is_utf8 ds h, read_domains-take is_utf8 limit 0 ds pos h, whole) refl

  module _ (unzip : Bytes → Option (List (Option Bytes))) where
    first_file-le :
        (limit : ℕ) (files : List (Option Bytes)) {ds : List Bytes}
        → 0 < limit
        → first_file is_utf8 limit files ≡ some ds
        → length ds ≤ limit
    unfolding first_file
    first_file-le limit [] pos h = ground arith
    first_file-le limit (none ∷ files) pos h = absurd cc
    first_file-le limit (some content ∷ files) pos h =
        ground (arith, read_domains-le false limit 0 (lines content) pos)

    extract-le :
        (limit : ℕ) (body : Option Bytes) {ds : List Bytes}
        → 0 < limit
        → extract is_utf8 unzip limit body ≡ some ds
        → length ds ≤ limit
    extract-le limit none pos h = absurd cc
    extract-le limit (some b) pos h = elim (Option-cases (unzip b)) [
      | inl broken ↦ absurd (ground arith)
      | inr (files, e) ↦ first_file-le limit files pos (rw (e, extract) at h)
    ]

    download_and_extract-le :
        (limit : ℕ) (r : Option Response) {ds : List Bytes}
        → 0 < limit
        → download_and_extract is_utf8 unzip limit r ≡ some ds
        → length ds ≤ limit
    unfolding download_and_extract
    download_and_extract-le limit none pos h = absurd cc
    download_and_extract-le limit (some r) pos h = extract-le limit r.bytes pos (ground arith)

    local-le :
        (file : Option Bytes) (limit : ℕ) {ds : List Bytes}
        → 0 < limit
        → local is_utf8 unzip limit (load_from_file is_utf8 file limit) ≡ some ds
        → length ds ≤ limit
    local-le file limit pos h = elim (Option-cases (load_from_file is_utf8 file limit)) [
      | inl missing ↦ absurd (ground arith)
      | inr (found, e) ↦ let small = load_from_file-le file limit pos e in ground arith
    ]

    saved-local :
        (limit : ℕ) (ds : List Bytes)
        → 0 < limit
        → All (IsDomain is_utf8) ds
        → limit ≤ length ds
        → length ds ≤ limit
        → local is_utf8 unzip limit (load_from_file is_utf8 (some (write_lines ds)) limit) ≡ some ds
    saved-local limit ds pos h enough small =
        let many : leb limit (length ds) ≡ true = ground arith in
        rw (load_from_file-write_lines limit ds pos h, take-all limit ds small, many) refl

    get_or_download-local :
        (limit : ℕ) (file : Option Bytes) (response : Option Response) (created : Bool)
        {ds : List Bytes}
        → (limit == 0) ≡ false
        → local is_utf8 unzip limit (load_from_file is_utf8 file limit) ≡ some ds
        → get_or_download is_utf8 unzip limit file response created
          ≡ record { domains = ds; file = file }
    unfolding get_or_download
    get_or_download-local limit file response created wanted e =
        rw (wanted, if◌then◌else◌) (rw (e, get_or_download) refl)

    get_or_download-short :
        (limit : ℕ) (file : Option Bytes) (response : Option Response) {ds : List Bytes}
        → (limit == 0) ≡ false
        → local is_utf8 unzip limit (load_from_file is_utf8 file limit) ≡ none
        → download_and_extract is_utf8 unzip limit response ≡ some ds
        → get_or_download is_utf8 unzip limit file response true
          ≡ record { domains = ds; file = some (write_lines ds) }
    unfolding get_or_download downloaded
    get_or_download-short limit file response wanted short got =
        rw (wanted, if◌then◌else◌) (rw (short, got, get_or_download) refl)

    get_or_download-zero :
        (limit : ℕ) (file : Option Bytes) (response : Option Response) (created : Bool)
        → (limit == 0) ≡ true
        → get_or_download is_utf8 unzip limit file response created
          ≡ record { domains = []; file = file }
    unfolding get_or_download
    get_or_download-zero limit file response created nothing = rw (nothing, if◌then◌else◌) refl

    -- Where the file can be created, and a download gives as many domains as are wanted, each without
    -- white space and commas and no comment, the list that the server starts with is never longer than wanted, and the next start
    -- finds the same list in the file and leaves the file, whatever the network does then.
    pub get_or_download_again :
        (limit : ℕ) (file : Option Bytes) (response later : Option Response) (created : Bool)
        {ds : List Bytes}
        → download_and_extract is_utf8 unzip limit response ≡ some ds
        → All (IsDomain is_utf8) ds
        → limit ≤ length ds
        → let r = get_or_download is_utf8 unzip limit file response true in
          (length r.domains ≤ limit)
          × (get_or_download is_utf8 unzip limit r.file later created ≡ r)
    get_or_download_again limit file response later created {ds} got good enough =
        elim (Bool-cases (limit == 0)) [
          | inl nothing ↦
              rw (get_or_download-zero limit file response true nothing)
                (omega arith, get_or_download-zero limit file later created nothing)
          | inr wanted ↦
              let pos : 0 < limit = ground arith in
              elim (Option-cases (local is_utf8 unzip limit (load_from_file is_utf8 file limit))) [
                | inr (found, e) ↦ rw (get_or_download-local limit file response true wanted e) (
                  local-le file limit pos e,
                  get_or_download-local limit file later created wanted e,
                )
                | inl short ↦
                    let small = download_and_extract-le limit response pos got in
                    rw (get_or_download-short limit file response wanted short got) (
                      small,
                      get_or_download-local limit (some (write_lines ds)) later created wanted
                          (saved-local limit ds pos good enough small),
                    )
              ]
        ]

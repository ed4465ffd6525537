-- ===== src/Tests/Startup.antt =====
-- The theorems on the warm-up of src/main.rs and the list of src/tranco.rs at small inputs.
use rust_encrypted_dns_serve.Base.{
  ℕ, ◌≤◌, ◌≡◌, refl, arith, true, false, Option, none, some, [], ◌∷◌, ◌++◌, Bytes, bytes_beq, ◌==◌,
  if◌then◌else◌, length,
}
use rust_encrypted_dns_serve.Base.Text.{codes, parse_uint, parse_digits}
use rust_encrypted_dns_serve.Wire.Messages.{Message}
use rust_encrypted_dns_serve.Dnssec.Status.{secure}
use rust_encrypted_dns_serve.RateLimit.{tcp}
use rust_encrypted_dns_serve.Engine.{Env, Client, answer, canonical, is_cacheable}
use rust_encrypted_dns_serve.Startup.Preload.{neutral}
use rust_encrypted_dns_serve.Startup.Domains.{
  Response, download_and_extract, first_file, read_domains, domain_of, lines, get_or_download,
}
use rust_encrypted_dns_serve.Startup.Listed.{get_or_download_again}
use rust_encrypted_dns_serve.Startup.Settings.{minus, parse_int, query_settings, listen_settings}
use rust_encrypted_dns_serve.Startup.Warmed.{warmed, queried, answer-warmed}
use rust_encrypted_dns_serve.Tests.Toy.{toy, empty_state, client, request, response, question}

abbrev read : Bytes → Option (Message ℕ)
read (c ∷ s) =
    if c == 1
    then some (neutral secure (response 77 0 1))
    else some (canonical (toy secure) secure (response 77 0 1))
read [] = some (request 7 0 1 40)

-- A codec that tells the two messages apart by their ids.
abbrev two_messages : Env ℕ
two_messages = record (toy secure) {
  read = read;
  to_bytes = λ m. some ((if m.id == 0 then 1 else 2) ∷ []);
}

abbrev asker : Client ℕ
asker = record {
  protocol = tcp;
  ip = client;
  req = request 7 0 1 40;
  max_payload = 1232;
  dnssec_ok = false;
}

answer-warmed_example :
    (answer two_messages
      (warmed two_messages empty_state question 1000 (response 77 0 1) secure)
      asker
      question
      1100).outcome
    ≡ (answer two_messages
        (queried two_messages empty_state question 1000 (response 77 0 1) secure)
        asker
        question
        1100).outcome
unfolding neutral canonical is_cacheable
answer-warmed_example =
    answer-warmed two_messages empty_state asker question 1000 1100 (response 77 0 1) secure refl
      refl refl refl refl refl

-- A ranked list of three, of which two are wanted.
abbrev ranked : Bytes
ranked = codes "1,a.com" ++ (10 ∷ (codes " 2, b.org " ++ (13 ∷ 10 ∷ codes "3,c.net")))

abbrev archive : Response
archive = record { is_success = true; content_length = none; bytes = some [] }

get_or_download_again_example :
    let r =
      get_or_download
        (λ s. true)
        (λ b. some (some ranked ∷ []))
        2
        (some (codes "#c"))
        (some archive)
        true in
    (length r.domains ≤ 2)
    × (get_or_download (λ s. true) (λ b. some (some ranked ∷ [])) 2 r.file none false ≡ r)
unfolding download_and_extract first_file read_domains domain_of lines
get_or_download_again_example =
    get_or_download_again (λ s. true) (λ b. some (some ranked ∷ [])) 2 (some (codes "#c"))
      (some archive) none false {ds = codes "a.com" ∷ codes "b.org" ∷ []} refl
      (
        (
          (refl, (refl, (refl, (refl, (refl, tt))))),
          (refl, (refl, (refl, (refl, (refl, tt))))),
          refl,
          refl,
          refl,
        ),
        (
          (
            (refl, (refl, (refl, (refl, (refl, tt))))),
            (refl, (refl, (refl, (refl, (refl, tt))))),
            refl,
            refl,
            refl,
          ),
          tt,
        ),
      )
      (omega arith)

-- A port in order, one out of range, a negative burst, and enforcement switched off.
abbrev variables : Bytes → Option Bytes
variables k =
    if bytes_beq k (codes "DNS_PORT")
    then some (codes "5353")
    else if bytes_beq k (codes "DOT_PORT")
    then some (codes "65536")
    else if bytes_beq k (codes "RATE_LIMIT_BURST")
    then some (codes "-1")
    else if bytes_beq k (codes "DNSSEC_ENFORCE")
    then some (codes "0")
    else none

settings_read :
    let l = listen_settings variables in
    let q = query_settings variables in
    (l.dns_port ≡ 5353)
    × (l.dot_port ≡ 853)
    × (l.doh_port ≡ 443)
    × (q.rl_capacity ≡ minus 1)
    × (q.dnssec_enforce ≡ false)
unfolding listen_settings query_settings parse_int parse_uint parse_digits
settings_read = (refl, refl, refl, refl, refl)

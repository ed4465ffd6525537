-- ===== src/Transport/Methods.antt =====
-- The two methods of DNS over HTTPS against each other, and what a client may say of its address
-- (src/doh.rs).
use mathlib.Core.List.{map-append}
use rust_encrypted_dns_serve.Base.{
  ℕ, zero, suc, ◌-◌, ◌%◌, ◌≡◌, refl, ◌∙◌, ap, arith, Bool, true, false, ◌&&◌, ◌||◌, Option, none,
  some, [], ◌∷◌, ◌++◌, map, Bytes, ◌==◌, leb, if◌then◌else◌, length, is_empty, All, All-append,
  length-append, append-nil,
}
use rust_encrypted_dns_serve.Base.Text.{is_space, IsWord, trim, trim-word}
use rust_encrypted_dns_serve.Wire.Ip.{IpAddr, is_loopback}
use rust_encrypted_dns_serve.Engine.{AppState, Env}
use rust_encrypted_dns_serve.Transport.Doh.{
  Http, HeaderMap, header, from_url, repeat, padding, decode_dns_param, extract_client_ip,
  is_acceptable_media_type, is_dns_message, answer_payload, handle_decoded, handle_param,
  handle_doh_get, handle_doh_post,
}

-- The standard alphabet of base64, and the letters of the URL-safe one.
abbrev pub is_base64 : ℕ → Bool
is_base64 c =
    (leb b'A' c && leb c b'Z')
    || (leb b'a' c && leb c b'z')
    || (leb b'0' c && leb c b'9')
    || c == b'+'
    || c == b'/'

abbrev pub to_url : ℕ → ℕ
to_url c = if c == b'+' then b'-' else if c == b'/' then b'_' else c

abbrev pub IsBase64 : Bytes → Type 0
IsBase64 = All (λ c. is_base64 c ≡ true)

from_url-to_url : (c : ℕ) → is_base64 c ≡ true → from_url (to_url c) ≡ c
from_url-to_url c h = ground arith

to_url-word : (c : ℕ) → is_base64 c ≡ true → is_space (to_url c) ≡ false
to_url-word c h = ground arith

map-from_url-to_url : (t : Bytes) → IsBase64 t → map from_url (map to_url t) ≡ t
map-from_url-to_url [] h = refl
map-from_url-to_url (c ∷ t) h =
    rw (from_url-to_url c h.0) (ap (λ s. c ∷ s) (map-from_url-to_url t h.1))

map-to_url-IsWord : (t : Bytes) → IsBase64 t → IsWord (map to_url t)
map-to_url-IsWord [] h = tt
map-to_url-IsWord (c ∷ t) h = (to_url-word c h.0, map-to_url-IsWord t h.1)

repeat-IsWord : (n : ℕ) → IsWord (repeat n b'=')
repeat-IsWord zero = tt
repeat-IsWord (suc n) = (refl, repeat-IsWord n)

map-repeat : (n : ℕ) → map from_url (repeat n b'=') ≡ repeat n b'='
map-repeat zero = refl
map-repeat (suc n) = ap (λ s. b'=' ∷ s) (map-repeat n)

length-repeat : (n c : ℕ) → length (repeat n c) ≡ n
length-repeat zero c = refl
length-repeat (suc n) c = omega (arith, length-repeat n c)

-- A padded text has no more padding.
padding-padded : (t : Bytes) → padding (t ++ padding t) ≡ []
padding-padded t =
    let n = (4 - length t % 4) % 4 in
    let e : (4 - length (t ++ padding t) % 4) % 4 ≡ 0 =
      omega (arith, length-append t (padding t), length-repeat n b'=') in
    ap (λ k. repeat k b'=') e

length-map : (f : ℕ → ℕ) (t : Bytes) → length (map f t) ≡ length t
length-map f [] = refl
length-map f (c ∷ t) = omega (arith, length-map f t)

-- URL-safe text reads as what its standard text decodes to, padded or not.
decode_dns_param-url :
    (H : Http) (t : Bytes)
    → IsBase64 t
    → decode_dns_param H (map to_url t) ≡ H.decode (t ++ padding t)
unfolding decode_dns_param
decode_dns_param-url H t h =
    ap (λ s. H.decode (s ++ padding s))
      (ap (map from_url) (trim-word (map to_url t) (map-to_url-IsWord t h))
        ∙ map-from_url-to_url t h)

padded-IsWord : (t : Bytes) → IsBase64 t → IsWord (map to_url t ++ padding t)
padded-IsWord t h =
    All-append (λ c. is_space c ≡ false) (map to_url t) (padding t) (map-to_url-IsWord t h)
      (repeat-IsWord ((4 - length t % 4) % 4))

decode_dns_param-padded :
    (H : Http) (t : Bytes)
    → IsBase64 t
    → decode_dns_param H (map to_url t ++ padding t) ≡ H.decode (t ++ padding t)
unfolding decode_dns_param
decode_dns_param-padded H t h =
    let back : map from_url (map to_url t ++ padding t) ≡ t ++ padding t =
      map-append from_url (map to_url t) (padding t)
      ∙ ap (λ s. s ++ map from_url (padding t)) (map-from_url-to_url t h)
      ∙ ap (λ s. t ++ s) (map-repeat ((4 - length t % 4) % 4)) in
    let whole = trim-word (map to_url t ++ padding t) (padded-IsWord t h) in
    ap (λ s. H.decode (s ++ padding s)) (ap (map from_url) whole ∙ back)
    ∙ ap H.decode (ap (λ s. (t ++ padding t) ++ s) (padding-padded t) ∙ append-nil (t ++ padding t))

module _ {Name : Type 0} (H : Http) (E : Env Name) (st : AppState) (now_ms now : ℕ) where
  -- GET with a text that decodes to a payload is POST with that payload.
  get-post :
      (headers : HeaderMap) (peer : IpAddr) (d b : Bytes)
      → is_acceptable_media_type headers ≡ true
      → is_dns_message headers ≡ true
      → IsWord d
      → is_empty d ≡ false
      → decode_dns_param H d ≡ some b
      → is_empty b ≡ false
      → handle_doh_get H E st now_ms now headers peer (some d)
        ≡ handle_doh_post H E st now_ms now headers peer b
  unfolding handle_doh_get handle_doh_post handle_param handle_decoded
  get-post headers peer d b accept ct word some_text decoded some_bytes =
      rw (accept, if◌then◌else◌)
        (rw (ct, if◌then◌else◌)
          (rw (trim-word d word) (
            rw (some_text, if◌then◌else◌)
              (rw (decoded, handle_decoded) (rw (some_bytes, if◌then◌else◌) refl)))))

  -- For an acceptable request, and a payload with at least one byte whose base64 text is t (its
  -- padding aside): GET with t in the URL-safe alphabet, with its padding or without, leaves the
  -- state, spawns the job and gives the response that POST does with the payload itself.
  pub doh_get-post :
      (headers : HeaderMap) (peer : IpAddr) (t b : Bytes)
      → is_acceptable_media_type headers ≡ true
      → is_dns_message headers ≡ true
      → IsBase64 t
      → is_empty t ≡ false
      → H.decode (t ++ padding t) ≡ some b
      → is_empty b ≡ false
      → let post = handle_doh_post H E st now_ms now headers peer b in
        (handle_doh_get H E st now_ms now headers peer (some (map to_url t)) ≡ post)
        × (handle_doh_get H E st now_ms now headers peer (some (map to_url t ++ padding t)) ≡ post)
  doh_get-post headers peer [] b accept ct h some_text decoded some_bytes = cc
  doh_get-post headers peer (c ∷ t) b accept ct h some_text decoded some_bytes =
      let u = c ∷ t in
      (
        get-post headers peer (map to_url u) b accept ct (map-to_url-IsWord u h) refl
            (decode_dns_param-url H u h ∙ decoded) some_bytes,
        get-post headers peer (map to_url u ++ padding u) b accept ct (padded-IsWord u h) refl
            (decode_dns_param-padded H u h ∙ decoded) some_bytes,
      )

module _ {Name : Type 0} (H : Http) (E : Env Name) (st : AppState) (now_ms now : ℕ)
    (headers headers' : HeaderMap) (peer : IpAddr) (outside : is_loopback peer ≡ false) where
  same_client : extract_client_ip H headers peer ≡ extract_client_ip H headers' peer
  unfolding extract_client_ip
  same_client = rw (outside, if◌then◌else◌) refl

  same_answer :
      (b : Bytes)
      → answer_payload H E st now_ms now headers peer b
        ≡ answer_payload H E st now_ms now headers' peer b
  unfolding answer_payload
  same_answer b = rw same_client refl

  same_decoded :
      (o : Option Bytes)
      → handle_decoded H E st now_ms now headers peer o
        ≡ handle_decoded H E st now_ms now headers' peer o
  unfolding handle_decoded
  same_decoded none = refl
  same_decoded (some b) = rw (same_answer b) refl

  same_param :
      (o : Option Bytes)
      → handle_param H E st now_ms now headers peer o
        ≡ handle_param H E st now_ms now headers' peer o
  unfolding handle_param
  same_param none = refl
  same_param (some d) = rw (same_decoded (decode_dns_param H (trim d))) refl

  same_acceptable :
      header headers "accept" ≡ header headers' "accept"
      → is_acceptable_media_type headers ≡ is_acceptable_media_type headers'
  unfolding is_acceptable_media_type
  same_acceptable e = rw (e, is_acceptable_media_type) refl

  same_type :
      header headers "content-type" ≡ header headers' "content-type"
      → is_dns_message headers ≡ is_dns_message headers'
  unfolding is_dns_message
  same_type e = rw (e, is_dns_message) refl

  -- Two requests of a peer that is not on the loopback whose Accept and Content-Type agree are
  -- handled alike by both methods: no header lets it be charged for another address, or choose one.
  pub doh_remote_headers :
      (dns : Option Bytes) (body : Bytes)
      → header headers "accept" ≡ header headers' "accept"
      → header headers "content-type" ≡ header headers' "content-type"
      → (handle_doh_get H E st now_ms now headers peer dns
          ≡ handle_doh_get H E st now_ms now headers' peer dns)
        × (handle_doh_post H E st now_ms now headers peer body
            ≡ handle_doh_post H E st now_ms now headers' peer body)
  unfolding handle_doh_get handle_doh_post
  doh_remote_headers dns body accept ct = (
    rw (same_acceptable accept, same_param dns) refl,
    rw (same_type ct, same_acceptable accept, same_answer body) refl,
  )

-- ===== src/Recursor/Merge.antt =====
-- Joining the response of an alias with that of its target (src/recursor.rs).
use rust_encrypted_dns_serve.Base.{
  ℕ, ◌≡◌, refl, ◌∙◌, sym, arith, Bool, true, not, ◌&&◌, ◌||◌, List, [], ◌∷◌, ◌++◌, ◌==◌, any, keep,
  All, All-append, All-weaken, append-nil, append_assoc, if◌then◌else◌, Bool-cases, inl, inr,
}
use rust_encrypted_dns_serve.Wire.Codes.{
  in_class, nsec_type, nsec3_type, rrsig_type, dnskey_type, opt_type,
}
use rust_encrypted_dns_serve.Wire.Messages.{Record, MessageType, Message}

abbrev pub is_proof : ℕ → Bool
is_proof t = t == nsec_type || t == nsec3_type || t == rrsig_type

abbrev pub is_signature_or_key : ℕ → Bool
is_signature_or_key t = t == rrsig_type || t == dnskey_type

module _ {Name : Type 0} (same_record : Record Name → Record Name → Bool) where
  -- A loop that adds what passes a test and is not there yet.
  unfoldable pub add_missing :
      (Record Name → Bool) → List (Record Name) → List (Record Name) → List (Record Name)
  add_missing p acc [] = acc
  add_missing p acc (r ∷ rs) =
      add_missing p (if p r && not (any (λ x. same_record x r) acc) then acc ++ (r ∷ []) else acc)
        rs

  unfoldable pub merge_redirection_response : Name → ℕ → Message Name → Message Name → Message Name
  merge_redirection_response orig_name orig_type first_hop final = record final {
    message_type = MessageType.response;
    queries = record { name = orig_name; query_type = orig_type; query_class = in_class } ∷ [];
    answers = add_missing (λ r. true) first_hop.answers final.answers;
    name_servers =
        add_missing (λ r. is_proof r.record_type) final.name_servers first_hop.name_servers;
    additionals =
        add_missing (λ r. is_signature_or_key r.record_type)
          (keep (λ r. not (r.record_type == opt_type)) final.additionals) first_hop.additionals;
  }

  -- The records of one list stand at the front of another.
  abbrev pub StartsWith : List (Record Name) → List (Record Name) → Type 0
  StartsWith xs ys = (zs : List (Record Name)) × (ys ≡ xs ++ zs)

  abbrev pub Holds : Record Name → List (Record Name) → Type 0
  Holds r rs = any (λ x. same_record x r) rs ≡ true

  any-append :
      (p : Record Name → Bool) (xs ys : List (Record Name))
      → any p (xs ++ ys) ≡ (any p xs || any p ys)
  any-append p [] ys = refl
  any-append p (x ∷ xs) ys = ground (arith, any-append p xs ys)

  add_missing-StartsWith :
      (p : Record Name → Bool) (acc rs : List (Record Name)) → StartsWith acc (add_missing p acc rs)
  unfolding add_missing
  add_missing-StartsWith p acc [] = ([], sym (append-nil acc))
  add_missing-StartsWith p acc (r ∷ rs) =
      elim (Bool-cases (p r && not (any (λ x. same_record x r) acc))) [
        | inl added ↦
            let (zs, e) = add_missing-StartsWith p (acc ++ (r ∷ [])) rs in
            rw (added, if◌then◌else◌) (r ∷ zs, e ∙ append_assoc acc (r ∷ []) zs)
        | inr passed ↦ rw (passed, if◌then◌else◌) (add_missing-StartsWith p acc rs)
      ]

  Holds-StartsWith :
      (r : Record Name) (xs ys : List (Record Name)) → StartsWith xs ys → Holds r xs → Holds r ys
  Holds-StartsWith r xs ys (zs, e) h =
      rw e (ground (arith, any-append (λ x. same_record x r) xs zs))

  add_missing-Holds :
      (p : Record Name → Bool) (acc rs : List (Record Name))
      → ((r : Record Name) → same_record r r ≡ true)
      → All (λ r. p r ≡ true → Holds r (add_missing p acc rs)) rs
  unfolding add_missing
  add_missing-Holds p acc [] eq_refl = tt
  add_missing-Holds p acc (r ∷ rs) eq_refl =
      let acc' = if p r && not (any (λ x. same_record x r) acc) then acc ++ (r ∷ []) else acc in
      let there : p r ≡ true → Holds r acc' =
        λ h. ground (arith, eq_refl r, any-append (λ x. same_record x r) acc (r ∷ [])) in
      (
        (λ h.
            Holds-StartsWith r acc' (add_missing p acc' rs) (add_missing-StartsWith p acc' rs)
              (there h)),
        add_missing-Holds p acc' rs eq_refl,
      )

  add_missing-All :
      (P : Record Name → Type 0) (p : Record Name → Bool) (acc rs : List (Record Name))
      → All P acc
      → All P rs
      → All P (add_missing p acc rs)
  unfolding add_missing
  add_missing-All P p acc [] a h = a
  add_missing-All P p acc (r ∷ rs) a h =
      elim (Bool-cases (p r && not (any (λ x. same_record x r) acc))) [
        | inl added ↦
            rw (added, if◌then◌else◌)
              (add_missing-All P p (acc ++ (r ∷ [])) rs (All-append P acc (r ∷ []) a (h.0, tt)) h.1)
        | inr passed ↦ rw (passed, if◌then◌else◌) (add_missing-All P p acc rs a h.1)
      ]

  -- The merged response asks the original question; its answers are those of the first hop, in their
  -- order, then those of the target; no answer or authority record of the target is lost, and no
  -- answer is made up.
  pub merge_redirection_response_lem :
      (orig_name : Name) (orig_type : ℕ) (first_hop final : Message Name)
      → ((r : Record Name) → same_record r r ≡ true)
      → let m = merge_redirection_response orig_name orig_type first_hop final in
        (m.queries
          ≡ record { name = orig_name; query_type = orig_type; query_class = in_class } ∷ [])
        × StartsWith first_hop.answers m.answers
        × All (λ r. Holds r m.answers) final.answers
        × StartsWith final.name_servers m.name_servers
        × ((P : Record Name → Type 0)
            → All P first_hop.answers
            → All P final.answers
            → All P m.answers)
  unfolding merge_redirection_response
  merge_redirection_response_lem orig_name orig_type first_hop final eq_refl = (
    refl,
    add_missing-StartsWith (λ r. true) first_hop.answers final.answers,
    All-weaken
        (λ r. true ≡ true → Holds r (add_missing (λ r. true) first_hop.answers final.answers))
        (λ r. Holds r (add_missing (λ r. true) first_hop.answers final.answers)) (λ r h. h refl)
        final.answers (add_missing-Holds (λ r. true) first_hop.answers final.answers eq_refl),
    add_missing-StartsWith (λ r. is_proof r.record_type) final.name_servers first_hop.name_servers,
    λ P a h. add_missing-All P (λ r. true) first_hop.answers final.answers a h,
  )

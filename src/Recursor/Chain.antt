-- ===== src/Recursor/Chain.antt =====
-- Following CNAME records inside one response (src/recursor.rs). Each step sees a new key, so as many
-- steps as there are records, and one, are enough.
use rust_encrypted_dns_serve.Base.{
  ℕ, zero, suc, ◌+◌, ◌≤◌, ◌<◌, ◌≡◌, ◌≢◌, refl, ◌∙◌, arith, Bool, true, false, not, ◌&&◌, Option,
  none, some, List, [], ◌∷◌, Bytes, bytes_beq, bytes_beq_iff, ◌==◌, if◌then◌else◌, any, find_map,
  length, All, All-weaken, Bool-cases, Option-cases, inl, inr,
}
use rust_encrypted_dns_serve.Wire.Codes.{cname_type}
use rust_encrypted_dns_serve.Wire.Names.{NameOps}
use rust_encrypted_dns_serve.Wire.Messages.{RData, Record}

pub data Chain (Name : Type 0) : Type 0 where
  in_loop in_answers unfinished : Chain Name
  ends_at : Name → Chain Name

module _ {Name : Type 0} where
  abbrev pub cname_of : RData Name → Option Name
  cname_of (RData.cname n) = some n
  cname_of _ = none

module _ {Name : Type 0} (N : NameOps Name) where
  open N use {eq, lower_string}

  abbrev pub has_record : Name → ℕ → List (Record Name) → Bool
  has_record name rtype = any (λ r. eq r.name name && r.record_type == rtype)

  abbrev cname_at : Name → Record Name → Option Name
  cname_at name r = if eq r.name name && r.record_type == cname_type then cname_of r.rdata else none

  unfoldable pub find_cname : Name → List (Record Name) → Option Name
  find_cname name = find_map (cname_at name)

  abbrev pub seen : Name → List Bytes → Bool
  seen n keys = any (bytes_beq (lower_string n)) keys

  unfoldable pub follow_cnames : ℕ → List (Record Name) → ℕ → List Bytes → Name → Chain Name
  follow_cnames zero answers rtype keys target = unfinished
  follow_cnames (suc n) answers rtype keys target =
      if seen target keys
      then in_loop
      else if has_record target rtype answers
      then in_answers
      else (elim (find_cname target answers) [
        | none ↦ ends_at target
        | some next ↦ follow_cnames n answers rtype (lower_string target ∷ keys) next
      ])

  -- How many of the records lead to a name that has not been seen.
  abbrev is_new : List Bytes → Option Name → Bool
  is_new keys none = false
  is_new keys (some n) = not (seen n keys)

  abbrev unseen : List Bytes → List (Record Name) → ℕ
  unseen keys [] = 0
  unseen keys (r ∷ rs) = (if is_new keys (cname_of r.rdata) then 1 else 0) + unseen keys rs

  unseen-le : (keys : List Bytes) (rs : List (Record Name)) → unseen keys rs ≤ length rs
  unseen-le keys [] = omega arith
  unseen-le keys (r ∷ rs) = ground (arith, unseen-le keys rs)

  is_new-cons :
      (k : Bytes) (keys : List Bytes) (o : Option Name)
      → is_new (k ∷ keys) o ≡ true
      → is_new keys o ≡ true
  is_new-cons k keys none h = h
  is_new-cons k keys (some n) h = ground arith

  unseen-cons :
      (k : Bytes) (keys : List Bytes) (rs : List (Record Name))
      → unseen (k ∷ keys) rs ≤ unseen keys rs
  unseen-cons k keys [] = omega arith
  unseen-cons k keys (r ∷ rs) =
      ground (arith, is_new-cons k keys (cname_of r.rdata), unseen-cons k keys rs)

  -- The records lead to a name.
  abbrev leads : Name → Option Name → Bool
  leads n none = false
  leads n (some m) = bytes_beq (lower_string m) (lower_string n)

  abbrev LeadTo : List (Record Name) → Name → Type 0
  LeadTo rs n = any (λ r. leads n (cname_of r.rdata)) rs ≡ true

  seen_key :
      (n : Name) (keys : List Bytes) (o : Option Name)
      → leads n o ≡ true
      → seen n keys ≡ false
      → (is_new keys o ≡ true) × (is_new (lower_string n ∷ keys) o ≡ false)
  seen_key n keys none h k = absurd (ground arith)
  seen_key n keys (some m) h k =
      let same : lower_string m ≡ lower_string n =
        (bytes_beq_iff (lower_string m) (lower_string n)).0 h in
      rw same (ground (arith, bytes_beq_iff (lower_string n) (lower_string n)))

  unseen-lt :
      (n : Name) (keys : List Bytes) (rs : List (Record Name))
      → LeadTo rs n
      → seen n keys ≡ false
      → unseen (lower_string n ∷ keys) rs < unseen keys rs
  unseen-lt n keys [] h k = absurd (ground arith)
  unseen-lt n keys (r ∷ rs) h k = elim (Bool-cases (leads n (cname_of r.rdata))) [
    | inl here ↦
        ground
          (arith, seen_key n keys (cname_of r.rdata) here k, unseen-cons (lower_string n) keys rs)
    | inr there ↦ ground (
      arith,
      is_new-cons (lower_string n) keys (cname_of r.rdata),
      unseen-lt n keys rs (ground arith) k,
    )
  ]

  cname_at-leads :
      (name : Name) (r : Record Name) {n : Name}
      → cname_at name r ≡ some n
      → leads n (cname_of r.rdata) ≡ true
  cname_at-leads name r {n} h =
      let same : cname_of r.rdata ≡ some n = ground arith in
      rw same ((bytes_beq_iff (lower_string n) (lower_string n)).1 refl)

  find_cname-LeadTo :
      (name : Name) (rs : List (Record Name)) {n : Name} → find_cname name rs ≡ some n → LeadTo rs n
  unfolding find_cname
  find_cname-LeadTo name [] h = absurd (ground arith)
  find_cname-LeadTo name (r ∷ rs) {n} h = elim (Option-cases (cname_at name r)) [
    | inl gone ↦
        let later : find_cname name rs ≡ some n = ground arith in
        let rest = find_cname-LeadTo name rs later in ground (arith, rest)
    | inr (m, e) ↦
        let same : some m ≡ some n = rw (e, find_map) at h in
        let here = cname_at-leads name r (e ∙ same) in ground (arith, here)
  ]

  follow_finishes :
      (n : ℕ) (answers : List (Record Name)) (rtype : ℕ) (keys : List Bytes) (target : Name)
      → LeadTo answers target
      → unseen keys answers < n
      → follow_cnames n answers rtype keys target ≢ unfinished
  unfolding follow_cnames
  follow_finishes zero answers rtype keys target leads_here fuel h = absurd (ground arith)
  follow_finishes (suc n) answers rtype keys target leads_here fuel h =
      elim (Bool-cases (seen target keys)) [
        | inl again ↦ absurd (ground arith)
        | inr new ↦ elim (Bool-cases (has_record target rtype answers)) [
          | inl answered ↦ absurd (ground arith)
          | inr open_end ↦ elim (Option-cases (find_cname target answers)) [
            | inl last ↦ absurd (ground arith)
            | inr (next, e) ↦
                follow_finishes n answers rtype (lower_string target ∷ keys) next
                  (find_cname-LeadTo target answers e)
                  (omega (arith, unseen-lt target keys answers leads_here new)) (ground arith)
          ]
        ]
      ]

  -- The names that the CNAME records of a response lead to from a name.
  pub data Alias (answers : List (Record Name)) (c : Name) : Name → Type 0 where
    itself : Alias answers c c
    hop : {a b : Name} → find_cname a answers ≡ some b → Alias answers c b → Alias answers c a

  Alias-hop :
      (answers : List (Record Name)) {t a n : Name}
      → Alias answers t a
      → find_cname t answers ≡ some n
      → Alias answers n a
  Alias-hop answers itself e = hop e itself
  Alias-hop answers (hop f path) e = hop f (Alias-hop answers path e)

  -- The records lead from the start to a name, and on from it by at least one record to a name with
  -- this key.
  abbrev pub LeadsOn : List (Record Name) → Name → Bytes → Name → Type 0
  LeadsOn answers start k target =
      (a : Name) × (b : Name) × Alias answers a start
      × (find_cname a answers ≡ some b)
      × Alias answers target b
      × (k ≡ lower_string a)

  -- What is said of the end of a search from the start: in a loop, the path comes back to a name that
  -- it has passed.
  abbrev pub Follows : List (Record Name) → ℕ → Name → Chain Name → Type 0
  Follows answers rtype start in_loop = (c : Name) × LeadsOn answers start (lower_string c) c
  Follows answers rtype start unfinished = ⊥
  Follows answers rtype start in_answers =
      (n : Name) × Alias answers n start × (has_record n rtype answers ≡ true)
  Follows answers rtype start (ends_at n) =
      Alias answers n start × (has_record n rtype answers ≡ false) × (find_cname n answers ≡ none)

  seen-LeadsOn :
      (answers : List (Record Name)) (start target : Name) (keys : List Bytes)
      → All (λ k. LeadsOn answers start k target) keys
      → seen target keys ≡ true
      → LeadsOn answers start (lower_string target) target
  seen-LeadsOn answers start target [] h again = absurd (ground arith)
  seen-LeadsOn answers start target (k ∷ keys) h again =
      elim (Bool-cases (bytes_beq (lower_string target) k)) [
        | inl here ↦
            let same : lower_string target ≡ k = (bytes_beq_iff (lower_string target) k).0 here in
            let (a, b, path, e, rest, key) = h.0 in (a, b, path, e, rest, same ∙ key)
        | inr there ↦ seen-LeadsOn answers start target keys h.1 (ground arith)
      ]

  step-LeadsOn :
      (answers : List (Record Name)) (start target next : Name) (keys : List Bytes)
      → find_cname target answers ≡ some next
      → All (λ k. LeadsOn answers start k target) keys
      → All (λ k. LeadsOn answers start k next) keys
  step-LeadsOn answers start target next keys e =
      All-weaken _ _
        (λ k h.
          let (a, b, path, f, rest, key) = h in (a, b, path, f, Alias-hop answers rest e, key))
        keys

  follow_sound :
      (n : ℕ) (answers : List (Record Name)) (rtype : ℕ) (keys : List Bytes) (start target : Name)
      → Alias answers target start
      → All (λ k. LeadsOn answers start k target) keys
      → follow_cnames n answers rtype keys target ≢ unfinished
      → Follows answers rtype start (follow_cnames n answers rtype keys target)
  unfolding follow_cnames
  follow_sound zero answers rtype keys start target path trail h = h refl
  follow_sound (suc n) answers rtype keys start target path trail h =
      elim (Bool-cases (seen target keys)) [
        | inl again ↦
            rw (again, if◌then◌else◌) (target, seen-LeadsOn answers start target keys trail again)
        | inr new ↦
            rw (new, if◌then◌else◌)
              (elim (Bool-cases (has_record target rtype answers)) [
                | inl answered ↦ rw (answered, if◌then◌else◌) (target, path, answered)
                | inr open_end ↦
                    rw (open_end, if◌then◌else◌)
                      (elim (Option-cases (find_cname target answers)) [
                        | inl last ↦ rw (last, follow_cnames) (path, open_end, last)
                        | inr (next, e) ↦
                            rw (e, follow_cnames)
                              (follow_sound n answers rtype (lower_string target ∷ keys) start next
                                (Alias-hop answers path e)
                                (
                                  (target, next, path, e, itself, refl),
                                  step-LeadsOn answers start target next keys e trail,
                                )
                                (λ u. h (
                                  rw (new, if◌then◌else◌)
                                    (rw (open_end, if◌then◌else◌) (rw (e, follow_cnames) u)))))
                      ])
              ])
      ]

  -- The loop ends within one step more than the response has records: where the path of CNAME records
  -- from the name comes back to a name that it has passed; at a name on this path that has the wanted
  -- type; or at the last name of this path, which does not have it.
  pub follow_cnames_lem :
      (answers : List (Record Name)) (rtype : ℕ) (name target : Name)
      → find_cname name answers ≡ some target
      → Follows answers rtype name
          (follow_cnames (length answers + 1) answers rtype (lower_string name ∷ []) target)
  follow_cnames_lem answers rtype name target h =
      follow_sound (length answers + 1) answers rtype (lower_string name ∷ []) name target
        (hop h itself) ((name, target, itself, h, itself, refl), tt)
        (follow_finishes (length answers + 1) answers rtype (lower_string name ∷ []) target
          (find_cname-LeadTo name answers h)
          (omega (arith, unseen-le (lower_string name ∷ []) answers)))

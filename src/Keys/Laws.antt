-- ===== src/Keys/Laws.antt =====
-- Who an API key lets in after it was created, rotated or revoked.
use printer_repo.Prelude.{
  ℕ, ◌≡◌, refl, sym, subst, inl, inr, Bool, true, false, ◌&&◌, List, [], ◌∷◌, ◌++◌, Option, none,
  some, arith, any, is_some, is_none, Bool-cases, All, and_split,
}
use printer_repo.Prelude.Text.{
  Text, text, text_eq, text_eq_refl, text_eq_sound, text_eq_iff, starts_with, starts_with-append,
  trim,
}
use printer_repo.Agents.{drop_prefix}
use printer_repo.Managers.Token.{ManagerClaims}
use printer_repo.Keys.{
  ApiKey, GeneratedKey, generate_odoo_api_key, find_key, raw_key, accept, validate_odoo_key,
  rotated, revoked, clashes, is_key, revoke_row, successor, rotate_found, delete_key,
}

-- Every row under the id is revoked.
abbrev pub AllRevoked : (id tenant_id : Text) → List ApiKey → Type 0
AllRevoked id tenant_id keys =
    All (λ (k : ApiKey). is_key id tenant_id k ≡ true → is_some k.revoked_at ≡ true) keys

revoke-AllRevoked :
    (id tenant_id : Text) (now : ℕ) (keys : List ApiKey)
    → AllRevoked id tenant_id (revoke_row id tenant_id now keys)
unfolding revoke_row
revoke-AllRevoked id tenant_id now [] = tt
revoke-AllRevoked id tenant_id now (k ∷ rest) = elim (Bool-cases (is_key id tenant_id k)) [
  | inl e ↦ rw e ((λ _. refl), revoke-AllRevoked id tenant_id now rest)
  | inr e ↦ rw e ((λ h. absurd (ground arith)), revoke-AllRevoked id tenant_id now rest)
]

find-All :
    (P : ApiKey → Type 0) (test : ApiKey → Bool) (keys : List ApiKey) (row : ApiKey)
    → All P keys
    → find_key test keys ≡ some row
    → P row
unfolding find_key
find-All P test [] row h e = absurd (ground arith)
find-All P test (k ∷ rest) row (p, ps) e = elim (Bool-cases (test k)) [
  | inl t ↦ let same : k ≡ row = some_inj (rw t at e) in subst P same p
  | inr t ↦ find-All P test rest row ps (rw t at e)
]
  where
    some_inj : {a b : ApiKey} → some a ≡ some b → a ≡ b
    some_inj h = cc

accepted_row :
    (hashed : Text) (found : Option ApiKey) (row : ApiKey)
    → accept hashed found ≡ some row
    → (found ≡ some row) × (is_none row.revoked_at ≡ true)
accepted_row hashed none row h = absurd (ground arith)
accepted_row hashed (some k) row h =
    elim (Bool-cases (is_none k.revoked_at && text_eq k.hashed_key hashed)) [
      | inl e ↦
          let same : some k ≡ some row = rw e at h in
          (same, ground (arith, and_split (is_none k.revoked_at) (text_eq k.hashed_key hashed) e))
      | inr e ↦ absurd (ground arith)
    ]

-- No header is accepted for a key all rows of which are revoked.
refused_key :
    (hash : Text → Text) (authorization api_header : Option Text) (now : ℕ) (keys : List ApiKey)
    (id tenant_id : Text) (row : ApiKey)
    → AllRevoked id tenant_id keys
    → (validate_odoo_key hash authorization api_header now keys).1 ≡ some row
    → is_key id tenant_id row ≡ false
unfolding validate_odoo_key
refused_key hash authorization api_header now keys id tenant_id row h e =
    let raw = raw_key authorization api_header in
    let test : ApiKey → Bool = λ k. text_eq k.hashed_key (hash raw) in
    let taken : accept (hash raw) (find_key test keys) ≡ some row = ground arith in
    let (found, live) = accepted_row (hash raw) (find_key test keys) row taken in
    let gone = find-All _ test keys row h found in
    elim (Bool-cases (is_key id tenant_id row)) [
      | inl mine ↦ absurd (both row.revoked_at live (gone mine))
      | inr other ↦ other
    ]
  where
    both : (o : Option ℕ) → is_none o ≡ true → is_some o ≡ true → ⊥
    both none a b = ground arith
    both (some t) a b = ground arith

not_clashing :
    (made : GeneratedKey) (keys : List ApiKey)
    → any (clashes made) keys ≡ false
    → All (λ (k : ApiKey). text_eq k.id made.id ≡ false) keys
not_clashing made [] h = tt
not_clashing made (k ∷ rest) h = (ground arith, not_clashing made rest (ground arith))

differs : (a b : Text) → text_eq a b ≡ false → text_eq b a ≡ false
differs a b h = elim (Bool-cases (text_eq b a)) [
  | inl same ↦ absurd (ground (arith, (text_eq_iff a b).1 (sym (text_eq_sound b a same))))
  | inr other ↦ other
]

raw-bearer : (raw : Text) → raw_key (some (text "Bearer " ++ raw)) none ≡ trim raw
unfolding raw_key text starts_with drop_prefix
raw-bearer raw = refl

-- A live row at the head of the table is accepted under its raw key.
head-accepted :
    (hash : Text → Text) (raw : Text) (now : ℕ) (row : ApiKey) (rest : List ApiKey)
    → trim raw ≡ raw
    → starts_with raw (text "odoo_") ≡ true
    → text_eq row.hashed_key (hash raw) ≡ true
    → is_none row.revoked_at ≡ true
    → (validate_odoo_key hash (some (text "Bearer " ++ raw)) none now (row ∷ rest)).1 ≡ some row
unfolding validate_odoo_key find_key
head-accepted hash raw now row rest t o h r = rw (raw-bearer raw, t, o, h, r, h) refl

-- What a rotation of `old` to `made` leaves.
abbrev pub IsRotated :
    (hash : Text → Text)
    → (id tenant_id : Text) → GeneratedKey
    → (later : ℕ) → ApiKey
    → List ApiKey
    → Type 0
IsRotated hash id tenant_id made later old keys =
    ((row : ApiKey) × ((validate_odoo_key hash (some (text "Bearer " ++ made.raw)) none later
          keys).1
        ≡ some row)
      × (row.tenant_id ≡ old.tenant_id)
      × (row.scope ≡ old.scope)
      × (row.allowed_document_types ≡ old.allowed_document_types))
    × ((authorization api_header : Option Text) (row : ApiKey)
        → (validate_odoo_key hash authorization api_header later keys).1 ≡ some row
        → is_key id tenant_id row ≡ false)

found_old :
    (id tenant_id : Text) (keys : List ApiKey) (old : ApiKey)
    → find_key (is_key id tenant_id) keys ≡ some old
    → is_key id tenant_id old ≡ true
unfolding find_key
found_old id tenant_id [] old h = absurd (ground arith)
found_old id tenant_id (k ∷ rest) old h = elim (Bool-cases (is_key id tenant_id k)) [
  | inl e ↦ subst (λ (o : ApiKey). is_key id tenant_id o ≡ true) (some_inj (rw e at h)) e
  | inr e ↦ found_old id tenant_id rest old (rw e at h)
]
  where
    some_inj : {a b : ApiKey} → some a ≡ some b → a ≡ b
    some_inj h = cc

head-kept :
    (id tenant_id : Text) (now : ℕ) (row : ApiKey) (rest : List ApiKey)
    → text_eq row.id id ≡ false
    → revoke_row id tenant_id now (row ∷ rest) ≡ row ∷ revoke_row id tenant_id now rest
unfolding revoke_row
head-kept id tenant_id now row rest h = rw h refl

-- A rotation that goes through replaces an unrevoked key of the manager's tenant: from then on the new
-- raw key is accepted, for the same tenant and with the same scope and document types, and no header at
-- all is accepted for the old key. The parts of the new key are fresh, and it has no white space.
pub rotate-replaces :
    (hash : Text → Text) (secret new_id id tenant_id : Text) (now later : ℕ) (old : ApiKey)
    (keys : List ApiKey)
    → let made = generate_odoo_api_key hash secret new_id in
      find_key (is_key id tenant_id) keys ≡ some old
      → old.revoked_at ≡ none
      → any (clashes made) keys ≡ false
      → trim made.raw ≡ made.raw
      → ((rotate_found made now (some old) keys).1 ≡ rotated made.id old.id made.raw)
        × IsRotated hash id tenant_id made later old (rotate_found made now (some old) keys).0
unfolding rotate_found generate_odoo_api_key successor
rotate-replaces hash secret new_id id tenant_id now later old keys found live fresh plain =
    let made = generate_odoo_api_key hash secret new_id in
    let mine = found_old id tenant_id keys old found in
    let same_id : old.id ≡ id = text_eq_sound old.id id (ground arith) in
    let same_tenant : old.tenant_id ≡ tenant_id =
      text_eq_sound old.tenant_id tenant_id (ground arith) in
    let other_id = find-All _ (is_key id tenant_id) keys old (not_clashing made keys fresh) found in
    let row = successor old made now in
    let head = head-kept old.id old.tenant_id now row keys (differs old.id made.id other_id) in
    let unrevoked : is_some old.revoked_at ≡ false = rw live refl in
    rw (unrevoked, fresh)
      (
        refl,
        (
          (
            row,
            rw head (
                head-accepted hash made.raw later row (revoke_row old.id old.tenant_id now keys)
                  plain (starts_with-append (text "odoo_") secret) (text_eq_refl (hash made.raw))
                  refl),
            refl,
            refl,
            refl,
          ),
          λ authorization api_header k e.
              refused_key hash authorization api_header later
                (revoke_row old.id old.tenant_id now (row ∷ keys)) id tenant_id k
                (subst
                  (λ (i : Text).
                    AllRevoked i tenant_id (revoke_row old.id old.tenant_id now (row ∷ keys)))
                  same_id
                  (subst
                    (λ (t : Text).
                      AllRevoked old.id t (revoke_row old.id old.tenant_id now (row ∷ keys)))
                    same_tenant (revoke-AllRevoked old.id old.tenant_id now (row ∷ keys))))
                e,
        ),
      )

revoked_rows :
    (referenced : Text → Bool) (claims : ManagerClaims) (id : Text) (now : ℕ) (keys : List ApiKey)
    → (delete_key referenced (some claims) id false now keys).1 ≡ revoked id now
    → (delete_key referenced (some claims) id false now keys).0
      ≡ revoke_row id claims.tenant_id now keys
unfolding delete_key
revoked_rows referenced claims id now keys h = ground arith

-- After a manager revoked a key, no header is accepted for it.
pub revoke-refused :
    (hash : Text → Text) (referenced : Text → Bool) (claims : ManagerClaims) (id : Text)
    (now later : ℕ) (keys : List ApiKey) (authorization api_header : Option Text) (row : ApiKey)
    → (delete_key referenced (some claims) id false now keys).1 ≡ revoked id now
    → (validate_odoo_key hash authorization api_header later
        (delete_key referenced (some claims) id false now keys).0).1
      ≡ some row
    → is_key id claims.tenant_id row ≡ false
revoke-refused hash referenced claims id now later keys authorization api_header row h e =
    refused_key hash authorization api_header later
      (delete_key referenced (some claims) id false now keys).0 id claims.tenant_id row
      (subst (AllRevoked id claims.tenant_id) (sym (revoked_rows referenced claims id now keys h))
        (revoke-AllRevoked id claims.tenant_id now keys))
      e

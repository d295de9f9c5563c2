-- ===== src/Keys.antt =====
-- The API keys of Odoo installations: src/lib/odoo-auth.ts, src/app/api/odoo/keys/route.ts and the route
-- that rotates a key. `hash` is the SHA-256 digest in hexadecimal; the random parts of a key are drawn
-- outside. Jobs has the print API that the keys open.
pub mod Jobs
pub mod Laws
pub mod JobLaws
mod Tests
use printer_repo.Prelude.{
  ℕ, Bool, true, false, not, ◌&&◌, ◌||◌, List, [], ◌∷◌, ◌++◌, Option, none, some, if◌then◌else◌,
  map, any, filter, or_else, is_none, is_some,
}
use printer_repo.Prelude.Text.{Text, text, text_eq, starts_with, trim, to_lower}
use printer_repo.Agents.{drop_prefix}
use printer_repo.Managers.Token.{ManagerClaims}
use printer_repo.Console.Roles.{has_manager_permission}

pub record ApiKey : Type 0 where
  pub id : Text
  pub tenant_id : Text
  pub scope : Text
  pub name : Text
  pub description : Option Text
  pub hashed_key : Text
  pub allowed_document_types : Option (List Text)
  pub created_at : ℕ
  pub last_used_at : Option ℕ
  pub revoked_at : Option ℕ

-- `generateOdooApiKey`: the raw key, its digest and the id of its row.
pub record GeneratedKey : Type 0 where
  pub raw : Text
  pub hashed : Text
  pub id : Text

unfoldable pub generate_odoo_api_key : (hash : Text → Text) → (secret id : Text) → GeneratedKey
generate_odoo_api_key hash secret id =
    let raw = text "odoo_" ++ secret in
    record { raw = raw; hashed = hash raw; id = text "key_" ++ id }

-- `normalizeDocumentType`
abbrev pub normalize_document_type : Option Text → Text
normalize_document_type value = to_lower (trim (or_else value []))

abbrev pub is_blank : Text → Bool
is_blank [] = true
is_blank (c ∷ t) = false

abbrev pub is_among : List Text → Text → Bool
is_among allowed wanted =
    not (is_blank wanted)
    && any (λ value. text_eq (normalize_document_type (some value)) wanted) allowed

abbrev pub allows : Option (List Text) → Option Text → Bool
allows none document_type = true
allows (some []) document_type = true
allows (some (a ∷ rest)) document_type = is_among (a ∷ rest) (normalize_document_type document_type)

-- `isOdooKeyAllowedForDocumentType`
unfoldable pub is_odoo_key_allowed_for_document_type : ApiKey → Option Text → (writes : Bool) → Bool
is_odoo_key_allowed_for_document_type key document_type writes =
    if writes && text_eq (to_lower (trim key.scope)) (text "read_only")
    then false
    else allows key.allowed_document_types document_type

unfoldable pub find_key : (ApiKey → Bool) → List ApiKey → Option ApiKey
find_key test [] = none
find_key test (k ∷ rest) = let later = find_key test rest in if test k then some k else later

-- The raw key of a request: behind `Bearer `, or in `x-api-key`.
unfoldable pub raw_key : (authorization api_header : Option Text) → Text
raw_key authorization api_header =
    let header = or_else authorization [] in
    if starts_with header (text "Bearer ")
    then trim (drop_prefix (text "Bearer ") header)
    else trim (or_else api_header [])

-- The row that the digest finds, unless it is revoked.
abbrev pub accept : Text → Option ApiKey → Option ApiKey
accept hashed none = none
accept hashed (some row) =
    if is_none row.revoked_at && text_eq row.hashed_key hashed then some row else none

abbrev pub touch : ℕ → Option ApiKey → List ApiKey → List ApiKey
touch now none keys = keys
touch now (some row) keys =
    map
      (λ (k : ApiKey).
        if text_eq k.id row.id && text_eq k.tenant_id row.tenant_id
        then record k { last_used_at = some now }
        else k)
      keys

-- `validateOdooKey`: the table after it, and the key.
unfoldable pub validate_odoo_key :
    (hash : Text → Text)
    → (authorization api_header : Option Text) → (now : ℕ) → List ApiKey
    → List ApiKey × Option ApiKey
unfolding raw_key find_key
validate_odoo_key hash authorization api_header now keys =
    let raw = raw_key authorization api_header in
    let row = accept (hash raw) (find_key (λ k. text_eq k.hashed_key (hash raw)) keys) in
    if starts_with raw (text "odoo_") then (touch now row keys, row) else (keys, none)

pub record KeyInput : Type 0 where
  pub name : Option Text
  pub description : Option Text
  pub scope : Text
  pub allowed_document_types : Option (List Text)

pub data KeyReply : Type 0 where
  unauthorized forbidden id_required key_not_found : KeyReply
  still_active has_jobs not_active duplicate : KeyReply
  created : (id raw : Text) → KeyReply
  rotated : (id replaced raw : Text) → KeyReply
  removed : Text → KeyReply
  revoked : (id : Text) → (at : ℕ) → KeyReply

abbrev filled : Option Text → Option Text
filled none = none
filled (some t) = if is_blank (trim t) then none else some (trim t)

abbrev unless_empty : Option (List Text) → Option (List Text)
unless_empty (some []) = none
unless_empty types = types

-- The row of a new key.
unfoldable pub new_key : (tenant_id : Text) → KeyInput → GeneratedKey → ℕ → ApiKey
new_key tenant_id input made now = record {
  id = made.id;
  tenant_id = tenant_id;
  scope = input.scope;
  name = or_else input.name (text "Odoo");
  description = filled input.description;
  hashed_key = made.hashed;
  allowed_document_types = unless_empty input.allowed_document_types;
  created_at = now;
  last_used_at = none;
  revoked_at = none;
}

-- The primary key and the unique digest refuse a second row.
abbrev pub clashes : GeneratedKey → ApiKey → Bool
clashes made k = text_eq k.id made.id || text_eq k.hashed_key made.hashed

abbrev pub may : Option ManagerClaims → Text → Option KeyReply
may none permission = some unauthorized
may (some claims) permission =
    if has_manager_permission claims.role permission then none else some forbidden

abbrev pub unless_refused :
    Option KeyReply → List ApiKey → List ApiKey × KeyReply → List ApiKey × KeyReply
unless_refused none keys next = next
unless_refused (some reply) keys next = (keys, reply)

abbrev pub tenant_of : Option ManagerClaims → Text
tenant_of none = []
tenant_of (some claims) = claims.tenant_id

-- POST of the route, after the schema.
unfoldable pub create_key :
    Option ManagerClaims
    → KeyInput
    → GeneratedKey
    → (now : ℕ) → List ApiKey
    → List ApiKey × KeyReply
unfolding new_key
create_key claims input made now keys =
    unless_refused (may claims (text "integrations.manage")) keys (
      if any (clashes made) keys
      then (keys, duplicate)
      else (new_key (tenant_of claims) input made now ∷ keys, created made.id made.raw))

abbrev pub is_key : (id tenant_id : Text) → ApiKey → Bool
is_key id tenant_id k = text_eq k.id id && text_eq k.tenant_id tenant_id

unfoldable pub revoke_row : (id tenant_id : Text) → ℕ → List ApiKey → List ApiKey
revoke_row id tenant_id now keys =
    map (λ k. if is_key id tenant_id k then record k { revoked_at = some now } else k) keys

abbrev after_removal : Option ApiKey → KeyReply
after_removal none = key_not_found
after_removal (some k) = still_active

-- `remove: true`; `referenced` are the ids that rows of `print_jobs` refer to.
unfoldable pub remove_key :
    (referenced : Text → Bool) → (id tenant_id : Text) → List ApiKey → List ApiKey × KeyReply
unfolding find_key
remove_key referenced id tenant_id keys =
    let gone : ApiKey → Bool = λ k. is_key id tenant_id k && is_some k.revoked_at in
    if any gone keys
    then (if referenced id then (keys, has_jobs) else (filter (λ k. not (gone k)) keys, removed id))
    else (keys, after_removal (find_key (is_key id tenant_id) keys))

-- DELETE of the route: `id` is the trimmed text of the body, `remove` whether `remove` is true.
unfoldable pub delete_key :
    (referenced : Text → Bool)
    → Option ManagerClaims
    → (id : Text) → (remove : Bool) → (now : ℕ) → List ApiKey
    → List ApiKey × KeyReply
unfolding remove_key revoke_row
delete_key referenced claims id remove now keys =
    unless_refused (may claims (text "integrations.manage")) keys (
      if is_blank id
      then (keys, id_required)
      else if remove
      then remove_key referenced id (tenant_of claims) keys
      else if any (is_key id (tenant_of claims)) keys
      then (revoke_row id (tenant_of claims) now keys, revoked id now)
      else (keys, key_not_found))

-- The row that takes the place of `old`.
unfoldable pub successor : ApiKey → GeneratedKey → ℕ → ApiKey
successor old made now = record {
  id = made.id;
  tenant_id = old.tenant_id;
  scope = old.scope;
  name = old.name;
  description = old.description;
  hashed_key = made.hashed;
  allowed_document_types = old.allowed_document_types;
  created_at = now;
  last_used_at = none;
  revoked_at = none;
}

unfoldable pub rotate_found :
    GeneratedKey → (now : ℕ) → Option ApiKey → List ApiKey → List ApiKey × KeyReply
unfolding successor revoke_row
rotate_found made now none keys = (keys, key_not_found)
rotate_found made now (some old) keys =
    if is_some old.revoked_at
    then (keys, not_active)
    else if any (clashes made) keys
    then (keys, duplicate)
    else (
      revoke_row old.id old.tenant_id now (successor old made now ∷ keys),
      rotated made.id old.id made.raw,
    )

-- POST of the route that rotates a key.
unfoldable pub rotate_key :
    Option ManagerClaims
    → (id : Text) → GeneratedKey
    → (now : ℕ) → List ApiKey
    → List ApiKey × KeyReply
unfolding rotate_found find_key
rotate_key claims id made now keys = unless_refused (may claims (text "integrations.manage")) keys (
    if is_blank (trim id)
    then (keys, id_required)
    else rotate_found made now (find_key (is_key id (tenant_of claims)) keys) keys)

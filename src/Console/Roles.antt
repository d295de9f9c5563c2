-- ===== src/Console/Roles.antt =====
-- src/lib/authorization.ts: the permissions of each role. Roles and permissions are the texts of the
-- source.
use printer_repo.Prelude.{
  ◌≡◌, refl, Bool, true, false, ◌&&◌, List, [], ◌∷◌, Option, none, some, if◌then◌else◌, Bool-cases,
  inl, inr, and_split,
}
use printer_repo.Prelude.Text.{Text, text, text_eq, text_eq_sound}
use printer_repo.Printer.Routing.{contains}

abbrev pub owner_permissions : List Text
owner_permissions =
    text "tenant.read"
    ∷ text "tenant.update"
    ∷ text "users.read"
    ∷ text "users.manage"
    ∷ text "agents.read"
    ∷ text "agents.pair"
    ∷ text "agents.disable"
    ∷ text "agents.retire"
    ∷ text "printers.read"
    ∷ text "printers.manage"
    ∷ text "printers.test"
    ∷ text "jobs.read"
    ∷ text "jobs.create"
    ∷ text "jobs.retry"
    ∷ text "jobs.cancel"
    ∷ text "bindings.read"
    ∷ text "bindings.manage"
    ∷ text "integrations.read"
    ∷ text "integrations.manage"
    ∷ text "billing.read"
    ∷ text "billing.manage"
    ∷ []

abbrev pub admin_permissions : List Text
admin_permissions =
    text "tenant.read"
    ∷ text "users.read"
    ∷ text "users.manage"
    ∷ text "agents.read"
    ∷ text "agents.pair"
    ∷ text "agents.disable"
    ∷ text "agents.retire"
    ∷ text "printers.read"
    ∷ text "printers.manage"
    ∷ text "printers.test"
    ∷ text "jobs.read"
    ∷ text "jobs.create"
    ∷ text "jobs.retry"
    ∷ text "jobs.cancel"
    ∷ text "bindings.read"
    ∷ text "bindings.manage"
    ∷ text "integrations.read"
    ∷ text "integrations.manage"
    ∷ text "billing.read"
    ∷ text "billing.manage"
    ∷ []

abbrev pub operator_permissions : List Text
operator_permissions =
    text "tenant.read"
    ∷ text "agents.read"
    ∷ text "printers.read"
    ∷ text "printers.test"
    ∷ text "jobs.read"
    ∷ text "jobs.create"
    ∷ text "jobs.retry"
    ∷ text "jobs.cancel"
    ∷ text "bindings.read"
    ∷ []

abbrev pub viewer_permissions : List Text
viewer_permissions =
    text "tenant.read"
    ∷ text "agents.read"
    ∷ text "printers.read"
    ∷ text "jobs.read"
    ∷ text "bindings.read"
    ∷ []

abbrev pub integration_admin_permissions : List Text
integration_admin_permissions =
    text "tenant.read"
    ∷ text "agents.read"
    ∷ text "printers.read"
    ∷ text "jobs.read"
    ∷ text "bindings.read"
    ∷ text "bindings.manage"
    ∷ text "integrations.read"
    ∷ text "integrations.manage"
    ∷ []

abbrev pub billing_admin_permissions : List Text
billing_admin_permissions = text "tenant.read" ∷ text "billing.read" ∷ text "billing.manage" ∷ []

-- `permissionsByRole[role]`
unfoldable pub permissions_by_role : Text → Option (List Text)
permissions_by_role role =
    if text_eq role (text "owner")
    then some owner_permissions
    else if text_eq role (text "admin")
    then some admin_permissions
    else if text_eq role (text "operator")
    then some operator_permissions
    else if text_eq role (text "viewer")
    then some viewer_permissions
    else if text_eq role (text "integration_admin")
    then some integration_admin_permissions
    else if text_eq role (text "billing_admin")
    then some billing_admin_permissions
    else none

abbrev pub permits : Option (List Text) → Text → Bool
permits none permission = false
permits (some names) permission = contains names permission

-- `hasManagerPermission`
unfoldable pub has_manager_permission : (role permission : Text) → Bool
unfolding permissions_by_role
has_manager_permission role permission = permits (permissions_by_role role) permission

-- `requireManagerPermission` in front of an action: an error in place of its result.
pub data Permitted (A : Type 0) : Type 0 where
  forbidden : Permitted A
  allowed : A → Permitted A

unfoldable pub require_manager_permission :
    {A : Type 0} → (role permission : Text) → A → Permitted A
unfolding has_manager_permission
require_manager_permission role permission result =
    if has_manager_permission role permission then allowed result else forbidden

-- Every name of the first list is in the second.
is_subset : List Text → List Text → Bool
is_subset [] bs = true
is_subset (a ∷ as') bs = contains bs a && is_subset as' bs

contains_mono :
    (as' bs : List Text) (t : Text)
    → is_subset as' bs ≡ true
    → contains as' t ≡ true
    → contains bs t ≡ true
unfolding is_subset
contains_mono [] bs t s h = cc
contains_mono (a ∷ as') bs t s h = elim (Bool-cases (text_eq a t)) [
  | inl same ↦ rw (← text_eq_sound a t same) (and_split (contains bs a) (is_subset as' bs) s).0
  | inr other ↦
      contains_mono as' bs t (and_split (contains bs a) (is_subset as' bs) s).1 (rw other at h)
]

-- One role permits whatever another does.
abbrev pub Covers : Text → Text → Type 0
Covers role lesser =
    (permission : Text)
    → has_manager_permission lesser permission ≡ true
    → has_manager_permission role permission ≡ true

-- The roles grow: an operator may do whatever a viewer may, an admin whatever an operator or an
-- integration or billing admin may, and an owner whatever an admin may.
pub roles-Covers :
    Covers (text "operator") (text "viewer")
    × Covers (text "admin") (text "operator")
    × Covers (text "admin") (text "integration_admin")
    × Covers (text "admin") (text "billing_admin")
    × Covers (text "owner") (text "admin")
unfolding has_manager_permission is_subset text text_eq
roles-Covers = (
  λ p h. contains_mono viewer_permissions operator_permissions p refl h,
  λ p h. contains_mono operator_permissions admin_permissions p refl h,
  λ p h. contains_mono integration_admin_permissions admin_permissions p refl h,
  λ p h. contains_mono billing_admin_permissions admin_permissions p refl h,
  λ p h. contains_mono admin_permissions owner_permissions p refl h,
)

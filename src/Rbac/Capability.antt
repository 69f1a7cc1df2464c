-- ===== src/Rbac/Capability.antt =====
-- The capabilities of apps/api/src/rbac/capabilities.ts, and who holds which.
pub mod Sanitize
use rem0te.Prelude.{
  ℕ, ◌≡◌, Bool, true, false, not, ◌&&◌, ◌||◌, Option, none, some, List, [], ◌∷◌, ◌++◌, String,
  str_eq, if◌then◌else◌, any, same, includes,
}
use rem0te.Prelude.Json.{Json, Items}

-- `CAP`
pub data Capability : Type 0 where
  computers_view computers_connect computers_add computers_remove computers_edit : Capability
  computers_event_logs quick_connect sessions_view history_view support_requests : Capability
  users_view users_manage audit_view : Capability

unfoldable pub Capability-discrete : Discrete Capability
Capability-discrete = hlevel

-- the string of a capability
unfoldable pub key : Capability → String
key computers_view = "computers:view"
key computers_connect = "computers:connect"
key computers_add = "computers:add"
key computers_remove = "computers:remove"
key computers_edit = "computers:edit"
key computers_event_logs = "computers:event_logs"
key quick_connect = "support:quick_connect"
key sessions_view = "support:sessions_view"
key history_view = "support:history_view"
key support_requests = "support:requests"
key users_view = "users:view"
key users_manage = "users:manage"
key audit_view = "audit:view"

abbrev pub all_business_capabilities : List Capability
all_business_capabilities =
    computers_view ∷ computers_connect ∷ computers_add ∷ computers_remove ∷ computers_edit
    ∷ computers_event_logs ∷ quick_connect ∷ sessions_view ∷ history_view ∷ support_requests
    ∷ users_view ∷ users_manage ∷ audit_view ∷ []

pub data RoleType : Type 0 where
  platform_admin business_owner business_user tenant_owner tenant_admin technician : RoleType
  billing_admin read_only customer : RoleType

abbrev pub legacy_role_capabilities : RoleType → List Capability
legacy_role_capabilities technician =
    computers_view ∷ computers_connect ∷ sessions_view ∷ history_view ∷ []
legacy_role_capabilities billing_admin = users_view ∷ audit_view ∷ []
legacy_role_capabilities read_only = computers_view ∷ sessions_view ∷ history_view ∷ audit_view ∷ []
legacy_role_capabilities customer =
    computers_view ∷ computers_connect ∷ sessions_view ∷ history_view ∷ []
legacy_role_capabilities _ = []

abbrev pub is_owner_role : Option RoleType → Bool
is_owner_role (some business_owner) = true
is_owner_role (some tenant_owner) = true
is_owner_role (some tenant_admin) = true
is_owner_role _ = false

-- The capability with a given key: membership in the set of the allowed strings.
unfoldable pub find_capability : String → List Capability → Option Capability
unfolding key
find_capability s [] = none
find_capability s (c ∷ cs) = if str_eq (key c) s then some c else find_capability s cs

unfoldable pub of_key : String → Option Capability
unfolding find_capability
of_key s = find_capability s all_business_capabilities

-- `out.add(raw)` if it is allowed
unfoldable pub add_found : Option Capability → List Capability → List Capability
unfolding includes Capability-discrete
add_found none seen = seen
add_found (some c) seen = if includes Capability-discrete c seen then seen else seen ++ c ∷ []

-- The loop of `sanitizeCapabilities`: `seen` holds the set in the order of insertion.
unfoldable pub sanitize_items : List Capability → Items → List Capability
sanitize_items seen Items.nil = seen
sanitize_items seen (Items.cons (Json.string s) xs) = sanitize_items (add_found (of_key s) seen) xs
sanitize_items seen (Items.cons _ xs) = sanitize_items seen xs

unfoldable pub sanitize_capabilities : Json → List Capability
unfolding sanitize_items
sanitize_capabilities (Json.array xs) = sanitize_items [] xs
sanitize_capabilities _ = []

abbrev pub is_assignable : Capability → Bool
is_assignable users_manage = false
is_assignable _ = true

unfoldable pub keep_assignable : List Capability → List Capability
keep_assignable [] = []
keep_assignable (c ∷ cs) = if is_assignable c then c ∷ keep_assignable cs else keep_assignable cs

unfoldable pub sanitize_technician_capabilities : Json → List Capability
unfolding sanitize_capabilities keep_assignable
sanitize_technician_capabilities input = keep_assignable (sanitize_capabilities input)

-- `stored`, or what the legacy role stands for
abbrev pub or_legacy : Option RoleType → List Capability → List Capability
or_legacy role (c ∷ cs) = c ∷ cs
or_legacy none [] = []
or_legacy (some r) [] = legacy_role_capabilities r

unfoldable pub effective_capabilities : Bool → Option RoleType → Json → List Capability
unfolding sanitize_capabilities
effective_capabilities admin role stored =
    if admin || is_owner_role role
    then all_business_capabilities
    else or_legacy role (sanitize_capabilities stored)

unfoldable pub has_capability : Bool → Option RoleType → Json → Capability → Bool
unfolding effective_capabilities includes Capability-discrete
has_capability admin role stored c =
    admin || includes Capability-discrete c (effective_capabilities admin role stored)

-- `DEFAULT_BUSINESS_USER_CAPABILITIES`
abbrev pub default_business_user_capabilities : List Capability
default_business_user_capabilities = computers_view ∷ computers_connect ∷ []

unfoldable pub access_level_label : Bool → Option RoleType → String
access_level_label admin role =
    if admin
    then "Platform Admin"
    else if is_owner_role role
    then "Business Owner"
    else "Business User"

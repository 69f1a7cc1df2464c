-- ===== src/Rbac/Technician.antt =====
-- Technician assignments: apps/api/src/rbac/technician-access.service.ts, `resolve` and
-- `computerAccessActive`. The texts that only describe a grant to a reader are left out.
pub mod Sets
pub mod Scopes
use rem0te.Schedule.Parse.{stored_schedule_allows}
use rem0te.Schedule.{Intl, is_within_dates}
use rem0te.Prelude.{
  ℕ, ◌≡◌, Bool, true, false, not, ◌&&◌, ◌||◌, Option, none, some, List, [], ◌∷◌, ◌++◌, String,
  str_eq, if◌then◌else◌, any, ltb, leb, is_some, includes, Bool-cases, inl, eq_iff, inr,
}
use rem0te.Prelude.Json.{Json, Items}
use rem0te.Rbac.Capability.{Capability, Capability-discrete, sanitize_technician_capabilities}

pub data Approval : Type 0 where
  not_required approved pending denied : Approval

pub record Business : Type 0 where
  pub id : String
  pub is_active : Bool
  pub is_archived : Bool

-- A row of `loadGrants`: not revoked, for the user or for a group with the user in it.
pub record Assignment : Type 0 where
  pub id : String
  pub customer : Business
  pub user_id : Option String
  pub group_capabilities : Option Json
  pub capabilities : Json
  pub endpoint_ids : List String
  pub starts_at : Option ℕ
  pub expires_at : Option ℕ
  pub schedule : Json
  pub approval : Approval

pub data InactiveReason : Type 0 where
  not_started expired outside_schedule pending_approval denied business_disabled : InactiveReason

pub record GrantSource : Type 0 where
  pub assignment_id : String
  pub is_direct : Bool
  pub temporary : Bool
  pub capabilities : List Capability
  pub endpoint_ids : Option (List String)

pub record BusinessScope : Type 0 where
  pub business_id : String
  pub capabilities : List Capability
  pub endpoint_ids : Option (List String)
  pub sources : List GrantSource

-- `a.capabilities.length > 0`, of a column that is an array of strings
abbrev is_listed : Json → Bool
is_listed (Json.array (Items.cons x xs)) = true
is_listed _ = false

abbrev or_group : Json → Option Json → Json
or_group own none = if is_listed own then own else Json.array Items.nil
or_group own (some group) = if is_listed own then own else group

abbrev listed_ids : List String → Option (List String)
listed_ids [] = none
listed_ids (x ∷ xs) = some (x ∷ xs)

unfoldable pub to_source : Assignment → GrantSource
unfolding sanitize_technician_capabilities
to_source a = record {
  assignment_id = a.id;
  is_direct = is_some a.user_id;
  temporary = is_some a.expires_at;
  capabilities = sanitize_technician_capabilities (or_group a.capabilities a.group_capabilities);
  endpoint_ids = listed_ids a.endpoint_ids;
}

abbrev starts_later : Option ℕ → ℕ → Bool
starts_later none at = false
starts_later (some s) at = ltb at s

abbrev is_over : Option ℕ → ℕ → Bool
is_over none at = false
is_over (some e) at = leb e at

-- The ladder that decides why a grant does not count; the schedule is asked last.
abbrev timed_reason : Bool → Option ℕ → Option ℕ → ℕ → Option InactiveReason
timed_reason inside starts expires at =
    if starts_later starts at
    then some InactiveReason.not_started
    else if is_over expires at
    then some InactiveReason.expired
    else if inside
    then none
    else some InactiveReason.outside_schedule

unfoldable pub inactive_reason : Intl → Assignment → ℕ → Option InactiveReason
inactive_reason intl a at = elim a.approval [
  | pending ↦ some InactiveReason.pending_approval
  | denied ↦ some InactiveReason.denied
  | _ ↦
      if not a.customer.is_active || a.customer.is_archived
      then some InactiveReason.business_disabled
      else timed_reason (stored_schedule_allows intl a.schedule at) a.starts_at a.expires_at at
]

-- The elements of a list that a set holds already are not added again.
unfoldable pub add_all {ℓ} : {A : Type ℓ} → Discrete A → List A → List A → List A
unfolding includes
add_all dec set [] = set
add_all dec set (y ∷ ys) = add_all dec (if includes dec y set then set else set ++ y ∷ []) ys

-- `[...new Set([...xs, ...ys])]`
abbrev pub union {ℓ} : {A : Type ℓ} → Discrete A → List A → List A → List A
union dec xs ys = add_all dec [] (xs ++ ys)

unfoldable pub String-discrete : Discrete String
String-discrete s t = elim (Bool-cases (str_eq s t)) [
  | inl h ↦ yes ((eq_iff s t).0 h)
  | inr h ↦ no (λ e. cc (h, (eq_iff s t).1 e))
]

-- null stands for every computer of the business
abbrev pub merge_endpoints : Option (List String) → Option (List String) → Option (List String)
merge_endpoints (some xs) (some ys) = some (union String-discrete xs ys)
merge_endpoints _ _ = none

abbrev first_scope : Assignment → BusinessScope
first_scope a = record {
  business_id = a.customer.id;
  capabilities = (to_source a).capabilities;
  endpoint_ids = (to_source a).endpoint_ids;
  sources = to_source a ∷ [];
}

abbrev merge_scope : BusinessScope → Assignment → BusinessScope
merge_scope s a = record s {
  capabilities = union Capability-discrete s.capabilities (to_source a).capabilities;
  endpoint_ids = merge_endpoints s.endpoint_ids (to_source a).endpoint_ids;
  sources = s.sources ++ to_source a ∷ [];
}

-- The map of the scopes, in the order of insertion.
unfoldable pub add_grant : Assignment → List BusinessScope → List BusinessScope
unfolding to_source add_all
add_grant a [] = first_scope a ∷ []
add_grant a (s ∷ ss) =
    if str_eq s.business_id a.customer.id then merge_scope s a ∷ ss else s ∷ add_grant a ss

unfoldable pub get_scope : String → List BusinessScope → Option BusinessScope
get_scope id [] = none
get_scope id (s ∷ ss) = if str_eq s.business_id id then some s else get_scope id ss

pub record InactiveGrant : Type 0 where
  pub source : GrantSource
  pub business_id : String
  pub inactive_reason : InactiveReason

pub record Resolved : Type 0 where
  pub scopes : List BusinessScope
  pub inactive : List InactiveGrant

module _ (intl : Intl) (at : ℕ) where
  -- one turn of the loop of `resolve`
  unfoldable pub resolve_one : Assignment → Resolved → Resolved
  unfolding to_source
  resolve_one a r = elim (inactive_reason intl a at) [
    | none ↦
        if is_within_dates a.starts_at a.expires_at at
        then record r { scopes = add_grant a r.scopes }
        else r
    | some why ↦ record r {
      inactive =
          r.inactive
          ++ (record { source = to_source a; business_id = a.customer.id; inactive_reason = why })
            ∷ [];
    }
  ]

  unfoldable pub resolve_from : Resolved → List Assignment → Resolved
  unfolding resolve_one
  resolve_from r [] = r
  resolve_from r (a ∷ as') = resolve_from (resolve_one a r) as'

  unfoldable pub resolve : List Assignment → Resolved
  unfolding resolve_from
  resolve grants = resolve_from (record { scopes = []; inactive = [] }) grants

  unfoldable pub scope_for : String → List Assignment → Option BusinessScope
  unfolding resolve get_scope
  scope_for business grants = get_scope business (resolve grants).scopes

pub record ComputerAccess : Type 0 where
  pub starts_at : Option ℕ
  pub expires_at : Option ℕ
  pub schedule : Json

unfoldable pub computer_access_active : Intl → Option ComputerAccess → ℕ → Bool
unfolding is_within_dates
computer_access_active intl none at = false
computer_access_active intl (some row) at =
    is_within_dates row.starts_at row.expires_at at && stored_schedule_allows intl row.schedule at

-- ===== src/Auth/ApiKeys.antt =====
-- apps/api/src/apikeys/apikeys.service.ts: keys for programs, each of one
-- business. SHA-256 and the random bytes are given, and so is the row of a key's creator.
pub mod Guard
pub mod Lifecycle
pub mod Pinned
mod Tests
use rem0te.Rbac.Actor.{Actor}
use rem0te.Rbac.Capability.{RoleType, is_owner_role}
use rem0te.Rbac.Technician.{String-discrete, Business}
use rem0te.Rbac.Access.{Access, require_scope, resolve_scope, same_business}
use Prim.Native.Char.{code}
use rem0te.Auth.Jwt.{JwtPayload, UserStatus}
use rem0te.Prelude.Json.{Json, Items}
use rem0te.Prelude.{
  take_text, append_text, zero, suc, [], ◌∷◌, ◌>>=◌, ◌>>◌, if◌then◌else◌, is_empty, is_space, true,
  false, trim_start, some, List, Option, includes, all, Bool, ℕ, any, String, str_eq, ◌==◌, trim,
  leb, Result, none, ltb, ◌&&◌, ◌+◌, ok, codes, ◌||◌, not, throw_if, err, is_some, length, ◌*◌,
  is_nil, ◌++◌,
}

abbrev pub api_scopes : List String
api_scopes =
    "companies:read" ∷ "companies:write" ∷ "users:read" ∷ "users:write" ∷ "computers:read"
    ∷ "computers:write" ∷ "sessions:read" ∷ "enrollment:write" ∷ "audit:read" ∷ []

unfoldable pub starts_with : String → String → Bool
starts_with String.[] s = true
starts_with (String.◌∷◌ c p) String.[] = false
starts_with (String.◌∷◌ c p) (String.◌∷◌ d s) = code c == code d && starts_with p s

pub record GeneratedKey : Type 0 where
  pub raw : String
  pub prefix : String
  pub hash : String

-- `rand` is 24 random bytes in hexadecimal.
unfoldable pub generate_key : (String → String) → String → GeneratedKey
unfolding append_text take_text
generate_key sha rand =
    let raw = append_text "rk_" rand in
    record { raw = raw; prefix = take_text 12 raw; hash = sha raw }

pub record ApiKey : Type 0 where
  pub id : String
  pub tenant_id : String
  pub customer_id : Option String
  pub created_by_id : String
  pub name : String
  pub key_hash : String
  pub key_prefix : String
  pub scopes : List String
  pub expires_at : Option ℕ
  pub revoked_at : Option ℕ
  pub last_used_at : Option ℕ

pub data KeyError : Type 0 where
  forbidden business_not_found name_required scope_required key_not_found : KeyError
  malformed invalid missing_scopes : KeyError

abbrev pub from_access {ℓ} : {A : Type ℓ} → Access A → Result KeyError A
from_access (Access.allowed a) = ok a
from_access Access.forbidden = err forbidden
from_access Access.not_found = err business_not_found

pub record CreateKey : Type 0 where
  pub name : String
  pub scopes : List String
  pub expires_in_days : Option ℕ
  pub business_id : Option String

-- the scopes that exist, of those asked for
unfoldable pub valid_scopes : List String → List String
unfolding includes String-discrete
valid_scopes [] = []
valid_scopes (s ∷ ss) =
    let rest = valid_scopes ss in if includes String-discrete s api_scopes then s ∷ rest else rest

abbrev pub key_expiry : ℕ → Option ℕ → Option ℕ
key_expiry now none = none
key_expiry now (some days) = if days == 0 then none else some (now + days * 86400000)

unfoldable pub business_tenant : Option (Business × String) → Result KeyError String
business_tenant none = err business_not_found
business_tenant (some (b, tenant)) = ok tenant

unfoldable pub new_key :
    (String → String) → ℕ → String → String → Actor → String → String → CreateKey → ApiKey
unfolding valid_scopes generate_key trim
new_key sha now id rand actor business tenant dto = record {
  id = id;
  tenant_id = tenant;
  customer_id = some business;
  created_by_id = actor.user_id;
  name = trim dto.name;
  key_hash = (generate_key sha rand).hash;
  key_prefix = (generate_key sha rand).prefix;
  scopes = valid_scopes dto.scopes;
  expires_at = key_expiry now dto.expires_in_days;
  revoked_at = none;
  last_used_at = none;
}

-- `businesses` looks up a business with its tenant, `id` is the new row's; the rows come back with
-- the new one, and the raw key, which is shown once.
unfoldable pub create :
    (String → String)
    → (String → Option (Business × String))
    → ℕ
    → String
    → String
    → Actor
    → CreateKey
    → List ApiKey
    → Result KeyError (String × List ApiKey)
unfolding require_scope business_tenant new_key
create sha businesses now id rand actor dto rows = do
  business ← from_access (require_scope actor dto.business_id)
  tenant ← business_tenant (businesses business)
  throw_if (is_empty dto.name) name_required
  throw_if (is_nil (valid_scopes dto.scopes)) scope_required
  ok ((generate_key sha rand).raw, rows ++ new_key sha now id rand actor business tenant dto ∷ [])

abbrev pub in_key_scope : Option String → ApiKey → Bool
in_key_scope none k = true
in_key_scope (some b) k = same_business (some b) k.customer_id

unfoldable pub find_key : String → Option String → List ApiKey → Result KeyError ApiKey
find_key id scope [] = err key_not_found
find_key id scope (k ∷ ks) =
    if str_eq k.id id && in_key_scope scope k then ok k else find_key id scope ks

unfoldable pub mark_revoked : ℕ → String → List ApiKey → List ApiKey
mark_revoked now id [] = []
mark_revoked now id (k ∷ ks) =
    (if str_eq k.id id then record k { revoked_at = some now } else k) ∷ mark_revoked now id ks

-- The rows after it; a key that is revoked already stays as it is.
unfoldable pub revoke : ℕ → Actor → String → List ApiKey → Result KeyError (List ApiKey)
unfolding resolve_scope find_key mark_revoked
revoke now actor id rows = do
  scope ← from_access (resolve_scope actor none)
  k ← find_key id scope rows
  ok (if is_some k.revoked_at then rows else mark_revoked now id rows)

unfoldable pub find_hash : String → List ApiKey → Option ApiKey
find_hash h [] = none
find_hash h (k ∷ ks) = if str_eq k.key_hash h then some k else find_hash h ks

-- A creator with the roles of the active memberships in the business of the key.
pub record Creator : Type 0 where
  pub status : UserStatus
  pub is_platform_admin : Bool
  pub roles : List RoleType

abbrev pub is_active_status : UserStatus → Bool
is_active_status UserStatus.active = true
is_active_status _ = false

unfoldable pub may_back : Option Creator → Bool
unfolding any
may_back none = false
may_back (some c) =
    is_active_status c.status && (c.is_platform_admin || any (λ r. is_owner_role (some r)) c.roles)

abbrev pub is_open : Option Business → Bool
is_open none = false
is_open (some b) = b.is_active && not b.is_archived

abbrev pub is_past : Option ℕ → ℕ → Bool
is_past none now = false
is_past (some e) now = ltb e now

pub record ResolvedKey : Type 0 where
  pub id : String
  pub tenant_id : String
  pub business_id : String
  pub scopes : List String
  pub created_by_id : String

module _ (sha : String → String) (business : String → Option Business)
    (creator : String → String → Option Creator) (now : ℕ) where
  unfoldable pub check_key : ApiKey → Option ResolvedKey
  unfolding may_back
  check_key k = elim k.customer_id [
    | none ↦ none
    | some b ↦
        if is_some k.revoked_at
          || is_past k.expires_at now
          || not (is_open (business b))
          || not (may_back (creator k.created_by_id b))
        then none
        else some (record {
          id = k.id;
          tenant_id = k.tenant_id;
          business_id = b;
          scopes = k.scopes;
          created_by_id = k.created_by_id;
        })
  ]

  unfoldable pub resolve_bearer : List ApiKey → String → Option ResolvedKey
  unfolding check_key find_hash starts_with
  resolve_bearer rows raw =
      if not (starts_with "rk_" raw)
      then none
      else elim (find_hash (sha raw) rows) [ none ↦ none | some k ↦ check_key k ]

-- the best-effort note of the last use
unfoldable pub touch : ℕ → String → List ApiKey → List ApiKey
touch now id [] = []
touch now id (k ∷ ks) =
    (if str_eq k.id id then record k { last_used_at = some now } else k) ∷ touch now id ks

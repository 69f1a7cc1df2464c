-- ===== src/Auth/ApiKeys/Guard.antt =====
-- The guard of the public API: apps/api/src/apikeys/apikey-auth.guard.ts.
use rem0te.Rbac.Capability.{RoleType}
use rem0te.Rbac.Technician.{String-discrete, Business}
use Prim.Native.Char.{code}
use rem0te.Auth.Jwt.{JwtPayload}
use rem0te.Prelude.Json.{Json, Items}
use rem0te.Prelude.{
  [], ◌>>=◌, ◌>>◌, if◌then◌else◌, is_space, true, false, trim_start, some, List, Option, includes,
  all, Bool, ℕ, String, ◌==◌, leb, Result, none, ◌&&◌, ◌+◌, ok, codes, ◌||◌, not, throw_if, err,
  length,
}
use rem0te.Auth.ApiKeys.{
  ApiKey, KeyError, Creator, ResolvedKey, resolve_bearer, touch, malformed, invalid, missing_scopes,
}

-- What the guard attaches to the request.
pub record ApiUser : Type 0 where
  pub payload : JwtPayload
  pub api_key_id : String
  pub api_scopes : List String

abbrev pub api_user : ResolvedKey → ApiUser
api_user r = record {
  payload = record {
    sub = r.created_by_id;
    email = "api-key";
    tenant_id = some r.tenant_id;
    business_id = some r.business_id;
    role_type = some RoleType.business_owner;
    is_platform_admin = false;
    mfa_verified = true;
    capabilities = Json.array Items.nil;
    customer_id = some r.business_id;
    partial = false;
    iat = none;
    exp = none;
    own_business_id = none;
    technician = none;
    assigned_business_ids = [];
    platform_permissions = [];
  };
  api_key_id = r.id;
  api_scopes = r.scopes;
}

abbrev lower : ℕ → ℕ
lower c = if leb 65 c && leb c 90 then c + 32 else c

abbrev is_hex : ℕ → Bool
is_hex c = leb 48 (lower c) && leb (lower c) 57 || leb 97 (lower c) && leb (lower c) 102

-- a prefix in any case of letters, and what follows it
unfoldable pub strip_prefix : String → String → Option String
strip_prefix String.[] s = some s
strip_prefix (String.◌∷◌ c p) String.[] = none
strip_prefix (String.◌∷◌ c p) (String.◌∷◌ d s) =
    let rest = strip_prefix p s in if lower (code c) == lower (code d) then rest else none

unfoldable pub is_key_text : String → Bool
unfolding strip_prefix all
is_key_text s = elim (strip_prefix "rk_" s) [
  | none ↦ false
  | some t ↦ all is_hex (codes t) && leb 40 (length (codes t)) && leb (length (codes t)) 64
]

abbrev starts_with_space : String → Bool
starts_with_space String.[] = false
starts_with_space (String.◌∷◌ c s) = is_space (code c)

-- `/^Bearer\s+(rk_[a-f0-9]{40,64})$/i`
unfoldable pub bearer_key : String → Option String
unfolding strip_prefix trim_start is_key_text
bearer_key auth = elim (strip_prefix "Bearer" auth) [
  | none ↦ none
  | some t ↦ if starts_with_space t && is_key_text (trim_start t) then some (trim_start t) else none
]

abbrev pub or_error {ℓ} : {A : Type ℓ} → KeyError → Option A → Result KeyError A
or_error e none = err e
or_error e (some a) = ok a

-- `canActivate`: the request's user and the rows with the last use noted. `required` are the
-- scopes that the route asks for.
unfoldable pub can_activate :
    (String → String)
    → (String → Option Business)
    → (String → String → Option Creator)
    → ℕ
    → List ApiKey
    → String
    → List String
    → Result KeyError (ApiUser × List ApiKey)
unfolding bearer_key resolve_bearer touch all includes String-discrete
can_activate sha business creator now rows auth required = do
  raw ← or_error malformed (bearer_key auth)
  r ← or_error invalid (resolve_bearer sha business creator now rows raw)
  throw_if (not (all (λ s. includes String-discrete s r.scopes) required)) missing_scopes
  ok (api_user r, touch now r.id rows)

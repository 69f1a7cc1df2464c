-- ===== src/Auth/ApiKeys/Tests.antt =====
-- A key that is made, used and revoked.
use rem0te.Rbac.Technician.{Business, String-discrete}
use rem0te.Rbac.Actor.{Actor}
use rem0te.Rbac.Access.{resolve_scope, require_scope, requested_id}
use rem0te.Rbac.Capability.{RoleType}
use rem0te.Auth.Jwt.{UserStatus, request_actor}
use rem0te.Auth.ApiKeys.{
  ApiKey, Creator, CreateKey, create, revoke, resolve_bearer, find_key, business_tenant,
  mark_revoked, new_key, generate_key, find_hash, check_key, starts_with, may_back, valid_scopes,
  touch, is_past, key_expiry,
}
use rem0te.Auth.ApiKeys.Guard.{
  ApiUser, can_activate, api_user, bearer_key, strip_prefix, is_key_text,
}
use rem0te.Auth.ApiKeys.Pinned.{can_activate-IsBacked, IsBacked}
use rem0te.Auth.ApiKeys.Lifecycle.{revoke-resolve_bearer, create-resolve_bearer, business_of}
use rem0te.Prelude.{
  refl, true, false, some, none, [], ◌∷◌, ◌≡◌, if◌then◌else◌, String, any, trim_start, all,
  append_text, take_text, includes, trim, Bool-cases,
}

abbrev acme : Business
acme = record { id = "acme"; is_active = true; is_archived = false }

abbrev key : ApiKey
key = record {
  id = "k1";
  tenant_id = "t1";
  customer_id = some "acme";
  created_by_id = "otto";
  name = "sync";
  key_hash = "rk_0123456789012345678901234567890123456789";
  key_prefix = "rk_012345678";
  scopes = "audit:read" ∷ [];
  expires_at = none;
  revoked_at = none;
  last_used_at = none;
}

abbrev otto : Creator
otto = record {
  status = UserStatus.active;
  is_platform_admin = false;
  roles = RoleType.business_owner ∷ [];
}

-- a digest for the example
abbrev sha : String → String
sha s = s

abbrev used : ApiUser
used = api_user (record {
  id = "k1";
  tenant_id = "t1";
  business_id = "acme";
  scopes = "audit:read" ∷ [];
  created_by_id = "otto";
})

can_activate-IsBacked_example :
    (raw : String) × (k : ApiKey) × (b : String) × (bearer_key
        "Bearer rk_0123456789012345678901234567890123456789"
      ≡ some raw)
    × (find_hash (sha raw) (key ∷ []) ≡ some k)
    × (some "acme" ≡ some b)
    × IsBacked (λ b. some acme) (λ u b. some otto) 5000 k b
    × (all (λ s. includes String-discrete s k.scopes) [] ≡ true)
unfolding can_activate bearer_key strip_prefix trim_start is_key_text all resolve_bearer check_key
    find_hash starts_with may_back any touch request_actor resolve_scope requested_id
can_activate-IsBacked_example =
    can_activate-IsBacked sha (λ b. some acme) (λ u b. some otto) 5000 (key ∷ [])
      (record key { last_used_at = some 5000 } ∷ [])
      "Bearer rk_0123456789012345678901234567890123456789" [] used none (some "acme") refl refl

abbrev owner : Actor
owner = record {
  user_id = "otto";
  business_id = some "acme";
  is_platform_admin = false;
  role_type = some RoleType.business_owner;
  capabilities = [];
  technician = none;
}

revoke-resolve_bearer_example :
    resolve_bearer sha
      (λ b. some acme)
      (λ u b. some otto)
      7000
      (record key { revoked_at = some 6000 } ∷ [])
      "rk_0123456789012345678901234567890123456789"
    ≡ none
unfolding revoke resolve_scope requested_id find_key mark_revoked find_hash
revoke-resolve_bearer_example =
    revoke-resolve_bearer sha (λ b. some acme) (λ u b. some otto) 6000 7000 owner key (key ∷ [])
      (record key { revoked_at = some 6000 } ∷ []) "rk_0123456789012345678901234567890123456789"
      ((λ _. refl), tt) refl refl

abbrev wanted : CreateKey
wanted = record {
  name = "sync";
  scopes = "audit:read" ∷ "all" ∷ [];
  expires_in_days = some 1;
  business_id = none;
}

abbrev made : ApiKey
made = record key { key_hash = "rk_00"; key_prefix = "rk_00"; expires_at = some 86401000 }

create-resolve_bearer_example :
    business_of
      (resolve_bearer sha (λ b. some acme) (λ u b. some otto) 90000000 (made ∷ []) "rk_00")
    ≡ (if is_past (key_expiry 1000 (some 1)) 90000000 then none else some "acme")
unfolding create require_scope resolve_scope requested_id business_tenant new_key generate_key
    append_text take_text valid_scopes includes String-discrete Bool-cases trim may_back any
    find_hash
create-resolve_bearer_example =
    create-resolve_bearer sha (λ b. some (acme, "t1")) (λ b. some acme) (λ u b. some otto) 1000
      90000000 "k1" "00" "rk_00" owner wanted [] (made ∷ []) "acme" refl refl refl refl refl

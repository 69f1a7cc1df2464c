-- ===== src/Auth/ApiKeys/Pinned.antt =====
-- What a request with a key rests on.
use rem0te.Rbac.Technician.{Business, String-discrete}
use rem0te.Auth.ApiKeys.{
  ApiKey, check_key, resolve_bearer, Creator, ResolvedKey, find_hash, is_past, is_open, may_back,
  KeyError, malformed, missing_scopes,
}
use rem0te.Auth.ApiKeys.Guard.{or_error}
use rem0te.Auth.ApiKeys.Guard.{can_activate, ApiUser, bearer_key, api_user}
use rem0te.Rbac.Capability.{RoleType, is_owner_role}
use rem0te.Auth.ApiKeys.{is_active_status}
use rem0te.Auth.Jwt.{UserStatus, request_actor}
use rem0te.Rbac.Access.{resolve_scope, Access}
use rem0te.Rbac.Access.Isolation.{resolve_scope-pinned}
use rem0te.Prelude.{
  [], ◌∷◌, ◌⊎◌, ◌||◌, Any, any, Bool-cases, refl, inl, inr, Option-cases, ok-inj, >>=-eq-ok,
  throw_if-eq-ok, ap, sym, ◌∙◌, arith, String, Option, ℕ, ◌≡◌, List, some, none, false, true,
  is_some, ok, all, includes, not, Bool,
}

-- A key of a business that counts, with a creator who may still back it.
pub record IsBacked (business : String → Option Business)
    (creator : String → String → Option Creator) (now : ℕ) (k : ApiKey) (b : String) : Type 0 where
  pub of_business : k.customer_id ≡ some b
  pub not_revoked : k.revoked_at ≡ none
  pub not_expired : is_past k.expires_at now ≡ false
  pub open_business : Business
  pub business_row : business b ≡ some open_business
  pub is_open_row : (open_business.is_active ≡ true) × (open_business.is_archived ≡ false)
  pub backer : Creator
  pub backer_row : creator k.created_by_id b ≡ some backer
  pub backer_active : backer.status ≡ UserStatus.active
  pub backer_rights :
      (backer.is_platform_admin ≡ true) ⊎ Any (λ r. is_owner_role (some r) ≡ true) backer.roles

is_some-none : {A : Type 0} (o : Option A) → is_some o ≡ false → o ≡ none
is_some-none none h = refl
is_some-none (some a) h = cc

open_row :
    (o : Option Business)
    → is_open o ≡ true
    → (b : Business) × (o ≡ some b) × ((b.is_active ≡ true) × (b.is_archived ≡ false))
open_row none h = cc
open_row (some b) h = (b, refl, ground arith)

owner_listed :
    (rs : List RoleType)
    → any (λ r. is_owner_role (some r)) rs ≡ true
    → Any (λ r. is_owner_role (some r) ≡ true) rs
unfolding any
owner_listed [] h = cc
owner_listed (r ∷ rs) h = elim (Bool-cases (is_owner_role (some r))) [
  | inl e ↦ inl e
  | inr e ↦ inr (owner_listed rs (ground (arith, h, e)))
]

active_status : (s : UserStatus) → is_active_status s ≡ true → s ≡ UserStatus.active
active_status UserStatus.active h = refl
active_status UserStatus.invited h = cc
active_status UserStatus.suspended h = cc
active_status UserStatus.deleted h = cc

backer_of :
    (o : Option Creator)
    → may_back o ≡ true
    → (c : Creator) × (o ≡ some c)
      × (c.status ≡ UserStatus.active)
      × ((c.is_platform_admin ≡ true) ⊎ Any (λ r. is_owner_role (some r) ≡ true) c.roles)
unfolding may_back
backer_of none h = cc
backer_of (some c) h =
    let facts : (is_active_status c.status ≡ true)
        × ((c.is_platform_admin || any (λ r. is_owner_role (some r)) c.roles) ≡ true) =
      ground (arith, h) in
    (
      c,
      refl,
      active_status c.status facts.0,
      elim (Bool-cases c.is_platform_admin) [
        | inl e ↦ inl e
        | inr e ↦ inr (owner_listed c.roles (ground (arith, facts.1, e)))
      ],
    )

module _ (sha : String → String) (business : String → Option Business)
    (creator : String → String → Option Creator) (now : ℕ) where
  pub check_key-IsBacked :
      (k : ApiKey) (r : ResolvedKey)
      → check_key sha business creator now k ≡ some r
      → IsBacked business creator now k r.business_id × (r.scopes ≡ k.scopes)
  unfolding check_key
  check_key-IsBacked k r h = elim (Option-cases k.customer_id) [
    | inl e ↦ absurd (ground (arith, e))
    | inr (b, e) ↦
        let facts : ((is_some k.revoked_at ≡ false)
              × (is_past k.expires_at now ≡ false)
              × (is_open (business b) ≡ true)
              × (may_back (creator k.created_by_id b) ≡ true))
            × (r.business_id ≡ b)
            × (r.scopes ≡ k.scopes) =
          ground (arith, e) in
        let opened =
          open_row (business r.business_id) (ap (λ x. is_open (business x)) facts.1 ∙ facts.0.2) in
        let backed =
          backer_of (creator k.created_by_id r.business_id)
            (ap (λ x. may_back (creator k.created_by_id x)) facts.1 ∙ facts.0.3) in
        (
          record {
            of_business = e ∙ ap some (sym facts.1);
            not_revoked = is_some-none k.revoked_at facts.0.0;
            not_expired = facts.0.1;
            open_business = opened.0;
            business_row = opened.1;
            is_open_row = opened.2;
            backer = backed.0;
            backer_row = backed.1;
            backer_active = backed.2;
            backer_rights = backed.3;
          },
          facts.2,
        )
  ]

  resolve_bearer-found :
      (rows : List ApiKey) (raw : String) (r : ResolvedKey)
      → resolve_bearer sha business creator now rows raw ≡ some r
      → (k : ApiKey) × (find_hash (sha raw) rows ≡ some k)
        × (check_key sha business creator now k ≡ some r)
  unfolding resolve_bearer
  resolve_bearer-found rows raw r h = elim (Option-cases (find_hash (sha raw) rows)) [
    | inl e ↦ absurd (ground (arith, e))
    | inr (k, e) ↦ (k, e, ground (arith, e))
  ]

or_error-ok : {A : Type 0} (e : KeyError) (o : Option A) (a : A) → or_error e o ≡ ok a → o ≡ some a
or_error-ok e none a h = cc
or_error-ok e (some b) a h = cc

not-false : (b : Bool) → not b ≡ false → b ≡ true
not-false true h = refl
not-false false h = cc

api_user-pinned :
    (r : ResolvedKey) (requested scope : Option String)
    → resolve_scope (request_actor (api_user r).payload) requested ≡ Access.allowed scope
    → scope ≡ some r.business_id
unfolding request_actor
api_user-pinned r requested scope h =
    ((resolve_scope-pinned (request_actor (api_user r).payload) requested scope refl).0 h).0.0

-- A request with a key acts in one business only, whichever it names: that of the key, which is
-- not revoked and not expired, whose business is open and whose creator is still active and is still
-- an owner there or a Platform Admin, and which holds the scopes of the route.
pub can_activate-IsBacked :
    (sha : String → String) (business : String → Option Business)
    (creator : String → String → Option Creator) (now : ℕ) (rows rows' : List ApiKey)
    (auth : String) (required : List String) (u : ApiUser) (requested scope : Option String)
    → can_activate sha business creator now rows auth required ≡ ok (u, rows')
    → resolve_scope (request_actor u.payload) requested ≡ Access.allowed scope
    → (raw : String) × (k : ApiKey) × (b : String) × (bearer_key auth ≡ some raw)
      × (find_hash (sha raw) rows ≡ some k)
      × (scope ≡ some b)
      × IsBacked business creator now k b
      × (all (λ s. includes String-discrete s k.scopes) required ≡ true)
unfolding can_activate request_actor
can_activate-IsBacked sha business creator now rows rows' auth required u requested scope h k =
    let (raw, read, h1) = >>=-eq-ok (or_error malformed (bearer_key auth)) _ h in
    let (r, resolved, h2) =
      >>=-eq-ok (or_error KeyError.invalid (resolve_bearer sha business creator now rows raw)) _
        h1 in
    let (scopes, h3) =
      throw_if-eq-ok (not (all (λ s. includes String-discrete s r.scopes) required)) missing_scopes
        _ h2 in
    let (key, found, checked) =
      resolve_bearer-found sha business creator now rows raw r
        (or_error-ok KeyError.invalid _ r resolved) in
    let (backed, held) = check_key-IsBacked sha business creator now key r checked in
    let made : api_user r ≡ u = ap (λ z. z.0) (ok-inj h3) in
    (
      raw,
      key,
      r.business_id,
      or_error-ok malformed _ raw read,
      found,
      api_user-pinned r requested scope
          (ap (λ v. resolve_scope (request_actor v.payload) requested) made ∙ k),
      backed,
      ap (λ x. all (λ s. includes String-discrete s x) required) (sym held) ∙ not-false _ scopes,
    )

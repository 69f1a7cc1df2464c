-- ===== src/Auth/ApiKeys/Lifecycle.antt =====
-- A key from its creation to its revocation.
use rem0te.Rbac.Actor.{Actor}
use rem0te.Rbac.Technician.{Business}
use rem0te.Auth.ApiKeys.{
  ApiKey, check_key, resolve_bearer, create, revoke, find_hash, mark_revoked, find_key, ResolvedKey,
  Creator, CreateKey, from_access, in_key_scope, is_open, may_back, is_past, key_expiry,
  starts_with, business_tenant, name_required, valid_scopes, scope_required, new_key, generate_key,
}
use rem0te.Rbac.Access.{resolve_scope, require_scope, Access}
use rem0te.Prelude.{
  append_text, is_empty, ◌++◌, [], ◌∷◌, refl, if◌then◌else◌, inl, inr, Option-cases, Bool-cases,
  ok-inj, >>=-eq-ok, throw_if-eq-ok, ap, sym, ◌∙◌, arith, eq_iff, List, ℕ, String, ◌≡◌, Option,
  str_eq, none, some, All, ok, ◌&&◌, true, is_some, is_nil,
}

find_hash-new :
    (h : String) (rows : List ApiKey) (k : ApiKey)
    → find_hash h rows ≡ none
    → k.key_hash ≡ h
    → find_hash h (rows ++ k ∷ []) ≡ some k
unfolding find_hash
find_hash-new h [] k e f = ground (arith, eq_iff k.key_hash h)
find_hash-new h (x ∷ xs) k e f = ground (arith, find_hash-new h xs k)

abbrev mark : ℕ → String → ApiKey → ApiKey
mark now id k = if str_eq k.id id then record k { revoked_at = some now } else k

abbrev mark_found : ℕ → String → Option ApiKey → Option ApiKey
mark_found now id none = none
mark_found now id (some k) = some (mark now id k)

hash-mark : (now : ℕ) (id : String) (k : ApiKey) → (mark now id k).key_hash ≡ k.key_hash
hash-mark now id k = ground arith

find_hash-mark_revoked :
    (h : String) (now : ℕ) (id : String) (rows : List ApiKey)
    → find_hash h (mark_revoked now id rows) ≡ mark_found now id (find_hash h rows)
unfolding find_hash mark_revoked
find_hash-mark_revoked h now id [] = refl
find_hash-mark_revoked h now id (k ∷ ks) =
    rw (hash-mark now id k) (elim (Bool-cases (str_eq k.key_hash h)) [
      | inl e ↦ rw e refl
      | inr e ↦ rw e (find_hash-mark_revoked h now id ks)
    ])

abbrev pub business_of : Option ResolvedKey → Option String
business_of none = none
business_of (some r) = some r.business_id

-- The id is a primary key.
abbrev pub IsOnly : ApiKey → List ApiKey → Type 0
IsOnly k rows = All (λ x. x.id ≡ k.id → x ≡ k) rows

find_key-All :
    (P : ApiKey → Type 0) (id : String) (scope : Option String) (rows : List ApiKey) (k : ApiKey)
    → All P rows
    → find_key id scope rows ≡ ok k
    → P k × (k.id ≡ id)
unfolding find_key
find_key-All P id scope [] k h e = cc
find_key-All P id scope (x ∷ xs) k h e =
    elim (Bool-cases (str_eq x.id id && in_key_scope scope x)) [
      | inl t ↦
          let same : x ≡ k = ground (arith, t) in
          rw (sym same) (h.0, ground (arith, eq_iff x.id id))
      | inr f ↦ find_key-All P id scope xs k h.1 (ground (arith, f))
    ]

module _ (sha : String → String) (business : String → Option Business)
    (creator : String → String → Option Creator) (later : ℕ) where
  resolve_bearer-revoked :
      (rows : List ApiKey) (raw : String) (k : ApiKey)
      → find_hash (sha raw) rows ≡ some k
      → is_some k.revoked_at ≡ true
      → resolve_bearer sha business creator later rows raw ≡ none
  unfolding resolve_bearer check_key
  resolve_bearer-revoked rows raw k found h = elim (Option-cases k.customer_id) [
    | inl e ↦ rw found (rw e (ground arith))
    | inr (b, e) ↦ rw found (rw e (ground arith))
  ]

  resolve_bearer-opens :
      (rows : List ApiKey) (raw : String) (k : ApiKey) (b : String)
      → starts_with "rk_" raw ≡ true
      → find_hash (sha raw) rows ≡ some k
      → k.customer_id ≡ some b
      → k.revoked_at ≡ none
      → is_open (business b) ≡ true
      → may_back (creator k.created_by_id b) ≡ true
      → business_of (resolve_bearer sha business creator later rows raw)
        ≡ (if is_past k.expires_at later then none else some b)
  unfolding resolve_bearer check_key
  resolve_bearer-opens rows raw k b prefixed found of_b alive opened backed =
      rw (found, prefixed) (rw of_b (rw (opened, backed) (ground (arith, alive))))

-- Revocation takes effect at once: a key with an id of its own that the caller may revoke is refused
-- as a bearer from then on, also when it was revoked before.
pub revoke-resolve_bearer :
    (sha : String → String) (business : String → Option Business)
    (creator : String → String → Option Creator) (now later : ℕ) (actor : Actor) (k : ApiKey)
    (rows rows' : List ApiKey) (raw : String)
    → IsOnly k rows
    → find_hash (sha raw) rows ≡ some k
    → revoke now actor k.id rows ≡ ok rows'
    → resolve_bearer sha business creator later rows' raw ≡ none
unfolding revoke resolve_bearer
revoke-resolve_bearer sha business creator now later actor k rows rows' raw only found h =
    let (scope, scoped, h1) = >>=-eq-ok (from_access (resolve_scope actor none)) _ h in
    let (x, known, h2) = >>=-eq-ok (find_key k.id scope rows) _ h1 in
    let (same_key, same_id) =
      find_key-All (λ x. x.id ≡ k.id → x ≡ k) k.id scope rows x only known in
    let same : x ≡ k = same_key same_id in
    let after = ok-inj h2 in
    elim (Bool-cases (is_some x.revoked_at)) [
      | inl e ↦
          resolve_bearer-revoked sha business creator later rows' raw k
            (ap (find_hash (sha raw)) (sym (ground (arith, after, e))) ∙ found)
            (ap (λ z. is_some z.revoked_at) (sym same) ∙ e)
      | inr e ↦
          resolve_bearer-revoked sha business creator later rows' raw (mark now k.id k)
            (ap (find_hash (sha raw)) (sym (ground (arith, after, e)))
              ∙ find_hash-mark_revoked (sha raw) now k.id rows
              ∙ ap (mark_found now k.id) found)
            (ground (arith, eq_iff k.id k.id))
    ]

scope_of : (x : Access String) (a b : String) → from_access x ≡ ok a → x ≡ Access.allowed b → a ≡ b
scope_of (Access.allowed c) a b h k = cc
scope_of Access.forbidden a b h k = cc
scope_of Access.not_found a b h k = cc

-- A key that was made opens, until it expires, the business that its maker may act in, as long as
-- that business is open and the maker still backs it, if no other key has its hash.
pub create-resolve_bearer :
    (sha : String → String) (businesses : String → Option (Business × String))
    (business : String → Option Business) (creator : String → String → Option Creator)
    (now later : ℕ) (id rand raw : String) (actor : Actor) (dto : CreateKey)
    (rows rows' : List ApiKey) (b : String)
    → create sha businesses now id rand actor dto rows ≡ ok (raw, rows')
    → find_hash (sha raw) rows ≡ none
    → require_scope actor dto.business_id ≡ Access.allowed b
    → is_open (business b) ≡ true
    → may_back (creator actor.user_id b) ≡ true
    → business_of (resolve_bearer sha business creator later rows' raw)
      ≡ (if is_past (key_expiry now dto.expires_in_days) later then none else some b)
unfolding create new_key generate_key append_text starts_with
create-resolve_bearer sha businesses business creator now later id rand raw actor dto rows rows' b h
      fresh scope opened backed =
    let (b', scoped, h1) = >>=-eq-ok (from_access (require_scope actor dto.business_id)) _ h in
    let (tenant, _, h2) = >>=-eq-ok (business_tenant (businesses b')) _ h1 in
    let (_, h3) = throw_if-eq-ok (is_empty dto.name) name_required _ h2 in
    let (_, h4) = throw_if-eq-ok (is_nil (valid_scopes dto.scopes)) scope_required _ h3 in
    let made = ok-inj h4 in
    let k = new_key sha now id rand actor b' tenant dto in
    let same_raw : (generate_key sha rand).raw ≡ raw = ap (λ z. z.0) made in
    let same_rows : rows ++ k ∷ [] ≡ rows' = ap (λ z. z.1) made in
    let same_b : b' ≡ b = scope_of (require_scope actor dto.business_id) b' b scoped scope in
    resolve_bearer-opens sha business creator later rows' raw k b
      (ap (starts_with "rk_") (sym same_raw))
      (ap (find_hash (sha raw)) (sym same_rows)
        ∙ find_hash-new (sha raw) rows k fresh (ap sha same_raw))
      (ap some same_b) refl opened backed

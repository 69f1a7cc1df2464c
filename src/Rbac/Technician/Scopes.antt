-- ===== src/Rbac/Technician/Scopes.antt =====
-- What a technician's grants add up to, per business.
use rem0te.Schedule.{Intl, is_within_dates}
use rem0te.Rbac.Technician.Sets.{includes-union}
use rem0te.Rbac.Technician.{
  Assignment, String-discrete, merge_endpoints, BusinessScope, add_grant, get_scope, to_source,
  resolve_from, inactive_reason, scope_for, resolve_one, resolve, Resolved,
}
use rem0te.Rbac.Capability.{Capability, Capability-discrete}
use rem0te.Prelude.{
  ℕ, ◌≡◌, refl, ◌∙◌, Bool, true, false, not, ◌&&◌, ◌||◌, Option, none, some, List, [], ◌∷◌, String,
  str_eq, eq_iff, arith, if◌then◌else◌, any, includes, Bool-cases, is_some, inl, inr,
}

-- A scope lets the technician reach a computer: every one, or the listed ones.
abbrev pub reaches : String → Option (List String) → Bool
reaches e none = true
reaches e (some xs) = includes String-discrete e xs

abbrev pub holds : Capability → Option BusinessScope → Bool
holds c none = false
holds c (some s) = includes Capability-discrete c s.capabilities

abbrev pub covers : String → Option BusinessScope → Bool
covers e none = false
covers e (some s) = reaches e s.endpoint_ids

reaches-merge :
    (e : String) (x y : Option (List String))
    → reaches e (merge_endpoints x y) ≡ (reaches e x || reaches e y)
reaches-merge e none y = refl
reaches-merge e (some xs) none = ground arith
reaches-merge e (some xs) (some ys) = includes-union String-discrete e xs ys

module _ (b : String) (a : Assignment) where
  abbrev mine : Bool
  mine = str_eq a.customer.id b

  holds-add_grant :
      (c : Capability) (ss : List BusinessScope)
      → holds c (get_scope b (add_grant a ss)) ≡ (
          holds c (get_scope b ss)
          || mine && includes Capability-discrete c (to_source a).capabilities)
  unfolding add_grant get_scope
  holds-add_grant c [] = ground arith
  holds-add_grant c (s ∷ ss) = ground (
    arith,
    holds-add_grant c ss,
    eq_iff s.business_id b,
    eq_iff s.business_id a.customer.id,
    eq_iff a.customer.id b,
    includes-union Capability-discrete c s.capabilities (to_source a).capabilities,
  )

  covers-add_grant :
      (e : String) (ss : List BusinessScope)
      → covers e (get_scope b (add_grant a ss))
        ≡ (covers e (get_scope b ss) || mine && reaches e (to_source a).endpoint_ids)
  unfolding add_grant get_scope
  covers-add_grant e [] = ground arith
  covers-add_grant e (s ∷ ss) = ground (
    arith,
    covers-add_grant e ss,
    eq_iff s.business_id b,
    eq_iff s.business_id a.customer.id,
    eq_iff a.customer.id b,
    reaches-merge e s.endpoint_ids (to_source a).endpoint_ids,
  )

pub counts : Intl → ℕ → Assignment → Bool
counts intl at a = not (is_some (inactive_reason intl a at))

-- A grant that has no reason to be inactive is inside its dates.
dates_of_active :
    (intl : Intl) (at : ℕ) (a : Assignment)
    → inactive_reason intl a at ≡ none
    → is_within_dates a.starts_at a.expires_at at ≡ true
unfolding inactive_reason is_within_dates
dates_of_active intl at a h = ground arith

scopes-resolve_one :
    (intl : Intl) (at : ℕ) (a : Assignment) (r : Resolved)
    → (resolve_one intl at a r).scopes
      ≡ (if counts intl at a then add_grant a r.scopes else r.scopes)
unfolding resolve_one counts
scopes-resolve_one intl at a r = ground (arith, dates_of_active intl at a)

-- A grant that counts, for the business, with the capability.
pub gives : Intl → ℕ → String → Capability → Assignment → Bool
gives intl at b c a =
    counts intl at a
    && (str_eq a.customer.id b && includes Capability-discrete c (to_source a).capabilities)

-- A grant that counts, for the business, with the computer or with all of them.
pub opens : Intl → ℕ → String → String → Assignment → Bool
opens intl at b e a =
    counts intl at a && (str_eq a.customer.id b && reaches e (to_source a).endpoint_ids)

holds-resolve_from :
    (intl : Intl) (at : ℕ) (b : String) (c : Capability) (r : Resolved) (as' : List Assignment)
    → holds c (get_scope b (resolve_from intl at r as').scopes)
      ≡ (holds c (get_scope b r.scopes) || any (gives intl at b c) as')
unfolding resolve_from any gives
holds-resolve_from intl at b c r [] = ground arith
holds-resolve_from intl at b c r (a ∷ as') =
    holds-resolve_from intl at b c (resolve_one intl at a r) as'
    ∙ rw (scopes-resolve_one intl at a r) (elim (Bool-cases (counts intl at a)) [
      | inl h ↦ rw h (ground (arith, holds-add_grant b a c r.scopes))
      | inr h ↦ rw h
    ])

covers-resolve_from :
    (intl : Intl) (at : ℕ) (b e : String) (r : Resolved) (as' : List Assignment)
    → covers e (get_scope b (resolve_from intl at r as').scopes)
      ≡ (covers e (get_scope b r.scopes) || any (opens intl at b e) as')
unfolding resolve_from any opens
covers-resolve_from intl at b e r [] = ground arith
covers-resolve_from intl at b e r (a ∷ as') =
    covers-resolve_from intl at b e (resolve_one intl at a r) as'
    ∙ rw (scopes-resolve_one intl at a r) (elim (Bool-cases (counts intl at a)) [
      | inl h ↦ rw h (ground (arith, covers-add_grant b a e r.scopes))
      | inr h ↦ rw h
    ])

-- The scope of a business holds a capability exactly if some grant for that business that counts
-- now has it, and reaches a computer exactly if one of those lists it or is for all computers:
-- a grant that does not count, and one for another business, add nothing.
pub scope_for-union :
    (intl : Intl) (at : ℕ) (b e : String) (c : Capability) (grants : List Assignment)
    → (holds c (scope_for intl at b grants) ≡ any (gives intl at b c) grants)
      × (covers e (scope_for intl at b grants) ≡ any (opens intl at b e) grants)
unfolding scope_for resolve get_scope
scope_for-union intl at b e c grants = (
  holds-resolve_from intl at b c (record { scopes = []; inactive = [] }) grants,
  covers-resolve_from intl at b e (record { scopes = []; inactive = [] }) grants,
)

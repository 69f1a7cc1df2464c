-- ===== src/Session/Service/Rights.antt =====
-- What finding a session for a change rests on.
use rem0te.Rbac.Actor.{Actor}
use rem0te.Session.State.{SessionStatus-discrete}
use rem0te.Session.Machine.{terminal}
use rem0te.Session.Store.{SessionRow, find_row}
use rem0te.Session.Service.{
  open_for_mutation, load_for_mutation, session_scope, find_visible, allowed_or, of_technician,
  visible_or, in_business_scope, already_closed, may_not_change,
}
use rem0te.Rbac.Access.{Access, resolve_scope, is_business_owner}
use rem0te.Rbac.Access.Isolation.{resolve_scope-pinned}
use rem0te.Rbac.Capability.{is_owner_role}
use rem0te.Prelude.{
  refl, ap, sym, ◌∙◌, ◌≡◌, ◌≢◌, ◌⊎◌, inl, inr, true, false, Bool, ◌&&◌, not, [], ◌∷◌, Bool-cases,
  Option-cases, >>=-eq-ok, throw_if-eq-ok, ok-inj, arith, String, Option, List, none, ok, some, Any,
  str_eq, eq_iff, includes,
}

-- An actor who may change an open session with this id.
pub record MayChange (actor : Actor) (id : String) (rows : List SessionRow) : Type 0 where
  pub row : SessionRow
  pub listed : Any (λ x. x ≡ row) rows
  pub same_id : row.id ≡ id
  pub own_business :
      (actor.is_platform_admin ≡ true)
      ⊎ ((row.customer_id ≡ actor.business_id) × (actor.business_id ≢ none))
  pub rights :
      (row.technician_id ≡ some actor.user_id)
      ⊎ ((actor.is_platform_admin ≡ true) ⊎ (is_owner_role actor.role_type ≡ true))
  pub still_open : includes SessionStatus-discrete row.session.status terminal ≡ false

find_visible-listed :
    (p : SessionRow → Bool) (id : String) (rows : List SessionRow) (r : SessionRow)
    → find_visible p id rows ≡ some r
    → Any (λ x. x ≡ r) rows × (r.id ≡ id) × (p r ≡ true)
unfolding find_visible
find_visible-listed p id [] r h = cc
find_visible-listed p id (x ∷ xs) r h = elim (Bool-cases (str_eq x.id id && p x)) [
  | inl e ↦
      let same : x ≡ r = ground (arith, h, e) in
      rw (sym same) (inl refl, ground (arith, e, eq_iff x.id id), ground (arith, e))
  | inr e ↦ let (l, i, k) = find_visible-listed p id xs r (ground (arith, h, e)) in (inr l, i, k)
]

find_row-visible :
    (p : SessionRow → Bool) (id : String) (rows : List SessionRow) (r : SessionRow)
    → find_visible p id rows ≡ some r
    → (x : SessionRow) × (find_row id rows ≡ some x)
unfolding find_visible find_row
find_row-visible p id [] r h = cc
find_row-visible p id (x ∷ xs) r h = elim (Bool-cases (str_eq x.id id)) [
  | inl e ↦ (x, ground (arith, e))
  | inr e ↦
      let (y, k) = find_row-visible p id xs r (ground (arith, h, e)) in (y, ground (arith, e, k))
]

allowed-ok : {A : Type 0} (x : Access A) (a : A) → allowed_or x ≡ ok a → x ≡ Access.allowed a
allowed-ok (Access.allowed b) a h = cc
allowed-ok Access.forbidden a h = cc
allowed-ok Access.not_found a h = cc

visible-ok : (o : Option SessionRow) (r : SessionRow) → visible_or o ≡ ok r → o ≡ some r
visible-ok none r h = cc
visible-ok (some x) r h = cc

in_business-eq :
    (own : Option String) (r : SessionRow)
    → own ≢ none
    → in_business_scope own r ≡ true
    → r.customer_id ≡ own
in_business-eq none r n h = absurd (n refl)
in_business-eq (some b) r n h = elim (Option-cases r.customer_id) [
  | inl e ↦ absurd (ground (arith, h, e))
  | inr (c, e) ↦ e ∙ ap some ((eq_iff c b).0 (ground (arith, h, e)))
]

scope_business :
    (actor : Actor) (scope : Option String) (r : SessionRow)
    → resolve_scope actor none ≡ Access.allowed scope
    → in_business_scope scope r ≡ true
    → (actor.is_platform_admin ≡ true)
      ⊎ ((r.customer_id ≡ actor.business_id) × (actor.business_id ≢ none))
scope_business actor scope r h k = elim (Bool-cases actor.is_platform_admin) [
  | inl e ↦ inl e
  | inr e ↦
      let pinned = ((resolve_scope-pinned actor none scope e).0 h).0 in
      inr (in_business-eq actor.business_id r pinned.1 (rw (sym pinned.0) k), pinned.1)
]

technician_eq :
    (r : SessionRow) (user : String) → of_technician r user ≡ true → r.technician_id ≡ some user
technician_eq r user h = elim (Option-cases r.technician_id) [
  | inl e ↦ absurd (ground (arith, h, e))
  | inr (t, e) ↦ e ∙ ap some ((eq_iff t user).0 (ground (arith, h, e)))
]

write_rights :
    (actor : Actor) (r : SessionRow)
    → (not (of_technician r actor.user_id) && not (is_business_owner actor)) ≡ false
    → (r.technician_id ≡ some actor.user_id)
      ⊎ ((actor.is_platform_admin ≡ true) ⊎ (is_owner_role actor.role_type ≡ true))
unfolding is_business_owner
write_rights actor r h = elim (Bool-cases (of_technician r actor.user_id)) [
  | inl e ↦ inl (technician_eq r actor.user_id e)
  | inr e ↦ inr (ground (arith, h, e))
]

and-left : (a b : Bool) → (a && b) ≡ true → a ≡ true
and-left true b h = refl
and-left false b h = cc

pub open_for_mutation-found :
    (actor : Actor) (id : String) (rows : List SessionRow) (r : SessionRow)
    → open_for_mutation actor id rows ≡ ok r
    → MayChange actor id rows × ((x : SessionRow) × (find_row id rows ≡ some x))
unfolding open_for_mutation load_for_mutation session_scope
open_for_mutation-found actor id rows r h =
    let (x, loaded, h1) = >>=-eq-ok (load_for_mutation actor id rows) _ h in
    let (still_open, _) =
      throw_if-eq-ok (includes SessionStatus-discrete x.session.status terminal) already_closed _
        h1 in
    let (p, scoped, l1) = >>=-eq-ok (session_scope actor) _ loaded in
    let (y, shown, l2) = >>=-eq-ok (visible_or (find_visible p id rows)) _ l1 in
    let (may, l3) =
      throw_if-eq-ok (not (of_technician y actor.user_id) && not (is_business_owner actor))
        may_not_change _ l2 in
    let (scope, resolved, s1) = >>=-eq-ok (allowed_or (resolve_scope actor none)) _ scoped in
    let found = visible-ok (find_visible p id rows) y shown in
    let (listed, same_id, passes) = find_visible-listed p id rows y found in
    let same : y ≡ x = ok-inj l3 in
    let inside : in_business_scope scope y ≡ true =
      and-left (in_business_scope scope y) _ (ap (λ f. f y) (ok-inj s1) ∙ passes) in
    (
      record {
        row = y;
        listed = listed;
        same_id = same_id;
        own_business =
            scope_business actor scope y (allowed-ok (resolve_scope actor none) scope resolved)
              inside;
        rights = write_rights actor y may;
        still_open =
            ap (λ z. includes SessionStatus-discrete z.session.status terminal) same ∙ still_open;
      },
      find_row-visible p id rows y found,
    )

-- ===== src/Auth/Jwt/Reach.antt =====
-- Which business a request acts in.
use rem0te.Auth.Jwt.Claims.{account-ok}
use rem0te.Rbac.Technician.{BusinessScope, get_scope}
use rem0te.Rbac.Actor.{own_business, Membership, TechnicianContext}
use rem0te.Auth.Jwt.{
  JwtPayload, session, admit, untenanted, request_actor, validate, tenanted, Rows, standing,
  Standing, Account, Header, as_member, Extras, truthy, is_deleted, claimed, session_business,
  is_suspended, mfa_incomplete, account, account_not_found, session_ended, account_suspended,
  is_stranger, access_ended, resolve_extras, requested_business, or_else,
}
use rem0te.Auth.Revocation.{is_revoked}
use rem0te.Rbac.Access.Isolation.{IsFrom, IsFrom-pick_technician}
use rem0te.Prelude.{
  ap, sym, ◌∙◌, ok-inj, refl, inl, inr, ◌⊎◌, String, Bool, List, Option, ◌≡◌, false, some, ok,
  arith, true, Option-cases, ◌≢◌, none, throw_if-eq-ok, >>=-eq-ok,
}

-- What an accepted token rests on, besides its business.
pub record IsLive (rows : Rows) (p : JwtPayload) : Type 0 where
  pub account : Account
  pub found : rows.user p.sub ≡ some account
  pub complete : p.partial ≡ false
  pub not_deleted : is_deleted account.status ≡ false
  pub not_suspended : is_suspended account.status ≡ false
  pub not_revoked : is_revoked p.iat account.sessions_valid_after ≡ false

-- An active membership of the user in a business that is neither disabled nor archived.
pub record IsMemberOf (rows : Rows) (p : JwtPayload) (business : String) : Type 0 where
  pub membership : Membership
  pub row :
      (rows.active_membership p.sub ≡ some membership)
      ⊎ ((t : String) × (rows.tenant t ≡ some true)
          × (rows.membership p.sub t ≡ some (true, membership)))
  pub business_open : own_business (some membership) ≡ some business

as_member-ok :
    (m : Membership) (s : Standing) (b : String)
    → as_member false m ≡ ok s
    → s.business_id ≡ some b
    → own_business (some m) ≡ some b
unfolding own_business
as_member-ok m s b h k = elim (Option-cases m.customer) [
  | inl e ↦ absurd (ground (arith, e))
  | inr (c, e) ↦ ground (arith, e)
]

tenanted-ok :
    (tenant : Option Bool) (row : Option (Bool × Membership)) (s : Standing) (b : String)
    → tenanted false tenant row ≡ ok s
    → s.business_id ≡ some b
    → (tenant ≡ some true)
      × ((m : Membership) × (row ≡ some (true, m)) × (own_business (some m) ≡ some b))
unfolding tenanted
tenanted-ok none row s b h k = cc
tenanted-ok (some false) row s b h k = cc
tenanted-ok (some true) none s b h k = absurd (ground arith)
tenanted-ok (some true) (some (false, m)) s b h k = absurd (ground arith)
tenanted-ok (some true) (some (true, m)) s b h k = (refl, (m, refl, as_member-ok m s b h k))

untenanted-ok :
    (c : Standing) (row : Option Membership) (s : Standing) (b : String)
    → untenanted c false row ≡ ok s
    → s.business_id ≡ some b
    → (m : Membership) × (row ≡ some m) × (own_business (some m) ≡ some b)
unfolding untenanted
untenanted-ok c none s b h k = absurd (ground arith)
untenanted-ok c (some m) s b h k = (m, refl, as_member-ok m s b h k)

standing-member :
    (rows : Rows) (p : JwtPayload) (tenant : Option String) (c s : Standing) (b : String)
    → standing rows p.sub tenant c false ≡ ok s
    → s.business_id ≡ some b
    → IsMemberOf rows p b
unfolding standing
standing-member rows p none c s b h k =
    let (m, e, o) = untenanted-ok c (rows.active_membership p.sub) s b h k in
    record { membership = m; row = inl e; business_open = o }
standing-member rows p (some t) c s b h k =
    let (on, (m, e, o)) = tenanted-ok (rows.tenant t) (rows.membership p.sub t) s b h k in
    record { membership = m; row = inr (t, on, e); business_open = o }

get_scope-IsFrom :
    (ss : List BusinessScope) (t : TechnicianContext)
    → IsFrom ss (some t)
    → get_scope t.business_id ss ≢ none
unfolding IsFrom
get_scope-IsFrom ss t h e = ground (arith, e)

session_business-reach :
    (rows : Rows) (p : JwtPayload) (st : Standing) (t : Option TechnicianContext) (b : String)
    → IsFrom (rows.scopes p.sub) t
    → standing rows p.sub (truthy p.tenant_id) (claimed p) false ≡ ok st
    → session_business st t ≡ some b
    → IsMemberOf rows p b ⊎ (get_scope b (rows.scopes p.sub) ≢ none)
session_business-reach rows p st none b from h k =
    inl (standing-member rows p (truthy p.tenant_id) (claimed p) st b h k)
session_business-reach rows p st (some t) b from h k =
    let same_id : b ≡ t.business_id = cc in
    inr (rw same_id (get_scope-IsFrom (rows.scopes p.sub) t from))

or_else_self : (o : Option String) → or_else o o ≡ o
or_else_self none = refl
or_else_self (some a) = refl

admit-ok :
    (p s : JwtPayload) (admin : Bool) (st : Standing) (x : Extras)
    → admit p admin st x ≡ ok s
    → (s.is_platform_admin ≡ admin)
      × ((request_actor s).business_id ≡ session_business st x.technician)
unfolding admit session request_actor
admit-ok p s admin st x h =
    let made =
      ok-inj
        (throw_if-eq-ok (is_stranger admin st x) access_ended (ok (session p admin st x)) h).1 in
    (
      sym (ap (λ z. z.is_platform_admin) made),
      ap (λ z. (request_actor z).business_id) (sym made)
          ∙ or_else_self (session_business st x.technician),
    )

-- A request of anybody but a Platform Admin that acts in a business comes from a live account
-- that has finished its second factor and was not signed out, and that is an active member of
-- that open business or has a technician scope for it.
pub validate-IsLive :
    (rows : Rows) (header : Header) (cookie : Option String) (p s : JwtPayload) (b : String)
    → validate rows header cookie p ≡ ok s
    → s.is_platform_admin ≡ false
    → (request_actor s).business_id ≡ some b
    → IsLive rows p × (IsMemberOf rows p b ⊎ (get_scope b (rows.scopes p.sub) ≢ none))
unfolding validate resolve_extras
validate-IsLive rows header cookie p s b h admin business =
    let (complete, h1) = throw_if-eq-ok p.partial mfa_incomplete _ h in
    let (a, found, h2) = >>=-eq-ok (account (rows.user p.sub)) _ h1 in
    let (not_deleted, h3) = throw_if-eq-ok (is_deleted a.status) account_not_found _ h2 in
    let (not_revoked, h4) =
      throw_if-eq-ok (is_revoked p.iat a.sessions_valid_after) session_ended _ h3 in
    let (not_suspended, h5) = throw_if-eq-ok (is_suspended a.status) account_suspended _ h4 in
    let (st, stood, h6) =
      >>=-eq-ok (standing rows p.sub (truthy p.tenant_id) (claimed p) a.is_platform_admin) _ h5 in
    let x =
      resolve_extras (rows.scopes p.sub) a.platform_permissions st.business_id
        (requested_business header cookie) in
    let (same_admin, same_business) = admit-ok p s a.is_platform_admin st x h6 in
    (
      record {
        account = a;
        found = account-ok (rows.user p.sub) a found;
        complete = complete;
        not_deleted = not_deleted;
        not_suspended = not_suspended;
        not_revoked = not_revoked;
      },
      session_business-reach rows p st x.technician b
          (IsFrom-pick_technician (rows.scopes p.sub) st.business_id
            (requested_business header cookie))
          (ap (standing rows p.sub (truthy p.tenant_id) (claimed p)) (sym admin ∙ same_admin)
            ∙ stood)
          (sym same_business ∙ business),
    )

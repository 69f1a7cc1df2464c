-- ===== src/Auth/Jwt/Claims.antt =====
-- What a request is allowed to do rests on the database, and on the token for who it is.
use rem0te.Auth.Jwt.{
  JwtPayload, session, admit, account, validate, request_actor, standing, Standing, untenanted,
  Rows, Extras, Account, Header, truthy, mfa_incomplete, session_ended, is_deleted, is_stranger,
  account_not_found, access_ended, is_suspended, account_suspended, claimed, resolve_extras,
  requested_business,
}
use rem0te.Auth.Revocation.{is_revoked}
use rem0te.Prelude.{
  refl, Bool, Option, String, ◌≡◌, ◌≢◌, none, ok, map_ok, some, ◌⊎◌, map_ok->>=, false, ap,
  throw_if, Option-cases, inl, arith, inr, ◌∙◌,
}

standing-claims :
    (rows : Rows) (sub : String) (tenant : Option String) (c d : Standing) (admin : Bool)
    → (tenant ≢ none) ⊎ (admin ≡ false)
    → standing rows sub tenant c admin ≡ standing rows sub tenant d admin
unfolding standing untenanted
standing-claims rows sub (some t) c d admin h = refl
standing-claims rows sub none c d admin h = elim (Option-cases (rows.active_membership sub)) [
  | inl e ↦ rw e (ground arith)
  | inr (m, e) ↦ rw e refl
]

session-actor :
    (p q : JwtPayload) (admin : Bool) (s : Standing) (x : Extras)
    → p.sub ≡ q.sub
    → request_actor (session p admin s x) ≡ request_actor (session q admin s x)
unfolding session request_actor
session-actor p q admin s x e = rw e refl

admit-actor :
    (p q : JwtPayload) (admin : Bool) (s : Standing) (x : Extras)
    → p.sub ≡ q.sub
    → map_ok request_actor (admit p admin s x) ≡ map_ok request_actor (admit q admin s x)
unfolding admit
admit-actor p q admin s x e =
    map_ok->>= request_actor _ _ {m = throw_if (is_stranger admin s x) access_ended} refl
      (λ _ _. ap ok (session-actor p q admin s x e))

standing-same :
    (rows : Rows) (p q : JwtPayload) (admin : Bool)
    → p.sub ≡ q.sub
    → truthy p.tenant_id ≡ truthy q.tenant_id
    → (truthy p.tenant_id ≢ none) ⊎ (admin ≡ false)
    → standing rows p.sub (truthy p.tenant_id) (claimed p) admin
      ≡ standing rows q.sub (truthy q.tenant_id) (claimed q) admin
standing-same rows p q admin sub tenant given =
    standing-claims rows p.sub (truthy p.tenant_id) (claimed p) (claimed q) admin given
    ∙ ap (λ u. standing rows u (truthy p.tenant_id) (claimed q) admin) sub
    ∙ ap (λ t. standing rows q.sub t (claimed q) admin) tenant

pub account-ok : (o : Option Account) (a : Account) → account o ≡ ok a → o ≡ some a
unfolding account
account-ok none a h = cc
account-ok (some b) a h = cc

-- Two tokens of one subject, tenant and time of issue, both complete or both partial, give a request
-- the same rights, whatever role, business, capabilities or technician context they claim; a
-- Platform Admin's token with no tenant is the exception.
pub validate-claims :
    (rows : Rows) (header : Header) (cookie : Option String) (p q : JwtPayload)
    → p.sub ≡ q.sub
    → truthy p.tenant_id ≡ truthy q.tenant_id
    → p.iat ≡ q.iat
    → p.partial ≡ q.partial
    → (truthy p.tenant_id ≢ none)
      ⊎ ((a : Account) → rows.user p.sub ≡ some a → a.is_platform_admin ≡ false)
    → map_ok request_actor (validate rows header cookie p)
      ≡ map_ok request_actor (validate rows header cookie q)
unfolding validate
validate-claims rows header cookie p q sub tenant iat partial given =
    map_ok->>= request_actor _ _ (ap (λ b. throw_if b mfa_incomplete) partial) (λ _ _.
      map_ok->>= request_actor _ _ (ap (λ s. account (rows.user s)) sub) (λ a found.
        map_ok->>= request_actor _ _ {m = throw_if (is_deleted a.status) account_not_found} refl
          (λ _ _.
            map_ok->>= request_actor _ _
              (ap (λ t. throw_if (is_revoked t a.sessions_valid_after) session_ended) iat)
              (λ _ _.
                map_ok->>= request_actor _ _
                  {m = throw_if (is_suspended a.status) account_suspended} refl
                  (λ _ _.
                    map_ok->>= request_actor _ _
                      {m = standing rows p.sub (truthy p.tenant_id) (claimed p) a.is_platform_admin}
                      (standing-same rows p q a.is_platform_admin sub tenant
                        (elim given [ inl n ↦ inl n | inr f ↦ inr (f a (account-ok _ a found)) ]))
                      (λ s _.
                        let extras : String → Extras = λ u.
                          resolve_extras (rows.scopes u) a.platform_permissions s.business_id
                            (requested_business header cookie) in
                        admit-actor p q a.is_platform_admin s (extras p.sub) sub
                        ∙ ap (λ u. map_ok request_actor (admit q a.is_platform_admin s (extras u)))
                            sub))))))

-- ===== src/Auth/SignIn/Tokens.antt =====
-- What a sign-in proves, and how long its token is good.
use rem0te.Rbac.Actor.{Membership, is_disabled}
use rem0te.Auth.SignIn.Lockout.Effects.{admit_login-ok}
use rem0te.Auth.Revocation.{is_revoked, issue_at, revocation_instant}
use rem0te.Auth.Jwt.{
  session, standing, tenanted, admit, member, resolve_extras, requested_business, Rows, validate,
  account, JwtPayload, Header, Account, mfa_incomplete, is_deleted, truthy, session_ended,
  UserStatus,
}
use rem0te.Auth.SignIn.{
  Site, check_password, User, Failures, may_log_in, locked_for, usable_hash, admit_login,
  LoginMembership,
}
use rem0te.Auth.SignIn.Mint.{
  login, start_session, change_password, issue_full_token, SignIn, requires_mfa, place_of,
}
use rem0te.Prelude.{
  is_empty, [], ◌∷◌, none, some, true, false, refl, arith, inl, inr, ◌∙◌, ℕ, String, Bool, List,
  ◌≡◌, ok, Option, Result-cases, err, ◌/◌, ◌<◌,
}

-- What is behind a session that `login` starts at once.
pub record IsProved (site : Site) (now : ℕ) (email password : String)
    (fs : List (String × Failures)) : Type 0 where
  pub user : User
  pub hash : String
  pub found : site.user email ≡ some user
  pub is_active : may_log_in user.status ≡ ok tt
  pub not_locked : locked_for now user.id fs ≡ 0
  pub usable : usable_hash user.password_hash ≡ some hash
  pub fits_hash : site.verify.password hash password ≡ true
  pub no_totp : user.has_totp ≡ false
  pub not_required : requires_mfa site (truthy (place_of site user.memberships).tenant_id) ≡ false

admit_login-active :
    (site : Site) (now : ℕ) (email : String) (fs : List (String × Failures)) (u : User) (h : String)
    → admit_login site now email fs ≡ ok (u, h)
    → may_log_in u.status ≡ ok tt
unfolding admit_login
admit_login-active site now email fs u h e = ground arith

-- A password alone starts a session only on an active account that is not locked, by the password
-- of its hash, without a TOTP method, where the tenant does not require a second factor.
pub login-IsProved :
    (site : Site) (now : ℕ) (email password : String) (fs fs' : List (String × Failures))
    (p : JwtPayload)
    → login site now email password fs ≡ (ok (SignIn.signed_in p), fs')
    → IsProved site now email password fs
unfolding login check_password start_session locked_for
login-IsProved site now email password fs fs' p h =
    elim (Result-cases (admit_login site now email fs)) [
      | inl (e, k) ↦ absurd (ground (arith, k))
      | inr ((u, hash), k) ↦
          let (found, usable, free) = admit_login-ok site now email fs u hash k in
          record {
            user = u;
            hash = hash;
            found = found;
            is_active = admit_login-active site now email fs u hash k;
            not_locked = ground (arith, free);
            usable = usable;
            fits_hash = ground (arith, k);
            no_totp = ground (arith, k);
            not_required = ground (arith, k);
          }
    ]

-- The token before the second factor opens nothing.
pub validate-partial :
    (site : Site) (now : ℕ) (u : User) (done b : Bool) (p : JwtPayload) (rows : Rows)
    (header : Header) (cookie : Option String)
    → start_session site now u done ≡ SignIn.needs_mfa b p
    → validate rows header cookie p ≡ err mfa_incomplete
unfolding start_session validate
validate-partial site now u done b p rows header cookie h = ground arith

change_password-ok :
    (site : Site) (hash : String → String) (now later : ℕ) (id current new : String) (u : User)
    (p : JwtPayload)
    → change_password site hash now later id current new ≡ ok (u, p)
    → (u.sessions_valid_after ≡ some (revocation_instant now))
      × (p.sub ≡ u.id)
      × (p.partial ≡ false)
      × (p.iat ≡ some (issue_at u.sessions_valid_after later))
unfolding change_password issue_full_token
change_password-ok site hash now later id current new u p h = ground arith

old_ends :
    (minted now : ℕ)
    → minted < now
    → is_revoked (some (minted / 1000)) (some (revocation_instant now)) ≡ true
unfolding is_revoked revocation_instant
old_ends minted now m = ground arith

new_counts :
    (now later : ℕ)
    → is_revoked
        (some (issue_at (some (revocation_instant now)) later))
        (some (revocation_instant now))
      ≡ false
unfolding is_revoked revocation_instant issue_at
new_counts now later = ground arith

-- After a change of the password, while the row of the user holds it and is not deleted, every token
-- of the user that was minted before it, on an account without an earlier revocation, is refused
-- as ended, and the token in its place is not.
pub change_password-ends :
    (site : Site) (hash : String → String) (now later minted : ℕ) (id current new : String)
    (u : User) (p old : JwtPayload) (rows : Rows) (header : Header) (cookie : Option String)
    (a : Account)
    → change_password site hash now later id current new ≡ ok (u, p)
    → rows.user u.id ≡ some a
    → is_deleted a.status ≡ false
    → a.sessions_valid_after ≡ u.sessions_valid_after
    → old.sub ≡ u.id
    → old.partial ≡ false
    → old.iat ≡ some (minted / 1000)
    → minted < now
    → (validate rows header cookie old ≡ err session_ended)
      × (p.sub ≡ u.id)
      × (p.partial ≡ false)
      × (is_revoked p.iat a.sessions_valid_after ≡ false)
unfolding validate account
change_password-ends site hash now later minted id current new u p old rows header cookie a h f d s
      o n i m =
    let (v, sub, full, iat) = change_password-ok site hash now later id current new u p h in
    let valid = s ∙ v in
    let found : rows.user old.sub ≡ some a = rw o f in
    let over : is_revoked old.iat a.sessions_valid_after ≡ true =
      rw (i, valid) (old_ends minted now m) in
    (ground (arith, n, found, d, over), sub, full, rw (iat, valid, v) (new_counts now later))

-- What a member's next request meets in the database.
pub record IsWelcome (rows : Rows) (u : User) (tenant : String) : Type 0 where
  pub account : Account
  pub membership : Membership
  pub found : rows.user u.id ≡ some account
  pub is_active : account.status ≡ UserStatus.active
  pub same_revocation : account.sessions_valid_after ≡ u.sessions_valid_after
  pub named : is_empty tenant ≡ false
  pub tenant_active : rows.tenant tenant ≡ some true
  pub is_member : rows.membership u.id tenant ≡ some (true, membership)
  pub is_open : is_disabled (some membership) ≡ false

minted_counts : (o : Option ℕ) (now : ℕ) → is_revoked (some (issue_at o now)) o ≡ false
unfolding is_revoked issue_at
minted_counts none now = refl
minted_counts (some v) now = ground arith

-- The session of a sign-in is good for the next request: a user with one membership who is signed
-- in, in an active tenant and a business that is open, and whose sessions were not revoked since, is
-- let in.
pub validate-start_session :
    (site : Site) (now : ℕ) (u : User) (m : LoginMembership) (done : Bool) (p : JwtPayload)
    (rows : Rows) (header : Header) (cookie : Option String)
    → start_session site now u done ≡ SignIn.signed_in p
    → u.memberships ≡ m ∷ []
    → IsWelcome rows u m.tenant_id
    → (q : JwtPayload) × (validate rows header cookie p ≡ ok q) × (q.sub ≡ u.id)
unfolding start_session issue_full_token validate account standing tenanted admit session
validate-start_session site now u m done p rows header cookie h e w =
    let token : p
        ≡ issue_full_token now u (some m.tenant_id) (some m.role) m.customer_id m.capabilities =
      ground (arith, e) in
    let counts = minted_counts u.sessions_valid_after now in
    let x =
      resolve_extras (rows.scopes u.id) w.account.platform_permissions
        (member w.membership).business_id (requested_business header cookie) in
    (
      session p w.account.is_platform_admin (member w.membership) x,
      rw token (
          ground (
            arith, counts, w.found, w.is_active, w.same_revocation, w.named, w.tenant_active,
            w.is_member, w.is_open,
          )),
      rw token refl,
    )

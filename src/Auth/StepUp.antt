-- ===== src/Auth/StepUp.antt =====
-- apps/api/src/auth/step-up.service.ts: a recent proof of presence, in a cookie that is bound to the
-- user and the session. The signature, the encodings and the clock are given.
pub mod Cookie
use Prim.Native.Char.{code}
use rem0te.Prelude.{
  append_text, is_empty, ℕ, ◌+◌, ◌*◌, ◌==◌, Bool, true, false, not, ◌&&◌, ◌||◌, Option, none, some,
  List, [], ◌∷◌, String, str_eq, ltb, leb, if◌then◌else◌, get_or, any,
}

-- What the cookie says: `typeof exp !== 'number'` is an absent `exp`.
pub record Proof : Type 0 where
  pub sub : String
  pub sid : Option ℕ
  pub exp : Option ℕ
  pub m : String

-- The HMAC of a body under the server's key, and the two encodings on the way of a body; `parse`
-- fails on what is no JSON in base64url.
pub record Codec : Type 0 where
  pub sign : String → String
  pub print : Proof → String
  pub parse : String → Option Proof

pub data StepUpAction : Type 0 where
  credential_reveal permissions_change technicians_manage : StepUpAction
  sso_configure passkey_manage platform_configure : StepUpAction

unfoldable pub action_name : StepUpAction → String
action_name StepUpAction.credential_reveal = "credential.reveal"
action_name StepUpAction.permissions_change = "permissions.change"
action_name StepUpAction.technicians_manage = "technicians.manage"
action_name StepUpAction.sso_configure = "sso.configure"
action_name StepUpAction.passkey_manage = "passkey.manage"
action_name StepUpAction.platform_configure = "platform.configure"

abbrev pub all_actions : List String
all_actions =
    "credential.reveal" ∷ "permissions.change" ∷ "technicians.manage" ∷ "sso.configure"
    ∷ "passkey.manage" ∷ "platform.configure" ∷ []

abbrev pub step_up_ttl : ℕ
step_up_ttl = 10 * 60000

-- `split('.')`: what stands before the first dot, and the part after it
unfoldable pub before_dot : String → String
before_dot String.[] = String.[]
before_dot (String.◌∷◌ c s) =
    let rest = before_dot s in if code c == b'.' then String.[] else String.◌∷◌ c rest

unfoldable pub after_dot : String → String
unfolding before_dot
after_dot String.[] = String.[]
after_dot (String.◌∷◌ c s) = if code c == b'.' then before_dot s else after_dot s

pub record Confirmed : Type 0 where
  pub expires_at : ℕ
  pub method : String

module _ (codec : Codec) where
  -- the cookie's value, which expires ten minutes from now
  unfoldable pub issue : ℕ → String → Option ℕ → String → String
  unfolding append_text
  issue now user iat method =
      let body = codec.print (record {
        sub = user;
        sid = some (get_or iat 0);
        exp = some (now + step_up_ttl);
        m = method;
      }) in
      append_text body (append_text "." (codec.sign body))

  -- the body, with its signature checked
  unfoldable pub check_proof : ℕ → String → Option ℕ → Option Proof → Option Confirmed
  check_proof now user iat none = none
  check_proof now user iat (some p) =
      if not (str_eq p.sub user) || not (get_or p.sid 0 == get_or iat 0) then none else elim p.exp [
        | none ↦ none
        | some exp ↦ if ltb exp now then none else some (record { expires_at = exp; method = p.m })
      ]

  unfoldable pub read : ℕ → Option String → String → Option ℕ → Option Confirmed
  unfolding check_proof before_dot after_dot
  read now none user iat = none
  read now (some raw) user iat =
      let body = before_dot raw in
      let mac = after_dot raw in
      if is_empty body || is_empty mac || not (str_eq (codec.sign body) mac)
      then none
      else check_proof now user iat (codec.parse body)

  -- `assert`: whether it returns. `settings` is the row of the platform's settings, if there is
  -- one, and `user` the authenticated user with the token's `iat`.
  unfoldable pub is_confirmed :
      ℕ → Option (List String) → StepUpAction → Option (String × Option ℕ) → Option String → Bool
  unfolding read any action_name
  is_confirmed now settings action user raw =
      if not (any (λ a. str_eq a (action_name action)) (get_or settings all_actions))
      then true
      else elim user [
        | none ↦ false
        | some (id, iat) ↦ elim (read now raw id iat) [ none ↦ false | some _ ↦ true ]
      ]

-- ===== src/Auth/StepUp/Cookie.antt =====
-- The cookie read back, and what a confirmed action rests on.
use rem0te.Auth.StepUp.{Proof, Codec, issue, read, before_dot, after_dot, step_up_ttl}
use rem0te.Prelude.{
  append_text, is_empty, ℕ, ◌≡◌, ◌≤◌, ◌+◌, ◌==◌, refl, false, ◌&&◌, Option, none, some, String,
  str_eq, eq_iff, arith, leb, if◌then◌else◌, get_or, codes, any,
}

abbrev pub HasNoDot : String → Type 0
HasNoDot s = any (λ c. c == b'.') (codes s) ≡ false

before_dot-append : (s t : String) → HasNoDot s → before_dot (append_text s (append_text "." t)) ≡ s
unfolding before_dot append_text any
before_dot-append String.[] t h = refl
before_dot-append (String.◌∷◌ c s) t h = ground (arith, before_dot-append s t)

before_dot_self : (s : String) → HasNoDot s → before_dot s ≡ s
unfolding before_dot any
before_dot_self String.[] h = refl
before_dot_self (String.◌∷◌ c s) h = ground (arith, before_dot_self s)

after_dot-append :
    (s t : String) → HasNoDot s → HasNoDot t → after_dot (append_text s (append_text "." t)) ≡ t
unfolding after_dot append_text any
after_dot-append String.[] t h k = before_dot_self t k
after_dot-append (String.◌∷◌ c s) t h k = ground (arith, after_dot-append s t)

unfoldable pub proof_of : ℕ → String → Option ℕ → String → Proof
proof_of minted user iat method = record {
  sub = user;
  sid = some (get_or iat 0);
  exp = some (minted + step_up_ttl);
  m = method;
}

-- What the encodings do with one proof: its body reads back, and neither the body nor the MAC of
-- it is empty or has a dot.
pub record Encodes (codec : Codec) (p : Proof) : Type 0 where
  pub parsed : codec.parse (codec.print p) ≡ some p
  pub plain_body : HasNoDot (codec.print p)
  pub some_body : is_empty (codec.print p) ≡ false
  pub plain_mac : HasNoDot (codec.sign (codec.print p))
  pub some_mac : is_empty (codec.sign (codec.print p)) ≡ false

-- A cookie, if the encodings keep its proof, confirms exactly the user and the session that it was
-- issued for, up to ten minutes later, and with the method of its issue.
pub read-issue :
    (codec : Codec) (minted now : ℕ) (user other method : String) (iat other_iat : Option ℕ)
    → Encodes codec (proof_of minted user iat method)
    → read codec now (some (issue codec minted user iat method)) other other_iat ≡ (
        if str_eq user other && get_or iat 0 == get_or other_iat 0 && leb now (minted + step_up_ttl)
        then some (record { expires_at = minted + step_up_ttl; method = method })
        else none)
unfolding read issue proof_of
read-issue codec minted now user other method iat other_iat h =
    let p = proof_of minted user iat method in
    let body = codec.print p in
    rw
      (
        before_dot-append body (codec.sign body) h.plain_body,
        after_dot-append body (codec.sign body) h.plain_body h.plain_mac,
        h.some_body,
        h.some_mac,
        (eq_iff (codec.sign body) (codec.sign body)).1 refl,
        h.parsed,
      )
      (ground arith)

-- Two parts of a cookie that count: a body that the server signed, and what it says.
pub record Vouches (codec : Codec) (now : ℕ) (raw user : String) (iat : Option ℕ) : Type 0 where
  pub proof : Proof
  pub exp : ℕ
  pub signed : after_dot raw ≡ codec.sign (before_dot raw)
  pub says : codec.parse (before_dot raw) ≡ some proof
  pub of_user : proof.sub ≡ user
  pub of_session : get_or proof.sid 0 ≡ get_or iat 0
  pub expires : proof.exp ≡ some exp
  pub in_time : now ≤ exp

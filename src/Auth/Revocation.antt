-- ===== src/Auth/Revocation.antt =====
-- apps/api/src/auth/session-revocation.ts: the instant from which tokens count again, in whole
-- seconds. An instant is in milliseconds, an `iat` in seconds.
pub mod Instants
use rem0te.Prelude.{
  ℕ, ◌+◌, ◌*◌, ◌/◌, Bool, true, false, Option, none, some, ltb, if◌then◌else◌, get_or,
}

-- `Math.ceil(ms / 1000)`
abbrev pub ceil_seconds : ℕ → ℕ
ceil_seconds ms = (ms + 999) / 1000

unfoldable pub revocation_instant : ℕ → ℕ
revocation_instant now = ceil_seconds now * 1000

unfoldable pub is_revoked : Option ℕ → Option ℕ → Bool
is_revoked iat none = false
is_revoked iat (some valid_after) = ltb (get_or iat 0 * 1000) valid_after

-- The `iat` of a token that is minted at `now`.
unfoldable pub issue_at : Option ℕ → ℕ → ℕ
issue_at none now = now / 1000
issue_at (some valid_after) now =
    if ltb (now / 1000) (ceil_seconds valid_after) then ceil_seconds valid_after else now / 1000

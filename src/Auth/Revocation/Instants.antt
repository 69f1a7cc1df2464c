-- ===== src/Auth/Revocation/Instants.antt =====
-- Which tokens a revocation ends.
use rem0te.Auth.Revocation.{revocation_instant, is_revoked, issue_at}
use rem0te.Prelude.{ℕ, ◌≡◌, ◌≤◌, ◌<◌, ◌+◌, ◌/◌, true, false, none, some, arith}

-- A token minted after a revocation, also within its second, is accepted. One minted before it is
-- ended by it, if it was minted on an account with no revocation, or with none in the second of
-- the new one.
pub is_revoked-issue_at :
    (old r minted later : ℕ)
    → minted < r
    → (old + 999) / 1000 < (r + 999) / 1000
    → (is_revoked
          (some (issue_at (some (revocation_instant r)) later))
          (some (revocation_instant r))
        ≡ false)
      × (is_revoked (some (issue_at none minted)) (some (revocation_instant r)) ≡ true)
      × (is_revoked
            (some (issue_at (some (revocation_instant old)) minted))
            (some (revocation_instant r))
          ≡ true)
unfolding is_revoked issue_at revocation_instant
is_revoked-issue_at old r minted later h k = ground arith

-- The hole that is left: where two revocations fall into one second, the second does not end a
-- token that was minted between them.
pub revoke_twice :
    (old r minted : ℕ)
    → old ≤ minted
    → minted ≤ r
    → (old + 999) / 1000 ≡ (r + 999) / 1000
    → is_revoked
        (some (issue_at (some (revocation_instant old)) minted))
        (some (revocation_instant r))
      ≡ false
unfolding is_revoked issue_at revocation_instant
revoke_twice old r minted h k e = ground arith

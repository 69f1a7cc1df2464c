-- ===== src/Rbac/Expiry.antt =====
-- `auditExpiries` of apps/api/src/rbac/technician-access.service.ts: one audit entry for each
-- assignment and each computer grant that has lapsed. Other requests do not run in between.
use rem0te.Prelude.{
  ℕ, zero, suc, Bool, false, not, ◌&&◌, Option, none, some, List, [], ◌∷◌, String, str_eq, leb,
  if◌then◌else◌, any, is_some, length,
}

-- A row of either table, as far as the sweep reads it; a computer grant is never revoked.
pub record Grant : Type 0 where
  pub id : String
  pub expires_at : Option ℕ
  pub expiry_audited_at : Option ℕ
  pub revoked_at : Option ℕ

abbrev is_lapsed : ℕ → Grant → Bool
is_lapsed at g =
    elim g.expires_at [ none ↦ false | some e ↦ leb e at ]
    && not (is_some g.expiry_audited_at)
    && not (is_some g.revoked_at)

-- `findMany({ where, take })`
unfoldable pub find_lapsed : ℕ → ℕ → List Grant → List Grant
find_lapsed zero at gs = []
find_lapsed (suc n) at [] = []
find_lapsed (suc n) at (g ∷ gs) =
    let rest = find_lapsed n at gs in if is_lapsed at g then g ∷ rest else find_lapsed (suc n) at gs

abbrev is_open : String → Grant → Bool
is_open id g = str_eq g.id id && not (is_some g.expiry_audited_at)

-- `updateMany({ where: { id, expiryAuditedAt: null }, data: { expiryAuditedAt: at } })`
unfoldable pub mark : String → ℕ → List Grant → List Grant
mark id at [] = []
mark id at (g ∷ gs) =
    (if is_open id g then record g { expiry_audited_at = some at } else g) ∷ mark id at gs

pub record Tables : Type 0 where
  pub assignments : List Grant
  pub computer_access : List Grant
  pub audit : List (String × String)

-- the loop over the lapsed rows of one table: the table, and the entries with the action's name
unfoldable pub sweep :
    String
    → ℕ
    → List Grant
    → List Grant × List (String × String)
    → List Grant × List (String × String)
unfolding mark any
sweep action at [] (gs, log) = (gs, log)
sweep action at (g ∷ rest) (gs, log) =
    sweep action at rest
      (if any (is_open g.id) gs then (mark g.id at gs, (action, g.id) ∷ log) else (gs, log))

unfoldable pub audit_expiries : ℕ → Tables → (ℕ × ℕ) × Tables
unfolding find_lapsed sweep
audit_expiries at t =
    let lapsed = find_lapsed 200 at t.assignments in
    let (assignments, log) =
      sweep "TECHNICIAN_ASSIGNMENT_EXPIRED" at lapsed (t.assignments, t.audit) in
    let lapsed_access = find_lapsed 200 at t.computer_access in
    let (access, log') =
      sweep "COMPUTER_ACCESS_EXPIRED" at lapsed_access (t.computer_access, log) in
    (
      (length lapsed, length lapsed_access),
      record { assignments = assignments; computer_access = access; audit = log' },
    )

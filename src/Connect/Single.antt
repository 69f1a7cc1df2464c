-- ===== src/Connect/Single.antt =====
-- One grant is redeemed once, whatever runs beside it. A redemption reads the tables at one time and
-- claims its grant at a later one, so its two parts are apart here, and anything may come between.
pub mod Once
use rem0te.Rbac.Access.{lists}
use rem0te.Rbac.Actor.{Actor}
use rem0te.Connect.{Rows, authorize_connect}
use rem0te.Connect.Grant.{
  claim_where, claim_data, Grant, create_connection_grant, Ledger, RedeemError, log_refusal, Ticket,
  check_grant, find_grant, claim_grant,
}
use rem0te.Schedule.{Intl}
use rem0te.Prelude.{
  refl, none, some, false, ◌==◌, ◌≤◌, all-update_many, all-update_many-keep, any-update_many,
  none_updated, some_updated, [], ◌∷◌, arith, ap, ◌∙◌, not, any, all, ◌||◌, ◌&&◌, is_some, ltb,
  String, update_many, ℕ, List, ◌≡◌, Option, Bool, true, Bool-cases, str_eq, inl, eq_iff, ok,
  if◌then◌else◌, ◌+◌, inr, Result-cases,
}

-- The grants and what the requests were given so far: the ids of the redeemed grants.
pub record World : Type 0 where
  pub ledger : Ledger
  pub released : List String

abbrev pub is_hit : ℕ → String → Option (List String) → Grant → Bool
is_hit now user endpoints g =
    str_eq g.user_id user
    && not (is_some g.used_at)
    && ltb now g.expires_at
    && lists endpoints g.endpoint_id

-- What offboarding does to the grants of a user: apps/api/src/offboarding/offboarding.service.ts.
unfoldable pub expire_grants : ℕ → String → Option (List String) → Ledger → Ledger
unfolding update_many
expire_grants now user endpoints l = record l {
  grants =
      (update_many (is_hit now user endpoints) (λ g. record g { expires_at = now }) l.grants).0;
}

-- The primary key of a row that is created.
abbrev pub is_new : String → List Grant → Bool
is_new id gs = not (any (λ g. str_eq g.id id) gs)

-- `before` is the table at the time of the read, whatever it was.
pub data Step (w w' : World) : Type 0 where
  creating :
      (intl : Intl) (rows : Rows) (now : ℕ) (actor : Actor) (ip : Option String)
      (endpoint_id id hash : String)
      → is_new id w.ledger.grants ≡ true
      → (create_connection_grant intl rows now actor ip endpoint_id id hash w.ledger).1 ≡ w'.ledger
      → w'.released ≡ w.released
      → Step w w'
  refusing :
      (e : RedeemError) (row : Option Grant)
      → log_refusal e row w.ledger ≡ w'.ledger
      → w'.released ≡ w.released
      → Step w w'
  claiming :
      (intl : Intl) (decrypt : String → Option String) (rows : Rows) (read_at now : ℕ)
      (ip : Option String) (hash : String) (before : List Grant) (t : Ticket)
      → check_grant intl decrypt rows read_at (find_grant hash before) ≡ ok t
      → claim_grant now ip t w.ledger ≡ ok w'.ledger
      → w'.released ≡ t.grant.id ∷ w.released
      → Step w w'
  expiring :
      (now : ℕ) (user : String) (endpoints : Option (List String))
      → expire_grants now user endpoints w.ledger ≡ w'.ledger
      → w'.released ≡ w.released
      → Step w w'

pub data Steps : World → World → Type 0 where
  stay : {w : World} → Steps w w
  then_step : {w u v : World} → Steps w u → Step u v → Steps w v

unfoldable pub count_of : String → List String → ℕ
count_of id [] = 0
count_of id (x ∷ xs) = let rest = count_of id xs in if str_eq x id then 1 + rest else rest

-- ===== src/Connect/Grant.antt =====
-- Single-use connection grants: `createConnectionGrant` and `redeemConnectionGrant` of
-- apps/api/src/endpoints/endpoints.service.ts. A token is random, and its digest and the key of the
-- passwords are given.
use rem0te.Auth.Jwt.{truthy}
use rem0te.Rbac.Actor.{UserRow, Actor}
use rem0te.Connect.{live_actor, Denial, Computer, authorize_connect, Rows, Node}
use rem0te.Schedule.{Intl}
use rem0te.Prelude.{
  is_empty, none, some, List, [], ◌∷◌, String, ◌>>=◌, ◌>>◌, Bool, false, not, ◌&&◌, Option,
  update_many, ℕ, Result, err, str_eq, if◌then◌else◌, ◌+◌, ok, is_some, throw_if, ltb, ◌==◌,
}

pub record Grant : Type 0 where
  pub id : String
  pub token_hash : String
  pub user_id : String
  pub endpoint_id : String
  pub expires_at : ℕ
  pub used_at : Option ℕ
  pub used_by_ip : Option String
  pub created_by_ip : Option String

pub data AuditAction : Type 0 where
  grant_denied : Denial → AuditAction
  grant_created grant_redeemed : AuditAction

pub record AuditEntry : Type 0 where
  pub action : AuditAction
  pub actor_id : String
  pub resource_id : String

pub record Ledger : Type 0 where
  pub grants : List Grant
  pub audits : List AuditEntry

abbrev pub log_entry : AuditAction → String → String → Ledger → Ledger
log_entry action actor resource l = record l {
  audits = record { action = action; actor_id = actor; resource_id = resource } ∷ l.audits;
}

abbrev pub new_grant : ℕ → Actor → Option String → String → String → String → Grant
new_grant now actor ip endpoint_id id hash = record {
  id = id;
  token_hash = hash;
  user_id = actor.user_id;
  endpoint_id = endpoint_id;
  expires_at = now + 90000;
  used_at = none;
  used_by_ip = none;
  created_by_ip = ip;
}

-- The answer is the grant's id, or none for a computer that is not there or not theirs.
unfoldable pub create_connection_grant :
    Intl
    → Rows
    → ℕ
    → Actor
    → Option String
    → String
    → String
    → String
    → Ledger
    → Option String × Ledger
unfolding authorize_connect
create_connection_grant intl rows now actor ip endpoint_id id hash l =
    elim (authorize_connect intl rows now actor endpoint_id) [
      | err reason ↦ (none, log_entry (grant_denied reason) actor.user_id endpoint_id l)
      | ok u ↦ (
        some id,
        log_entry grant_created actor.user_id id
            (record l { grants = new_grant now actor ip endpoint_id id hash ∷ l.grants }),
      )
    ]

-- Every one of these is answered with Not found, but for a password that does not decrypt.
pub data RedeemError : Type 0 where
  grant_not_found already_used grant_expired user_inactive not_enrolled : RedeemError
  undecryptable : RedeemError
  denied : Denial → RedeemError

pub record Ticket : Type 0 where
  pub grant : Grant
  pub rustdesk_id : String
  pub password : Option String

unfoldable pub find_grant : String → List Grant → Option Grant
find_grant hash [] = none
find_grant hash (g ∷ gs) =
    let rest = find_grant hash gs in if str_eq g.token_hash hash then some g else rest

abbrev pub or_fail {ℓ} : {A : Type ℓ} → RedeemError → Option A → Result RedeemError A
or_fail e none = err e
or_fail e (some a) = ok a

abbrev pub is_active_user : Option UserRow → Bool
is_active_user none = false
is_active_user (some u) = u.is_active

abbrev pub as_denied : Result Denial (Unit {0}) → Result RedeemError (Unit {0})
as_denied (err e) = err (denied e)
as_denied (ok u) = ok u

-- `rustdeskNode?.rustdeskId`, if it is there and not empty
abbrev pub enrolled_node : Computer → Option Node
enrolled_node c = elim c.node [
  | none ↦ none
  | some n ↦ if is_empty n.rustdesk_id then none else some n
]

abbrev pub open_password : (String → Option String) → Node → Result RedeemError (Option String)
open_password decrypt n = elim (truthy n.permanent_password) [
  | none ↦ ok none
  | some p ↦ elim (decrypt p) [ none ↦ err undecryptable | some q ↦ ok (some q) ]
]

-- What a redemption reads and decides before it claims the grant. The grant's user and computer are
-- there while the grant is.
unfoldable pub check_grant :
    Intl → (String → Option String) → Rows → ℕ → Option Grant → Result RedeemError Ticket
unfolding live_actor authorize_connect
check_grant intl decrypt rows now row = do
  g ← or_fail grant_not_found row
  throw_if (is_some g.used_at) already_used
  throw_if (ltb g.expires_at now) grant_expired
  throw_if (not (is_active_user (rows.user g.user_id))) user_inactive
  c ← or_fail grant_not_found (rows.computer g.endpoint_id)
  actor ← or_fail user_inactive (live_actor intl rows now g.user_id c.endpoint.customer_id)
  as_denied (authorize_connect intl rows now actor g.endpoint_id)
  n ← or_fail not_enrolled (enrolled_node c)
  password ← open_password decrypt n
  ok (record { grant = g; rustdesk_id = n.rustdesk_id; password = password })

-- the update that decides who redeems: `where` and `data`
abbrev pub claim_where : String → Grant → Bool
claim_where id g = str_eq g.id id && not (is_some g.used_at)

abbrev pub claim_data : ℕ → Option String → Grant → Grant
claim_data now ip g = record g { used_at = some now; used_by_ip = ip }

unfoldable pub claim_grant : ℕ → Option String → Ticket → Ledger → Result RedeemError Ledger
unfolding update_many
claim_grant now ip t l = do
  let (grants, count) = update_many (claim_where t.grant.id) (claim_data now ip) l.grants
  throw_if (count == 0) already_used
  ok (log_entry grant_redeemed t.grant.user_id t.grant.id (record l { grants = grants }))

-- A denial is on record, under the grant.
abbrev pub log_refusal : RedeemError → Option Grant → Ledger → Ledger
log_refusal (denied reason) (some g) l = log_entry (grant_denied reason) g.user_id g.id l
log_refusal _ _ l = l

abbrev released : Ticket → Ledger → Result RedeemError Ledger → Result RedeemError Ticket × Ledger
released t l (err e) = (err e, l)
released t l (ok l') = (ok t, l')

-- A redemption with no other one in between; `hash` is the digest of the token.
unfoldable pub redeem_connection_grant :
    Intl
    → (String → Option String)
    → Rows
    → ℕ
    → Option String
    → String
    → Ledger
    → Result RedeemError Ticket × Ledger
unfolding check_grant claim_grant find_grant
redeem_connection_grant intl decrypt rows now ip hash l =
    let row = find_grant hash l.grants in
    elim (check_grant intl decrypt rows now row) [
      | err e ↦ (err e, log_refusal e row l)
      | ok t ↦ released t l (claim_grant now ip t l)
    ]

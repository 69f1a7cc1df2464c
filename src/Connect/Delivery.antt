-- ===== src/Connect/Delivery.antt =====
-- A grant that is redeemed in time.
use rem0te.Rbac.Actor.{Actor}
use rem0te.Connect.{Rows, Node, Computer, authorize_connect, live_actor}
use rem0te.Prelude.{
  refl, update_many, String, Option, ℕ, List, ◌≡◌, none, ok, some, ◌∷◌, ◌≤◌, true, ◌+◌, arith, ltb,
  eq_iff, false,
}
use rem0te.Schedule.{Intl}
use rem0te.Connect.Grant.{
  is_active_user, claim_where, claim_data, grant_created, grant_redeemed, log_entry, Grant,
  redeem_connection_grant, claim_grant, check_grant, create_connection_grant, find_grant, Ticket,
  Ledger, AuditEntry, new_grant, enrolled_node, open_password,
}

-- What a redemption needs at its own time.
pub record IsReady (intl : Intl) (decrypt : String → Option String) (rows : Rows) (now : ℕ)
    (user_id endpoint_id : String) (n : Node) (password : Option String) : Type 0 where
  pub computer : Computer
  pub actor : Actor
  pub is_active : is_active_user (rows.user user_id) ≡ true
  pub is_there : rows.computer endpoint_id ≡ some computer
  pub is_live : live_actor intl rows now user_id computer.endpoint.customer_id ≡ some actor
  pub authorized : authorize_connect intl rows now actor endpoint_id ≡ ok tt
  pub enrolled : enrolled_node computer ≡ some n
  pub opens_password : open_password decrypt n ≡ ok password

check_grant-IsReady :
    (intl : Intl) (decrypt : String → Option String) (rows : Rows) (now : ℕ) (g : Grant) (n : Node)
    (password : Option String)
    → g.used_at ≡ none
    → now ≤ g.expires_at
    → IsReady intl decrypt rows now g.user_id g.endpoint_id n password
    → check_grant intl decrypt rows now (some g)
      ≡ ok (record { grant = g; rustdesk_id = n.rustdesk_id; password = password })
unfolding check_grant
check_grant-IsReady intl decrypt rows now g n password u t r =
    let late : ltb g.expires_at now ≡ false = ground arith in
    ground (
      arith, u, late, r.is_active, r.is_there, r.is_live, r.authorized, r.enrolled,
      r.opens_password,
    )

claim-first :
    (now : ℕ) (ip : Option String) (t : Ticket) (gs : List Grant) (log : List AuditEntry)
    → t.grant.used_at ≡ none
    → claim_grant now ip t (record { grants = t.grant ∷ gs; audits = log })
      ≡ ok (
          log_entry grant_redeemed t.grant.user_id t.grant.id (record {
            grants = (update_many (claim_where t.grant.id) (claim_data now ip) (t.grant ∷ gs)).0;
            audits = log;
          }))
unfolding claim_grant update_many
claim-first now ip t gs log u = ground (arith, eq_iff t.grant.id t.grant.id)

create_ok :
    (intl : Intl) (rows : Rows) (now : ℕ) (actor : Actor) (ip : Option String)
    (endpoint_id id hash : String) (l : Ledger)
    → authorize_connect intl rows now actor endpoint_id ≡ ok tt
    → (create_connection_grant intl rows now actor ip endpoint_id id hash l).1
      ≡ log_entry grant_created actor.user_id id
          (record l { grants = new_grant now actor ip endpoint_id id hash ∷ l.grants })
unfolding create_connection_grant
create_ok intl rows now actor ip endpoint_id id hash l a = ground (arith, a)

find_first : (g : Grant) (gs : List Grant) → find_grant g.token_hash (g ∷ gs) ≡ some g
unfolding find_grant
find_first g gs = ground (arith, eq_iff g.token_hash g.token_hash)

-- A redemption of the newest grant.
redeem_first :
    (intl : Intl) (decrypt : String → Option String) (rows : Rows) (now : ℕ) (ip : Option String)
    (g : Grant) (gs : List Grant) (log : List AuditEntry) (n : Node) (password : Option String)
    → g.used_at ≡ none
    → now ≤ g.expires_at
    → IsReady intl decrypt rows now g.user_id g.endpoint_id n password
    → (redeem_connection_grant intl decrypt rows now ip g.token_hash
        (record { grants = g ∷ gs; audits = log })).0
      ≡ ok (record { grant = g; rustdesk_id = n.rustdesk_id; password = password })
unfolding redeem_connection_grant
redeem_first intl decrypt rows now ip g gs log n password u t r = ground (
  arith,
  find_first g gs,
  check_grant-IsReady intl decrypt rows now g n password u t r,
  claim-first now ip (record { grant = g; rustdesk_id = n.rustdesk_id; password = password }) gs log
      u,
)

-- A grant is delivered: made for somebody who may connect, and redeemed by its token no later
-- than 90 seconds after, while its user may connect and the computer is enrolled with a password
-- that decrypts, it gives the computer's id and password.
pub redeem-create :
    (intl : Intl) (decrypt : String → Option String) (rows rows' : Rows) (now later : ℕ)
    (actor : Actor) (ip ip' : Option String) (endpoint_id id hash : String) (l : Ledger) (n : Node)
    (password : Option String)
    → authorize_connect intl rows now actor endpoint_id ≡ ok tt
    → later ≤ now + 90000
    → IsReady intl decrypt rows' later actor.user_id endpoint_id n password
    → (redeem_connection_grant intl decrypt rows' later ip' hash
        (create_connection_grant intl rows now actor ip endpoint_id id hash l).1).0
      ≡ ok (record {
        grant = new_grant now actor ip endpoint_id id hash;
        rustdesk_id = n.rustdesk_id;
        password = password;
      })
redeem-create intl decrypt rows rows' now later actor ip ip' endpoint_id id hash l n password a t
      r =
    rw (create_ok intl rows now actor ip endpoint_id id hash l a) (
      redeem_first intl decrypt rows' later ip' (new_grant now actor ip endpoint_id id hash)
        l.grants
        (record { action = grant_created; actor_id = actor.user_id; resource_id = id } ∷ l.audits) n
        password refl t r)

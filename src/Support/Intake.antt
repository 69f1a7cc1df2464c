-- ===== src/Support/Intake.antt =====
-- How a request comes in: the intake link of a business, the customer's status link and the portal.
-- The hash and the random tokens are given.
use rem0te.Support.Form.{
  is_bot, is_email, strip_separators, is_remote_id, PublicSubmission, email_ok,
}
use rem0te.Rbac.Actor.{Actor, is_own}
use rem0te.Prelude.Json.{Json}
use rem0te.Support.{
  Status, SupportRequest, Desk, SupportError, Origin, is_open_status, find_request, count_where,
  is_waiting, is_claimed, clean, add_event, found_or, from_scope, forbidden, not_found,
  link_not_active, status_link_not_valid, name_missing, description_missing, bad_email,
  bad_remote_id, desk_full, too_many_waiting, cannot_cancel, computer_not_found, or_none,
}
use rem0te.Rbac.Access.{is_business_owner, require_scope}
use rem0te.Prelude.{
  update_many, append_text, length, is_empty, codes, ℕ, ◌+◌, ◌*◌, ◌==◌, Bool, true, false, ◌&&◌,
  ◌||◌, [], ◌∷◌, if◌then◌else◌, ◌>>=◌, ◌>>◌, List, Option, some, String, ◌++◌, all, leb, str_eq,
  none, ltb, not, Result, err, throw_if, ok, is_some, get_or,
}

abbrev pub status_ttl : ℕ
status_ttl = 7 * 24 * 3600000

abbrev pub public_open_cap : ℕ
public_open_cap = 25

abbrev pub per_ip_open_cap : ℕ
per_ip_open_cap = 3

-- A business, as far as its intake goes.
pub record Customer : Type 0 where
  pub id : String
  pub name : String
  pub support_intake_enabled : Bool
  pub support_intake_slug : Option String
  pub is_active : Bool

unfoldable pub assert_owner_of : Actor → String → Result SupportError (Unit {0})
unfolding is_business_owner
assert_owner_of actor business =
    if is_some actor.technician
    then err forbidden
    else if actor.is_platform_admin
    then ok tt
    else if not (is_business_owner actor) || not (is_own actor.business_id business)
    then err forbidden
    else ok tt

unfoldable pub find_customer : String → List Customer → Option Customer
find_customer id [] = none
find_customer id (c ∷ cs) = if str_eq c.id id then some c else find_customer id cs

unfoldable pub set_customer : Customer → List Customer → List Customer
set_customer c [] = []
set_customer c (x ∷ xs) = (if str_eq x.id c.id then c else x) ∷ set_customer c xs

abbrev pub next_slug : Bool → String → Option String → String
next_slug regenerate new none = new
next_slug regenerate new (some s) = if regenerate || is_empty s then new else s

-- The businesses after it; `new` are twelve random bytes in base64url.
unfoldable pub set_intake :
    Actor
    → Option String
    → Bool
    → Bool
    → String
    → List Customer
    → Result SupportError (List Customer)
unfolding require_scope assert_owner_of find_customer set_customer
set_intake actor business enabled regenerate new customers = do
  id ← from_scope (require_scope actor business)
  assert_owner_of actor id
  c ← found_or not_found (find_customer id customers)
  ok (
      set_customer
        (record c {
          support_intake_enabled = enabled;
          support_intake_slug = some (next_slug regenerate new c.support_intake_slug);
        })
        customers)

-- `[A-Za-z0-9_-]`
abbrev pub is_token_char : ℕ → Bool
is_token_char c =
    leb 65 c && leb c 90 || leb 97 c && leb c 122 || leb 48 c && leb c 57 || c == 95 || c == 45

-- `/^[A-Za-z0-9_-]{n}$/`
unfoldable pub is_token : ℕ → String → Bool
unfolding all
is_token n s = length (codes s) == n && all is_token_char (codes s)

abbrev pub has_slug : String → Customer → Bool
has_slug slug c = is_own c.support_intake_slug slug && c.support_intake_enabled && c.is_active

unfoldable pub find_intake : String → List Customer → Option Customer
find_intake slug [] = none
find_intake slug (c ∷ cs) = if has_slug slug c then some c else find_intake slug cs

unfoldable pub intake_business : String → List Customer → Result SupportError Customer
unfolding is_token find_intake
intake_business slug customers = do
  throw_if (not (is_token 16 slug)) link_not_active
  found_or link_not_active (find_intake slug customers)

abbrev pub is_public : Origin → Bool
is_public Origin.from_public = true
is_public Origin.from_portal = false

abbrev pub open_public : String → SupportRequest → Bool
open_public business r =
    str_eq r.customer_id business && is_public r.origin && is_open_status r.status

abbrev pub open_from : String → String → SupportRequest → Bool
open_from business ip_hash r =
    str_eq r.customer_id business && is_own r.submit_ip_hash ip_hash && is_open_status r.status

unfoldable pub count_from_ip : String → Option String → List SupportRequest → ℕ
unfolding count_where
count_from_ip business none rows = 0
count_from_ip business (some h) rows = count_where (open_from business h) rows

-- `ipHash`, with the key of the process
unfoldable pub ip_hash : (String → String) → String → Option String → Option String
unfolding append_text
ip_hash sha encryption_key none = none
ip_hash sha encryption_key (some ip) =
    if is_empty ip then none else some (sha (append_text encryption_key (append_text ":" ip)))

-- The random values of a submission: the id of the row and the token of its status link.
pub record Fresh : Type 0 where
  pub id : String
  pub token : String

abbrev pub new_request :
    (String → String) → ℕ → Fresh → String → Origin → Option String → Json → SupportRequest
new_request sha now fresh business origin contact phone = record {
  id = fresh.id;
  customer_id = business;
  origin = origin;
  submitted_by_id = none;
  contact_name = contact;
  contact_email = none;
  contact_phone = clean phone 40;
  description = none;
  endpoint_id = none;
  reported_rustdesk_id = none;
  unmanaged = true;
  status = Status.waiting;
  version = 0;
  claimed_by_id = none;
  claimed_at = none;
  closed_at = none;
  outcome = none;
  status_token_hash = sha fresh.token;
  status_expires_at = now + status_ttl;
  submit_ip_hash = none;
  anonymized_at = none;
  created_at = now;
}

abbrev pub add_request : SupportRequest → Desk → Desk
add_request r d = record d { requests = d.requests ++ r ∷ [] }

unfoldable pub origin_name : Origin → String
origin_name Origin.from_public = "PUBLIC"
origin_name Origin.from_portal = "PORTAL"

-- The update of a cancellation by the customer.
abbrev pub cancel_where : String → SupportRequest → Bool
cancel_where id r = str_eq r.id id && (is_waiting r.status || is_claimed r.status)

abbrev pub cancel_data : ℕ → SupportRequest → SupportRequest
cancel_data now r = record r {
  status = Status.canceled;
  closed_at = some now;
  outcome = some "canceled_by_customer";
  version = r.version + 1;
}

abbrev pub open_by : String → SupportRequest → Bool
open_by user r = is_own r.submitted_by_id user && is_open_status r.status

abbrev pub computer_of :
    Option (String × Option String) → Option String → Result SupportError (Option String)
computer_of none own = err computer_not_found
computer_of (some (id, none)) own = err computer_not_found
computer_of (some (id, some b)) own = if is_own own b then ok (some id) else err computer_not_found

-- the computer that a submission names, if it names one
unfoldable pub own_computer :
    (String → Option (String × Option String))
    → Option String
    → Option String
    → Result SupportError (Option String)
own_computer visible own none = ok none
own_computer visible own (some id) = if is_empty id then ok none else computer_of (visible id) own

module _ (sha : String → String) (now : ℕ) where
  -- the token that the customer gets, and the desk after it; the two counts read `before`
  unfoldable pub public_submit :
      List Customer
      → Option String
      → Fresh
      → String
      → PublicSubmission
      → List SupportRequest
      → Desk
      → Result SupportError (String × Desk)
  unfolding intake_business is_bot clean is_email strip_separators is_remote_id count_where
      count_from_ip add_event origin_name
  public_submit customers submit_hash fresh slug body before d = do
    c ← intake_business slug customers
    if is_bot body then ok (fresh.token, d) else do
      name ← found_or name_missing (clean body.name 120)
      description ← found_or description_missing (clean body.description 2000)
      throw_if (not (email_ok (clean body.email 254))) bad_email
      let rid = strip_separators (get_or body.rustdesk_id "")
      throw_if (not (is_empty rid) && not (is_remote_id rid)) bad_remote_id
      throw_if (leb public_open_cap (count_where (open_public c.id) before)) desk_full
      throw_if (leb per_ip_open_cap (count_from_ip c.id submit_hash before)) too_many_waiting
      ok (
        fresh.token,
        add_event fresh.id none "submitted" (("origin", some (origin_name Origin.from_public)) ∷ [])
            (add_request
              (record (new_request sha now fresh c.id Origin.from_public (some name) body.phone) {
                contact_email = clean body.email 254;
                description = some description;
                reported_rustdesk_id = or_none rid;
                submit_ip_hash = submit_hash;
              })
              d),
      )

  unfoldable pub by_status_token : String → List SupportRequest → Result SupportError SupportRequest
  unfolding is_token find_request
  by_status_token token rows = do
    throw_if (not (is_token 43 token)) status_link_not_valid
    r ←
        found_or status_link_not_valid
          (find_request (λ r. str_eq r.status_token_hash (sha token)) rows)
    throw_if (is_some r.anonymized_at || ltb r.status_expires_at now) status_link_not_valid
    ok r

  -- `publicCancel`, up to the status that it shows
  unfoldable pub public_cancel : String → List SupportRequest → Desk → Result SupportError Desk
  unfolding by_status_token update_many add_event
  public_cancel token before d = do
    r ← by_status_token token before
    let (rows, count) = update_many (cancel_where r.id) (cancel_data now) d.requests
    throw_if (count == 0) cannot_cancel
    ok (
        add_event r.id none "canceled" (("by", some "customer") ∷ [])
          (record d { requests = rows }))

  -- `contact` and `email` are those of the user; `visible` looks up a computer that the actor sees,
  -- with its business.
  unfoldable pub portal_submit :
      Actor
      → Option String
      → Option String
      → Fresh
      → Json
      → Json
      → Option String
      → (String → Option (String × Option String))
      → List SupportRequest
      → Desk
      → Result SupportError (String × Desk)
  unfolding clean count_where add_event origin_name
  portal_submit actor contact email fresh description phone endpoint visible before d = do
    throw_if
        (is_some actor.technician
          || is_empty (get_or actor.business_id "")
          || actor.is_platform_admin)
        forbidden
    text ← found_or description_missing (clean description 2000)
    computer ← own_computer visible actor.business_id endpoint
    throw_if (leb per_ip_open_cap (count_where (open_by actor.user_id) before)) too_many_waiting
    ok (
      fresh.token,
      add_event fresh.id (some actor.user_id) "submitted"
          (("origin", some (origin_name Origin.from_portal)) ∷ [])
          (add_request
            (record (new_request sha now fresh (get_or actor.business_id "") Origin.from_portal
              contact phone) {
                submitted_by_id = some actor.user_id;
                contact_email = email;
                description = some text;
                endpoint_id = computer;
                unmanaged = not (is_some computer);
              })
            d),
    )

-- ===== src/Support/Queue.antt =====
-- Taking, handing over, giving back and closing a request: `load` to `forQuickConnect`.
use rem0te.Prelude.Json.{Json}
use rem0te.Rbac.Actor.{Actor, Membership}
use rem0te.Rbac.Technician.{get_scope, BusinessScope}
use rem0te.Support.{
  Status, SupportRequest, Desk, SupportError, is_open_status, find_request, add_event, from_scope,
  found_or, is_taken, is_waiting, is_claimed, clean, not_found, already_yours, changed,
  already_claimed, request_closed, not_claimed, cannot_manage, already_has_it, cannot_handle,
}
use rem0te.Auth.Jwt.{UserStatus}
use rem0te.Auth.ApiKeys.{is_active_status}
use rem0te.Rbac.Capability.{support_requests, effective_capabilities, Capability-discrete}
use rem0te.Rbac.Access.{resolve_scope, is_business_owner, assert_capability}
use rem0te.Prelude.{
  update_many, ℕ, ◌+◌, ◌==◌, Bool, true, false, ◌&&◌, ◌||◌, [], ◌∷◌, if◌then◌else◌, ◌>>=◌, ◌>>◌,
  Option, List, includes, String, none, not, is_some, Result, some, str_eq, throw_if, get_or, ok,
  err,
}

abbrev pub in_scope : Option String → SupportRequest → Bool
in_scope none r = true
in_scope (some b) r = str_eq r.customer_id b

-- `queueScope`
unfoldable pub queue_scope : Actor → Result SupportError (Option String)
unfolding assert_capability resolve_scope
queue_scope actor = do
  from_scope (assert_capability actor (support_requests ∷ []))
  from_scope (resolve_scope actor none)

unfoldable pub load : Actor → String → List SupportRequest → Result SupportError SupportRequest
unfolding queue_scope find_request
load actor id rows = do
  scope ← queue_scope actor
  found_or not_found
      (find_request (λ r. str_eq r.id id && in_scope scope r && not (is_some r.anonymized_at)) rows)

abbrev pub is_by : Option String → String → Bool
is_by none id = false
is_by (some a) id = str_eq a id

unfoldable pub can_manage : Actor → SupportRequest → Bool
unfolding is_business_owner
can_manage actor r =
    is_by r.claimed_by_id actor.user_id || is_business_owner actor && not (is_some actor.technician)

-- The update of `claim`, `where` and `data`.
abbrev pub claim_where : String → ℕ → SupportRequest → Bool
claim_where id version r = str_eq r.id id && is_waiting r.status && r.version == version

abbrev pub claim_data : ℕ → String → SupportRequest → SupportRequest
claim_data now user r = record r {
  status = Status.claimed;
  claimed_by_id = some user;
  claimed_at = some now;
  version = r.version + 1;
}

-- why a claim found nothing to update, of the row as it is now
unfoldable pub claim_conflict : Actor → SupportRequest → SupportError
claim_conflict actor cur =
    if is_by cur.claimed_by_id actor.user_id
    then already_yours
    else if is_waiting cur.status
    then changed
    else if is_some cur.claimed_by_id
    then already_claimed
    else request_closed

unfoldable pub claim :
    ℕ → Actor → String → ℕ → List SupportRequest → Desk → Result SupportError Desk
unfolding load update_many add_event claim_conflict
claim now actor id version before d = do
  r ← load actor id before
  let (rows, count) = update_many (claim_where id version) (claim_data now actor.user_id) d.requests
  if count == 0
      then (load actor id d.requests >>= λ cur. err (claim_conflict actor cur))
      else ok (add_event r.id (some actor.user_id) "claimed" [] (record d { requests = rows }))

pub record Handler : Type 0 where
  pub status : UserStatus
  pub is_platform_admin : Bool
  pub memberships : List Membership
  pub scopes : List BusinessScope

abbrev pub membership_in : String → Membership → Bool
membership_in business m = elim m.customer [ none ↦ false | some b ↦ str_eq b.id business ]

-- the first membership in the business, if it gives the capability
unfoldable pub member_handles : String → List Membership → Bool
unfolding effective_capabilities includes Capability-discrete
member_handles business [] = false
member_handles business (m ∷ ms) =
    let rest = member_handles business ms in
    if membership_in business m
    then includes Capability-discrete support_requests
        (effective_capabilities false (some m.role) m.capabilities)
    else rest

unfoldable pub scope_handles : Option BusinessScope → Bool
unfolding includes Capability-discrete
scope_handles none = false
scope_handles (some s) = includes Capability-discrete support_requests s.capabilities

-- `canHandle`, of the rows of the user; `memberships` are the active ones
unfoldable pub can_handle : Option Handler → String → Bool
unfolding member_handles scope_handles get_scope
can_handle none business = false
can_handle (some h) business =
    if not (is_active_status h.status)
    then false
    else if h.is_platform_admin
    then true
    else member_handles business h.memberships || scope_handles (get_scope business h.scopes)

abbrev pub same_claimer : Option String → Option String → Bool
same_claimer none none = true
same_claimer (some a) (some b) = str_eq a b
same_claimer _ _ = false

abbrev pub handoff_where : String → ℕ → Option String → SupportRequest → Bool
handoff_where id version from r =
    str_eq r.id id && is_taken r.status && r.version == version && same_claimer r.claimed_by_id from

unfoldable pub handoff :
    (String → Option Handler)
    → ℕ
    → Actor
    → String
    → String
    → ℕ
    → Json
    → List SupportRequest
    → Desk
    → Result SupportError Desk
unfolding load can_manage can_handle update_many add_event clean
handoff users now actor id to version note before d = do
  r ← load actor id before
  throw_if (not (is_taken r.status)) not_claimed
  throw_if (not (can_manage actor r)) cannot_manage
  throw_if (is_by r.claimed_by_id to) already_has_it
  throw_if (not (can_handle (users to) r.customer_id)) cannot_handle
  let (rows, count) =
      update_many (handoff_where id version r.claimed_by_id) (claim_data now to) d.requests
  throw_if (count == 0) changed
  ok (
      add_event r.id (some actor.user_id) "handed_off"
        (("from", r.claimed_by_id) ∷ ("to", some to) ∷ ("note", clean note 300) ∷ [])
        (record d { requests = rows }))

abbrev pub taken_where : String → ℕ → SupportRequest → Bool
taken_where id version r = str_eq r.id id && is_taken r.status && r.version == version

abbrev pub release_data : SupportRequest → SupportRequest
release_data r = record r {
  status = Status.waiting;
  claimed_by_id = none;
  claimed_at = none;
  version = r.version + 1;
}

unfoldable pub release : Actor → String → ℕ → List SupportRequest → Desk → Result SupportError Desk
unfolding load can_manage update_many add_event
release actor id version before d = do
  r ← load actor id before
  throw_if (not (can_manage actor r)) cannot_manage
  let (rows, count) = update_many (taken_where id version) release_data d.requests
  throw_if (count == 0) changed
  ok (add_event r.id (some actor.user_id) "released" [] (record d { requests = rows }))

pub data CloseKind : Type 0 where
  as_completed as_canceled : CloseKind

abbrev pub closed_status : CloseKind → Status
closed_status as_completed = Status.completed
closed_status as_canceled = Status.canceled

abbrev pub closable : CloseKind → Status → Bool
closable as_completed s = is_taken s
closable as_canceled s = is_open_status s

abbrev pub close_where : CloseKind → String → ℕ → SupportRequest → Bool
close_where kind id version r = str_eq r.id id && closable kind r.status && r.version == version

abbrev pub close_data : CloseKind → ℕ → Option String → SupportRequest → SupportRequest
close_data kind now outcome r = record r {
  status = closed_status kind;
  closed_at = some now;
  outcome = outcome;
  version = r.version + 1;
}

-- An owner may cancel what waits.
unfoldable pub may_close : CloseKind → Actor → SupportRequest → Bool
unfolding can_manage is_business_owner
may_close as_completed actor r = can_manage actor r
may_close as_canceled actor r = can_manage actor r || is_waiting r.status && is_business_owner actor

abbrev pub close_event : CloseKind → String
close_event as_completed = "completed"
close_event as_canceled = "canceled"

unfoldable pub close :
    ℕ
    → Actor
    → String
    → CloseKind
    → ℕ
    → Json
    → List SupportRequest
    → Desk
    → Result SupportError Desk
unfolding load may_close update_many add_event clean
close now actor id kind version outcome before d = do
  r ← load actor id before
  throw_if (not (may_close kind actor r)) cannot_manage
  let (rows, count) =
      update_many (close_where kind id version) (close_data kind now (clean outcome 300)) d.requests
  throw_if (count == 0) changed
  ok (
      add_event r.id (some actor.user_id) (close_event kind) (("outcome", clean outcome 300) ∷ [])
        (record d { requests = rows }))

abbrev pub quick_where : Actor → String → SupportRequest → Bool
quick_where actor id r =
    str_eq r.id id
    && str_eq r.customer_id (get_or actor.business_id "__none__")
    && is_by r.claimed_by_id actor.user_id
    && is_taken r.status

abbrev pub connect_where : String → SupportRequest → Bool
connect_where id r = str_eq r.id id && is_claimed r.status

abbrev pub connect_data : SupportRequest → SupportRequest
connect_data r = record r { status = Status.connecting }

-- `forQuickConnect`: the version stays.
unfoldable pub for_quick_connect :
    Actor → String → List SupportRequest → Desk → Result SupportError (String × Desk)
unfolding find_request update_many
for_quick_connect actor id before d = do
  r ← found_or not_found (find_request (quick_where actor id) before)
  ok (r.id, record d { requests = (update_many (connect_where r.id) connect_data d.requests).0 })

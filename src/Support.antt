-- ===== src/Support.antt =====
-- Support requests, a queue in front of Connect:
-- apps/api/src/support-requests/support-requests.service.ts. A `load` reads the table as it was
-- then, an update writes the table as it is now.
pub mod Form
pub mod Intake
pub mod StatusLink
pub mod Queue
pub mod Retention
pub mod Lifecycle
mod Tests
use rem0te.Prelude.Json.{Json}
use rem0te.Rbac.Access.{Access}
use Prim.Native.Char.{code}
use rem0te.Prelude.{
  take_text, is_empty, ltb, ℕ, ◌+◌, Bool, true, false, ◌&&◌, ◌||◌, [], ◌∷◌, if◌then◌else◌, trim,
  Option, String, List, ◌++◌, Result, none, err, some, ok, ◌==◌,
}

pub data Status : Type 0 where
  waiting claimed connecting completed canceled expired : Status

pub data Origin : Type 0 where
  from_public from_portal : Origin

pub record SupportRequest : Type 0 where
  pub id : String
  pub customer_id : String
  pub origin : Origin
  pub submitted_by_id : Option String
  pub contact_name : Option String
  pub contact_email : Option String
  pub contact_phone : Option String
  pub description : Option String
  pub endpoint_id : Option String
  pub reported_rustdesk_id : Option String
  pub unmanaged : Bool
  pub status : Status
  pub version : ℕ
  pub claimed_by_id : Option String
  pub claimed_at : Option ℕ
  pub closed_at : Option ℕ
  pub outcome : Option String
  pub status_token_hash : String
  pub status_expires_at : ℕ
  pub submit_ip_hash : Option String
  pub anonymized_at : Option ℕ
  pub created_at : ℕ

-- `detail` is what an event says, in pairs; retention empties it.
pub record RequestEvent : Type 0 where
  pub request_id : String
  pub actor_id : Option String
  pub event : String
  pub detail : Option (List (String × Option String))

pub record Desk : Type 0 where
  pub requests : List SupportRequest
  pub events : List RequestEvent

abbrev pub is_waiting : Status → Bool
is_waiting Status.waiting = true
is_waiting _ = false

-- CLAIMED or CONNECTING
abbrev pub is_taken : Status → Bool
is_taken Status.claimed = true
is_taken Status.connecting = true
is_taken _ = false

abbrev pub is_claimed : Status → Bool
is_claimed Status.claimed = true
is_claimed _ = false

-- `OPEN`
abbrev pub is_open_status : Status → Bool
is_open_status s = is_waiting s || is_taken s

unfoldable pub count_where : (SupportRequest → Bool) → List SupportRequest → ℕ
count_where p [] = 0
count_where p (r ∷ rs) = let rest = count_where p rs in if p r then 1 + rest else rest

unfoldable pub find_request : (SupportRequest → Bool) → List SupportRequest → Option SupportRequest
find_request p [] = none
find_request p (r ∷ rs) = let rest = find_request p rs in if p r then some r else rest

unfoldable pub replace_control : String → String
replace_control String.[] = String.[]
replace_control (String.◌∷◌ c s) =
    let rest = replace_control s in
    if ltb (code c) 32 || code c == 127 then String.◌∷◌ " " rest else String.◌∷◌ c rest

abbrev pub or_none : String → Option String
or_none s = if is_empty s then none else some s

-- `clean`
unfoldable pub clean : Json → ℕ → Option String
unfolding replace_control trim take_text
clean (Json.string s) n = or_none (take_text n (trim (replace_control s)))
clean _ n = none

pub data SupportError : Type 0 where
  forbidden not_found link_not_active status_link_not_valid : SupportError
  name_missing description_missing bad_email bad_remote_id : SupportError
  desk_full too_many_waiting cannot_cancel : SupportError
  already_yours changed already_claimed request_closed not_claimed : SupportError
  cannot_manage already_has_it cannot_handle computer_not_found : SupportError

abbrev pub from_scope {ℓ} : {A : Type ℓ} → Access A → Result SupportError A
from_scope (Access.allowed a) = ok a
from_scope Access.forbidden = err forbidden
from_scope Access.not_found = err not_found

abbrev pub found_or {ℓ} : {A : Type ℓ} → SupportError → Option A → Result SupportError A
found_or e none = err e
found_or e (some a) = ok a

unfoldable pub add_event :
    String → Option String → String → List (String × Option String) → Desk → Desk
add_event id actor event detail d = record d {
  events =
      d.events
      ++ (record { request_id = id; actor_id = actor; event = event; detail = some detail }) ∷ [];
}

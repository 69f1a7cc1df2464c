-- ===== src/Support/StatusLink.antt =====
-- What the status link of a request shows.
use rem0te.Support.{Status, SupportRequest, SupportError, is_open_status, is_taken}
use rem0te.Prelude.{ℕ, Bool, if◌then◌else◌, ◌>>=◌, List, Option, some, String, none, Result, ok}
use rem0te.Support.Intake.{by_status_token}

unfoldable pub status_text : Status → String
status_text Status.waiting = "Waiting for a technician"
status_text Status.claimed = "A technician has picked up your request"
status_text Status.connecting = "A technician is connecting to your computer"
status_text Status.completed = "Your request has been closed"
status_text Status.canceled = "This request was canceled"
status_text Status.expired = "This request expired without being picked up"

-- What a status link shows, besides the name of the business and the time of the last change.
pub record PublicStatus : Type 0 where
  pub status : Status
  pub text : String
  pub technician : Option String
  pub submitted_at : ℕ
  pub is_open : Bool

abbrev pub shown_name : Option String → String
shown_name none = "A technician"
shown_name (some s) = s

abbrev pub name_of : (String → Option String) → Option String → Option String
name_of first_name none = none
name_of first_name (some u) = first_name u

-- `publicStatus`; `first_name` is that of a user, if there is one.
unfoldable pub public_status :
    (String → String)
    → ℕ
    → (String → Option String)
    → String
    → List SupportRequest
    → Result SupportError PublicStatus
unfolding by_status_token status_text
public_status sha now first_name token rows = do
  r ← by_status_token sha now token rows
  ok (record {
    status = r.status;
    text = status_text r.status;
    technician =
        if is_taken r.status then some (shown_name (name_of first_name r.claimed_by_id)) else none;
    submitted_at = r.created_at;
    is_open = is_open_status r.status;
  })

-- ===== src/Support/Lifecycle.antt =====
-- The life of a request, as the steps of the desk: each is an operation that came to its end.
pub mod Changes
pub mod Guards
pub mod Moves
pub mod Versions
use rem0te.Prelude.Json.{Json}
use rem0te.Rbac.Actor.{Actor}
use rem0te.Support.{Status, SupportRequest, Desk}
use rem0te.Support.Queue.{claim, handoff, release, close, for_quick_connect, Handler, CloseKind}
use rem0te.Support.Intake.{public_submit, public_cancel, portal_submit, Customer, Fresh}
use rem0te.Support.Form.{PublicSubmission}
use rem0te.Support.Retention.{retention}
use rem0te.Prelude.{
  ℕ, ◌+◌, Bool, true, false, ◌&&◌, ◌||◌, [], ◌∷◌, none, String, Option, ◌≡◌, List, ok, All, ◌≢◌,
  str_eq,
}

-- The operations that are given the version that their caller saw.
pub data Guarded (id : String) (version : ℕ) (d d' : Desk) : Type 0 where
  claiming :
      (now : ℕ) (actor : Actor) (before : List SupportRequest)
      → claim now actor id version before d ≡ ok d'
      → Guarded id version d d'
  handing :
      (users : String → Option Handler) (now : ℕ) (actor : Actor) (to : String) (note : Json)
      (before : List SupportRequest)
      → handoff users now actor id to version note before d ≡ ok d'
      → Guarded id version d d'
  releasing :
      (actor : Actor) (before : List SupportRequest)
      → release actor id version before d ≡ ok d'
      → Guarded id version d d'
  closing :
      (now : ℕ) (actor : Actor) (kind : CloseKind) (outcome : Json) (before : List SupportRequest)
      → close now actor id kind version outcome before d ≡ ok d'
      → Guarded id version d d'

-- No row has this id: the primary key of a row that is created.
abbrev pub IsNew : String → List SupportRequest → Type 0
IsNew id rows = All (λ r. str_eq r.id id ≡ false) rows

-- `before` is the table at the time of an earlier read, whatever it was.
pub data Step (d d' : Desk) : Type 0 where
  guarded : (id : String) (version : ℕ) → Guarded id version d d' → Step d d'
  connecting :
      (actor : Actor) (id found : String) (before : List SupportRequest)
      → for_quick_connect actor id before d ≡ ok (found, d')
      → Step d d'
  canceling :
      (sha : String → String) (now : ℕ) (token : String) (before : List SupportRequest)
      → public_cancel sha now token before d ≡ ok d'
      → Step d d'
  submitting :
      (sha : String → String) (now : ℕ) (customers : List Customer) (ip : Option String)
      (fresh : Fresh) (slug : String) (body : PublicSubmission) (before : List SupportRequest)
      (token : String)
      → IsNew fresh.id d.requests
      → public_submit sha now customers ip fresh slug body before d ≡ ok (token, d')
      → Step d d'
  asking :
      (sha : String → String) (now : ℕ) (actor : Actor) (contact email : Option String)
      (fresh : Fresh) (description phone : Json) (endpoint : Option String)
      (visible : String → Option (String × Option String)) (before : List SupportRequest)
      (token : String)
      → IsNew fresh.id d.requests
      → portal_submit sha now actor contact email fresh description phone endpoint visible before d
        ≡ ok (token, d')
      → Step d d'
  cleaning :
      (now : ℕ) (hashes : String → String) (counts : ℕ × ℕ)
      → retention now hashes d ≡ (d', counts.0, counts.1)
      → Step d d'

pub data Steps : Desk → Desk → Type 0 where
  stay : {d : Desk} → Steps d d
  then_step : {d e f : Desk} → Steps d e → Step e f → Steps d f

-- What a status says about the claimer and the time of closing.
unfoldable pub Agrees : Status → Option String → Option ℕ → Type 0
Agrees Status.waiting c k = (c ≡ none) × (k ≡ none)
Agrees Status.claimed c k = (c ≢ none) × (k ≡ none)
Agrees Status.connecting c k = (c ≢ none) × (k ≡ none)
Agrees Status.completed c k = k ≢ none
Agrees Status.canceled c k = k ≢ none
Agrees Status.expired c k = k ≢ none

abbrev pub IsSound : SupportRequest → Type 0
IsSound r = Agrees r.status r.claimed_by_id r.closed_at

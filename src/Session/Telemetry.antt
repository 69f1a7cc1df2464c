-- ===== src/Session/Telemetry.antt =====
-- The token of a Connect script: `issueTelemetryToken` of
-- apps/api/src/sessions/session-events.service.ts. The random token and the digest `sha256` are given.
use rem0te.Session.Store.{SessionRow, Db}
use rem0te.Session.Events.{find_token}
use rem0te.Prelude.{
  [], ◌∷◌, none, some, true, false, arith, inl, inr, any, if◌then◌else◌, String, update_many, List,
  Bool, Option, ◌≡◌, Bool-cases, str_eq, eq_iff, Option-cases,
}

abbrev pub is_row : String → SessionRow → Bool
is_row id r = str_eq r.id id

abbrev pub with_token : String → SessionRow → SessionRow
with_token hash r = record r { telemetry_token_hash = some hash }

-- none where there is no such session, and the update throws
unfoldable pub issue_telemetry_token : (String → String) → String → String → Db → Option Db
unfolding update_many any
issue_telemetry_token sha256 token id db =
    if any (is_row id) db.sessions
    then some (record db {
      sessions = (update_many (is_row id) (with_token (sha256 token)) db.sessions).0;
    })
    else none

abbrev pub holds_hash : String → SessionRow → Bool
holds_hash hash r = elim r.telemetry_token_hash [ none ↦ false | some h ↦ str_eq h hash ]

-- A row that is not this session and holds another token, or none, is passed over.
find_skip :
    (hash id : String) (x : SessionRow) (rs : List SessionRow) (o : Option SessionRow)
    → str_eq x.id id ≡ false
    → holds_hash hash x ≡ false
    → find_token hash (update_many (is_row id) (with_token hash) rs).0 ≡ o
    → find_token hash (update_many (is_row id) (with_token hash) (x ∷ rs)).0 ≡ o
unfolding find_token update_many
find_skip hash id x rs o e n h = elim (Option-cases x.telemetry_token_hash) [
  | inl k ↦ ground (arith, e, k, h)
  | inr (g, k) ↦ ground (arith, e, k, h)
]

find-update :
    (hash id : String) (rs : List SessionRow)
    → any (is_row id) rs ≡ true
    → any (holds_hash hash) rs ≡ false
    → (r : SessionRow) × (find_token hash (update_many (is_row id) (with_token hash) rs).0 ≡ some r)
      × (r.id ≡ id)
unfolding find_token update_many any
find-update hash id [] h n = cc
find-update hash id (x ∷ rs) h n = elim (Bool-cases (str_eq x.id id)) [
  | inl e ↦ (with_token hash x, ground (arith, e, eq_iff hash hash), (eq_iff x.id id).0 e)
  | inr e ↦
      let (r, found, same) = find-update hash id rs (ground arith) (ground arith) in
      (r, find_skip hash id x rs (some r) e (ground arith) found, same)
]

-- A token that was issued for a session leads back to it, if no session had that digest before.
find_token-issue :
    (sha256 : String → String) (token id : String) (db db' : Db)
    → issue_telemetry_token sha256 token id db ≡ some db'
    → any (holds_hash (sha256 token)) db.sessions ≡ false
    → (r : SessionRow) × (find_token (sha256 token) db'.sessions ≡ some r) × (r.id ≡ id)
unfolding issue_telemetry_token
find_token-issue sha256 token id db db' h n = elim (Bool-cases (any (is_row id) db.sessions)) [
  | inl e ↦
      let (r, found, same) = find-update (sha256 token) id db.sessions e n in
      let after : (update_many (is_row id) (with_token (sha256 token)) db.sessions).0
          ≡ db'.sessions =
        ground (arith, e) in
      (r, rw (← after) found, same)
  | inr e ↦ absurd (ground (arith, e))
]

-- ===== src/Support/Retention.antt =====
-- `retention`: what waits too long expires, and what was closed long ago loses its contact details.
pub mod Effect
use rem0te.Support.{Status, SupportRequest, RequestEvent, Desk, is_open_status, is_waiting}
use rem0te.Prelude.{
  update_many, zero, suc, ℕ, ◌+◌, ◌*◌, ◌==◌, Bool, true, false, ◌&&◌, ◌||◌, [], ◌∷◌, if◌then◌else◌,
  List, String, Option, some, ltb, not, length, str_eq, none, is_some,
}

abbrev pub waiting_expiry : ℕ
waiting_expiry = 24 * 3600000

abbrev pub anonymize_after : ℕ
anonymize_after = 30 * 24 * 3600000

abbrev pub expire_where : ℕ → SupportRequest → Bool
expire_where now r = is_waiting r.status && ltb (r.created_at + waiting_expiry) now

abbrev pub expire_data : ℕ → SupportRequest → SupportRequest
expire_data now r = record r {
  status = Status.expired;
  closed_at = some now;
  outcome = some "expired_unclaimed";
  version = r.version + 1;
}

abbrev closed_before : ℕ → Option ℕ → Bool
closed_before now none = false
closed_before now (some t) = ltb (t + anonymize_after) now

abbrev pub is_old : ℕ → SupportRequest → Bool
is_old now r =
    not (is_open_status r.status) && not (is_some r.anonymized_at) && closed_before now r.closed_at

-- the ids of the first `n` old requests
unfoldable pub old_ids : ℕ → ℕ → List SupportRequest → List String
old_ids now zero rs = []
old_ids now (suc n) [] = []
old_ids now (suc n) (r ∷ rs) =
    if is_old now r then r.id ∷ old_ids now n rs else old_ids now (suc n) rs

-- `hash` is that of a new random token.
abbrev pub erase : ℕ → String → SupportRequest → SupportRequest
erase now hash r = record r {
  contact_name = none;
  contact_email = none;
  contact_phone = none;
  description = none;
  reported_rustdesk_id = none;
  submit_ip_hash = none;
  anonymized_at = some now;
  status_token_hash = hash;
}

unfoldable pub erase_events : String → List RequestEvent → List RequestEvent
erase_events id [] = []
erase_events id (e ∷ es) =
    (if str_eq e.request_id id then record e { detail = none } else e) ∷ erase_events id es

unfoldable pub anonymize : ℕ → (String → String) → List String → Desk → Desk
unfolding update_many erase_events
anonymize now hashes [] d = d
anonymize now hashes (id ∷ ids) d = anonymize now hashes ids (record {
  requests = (update_many (λ r. str_eq r.id id) (erase now (hashes id)) d.requests).0;
  events = erase_events id d.events;
})

-- One run, with a new random hash for each id, and its two counts.
unfoldable pub retention : ℕ → (String → String) → Desk → Desk × ℕ × ℕ
unfolding update_many old_ids anonymize
retention now hashes d =
    let (rows, expired) = update_many (expire_where now) (expire_data now) d.requests in
    let old = old_ids now 500 rows in
    (anonymize now hashes old (record d { requests = rows }), expired, length old)

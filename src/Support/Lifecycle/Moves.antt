-- ===== src/Support/Lifecycle/Moves.antt =====
-- What each step of the desk does to the table.
use rem0te.Support.{
  Origin, name_missing, description_missing, bad_email, bad_remote_id, desk_full, too_many_waiting,
  or_none, clean, SupportRequest, Desk, add_event, cannot_cancel, is_claimed, found_or,
  SupportError, find_request, count_where,
}
use rem0te.Support.Lifecycle.{Step, IsNew, IsSound, Agrees}
use rem0te.Support.Lifecycle.Changes.{
  Grows, AllGrow, AllGrow-self, AllGrow-trans, update_many-AllGrow, Agrees-taken,
}
use rem0te.Support.Lifecycle.Guards.{Guarded-Won}
use rem0te.Support.Queue.{connect_where, connect_data, for_quick_connect, quick_where}
use rem0te.Support.Intake.{
  cancel_where, cancel_data, public_cancel, by_status_token, public_submit, portal_submit,
  intake_business, public_open_cap, open_public, per_ip_open_cap, count_from_ip, new_request,
  own_computer, open_by,
}
use rem0te.Support.Form.{is_bot, email_ok, strip_separators, is_remote_id}
use rem0te.Support.Retention.{
  expire_where, expire_data, erase, retention, anonymize, old_ids, erase_events,
}
use rem0te.Prelude.{
  update_many, is_empty, is_some, ◌==◌, sym, ap, refl, inl, inr, ◌≡◌, if◌then◌else◌, true, false,
  Bool, ℕ, [], ◌∷◌, ◌++◌, String, List, >>=-eq-ok, arith, str_eq, ok-inj, throw_if-eq-ok,
  Bool-cases, not, get_or, ◌&&◌, leb, some, ◌||◌,
}

-- What one step does to the table: each row grows in its place, or one new row comes last.
pub data Change (rows rows' : List SupportRequest) : Type 0 where
  grown : AllGrow rows rows' → Change rows rows'
  added :
      (r : SupportRequest)
      → IsNew r.id rows
      → IsSound r
      → rows' ≡ rows ++ r ∷ []
      → Change rows rows'

connect_data-Grows : (r : SupportRequest) → is_claimed r.status ≡ true → Grows r (connect_data r)
unfolding Agrees
connect_data-Grows r h = record {
  same_id = refl;
  version_grows = omega arith;
  stays_sound = λ s. Agrees-taken r.status r.claimed_by_id r.closed_at (ground arith) s;
}

cancel_data-Grows : (now : ℕ) (r : SupportRequest) → Grows r (cancel_data now r)
unfolding Agrees
cancel_data-Grows now r = record {
  same_id = refl;
  version_grows = omega arith;
  stays_sound = λ s e. cc;
}

expire_data-Grows : (now : ℕ) (r : SupportRequest) → Grows r (expire_data now r)
unfolding Agrees
expire_data-Grows now r = record {
  same_id = refl;
  version_grows = omega arith;
  stays_sound = λ s e. cc;
}

erase-Grows : (now : ℕ) (hash : String) (r : SupportRequest) → Grows r (erase now hash r)
erase-Grows now hash r = record {
  same_id = refl;
  version_grows = omega arith;
  stays_sound = λ s. s;
}

anonymize-AllGrow :
    (now : ℕ) (hashes : String → String) (ids : List String) (d : Desk)
    → AllGrow d.requests (anonymize now hashes ids d).requests
unfolding anonymize
anonymize-AllGrow now hashes [] d = AllGrow-self d.requests
anonymize-AllGrow now hashes (id ∷ ids) d =
    let next : Desk = record {
      requests = (update_many (λ r. str_eq r.id id) (erase now (hashes id)) d.requests).0;
      events = erase_events id d.events;
    } in
    AllGrow-trans d.requests next.requests (anonymize now hashes ids next).requests
      (update_many-AllGrow (λ r. str_eq r.id id) (erase now (hashes id))
        (λ r _. erase-Grows now (hashes id) r) d.requests)
      (anonymize-AllGrow now hashes ids next)

retention-AllGrow :
    (now : ℕ) (hashes : String → String) (d : Desk)
    → AllGrow d.requests (retention now hashes d).0.requests
unfolding retention
retention-AllGrow now hashes d =
    let rows = (update_many (expire_where now) (expire_data now) d.requests).0 in
    AllGrow-trans d.requests rows (retention now hashes d).0.requests
      (update_many-AllGrow (expire_where now) (expire_data now) (λ r _. expire_data-Grows now r)
        d.requests)
      (anonymize-AllGrow now hashes (old_ids now 500 rows) (record d { requests = rows }))

if-then : {A : Type 0} (b : Bool) (x y z : A) → b ≡ true → (if b then x else y) ≡ z → x ≡ z
if-then true x y z e h = h
if-then false x y z e h = cc

if-else : {A : Type 0} (b : Bool) (x y z : A) → b ≡ false → (if b then x else y) ≡ z → y ≡ z
if-else true x y z e h = cc
if-else false x y z e h = h

pub Step-Change : (d d' : Desk) → Step d d' → Change d.requests d'.requests
unfolding for_quick_connect public_cancel public_submit portal_submit add_event Agrees
Step-Change d d' (Step.guarded id version g) =
    let w = Guarded-Won id version d d' g in
    Change.grown (rw w.after (update_many-AllGrow w.picks w.change w.grows d.requests))
Step-Change d d' (Step.connecting actor id found before h) =
    let (r, _, h1) =
      >>=-eq-ok (found_or SupportError.not_found (find_request (quick_where actor id) before)) _
        h in
    Change.grown (
      rw (sym (ap (λ z. z.1.requests) (ok-inj h1))) (
        update_many-AllGrow (connect_where r.id) connect_data
          (λ r e. connect_data-Grows r (ground (arith, e))) d.requests))
Step-Change d d' (Step.canceling sha now token before h) =
    let (r, _, h1) = >>=-eq-ok (by_status_token sha now token before) _ h in
    let (_, h2) =
      throw_if-eq-ok ((update_many (cancel_where r.id) (cancel_data now) d.requests).1 == 0)
        cannot_cancel _ h1 in
    Change.grown (
      rw (sym (ap (λ z. z.requests) (ok-inj h2))) (
        update_many-AllGrow (cancel_where r.id) (cancel_data now) (λ r _. cancel_data-Grows now r)
          d.requests))
Step-Change d d' (Step.submitting sha now customers ip fresh slug body before token new h) =
    let (c, _, h1) = >>=-eq-ok (intake_business slug customers) _ h in
    elim (Bool-cases (is_bot body)) [
      | inl e ↦
          let same : d ≡ d' = ap (λ z. z.1) (ok-inj (if-then (is_bot body) _ _ _ e h1)) in
          Change.grown (rw (sym (ap (λ z. z.requests) same)) (AllGrow-self d.requests))
      | inr e ↦
          let h2 = if-else (is_bot body) _ _ _ e h1 in
          let (name, _, h3) = >>=-eq-ok (found_or name_missing (clean body.name 120)) _ h2 in
          let (text, _, h4) =
            >>=-eq-ok (found_or description_missing (clean body.description 2000)) _ h3 in
          let (_, h5) = throw_if-eq-ok (not (email_ok (clean body.email 254))) bad_email _ h4 in
          let rid = strip_separators (get_or body.rustdesk_id "") in
          let (_, h6) =
            throw_if-eq-ok (not (is_empty rid) && not (is_remote_id rid)) bad_remote_id _ h5 in
          let (_, h7) =
            throw_if-eq-ok (leb public_open_cap (count_where (open_public c.id) before)) desk_full _
              h6 in
          let (_, h8) =
            throw_if-eq-ok (leb per_ip_open_cap (count_from_ip c.id ip before)) too_many_waiting _
              h7 in
          Change.added
            (record (new_request sha now fresh c.id Origin.from_public (some name) body.phone) {
              contact_email = clean body.email 254;
              description = some text;
              reported_rustdesk_id = or_none rid;
              submit_ip_hash = ip;
            })
            new (refl, refl) (ap (λ z. z.1.requests) (sym (ok-inj h8)))
    ]
Step-Change d d'
      (Step.asking sha now actor contact email fresh description phone endpoint visible before token
        new h) =
    let (_, h1) =
      throw_if-eq-ok
        (is_some actor.technician
          || is_empty (get_or actor.business_id "")
          || actor.is_platform_admin)
        SupportError.forbidden _ h in
    let (text, _, h2) = >>=-eq-ok (found_or description_missing (clean description 2000)) _ h1 in
    let (computer, _, h3) = >>=-eq-ok (own_computer visible actor.business_id endpoint) _ h2 in
    let (_, h4) =
      throw_if-eq-ok (leb per_ip_open_cap (count_where (open_by actor.user_id) before))
        too_many_waiting _ h3 in
    Change.added
      (record (new_request sha now fresh (get_or actor.business_id "") Origin.from_portal contact
        phone) {
          submitted_by_id = some actor.user_id;
          contact_email = email;
          description = some text;
          endpoint_id = computer;
          unmanaged = not (is_some computer);
        })
      new (refl, refl) (ap (λ z. z.1.requests) (sym (ok-inj h4)))
Step-Change d d' (Step.cleaning now hashes counts h) =
    Change.grown (rw (sym (ap (λ z. z.0.requests) h)) (retention-AllGrow now hashes d))

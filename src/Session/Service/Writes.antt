-- ===== src/Session/Service/Writes.antt =====
-- Who changes a session, and what a refused request leaves behind.
use rem0te.Prelude.Json.{Fields}
use rem0te.Rbac.Actor.{Actor}
use rem0te.Session.State.{EventType, EventInput}
use rem0te.Session.Machine.{apply_session_event}
use rem0te.Session.Store.{SessionRow, Db, find_row, is_duplicate}
use rem0te.Session.Events.{commit, decide, Options, Round}
use rem0te.Session.Events.Alone.{
  alone, answer, commit_row, attempt-decide, record_event-last, record_event-unchanged,
}
use rem0te.Session.Service.{
  handle, complete, cancel, add_event, transition, is_applied, open_for_mutation, ServiceError,
  Request, by_technician, technician_options, is_event_name, reported_type, closed_by_another,
  Handled, report, bad_event, applied_or, when_open, does_not_apply,
}
use rem0te.Prelude.{
  refl, ap, ◌∙◌, ◌≡◌, inl, inr, true, false, Bool, not, Bool-cases, if◌then◌else◌, arith, String,
  Option, none, ok, some, ℕ, Result, err,
}
use rem0te.Session.Service.Rights.{MayChange, open_for_mutation-found}

when_open-ok :
    (m : Result ServiceError SessionRow) (go : Handled) (db : Db)
    → (when_open m go db).0 ≡ ok tt
    → (r : SessionRow) × (m ≡ ok r)
when_open-ok (err e) go db h = cc
when_open-ok (ok r) go db h = (r, refl)

when_open-err :
    (m : Result ServiceError SessionRow) (go : Handled) (db : Db) (e : ServiceError)
    → ((r : SessionRow) → m ≡ ok r → go.0 ≡ err e → go.1 ≡ db)
    → (when_open m go db).0 ≡ err e
    → (when_open m go db).1 ≡ db
when_open-err (err e') go db e step h = refl
when_open-err (ok r) go db e step h = step r refl h

if_ok :
    (b : Bool) (e : ServiceError) (x y : Handled)
    → x.0 ≡ err e
    → (if b then x else y).0 ≡ ok tt
    → (b ≡ false) × (y.0 ≡ ok tt)
if_ok true e x y refused h = cc
if_ok false e x y refused h = (refl, h)

module _ (now : ℕ) (others : ℕ → Db → Db) (actor : Actor) (id : String) where
  handle-opened :
      (req : Request) (db : Db)
      → (handle now others actor id req db).0 ≡ ok tt
      → (r : SessionRow) × (open_for_mutation actor id db.sessions ≡ ok r)
  unfolding handle complete cancel add_event
  handle-opened (Request.completes dto) db h =
      when_open-ok (open_for_mutation actor id db.sessions) _ db h
  handle-opened Request.cancels db h = when_open-ok (open_for_mutation actor id db.sessions) _ db h
  handle-opened (Request.reports event metadata) db h =
      when_open-ok (open_for_mutation actor id db.sessions)
        (report now others actor id (reported_type event) metadata db) db
        (if_ok (not (is_event_name event)) bad_event (err bad_event, db) _ refl h).1

  -- Whoever gets a completion, a cancellation or a report through, whatever other requests do
  -- meanwhile, found the session open and is a Platform Admin, or has it in their own business and
  -- runs it or is an owner.
  pub handle-MayChange :
      (req : Request) (db : Db)
      → (handle now others actor id req db).0 ≡ ok tt
      → MayChange actor id db.sessions
  handle-MayChange req db h =
      let (r, opened) = handle-opened req db h in
      (open_for_mutation-found actor id db.sessions r opened).0

decide_applied :
    (input : EventInput) (opts : Options) (r : SessionRow) (now : Db)
    → (apply_session_event r.session input).applied ≡ true
    → decide input opts (some r) now ≡ commit input opts r (apply_session_event r.session input) now
unfolding decide
decide_applied input opts r now h = ground (arith, h)

transition-refused :
    (now : ℕ) (actor : Actor) (id : String) (type : EventType) (metadata : Fields) (db : Db)
    (r : SessionRow)
    → find_row id db.sessions ≡ some r
    → is_applied (transition now alone actor id type metadata db).0 ≡ false
    → (transition now alone actor id type metadata db).1 ≡ db
unfolding transition
transition-refused now actor id type metadata db r found h =
    let input = by_technician now type in
    let opts = technician_options actor type metadata in
    elim (Bool-cases (is_duplicate id opts.dedupe_key db.events)) [
      | inl e ↦ record_event-unchanged input opts id db r found (inl e)
      | inr fresh ↦ elim (Bool-cases (apply_session_event r.session input).applied) [
        | inr e ↦ record_event-unchanged input opts id db r found (inr (refl, e))
        | inl e ↦
            let (out, _, _) = commit_row input opts id db r found fresh in
            let done =
              attempt-decide input opts id db db r found
              ∙ decide_applied input opts r db e
              ∙ ap (λ o. (o, (commit input opts r (apply_session_event r.session input) db).1))
                  out in
            let last = record_event-last input opts id db _ (answer r input) done in
            absurd (ground (arith, h, e, ap (λ z. is_applied z.0) last))
      ]
    ]

refused-applied : (r : Round) (e e' : ServiceError) → applied_or e r ≡ err e' → is_applied r ≡ false
refused-applied r e e' h = ground (arith, h)

report-refused :
    (now : ℕ) (actor : Actor) (id : String) (type : Option EventType) (metadata : Fields) (db : Db)
    (r : SessionRow) (e : ServiceError)
    → find_row id db.sessions ≡ some r
    → (report now alone actor id type metadata db).0 ≡ err e
    → (report now alone actor id type metadata db).1 ≡ db
unfolding report
report-refused now actor id none metadata db r e found h = refl
report-refused now actor id (some type) metadata db r e found h =
    transition-refused now actor id type metadata db r found
      (refused-applied (transition now alone actor id type metadata db).0 does_not_apply e h)

if_refused :
    (b : Bool) (x y : Handled) (db : Db) (e : ServiceError)
    → x.1 ≡ db
    → (y.0 ≡ err e → y.1 ≡ db)
    → (if b then x else y).0 ≡ err e
    → (if b then x else y).1 ≡ db
if_refused true x y db e kept step h = kept
if_refused false x y db e kept step h = step h

-- With no other request in between, a completion, a cancellation or a report that is refused
-- leaves every table as it was.
pub handle-refused :
    (now : ℕ) (actor : Actor) (id : String) (req : Request) (db : Db) (e : ServiceError)
    → (handle now alone actor id req db).0 ≡ err e
    → (handle now alone actor id req db).1 ≡ db
unfolding handle complete cancel add_event
handle-refused now actor id (Request.completes dto) db e h =
    when_open-err (open_for_mutation actor id db.sessions) _ db e
      (λ r k g. ground (
        arith,
        g,
        transition-refused now actor id EventType.technician_completed Fields.end db
            ((open_for_mutation-found actor id db.sessions r k).1.0)
            ((open_for_mutation-found actor id db.sessions r k).1.1),
      ))
      h
handle-refused now actor id Request.cancels db e h =
    when_open-err (open_for_mutation actor id db.sessions) _ db e
      (λ r k g.
        let (x, found) = (open_for_mutation-found actor id db.sessions r k).1 in
        transition-refused now actor id EventType.technician_canceled Fields.end db x found (
          refused-applied
            (transition now alone actor id EventType.technician_canceled Fields.end db).0
            closed_by_another e g))
      h
handle-refused now actor id (Request.reports event metadata) db e h =
    if_refused (not (is_event_name event)) (err bad_event, db) _ db e refl
      (λ g.
        when_open-err (open_for_mutation actor id db.sessions) _ db e
          (λ r k g'.
            let (x, found) = (open_for_mutation-found actor id db.sessions r k).1 in
            report-refused now actor id (reported_type event) metadata db x e found g')
          g)
      h

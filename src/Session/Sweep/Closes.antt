-- ===== src/Session/Sweep/Closes.antt =====
-- What a sweep closes, and how: the rows that it selects are silent for too long, and each ends as a
-- timeout.
use rem0te.Session.Sweep.Stale.{Moved, record_event-Moved}
use rem0te.Session.State.{Session, SessionStatus, SessionStatus-discrete, EventType, EndReason}
use rem0te.Session.Machine.{after, apply_session_event, dispatch, terminal, is_confirmed}
use rem0te.Session.Store.{SessionRow, Db, find_row}
use rem0te.Session.Events.{record_event, Round, raised}
use rem0te.Session.Events.Alone.{alone, row_after}
use rem0te.Session.Sweep.{go_on, time_out, timed_out, timeout_options}
use rem0te.Prelude.{
  ℕ, [], ◌∷◌, List, String, refl, Bool-cases, inl, inr, ap, ◌∙◌, ◌≡◌, ◌⊎◌, some, none, true, sym,
  Any, Option, includes,
}

-- Closed as unknown, with no duration.
pub record IsUnknown (s : Session) : Type 0 where
  pub status : s.status ≡ SessionStatus.status_unknown
  pub reason : s.end_reason ≡ some EndReason.no_signal_timeout
  pub no_duration : s.duration ≡ none

-- Completed by inference, with no duration.
pub record IsInferred (s : Session) : Type 0 where
  pub status : s.status ≡ SessionStatus.session_completed
  pub reason : s.end_reason ≡ some EndReason.no_end_signal_timeout
  pub inferred : s.end_inferred ≡ true
  pub no_duration : s.duration ≡ none

pub after-timeout_unknown :
    (now : ℕ) (s : Session)
    → (after s (timed_out now EventType.timeout_unknown) ≡ s)
      ⊎ IsUnknown (after s (timed_out now EventType.timeout_unknown))
unfolding after apply_session_event dispatch includes
after-timeout_unknown now s =
    elim (Bool-cases (includes SessionStatus-discrete s.status terminal)) [
      | inl e ↦ inl (rw e refl)
      | inr e ↦ elim (Bool-cases (is_confirmed s.status)) [
        | inl k ↦ inl (rw (e, k) refl)
        | inr k ↦ inr (rw (e, k) (record { status = refl; reason = refl; no_duration = refl }))
      ]
    ]

pub after-timeout_ended :
    (now : ℕ) (s : Session)
    → (after s (timed_out now EventType.timeout_ended) ≡ s)
      ⊎ IsInferred (after s (timed_out now EventType.timeout_ended))
unfolding after apply_session_event dispatch includes
after-timeout_ended now s = elim (Bool-cases (includes SessionStatus-discrete s.status terminal)) [
  | inl e ↦ inl (rw e refl)
  | inr e ↦ elim (Bool-cases (is_confirmed s.status)) [
    | inl k ↦
        inr
          (rw (e, k) (record { status = refl; reason = refl; inferred = refl; no_duration = refl }))
    | inr k ↦ inl (rw (e, k) refl)
  ]
]

some_inj : (a b : SessionRow) → some a ≡ some b → a ≡ b
some_inj a b h = cc

go_on-db :
    (P : Db → Type 0) (next : Db) (rest : Db × Option ℕ) (r : Round)
    → P next
    → P rest.0
    → P (go_on r rest next).0
unfolding go_on
go_on-db P next rest raised h k = h
go_on-db P next rest _ h k = k

module _ (Done : Session → Type 0) (now : ℕ) (type : EventType) (key : String)
    (step : (s : Session)
      → (after s (timed_out now type) ≡ s) ⊎ Done (after s (timed_out now type)))
    (id : String) where
  unfoldable pub Ended : Db → Type 0
  Ended db = (r : SessionRow) × (find_row id db.sessions ≡ some r) × Done r.session

  -- The row of the id is as it was, or it is among the ids of the sweep and ended.
  unfoldable pub Swept : SessionRow → List String → Db → Type 0
  unfolding Ended
  Swept r ids db = (find_row id db.sessions ≡ some r) ⊎ (Any (λ i. i ≡ id) ids × Ended db)

  abbrev next_db : String → Db → Db
  next_db i db = (record_event (timed_out now type) (timeout_options key) alone i db).1

  one_stays : (i : String) (db : Db) → Ended db → Ended (next_db i db)
  unfolding Ended Moved
  one_stays i db (r, found, done) =
      elim (record_event-Moved (timed_out now type) (timeout_options key) refl id i db) [
        | inl same ↦ (r, same ∙ found, done)
        | inr (e, (x, fx, row)) ↦
            let eq : x ≡ r = some_inj x r (sym fx ∙ found) in
            elim (step r.session) [
              | inl kept ↦ (row_after x (timed_out now type), row, rw (eq, kept) done)
              | inr more ↦ (row_after x (timed_out now type), row, rw eq more)
            ]
      ]

  one_sweeps :
      (i : String) (db : Db) (r : SessionRow)
      → find_row id db.sessions ≡ some r
      → (find_row id (next_db i db).sessions ≡ some r) ⊎ ((i ≡ id) × Ended (next_db i db))
  unfolding Ended Moved
  one_sweeps i db r found =
      elim (record_event-Moved (timed_out now type) (timeout_options key) refl id i db) [
        | inl same ↦ inl (same ∙ found)
        | inr (e, (x, fx, row)) ↦
            let eq : x ≡ r = some_inj x r (sym fx ∙ found) in
            elim (step r.session) [
              | inl kept ↦ inl (
                  row
                  ∙ ap some (
                      ap (λ y. row_after y (timed_out now type)) eq
                      ∙ ap (λ s. record r { session = s }) kept))
              | inr done ↦ inr (e, (row_after x (timed_out now type), row, rw eq done))
            ]
      ]

  time_out-Ended :
      (ids : List String) (db : Db) → Ended db → Ended (time_out now (λ i. alone) type key ids db).0
  unfolding time_out
  time_out-Ended [] db h = h
  time_out-Ended (i ∷ ids) db h =
      let one = one_stays i db h in
      go_on-db Ended (next_db i db) (time_out now (λ i. alone) type key ids (next_db i db))
        (record_event (timed_out now type) (timeout_options key) alone i db).0 one
        (time_out-Ended ids (next_db i db) one)

  pub time_out-Swept :
      (ids : List String) (db : Db) (r : SessionRow)
      → find_row id db.sessions ≡ some r
      → Swept r ids (time_out now (λ i. alone) type key ids db).0
  unfolding time_out Swept
  time_out-Swept [] db r found = inl found
  time_out-Swept (i ∷ ids) db r found =
      let next = next_db i db in
      let rest = time_out now (λ i. alone) type key ids next in
      let round = (record_event (timed_out now type) (timeout_options key) alone i db).0 in
      elim (one_sweeps i db r found) [
        | inl kept ↦
            go_on-db (Swept r (i ∷ ids)) next rest round (inl kept)
              (elim (time_out-Swept ids next r kept) [
                | inl k ↦ inl k
                | inr (at, done) ↦ inr (inr at, done)
              ])
        | inr (e, done) ↦
            go_on-db (Swept r (i ∷ ids)) next rest round (inr (inl e, done))
              (inr (inl e, time_out-Ended ids next done))
      ]

-- ===== src/Session/Sweep/Stale.antt =====
-- What a sweep closes, when no other request comes in between.
use rem0te.Session.State.{EventInput, Change}
use rem0te.Session.Machine.{apply_session_event}
use rem0te.Session.Store.{SessionRow, Db, find_row, is_current, update_rows, is_duplicate}
use rem0te.Session.Events.{record_event, Options, attempt, commit, decide}
use rem0te.Session.Events.Alone.{
  alone, row_after, record_event-after, record_event-unchanged, record_event-last, attempt-decide,
  answer, commit_row, decide-commit, id-find_row,
}
use mathlib.Core.Path.{subst}
use rem0te.Prelude.{
  [], ◌∷◌, List, String, refl, arith, str_eq, eq_iff, Bool-cases, Option-cases, inl, inr, ap, ◌∙◌,
  ◌≡◌, ◌⊎◌, some, none, false,
}

find_row-update_rows-other :
    (id : String) (rs : List SessionRow) (r : SessionRow) (patch : List Change)
    → str_eq r.id id ≡ false
    → find_row id (update_rows (is_current r) patch rs) ≡ find_row id rs
unfolding find_row update_rows
find_row-update_rows-other id [] r patch n = refl
find_row-update_rows-other id (x ∷ rs) r patch n = elim (Bool-cases (is_current r x)) [
  | inl e ↦
      let same : x.id ≡ r.id = ground (arith, e, eq_iff x.id r.id, eq_iff r.id x.id) in
      let other : str_eq x.id id ≡ false = rw same n in
      rw (e, other) (find_row-update_rows-other id rs r patch n)
  | inr e ↦ rw (e, find_row-update_rows-other id rs r patch n) refl
]

-- What one event that need not be applied does to the row of an id.
unfoldable pub Moved : EventInput → String → String → Db → Db → Type 0
Moved input id i db db' =
    (find_row id db'.sessions ≡ find_row id db.sessions)
    ⊎ ((i ≡ id)
        × ((r : SessionRow) × (find_row id db.sessions ≡ some r)
            × (find_row id db'.sessions ≡ some (row_after r input))))

module _ (input : EventInput) (opts : Options) (loose : opts.require_applied ≡ false) where
  commit-other :
      (id i : String) (db : Db) (r : SessionRow)
      → str_eq r.id id ≡ false
      → find_row id (commit input opts r (apply_session_event r.session input) db).1.sessions
        ≡ find_row id db.sessions
  unfolding commit
  commit-other id i db r n = ground (
    arith,
    find_row-update_rows-other id db.sessions r (apply_session_event r.session input).patch n,
  )

  record_event-commit :
      (i : String) (db : Db) (r : SessionRow)
      → find_row i db.sessions ≡ some r
      → is_duplicate i opts.dedupe_key db.events ≡ false
      → (record_event input opts alone i db).1
        ≡ (commit input opts r (apply_session_event r.session input) db).1
  record_event-commit i db r found fresh =
      let (out, row, timeline) = commit_row input opts i db r found fresh in
      let done =
        attempt-decide input opts i db db r found
        ∙ decide-commit input opts r db loose
        ∙ ap (λ o. (o, (commit input opts r (apply_session_event r.session input) db).1)) out in
      ap (λ x. x.1) (record_event-last input opts i db _ (answer r input) done)

  missing-unchanged :
      (i : String) (db : Db)
      → find_row i db.sessions ≡ none
      → (record_event input opts alone i db).1 ≡ db
  unfolding record_event attempt decide
  missing-unchanged i db e = ground (arith, e)

  pub record_event-Moved :
      (id i : String) (db : Db) → Moved input id i db (record_event input opts alone i db).1
  unfolding Moved
  record_event-Moved id i db = elim (Option-cases (find_row i db.sessions)) [
    | inl e ↦ inl (ap (λ d. find_row id d.sessions) (missing-unchanged i db e))
    | inr (r, e) ↦ elim (Bool-cases (is_duplicate i opts.dedupe_key db.events)) [
      | inl twice ↦ inl (
          ap (λ d. find_row id d.sessions) (record_event-unchanged input opts i db r e (inl twice)))
      | inr fresh ↦ elim (Bool-cases (str_eq i id)) [
        | inl same ↦
            let eq : i ≡ id = ground (arith, eq_iff i id) in
            let (out, row, timeline) = record_event-after input opts i db r e fresh loose in
            inr (
              eq,
              (
                r,
                rw (← eq) e,
                subst
                    (λ x.
                      find_row x (record_event input opts alone i db).1.sessions
                      ≡ some (row_after r input))
                    eq row,
              ),
            )
        | inr other ↦ inl (
            ap (λ d. find_row id d.sessions) (record_event-commit i db r e fresh)
            ∙ commit-other id i db r (rw (id-find_row i db.sessions r e) other))
      ]
    ]
  ]

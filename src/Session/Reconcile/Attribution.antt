-- ===== src/Session/Reconcile/Attribution.antt =====
-- What a heartbeat may do to the sessions of its computer.
use rem0te.Session.State.{apply_patch, set_last_signal_at}
use rem0te.Session.Reconcile.{
  reconcile_endpoint_signal, attribute, note_ambiguous, refresh, keep, is_started, is_candidate,
  open_on, note_one,
}
use rem0te.Session.Store.{update_rows, SessionRow, Db}
use rem0te.Prelude.{
  ℕ, ◌≤◌, ◌<◌, ◌≡◌, refl, inl, inr, Bool, Option, some, List, [], ◌∷◌, arith, Bool-cases, Forall₂,
  String, str_eq, length, ◌&&◌, leb, lt→ltb, ◌∙◌,
}

sessions-note_one :
    (active n observed : ℕ) (c : SessionRow) (db : Db)
    → (note_one active n observed c db).sessions ≡ db.sessions
unfolding note_one
sessions-note_one active n observed c db = ground arith

sessions-note_ambiguous :
    (active n observed : ℕ) (cs : List SessionRow) (db : Db)
    → (note_ambiguous active n observed cs db).sessions ≡ db.sessions
unfolding note_ambiguous
sessions-note_ambiguous active n observed [] db = refl
sessions-note_ambiguous active n observed (c ∷ cs) db =
    sessions-note_ambiguous active n observed cs (note_one active n observed c db)
    ∙ sessions-note_one active n observed c db

-- The rows are the same but for the time of the last signal.
abbrev pub SameButSignal : SessionRow → SessionRow → Type 0
SameButSignal r r' =
    r' ≡ record r { session = record r.session { last_signal_at = r'.session.last_signal_at } }

Same-refl : (rs : List SessionRow) → Forall₂ SameButSignal rs rs
Same-refl [] = tt
Same-refl (r ∷ rs) = (refl, Same-refl rs)

Same-trans :
    (rs ss ts : List SessionRow)
    → Forall₂ SameButSignal rs ss
    → Forall₂ SameButSignal ss ts
    → Forall₂ SameButSignal rs ts
Same-trans [] [] [] h k = tt
Same-trans (a ∷ rs) (b ∷ ss) (c ∷ ts) h k = (ground arith, Same-trans rs ss ts h.1 k.1)
Same-trans [] (b ∷ ss) ts h k = elim h [ ]
Same-trans (a ∷ rs) [] ts h k = elim h [ ]
Same-trans [] [] (c ∷ ts) h k = elim k [ ]
Same-trans (a ∷ rs) (b ∷ ss) [] h k = elim k [ ]

Same-update_rows :
    (p : SessionRow → Bool) (t : Option ℕ) (rs : List SessionRow)
    → Forall₂ SameButSignal rs (update_rows p (set_last_signal_at t ∷ []) rs)
unfolding update_rows apply_patch
Same-update_rows p t [] = tt
Same-update_rows p t (r ∷ rs) = (ground arith, Same-update_rows p t rs)

Same-refresh :
    (observed : ℕ) (ss : List SessionRow) (db : Db)
    → Forall₂ SameButSignal db.sessions (refresh observed ss db).sessions
unfolding refresh
Same-refresh observed [] db = Same-refl db.sessions
Same-refresh observed (s ∷ ss) db =
    Same-trans db.sessions _ _
      (Same-update_rows (λ r. str_eq r.id s.id && is_started r) (some observed) db.sessions)
      (Same-refresh observed ss _)

attribute-sessions :
    (received : ℕ) (others : ℕ → Db → Db) (active observed : ℕ) (cs : List SessionRow) (db : Db)
    → 2 ≤ length cs
    → (attribute received others active observed cs db).sessions ≡ db.sessions
unfolding attribute
attribute-sessions received others active observed [] db h = absurd (omega arith)
attribute-sessions received others active observed (c ∷ []) db h = absurd (omega arith)
attribute-sessions received others active observed (c ∷ d ∷ cs) db h =
    sessions-note_ambiguous active (length (c ∷ d ∷ cs)) observed (c ∷ d ∷ cs) db

-- The launches of a computer that a new connection could belong to.
abbrev pub candidates : String → ℕ → Db → List SessionRow
candidates endpoint observed db = keep (is_candidate observed) (open_on endpoint db)

-- Where two or more recent launches could own a connection, none is confirmed: no session changes
-- but in the time of its last signal.
pub reconcile-ambiguous :
    (received : ℕ) (others : ℕ → Db → Db) (endpoint : String) (active observed : ℕ) (db : Db)
    → 0 < active
    → 2 ≤ length (candidates endpoint observed db)
    → Forall₂ SameButSignal db.sessions
        (reconcile_endpoint_signal received others endpoint active observed db).sessions
unfolding reconcile_endpoint_signal
reconcile-ambiguous received others endpoint active observed db a h =
    rw (lt→ltb 0 active a) (elim (Bool-cases few) [
      | inl e ↦ rw e (Same-refresh observed confirmed db)
      | inr e ↦ rw e (
          rw
            (attribute-sessions received others active observed (candidates endpoint observed db)
              (refresh observed confirmed db) h)
            (Same-refresh observed confirmed db))
    ])
  where
    confirmed : List SessionRow
    confirmed = keep is_started (open_on endpoint db)

    few : Bool
    few = leb active (length (keep is_started (open_on endpoint db)))

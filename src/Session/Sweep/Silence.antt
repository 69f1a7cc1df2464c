-- ===== src/Session/Sweep/Silence.antt =====
-- Which sessions a sweep may close.
use rem0te.Session.State.{Session, SessionStatus, SessionStatus-discrete, EventType, EventSource}
use rem0te.Session.Store.{SessionRow, Db, find_row}
use rem0te.Session.Events.Alone.{alone}
use rem0te.Session.Sweep.Closes.{
  IsUnknown, IsInferred, Ended, Swept, time_out-Swept, after-timeout_unknown, after-timeout_ended,
}
use rem0te.Session.Sweep.{
  first_ids, is_early_stale, is_opened_stale, is_abandoned, is_status, is_before_opening,
  expire_stale_sessions, close_abandoned_sessions,
}
use rem0te.Prelude.{
  ◌++◌, ℕ, [], ◌∷◌, List, String, refl, arith, Bool-cases, inl, inr, ◌≡◌, ◌⊎◌, some, none, true,
  false, Any, ◌<◌, ◌+◌, ◌*◌, Option, Bool, same_iff, zero, suc,
}

-- Not opened in the minutes after its creation, or opened and not confirmed for twelve hours.
pub record IsStale (now minutes : ℕ) (r : SessionRow) : Type 0 where
  pub why :
      ((r.is_ad_hoc ≡ false)
        × ((r.session.status ≡ SessionStatus.pending)
            ⊎ ((r.session.status ≡ SessionStatus.launch_requested)
                ⊎ (r.session.status ≡ SessionStatus.launcher_acknowledged)))
        × (r.session.created_at + minutes * 60000 < now))
      ⊎ ((r.session.status ≡ SessionStatus.client_opened)
          × (r.session.created_at + 12 * 3600000 < now))

-- Confirmed, and not reported on since: for an hour, if its computer's agent had confirmed it, or
-- for the hours that are given; with no report at all, for those hours since the confirmation.
pub record IsSilent (now hours : ℕ) (s : Session) : Type 0 where
  pub confirmed : s.status ≡ SessionStatus.session_started
  pub silent :
      ((t : ℕ) × (s.last_signal_at ≡ some t)
        × ((t + hours * 3600000 < now)
            ⊎ ((s.status_source ≡ some EventSource.endpoint_agent) × (t + 60 * 60000 < now))))
      ⊎ ((s.last_signal_at ≡ none)
          × ((t : ℕ) × (s.connection_confirmed_at ≡ some t) × (t + hours * 3600000 < now)))

before_lem :
    (s : SessionStatus)
    → is_before_opening s ≡ true
    → (s ≡ SessionStatus.pending)
      ⊎ ((s ≡ SessionStatus.launch_requested) ⊎ (s ≡ SessionStatus.launcher_acknowledged))
before_lem SessionStatus.pending h = inl refl
before_lem SessionStatus.launch_requested h = inr (inl refl)
before_lem SessionStatus.launcher_acknowledged h = inr (inr refl)
before_lem _ h = cc

early-IsStale :
    (now minutes : ℕ) (r : SessionRow) → is_early_stale now minutes r ≡ true → IsStale now minutes r
unfolding is_early_stale
early-IsStale now minutes r h = record {
  why = inl (ground arith, before_lem r.session.status (ground arith), ground arith);
}

status_lem : (s : SessionStatus) (r : SessionRow) → is_status s r ≡ true → r.session.status ≡ s
status_lem s r h = (same_iff SessionStatus-discrete r.session.status s).0 h

opened-IsStale :
    (now minutes : ℕ) (r : SessionRow) → is_opened_stale now r ≡ true → IsStale now minutes r
unfolding is_opened_stale
opened-IsStale now minutes r h = record {
  why = inr (status_lem SessionStatus.client_opened r (ground arith), ground arith);
}

abandoned-IsSilent :
    (now hours : ℕ) (r : SessionRow) (last : Option ℕ) (source : Option EventSource)
    (since : Option ℕ)
    → r.session.last_signal_at ≡ last
    → r.session.status_source ≡ source
    → r.session.connection_confirmed_at ≡ since
    → is_abandoned now hours r ≡ true
    → IsSilent now hours r.session
unfolding is_abandoned
abandoned-IsSilent now hours r (some t) none since el es ec h = absurd (ground (arith, el, es, h))
abandoned-IsSilent now hours r (some t) (some EventSource.endpoint_agent) since el es ec h =
    record {
      confirmed = status_lem SessionStatus.session_started r (ground arith);
      silent = inl (t, el, inr (es, ground (arith, el, es, h)));
    }
abandoned-IsSilent now hours r (some t) (some x) since el es ec h = record {
  confirmed = status_lem SessionStatus.session_started r (ground arith);
  silent = inl (t, el, inl (ground (arith, el, es, h)));
}
abandoned-IsSilent now hours r none source none el es ec h = absurd (ground (arith, el, ec, h))
abandoned-IsSilent now hours r none source (some t) el es ec h = record {
  confirmed = status_lem SessionStatus.session_started r (ground arith);
  silent = inr (el, (t, ec, ground (arith, el, ec, h)));
}

-- An id of the list is that of a row that the test selects.
first_ids-selected :
    (P : SessionRow → Type 0) (p : SessionRow → Bool)
    → ((r : SessionRow) → p r ≡ true → P r)
    → (n : ℕ) (rs : List SessionRow) (id : String) → Any (λ i. i ≡ id) (first_ids n p rs)
    → Any (λ r. (r.id ≡ id) × P r) rs
unfolding first_ids
first_ids-selected P p f zero rs id h = absurd h
first_ids-selected P p f (suc n) [] id h = absurd h
first_ids-selected P p f (suc n) (r ∷ rs) id h = elim (Bool-cases (p r)) [
  | inl e ↦ elim (rw e at h) [
    | inl same ↦ inl (same, f r e)
    | inr more ↦ inr (first_ids-selected P p f n rs id more)
  ]
  | inr e ↦ inr (first_ids-selected P p f (suc n) rs id (rw e at h))
]

Any-append :
    (id : String) (xs ys : List String)
    → Any (λ i. i ≡ id) (xs ++ ys)
    → Any (λ i. i ≡ id) xs ⊎ Any (λ i. i ≡ id) ys
Any-append id [] ys h = inr h
Any-append id (x ∷ xs) ys (inl e) = inl (inl e)
Any-append id (x ∷ xs) ys (inr h) = elim (Any-append id xs ys h) [
  | inl k ↦ inl (inr k)
  | inr k ↦ inr k
]

-- With no other request in between, the sweep of stale sessions leaves a session as it is, or it was
-- stale and is closed as unknown, for want of a signal and with no duration. An id names one row.
pub expire_stale_sessions-closes :
    (now minutes : ℕ) (db : Db) (id : String) (r : SessionRow)
    → find_row id db.sessions ≡ some r
    → let rows = (expire_stale_sessions now (λ i. alone) minutes db).0.sessions in
      (find_row id rows ≡ some r)
      ⊎ (Any (λ x. (x.id ≡ id) × IsStale now minutes x) db.sessions
          × ((x : SessionRow) × (find_row id rows ≡ some x) × IsUnknown x.session))
unfolding expire_stale_sessions Swept Ended
expire_stale_sessions-closes now minutes db id r found =
    let early = first_ids 500 (is_early_stale now minutes) db.sessions in
    let opened = first_ids 500 (is_opened_stale now) db.sessions in
    elim (time_out-Swept IsUnknown now EventType.timeout_unknown "timeout:unknown"
      (after-timeout_unknown now) id (early ++ opened) db r found) [
        | inl same ↦ inl same
        | inr (at, ended) ↦ inr (
          elim (Any-append id early opened at) [
            | inl k ↦
                first_ids-selected (IsStale now minutes) (is_early_stale now minutes)
                  (early-IsStale now minutes) 500 db.sessions id k
            | inr k ↦
                first_ids-selected (IsStale now minutes) (is_opened_stale now)
                  (opened-IsStale now minutes) 500 db.sessions id k
          ],
          ended,
        )
      ]

-- With no other request in between, the sweep of abandoned sessions leaves a session as it is, or it
-- was confirmed and silent for too long and is completed by inference, with no duration. An id
-- names one row.
pub close_abandoned_sessions-closes :
    (now hours : ℕ) (db : Db) (id : String) (r : SessionRow)
    → find_row id db.sessions ≡ some r
    → let rows = (close_abandoned_sessions now (λ i. alone) hours db).0.sessions in
      (find_row id rows ≡ some r)
      ⊎ (Any (λ x. (x.id ≡ id) × IsSilent now hours x.session) db.sessions
          × ((x : SessionRow) × (find_row id rows ≡ some x) × IsInferred x.session))
unfolding close_abandoned_sessions Swept Ended
close_abandoned_sessions-closes now hours db id r found =
    elim (time_out-Swept IsInferred now EventType.timeout_ended "timeout:ended"
      (after-timeout_ended now) id (first_ids 500 (is_abandoned now hours) db.sessions) db r
      found) [
        | inl same ↦ inl same
        | inr (at, ended) ↦ inr (
          first_ids-selected (λ x. IsSilent now hours x.session) (is_abandoned now hours)
              (λ x.
                abandoned-IsSilent now hours x x.session.last_signal_at x.session.status_source
                  x.session.connection_confirmed_at refl refl refl)
              500 db.sessions id at,
          ended,
        )
      ]

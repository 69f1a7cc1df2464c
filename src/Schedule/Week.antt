-- ===== src/Schedule/Week.antt =====
-- A weekly window as an interval of minutes on the circle of a week.
use rem0te.Schedule.{ScheduleWindow, to_minutes, window_open, includes_day}
use rem0te.Prelude.{
  ℕ, ◌+◌, ◌-◌, ◌*◌, ◌%◌, ◌<◌, ◌≡◌, ◌≢◌, refl, Bool, ◌&&◌, ◌||◌, List, [], ◌∷◌, arith, ltb, leb,
  ◌==◌, any, All, Bool-cases, inl, ltb→lt, inr,
}

abbrev minutes_per_week : ℕ
minutes_per_week = 10080

-- The minutes since the window of day `d` opened, on the circle, are fewer than its length.
unfoldable pub covers : ℕ → ℕ → ℕ → ℕ → Bool
covers start stop t d =
    ltb ((t + minutes_per_week - (d * 1440 + start)) % minutes_per_week)
      ((stop + 1440 - start) % 1440)

-- The minute of the week is in the window that opens on one of the days.
unfoldable pub week_open : ScheduleWindow → ℕ → Bool
unfolding covers any
week_open w t = any (covers (to_minutes w.start) (to_minutes w.stop) t) w.days

covers_same_day :
    (s e day m d : ℕ)
    → s < e
    → e < 1440
    → day < 7
    → m < 1440
    → d < 7
    → covers s e (day * 1440 + m) d ≡ (d == day && leb s m && ltb m e)
unfolding covers
covers_same_day s e day m d h he hd hm hx = ground arith

covers_midnight :
    (s e day m d : ℕ)
    → e < s
    → s < 1440
    → day < 7
    → m < 1440
    → d < 7
    → covers s e (day * 1440 + m) d ≡ (d == day && leb s m || d == (day + 6) % 7 && ltb m e)
unfolding covers
covers_midnight s e day m d h he hd hm hx = ground arith

any-same_day :
    (s e day m : ℕ) (ds : List ℕ)
    → s < e
    → e < 1440
    → day < 7
    → m < 1440
    → All (λ d. d < 7) ds
    → any (covers s e (day * 1440 + m)) ds ≡ (includes_day day ds && leb s m && ltb m e)
unfolding any includes_day
any-same_day s e day m [] h he hd hm hx = refl
any-same_day s e day m (d ∷ ds) h he hd hm hx =
    ground (arith, covers_same_day s e day m d, any-same_day s e day m ds)

any-midnight :
    (s e day m : ℕ) (ds : List ℕ)
    → e < s
    → s < 1440
    → day < 7
    → m < 1440
    → All (λ d. d < 7) ds
    → any (covers s e (day * 1440 + m)) ds
      ≡ (includes_day day ds && leb s m || includes_day ((day + 6) % 7) ds && ltb m e)
unfolding any includes_day
any-midnight s e day m [] h he hd hm hx = refl
any-midnight s e day m (d ∷ ds) h he hd hm hx =
    ground (arith, covers_midnight s e day m d, any-midnight s e day m ds)

-- What `parseSchedule` establishes of a window: real days, and two different times of day.
pub record IsValidWindow (w : ScheduleWindow) : Type 0 where
  pub days : All (λ d. d < 7) w.days
  pub listed : w.days ≢ []
  pub start : to_minutes w.start < 1440
  pub stop : to_minutes w.stop < 1440
  pub differ : to_minutes w.start ≢ to_minutes w.stop

-- The code's test, with its case for windows over midnight and its look at yesterday, is
-- membership in the interval on the circle of the week.
pub window_open-week :
    (w : ScheduleWindow) (day minutes : ℕ)
    → IsValidWindow w
    → day < 7
    → minutes < 1440
    → window_open day minutes w ≡ week_open w (day * 1440 + minutes)
unfolding window_open week_open
window_open-week w day m v hd hm =
    elim (Bool-cases (ltb (to_minutes w.start) (to_minutes w.stop))) [
      | inl h ↦ rw (
        h,
        any-same_day (to_minutes w.start) (to_minutes w.stop) day m w.days (ltb→lt _ _ h) v.stop hd
            hm v.days,
      )
      | inr h ↦ rw (
        h,
        any-midnight (to_minutes w.start) (to_minutes w.stop) day m w.days
            (ground (arith, v.differ)) v.start hd hm v.days,
      )
    ]

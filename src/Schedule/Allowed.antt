-- ===== src/Schedule/Allowed.antt =====
-- When a stored schedule lets somebody in.
use rem0te.Schedule.Valid.{parse_schedule-IsValid}
use rem0te.Schedule.Week.{IsValidWindow, week_open, window_open-week}
use rem0te.Schedule.Parse.{
  stored_schedule_allows, parse_schedule, ScheduleError, thrown, ok, is_null,
}
use rem0te.Schedule.{
  day_index, Intl, ScheduleWindow, is_within_schedule, AccessSchedule, window_open,
}
use rem0te.Prelude.{
  ℕ, ◌+◌, ◌*◌, ◌%◌, ◌<◌, ◌≡◌, refl, false, some, List, [], ◌∷◌, String, arith, any, All,
}
use rem0te.Prelude.Json.{Json}

-- The minute of the week that the zone's wall clock shows.
unfoldable pub week_minute : Intl → ℕ → String → ℕ
week_minute intl at zone =
    day_index (intl.weekday zone at) * 1440 + (intl.hour zone at % 24 * 60 + intl.minute zone at)

day_index_lt : (w : String) → day_index w < 7
day_index_lt w = ground arith

any-week :
    (ws : List ScheduleWindow) (day m : ℕ)
    → All IsValidWindow ws
    → day < 7
    → m < 1440
    → any (window_open day m) ws ≡ any (λ w. week_open w (day * 1440 + m)) ws
unfolding any
any-week [] day m v hd hm = refl
any-week (w ∷ ws) day m v hd hm =
    rw (window_open-week w day m v.0 hd hm, any-week ws day m v.1 hd hm)

is_null-parse_schedule :
    (intl : Intl) (j : Json) (s : AccessSchedule)
    → parse_schedule intl j ≡ ok (some s)
    → is_null j ≡ false
unfolding parse_schedule
is_null-parse_schedule intl j s h = ground arith

-- A stored schedule that parses lets somebody in exactly when the minute of the week on the wall
-- clock of its zone lies in one of its windows, taken as intervals on the circle of the week, if
-- the clock shows a minute below 60.
pub stored_schedule_allows-week :
    (intl : Intl) (stored : Json) (s : AccessSchedule) (at : ℕ)
    → intl.minute s.time_zone at < 60
    → parse_schedule intl stored ≡ ok (some s)
    → stored_schedule_allows intl stored at
      ≡ any (λ w. week_open w (week_minute intl at s.time_zone)) s.windows
unfolding stored_schedule_allows week_minute is_within_schedule
stored_schedule_allows-week intl stored s at hm h =
    rw (is_null-parse_schedule intl stored s h, h)
      (any-week s.windows (day_index (intl.weekday s.time_zone at))
        (intl.hour s.time_zone at % 24 * 60 + intl.minute s.time_zone at)
        (parse_schedule-IsValid intl stored s h).windows
        (day_index_lt (intl.weekday s.time_zone at)) (omega arith))

-- A stored value that is no schedule lets nobody in, at any time; no value lets everybody in.
pub stored_schedule_allows-closed :
    (intl : Intl) (stored : Json) (e : ScheduleError) (at : ℕ)
    → parse_schedule intl stored ≡ thrown e
    → stored_schedule_allows intl stored at ≡ false
unfolding stored_schedule_allows parse_schedule
stored_schedule_allows-closed intl stored e at h = ground arith

-- ===== src/Schedule.antt =====
-- Weekly access windows: apps/api/src/rbac/schedule.ts. What the platform's `Intl` knows of time
-- zones is a parameter.
pub mod Parse
pub mod Week
pub mod Hhmm
pub mod Allowed
pub mod Valid
mod Tests
use rem0te.Prelude.{
  ℕ, zero, suc, ◌+◌, ◌-◌, ◌*◌, ◌/◌, ◌%◌, ◌≤◌, ◌<◌, ◌≡◌, Bool, true, false, not, ◌&&◌, ◌||◌, Option,
  none, some, List, [], ◌∷◌, ◌++◌, String, arith, str_eq, ltb, leb, ◌==◌, if◌then◌else◌, any, codes,
  length,
}
use rem0te.Prelude.Json.{Json}

pub record ScheduleWindow : Type 0 where
  pub days : List ℕ
  pub start : String
  pub stop : String  -- `end`

pub record AccessSchedule : Type 0 where
  pub time_zone : String
  pub windows : List ScheduleWindow

-- The time-zone database: which names it knows, and the parts of an instant in a zone, the hour
-- and the minute as the numbers that `parseInt` reads.
pub record Intl : Type 0 where
  pub is_zone : String → Bool
  pub weekday : String → ℕ → String
  pub hour : String → ℕ → ℕ
  pub minute : String → ℕ → ℕ

abbrev is_digit : ℕ → Bool
is_digit c = leb b'0' c && leb c b'9'

-- `/^([01]\d|2[0-3]):([0-5]\d)$/`
abbrev pub is_hhmm_codes : List ℕ → Bool
is_hhmm_codes (a ∷ b ∷ c ∷ d ∷ e ∷ []) =
    (leb b'0' a && leb a b'1' && is_digit b || a == b'2' && leb b'0' b && leb b b'3')
    && c == b':'
    && leb b'0' d
    && leb d b'5'
    && is_digit e
is_hhmm_codes _ = false

unfoldable pub is_hhmm : String → Bool
is_hhmm s = is_hhmm_codes (codes s)

-- `parseInt` of the digits at the front
parse_int : ℕ → List ℕ → ℕ
parse_int acc [] = acc
parse_int acc (c ∷ cs) =
    let rest = parse_int (acc * 10 + (c - b'0')) cs in if is_digit c then rest else acc

-- what `split(':')` leaves behind the first colon
after_colon : List ℕ → List ℕ
after_colon [] = []
after_colon (c ∷ cs) = if c == b':' then cs else after_colon cs

unfoldable pub minutes_of : List ℕ → ℕ
unfolding parse_int after_colon
minutes_of cs = parse_int 0 cs * 60 + parse_int 0 (after_colon cs)

unfoldable pub to_minutes : String → ℕ
unfolding minutes_of
to_minutes s = minutes_of (codes s)

-- `DAY_INDEX[…] ?? 0`
abbrev pub day_index : String → ℕ
day_index w =
    if str_eq w "Mon"
    then 1
    else if str_eq w "Tue"
    then 2
    else if str_eq w "Wed"
    then 3
    else if str_eq w "Thu"
    then 4
    else if str_eq w "Fri"
    then 5
    else if str_eq w "Sat"
    then 6
    else 0

unfoldable pub includes_day : ℕ → List ℕ → Bool
includes_day d [] = false
includes_day d (x ∷ xs) = x == d || includes_day d xs

-- The test of one window, at a weekday and a minute of the day.
unfoldable pub window_open : ℕ → ℕ → ScheduleWindow → Bool
unfolding includes_day
window_open day minutes w =
    let s = to_minutes w.start in
    let e = to_minutes w.stop in
    let yesterday = (day + 6) % 7 in
    if ltb s e
    then includes_day day w.days && leb s minutes && ltb minutes e
    else includes_day day w.days && leb s minutes || includes_day yesterday w.days && ltb minutes e

module _ (intl : Intl) where
  unfoldable pub is_valid_time_zone : String → Bool
  is_valid_time_zone tz = ltb 0 (length (codes tz)) && leb (length (codes tz)) 64 && intl.is_zone tz

  unfoldable pub local_clock : ℕ → String → ℕ × ℕ
  local_clock at zone =
      (day_index (intl.weekday zone at), intl.hour zone at % 24 * 60 + intl.minute zone at)

  unfoldable pub is_within_schedule : Option AccessSchedule → ℕ → Bool
  unfolding local_clock window_open any
  is_within_schedule none at = true
  is_within_schedule (some schedule) at =
      let (day, minutes) = local_clock at schedule.time_zone in
      any (window_open day minutes) schedule.windows

-- Is a [startsAt, expiresAt) window open? Either bound may be null.
unfoldable pub is_within_dates : Option ℕ → Option ℕ → ℕ → Bool
is_within_dates starts expires at =
    not (elim starts [ none ↦ false | some s ↦ ltb at s ])
    && not (elim expires [ none ↦ false | some e ↦ leb e at ])

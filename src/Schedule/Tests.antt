-- ===== src/Schedule/Tests.antt =====
-- A schedule for Friday nights, read from JSON and asked on a Saturday morning.
use rem0te.Schedule.{Intl, AccessSchedule, is_within_schedule, to_minutes}
use rem0te.Schedule.Parse.{parse_schedule, stored_schedule_allows, ok}
use rem0te.Schedule.Week.{week_open}
use rem0te.Schedule.Allowed.{week_minute, stored_schedule_allows-week}
use rem0te.Schedule.Valid.{IsValidSchedule, parse_schedule-IsValid}
use rem0te.Prelude.{◌≡◌, refl, true, some, [], ◌∷◌, any, arith}
use rem0te.Prelude.Json.{Json, Items, Fields, get_field}

-- A zone in which it is always 01:30 on a Saturday.
abbrev saturday : Intl
saturday = record {
  is_zone = λ z. true;
  weekday = λ z t. "Sat";
  hour = λ z t. 1;
  minute = λ z t. 30;
}

abbrev stored : Json
stored = Json.object (
    Fields.field "timeZone" (Json.string "Europe/London") (
      Fields.field "windows"
        (Json.array (
          Items.cons
            (Json.object (
              Fields.field "days"
                (Json.array (Items.cons (Json.number 5) (Items.cons (Json.number 5) Items.nil)))
                (Fields.field "start" (Json.string "22:00")
                  (Fields.field "end" (Json.string "02:00") Fields.end))))
            Items.nil))
        Fields.end))

abbrev friday_night : AccessSchedule
friday_night = record {
  time_zone = "Europe/London";
  windows = (record { days = 5 ∷ []; start = "22:00"; stop = "02:00" }) ∷ [];
}

parses : parse_schedule saturday stored ≡ ok (some friday_night)
unfolding parse_schedule get_field
parses = refl

parse_schedule-IsValid_example : IsValidSchedule saturday friday_night
parse_schedule-IsValid_example = parse_schedule-IsValid saturday stored friday_night parses

stored_schedule_allows-week_example :
    stored_schedule_allows saturday stored 0
    ≡ any (λ w. week_open w (week_minute saturday 0 "Europe/London")) friday_night.windows
stored_schedule_allows-week_example =
    stored_schedule_allows-week saturday stored friday_night 0 (omega arith) parses

still_open : stored_schedule_allows saturday stored 0 ≡ true
unfolding stored_schedule_allows parse_schedule is_within_schedule get_field to_minutes
still_open = refl

-- ===== src/Schedule/Parse.antt =====
-- `parseSchedule` and `storedScheduleAllows` of apps/api/src/rbac/schedule.ts.
use rem0te.Schedule.{
  is_hhmm, ScheduleWindow, includes_day, Intl, is_valid_time_zone, AccessSchedule,
  is_within_schedule,
}
use rem0te.Prelude.{
  ℕ, suc, ◌+◌, Bool, true, false, not, ◌&&◌, Option, none, some, List, [], ◌∷◌, String, str_eq, ltb,
  leb, if◌then◌else◌,
}
use rem0te.Prelude.Json.{Json, Items, get_field}

-- The messages of the errors that `parseSchedule` throws, the window's number from 1 with some.
pub data ScheduleError : Type 0 where
  not_an_object needs_time_zone needs_windows type_error : ScheduleError
  bad_days bad_times same_times : ℕ → ScheduleError

pub data Parsed {ℓ} (A : Type ℓ) : Type ℓ where
  ok : A → Parsed A
  thrown : ScheduleError → Parsed A

infixl 5 ◌>>=◌
abbrev pub ◌>>=◌ {ℓ κ} : {A : Type ℓ} {B : Type κ} → Parsed A → (A → Parsed B) → Parsed B
ok a >>= f = f a
thrown e >>= f = thrown e

abbrev pub check : Bool → ScheduleError → Parsed (Unit {0})
check true e = ok tt
check false e = thrown e

infixl 5 ◌>>◌
abbrev pub ◌>>◌ {ℓ} : {B : Type ℓ} → Parsed (Unit {0}) → Parsed B → Parsed B
m >> k = m >>= λ _. k

-- `Array.isArray(…) && every(Number.isInteger(d) && d >= 0 && d <= 6)`, as the list of the days
unfoldable pub day_items : Items → Option (List ℕ)
day_items Items.nil = some []
day_items (Items.cons (Json.number d) ds) = elim (day_items ds) [
  | none ↦ none
  | some xs ↦ if leb d 6 then some (d ∷ xs) else none
]
day_items (Items.cons _ ds) = none

unfoldable pub day_list : Json → Option (List ℕ)
unfolding day_items
day_list (Json.array (Items.cons x xs)) = day_items (Items.cons x xs)
day_list _ = none

-- `[...new Set(days)].sort()`
unfoldable pub dedupe : List ℕ → List ℕ → List ℕ
unfolding includes_day
dedupe seen [] = []
dedupe seen (d ∷ ds) =
    let rest = dedupe (d ∷ seen) ds in if includes_day d seen then dedupe seen ds else d ∷ rest

unfoldable pub insert_day : ℕ → List ℕ → List ℕ
insert_day d [] = d ∷ []
insert_day d (x ∷ xs) = if leb d x then d ∷ x ∷ xs else x ∷ insert_day d xs

unfoldable pub sort_days : List ℕ → List ℕ
unfolding insert_day
sort_days [] = []
sort_days (d ∷ ds) = insert_day d (sort_days ds)

abbrev text_of : Json → Option String
text_of (Json.string s) = some s
text_of _ = none

abbrev pub hhmm_of : Json → Option String
hhmm_of j = elim (text_of j) [ none ↦ none | some s ↦ if is_hhmm s then some s else none ]

unfoldable pub finish_window :
    ℕ → Option (List ℕ) → Option String → Option String → Parsed ScheduleWindow
unfolding dedupe sort_days
finish_window i none start stop = thrown (bad_days i)
finish_window i (some ds) none stop = thrown (bad_times i)
finish_window i (some ds) (some s) none = thrown (bad_times i)
finish_window i (some ds) (some s) (some e) =
    if str_eq s e
    then thrown (same_times i)
    else ok (record { days = sort_days (dedupe [] ds); start = s; stop = e })

-- Reading a property of null or undefined throws.
unfoldable pub parse_window : ℕ → Json → Parsed ScheduleWindow
unfolding day_list finish_window is_hhmm
parse_window i Json.null = thrown type_error
parse_window i Json.undefined = thrown type_error
parse_window i w =
    finish_window i (day_list (get_field "days" w)) (hhmm_of (get_field "start" w))
      (hhmm_of (get_field "end" w))

-- the `map` over the windows, the first at number `i`
unfoldable pub parse_windows : ℕ → Items → Parsed (List ScheduleWindow)
unfolding parse_window
parse_windows i Items.nil = ok []
parse_windows i (Items.cons w ws) = do
  win ← parse_window i w
  rest ← parse_windows (i + 1) ws
  ok (win ∷ rest)

unfoldable pub count_items : Items → ℕ
count_items Items.nil = 0
count_items (Items.cons x xs) = suc (count_items xs)

unfoldable pub items_of : Json → Option Items
unfolding count_items
items_of (Json.array xs) =
    if ltb 0 (count_items xs) && leb (count_items xs) 14 then some xs else none
items_of _ = none

abbrev pub is_object : Json → Bool
is_object (Json.object _) = true
is_object (Json.array _) = true
is_object _ = false

abbrev pub is_null : Json → Bool
is_null Json.null = true
is_null Json.undefined = true
is_null _ = false

module _ (intl : Intl) where
  unfoldable pub zone_of : Json → Option String
  unfolding is_valid_time_zone
  zone_of j = elim (text_of j) [
    | none ↦ none
    | some s ↦ if is_valid_time_zone intl s then some s else none
  ]

  unfoldable pub finish : Option String → Option Items → Parsed (Option AccessSchedule)
  unfolding parse_windows
  finish none ws = thrown needs_time_zone
  finish (some z) none = thrown needs_windows
  finish (some z) (some ws) = do
    windows ← parse_windows 1 ws
    ok (some (record { time_zone = z; windows = windows }))

  unfoldable pub parse_schedule : Json → Parsed (Option AccessSchedule)
  unfolding zone_of finish items_of
  parse_schedule input =
      if is_null input
      then ok none
      else if not (is_object input)
      then thrown not_an_object
      else finish (zone_of (get_field "timeZone" input)) (items_of (get_field "windows" input))

  unfoldable pub stored_schedule_allows : Json → ℕ → Bool
  stored_schedule_allows stored at = if is_null stored then true else elim (parse_schedule stored) [
    | ok schedule ↦ is_within_schedule intl schedule at
    | thrown e ↦ false
  ]

-- ===== src/Schedule/Valid.antt =====
-- What a schedule that `parseSchedule` lets through satisfies.
use rem0te.Schedule.Hhmm.{minutes_bound, to_minutes_ne}
use rem0te.Schedule.Week.{IsValidWindow}
use rem0te.Schedule.{ScheduleWindow, is_hhmm, to_minutes, Intl, AccessSchedule, is_valid_time_zone}
use rem0te.Schedule.Parse.{
  day_list, finish_window, sort_days, insert_day, dedupe, day_items, ok, Parsed, parse_windows,
  parse_window, ◌>>=◌, count_items, thrown, finish, zone_of, items_of, parse_schedule, hhmm_of,
  is_null, is_object,
}
use rem0te.Prelude.{
  ℕ, suc, ◌+◌, ◌≤◌, ◌<◌, ◌≡◌, ◌≢◌, inl, inr, refl, true, false, Option, none, some, List, [], ◌∷◌,
  String, arith, str_eq, ap, codes, All, Bool-cases, length,
}
use rem0te.Prelude.Json.{Json, Items, get_field}

abbrev Weekdays : List ℕ → Type 0
Weekdays ds = All (λ d. d < 7) ds

abbrev WeekdaysIn : Option (List ℕ) → Type 0
WeekdaysIn none = Unit
WeekdaysIn (some ds) = Weekdays ds

Weekdays-day_items : (xs : Items) → WeekdaysIn (day_items xs)
unfolding day_items
Weekdays-day_items Items.nil = tt
Weekdays-day_items (Items.cons (Json.number d) xs) = ground (arith, Weekdays-day_items xs)
Weekdays-day_items (Items.cons _ xs) = tt

Weekdays-day_list : (j : Json) → WeekdaysIn (day_list j)
unfolding day_list
Weekdays-day_list (Json.array (Items.cons x xs)) = Weekdays-day_items (Items.cons x xs)
Weekdays-day_list (Json.array Items.nil) = tt
Weekdays-day_list _ = tt

day_list_ne : (j : Json) → day_list j ≢ some []
unfolding day_list day_items
day_list_ne (Json.array (Items.cons (Json.number d) xs)) = ground arith
day_list_ne (Json.array Items.nil) = cc
day_list_ne (Json.array (Items.cons _ xs)) = cc
day_list_ne _ = cc

Weekdays-dedupe : (seen ds : List ℕ) → Weekdays ds → Weekdays (dedupe seen ds)
unfolding dedupe
Weekdays-dedupe seen [] h = tt
Weekdays-dedupe seen (d ∷ ds) h =
    ground (arith, Weekdays-dedupe seen ds, Weekdays-dedupe (d ∷ seen) ds)

Weekdays-insert_day : (d : ℕ) (ds : List ℕ) → d < 7 → Weekdays ds → Weekdays (insert_day d ds)
unfolding insert_day
Weekdays-insert_day d [] h k = (h, tt)
Weekdays-insert_day d (x ∷ xs) h k = ground (arith, Weekdays-insert_day d xs)

Weekdays-sort_days : (ds : List ℕ) → Weekdays ds → Weekdays (sort_days ds)
unfolding sort_days
Weekdays-sort_days [] h = tt
Weekdays-sort_days (d ∷ ds) h = Weekdays-insert_day d (sort_days ds) h.0 (Weekdays-sort_days ds h.1)

insert_day_ne : (d : ℕ) (ds : List ℕ) → insert_day d ds ≢ []
unfolding insert_day
insert_day_ne d [] = cc
insert_day_ne d (x ∷ xs) = ground arith

sorted_days_ne : (ds : List ℕ) → ds ≢ [] → sort_days (dedupe [] ds) ≢ []
unfolding sort_days dedupe
sorted_days_ne [] h = absurd (h refl)
sorted_days_ne (d ∷ ds) h = insert_day_ne d (sort_days (dedupe (d ∷ []) ds))

abbrev made : List ℕ → String → String → ScheduleWindow
made ds s e = record { days = sort_days (dedupe [] ds); start = s; stop = e }

IsValid-made :
    (ds : List ℕ) (s e : String)
    → Weekdays ds
    → ds ≢ []
    → is_hhmm s ≡ true
    → is_hhmm e ≡ true
    → str_eq s e ≡ false
    → IsValidWindow (made ds s e)
unfolding to_minutes is_hhmm
IsValid-made ds s e d n hs he ne = record {
  days = Weekdays-sort_days (dedupe [] ds) (Weekdays-dedupe [] ds d);
  listed = sorted_days_ne ds n;
  start = minutes_bound (codes s) hs;
  stop = minutes_bound (codes e) he;
  differ = to_minutes_ne s e hs he ne;
}

abbrev AllValid : Parsed ScheduleWindow → Type 0
AllValid (ok w) = IsValidWindow w
AllValid (thrown e) = Unit

abbrev HhmmIn : Option String → Type 0
HhmmIn none = Unit
HhmmIn (some s) = is_hhmm s ≡ true

HhmmIn-hhmm_of : (j : Json) → HhmmIn (hhmm_of j)
HhmmIn-hhmm_of j = ground arith

IsValid-finish_window :
    (i : ℕ) (ds : Option (List ℕ)) (s e : Option String)
    → WeekdaysIn ds
    → ds ≢ some []
    → HhmmIn s
    → HhmmIn e
    → AllValid (finish_window i ds s e)
unfolding finish_window
IsValid-finish_window i none s e d n hs he = tt
IsValid-finish_window i (some ds) none e d n hs he = tt
IsValid-finish_window i (some ds) (some s) none d n hs he = tt
IsValid-finish_window i (some ds) (some s) (some e) d n hs he = elim (Bool-cases (str_eq s e)) [
  | inl h ↦ rw h tt
  | inr h ↦ rw h (IsValid-made ds s e d (λ p. n (ap some p)) hs he h)
]

IsValid-parse_window : (i : ℕ) (w : Json) → AllValid (parse_window i w)
unfolding parse_window
IsValid-parse_window i Json.null = tt
IsValid-parse_window i Json.undefined = tt
IsValid-parse_window i w =
    IsValid-finish_window i (day_list (get_field "days" w)) (hhmm_of (get_field "start" w))
      (hhmm_of (get_field "end" w)) (Weekdays-day_list (get_field "days" w))
      (day_list_ne (get_field "days" w)) (HhmmIn-hhmm_of (get_field "start" w))
      (HhmmIn-hhmm_of (get_field "end" w))

-- As many windows as items, each valid.
abbrev WindowsIn : ℕ → Parsed (List ScheduleWindow) → Type 0
WindowsIn n (ok ws) = All IsValidWindow ws × (length ws ≡ n)
WindowsIn n (thrown e) = Unit

cons_windows :
    (n : ℕ) (p : Parsed ScheduleWindow) (q : Parsed (List ScheduleWindow))
    → AllValid p
    → WindowsIn n q
    → WindowsIn (suc n) (p >>= λ w. q >>= λ ws. ok (w ∷ ws))
cons_windows n (thrown e) q h k = tt
cons_windows n (ok w) (thrown e) h k = tt
cons_windows n (ok w) (ok ws) h k = ((h, k.0), ap suc k.1)

windows-parse_windows : (i : ℕ) (ws : Items) → WindowsIn (count_items ws) (parse_windows i ws)
unfolding parse_windows count_items
windows-parse_windows i Items.nil = (tt, refl)
windows-parse_windows i (Items.cons w ws) =
    cons_windows (count_items ws) (parse_window i w) (parse_windows (i + 1) ws)
      (IsValid-parse_window i w) (windows-parse_windows (i + 1) ws)

-- What every parsed schedule satisfies.
pub record IsValidSchedule (intl : Intl) (s : AccessSchedule) : Type 0 where
  pub zone : is_valid_time_zone intl s.time_zone ≡ true
  pub windows : All IsValidWindow s.windows
  pub nonempty : 0 < length s.windows
  pub bounded : length s.windows ≤ 14

abbrev ScheduleIn : Intl → Parsed (Option AccessSchedule) → Type 0
ScheduleIn intl (ok (some s)) = IsValidSchedule intl s
ScheduleIn intl _ = Unit

abbrev ZoneIn : Intl → Option String → Type 0
ZoneIn intl none = Unit
ZoneIn intl (some z) = is_valid_time_zone intl z ≡ true

ZoneIn-zone_of : (intl : Intl) (j : Json) → ZoneIn intl (zone_of intl j)
unfolding zone_of
ZoneIn-zone_of intl (Json.string s) = elim (Bool-cases (is_valid_time_zone intl s)) [
  | inl h ↦ rw h h
  | inr h ↦ rw h tt
]
ZoneIn-zone_of intl _ = tt

abbrev CountIn : Option Items → Type 0
CountIn none = Unit
CountIn (some ws) = (0 < count_items ws) × (count_items ws ≤ 14)

CountIn-items_of : (j : Json) → CountIn (items_of j)
unfolding items_of
CountIn-items_of (Json.array xs) = ground arith
CountIn-items_of _ = tt

made_schedule :
    (intl : Intl) (z : String) (n : ℕ) (p : Parsed (List ScheduleWindow))
    → is_valid_time_zone intl z ≡ true
    → 0 < n
    → n ≤ 14
    → WindowsIn n p
    → ScheduleIn intl (p >>= λ ws. ok (some (record { time_zone = z; windows = ws })))
made_schedule intl z n (thrown e) hz lo hi h = tt
made_schedule intl z n (ok ws) hz lo hi h = record {
  zone = hz;
  windows = h.0;
  nonempty = omega (arith, h.1);
  bounded = omega (arith, h.1);
}

IsValid-finish :
    (intl : Intl) (z : Option String) (ws : Option Items)
    → ZoneIn intl z
    → CountIn ws
    → ScheduleIn intl (finish intl z ws)
unfolding finish
IsValid-finish intl none ws h k = tt
IsValid-finish intl (some z) none h k = tt
IsValid-finish intl (some z) (some ws) h k =
    made_schedule intl z (count_items ws) (parse_windows 1 ws) h k.0 k.1
      (windows-parse_windows 1 ws)

ScheduleIn-parse_schedule :
    (intl : Intl) (input : Json) → ScheduleIn intl (parse_schedule intl input)
unfolding parse_schedule
ScheduleIn-parse_schedule intl input = elim (Bool-cases (is_null input)) [
  | inl h ↦ rw h tt
  | inr h ↦ rw h (elim (Bool-cases (is_object input)) [
    | inl o ↦ rw o (
        IsValid-finish intl (zone_of intl (get_field "timeZone" input))
          (items_of (get_field "windows" input)) (ZoneIn-zone_of intl (get_field "timeZone" input))
          (CountIn-items_of (get_field "windows" input)))
    | inr o ↦ rw o tt
  ])
]

-- A schedule that `parseSchedule` returns has a known time zone and 1 to 14 windows, each on real
-- days between two different times of day.
pub parse_schedule-IsValid :
    (intl : Intl) (input : Json) (s : AccessSchedule)
    → parse_schedule intl input ≡ ok (some s)
    → IsValidSchedule intl s
parse_schedule-IsValid intl input s h = rw h at (ScheduleIn-parse_schedule intl input)

-- ===== src/Schedule/Hhmm.antt =====
-- A time of day "HH:MM": its minutes are in range, and two different times are different minutes.
use rem0te.Schedule.{is_hhmm_codes, is_hhmm, minutes_of, parse_int, after_colon, to_minutes}
use text.Mathlib.TextEquality.{Char-path}
use rem0te.Prelude.{
  ℕ, ◌+◌, ◌*◌, ◌-◌, ◌≤◌, ◌<◌, ◌≡◌, ◌≢◌, refl, true, false, List, [], ◌∷◌, String, arith, str_eq,
  eq_iff, codes,
}

codes_injective : (s t : String) → codes s ≡ codes t → s ≡ t
codes_injective String.[] String.[] e = refl
codes_injective String.[] (String.◌∷◌ c t) e = cc
codes_injective (String.◌∷◌ c s) String.[] e = cc
codes_injective (String.◌∷◌ c s) (String.◌∷◌ d t) e =
    cc (Char-path c d (ground arith), codes_injective s t (ground arith))

abbrev IsHhmm : ℕ → ℕ → ℕ → ℕ → ℕ → Type 0
IsHhmm a b c d e =
    (48 ≤ a)
    × (48 ≤ b)
    × (b ≤ 57)
    × (c ≡ 58)
    × (48 ≤ d)
    × (d ≤ 53)
    × (48 ≤ e)
    × (e ≤ 57)
    × (a * 10 + b ≤ 551)
    × (a ≤ 50)

IsHhmm-bounds : (a b c d e : ℕ) → is_hhmm_codes (a ∷ b ∷ c ∷ d ∷ e ∷ []) ≡ true → IsHhmm a b c d e
IsHhmm-bounds a b c d e h = ground arith

hours_value :
    (a b c : ℕ) (cs : List ℕ)
    → 48 ≤ a
    → a ≤ 57
    → 48 ≤ b
    → b ≤ 57
    → c ≡ 58
    → parse_int 0 (a ∷ b ∷ c ∷ cs) ≡ (a - 48) * 10 + (b - 48)
unfolding parse_int
hours_value a b c cs h1 h2 h3 h4 h5 = ground arith

after_value :
    (a b c : ℕ) (cs : List ℕ) → a ≤ 57 → b ≤ 57 → c ≡ 58 → after_colon (a ∷ b ∷ c ∷ cs) ≡ cs
unfolding after_colon
after_value a b c cs h1 h2 h3 = ground arith

two_value :
    (a b : ℕ)
    → 48 ≤ a
    → a ≤ 57
    → 48 ≤ b
    → b ≤ 57
    → parse_int 0 (a ∷ b ∷ []) ≡ (a - 48) * 10 + (b - 48)
unfolding parse_int
two_value a b h1 h2 h3 h4 = ground arith

hhmm_value :
    (a b c d e : ℕ)
    → IsHhmm a b c d e
    → minutes_of (a ∷ b ∷ c ∷ d ∷ e ∷ [])
      ≡ ((a - 48) * 10 + (b - 48)) * 60 + ((d - 48) * 10 + (e - 48))
unfolding minutes_of
hhmm_value a b c d e (a1, b1, b2, c1, d1, d2, e1, e2, ab, a2) = rw (
  after_value a b c (d ∷ e ∷ []) (omega arith) b2 c1,
  hours_value a b c (d ∷ e ∷ []) a1 (omega arith) b1 b2 c1,
  two_value d e d1 (omega arith) e1 e2,
)

pub minutes_bound : (cs : List ℕ) → is_hhmm_codes cs ≡ true → minutes_of cs < 1440
minutes_bound (a ∷ b ∷ c ∷ d ∷ e ∷ []) h =
    omega (arith, hhmm_value a b c d e (IsHhmm-bounds a b c d e h), IsHhmm-bounds a b c d e h)
minutes_bound (_ ∷ _ ∷ _ ∷ _ ∷ _ ∷ _ ∷ _) h = cc
minutes_bound _ h = cc

list_eq :
    (a b c d e a' b' c' d' e' : ℕ)
    → IsHhmm a b c d e
    → IsHhmm a' b' c' d' e'
    → ((a - 48) * 10 + (b - 48)) * 60 + ((d - 48) * 10 + (e - 48))
      ≡ ((a' - 48) * 10 + (b' - 48)) * 60 + ((d' - 48) * 10 + (e' - 48))
    → (a ≡ a') × (b ≡ b') × (c ≡ c') × (d ≡ d') × (e ≡ e')
list_eq a b c d e a' b' c' d' e' h k m = omega arith

minutes_injective :
    (cs ds : List ℕ)
    → is_hhmm_codes cs ≡ true
    → is_hhmm_codes ds ≡ true
    → minutes_of cs ≡ minutes_of ds
    → cs ≡ ds
minutes_injective (a ∷ b ∷ c ∷ d ∷ e ∷ []) (a' ∷ b' ∷ c' ∷ d' ∷ e' ∷ []) h k m =
    let p = IsHhmm-bounds a b c d e h in
    let q = IsHhmm-bounds a' b' c' d' e' k in
    let (ea, eb, ec, ed, ee) =
      list_eq a b c d e a' b' c' d' e' p q
        (cc (hhmm_value a b c d e p, hhmm_value a' b' c' d' e' q, m)) in
    cc (ea, eb, ec, ed, ee)
minutes_injective (a ∷ b ∷ c ∷ d ∷ e ∷ []) _ h k m = cc
minutes_injective _ _ h k m = cc

-- Two different valid times are different minutes.
pub to_minutes_ne :
    (s t : String)
    → is_hhmm s ≡ true
    → is_hhmm t ≡ true
    → str_eq s t ≡ false
    → to_minutes s ≢ to_minutes t
unfolding is_hhmm to_minutes
to_minutes_ne s t h k n e =
    cc (n, (eq_iff s t).1 (codes_injective s t (minutes_injective (codes s) (codes t) h k e)))

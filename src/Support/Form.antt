-- ===== src/Support/Form.antt =====
-- What a person types into the public form, and what the form refuses.
use rem0te.Prelude.Json.{Json}
use Prim.Native.Char.{code}
use rem0te.Prelude.{
  length, is_empty, codes, is_space, ℕ, ◌==◌, Bool, true, false, ◌&&◌, ◌||◌, [], ◌∷◌, if◌then◌else◌,
  List, any, Option, some, String, all, trim, leb, none, ltb, not, get_or, is_nil,
}

abbrev pub min_fill_ms : ℕ
min_fill_ms = 2500

-- `elapsed_ms` is what the client measured, when it is a natural number.
pub record PublicSubmission : Type 0 where
  pub name : Json
  pub email : Json
  pub phone : Json
  pub description : Json
  pub rustdesk_id : Option String
  pub website : Option String
  pub elapsed_ms : Option ℕ

abbrev too_fast : Option ℕ → Bool
too_fast none = false
too_fast (some ms) = ltb ms min_fill_ms

unfoldable pub is_bot : PublicSubmission → Bool
unfolding trim
is_bot body = not (is_empty (trim (get_or body.website ""))) || too_fast body.elapsed_ms

-- what stands before the first `@`, and what after it
unfoldable pub split_at_sign : List ℕ → Option (List ℕ × List ℕ)
split_at_sign [] = none
split_at_sign (c ∷ cs) =
    let rest = split_at_sign cs in
    if c == 64 then some ([], cs) else elim rest [ none ↦ none | some (a, b) ↦ some (c ∷ a, b) ]

-- a dot with something after it
unfoldable pub dot_inside : List ℕ → Bool
dot_inside [] = false
dot_inside (c ∷ []) = false
dot_inside (c ∷ d ∷ cs) = c == 46 || dot_inside (d ∷ cs)

abbrev pub domain_ok : List ℕ → Bool
domain_ok [] = false
domain_ok (c ∷ cs) = dot_inside cs

-- `/^[^\s@]+@[^\s@]+\.[^\s@]+$/`
unfoldable pub is_email : String → Bool
unfolding split_at_sign dot_inside any
is_email s = elim (split_at_sign (codes s)) [
  | none ↦ false
  | some (a, b) ↦
      not (is_nil a)
      && not (any is_space a)
      && not (any (λ c. is_space c || c == 64) b)
      && domain_ok b
]

-- `replace(/[\s-]/g, '')`
unfoldable pub strip_separators : String → String
strip_separators String.[] = String.[]
strip_separators (String.◌∷◌ c s) =
    let rest = strip_separators s in
    if is_space (code c) || code c == 45 then rest else String.◌∷◌ c rest

-- `/^\d{6,15}$/`
unfoldable pub is_remote_id : String → Bool
unfolding all
is_remote_id s =
    leb 6 (length (codes s))
    && leb (length (codes s)) 15
    && all (λ c. leb 48 c && leb c 57) (codes s)

abbrev pub email_ok : Option String → Bool
email_ok none = true
email_ok (some e) = is_email e

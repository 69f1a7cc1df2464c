-- ===== src/Presence/Fields/Loops.antt =====
-- The loops end.
use rem0te.Presence.Fields.{
  skip, field_round, read_varint, read_varint_from, get_field, get_field_on, after_number,
  with_length, goes_on, unfinished, Round, Search, ends, after_tag,
}
use rem0te.Prelude.{
  [], ◌∷◌, none, some, refl, arith, inl, inr, ap, ◌∙◌, zero, suc, ℕ, List, ◌≡◌, length, ◌≤◌, ◌<◌,
  Option-cases, ◌≢◌, ◌+◌, ◌%◌, ◌*◌, ◌^◌, Option, ◌⊎◌,
}

length-read_varint_from :
    (v shift : ℕ) (bs : List ℕ) (n : ℕ) (rest : List ℕ)
    → read_varint_from v shift bs ≡ some (n, rest)
    → length rest < length bs
unfolding read_varint_from
length-read_varint_from v shift [] n rest h = cc
length-read_varint_from v shift (c ∷ bs) n rest h =
    ground (arith, length-read_varint_from (v + c % 128 * 2 ^ shift) (shift + 7) bs n rest)

length-skip : (n : ℕ) (bs : List ℕ) → length (skip n bs) ≤ length bs
unfolding skip
length-skip zero bs = omega arith
length-skip (suc n) [] = omega arith
length-skip (suc n) (b ∷ bs) = ground (arith, length-skip n bs)

length-with_length :
    (num tag : ℕ) (bs rest : List ℕ)
    → with_length num tag (read_varint bs) ≡ goes_on rest
    → length rest ≤ length bs
unfolding read_varint
length-with_length num tag bs rest h = elim (Option-cases (read_varint_from 0 0 bs)) [
  | inl e ↦ absurd (ground (arith, e))
  | inr ((len, more), e) ↦
      ground (arith, e, length-skip len more, length-read_varint_from 0 0 bs len more e)
]

length-after_number :
    (bs rest : List ℕ) → after_number (read_varint bs) ≡ goes_on rest → length rest ≤ length bs
unfolding read_varint
length-after_number bs rest h = elim (Option-cases (read_varint_from 0 0 bs)) [
  | inl e ↦ absurd (ground (arith, e))
  | inr ((len, more), e) ↦ ground (arith, e, length-read_varint_from 0 0 bs len more e)
]

length-field_round :
    (num : ℕ) (bs rest : List ℕ) → field_round num bs ≡ goes_on rest → length rest < length bs
unfolding field_round read_varint
length-field_round num bs rest h = elim (Option-cases (read_varint_from 0 0 bs)) [
  | inl e ↦ absurd (ground (arith, e))
  | inr ((tag, more), e) ↦ ground (
    arith,
    e,
    length-with_length num tag more rest,
    length-after_number more rest,
    length-read_varint_from 0 0 bs tag more e,
  )
]

Round-cases : (r : Round) → ((s : Search) × (r ≡ ends s)) ⊎ ((bs : List ℕ) × (r ≡ goes_on bs))
Round-cases (ends s) = inl (s, refl)
Round-cases (goes_on bs) = inr (bs, refl)

finished-length :
    (num tag : ℕ) (o : Option (ℕ × List ℕ)) → with_length num tag o ≡ ends unfinished → ⊥
finished-length num tag none h = cc
finished-length num tag (some (len, bs)) h = ground arith

finished-number : (o : Option (ℕ × List ℕ)) → after_number o ≡ ends unfinished → ⊥
finished-number none h = cc
finished-number (some (v, bs)) h = cc

finished-tag : (num : ℕ) (o : Option (ℕ × List ℕ)) → after_tag num o ≡ ends unfinished → ⊥
finished-tag num none h = cc
finished-tag num (some (tag, bs)) h =
    ground (arith, finished-length num tag (read_varint bs), finished-number (read_varint bs))

finished-round : (num : ℕ) (bs : List ℕ) → field_round num bs ≡ ends unfinished → ⊥
unfolding field_round
finished-round num bs h = finished-tag num (read_varint bs) h

get_field_on-agree :
    (k j num : ℕ) (bs : List ℕ)
    → length bs ≤ k
    → length bs ≤ j
    → (get_field_on k num bs ≢ unfinished) × (get_field_on k num bs ≡ get_field_on j num bs)
unfolding get_field_on
get_field_on-agree k j num [] h g = (λ e. cc, refl)
get_field_on-agree zero j num (b ∷ bs) h g = absurd (omega arith)
get_field_on-agree (suc k) zero num (b ∷ bs) h g = absurd (omega arith)
get_field_on-agree (suc k) (suc j) num (b ∷ bs) h g =
    elim (Round-cases (field_round num (b ∷ bs))) [
      | inl (s, e) ↦
          (λ u. finished-round num (b ∷ bs) (e ∙ ap ends (ground (arith, e, u))), ground (arith, e))
      | inr (rest, e) ↦
          let shorter = length-field_round num (b ∷ bs) rest e in
          let (fin, same) = get_field_on-agree k j num rest (omega arith) (omega arith) in
          (λ u. fin (ground (arith, e)), ground (arith, e, same))
    ]

-- The search of every buffer ends, whatever a server answers: with as many rounds as the buffer
-- has bytes it is finished, and more rounds do not change what it finds.
pub get_field_on-ends :
    (k num : ℕ) (bs : List ℕ)
    → length bs ≤ k
    → (get_field_on k num bs ≢ unfinished) × (get_field_on k num bs ≡ get_field num bs)
unfolding get_field get_field_on
get_field_on-ends k num bs h = get_field_on-agree k (length bs) num bs h (omega arith)

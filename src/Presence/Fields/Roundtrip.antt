-- ===== src/Presence/Fields/Roundtrip.antt =====
-- What is written is read back.
use rem0te.Presence.Framing.{read_frame-frame}
use rem0te.Presence.{frame, read_frame}
use rem0te.Presence.Fields.{
  varint_on, read_varint_from, take_up_to, read_varint, field_round, field, varint, ends, found,
  get_field, after_tag, tag_number, get_field_on, read_reply, read_response,
}
use native.Mathlib.Nat.{pow-suc, mul_left_comm, add-mul, mul_assoc}
use rem0te.Prelude.{
  [], ◌∷◌, some, true, false, refl, arith, inl, inr, ap, sym, ◌∙◌, zero, suc, ℕ, ◌*◌, ◌^◌, ◌<◌, ◌≡◌,
  ◌+◌, List, ◌%◌, Bool-cases, ◌++◌, leb, ◌/◌, Option-cases, ltb, length, get_or, ◌==◌, ◌≤◌,
}

unfoldable limit : ℕ → ℕ
limit zero = 1
limit (suc k) = 128 * limit k

-- Below 128^k, k rounds are enough, if there is one.
varint_on-ends : (k n : ℕ) → n < limit (suc k) → (bs : List ℕ) × (varint_on (suc k) n ≡ some bs)
unfolding varint_on limit
varint_on-ends zero n h = (n ∷ [], ground arith)
varint_on-ends (suc k) n h = elim (Bool-cases (leb n 127)) [
  | inl e ↦ (n ∷ [], ground (arith, e))
  | inr e ↦
      let (bs, rest) = varint_on-ends k (n / 128) (omega arith) in
      ((n % 128 + 128) ∷ bs, ground (arith, e, rest))
]

add_seven : (s : ℕ) → s + 7 ≡ suc (suc (suc (suc (suc (suc (suc s))))))
add_seven s = omega arith

pow_step : (s : ℕ) → 2 ^ (s + 7) ≡ 128 * 2 ^ s
pow_step s =
    let d = λ (m : ℕ). pow-suc 2 m in
    rw (add_seven s) (
      omega (
        arith,
        d s,
        d (suc s),
        d (suc (suc s)),
        d (suc (suc (suc s))),
        d (suc (suc (suc (suc s)))),
        d (suc (suc (suc (suc (suc s))))),
        d (suc (suc (suc (suc (suc (suc s)))))),
      ))

scaled : (v n p q : ℕ) → q ≡ 128 * p → v + n % 128 * p + n / 128 * q ≡ v + n * p
scaled v n p q e =
    let split : n ≡ 128 * (n / 128) + n % 128 = omega arith in
    let low : n / 128 * q ≡ 128 * (n / 128 * p) =
      ap (λ x. n / 128 * x) e ∙ mul_left_comm (n / 128) 128 p in
    let whole : n * p ≡ 128 * (n / 128 * p) + n % 128 * p =
      ap (λ x. x * p) split
      ∙ add-mul (128 * (n / 128)) (n % 128) p
      ∙ ap (λ x. x + n % 128 * p) (mul_assoc 128 (n / 128) p) in
    omega arith

small : (n : ℕ) → leb n 127 ≡ true → n % 128 ≡ n
small n e = ground arith

read_back :
    (k n v s : ℕ) (bs rest : List ℕ)
    → varint_on k n ≡ some bs
    → read_varint_from v s (bs ++ rest) ≡ some (v + n * 2 ^ s, rest)
unfolding varint_on read_varint_from
read_back zero n v s bs rest h = cc
read_back (suc k) n v s bs rest h = elim (Bool-cases (leb n 127)) [
  | inl e ↦ let only : bs ≡ n ∷ [] = ground (arith, e) in rw only (ground (arith, e, small n e))
  | inr e ↦ elim (Option-cases (varint_on k (n / 128))) [
    | inl o ↦ absurd (ground (arith, e, o))
    | inr (cs, o) ↦
        let more : bs ≡ (n % 128 + 128) ∷ cs = ground (arith, e, o) in
        let ih = read_back k (n / 128) (v + n % 128 * 2 ^ s) (s + 7) cs rest o in
        let sum = scaled v n (2 ^ s) (2 ^ (s + 7)) (pow_step s) in
        let high : ltb ((n % 128 + 128) % 256) 128 ≡ false = ground arith in
        let low : (n % 128 + 128) % 128 ≡ n % 128 = omega arith in
        rw more (rw (high, low) (ih ∙ ap (λ x. some (x, rest)) sum))
  ]
]

read_varint-varint :
    (n : ℕ) (rest : List ℕ) → n < 4294967296 → read_varint (varint n ++ rest) ≡ some (n, rest)
unfolding read_varint varint limit
read_varint-varint n rest h =
    let (bs, e) = varint_on-ends 4 n (omega arith) in
    let whole : 0 + n * 2 ^ 0 ≡ n = omega arith in
    ap (λ o. read_varint_from 0 0 (get_or o [] ++ rest)) e
    ∙ read_back 5 n 0 0 bs rest e
    ∙ ap (λ x. some (x, rest)) whole

take_all : (xs rest : List ℕ) → take_up_to (length xs) (xs ++ rest) ≡ xs
unfolding take_up_to
take_all [] rest = refl
take_all (x ∷ xs) rest = ap (λ ys. x ∷ ys) (take_all xs rest)

assoc : (xs ys zs : List ℕ) → (xs ++ ys) ++ zs ≡ xs ++ (ys ++ zs)
assoc [] ys zs = refl
assoc (x ∷ xs) ys zs = ap (λ l. x ∷ l) (assoc xs ys zs)

field_shape :
    (num : ℕ) (payload rest : List ℕ)
    → field num payload ++ rest
      ≡ varint (num * 8 + 2) ++ (varint (length payload) ++ (payload ++ rest))
unfolding field
field_shape num payload rest =
    assoc (varint (num * 8 + 2)) (varint (length payload) ++ payload) rest
    ∙ ap (λ l. varint (num * 8 + 2) ++ l) (assoc (varint (length payload)) payload rest)

tag_reads :
    (num : ℕ) (payload rest : List ℕ)
    → num < 268435456
    → length payload < 4294967296
    → after_tag num (some (num * 8 + 2, varint (length payload) ++ (payload ++ rest)))
      ≡ ends (found payload)
tag_reads num payload rest h k =
    let wire : (num * 8 + 2) % 8 == 2 ≡ true = ground arith in
    let number : tag_number (num * 8 + 2) == num ≡ true = ground arith in
    rw
      (wire, read_varint-varint (length payload) (payload ++ rest) k, number, take_all payload rest)
      refl

field_round-field :
    (num : ℕ) (payload rest : List ℕ)
    → num < 268435456
    → length payload < 4294967296
    → field_round num (field num payload ++ rest) ≡ ends (found payload)
unfolding field_round
field_round-field num payload rest h k =
    ap (λ bs. after_tag num (read_varint bs)) (field_shape num payload rest)
    ∙ ap (after_tag num) (
        read_varint-varint (num * 8 + 2) (varint (length payload) ++ (payload ++ rest))
          (omega arith))
    ∙ tag_reads num payload rest h k

search_first :
    (k num b : ℕ) (bs payload : List ℕ)
    → field_round num (b ∷ bs) ≡ ends (found payload)
    → get_field_on (suc k) num (b ∷ bs) ≡ found payload
unfolding get_field_on
search_first k num b bs payload h = ground (arith, h)

round_first :
    (num : ℕ) (bs payload : List ℕ)
    → field_round num bs ≡ ends (found payload)
    → get_field num bs ≡ found payload
unfolding get_field field_round read_varint read_varint_from
round_first num [] payload h = cc
round_first num (b ∷ bs) payload h = search_first (length bs) num b bs payload h

get_field-field :
    (num : ℕ) (payload rest : List ℕ)
    → num < 268435456
    → length payload < 4294967296
    → get_field num (field num payload ++ rest) ≡ found payload
get_field-field num payload rest h k =
    round_first num (field num payload ++ rest) payload (field_round-field num payload rest h k)

length-++ : (xs ys : List ℕ) → length ys ≤ length (xs ++ ys)
length-++ [] ys = omega arith
length-++ (x ∷ xs) ys = let h = length-++ xs ys in omega arith

length-field : (num : ℕ) (payload : List ℕ) → length payload ≤ length (field num payload)
unfolding field
length-field num payload =
    let a = length-++ (varint (num * 8 + 2)) (varint (length payload) ++ payload) in
    let b = length-++ (varint (length payload)) payload in omega arith

plain : (bs : List ℕ) → bs ++ [] ≡ bs
plain [] = refl
plain (b ∷ bs) = ap (λ l. b ∷ l) (plain bs)

get_field-whole :
    (num : ℕ) (payload : List ℕ)
    → num < 268435456
    → length payload < 4294967296
    → get_field num (field num payload) ≡ found payload
get_field-whole num payload h k =
    ap (get_field num) (sym (plain (field num payload))) ∙ get_field-field num payload [] h k

reply_of :
    (bs msg resp states : List ℕ)
    → read_frame bs ≡ some msg
    → get_field 24 msg ≡ found resp
    → get_field 1 resp ≡ found states
    → read_reply bs ≡ some (some states)
unfolding read_reply read_response
reply_of bs msg resp states a b c = ground (arith, a, b, c)

-- The reply of a server that follows the protocol, a frame of field 24 with the states in its field
-- 1, of less than 2^30 bytes, is read back as those states.
pub read_reply-frame :
    (states : List ℕ)
    → length (field 24 (field 1 states)) < 1073741824
    → read_reply (frame (field 24 (field 1 states))) ≡ some (some states)
read_reply-frame states h =
    let a = length-field 24 (field 1 states) in
    let b = length-field 1 states in
    reply_of (frame (field 24 (field 1 states))) (field 24 (field 1 states)) (field 1 states) states
      (read_frame-frame (field 24 (field 1 states)) h)
      (get_field-whole 24 (field 1 states) (omega arith) (omega arith))
      (get_field-whole 1 states (omega arith) (omega arith))

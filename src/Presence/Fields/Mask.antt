-- ===== src/Presence/Fields/Mask.antt =====
-- The bitmask in which the server answers: eight ids to a byte, the first in its highest bit.
use native.Mathlib.Nat.{pow-suc, mul-add-div_right, one-le-pow, div-eq_of_lt, add-mul, mul_assoc}
use rem0te.Presence.Fields.{byte_at, is_online, online_from}
use rem0te.Prelude.{
  [], ◌∷◌, refl, arith, ap, ◌∙◌, zero, suc, if◌then◌else◌, List, ℕ, Bool, true, false, ◌≡◌, ◌≤◌,
  ◌<◌, ◌+◌, ◌*◌, sym, ◌==◌, not, ◌^◌, ◌%◌, ◌/◌, ◌-◌,
}

-- The ids that are online, as the server knows it.
unfoldable pub those : (List ℕ → Bool) → List (List ℕ) → List (List ℕ)
those up [] = []
those up (id ∷ ids) = let rest = those up ids in if up id then id ∷ rest else rest

abbrev bit : Bool → ℕ
bit true = 1
bit false = 0

unfoldable add_first : ℕ → List ℕ → List ℕ
add_first b [] = b ∷ []
add_first b (c ∷ cs) = (b + c) ∷ cs

-- The bytes from the bit of weight `2 ^ j` of the first on: each id takes the next lower bit, and the
-- one after the lowest starts another byte.
unfoldable packed_from : (List ℕ → Bool) → ℕ → List (List ℕ) → List ℕ
unfolding add_first
packed_from up j [] = []
packed_from up zero (id ∷ ids) = bit (up id) ∷ packed_from up 7 ids
packed_from up (suc j) (id ∷ ids) = add_first (bit (up id) * 2 ^ suc j) (packed_from up j ids)

unfoldable pub packed : (List ℕ → Bool) → List (List ℕ) → List ℕ
unfolding packed_from
packed up ids = packed_from up 7 ids

first-add_first : (b : ℕ) (cs : List ℕ) → byte_at 0 (add_first b cs) ≡ b + byte_at 0 cs
unfolding add_first byte_at
first-add_first b [] = omega arith
first-add_first b (c ∷ cs) = refl

later-add_first : (b i : ℕ) (cs : List ℕ) → byte_at (suc i) (add_first b cs) ≡ byte_at (suc i) cs
unfolding add_first byte_at
later-add_first b i [] = refl
later-add_first b i (c ∷ cs) = refl

bit-le : (b : Bool) → bit b ≤ 1
bit-le true = omega arith
bit-le false = omega arith

scaled-lt : (b m r : ℕ) → b ≤ 1 → r < m → b * m + r < 2 * m
scaled-lt zero m r h k = omega arith
scaled-lt (suc zero) m r h k = omega arith
scaled-lt (suc (suc b)) m r h k = absurd (omega arith)

double : (j : ℕ) → 2 ^ suc j ≡ 2 * 2 ^ j
double j = let h = pow-suc 2 j in omega (arith, h)

positive : (j : ℕ) → 0 < 2 ^ j
positive j = let h = one-le-pow j 2 (omega arith) in omega (arith, h)

first-packed_from-lt :
    (up : List ℕ → Bool) (j : ℕ) (ids : List (List ℕ))
    → byte_at 0 (packed_from up j ids) < 2 ^ suc j
unfolding packed_from byte_at
first-packed_from-lt up j [] = positive (suc j)
first-packed_from-lt up zero (id ∷ ids) = let h = bit-le (up id) in omega (arith, h)
first-packed_from-lt up (suc j) (id ∷ ids) =
    rw (first-add_first (bit (up id) * 2 ^ suc j) (packed_from up j ids), double (suc j))
      (scaled-lt (bit (up id)) (2 ^ suc j) (byte_at 0 (packed_from up j ids)) (bit-le (up id))
        (first-packed_from-lt up j ids))

quotient : (m n r : ℕ) → r < m → (n * m + r) / m ≡ n
quotient m n r h = mul-add-div_right (omega (arith, h)) n r ∙ (rw (div-eq_of_lt h) (omega arith))

last_bit : (p : ℕ) (b : Bool) → not ((p * 2 + bit b) % 2 == 0) ≡ b
last_bit p true = ground arith
last_bit p false = ground arith

-- The id at place `7 - j` of the `q`th byte.
online_bit :
    (states : List ℕ) (k q j p r : ℕ) (b : Bool)
    → k / 8 ≡ q
    → 7 - k % 8 ≡ j
    → byte_at q states ≡ (p * 2 + bit b) * 2 ^ j + r
    → r < 2 ^ j
    → is_online states k ≡ b
unfolding is_online
online_bit states k q j p r b eq ej h small =
    rw (eq, ej, h, quotient (2 ^ j) (p * 2 + bit b) r small) (last_bit p b)

-- What is left of the states from the bit of weight `2 ^ j` of the `q`th byte on.
record Fits (states : List ℕ) (q p j : ℕ) (rest : List ℕ) : Type 0 where
  here : byte_at q states ≡ p * 2 ^ suc j + byte_at 0 rest
  later : (i : ℕ) → byte_at (q + suc i) states ≡ byte_at (suc i) rest

regroup : (p b m n r : ℕ) → n ≡ 2 * m → p * n + (b * m + r) ≡ (p * 2 + b) * m + r
regroup p b m n r h =
    let spread : (p * 2 + b) * m ≡ p * n + b * m =
      add-mul (p * 2) b m ∙ ap (λ x. x + b * m) (mul_assoc p 2 m ∙ ap (λ x. p * x) (sym h)) in
    omega (arith, spread)

one_on : (q : ℕ) → suc q ≡ q + 1
one_on q = omega arith

more_on : (q i : ℕ) → suc q + suc i ≡ q + suc (suc i)
more_on q i = omega arith

zero_byte : (n : ℕ) → n ≡ 0 * 2 ^ 8 + n
zero_byte n = omega arith

-- The next bit.
Fits-suc :
    (states : List ℕ) (q p j b : ℕ) (rest : List ℕ)
    → Fits states q p (suc j) (add_first (b * 2 ^ suc j) rest)
    → Fits states q (p * 2 + b) j rest
Fits-suc states q p j b rest f = record {
  here =
      f.here
      ∙ ap (λ x. p * 2 ^ suc (suc j) + x) (first-add_first (b * 2 ^ suc j) rest)
      ∙ regroup p b (2 ^ suc j) (2 ^ suc (suc j)) (byte_at 0 rest) (double (suc j));
  later = λ i. f.later i ∙ later-add_first (b * 2 ^ suc j) i rest;
}

-- The next byte.
Fits-zero :
    (states : List ℕ) (q p b : ℕ) (rest : List ℕ)
    → Fits states q p 0 (b ∷ rest)
    → Fits states (suc q) 0 7 rest
unfolding byte_at
Fits-zero states q p b rest f = record {
  here = ap (λ n. byte_at n states) (one_on q) ∙ f.later 0 ∙ zero_byte (byte_at 0 rest);
  later = λ i. ap (λ n. byte_at n states) (more_on q i) ∙ f.later (suc i);
}

online_from-Fits :
    (up : List ℕ → Bool) (states : List ℕ) (k q p j : ℕ) (ids : List (List ℕ))
    → k + j ≡ 8 * q + 7
    → j ≤ 7
    → Fits states q p j (packed_from up j ids)
    → online_from states k ids ≡ those up ids
unfolding online_from those packed_from
online_from-Fits up states k q p j [] e h f = refl
online_from-Fits up states k q p zero (id ∷ ids) e h f =
    let set =
      online_bit states k q 0 p 0 (up id) (omega (arith, e)) (omega (arith, e))
        (f.here ∙ (omega arith)) (omega arith) in
    rw
      (
        set,
        online_from-Fits up states (k + 1) (suc q) 0 7 ids (omega (arith, e)) (omega arith)
            (Fits-zero states q p (bit (up id)) (packed_from up 7 ids) f),
      )
      refl
online_from-Fits up states k q p (suc j) (id ∷ ids) e h f =
    let next = Fits-suc states q p j (bit (up id)) (packed_from up j ids) f in
    let set =
      online_bit states k q (suc j) p (byte_at 0 (packed_from up j ids)) (up id)
        (omega (arith, e, h)) (omega (arith, e, h)) next.here (first-packed_from-lt up j ids) in
    rw
      (
        set,
        online_from-Fits up states (k + 1) q (p * 2 + bit (up id)) j ids (omega (arith, e))
            (omega (arith, h)) next,
      )
      refl

-- The bits of a packed answer are read back as what the server knows.
pub online_from-packed :
    (up : List ℕ → Bool) (ids : List (List ℕ)) → online_from (packed up ids) 0 ids ≡ those up ids
unfolding packed
online_from-packed up ids =
    online_from-Fits up (packed_from up 7 ids) 0 0 0 7 ids (omega arith) (omega arith) (record {
      here = omega arith;
      later = λ i. ap (λ n. byte_at n (packed_from up 7 ids)) (omega arith);
    })

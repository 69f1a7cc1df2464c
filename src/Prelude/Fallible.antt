-- ===== src/Prelude/Fallible.antt =====
-- Exceptions as values.
use mathlib.Core.Path.{◌≡◌, refl, ap, ◌∙◌}
use mathlib.Core.Logic.{◌⊎◌, inl, inr}
use mathlib.Core.Bool.{Bool, true, false}

pub data Result {ℓ} (E : Type 0) (R : Type ℓ) : Type ℓ where
  err : E → Result E R
  ok : R → Result E R

-- `if (b) throw e`
abbrev pub throw_if : {E : Type 0} → Bool → E → Result E (Unit {0})
throw_if false e = ok tt
throw_if true e = err e

abbrev pub map_ok {ℓ κ} : {E : Type 0} {R : Type ℓ} {S : Type κ} → (R → S) → Result E R → Result E S
map_ok f (err e) = err e
map_ok f (ok r) = ok (f r)

infixl 5 ◌>>◌ ◌>>=◌
abbrev pub ◌>>=◌ {ℓ κ} :
    {E : Type 0} {R : Type ℓ} {S : Type κ} → Result E R → (R → Result E S) → Result E S
err e >>= next = err e
ok r >>= next = next r

abbrev pub ◌>>◌ {κ} : {E : Type 0} {S : Type κ} → Result E (Unit {0}) → Result E S → Result E S
first >> next = first >>= (λ u. next)

pub ok-inj {ℓ} : {E : Type 0} {R : Type ℓ} {r s : R} → ◌≡◌ {A = Result E R} (ok r) (ok s) → r ≡ s
ok-inj h = cc

-- How it ended.
pub Result-cases {ℓ} :
    {E : Type 0} {R : Type ℓ} (m : Result E R) → ((e : E) × (m ≡ err e)) ⊎ ((r : R) × (m ≡ ok r))
Result-cases (err e) = inl (e, refl)
Result-cases (ok r) = inr (r, refl)

module _ {ℓ κ} {E : Type 0} {R : Type ℓ} {S : Type κ} where
  -- What a chain that went through rests on.
  pub >>=-eq-ok :
      (first : Result E R) (next : R → Result E S) {s : S}
      → (first >>= next) ≡ ok s
      → (r : R) × (first ≡ ok r) × (next r ≡ ok s)
  >>=-eq-ok (err e) next h = cc
  >>=-eq-ok (ok r) next h = (r, refl, h)

pub throw_if-eq-ok {ℓ} :
    {E : Type 0} {B : Type ℓ} (b : Bool) (e : E) (k : Result E B) {x : B}
    → (throw_if b e >> k) ≡ ok x
    → (b ≡ false) × (k ≡ ok x)
throw_if-eq-ok true e k h = cc
throw_if-eq-ok false e k h = (refl, h)

module _ {ℓ κ μ} {E : Type 0} {A : Type ℓ} {B : Type κ} {C : Type μ} (r : B → C)
    (f g : A → Result E B) where
  map_ok->>=-self :
      (m : Result E A)
      → ((a : A) → m ≡ ok a → map_ok r (f a) ≡ map_ok r (g a))
      → map_ok r (m >>= f) ≡ map_ok r (m >>= g)
  map_ok->>=-self (ok a) h = h a refl
  map_ok->>=-self (err x) h = refl

  -- Two chains that agree at each step.
  pub map_ok->>= :
      {m n : Result E A}
      → m ≡ n
      → ((a : A) → m ≡ ok a → map_ok r (f a) ≡ map_ok r (g a))
      → map_ok r (m >>= f) ≡ map_ok r (n >>= g)
  map_ok->>= {m = m} e h = map_ok->>=-self m h ∙ ap (λ x. map_ok r (x >>= g)) e

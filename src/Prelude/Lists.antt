-- ===== src/Prelude/Lists.antt =====
-- Lists tested and measured by functions that run: `some`, `every`, `includes` and `length`.
use Prim.Native.Nat.{ℕ, suc, ◌+◌}
use rem0te.Prelude.Tests.{if◌then◌else◌}
use mathlib.Core.Path.{◌≡◌}
use mathlib.Core.Logic.{◌↔◌, ◌⊎◌}
use mathlib.Core.Bool.{Bool, true, false, ◌&&◌, ◌||◌}
use mathlib.Core.List.{List, [], ◌∷◌}
use native.Mathlib.Omega.{arith}

module _ {ℓ} {A : Type ℓ} where
  abbrev pub length : List A → ℕ
  length [] = 0
  length (x ∷ xs) = suc (length xs)

  -- `xs.length === 0`
  abbrev pub is_nil : List A → Bool
  is_nil [] = true
  is_nil (x ∷ xs) = false

  -- `xs.some(p)`
  unfoldable pub any : (A → Bool) → List A → Bool
  any p [] = false
  any p (x ∷ xs) = p x || any p xs

  -- `xs.every(p)`
  unfoldable pub all : (A → Bool) → List A → Bool
  all p [] = true
  all p (x ∷ xs) = p x && all p xs

  -- `a === b`, from a decision
  abbrev pub same : Discrete A → A → A → Bool
  same dec a b = elim (dec a b) [ yes _ ↦ true | no _ ↦ false ]

  -- `xs.includes(x)`
  unfoldable pub includes : Discrete A → A → List A → Bool
  includes dec x [] = false
  includes dec x (y ∷ ys) = same dec x y || includes dec x ys

  pub same_iff : (dec : Discrete A) (a b : A) → (same dec a b ≡ true) ↔ (a ≡ b)
  same_iff dec a b = ground arith

module _ {ℓ} {A : Type ℓ} where
  -- `updateMany` with a `where` and a `data`: the table and the count
  unfoldable pub update_many : (A → Bool) → (A → A) → List A → List A × ℕ
  update_many p f [] = ([], 0)
  update_many p f (r ∷ rs) =
      let rest = update_many p f rs in
      if p r then (f r ∷ rest.0, 1 + rest.1) else (r ∷ rest.0, rest.1)

-- Some element, and every element, satisfies a predicate.
abbrev pub Any {ℓ} : {A : Type ℓ} → (A → Type 0) → List A → Type 0
Any P [] = ⊥
Any P (x ∷ xs) = P x ⊎ Any P xs

abbrev pub All {ℓ} : {A : Type ℓ} → (A → Type 0) → List A → Type 0
All P [] = Unit
All P (x ∷ xs) = P x × All P xs

-- Two lists of one length, related element by element.
abbrev pub Forall₂ {ℓ κ} : {A : Type ℓ} {B : Type κ} → (A → B → Type 0) → List A → List B → Type 0
Forall₂ R [] [] = Unit
Forall₂ R (x ∷ xs) (y ∷ ys) = R x y × Forall₂ R xs ys
Forall₂ R _ _ = ⊥

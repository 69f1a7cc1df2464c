-- ===== src/Prelude/Updates.antt =====
-- What a conditional update does to a table.
use mathlib.Core.Path.{◌≡◌, refl}
use mathlib.Core.Bool.{Bool, true, false}
use mathlib.Core.List.{List, [], ◌∷◌}
use native.Mathlib.Omega.{arith}
use rem0te.Prelude.Lists.{update_many, any, all}

module _ {ℓ} {A : Type ℓ} (p q : A → Bool) (f : A → A) where
  -- Every row satisfies the test afterwards, if those that are updated do by it and the others did.
  pub all-update_many :
      (xs : List A)
      → ((x : A) → p x ≡ true → q (f x) ≡ true)
      → ((x : A) → p x ≡ false → q x ≡ true)
      → all q (update_many p f xs).0 ≡ true
  unfolding all update_many
  all-update_many [] h k = refl
  all-update_many (x ∷ xs) h k = ground (arith, all-update_many xs h k, h x, k x)

  -- A test that the update keeps.
  pub all-update_many-keep :
      (xs : List A)
      → ((x : A) → q x ≡ true → q (f x) ≡ true)
      → all q xs ≡ true
      → all q (update_many p f xs).0 ≡ true
  unfolding all update_many
  all-update_many-keep [] h k = refl
  all-update_many-keep (x ∷ xs) h k = ground (arith, all-update_many-keep xs h, h x)

  pub any-update_many :
      (xs : List A) → ((x : A) → q (f x) ≡ q x) → any q (update_many p f xs).0 ≡ any q xs
  unfolding any update_many
  any-update_many [] h = refl
  any-update_many (x ∷ xs) h = ground (arith, any-update_many xs h, h x)

  -- With no row to update.
  pub none_updated :
      (xs : List A)
      → ((x : A) → q x ≡ true → p x ≡ false)
      → all q xs ≡ true
      → (update_many p f xs).1 ≡ 0
  unfolding all update_many
  none_updated [] h k = refl
  none_updated (x ∷ xs) h k = ground (arith, none_updated xs h, h x)

  pub some_updated :
      (xs : List A)
      → ((x : A) → p x ≡ true → q x ≡ true)
      → any q xs ≡ false
      → (update_many p f xs).1 ≡ 0
  unfolding any update_many
  some_updated [] h k = refl
  some_updated (x ∷ xs) h k = ground (arith, some_updated xs h, h x)

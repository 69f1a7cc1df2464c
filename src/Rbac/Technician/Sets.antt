-- ===== src/Rbac/Technician/Sets.antt =====
-- Membership in the sets that the code builds from lists.
use rem0te.Rbac.Technician.{add_all, union}
use rem0te.Prelude.{
  ◌≡◌, refl, ap, ◌∙◌, true, ◌||◌, List, [], ◌∷◌, ◌++◌, arith, same, same_iff, includes, Bool-cases,
  inl, inr,
}

module _ {ℓ} {A : Type ℓ} (dec : Discrete A) where
  pub includes-append :
      (x : A) (xs ys : List A)
      → includes dec x (xs ++ ys) ≡ (includes dec x xs || includes dec x ys)
  unfolding includes
  includes-append x [] ys = refl
  includes-append x (z ∷ xs) ys = ground (arith, includes-append x xs ys)

  same-includes :
      (x y : A) (xs : List A) → same dec x y ≡ true → includes dec x xs ≡ includes dec y xs
  same-includes x y xs h = ap (λ z. includes dec z xs) ((same_iff dec x y).0 h)

  includes-add_all :
      (x : A) (set ys : List A)
      → includes dec x (add_all dec set ys) ≡ (includes dec x set || includes dec x ys)
  unfolding add_all includes
  includes-add_all x set [] = ground arith
  includes-add_all x set (y ∷ ys) = elim (Bool-cases (includes dec y set)) [
    | inl h ↦ rw h (ground (arith, includes-add_all x set ys, same-includes x y set))
    | inr h ↦
        rw h (ground (arith, includes-add_all x (set ++ y ∷ []) ys, includes-append x set (y ∷ [])))
  ]

  includes-empty : (x : A) (ys : List A) → includes dec x (add_all dec [] ys) ≡ includes dec x ys
  unfolding includes
  includes-empty x ys = includes-add_all x [] ys

  pub includes-union :
      (x : A) (xs ys : List A)
      → includes dec x (union dec xs ys) ≡ (includes dec x xs || includes dec x ys)
  includes-union x xs ys = includes-empty x (xs ++ ys) ∙ includes-append x xs ys

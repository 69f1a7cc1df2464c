-- ===== src/Support/Lifecycle/Changes.antt =====
-- What a step does to each row.
use rem0te.Support.Queue.{claim_data, CloseKind, release_data, close_data}
use rem0te.Support.{Status, SupportRequest, is_waiting, is_taken}
use rem0te.Support.Lifecycle.{Agrees, IsSound}
use rem0te.Prelude.{
  update_many, ◌⊎◌, ℕ, ◌≡◌, ◌≢◌, ◌≤◌, Bool, true, [], ◌∷◌, none, Bool-cases, inl, inr, refl, Option,
  List, String, arith, ◌∙◌, Forall₂,
}

-- One row before and after a step.
pub record Grows (r s : SupportRequest) : Type 0 where
  pub same_id : s.id ≡ r.id
  pub version_grows : r.version ≤ s.version
  pub stays_sound : IsSound r → IsSound s

pub Grows-self : (r : SupportRequest) → Grows r r
Grows-self r = record { same_id = refl; version_grows = omega arith; stays_sound = λ h. h }

pub Grows-trans : (r s t : SupportRequest) → Grows r s → Grows s t → Grows r t
Grows-trans r s t g h = record {
  same_id = h.same_id ∙ g.same_id;
  version_grows = ground (arith, g.version_grows, h.version_grows);
  stays_sound = λ x. h.stays_sound (g.stays_sound x);
}

abbrev pub AllGrow : List SupportRequest → List SupportRequest → Type 0
AllGrow xs ys = Forall₂ Grows xs ys

pub AllGrow-self : (xs : List SupportRequest) → AllGrow xs xs
AllGrow-self [] = tt
AllGrow-self (x ∷ xs) = (Grows-self x, AllGrow-self xs)

pub AllGrow-trans : (xs ys zs : List SupportRequest) → AllGrow xs ys → AllGrow ys zs → AllGrow xs zs
AllGrow-trans [] [] zs g h = h
AllGrow-trans [] (y ∷ ys) zs g h = absurd g
AllGrow-trans (x ∷ xs) [] zs g h = absurd g
AllGrow-trans (x ∷ xs) (y ∷ ys) [] g h = absurd h
AllGrow-trans (x ∷ xs) (y ∷ ys) (z ∷ zs) g h =
    (Grows-trans x y z g.0 h.0, AllGrow-trans xs ys zs g.1 h.1)

module _ (p : SupportRequest → Bool) (f : SupportRequest → SupportRequest) where
  -- An update of the rows that it selects.
  pub update_many-AllGrow :
      ((r : SupportRequest) → p r ≡ true → Grows r (f r))
      → (rows : List SupportRequest) → AllGrow rows (update_many p f rows).0
  unfolding update_many
  update_many-AllGrow h [] = tt
  update_many-AllGrow h (r ∷ rs) = elim (Bool-cases (p r)) [
    | inl e ↦ rw e (h r e, update_many-AllGrow h rs)
    | inr e ↦ rw e (Grows-self r, update_many-AllGrow h rs)
  ]

pub Agrees-waiting :
    (s : Status) (c : Option String) (k : Option ℕ)
    → is_waiting s ≡ true
    → Agrees s c k
    → (c ≡ none) × (k ≡ none)
unfolding Agrees
Agrees-waiting Status.waiting c k e h = h
Agrees-waiting Status.claimed c k e h = cc
Agrees-waiting Status.connecting c k e h = cc
Agrees-waiting Status.completed c k e h = cc
Agrees-waiting Status.canceled c k e h = cc
Agrees-waiting Status.expired c k e h = cc

pub Agrees-taken :
    (s : Status) (c : Option String) (k : Option ℕ)
    → is_taken s ≡ true
    → Agrees s c k
    → (c ≢ none) × (k ≡ none)
unfolding Agrees
Agrees-taken Status.waiting c k e h = cc
Agrees-taken Status.claimed c k e h = h
Agrees-taken Status.connecting c k e h = h
Agrees-taken Status.completed c k e h = cc
Agrees-taken Status.canceled c k e h = cc
Agrees-taken Status.expired c k e h = cc

pub claim_data-Grows :
    (now : ℕ) (user : String) (r : SupportRequest)
    → (is_waiting r.status ≡ true) ⊎ (is_taken r.status ≡ true)
    → Grows r (claim_data now user r)
unfolding Agrees
claim_data-Grows now user r h = record {
  same_id = refl;
  version_grows = omega arith;
  stays_sound = λ s. (
    (λ e. cc),
    elim h [
      | inl e ↦ (Agrees-waiting r.status r.claimed_by_id r.closed_at e s).1
      | inr e ↦ (Agrees-taken r.status r.claimed_by_id r.closed_at e s).1
    ],
  );
}

pub close_data-Grows :
    (kind : CloseKind) (now : ℕ) (o : Option String) (r : SupportRequest)
    → Grows r (close_data kind now o r)
unfolding Agrees
close_data-Grows CloseKind.as_completed now o r = record {
  same_id = refl;
  version_grows = omega arith;
  stays_sound = λ s e. cc;
}
close_data-Grows CloseKind.as_canceled now o r = record {
  same_id = refl;
  version_grows = omega arith;
  stays_sound = λ s e. cc;
}

pub release_data-Grows : (r : SupportRequest) → is_taken r.status ≡ true → Grows r (release_data r)
unfolding Agrees
release_data-Grows r h = record {
  same_id = refl;
  version_grows = omega arith;
  stays_sound = λ s. (refl, (Agrees-taken r.status r.claimed_by_id r.closed_at h s).1);
}

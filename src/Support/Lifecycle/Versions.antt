-- ===== src/Support/Lifecycle/Versions.antt =====
-- What holds of a request through all the steps of the desk.
use rem0te.Support.{SupportRequest, Desk, count_where}
use rem0te.Support.Lifecycle.{Guarded, Step, Steps, IsNew, IsSound}
use rem0te.Support.Lifecycle.Changes.{Grows, AllGrow}
use rem0te.Support.Lifecycle.Guards.{Guarded-Won}
use rem0te.Support.Lifecycle.Moves.{Change, Step-Change}
use rem0te.Prelude.{
  update_many, sym, refl, inl, inr, ◌≡◌, ◌≢◌, ◌≤◌, ◌+◌, true, false, Bool, ℕ, [], ◌∷◌, ◌++◌, ◌==◌,
  String, All, List, Any, ◌<◌, arith, ◌∙◌, eq_iff, str_eq, Bool-cases,
}

All-AllGrow :
    (P : SupportRequest → Type 0)
    → ((r s : SupportRequest) → Grows r s → P r → P s)
    → (xs ys : List SupportRequest) → AllGrow xs ys
    → All P xs
    → All P ys
All-AllGrow P step [] [] g h = tt
All-AllGrow P step [] (y ∷ ys) g h = absurd g
All-AllGrow P step (x ∷ xs) [] g h = absurd g
All-AllGrow P step (x ∷ xs) (y ∷ ys) g h = (step x y g.0 h.0, All-AllGrow P step xs ys g.1 h.1)

All-last :
    (P : SupportRequest → Type 0) (xs : List SupportRequest) (r : SupportRequest)
    → All P xs
    → P r
    → All P (xs ++ r ∷ [])
All-last P [] r h k = (k, tt)
All-last P (x ∷ xs) r h k = (h.0, All-last P xs r h.1 k)

IsSound-Step : (d d' : Desk) → Step d d' → All IsSound d.requests → All IsSound d'.requests
IsSound-Step d d' s h = elim (Step-Change d d' s) [
  | Change.grown g ↦ All-AllGrow IsSound (λ r s g. g.stays_sound) d.requests d'.requests g h
  | Change.added r _ sound e ↦ rw e (All-last IsSound d.requests r h sound)
]

-- Through every order of the operations a request that waits has nobody on it, one that is taken
-- has its technician, and exactly the closed ones have a time of closing.
pub Steps-IsSound : (d d' : Desk) → Steps d d' → All IsSound d.requests → All IsSound d'.requests
Steps-IsSound d d' Steps.stay h = h
Steps-IsSound d d' (Steps.then_step {e = e} before s) h =
    IsSound-Step e d' s (Steps-IsSound d e before h)

-- Every row of this id is newer than the version, and there is one.
pub record IsPast (id : String) (version : ℕ) (rows : List SupportRequest) : Type 0 where
  pub newer : All (λ r. r.id ≡ id → version < r.version) rows
  pub present : Any (λ r. r.id ≡ id) rows

Any-AllGrow :
    (id : String) (xs ys : List SupportRequest)
    → AllGrow xs ys
    → Any (λ r. r.id ≡ id) xs
    → Any (λ r. r.id ≡ id) ys
Any-AllGrow id [] ys g h = absurd h
Any-AllGrow id (x ∷ xs) [] g h = absurd g
Any-AllGrow id (x ∷ xs) (y ∷ ys) g (inl e) = inl (g.0.same_id ∙ e)
Any-AllGrow id (x ∷ xs) (y ∷ ys) g (inr h) = inr (Any-AllGrow id xs ys g.1 h)

Any-last :
    (id : String) (xs : List SupportRequest) (r : SupportRequest)
    → Any (λ r. r.id ≡ id) xs
    → Any (λ r. r.id ≡ id) (xs ++ r ∷ [])
Any-last id [] r h = absurd h
Any-last id (x ∷ xs) r (inl e) = inl e
Any-last id (x ∷ xs) r (inr h) = inr (Any-last id xs r h)

IsNew-other :
    (id new : String) (rows : List SupportRequest)
    → IsNew new rows
    → Any (λ r. r.id ≡ id) rows
    → new ≢ id
IsNew-other id new [] n h e = absurd h
IsNew-other id new (x ∷ xs) n (inl f) e = ground (arith, n.0, f, e, eq_iff x.id new)
IsNew-other id new (x ∷ xs) n (inr h) e = IsNew-other id new xs n.1 h e

IsPast-Step :
    (id : String) (version : ℕ) (d d' : Desk)
    → Step d d'
    → IsPast id version d.requests
    → IsPast id version d'.requests
IsPast-Step id version d d' s h = elim (Step-Change d d' s) [
  | Change.grown g ↦ record {
    newer =
        All-AllGrow (λ r. r.id ≡ id → version < r.version)
          (λ r s g k e. ground (arith, k (sym g.same_id ∙ e), g.version_grows)) d.requests
          d'.requests g h.newer;
    present = Any-AllGrow id d.requests d'.requests g h.present;
  }
  | Change.added r new _ e ↦ rw e (record {
    newer =
        All-last (λ r. r.id ≡ id → version < r.version) d.requests r h.newer
          (λ f. absurd (IsNew-other id r.id d.requests new h.present f));
    present = Any-last id d.requests r h.present;
  })
]

IsPast-Steps :
    (id : String) (version : ℕ) (d d' : Desk)
    → Steps d d'
    → IsPast id version d.requests
    → IsPast id version d'.requests
IsPast-Steps id version d d' Steps.stay h = h
IsPast-Steps id version d d' (Steps.then_step {e = e} before s) h =
    IsPast-Step id version e d' s (IsPast-Steps id version d e before h)

has_id : String → SupportRequest → Bool
has_id id r = str_eq r.id id

module _ (id : String) (version : ℕ) (p : SupportRequest → Bool)
    (f : SupportRequest → SupportRequest)
    (guards : (r : SupportRequest) → p r ≡ true → (r.id ≡ id) × (r.version ≡ version))
    (bumps : (r : SupportRequest) → (f r).version ≡ r.version + 1)
    (grows : (r : SupportRequest) → p r ≡ true → Grows r (f r)) where
  update_many-absent :
      (rows : List SupportRequest)
      → count_where (has_id id) rows ≡ 0
      → (All (λ r. r.id ≡ id → version < r.version) (update_many p f rows).0)
        × ((update_many p f rows).1 ≡ 0)
  unfolding update_many count_where has_id
  update_many-absent [] h = (tt, refl)
  update_many-absent (r ∷ rs) h = elim (Bool-cases (str_eq r.id id)) [
    | inl e ↦ absurd (ground (arith, h, e))
    | inr e ↦
        let other : r.id ≢ id = λ k. ground (arith, k, e, eq_iff r.id id) in
        let rest = update_many-absent rs (ground (arith, h, e)) in
        elim (Bool-cases (p r)) [
          | inl k ↦ absurd (other (guards r k).0)
          | inr k ↦ rw k (((λ s. absurd (other s)), rest.0), rest.1)
        ]
  ]

  update_many-IsPast :
      (rows : List SupportRequest)
      → count_where (has_id id) rows ≡ 1
      → ((update_many p f rows).1 == 0) ≡ false
      → IsPast id version (update_many p f rows).0
  unfolding update_many count_where has_id
  update_many-IsPast [] h hit = cc
  update_many-IsPast (r ∷ rs) h hit = elim (Bool-cases (str_eq r.id id)) [
    | inl e ↦
        let rest = update_many-absent rs (ground (arith, h, e)) in
        elim (Bool-cases (p r)) [
          | inl k ↦ rw k (record {
            newer = ((λ _. ground (arith, (guards r k).1, bumps r)), rest.0);
            present = inl ((grows r k).same_id ∙ (guards r k).0);
          })
          | inr k ↦ absurd (ground (arith, hit, k, rest.1))
        ]
    | inr e ↦
        let other : r.id ≢ id = λ k. ground (arith, k, e, eq_iff r.id id) in
        elim (Bool-cases (p r)) [
          | inl k ↦ absurd (other (guards r k).0)
          | inr k ↦
              let rest = update_many-IsPast rs (ground (arith, h, e)) (ground (arith, hit, k)) in
              rw k (record {
                newer = ((λ s. absurd (other s)), rest.newer);
                present = inr rest.present;
              })
        ]
  ]

  update_many-picked :
      (Q : SupportRequest → Type 0) (rows : List SupportRequest)
      → ((update_many p f rows).1 == 0) ≡ false
      → All Q rows
      → (r : SupportRequest) × (p r ≡ true) × Q r
  unfolding update_many
  update_many-picked Q [] hit h = cc
  update_many-picked Q (r ∷ rs) hit h = elim (Bool-cases (p r)) [
    | inl k ↦ (r, k, h.0)
    | inr k ↦ update_many-picked Q rs (ground (arith, hit, k)) h.1
  ]

IsPast-Guarded :
    (id : String) (version w : ℕ) (d d' : Desk)
    → IsPast id version d.requests
    → w ≤ version
    → Guarded id w d d'
    → ⊥
IsPast-Guarded id version w d d' past le g =
    let won = Guarded-Won id w d d' g in
    let (r, picked, newer) =
      update_many-picked id w won.picks won.change won.guards won.bumps won.grows
        (λ r. r.id ≡ id → version < r.version) d.requests won.hit past.newer in
    ground (arith, newer (won.guards r picked).0, (won.guards r picked).1, le)

-- Of all claims, hand-offs, releases and closings of a request that name one version, at most one
-- goes through, where the table has one row of its id: after the first, whatever steps come in
-- between, none that names that version or an older one does.
pub Guarded-once :
    (id : String) (version w : ℕ) (a b c d : Desk)
    → count_where (λ r. str_eq r.id id) a.requests ≡ 1
    → Guarded id version a b
    → Steps b c
    → w ≤ version
    → ¬ Guarded id w c d
unfolding has_id
Guarded-once id version w a b c d only first between le second =
    let won = Guarded-Won id version a b first in
    let past : IsPast id version b.requests = rw won.after (
      update_many-IsPast id version won.picks won.change won.guards won.bumps won.grows a.requests
        only won.hit) in
    IsPast-Guarded id version w c d (IsPast-Steps id version b c between past) le second

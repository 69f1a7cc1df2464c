-- ===== src/Auth/SignIn/Lockout/Bound.antt =====
-- How often a wrong credential can be tried.
use rem0te.Auth.SignIn.Lockout.Effects.{Effect, attempt-Effect}
use rem0te.Auth.SignIn.{
  Policy, next_failures, Site, Failures, window, left_of, get_failures, counted,
}
use rem0te.Auth.SignIn.Lockout.{attempt, wrong_tries, Attempt, IsGuess, attempt_time}
use rem0te.Prelude.{
  [], ◌∷◌, none, some, true, refl, arith, inl, inr, if◌then◌else◌, ℕ, Option, String, List, ◌≤◌,
  ◌<◌, ◌≡◌, ◌+◌, All, ◌==◌, Bool-cases, leb, leb→le,
}

-- The state after `k` tries since `start`: a lock lasts past the end of that time.
record IsAfter (p : Policy) (start k : ℕ) (f : Failures) : Type 0 where
  at_least : k ≤ f.count
  recent : start ≤ f.locked_until
  locks : p.max ≤ f.count → start + window p ≤ f.locked_until

data State (p : Policy) (start k : ℕ) (o : Option Failures) : Type 0 where
  fresh : k ≡ 0 → State p start k o
  after_some : (f : Failures) → o ≡ some f → IsAfter p start k f → State p start k o

some_inj {ℓ} : {A : Type ℓ} {a b : A} → some a ≡ some b → a ≡ b
some_inj h = cc

next_locks :
    (p : Policy) (start now n : ℕ)
    → start ≤ now
    → p.max ≤ n
    → start + window p ≤ (if leb p.max n then now + window p else now)
next_locks p start now n since m = ground arith

next_recent :
    (p : Policy) (start now n : ℕ)
    → start ≤ now
    → start ≤ (if leb p.max n then now + window p else now)
next_recent p start now n since = ground arith

-- the failures on record do not lock yet
below_max :
    (p : Policy) (start now k : ℕ) (f : Failures)
    → now < start + window p
    → (left_of now (some f) == 0) ≡ true
    → IsAfter p start k f
    → f.count < p.max
below_max p start now k f before free h =
    let passed : f.locked_until ≤ now = ground arith in
    elim (Bool-cases (leb p.max f.count)) [
      | inl m ↦ let late = h.locks (leb→le p.max f.count m) in absurd (omega arith)
      | inr m ↦ ground arith
    ]

next-IsAfter :
    (p : Policy) (start now k : ℕ) (o : Option Failures)
    → 0 < p.max
    → start ≤ now
    → now < start + window p
    → (left_of now o == 0) ≡ true
    → State p start k o
    → (1 + k ≤ p.max) × IsAfter p start (1 + k) (next_failures p now o)
unfolding next_failures
next-IsAfter p start now k o on since before free (State.fresh z) = (
  omega arith,
  record {
    at_least = omega arith;
    recent = next_recent p start now (counted now (window p) o + 1) since;
    locks = next_locks p start now (counted now (window p) o + 1) since;
  },
)
next-IsAfter p start now k none on since before free (State.after_some f e h) = cc
next-IsAfter p start now k (some g) on since before free (State.after_some f e h) =
    let same : g ≡ f = some_inj e in
    let h' : IsAfter p start k g = rw same h in
    let low = below_max p start now k g before free h' in
    let counts : counted now (window p) (some g) ≡ g.count = let r = h'.recent in ground arith in
    let least = h'.at_least in
    (
      omega arith,
      record {
        at_least = rw counts (omega arith);
        recent = next_recent p start now (counted now (window p) (some g) + 1) since;
        locks = next_locks p start now (counted now (window p) (some g) + 1) since;
      },
    )

wrong_tries_from :
    (site : Site) (id : String) (start k : ℕ) (attempts : List Attempt)
    (fs : List (String × Failures))
    → 0 < site.policy.max
    → All (IsGuess site id start) attempts
    → k ≤ site.policy.max
    → State site.policy start k (get_failures id fs)
    → k + wrong_tries site id attempts fs ≤ site.policy.max
unfolding wrong_tries
wrong_tries_from site id start k [] fs on g b s = omega arith
wrong_tries_from site id start k (a ∷ rest) fs on g b s =
    elim (attempt-Effect site on id a fs g.0.is_misfit) [
      | Effect.kept w e ↦
          let s' : State site.policy start k (get_failures id (attempt site a fs).1) = rw e s in
          rw w (wrong_tries_from site id start k rest (attempt site a fs).1 on g.1 b s')
      | Effect.failed w free e ↦
          let (b', h) =
            next-IsAfter site.policy start (attempt_time a) k (get_failures id fs) on g.0.since
              g.0.before free s in
          let ih = wrong_tries_from site id start (1 + k) rest (attempt site a fs).1 on g.1 b' (
            State.after_some (next_failures site.policy (attempt_time a) (get_failures id fs)) e
              h) in
          rw w (omega arith)
    ]

-- However the attempts on an account come, by passwords and by step-ups, among those of other
-- users, and whatever failures are on record before: in any time as long as a lock, no more than
-- the policy's maximum of wrong credentials are tried, if the policy is on, no attempt on the account
-- has the right credential, and the attempts come one after the other.
pub wrong_tries-le :
    (site : Site) (id : String) (start : ℕ) (attempts : List Attempt)
    (fs : List (String × Failures))
    → 0 < site.policy.max
    → All (IsGuess site id start) attempts
    → wrong_tries site id attempts fs ≤ site.policy.max
wrong_tries-le site id start attempts fs on g =
    let h = wrong_tries_from site id start 0 attempts fs on g (omega arith) (State.fresh refl) in
    omega arith

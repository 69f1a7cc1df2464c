-- ===== src/Support/Lifecycle/Guards.antt =====
-- The operations that name a version, as updates.
use rem0te.Support.{
  changed, cannot_handle, already_has_it, cannot_manage, not_claimed, SupportRequest, SupportError,
  Desk, add_event, is_taken, clean,
}
use rem0te.Support.Lifecycle.{Guarded}
use rem0te.Support.Lifecycle.Changes.{Grows, claim_data-Grows, close_data-Grows, release_data-Grows}
use rem0te.Support.Queue.{
  claim, handoff, release, close, load, can_manage, can_handle, is_by, claim_where, claim_data,
  claim_conflict, handoff_where, taken_where, release_data, may_close, close_where, close_data,
}
use rem0te.Prelude.{
  update_many, ◌>>=◌, ◌==◌, sym, ap, refl, inl, inr, ◌≡◌, ◌≢◌, ◌+◌, if◌then◌else◌, true, false,
  Bool, ℕ, String, Result, err, >>=-eq-ok, ok, ok-inj, arith, eq_iff, throw_if-eq-ok, not,
}

-- A guarded operation that went through: the update that it made, of rows that it saw as they are.
pub record Won (id : String) (version : ℕ) (d d' : Desk) : Type 0 where
  pub picks : SupportRequest → Bool
  pub change : SupportRequest → SupportRequest
  pub after : d'.requests ≡ (update_many picks change d.requests).0
  pub hit : ((update_many picks change d.requests).1 == 0) ≡ false
  pub guards : (r : SupportRequest) → picks r ≡ true → (r.id ≡ id) × (r.version ≡ version)
  pub bumps : (r : SupportRequest) → (change r).version ≡ r.version + 1
  pub grows : (r : SupportRequest) → picks r ≡ true → Grows r (change r)

if-err :
    {A : Type 0} (b : Bool) (m : Result SupportError A) (x : Result SupportError A) (a : A)
    → ((m' : A) → m ≢ ok m')
    → (if b then m else x) ≡ ok a
    → (b ≡ false) × (x ≡ ok a)
if-err true m x a h e = absurd (h a e)
if-err false m x a h e = (refl, e)

never :
    {A B : Type 0} (m : Result SupportError A) (f : A → SupportError) (b : B)
    → (m >>= λ a. err (f a)) ≢ ok b
never (ok a) f b h = cc
never (err e) f b h = cc

pub Guarded-Won :
    (id : String) (version : ℕ) (d d' : Desk) → Guarded id version d d' → Won id version d d'
unfolding claim handoff release close add_event
Guarded-Won id version d d' (Guarded.claiming now actor before h) =
    let (r, _, h1) = >>=-eq-ok (load actor id before) _ h in
    let p = claim_where id version in
    let f = claim_data now actor.user_id in
    let (hit, made) =
      if-err ((update_many p f d.requests).1 == 0) _ _ d'
        (λ m'. never (load actor id d.requests) (claim_conflict actor) m') h1 in
    record {
      picks = p;
      change = f;
      after = ap (λ z. z.requests) (sym (ok-inj made));
      hit = hit;
      guards = λ r e. ground (arith, e, eq_iff r.id id);
      bumps = λ r. refl;
      grows = λ r e. claim_data-Grows now actor.user_id r (inl (ground (arith, e)));
    }
Guarded-Won id version d d' (Guarded.handing users now actor to note before h) =
    let (r, _, h1) = >>=-eq-ok (load actor id before) _ h in
    let (_, h2) = throw_if-eq-ok (not (is_taken r.status)) not_claimed _ h1 in
    let (_, h3) = throw_if-eq-ok (not (can_manage actor r)) cannot_manage _ h2 in
    let (_, h4) = throw_if-eq-ok (is_by r.claimed_by_id to) already_has_it _ h3 in
    let (_, h5) = throw_if-eq-ok (not (can_handle (users to) r.customer_id)) cannot_handle _ h4 in
    let p = handoff_where id version r.claimed_by_id in
    let f = claim_data now to in
    let (hit, made) = throw_if-eq-ok ((update_many p f d.requests).1 == 0) changed _ h5 in
    record {
      picks = p;
      change = f;
      after = ap (λ z. z.requests) (sym (ok-inj made));
      hit = hit;
      guards = λ r e. ground (arith, e, eq_iff r.id id);
      bumps = λ r. refl;
      grows = λ r e. claim_data-Grows now to r (inr (ground (arith, e)));
    }
Guarded-Won id version d d' (Guarded.releasing actor before h) =
    let (r, _, h1) = >>=-eq-ok (load actor id before) _ h in
    let (_, h2) = throw_if-eq-ok (not (can_manage actor r)) cannot_manage _ h1 in
    let p = taken_where id version in
    let (hit, made) =
      throw_if-eq-ok ((update_many p release_data d.requests).1 == 0) changed _ h2 in
    record {
      picks = p;
      change = release_data;
      after = ap (λ z. z.requests) (sym (ok-inj made));
      hit = hit;
      guards = λ r e. ground (arith, e, eq_iff r.id id);
      bumps = λ r. refl;
      grows = λ r e. release_data-Grows r (ground (arith, e));
    }
Guarded-Won id version d d' (Guarded.closing now actor kind outcome before h) =
    let (r, _, h1) = >>=-eq-ok (load actor id before) _ h in
    let (_, h2) = throw_if-eq-ok (not (may_close kind actor r)) cannot_manage _ h1 in
    let p = close_where kind id version in
    let f = close_data kind now (clean outcome 300) in
    let (hit, made) = throw_if-eq-ok ((update_many p f d.requests).1 == 0) changed _ h2 in
    record {
      picks = p;
      change = f;
      after = ap (λ z. z.requests) (sym (ok-inj made));
      hit = hit;
      guards = λ r e. ground (arith, e, eq_iff r.id id);
      bumps = λ r. refl;
      grows = λ r e. close_data-Grows kind now (clean outcome 300) r;
    }

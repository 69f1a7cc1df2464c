-- ===== src/Connect/Single/Once.antt =====
-- Through all the steps a grant that was redeemed stays used.
use rem0te.Rbac.Actor.{Actor}
use rem0te.Connect.{Rows, authorize_connect}
use rem0te.Connect.Grant.{
  claim_where, claim_data, Grant, create_connection_grant, Ledger, RedeemError, log_refusal, Ticket,
  claim_grant,
}
use rem0te.Schedule.{Intl}
use rem0te.Connect.Single.{World, Step, Steps, count_of, expire_grants, is_hit, is_new}
use rem0te.Prelude.{
  refl, none, some, false, ◌==◌, ◌≤◌, all-update_many, all-update_many-keep, any-update_many,
  none_updated, some_updated, [], ◌∷◌, arith, ap, ◌∙◌, not, any, all, ◌||◌, is_some, String,
  update_many, ℕ, List, ◌≡◌, Option, Bool, true, Bool-cases, str_eq, inl, eq_iff, ok, inr,
  Result-cases,
}

abbrev has_id : String → Grant → Bool
has_id id g = str_eq g.id id

-- of another id, or used
abbrev is_spent : String → Grant → Bool
is_spent id g = not (str_eq g.id id) || is_some g.used_at

-- The grant of this id is not redeemed yet, or it was once and is there with every row of it used.
record IsSpent (id : String) (w : World) : Type 0 where
  once : count_of id w.released ≡ 1
  spent : all (is_spent id) w.ledger.grants ≡ true
  there : any (has_id id) w.ledger.grants ≡ true

data Sound (id : String) (w : World) : Type 0 where
  open_grant : count_of id w.released ≡ 0 → Sound id w
  spent_grant : IsSpent id w → Sound id w

-- A step that releases nothing and keeps a spent grant spent.
Sound-quiet :
    (id : String) (w w' : World)
    → count_of id w'.released ≡ count_of id w.released
    → (all (is_spent id) w.ledger.grants ≡ true
        → any (has_id id) w.ledger.grants ≡ true
        → (all (is_spent id) w'.ledger.grants ≡ true) × (any (has_id id) w'.ledger.grants ≡ true))
    → Sound id w
    → Sound id w'
Sound-quiet id w w' e k (Sound.open_grant h) = Sound.open_grant (e ∙ h)
Sound-quiet id w w' e k (Sound.spent_grant s) =
    let (a, b) = k s.spent s.there in
    Sound.spent_grant (record { once = e ∙ s.once; spent = a; there = b })

clash :
    (fresh id : String) (gs : List Grant)
    → fresh ≡ id
    → is_new fresh gs ≡ true
    → any (has_id id) gs ≡ true
    → ⊥
clash fresh id gs e n h = let k : any (has_id fresh) gs ≡ true = rw e h in ground (arith, k)

create_keeps :
    (id : String) (intl : Intl) (rows : Rows) (now : ℕ) (actor : Actor) (ip : Option String)
    (endpoint_id fresh hash : String) (l : Ledger)
    → is_new fresh l.grants ≡ true
    → all (is_spent id) l.grants ≡ true
    → any (has_id id) l.grants ≡ true
    → let l' = (create_connection_grant intl rows now actor ip endpoint_id fresh hash l).1 in
      (all (is_spent id) l'.grants ≡ true) × (any (has_id id) l'.grants ≡ true)
unfolding create_connection_grant all any
create_keeps id intl rows now actor ip endpoint_id fresh hash l n s h =
    elim (Bool-cases (str_eq fresh id)) [
      | inl e ↦ absurd (clash fresh id l.grants ((eq_iff fresh id).0 e) n h)
      | inr e ↦ ground (arith, Result-cases (authorize_connect intl rows now actor endpoint_id))
    ]

expire_keeps :
    (id : String) (now : ℕ) (user : String) (endpoints : Option (List String)) (l : Ledger)
    → all (is_spent id) l.grants ≡ true
    → any (has_id id) l.grants ≡ true
    → let l' = expire_grants now user endpoints l in
      (all (is_spent id) l'.grants ≡ true) × (any (has_id id) l'.grants ≡ true)
unfolding expire_grants
expire_keeps id now user endpoints l s h =
    let f : Grant → Grant = λ g. record g { expires_at = now } in
    (
      all-update_many-keep (is_hit now user endpoints) (is_spent id) f l.grants (λ g k. k) s,
      any-update_many (is_hit now user endpoints) (has_id id) f l.grants (λ g. refl) ∙ h,
    )

log_keeps :
    (e : RedeemError) (row : Option Grant) (l : Ledger) → (log_refusal e row l).grants ≡ l.grants
log_keeps (RedeemError.denied reason) none l = refl
log_keeps (RedeemError.denied reason) (some g) l = refl
log_keeps _ row l = refl

-- A claim that goes through has found a row to update, and is the table's conditional update.
claim_lem :
    (now : ℕ) (ip : Option String) (t : Ticket) (l l' : Ledger)
    → claim_grant now ip t l ≡ ok l'
    → (((update_many (claim_where t.grant.id) (claim_data now ip) l.grants).1 == 0) ≡ false)
      × (l'.grants ≡ (update_many (claim_where t.grant.id) (claim_data now ip) l.grants).0)
unfolding claim_grant
claim_lem now ip t l l' h = ground arith

module _ (now : ℕ) (ip : Option String) (t : Ticket) (l l' : Ledger)
    (h : claim_grant now ip t l ≡ ok l') where
  abbrev p : Grant → Bool
  p = claim_where t.grant.id

  abbrev f : Grant → Grant
  f = claim_data now ip

  claim_keeps :
      (id : String)
      → all (is_spent id) l.grants ≡ true
      → any (has_id id) l.grants ≡ true
      → (all (is_spent id) l'.grants ≡ true) × (any (has_id id) l'.grants ≡ true)
  claim_keeps id s k = rw ((claim_lem now ip t l l' h).1) (
    all-update_many-keep p (is_spent id) f l.grants (λ g j. ground arith) s,
    any-update_many p (has_id id) f l.grants (λ g. refl) ∙ k,
  )

  some_claimed : (update_many p f l.grants).1 ≡ 0 → ⊥
  some_claimed e = ground (arith, (claim_lem now ip t l l' h).0)

  claim_fresh : all (is_spent t.grant.id) l.grants ≡ true → ⊥
  claim_fresh s =
      some_claimed (none_updated p (is_spent t.grant.id) f l.grants (λ g k. ground arith) s)

  claim_finds : any (has_id t.grant.id) l.grants ≡ true
  claim_finds = elim (Bool-cases (any (has_id t.grant.id) l.grants)) [
    | inl k ↦ k
    | inr k ↦
        absurd
          (some_claimed (some_updated p (has_id t.grant.id) f l.grants (λ g j. ground arith) k))
  ]

  claim_spends :
      (all (is_spent t.grant.id) l'.grants ≡ true) × (any (has_id t.grant.id) l'.grants ≡ true)
  claim_spends = rw ((claim_lem now ip t l l' h).1) (
    all-update_many p (is_spent t.grant.id) f l.grants (λ g j. ground arith) (λ g j. ground arith),
    any-update_many p (has_id t.grant.id) f l.grants (λ g. refl) ∙ claim_finds,
  )

  claim_other :
      (id : String) (w w' : World)
      → w.ledger ≡ l
      → w'.ledger ≡ l'
      → str_eq t.grant.id id ≡ false
      → w'.released ≡ t.grant.id ∷ w.released
      → Sound id w
      → Sound id w'
  unfolding count_of
  claim_other id w w' e e' n r s =
      Sound-quiet id w w' (ap (count_of id) r ∙ ground arith)
        (λ a b. rw e' (claim_keeps id (rw e at a) (rw e at b))) s

  claim_same :
      (w w' : World)
      → w.ledger ≡ l
      → w'.ledger ≡ l'
      → w'.released ≡ t.grant.id ∷ w.released
      → Sound t.grant.id w
      → Sound t.grant.id w'
  unfolding count_of
  claim_same w w' e e' r (Sound.open_grant h) =
      let (a, b) = claim_spends in
      Sound.spent_grant (record {
        once = ap (count_of t.grant.id) r ∙ ground (arith, h, eq_iff t.grant.id t.grant.id);
        spent = rw e' a;
        there = rw e' b;
      })
  claim_same w w' e e' r (Sound.spent_grant s) = absurd (claim_fresh (rw e at s.spent))

  Sound-claim :
      (id : String) (w w' : World)
      → w.ledger ≡ l
      → w'.ledger ≡ l'
      → w'.released ≡ t.grant.id ∷ w.released
      → Sound id w
      → Sound id w'
  Sound-claim id w w' e e' r s = elim (Bool-cases (str_eq t.grant.id id)) [
    | inl k ↦
        let same : t.grant.id ≡ id = (eq_iff t.grant.id id).0 k in
        rw (← same) (claim_same w w' e e' r (rw same s))
    | inr k ↦ claim_other id w w' e e' k r s
  ]

Sound-Step : (id : String) (w w' : World) → Step w w' → Sound id w → Sound id w'
Sound-Step id w w' (Step.creating intl rows now actor ip endpoint_id fresh hash n e r) s =
    Sound-quiet id w w' (ap (count_of id) r)
      (λ a b.
        rw (← e) (create_keeps id intl rows now actor ip endpoint_id fresh hash w.ledger n a b))
      s
Sound-Step id w w' (Step.refusing x row e r) s =
    Sound-quiet id w w' (ap (count_of id) r) (λ a b. rw (← e, log_keeps x row w.ledger) (a, b)) s
Sound-Step id w w' (Step.claiming intl decrypt rows read_at now ip hash before t k c r) s =
    Sound-claim now ip t w.ledger w'.ledger c id w w' refl refl r s
Sound-Step id w w' (Step.expiring now user endpoints e r) s =
    Sound-quiet id w w' (ap (count_of id) r)
      (λ a b. rw (← e) (expire_keeps id now user endpoints w.ledger a b)) s

Sound-Steps : (id : String) (w w' : World) → Steps w w' → Sound id w → Sound id w'
Sound-Steps id w w' Steps.stay s = s
Sound-Steps id w w' (Steps.then_step {u = u} before step) s =
    Sound-Step id u w' step (Sound-Steps id w u before s)

count-Sound : (id : String) (w : World) → Sound id w → count_of id w.released ≤ 1
count-Sound id w (Sound.open_grant h) = omega arith
count-Sound id w (Sound.spent_grant s) = let h = s.once in omega arith

-- However requests to create and to redeem grants, refusals and offboardings interleave, with any
-- time between the read and the claim of a redemption, one grant is redeemed at most once, if none
-- was before.
pub count-released :
    (id : String) (w w' : World) → Steps w w' → w.released ≡ [] → count_of id w'.released ≤ 1
unfolding count_of
count-released id w w' steps e =
    count-Sound id w' (Sound-Steps id w w' steps (Sound.open_grant (ap (count_of id) e)))

-- ===== src/Support/Retention/Effect.antt =====
-- What one run of retention achieves.
use rem0te.Support.{SupportRequest, Desk, is_waiting, is_open_status}
use rem0te.Support.Retention.{
  expire_where, expire_data, erase, retention, anonymize, is_old, old_ids, erase_events,
}
use mathlib.Core.Path.{subst}
use rem0te.Prelude.{
  update_many, sym, refl, inl, inr, ◌≡◌, true, false, Bool, ℕ, zero, suc, [], ◌∷◌, length, String,
  List, ◌<◌, Any, All, str_eq, Bool-cases, arith, eq_iff, ◌∙◌, Option, none, is_some, ◌≤◌, ◌+◌,
  some, ◌*◌,
}

update_many-All :
    (P Q : SupportRequest → Type 0) (p : SupportRequest → Bool)
    (f : SupportRequest → SupportRequest)
    → ((r : SupportRequest) → p r ≡ true → P r → Q (f r))
    → ((r : SupportRequest) → p r ≡ false → P r → Q r)
    → (rows : List SupportRequest) → All P rows
    → All Q (update_many p f rows).0
unfolding update_many
update_many-All P Q p f hit miss [] h = tt
update_many-All P Q p f hit miss (r ∷ rs) h = elim (Bool-cases (p r)) [
  | inl e ↦ rw e (hit r e h.0, update_many-All P Q p f hit miss rs h.1)
  | inr e ↦ rw e (miss r e h.0, update_many-All P Q p f hit miss rs h.1)
]

All-each :
    (P : SupportRequest → Type 0)
    → ((r : SupportRequest) → P r)
    → (rows : List SupportRequest) → All P rows
All-each P h [] = tt
All-each P h (r ∷ rs) = (h r, All-each P h rs)

anonymize-All :
    (P : SupportRequest → Type 0) (now : ℕ) (hashes : String → String)
    → ((r : SupportRequest) (hash : String) → P r → P (erase now hash r))
    → (ids : List String) (d : Desk) → All P d.requests
    → All P (anonymize now hashes ids d).requests
unfolding anonymize
anonymize-All P now hashes step [] d h = h
anonymize-All P now hashes step (id ∷ ids) d h =
    anonymize-All P now hashes step ids
      (record {
        requests = (update_many (λ r. str_eq r.id id) (erase now (hashes id)) d.requests).0;
        events = erase_events id d.events;
      })
      (update_many-All P P (λ r. str_eq r.id id) (erase now (hashes id))
        (λ r _ k. step r (hashes id) k) (λ r _ k. k) d.requests h)

-- Nothing is left that waits for more than a day.
retention-expires :
    (now : ℕ) (hashes : String → String) (d : Desk)
    → All (λ r. expire_where now r ≡ false) (retention now hashes d).0.requests
unfolding retention
retention-expires now hashes d =
    let rows = (update_many (expire_where now) (expire_data now) d.requests).0 in
    anonymize-All (λ r. expire_where now r ≡ false) now hashes (λ r hash k. k)
      (old_ids now 500 rows) (record d { requests = rows })
      (update_many-All (λ r. Unit {0}) (λ r. expire_where now r ≡ false) (expire_where now)
        (expire_data now) (λ r _ _. refl) (λ r e _. e) d.requests
        (All-each (λ r. Unit {0}) (λ r. tt) d.requests))

-- An old request is on the list.
Listed : ℕ → List String → SupportRequest → Type 0
Listed now ids r = is_old now r ≡ true → Any (λ id. id ≡ r.id) ids

Listed-more :
    (now : ℕ) (i : String) (ids : List String) (rows : List SupportRequest)
    → All (Listed now ids) rows
    → All (Listed now (i ∷ ids)) rows
unfolding Listed
Listed-more now i ids [] h = tt
Listed-more now i ids (r ∷ rs) h = ((λ e. inr (h.0 e)), Listed-more now i ids rs h.1)

old_ids-old :
    (now n : ℕ) (r : SupportRequest) (rs : List SupportRequest)
    → is_old now r ≡ true
    → old_ids now (suc n) (r ∷ rs) ≡ r.id ∷ old_ids now n rs
unfolding old_ids
old_ids-old now n r rs e = rw e refl

old_ids-young :
    (now n : ℕ) (r : SupportRequest) (rs : List SupportRequest)
    → is_old now r ≡ false
    → old_ids now (suc n) (r ∷ rs) ≡ old_ids now (suc n) rs
unfolding old_ids
old_ids-young now n r rs e = rw e refl

old_ids-Listed :
    (now n : ℕ) (rows : List SupportRequest) (ids : List String)
    → old_ids now n rows ≡ ids
    → length ids < n
    → All (Listed now ids) rows
unfolding Listed
old_ids-Listed now zero rows ids same h = absurd (ground (arith, h))
old_ids-Listed now (suc n) [] ids same h = tt
old_ids-Listed now (suc n) (r ∷ rs) ids same h = elim (Bool-cases (is_old now r)) [
  | inl e ↦
      let grown : r.id ∷ old_ids now n rs ≡ ids = sym (old_ids-old now n r rs e) ∙ same in
      let tail : All (Listed now (r.id ∷ old_ids now n rs)) rs =
        Listed-more now r.id (old_ids now n rs) rs
          (old_ids-Listed now n rs (old_ids now n rs) refl (ground (arith, h, grown))) in
      let head : Listed now (r.id ∷ old_ids now n rs) r = λ _. inl refl in
      (subst (λ i. Listed now i r) grown head, subst (λ i. All (Listed now i) rs) grown tail)
  | inr e ↦
      ((λ k. cc), old_ids-Listed now (suc n) rs ids (sym (old_ids-young now n r rs e) ∙ same) h)
]

not_true : (b : Bool) → (b ≡ true → ⊥) → b ≡ false
not_true true h = absurd (h refl)
not_true false h = refl

is_old-Listed :
    (now : ℕ) (rows : List SupportRequest)
    → All (Listed now []) rows
    → All (λ r. is_old now r ≡ false) rows
unfolding Listed
is_old-Listed now [] h = tt
is_old-Listed now (r ∷ rs) h = (not_true (is_old now r) h.0, is_old-Listed now rs h.1)

anonymize-Listed :
    (now : ℕ) (hashes : String → String) (ids : List String) (d : Desk)
    → All (Listed now ids) d.requests
    → All (λ r. is_old now r ≡ false) (anonymize now hashes ids d).requests
unfolding anonymize Listed
anonymize-Listed now hashes [] d h = is_old-Listed now d.requests h
anonymize-Listed now hashes (id ∷ ids) d h =
    anonymize-Listed now hashes ids
      (record {
        requests = (update_many (λ r. str_eq r.id id) (erase now (hashes id)) d.requests).0;
        events = erase_events id d.events;
      })
      (update_many-All (Listed now (id ∷ ids)) (Listed now ids) (λ r. str_eq r.id id)
        (erase now (hashes id)) (λ r _ _ e. absurd (ground (arith, e)))
        (λ r miss k e. elim (k e) [
          | inl same ↦ absurd (ground (arith, miss, same, eq_iff r.id id))
          | inr more ↦ more
        ])
        d.requests h)

retention-erases :
    (now : ℕ) (hashes : String → String) (d : Desk)
    → (retention now hashes d).2 < 500
    → All (λ r. is_old now r ≡ false) (retention now hashes d).0.requests
unfolding retention
retention-erases now hashes d few =
    let rows = (update_many (expire_where now) (expire_data now) d.requests).0 in
    anonymize-Listed now hashes (old_ids now 500 rows) (record d { requests = rows })
      (old_ids-Listed now 500 rows (old_ids now 500 rows) refl few)

-- Nothing that identifies the person who asked is left.
pub record IsErased (r : SupportRequest) : Type 0 where
  pub no_name : r.contact_name ≡ none
  pub no_email : r.contact_email ≡ none
  pub no_phone : r.contact_phone ≡ none
  pub no_description : r.description ≡ none
  pub no_rustdesk_id : r.reported_rustdesk_id ≡ none
  pub no_ip : r.submit_ip_hash ≡ none

-- A request that is marked as anonymized is erased.
abbrev pub IsHonest : SupportRequest → Type 0
IsHonest r = is_some r.anonymized_at ≡ true → IsErased r

erase-IsErased : (now : ℕ) (hash : String) (r : SupportRequest) → IsErased (erase now hash r)
erase-IsErased now hash r = record {
  no_name = refl;
  no_email = refl;
  no_phone = refl;
  no_description = refl;
  no_rustdesk_id = refl;
  no_ip = refl;
}

expire_data-IsErased : (now : ℕ) (r : SupportRequest) → IsErased r → IsErased (expire_data now r)
expire_data-IsErased now r h = record {
  no_name = h.no_name;
  no_email = h.no_email;
  no_phone = h.no_phone;
  no_description = h.no_description;
  no_rustdesk_id = h.no_rustdesk_id;
  no_ip = h.no_ip;
}

retention-IsHonest :
    (now : ℕ) (hashes : String → String) (d : Desk)
    → All IsHonest d.requests
    → All IsHonest (retention now hashes d).0.requests
unfolding retention
retention-IsHonest now hashes d h =
    let rows = (update_many (expire_where now) (expire_data now) d.requests).0 in
    anonymize-All IsHonest now hashes (λ r hash _ _. erase-IsErased now hash r)
      (old_ids now 500 rows) (record d { requests = rows })
      (update_many-All IsHonest IsHonest (expire_where now) (expire_data now)
        (λ r _ k e. expire_data-IsErased now r (k e)) (λ r _ k. k) d.requests h)

-- What the retention periods allow of a request: it waits for a day at most, and 30 days after it
-- was closed it is erased.
pub record WithinPeriods (now : ℕ) (r : SupportRequest) : Type 0 where
  pub waits : is_waiting r.status ≡ true → now ≤ r.created_at + 24 * 3600000
  pub erased :
      (t : ℕ)
      → is_open_status r.status ≡ false
      → r.closed_at ≡ some t
      → t + 30 * 24 * 3600000 < now
      → IsErased r

old_lem :
    (now t : ℕ) (r : SupportRequest) (mark : Option ℕ)
    → r.anonymized_at ≡ mark
    → is_old now r ≡ false
    → is_open_status r.status ≡ false
    → r.closed_at ≡ some t
    → t + 30 * 24 * 3600000 < now
    → is_some r.anonymized_at ≡ true
old_lem now t r none m young shut closed late =
    absurd (ground (arith, m, young, shut, closed, late))
old_lem now t r (some x) m young shut closed late = ground (arith, m)

each-WithinPeriods :
    (now : ℕ) (rows : List SupportRequest)
    → All (λ r. expire_where now r ≡ false) rows
    → All (λ r. is_old now r ≡ false) rows
    → All IsHonest rows
    → All (WithinPeriods now) rows
each-WithinPeriods now [] fresh young honest = tt
each-WithinPeriods now (r ∷ rs) fresh young honest = (
  record {
    waits = λ w. ground (arith, fresh.0, w);
    erased = λ t shut closed late.
        honest.0 (old_lem now t r r.anonymized_at refl young.0 shut closed late);
  },
  each-WithinPeriods now rs fresh.1 young.1 honest.1,
)

-- After a run that found fewer than 500 requests to erase, where the rows marked as anonymized
-- before it were erased, no request waits for more than a day, and every one that was closed more
-- than 30 days ago has no name, e-mail, phone, description, RustDesk id or address hash left.
pub retention_done :
    (now : ℕ) (hashes : String → String) (d : Desk)
    → All IsHonest d.requests
    → (retention now hashes d).2 < 500
    → All (WithinPeriods now) (retention now hashes d).0.requests
retention_done now hashes d honest few =
    each-WithinPeriods now (retention now hashes d).0.requests (retention-expires now hashes d)
      (retention-erases now hashes d few) (retention-IsHonest now hashes d honest)

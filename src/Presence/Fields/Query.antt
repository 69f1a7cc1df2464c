-- ===== src/Presence/Fields/Query.antt =====
-- Which computers are online.
use rem0te.Presence.Fields.Mask.{those, packed, online_from-packed}
use rem0te.Presence.Fields.{online_from, query_chunks, take_ids, skip_ids, query_online, peer_ids}
use rem0te.Prelude.{
  [], ◌∷◌, some, refl, arith, inl, inr, ap, ◌∙◌, zero, suc, List, ℕ, length, Bool, ◌≡◌, ◌≤◌, ◌++◌,
  Option, Bool-cases,
}

those-split :
    (up : List ℕ → Bool) (n : ℕ) (ids : List (List ℕ))
    → those up (take_ids n ids) ++ those up (skip_ids n ids) ≡ those up ids
unfolding those take_ids skip_ids
those-split up zero ids = refl
those-split up (suc n) [] = refl
those-split up (suc n) (id ∷ ids) = elim (Bool-cases (up id)) [
  | inl e ↦ rw e (ap (λ l. id ∷ l) (those-split up n ids))
  | inr e ↦ rw e (those-split up n ids)
]

length-skip_ids :
    (n : ℕ) (id : List ℕ) (ids : List (List ℕ)) → length (skip_ids (suc n) (id ∷ ids)) ≤ length ids
unfolding skip_ids
length-skip_ids zero id ids = omega arith
length-skip_ids (suc n) id [] = omega arith
length-skip_ids (suc n) id (x ∷ ids) = let h = length-skip_ids n x ids in omega arith

-- The server answers each chunk of the query with the bitmask of what it knows.
unfoldable pub Answers :
    (List ℕ → Bool) → (List (List ℕ) → Option (List ℕ)) → ℕ → List (List ℕ) → Type 0
Answers up ask k [] = Unit
Answers up ask zero (id ∷ ids) = Unit
Answers up ask (suc k) (id ∷ ids) =
    (ask (take_ids 500 (id ∷ ids)) ≡ some (packed up (take_ids 500 (id ∷ ids))))
    × Answers up ask k (skip_ids 500 (id ∷ ids))

one_chunk :
    (ask : List (List ℕ) → Option (List ℕ)) (k : ℕ) (id : List ℕ) (ids more : List (List ℕ))
    (states : List ℕ)
    → ask (take_ids 500 (id ∷ ids)) ≡ some states
    → query_chunks ask k (skip_ids 500 (id ∷ ids)) ≡ some more
    → query_chunks ask (suc k) (id ∷ ids)
      ≡ some (online_from states 0 (take_ids 500 (id ∷ ids)) ++ more)
unfolding query_chunks
one_chunk ask k id ids more states e h = ground (arith, e, h)

chunks_all :
    (up : List ℕ → Bool) (ask : List (List ℕ) → Option (List ℕ)) (k : ℕ) (ids : List (List ℕ))
    → Answers up ask k ids
    → length ids ≤ k
    → query_chunks ask k ids ≡ some (those up ids)
unfolding Answers query_chunks those
chunks_all up ask k [] a h = refl
chunks_all up ask zero (id ∷ ids) a h = absurd (omega arith)
chunks_all up ask (suc k) (id ∷ ids) (e, a) h =
    let short : length ids ≤ k = omega arith in
    let fewer : length (skip_ids 500 (id ∷ ids)) ≤ length ids = length-skip_ids 499 id ids in
    let rest = chunks_all up ask k (skip_ids 500 (id ∷ ids)) a (omega arith) in
    let states = packed up (take_ids 500 (id ∷ ids)) in
    let here = online_from-packed up (take_ids 500 (id ∷ ids)) in
    one_chunk ask k id ids (those up (skip_ids 500 (id ∷ ids))) states e rest
    ∙ ap (λ l. some (l ++ those up (skip_ids 500 (id ∷ ids)))) here
    ∙ ap some (those-split up 500 (id ∷ ids))

-- Where the server answers each chunk with the bitmask of what it knows, eight ids to a byte and the
-- first in the highest bit, the query ends and gives exactly the ids of six to fifteen digits that
-- are online, in their order.
pub query_online-those :
    (up : List ℕ → Bool) (ask : List (List ℕ) → Option (List ℕ)) (ids : List (List ℕ))
    → Answers up ask (length (peer_ids ids)) (peer_ids ids)
    → query_online ask ids ≡ some (those up (peer_ids ids))
unfolding query_online
query_online-those up ask ids a =
    chunks_all up ask (length (peer_ids ids)) (peer_ids ids) a (omega arith)

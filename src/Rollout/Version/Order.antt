-- ===== src/Rollout/Version/Order.antt =====
-- The versions in their order.
use rem0te.Prelude.{ℕ, ◌≡◌, ◌≢◌, refl, List, [], ◌∷◌, String, arith}
use rem0te.Rollout.Version.{
  older, same, newer, Verdict, compare_segments, compare_versions, segments,
}

abbrev pub flip : Verdict → Verdict
flip older = newer
flip same = same
flip newer = older

flip-segments : (as' bs : List ℕ) → compare_segments bs as' ≡ flip (compare_segments as' bs)
unfolding compare_segments
flip-segments [] [] = refl
flip-segments [] (b ∷ bs) = ground (arith, flip-segments [] bs)
flip-segments (a ∷ as') [] = ground (arith, flip-segments as' [])
flip-segments (a ∷ as') (b ∷ bs) = ground (arith, flip-segments as' bs)

-- At least as new.
abbrev pub NotOlder : Verdict → Type 0
NotOlder v = v ≢ older

trans-segments :
    (as' bs cs : List ℕ)
    → NotOlder (compare_segments as' bs)
    → NotOlder (compare_segments bs cs)
    → NotOlder (compare_segments as' cs)
unfolding compare_segments
trans-segments [] [] [] h k = h
trans-segments [] [] (c ∷ cs) h k = k
trans-segments [] (b ∷ bs) [] h k = ground arith
trans-segments [] (b ∷ bs) (c ∷ cs) h k = ground (arith, trans-segments [] bs cs)
trans-segments (a ∷ as') [] [] h k = h
trans-segments (a ∷ as') [] (c ∷ cs) h k = ground (arith, trans-segments as' [] cs)
trans-segments (a ∷ as') (b ∷ bs) [] h k = ground (arith, trans-segments as' bs [])
trans-segments (a ∷ as') (b ∷ bs) (c ∷ cs) h k = ground (arith, trans-segments as' bs cs)

-- "At least as new as" is transitive, and swapping the arguments turns the verdict round.
pub compare_versions-order :
    (a b c : String)
    → NotOlder (compare_versions a b)
    → NotOlder (compare_versions b c)
    → NotOlder (compare_versions a c) × (compare_versions b a ≡ flip (compare_versions a b))
unfolding compare_versions
compare_versions-order a b c h k = (
  trans-segments (segments a) (segments b) (segments c) h k,
  flip-segments (segments a) (segments b),
)

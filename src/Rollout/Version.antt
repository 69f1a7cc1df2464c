-- ===== src/Rollout/Version.antt =====
-- `compareVersions` and `agentMeetsContract` of apps/api/src/common/agent-contract.ts. A segment is
-- read as `parseInt` reads one that has neither a sign nor a blank in front.
pub mod Order
use Prim.Native.Nat.{compare, Ordering}
use rem0te.Prelude.{
  ℕ, zero, suc, ◌+◌, ◌-◌, ◌*◌, Bool, true, false, ◌&&◌, Option, none, some, List, [], ◌∷◌, String,
  leb, ◌==◌, if◌then◌else◌, codes,
}

pub data Verdict : Type 0 where
  older same newer : Verdict

-- `a.replace(/^v/, '')`
abbrev drop_v : List ℕ → List ℕ
drop_v [] = []
drop_v (c ∷ cs) = if c == b'v' then cs else c ∷ cs

-- `split('.')`, the segment at hand in front
split_dots : List ℕ → List (List ℕ)
split_dots [] = [] ∷ []
split_dots (c ∷ cs) = elim (split_dots cs) [
  | [] ↦ (c ∷ []) ∷ []
  | s ∷ rest ↦ if c == b'.' then [] ∷ s ∷ rest else (c ∷ s) ∷ rest
]

-- `parseInt(x, 10) || 0`
segment_value : ℕ → List ℕ → ℕ
segment_value acc [] = acc
segment_value acc (c ∷ cs) =
    let rest = segment_value (acc * 10 + (c - b'0')) cs in
    if leb b'0' c && leb c b'9' then rest else acc

segment_values : List (List ℕ) → List ℕ
unfolding segment_value
segment_values [] = []
segment_values (s ∷ ss) = segment_value 0 s ∷ segment_values ss

unfoldable pub segments : String → List ℕ
unfolding split_dots segment_values
segments v = segment_values (split_dots (drop_v (codes v)))

abbrev pub and_then : Ordering → Verdict → Verdict
and_then Ordering.lt rest = older
and_then Ordering.eq rest = rest
and_then Ordering.gt rest = newer

-- The loop over the segments; a missing one counts as 0.
unfoldable pub compare_segments : List ℕ → List ℕ → Verdict
compare_segments [] [] = same
compare_segments [] (b ∷ bs) = let rest = compare_segments [] bs in and_then (compare 0 b) rest
compare_segments (a ∷ as') [] = let rest = compare_segments as' [] in and_then (compare a 0) rest
compare_segments (a ∷ as') (b ∷ bs) =
    let rest = compare_segments as' bs in and_then (compare a b) rest

unfoldable pub compare_versions : String → String → Verdict
unfolding segments compare_segments
compare_versions a b = compare_segments (segments a) (segments b)

abbrev pub contract_version : String
contract_version = "0.20.0"

abbrev is_older : Verdict → Bool
is_older older = true
is_older _ = false

unfoldable pub agent_meets_contract : Option String → Bool
unfolding compare_versions
agent_meets_contract none = false
agent_meets_contract (some v) = elim (compare_versions v contract_version) [
  | older ↦ false
  | _ ↦ true
]

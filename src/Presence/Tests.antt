-- ===== src/Presence/Tests.antt =====
-- A short message in its frame.
use rem0te.Presence.Fields.Query.{Answers, query_online-those}
use rem0te.Presence.Fields.Mask.{those, packed}
use rem0te.Presence.Fields.Roundtrip.{read_reply-frame}
use rem0te.Presence.Fields.Loops.{get_field_on-ends}
use rem0te.Presence.Fields.{
  field, get_field_on, is_online, varint, byte_at, varint_on, unfinished, get_field, read_reply,
  peer_ids, take_ids, skip_ids, query_online,
}
use rem0te.Presence.{frame}
use rem0te.Prelude.{[], ◌∷◌, some, true, false, refl, arith, all, ℕ, ◌≡◌, List, ◌≢◌, Bool, ◌==◌}

abbrev message : List ℕ
message = 186 ∷ 1 ∷ 0 ∷ []

-- The header says three bytes.
framed : frame message ≡ 12 ∷ message
unfolding frame
framed = refl

-- A buffer whose length runs past its end.
abbrev cut_short : List ℕ
cut_short = 194 ∷ 1 ∷ 200 ∷ 1 ∷ 7 ∷ []

get_field_on-ends_example :
    (get_field_on 9 24 cut_short ≢ unfinished)
    × (get_field_on 9 24 cut_short ≡ get_field 24 cut_short)
get_field_on-ends_example = get_field_on-ends 9 24 cut_short (omega arith)

read_reply-frame_example :
    read_reply (frame (field 24 (field 1 (160 ∷ [])))) ≡ some (some (160 ∷ []))
unfolding field varint varint_on
read_reply-frame_example = read_reply-frame (160 ∷ []) (omega arith)

-- The first and the third of the computers are online.
online_bits : (is_online (160 ∷ []) 0 ≡ true) × (is_online (160 ∷ []) 1 ≡ false)
unfolding is_online byte_at
online_bits = (refl, refl)

-- Two computers and a text that is no id; the first computer is online.
abbrev some_ids : List (List ℕ)
some_ids = (49 ∷ 50 ∷ 51 ∷ 52 ∷ 53 ∷ 54 ∷ []) ∷ (97 ∷ []) ∷ (50 ∷ 50 ∷ 51 ∷ 52 ∷ 53 ∷ 54 ∷ []) ∷ []

abbrev first_digit_one : List ℕ → Bool
first_digit_one [] = false
first_digit_one (c ∷ cs) = c == 49

query_online-those_example :
    query_online (λ chunk. some (128 ∷ [])) some_ids
    ≡ some ((49 ∷ 50 ∷ 51 ∷ 52 ∷ 53 ∷ 54 ∷ []) ∷ [])
unfolding peer_ids those Answers packed take_ids skip_ids all
query_online-those_example =
    query_online-those first_digit_one (λ chunk. some (128 ∷ [])) some_ids (refl, tt)

-- ===== src/Presence/Fields.antt =====
-- The protobuf of apps/api/src/enrollment/hbbs-presence.ts: `varint`, `field`, `readVarint`,
-- `getField`, and the request and the reply of `ask`. A number stays below 2^53, where the code's
-- arithmetic is exact.
use rem0te.Presence.{frame, read_frame}
use rem0te.Prelude.{
  [], ◌∷◌, none, some, true, false, ◌>>=◌, ◌>>◌, refl, arith, inl, inr, not, ◌&&◌, ◌||◌, ap, sym,
  ◌∙◌, is_some, is_nil, any, all, zero, suc, if◌then◌else◌, ℕ, Option, List, ◌*◌, ◌++◌, Bool, ◌%◌,
  get_or, ◌+◌, length, ◌==◌, ◌/◌, ◌^◌, ltb, ◌-◌, leb,
}
pub mod Loops
pub mod Roundtrip
pub mod Query
pub mod Mask

-- `b`, then the bytes if there are any
abbrev pub and_then : ℕ → Option (List ℕ) → Option (List ℕ)
and_then b none = none
and_then b (some bs) = some (b ∷ bs)

-- The loop of `varint`: none when the rounds run out.
unfoldable pub varint_on : ℕ → ℕ → Option (List ℕ)
varint_on zero n = none
varint_on (suc k) n =
    let rest = varint_on k (n / 128) in
    if leb n 127 then some (n ∷ []) else and_then (n % 128 + 128) rest

-- Five bytes hold 32 bits, the range of the code's shifts.
unfoldable pub varint : ℕ → List ℕ
unfolding varint_on
varint n = get_or (varint_on 5 n) []

unfoldable pub field : ℕ → List ℕ → List ℕ
unfolding varint
field num payload = varint (num * 8 + 2) ++ (varint (length payload) ++ payload)

-- `readVarint` from a position on, which is what is left of the buffer; none where it throws
unfoldable pub read_varint_from : ℕ → ℕ → List ℕ → Option (ℕ × List ℕ)
read_varint_from v shift [] = none
read_varint_from v shift (c ∷ bs) =
    let rest = read_varint_from (v + c % 128 * 2 ^ shift) (shift + 7) bs in
    if ltb (c % 256) 128 then some (v + c % 128 * 2 ^ shift, bs) else rest

unfoldable pub read_varint : List ℕ → Option (ℕ × List ℕ)
unfolding read_varint_from
read_varint bs = read_varint_from 0 0 bs

-- `subarray(0, n)` and `subarray(n)`
unfoldable pub take_up_to : ℕ → List ℕ → List ℕ
take_up_to zero bs = []
take_up_to (suc n) [] = []
take_up_to (suc n) (b ∷ bs) = b ∷ take_up_to n bs

unfoldable pub skip : ℕ → List ℕ → List ℕ
skip zero bs = bs
skip (suc n) [] = []
skip (suc n) (b ∷ bs) = skip n bs

-- How a search ended: by an exception, without the field, with its payload, or not yet.
pub data Search : Type 0 where
  truncated absent unfinished : Search
  found : List ℕ → Search

-- What one round does: it ends the search, or goes on with the rest of the buffer.
pub data Round : Type 0 where
  ends : Search → Round
  goes_on : List ℕ → Round

-- `tag >>> 3`
abbrev pub tag_number : ℕ → ℕ
tag_number tag = tag % 4294967296 / 8

abbrev pub with_length : ℕ → ℕ → Option (ℕ × List ℕ) → Round
with_length num tag none = ends truncated
with_length num tag (some (len, bs)) =
    if tag_number tag == num then ends (found (take_up_to len bs)) else goes_on (skip len bs)

abbrev pub after_number : Option (ℕ × List ℕ) → Round
after_number none = ends truncated
after_number (some (v, bs)) = goes_on bs

abbrev pub after_tag : ℕ → Option (ℕ × List ℕ) → Round
after_tag num none = ends truncated
after_tag num (some (tag, bs)) =
    if tag % 8 == 2
    then with_length num tag (read_varint bs)
    else if tag % 8 == 0
    then after_number (read_varint bs)
    else ends absent

unfoldable pub field_round : ℕ → List ℕ → Round
unfolding read_varint
field_round num bs = after_tag num (read_varint bs)

-- The loop of `getField`, on a number of rounds.
unfoldable pub get_field_on : ℕ → ℕ → List ℕ → Search
unfolding field_round
get_field_on k num [] = absent
get_field_on zero num (b ∷ bs) = unfinished
get_field_on (suc k) num (b ∷ bs) = elim (field_round num (b ∷ bs)) [
  | ends s ↦ s
  | goes_on rest ↦ get_field_on k num rest
]

-- A round reads a byte or more, so there are at most as many rounds as bytes.
unfoldable pub get_field : ℕ → List ℕ → Search
unfolding get_field_on
get_field num bs = get_field_on (length bs) num bs

unfoldable pub id_fields : List (List ℕ) → List ℕ
unfolding field
id_fields [] = []
id_fields (id ∷ ids) = field 2 id ++ id_fields ids

-- the request of `ask`; `agent` is the text `rem0te`
abbrev pub agent : List ℕ
agent = 114 ∷ 101 ∷ 109 ∷ 48 ∷ 116 ∷ 101 ∷ []

unfoldable pub request : List (List ℕ) → List ℕ
unfolding frame field id_fields
request ids = frame (field 23 (field 1 agent ++ id_fields ids))

abbrev states_of : Search → Option (List ℕ)
states_of (found states) = some states
states_of absent = some []
states_of _ = none

-- What a whole message of the reply gives: the states, or null.
unfoldable pub read_response : List ℕ → Option (List ℕ)
unfolding get_field
read_response msg = elim (get_field 24 msg) [ found resp ↦ states_of (get_field 1 resp) | _ ↦ none ]

-- What `ask` does with the bytes so far: it waits for more, or has its answer.
unfoldable pub read_reply : List ℕ → Option (Option (List ℕ))
unfolding read_response
read_reply bs = elim (read_frame bs) [ none ↦ none | some msg ↦ some (read_response msg) ]

-- `states[k >> 3] & (0x80 >> (k & 7))`
unfoldable pub byte_at : ℕ → List ℕ → ℕ
byte_at k [] = 0
byte_at zero (b ∷ bs) = b
byte_at (suc k) (b ∷ bs) = byte_at k bs

unfoldable pub is_online : List ℕ → ℕ → Bool
unfolding byte_at
is_online states k = not (byte_at (k / 8) states / 2 ^ (7 - k % 8) % 2 == 0)

-- `/^[0-9]{6,15}$/`, of the bytes of an id
abbrev pub is_peer_id : List ℕ → Bool
is_peer_id id = all (λ c. leb b'0' c && leb c b'9') id && leb 6 (length id) && leb (length id) 15

unfoldable pub peer_ids : List (List ℕ) → List (List ℕ)
peer_ids [] = []
peer_ids (id ∷ ids) = let rest = peer_ids ids in if is_peer_id id then id ∷ rest else rest

-- the ids of a chunk whose bit is set, from the `k`th on
unfoldable pub online_from : List ℕ → ℕ → List (List ℕ) → List (List ℕ)
unfolding is_online
online_from states k [] = []
online_from states k (id ∷ ids) =
    let rest = online_from states (k + 1) ids in if is_online states k then id ∷ rest else rest

unfoldable pub take_ids : ℕ → List (List ℕ) → List (List ℕ)
take_ids zero ids = []
take_ids (suc n) [] = []
take_ids (suc n) (id ∷ ids) = id ∷ take_ids n ids

unfoldable pub skip_ids : ℕ → List (List ℕ) → List (List ℕ)
skip_ids zero ids = ids
skip_ids (suc n) [] = []
skip_ids (suc n) (id ∷ ids) = skip_ids n ids

abbrev pub then_more : List (List ℕ) → Option (List (List ℕ)) → Option (List (List ℕ))
then_more ids none = none
then_more ids (some more) = some (ids ++ more)

-- The loop of `queryHbbsOnline` over the chunks of 500, on a number of rounds; `ask` is what the
-- server answers to a chunk.
unfoldable pub query_chunks :
    (List (List ℕ) → Option (List ℕ)) → ℕ → List (List ℕ) → Option (List (List ℕ))
unfolding online_from take_ids skip_ids
query_chunks ask k [] = some []
query_chunks ask zero (id ∷ ids) = none
query_chunks ask (suc k) (id ∷ ids) =
    let rest = query_chunks ask k (skip_ids 500 (id ∷ ids)) in
    elim (ask (take_ids 500 (id ∷ ids))) [
      | none ↦ none
      | some states ↦ then_more (online_from states 0 (take_ids 500 (id ∷ ids))) rest
    ]

unfoldable pub query_online :
    (List (List ℕ) → Option (List ℕ)) → List (List ℕ) → Option (List (List ℕ))
unfolding query_chunks peer_ids
query_online ask ids = query_chunks ask (length (peer_ids ids)) (peer_ids ids)

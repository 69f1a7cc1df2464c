-- ===== src/Presence.antt =====
-- The framing of apps/api/src/enrollment/hbbs-presence.ts: `frame`, and how `ask` reads a reply. A
-- buffer is the list of its bytes.
pub mod Framing
pub mod Fields
mod Tests
use rem0te.Prelude.{
  ℕ, zero, suc, ◌+◌, ◌*◌, ◌/◌, ◌%◌, ◌≤◌, Bool, true, false, Option, none, some, List, [], ◌∷◌, ◌++◌,
  leb, ltb, if◌then◌else◌, length,
}

-- `writeUInt16LE` and its like: the lowest byte first
abbrev pub low_byte : ℕ → ℕ
low_byte n = n % 256

-- The header: the length above two bits that count its further bytes. The shifts of the code are
-- on 32 bits, and a message of 2^30 bytes or more is out of their range.
unfoldable pub header : ℕ → List ℕ
header n =
    if leb n 63
    then n * 4 ∷ []
    else if leb n 16383
    then low_byte (n * 4 + 1) ∷ low_byte ((n * 4 + 1) / 256) ∷ []
    else if leb n 4194303
    then low_byte (n * 4 + 2) ∷ low_byte ((n * 4 + 2) / 256) ∷ low_byte ((n * 4 + 2) / 65536) ∷ []
    else low_byte (n * 4 + 3)
      ∷ low_byte ((n * 4 + 3) / 256)
      ∷ low_byte ((n * 4 + 3) / 65536)
      ∷ low_byte ((n * 4 + 3) / 16777216)
      ∷ []

unfoldable pub frame : List ℕ → List ℕ
unfolding header
frame msg = header (length msg) ++ msg

-- the first bytes of a buffer, or none while some are missing
unfoldable pub take_bytes : ℕ → List ℕ → Option (List ℕ)
take_bytes zero bs = some []
take_bytes (suc n) [] = none
take_bytes (suc n) (b ∷ bs) = elim (take_bytes n bs) [ none ↦ none | some cs ↦ some (b ∷ cs) ]

-- the number that `hl` bytes hold, lowest first, and what follows them
unfoldable pub read_number : ℕ → List ℕ → Option (ℕ × List ℕ)
read_number zero bs = some (0, bs)
read_number (suc k) [] = none
read_number (suc k) (b ∷ bs) = elim (read_number k bs) [
  | none ↦ none
  | some p ↦ some (b + 256 * p.0, p.1)
]

-- the message, of its length above the two bits and what follows
unfoldable pub payload : Option (ℕ × List ℕ) → Option (List ℕ)
unfolding take_bytes
payload none = none
payload (some p) = take_bytes (p.0 / 4) p.1

-- A whole frame's message; none while bytes are missing.
unfoldable pub read_frame : List ℕ → Option (List ℕ)
unfolding read_number payload
read_frame [] = none
read_frame (b ∷ bs) = payload (read_number (b % 4 + 1) (b ∷ bs))

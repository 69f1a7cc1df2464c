-- ===== src/Presence/Framing.antt =====
-- A frame is read back.
use rem0te.Presence.{frame, header, read_frame, read_number, take_bytes, low_byte, payload}
use rem0te.Prelude.{
  ℕ, ◌+◌, ◌*◌, ◌/◌, ◌%◌, ◌<◌, ◌≡◌, refl, some, List, [], ◌∷◌, ◌++◌, leb, length, arith, Bool-cases,
  inl, inr, ◌∙◌, ap,
}

take_bytes-all : (msg : List ℕ) → take_bytes (length msg) msg ≡ some msg
unfolding take_bytes
take_bytes-all [] = refl
take_bytes-all (b ∷ bs) = rw (take_bytes-all bs)

read_as :
    (b k n : ℕ) (bs : List ℕ) (p : ℕ × List ℕ)
    → b % 4 ≡ k
    → read_number (k + 1) (b ∷ bs) ≡ some p
    → p.0 / 4 ≡ n
    → read_frame (b ∷ bs) ≡ take_bytes n p.1
unfolding read_frame payload
read_as b k n bs p h r e =
    ap (λ m. payload (read_number (m + 1) (b ∷ bs))) h ∙ ap payload r ∙ ap (λ m. take_bytes m p.1) e

read_header : (n : ℕ) (bs : List ℕ) → n < 1073741824 → read_frame (header n ++ bs) ≡ take_bytes n bs
unfolding header read_number
read_header n bs h = elim (Bool-cases (leb n 63)) [
  | inl a ↦ rw a (read_as (n * 4) 0 n bs (n * 4 + 256 * 0, bs) (omega arith) refl (omega arith))
  | inr a ↦ elim (Bool-cases (leb n 16383)) [
    | inl b ↦
        rw (a, b)
          (read_as (low_byte (n * 4 + 1)) 1 n (low_byte ((n * 4 + 1) / 256) ∷ bs)
            (low_byte (n * 4 + 1) + 256 * (low_byte ((n * 4 + 1) / 256) + 256 * 0), bs)
            (omega arith) refl (ground (arith, b)))
    | inr b ↦ elim (Bool-cases (leb n 4194303)) [
      | inl c ↦
          rw (a, b, c)
            (read_as (low_byte (n * 4 + 2)) 2 n
              (low_byte ((n * 4 + 2) / 256) ∷ low_byte ((n * 4 + 2) / 65536) ∷ bs)
              (
                low_byte (n * 4 + 2)
                    + 256
                      * (low_byte ((n * 4 + 2) / 256)
                          + 256 * (low_byte ((n * 4 + 2) / 65536) + 256 * 0)),
                bs,
              )
              (omega arith) refl (ground (arith, c)))
      | inr c ↦
          rw (a, b, c)
            (read_as (low_byte (n * 4 + 3)) 3 n
              (low_byte ((n * 4 + 3) / 256)
                ∷ low_byte ((n * 4 + 3) / 65536)
                ∷ low_byte ((n * 4 + 3) / 16777216)
                ∷ bs)
              (
                low_byte (n * 4 + 3)
                    + 256
                      * (low_byte ((n * 4 + 3) / 256)
                          + 256
                            * (low_byte ((n * 4 + 3) / 65536)
                                + 256 * (low_byte ((n * 4 + 3) / 16777216) + 256 * 0))),
                bs,
              )
              (omega arith) refl (ground arith))
    ]
  ]
]

-- A message of less than 2^30 bytes is read back whole from its frame.
pub read_frame-frame : (msg : List ℕ) → length msg < 1073741824 → read_frame (frame msg) ≡ some msg
unfolding frame
read_frame-frame msg h = read_header (length msg) msg h ∙ take_bytes-all msg

-- ===== src/VarInt.antt =====
-- The format of variable length integers, between src/writer.rs and src/reader.rs: six bits in the
-- first byte, seven in each byte after it, lowest first, the top bit set on all bytes but the last.
pub mod Bounds
pub mod Decode
pub mod Encode
pub mod RoundTrip
pub mod Skip
use blaze_pk_rs.Prelude.{ℕ, ◌+◌, ◌*◌, ◌<◌, ◌≡◌, List, [], ◌∷◌}

-- The bytes after the first one, and the number that they hold.
pub data Groups : ℕ → List ℕ → Type 0 where
  last : {c : ℕ} → c < 128 → Groups c (c ∷ [])
  more :
      {c d g : ℕ} {xs : List ℕ}
      → g < 128
      → d ≡ g + 128 * c
      → Groups c xs
      → Groups d ((g + 128) ∷ xs)

-- All bytes of a number. More bytes than are needed may be spent, as `write_u16` does.
pub data Encodes : ℕ → List ℕ → Type 0 where
  short : {v : ℕ} → v < 64 → Encodes v (v ∷ [])
  long :
      {c v g : ℕ} {xs : List ℕ} → g < 64 → v ≡ g + 64 * c → Groups c xs → Encodes v ((g + 128) ∷ xs)

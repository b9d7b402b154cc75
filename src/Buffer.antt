-- ===== src/Buffer.antt =====
-- The buffers of the crate `bytes`, which the repository uses and does not contain: the operations
-- that src/packet.rs calls, with what their documentation says, over a view of the bytes that a
-- buffer still holds.
pub mod Vectors
use blaze_pk_rs.Prelude.{
  ℕ, ◌+◌, ◌*◌, ◌/◌, ◌%◌, ◌<◌, ◌≡◌, refl, List, [], ◌∷◌, ◌++◌, Option, none, some, length, take,
  drop, take-append, drop-append, ◌≤◌,
}

pub record Buffers : Type 1 where
  -- `BytesMut`, and `Bytes`.
  pub BytesMut : Type 0
  pub Bytes : Type 0
  pub view : BytesMut → List ℕ
  pub as_slice : Bytes → List ℕ
  -- `Buf::remaining`, `Buf::get_u8`, `Buf::get_u16`: `none` is a panic.
  pub remaining : BytesMut → ℕ
  pub get_u8 : BytesMut → Option (ℕ × BytesMut)
  pub get_u16 : BytesMut → Option (ℕ × BytesMut)
  pub split_to : ℕ → BytesMut → Option (BytesMut × BytesMut)
  pub freeze : BytesMut → Bytes
  -- `BufMut::put_u8`, `BufMut::put_u16`, `BytesMut::extend_from_slice`.
  pub put_u8 : ℕ → BytesMut → BytesMut
  pub put_u16 : ℕ → BytesMut → BytesMut
  pub extend_from_slice : List ℕ → BytesMut → BytesMut
  -- `Bytes::from` of a vector, and `Bytes::new`.
  pub from_vec : List ℕ → Bytes
  pub empty : Bytes
  pub remaining_lem : (b : BytesMut) → remaining b ≡ length (view b)
  pub get_u8_lem :
      (b : BytesMut) (x : ℕ) (rest : List ℕ)
      → view b ≡ x ∷ rest
      → (b' : BytesMut) × (get_u8 b ≡ some (x, b')) × (view b' ≡ rest)
  -- Big-endian.
  pub get_u16_lem :
      (b : BytesMut) (x y : ℕ) (rest : List ℕ)
      → view b ≡ x ∷ y ∷ rest
      → (b' : BytesMut) × (get_u16 b ≡ some (x * 256 + y, b')) × (view b' ≡ rest)
  pub split_to_lem :
      (b : BytesMut) (front back : List ℕ)
      → view b ≡ front ++ back
      → (f : BytesMut) × (b' : BytesMut) × (split_to (length front) b ≡ some (f, b'))
        × (view f ≡ front)
        × (view b' ≡ back)
  pub freeze_lem : (b : BytesMut) → as_slice (freeze b) ≡ view b
  pub put_u8_lem : (b : BytesMut) (x : ℕ) → view (put_u8 x b) ≡ view b ++ x ∷ []
  pub put_u16_lem :
      (b : BytesMut) (x : ℕ) → view (put_u16 x b) ≡ view b ++ (x / 256) ∷ (x % 256) ∷ []
  pub extend_from_slice_lem :
      (b : BytesMut) (xs : List ℕ) → view (extend_from_slice xs b) ≡ view b ++ xs
  pub from_vec_lem : (xs : List ℕ) → as_slice (from_vec xs) ≡ xs
  pub empty_lem : as_slice empty ≡ []

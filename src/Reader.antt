-- ===== src/Reader.antt =====
-- src/reader.rs: the reader, a buffer with a cursor, the outcomes of a read, and the primitive
-- reads that every other one is made of.
pub mod Bind
pub mod Reads
pub mod Keeps
pub mod VarInt
pub mod Tagged
pub mod Skip
pub mod Seek
pub mod Stringify
use blaze_pk_rs.Prelude.{
  ℕ, ◌+◌, ◌-◌, ◌^◌, List, [], ◌∷◌, Option, none, some, Bool, ltb, leb, if◌then◌else◌, length,
  get_elem?, take, drop,
}
use blaze_pk_rs.Error
use blaze_pk_rs.Error.{DecodeError, unexpected_eof, DecodeResult}

pub record TdfReader : Type 0 where
  pub buffer : List ℕ
  pub cursor : ℕ

-- What a method of the reader does: it returns a value or an error, with the reader as it leaves
-- it, or it panics. `stuck` is no outcome of the program: the fuel of a loop has run out.
pub data Run (A : Type 0) : Type 0 where
  ok : A → TdfReader → Run A
  err : DecodeError → TdfReader → Run A
  panic stuck : Run A

abbrev pub Reader : Type 0 → Type 0
Reader A = TdfReader → Run A

module _ {A B : Type 0} where
  infixl 5 ◌>>=◌ ◌>>◌
  -- `m?` and what follows it.
  unfoldable pub ◌>>=◌ : Reader A → (A → Reader B) → Reader B
  ◌>>=◌ m f r = elim (m r) [ ok a s ↦ f a s | err e s ↦ err e s | panic ↦ panic | stuck ↦ stuck ]

  abbrev pub ◌>>◌ : Reader A → Reader B → Reader B
  m >> k = m >>= λ _. k

module _ {A : Type 0} where
  abbrev pub pure : A → Reader A
  pure a r = ok a r

  abbrev pub throw : DecodeError → Reader A
  throw e r = err e r

  abbrev pub abort : Reader A
  abort r = panic

  -- The result of a pure decoder.
  abbrev pub lift : DecodeResult A → Reader A
  lift (DecodeResult.ok a) r = ok a r
  lift (DecodeResult.err e) r = err e r

-- A `usize` has 64 bits.
abbrev pub usize_mod : ℕ
usize_mod = 2 ^ 64

unfoldable pub new : List ℕ → TdfReader
new buffer = record { buffer = buffer; cursor = 0 }

-- `self.buffer.len() - self.cursor`, which panics where it would be negative.
unfoldable pub len : Reader ℕ
len r = if leb r.cursor (length r.buffer) then ok (length r.buffer - r.cursor) r else panic

unfoldable pub is_empty : TdfReader → Bool
is_empty r = leb (length r.buffer) r.cursor

-- `self.cursor + n`, which panics where it leaves `usize`.
unfoldable pub end_of : ℕ → Reader ℕ
end_of n r = if ltb (r.cursor + n) usize_mod then ok (r.cursor + n) r else panic

-- `self.cursor += n`
unfoldable pub advance : ℕ → Reader (Unit {0})
unfolding end_of
advance n = do end ← end_of n; λ r. ok tt (record r { cursor = end })

unfoldable pub eof : ℕ → Reader (Unit {0})
unfolding len
eof length r = (len >>= λ remaining. throw (unexpected_eof r.cursor length remaining)) r

unfoldable pub expect_length : ℕ → Reader (Unit {0})
unfolding end_of eof
expect_length n r = (end_of n >>= λ end. if ltb (length r.buffer) end then eof n else pure tt) r

unfoldable pub byte_or_abort : Option ℕ → Reader ℕ
byte_or_abort (some byte) = pure byte
byte_or_abort none = abort

-- `self.buffer[self.cursor]`
unfoldable pub peek : Reader ℕ
unfolding byte_or_abort
peek r = byte_or_abort (get_elem? r.buffer r.cursor) r

-- `&self.buffer[self.cursor..end]`
unfoldable pub slice_to : ℕ → Reader (List ℕ)
slice_to end r =
    if leb r.cursor end
    then if leb end (length r.buffer)
      then ok (take (end - r.cursor) (drop r.cursor r.buffer)) r
      else panic
    else panic

unfoldable pub read_byte : Reader ℕ
unfolding expect_length peek advance
read_byte = do expect_length 1; byte ← peek; advance 1; pure byte

-- `self.cursor -= 1`
unfoldable pub retreat : Reader (Unit {0})
retreat r = if ltb 0 r.cursor then ok tt (record r { cursor = r.cursor - 1 }) else panic

abbrev pub Bytes4 : Type 0
Bytes4 = ℕ × ℕ × ℕ × ℕ

-- `copy_from_slice` to an array of four bytes.
unfoldable pub copy_4 : List ℕ → Reader Bytes4
copy_4 (a ∷ b ∷ c ∷ d ∷ []) = pure (a, b, c, d)
copy_4 _ = abort

unfoldable pub read_byte_4 : Reader Bytes4
unfolding expect_length slice_to copy_4 advance
read_byte_4 = do
  expect_length 4
  end ← end_of 4
  slice ← slice_to end
  bytes ← copy_4 slice
  advance 4
  pure bytes

-- The source writes the test of `expect_length` out here.
unfoldable pub read_slice : ℕ → Reader (List ℕ)
unfolding expect_length slice_to advance
read_slice n = do expect_length n; end ← end_of n; slice ← slice_to end; advance n; pure slice

-- ===== src/Reader/Stringify/Parts.antt =====
-- What the texts of values with no other values inside keep: what every read keeps, and the text
-- that was there.
use blaze_pk_rs.Prelude.{ℕ, ◌+◌, ◌-◌, List, [], ◌∷◌, ltb, length, arith}
use blaze_pk_rs.Text.{Text, codes, decimal, upper_hex}
use blaze_pk_rs.Reader.Keeps.{
  Safe, Safe-le, Safe-then, Safe-pure, read_byte_4-Safe, read_slice-Safe,
}
use blaze_pk_rs.Reader.VarInt.Safety.{read_usize-Safe}
use blaze_pk_rs.Reader.VarInt.{read_usize}
use blaze_pk_rs.Printer.{Printer, push, ◌▸◌, read}
use blaze_pk_rs.Printer.Safety.{
  Safely, Safely-le, push-Safely, Safely-if, Safely-then, Safely-read, for_each-Safely,
}
use blaze_pk_rs.Types.Text.{read_blob, read_string, pop, from_utf8_lossy}
use blaze_pk_rs.Types.Numbers.{read_f32, from_be_bytes}
use blaze_pk_rs.Reader.Stringify.{
  stringify_var_int, stringify_string, unless_last, blob_bytes, stringify_blob,
  stringify_var_int_list, stringify_pair, stringify_triple,
}

read_blob-Safe : (n : ℕ) → Safe n 1 read_blob
unfolding read_blob
read_blob-Safe n =
    Safe-then 1 (read_usize-Safe n)
      λ size. Safe-le (omega arith) (omega arith) (read_slice-Safe (n - 1) size)

read_string-Safe : (n : ℕ) → Safe n 1 read_string
unfolding read_string
read_string-Safe n =
    Safe-then 1 (read_blob-Safe n) λ bytes. Safe-pure (n - 1) (pop (from_utf8_lossy bytes))

pub read_f32-Safe : (n : ℕ) → Safe n 4 read_f32
unfolding read_f32
read_f32-Safe n = Safe-then 4 (read_byte_4-Safe n) λ bytes. Safe-pure (n - 4) (from_be_bytes bytes)

-- Parts that read nothing.
pub pushes : (n : ℕ) (text : Text) {p : Printer} → Safely n 0 p → Safely n 0 (push text ▸ p)
pushes n text h = Safely-then 0 (push-Safely n text) λ _. Safely-le (omega arith) (omega arith) h

pub both : {n : ℕ} {p q : Printer} → Safely n 0 p → Safely n 0 q → Safely n 0 (p ▸ q)
both h g = Safely-then 0 h λ _. Safely-le (omega arith) (omega arith) g

pub unless_last-Safely : (n i length : ℕ) (text : Text) → Safely n 0 (unless_last i length text)
unfolding unless_last
unless_last-Safely n i length text =
    Safely-if (ltb i (length - 1)) (λ _. push-Safely n text) (λ _. push-Safely n [])

pub blob_bytes-Safely : (n length i : ℕ) (bytes : List ℕ) → Safely n 0 (blob_bytes length i bytes)
unfolding blob_bytes
blob_bytes-Safely n length i [] = push-Safely n []
blob_bytes-Safely n length i (byte ∷ rest) =
    pushes n (upper_hex byte)
      (both (unless_last-Safely n i length (codes ", ")) (blob_bytes-Safely n length (i + 1) rest))

pub read_usize-Safely :
    (n : ℕ) {f : ℕ → Printer} → ((a : ℕ) → Safely (n - 1) 0 (f a)) → Safely n 1 (read read_usize f)
read_usize-Safely n h = Safely-read 1 (read_usize-Safe n) λ _ a. h a

-- Whatever is left, and whatever they take.
module _ (n : ℕ) where
  pub stringify_var_int-Safely : Safely n 1 stringify_var_int
  unfolding stringify_var_int
  stringify_var_int-Safely = read_usize-Safely n λ value. push-Safely (n - 1) (decimal value)

  pub stringify_string-Safely : Safely n 1 stringify_string
  unfolding stringify_string
  stringify_string-Safely = Safely-read 1 (read_string-Safe n) λ _ value.
      pushes (n - 1) (codes "\"") (pushes (n - 1) value (push-Safely (n - 1) (codes "\"")))

  pub stringify_blob-Safely : Safely n 1 stringify_blob
  unfolding stringify_blob
  stringify_blob-Safely = Safely-read 1 (read_blob-Safe n) λ _ value.
      pushes (n - 1) (codes "Blob [")
        (both (blob_bytes-Safely (n - 1) (length value) 0 value) (push-Safely (n - 1) (codes "]")))

  pub stringify_var_int_list-Safely : Safely n 1 stringify_var_int_list
  unfolding stringify_var_int_list
  stringify_var_int_list-Safely = read_usize-Safely n λ size. pushes (n - 1) (codes "VarList [") (
      both
        (for_each-Safely (n - 1) size 0 λ i. Safely-le (omega arith) (omega arith) (
          read_usize-Safely (n - 1) λ value.
            pushes (n - 1 - 1) (decimal value)
              (unless_last-Safely (n - 1 - 1) i size (codes ", "))))
        (push-Safely (n - 1) (codes "]")))

  pub stringify_pair-Safely : Safely n 1 stringify_pair
  unfolding stringify_pair
  stringify_pair-Safely = read_usize-Safely n λ a.
      Safely-le (omega arith) (omega arith)
        (read_usize-Safely (n - 1) λ b. push-Safely (n - 1 - 1) _)

  pub stringify_triple-Safely : Safely n 1 stringify_triple
  unfolding stringify_triple
  stringify_triple-Safely = read_usize-Safely n λ a. Safely-le (omega arith) (omega arith) (
      read_usize-Safely (n - 1) λ b.
        Safely-le (omega arith) (omega arith)
          (read_usize-Safely (n - 1 - 1) λ c. push-Safely (n - 1 - 1 - 1) _))

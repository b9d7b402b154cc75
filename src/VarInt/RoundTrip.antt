-- ===== src/VarInt/RoundTrip.antt =====
-- What the writer writes for an unsigned integer, the reader of the same width reads back.
use mathlib.Core.Path.{subst}
use blaze_pk_rs.Prelude.{
  ℕ, suc, ◌+◌, ◌*◌, ◌/◌, ◌%◌, ◌^◌, ◌≤◌, ◌<◌, ◌≡◌, List, [], ◌∷◌, length, bit_and, bit_or, ltb,
  arith, lt→ltb, le→not_ltb, inl, inr, Bool-cases,
}
use blaze_pk_rs.Prelude.Bits.{bit_or_above, bit_and_127, bit_and_63}
use blaze_pk_rs.Reader.{Reader, pure, read_byte}
use blaze_pk_rs.Reader.Reads.{Reads, Reads-pure, Reads-bind, read_byte-Reads}
use blaze_pk_rs.Reader.VarInt.{impl_decode_var, read_u8, read_u16, read_u32, read_u64, read_usize}
use blaze_pk_rs.Writer.{Writer}
use blaze_pk_rs.Writer.Writes.{Writes, Writes-then, write_byte-Writes}
use blaze_pk_rs.Writer.VarInt.{
  impl_encode_var, write_u8, write_u16, write_u32, write_u64, write_usize,
}
use blaze_pk_rs.VarInt.{last, more, Encodes, short, long}
use blaze_pk_rs.VarInt.Decode.{impl_decode_var-Reads}
use blaze_pk_rs.VarInt.Encode.{
  Appends, impl_encode_var-Appends, first_byte, inner_byte, short-Appends, top_bit,
}

-- There are bytes in the format of variable length integers that `m` appends to any writer and from
-- which `r` reads `v` in any buffer, and no more of them than the widest type takes.
pub record IntTrips (m : Writer) (r : Reader ℕ) (v : ℕ) : Type 0 where
  pub bytes : List ℕ
  pub writes : Writes m bytes
  pub reads : Reads r bytes v
  pub code : Encodes v bytes
  pub brief : 7 * length bytes < 72

-- At a width of `w` bits, by `impl_encode_var` and `impl_decode_var`.
impl-IntTrips :
    (w k v : ℕ)
    → 6 ≤ w
    → w ≤ 64
    → v < 2 ^ w
    → v / 64 < 128 ^ suc k
    → 7 * (k + 2) < w + 8
    → IntTrips (impl_encode_var v) (impl_decode_var w) v
impl-IntTrips w k v six wide fits small room =
    let a = impl_encode_var-Appends k v small in
    record {
      bytes = a.bytes;
      writes = a.writes;
      reads = impl_decode_var-Reads w six fits (omega (arith, a.bounded)) a.code;
      code = a.code;
      brief = omega (arith, a.bounded);
    }

pub write_u32-IntTrips : (v : ℕ) → v < 2 ^ 32 → IntTrips (write_u32 v) read_u32 v
unfolding write_u32 read_u32
write_u32-IntTrips v h =
    impl-IntTrips 32 3 v (omega arith) (omega arith) h (omega arith) (omega arith)

pub write_u64-IntTrips : (v : ℕ) → v < 2 ^ 64 → IntTrips (write_u64 v) read_u64 v
unfolding write_u64 read_u64
write_u64-IntTrips v h =
    impl-IntTrips 64 8 v (omega arith) (omega arith) h (omega arith) (omega arith)

pub write_usize-IntTrips : (v : ℕ) → v < 2 ^ 64 → IntTrips (write_usize v) read_usize v
unfolding write_usize read_usize
write_usize-IntTrips v h =
    impl-IntTrips 64 8 v (omega arith) (omega arith) h (omega arith) (omega arith)

write_u16-Appends : (v : ℕ) → v < 2 ^ 16 → Appends Encodes (write_u16 v) v 3
unfolding write_u16
write_u16-Appends v h = elim (Bool-cases (ltb v 64)) [
  | inl low ↦ rw low (short-Appends 3 v (ground arith) (omega arith))
  | inr high ↦ rw high (record {
    bytes = (v % 64 + 128) ∷ (v / 64 % 128 + 128) ∷ (v / 64 / 128) ∷ [];
    writes = rw (first_byte v) (
        rw (inner_byte (v / 64)) (
          rw (small) (
            Writes-then (Writes-then (write_byte-Writes _) (write_byte-Writes _))
              (write_byte-Writes _))));
    code =
        long {c = v / 64} (omega arith) (omega arith)
          (more {c = v / 64 / 128} (omega arith) (omega arith) (last (omega arith)));
    bounded = omega arith;
  })
]
  where
    small : v / 64 / 128 % 256 ≡ v / 64 / 128
    small = omega arith

pub write_u16-IntTrips : (v : ℕ) → v < 2 ^ 16 → IntTrips (write_u16 v) read_u16 v
unfolding read_u16
write_u16-IntTrips v h =
    let a = write_u16-Appends v h in
    record {
      bytes = a.bytes;
      writes = a.writes;
      reads = impl_decode_var-Reads 16 (omega arith) h (omega (arith, a.bounded)) a.code;
      code = a.code;
      brief = omega (arith, a.bounded);
    }

u8_join :
    (v : ℕ)
    → v < 2 ^ 8
    → bit_or (bit_and (v % 64 + 128) 63) (bit_and (v / 64) 127 * 2 ^ 6 % 2 ^ 8) ≡ v
u8_join v h = rw (bit_and_63 (v % 64 + 128)) (
    rw (bit_and_127 (v / 64)) (omega (arith, bit_or_above 6 (v / 64) (v % 64) (omega arith), same)))
  where
    same : bit_or ((v % 64 + 128) % 64) (v / 64 % 128 * 64 % 256) ≡ bit_or (v % 64) (v / 64 * 64)
    same = rw (low, high)
      where
        low : (v % 64 + 128) % 64 ≡ v % 64
        low = omega arith

        high : v / 64 % 128 * 64 % 256 ≡ v / 64 * 64
        high = omega arith

read_u8_long : (v : ℕ) → v < 2 ^ 8 → 64 ≤ v → Reads read_u8 ((v % 64 + 128) ∷ (v / 64) ∷ []) v
unfolding read_u8
read_u8_long v h big = Reads-bind read_byte _ (read_byte-Reads (v % 64 + 128)) (
    rw (le→not_ltb (v % 64 + 128) 128 (omega arith)) (
      Reads-bind read_byte _ (read_byte-Reads (v / 64))
        (rw (lt→ltb (v / 64) 128 (omega arith)) (rw (u8_join v h) (Reads-pure v)))))

pub read_u8_short : (v : ℕ) → v < 64 → Reads read_u8 (v ∷ []) v
unfolding read_u8
read_u8_short v h = Reads-bind read_byte _ (read_byte-Reads v) (
    rw (lt→ltb v 128 (omega arith))
      (rw (bit_and_63 v) (subst (λ u. Reads (pure u) [] v) (omega arith) (Reads-pure v))))

pub write_u8-IntTrips : (v : ℕ) → v < 2 ^ 8 → IntTrips (write_u8 v) read_u8 v
unfolding write_u8
write_u8-IntTrips v h = elim (Bool-cases (ltb v 64)) [
  | inl low ↦ rw low (record {
    bytes = v ∷ [];
    writes = write_byte-Writes v;
    reads = read_u8_short v (ground arith);
    code = short (ground arith);
    brief = omega arith;
  })
  | inr high ↦ rw high (record {
    bytes = (v % 64 + 128) ∷ (v / 64) ∷ [];
    writes = rw (bit_and_63 v) (
        rw (top_bit (v % 64) (omega arith))
          (Writes-then (write_byte-Writes _) (write_byte-Writes _)));
    reads = read_u8_long v h (ground arith);
    code = long {c = v / 64} (omega arith) (omega arith) (last (omega arith));
    brief = omega arith;
  })
]

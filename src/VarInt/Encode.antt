-- ===== src/VarInt/Encode.antt =====
-- The methods of the writer append an encoding of their value.
use mathlib.Core.WellFounded.{Acc}
use mathlib.Core.Logic.{dif_pos, dif_neg}
use native.Mathlib.Decide.{dec_le}
use native.Mathlib.Bridge.{le_prop}
use native.Mathlib.Nat.{pow-suc}
use mathlib.Core.Path.{subst}
use blaze_pk_rs.Prelude.{
  ℕ, zero, suc, ◌+◌, ◌/◌, ◌%◌, ◌^◌, ◌≤◌, ◌<◌, ◌≡◌, List, [], ◌∷◌, bit_and, bit_or, ltb, length,
  arith, inl, inr, Bool-cases,
}
use blaze_pk_rs.Prelude.Bits.{bit_or_above, bit_and_127, bit_and_63}
use blaze_pk_rs.Prelude.Order.{lt_wf}
use blaze_pk_rs.Writer.{Writer, ◌▸◌, write_byte}
use blaze_pk_rs.Writer.Writes.{Writes, Writes-then, write_byte-Writes}
use blaze_pk_rs.Writer.VarInt.{encode_var_loop, impl_encode_var, shift_shrinks}
use blaze_pk_rs.VarInt.{Groups, last, more, Encodes, short, long}

-- The top bit of a byte below it.
pub top_bit : (b : ℕ) → b < 128 → bit_or b 128 ≡ b + 128
top_bit b h = bit_or_above 7 1 b h

pub inner_byte : (c : ℕ) → bit_or (bit_and c 127) 128 % 256 ≡ c % 128 + 128
inner_byte c = rw (bit_and_127 c) (rw (top_bit (c % 128) (omega arith)) (omega arith))

pub first_byte : (v : ℕ) → bit_or (bit_and v 63 % 256) 128 ≡ v % 64 + 128
first_byte v = rw (bit_and_63 v) (rw (top_bit (v % 64 % 256) (omega arith)) (omega arith))

pub record Appends (Code : ℕ → List ℕ → Type 0) (m : Writer) (v size : ℕ) : Type 0 where
  pub bytes : List ℕ
  pub writes : Writes m bytes
  pub code : Code v bytes
  pub bounded : length bytes ≤ size

Writes-eq : {m k : Writer} {xs : List ℕ} → k ≡ m → Writes m xs → Writes k xs
Writes-eq {xs} e h = rw e h

-- One group, and the groups behind it.
inner-Appends :
    {k : ℕ} (c : ℕ) {m : Writer}
    → Appends Groups m (c / 128) (suc k)
    → Appends Groups (write_byte (bit_or (bit_and c 127) 128 % 256) ▸ m) c (suc (suc k))
inner-Appends c rest = record {
  bytes = (c % 128 + 128) ∷ rest.bytes;
  writes = rw (inner_byte c) (Writes-then (write_byte-Writes (c % 128 + 128)) rest.writes);
  code = more (omega arith) (omega arith) rest.code;
  bounded = omega (arith, rest.bounded);
}

last-Appends : (k c : ℕ) → c < 128 → Appends Groups (write_byte (c % 256)) c (suc k)
last-Appends k c h = record {
  bytes = c ∷ [];
  writes = subst (λ b. Writes (write_byte b) (c ∷ [])) (omega arith) (write_byte-Writes c);
  code = last h;
  bounded = omega arith;
}

fewer : (k c : ℕ) → c < 128 ^ suc (suc k) → c / 128 < 128 ^ suc k
fewer k c h = omega (arith, pow-suc 128 (suc k))

encode_var_loop-Appends :
    (k c : ℕ) (w : Acc ◌<◌ c) → c < 128 ^ suc k → Appends Groups (encode_var_loop c w) c (suc k)
unfolding encode_var_loop
encode_var_loop-Appends zero c (Acc.intro _ smaller) h =
    rw (dif_neg (dec_le 128 c) (omega arith)) (last-Appends zero c (omega arith))
encode_var_loop-Appends (suc k) c (Acc.intro _ smaller) h = elim (dec_le 128 c) [
  | yes big ↦ rw (dif_pos (dec_le 128 c) le_prop big) (
      inner-Appends c (
        encode_var_loop-Appends k (c / 128) (smaller (c / 128) (shift_shrinks c big))
          (fewer k c h)))
  | no small ↦ rw (dif_neg (dec_le 128 c) small) (last-Appends (suc k) c (omega arith))
]

pub short-Appends : (size v : ℕ) → v < 64 → 0 < size → Appends Encodes (write_byte (v % 256)) v size
short-Appends size v h p = record {
  bytes = v ∷ [];
  writes = subst (λ b. Writes (write_byte b) (v ∷ [])) (omega arith) (write_byte-Writes v);
  code = short h;
  bounded = omega arith;
}

long-Appends :
    (v : ℕ) {m : Writer} {size : ℕ}
    → Appends Groups m (v / 64) size
    → Appends Encodes (write_byte (bit_or (bit_and v 63 % 256) 128) ▸ m) v (suc size)
long-Appends v rest = record {
  bytes = (v % 64 + 128) ∷ rest.bytes;
  writes = rw (first_byte v) (Writes-then (write_byte-Writes (v % 64 + 128)) rest.writes);
  code = long (omega arith) (omega arith) rest.code;
  bounded = omega (arith, rest.bounded);
}

-- Below 64 * 128 ^ (k + 1) a number takes k + 2 bytes at most.
pub impl_encode_var-Appends :
    (k v : ℕ) → v / 64 < 128 ^ suc k → Appends Encodes (impl_encode_var v) v (suc (suc k))
unfolding impl_encode_var
impl_encode_var-Appends k v h = elim (Bool-cases (ltb v 64)) [
  | inl low ↦ rw low (short-Appends (suc (suc k)) v (ground arith) (omega arith))
  | inr high ↦
      rw high (long-Appends v (encode_var_loop-Appends k (v / 64) (lt_wf.apply (v / 64)) h))
]

-- ===== src/Reader/VarInt/Safety.antt =====
-- Reading and skipping a variable length integer keeps what every read keeps, and never runs out
-- of fuel.
use blaze_pk_rs.Prelude.{
  ℕ, zero, suc, ◌+◌, ◌-◌, ◌*◌, ◌^◌, ◌≤◌, ◌<◌, refl, inl, inr, Bool-cases, length, ltb, arith,
  bit_and, bit_or, ◌%◌,
}
use blaze_pk_rs.Reader.{peek, advance}
use blaze_pk_rs.Reader.Keeps.{
  Safe, Safe-le, Safe-pure, Safe-abort, Safe-if, Safe-then, read_byte-Safe, Keeps-Still, peek-Still,
  Keeps-le, Keeps-bind, Keeps-advance, on_ok, Moved-refl,
}
use blaze_pk_rs.Reader.VarInt.{
  decode_var_loop, impl_decode_var, skip_var_int_loop, skip_var_int, read_u8, read_usize,
}

-- Rounds go on only while the shift is below the width.
decode_var_loop-Safe :
    (n fuel w result shift : ℕ)
    → shift < w + 7
    → w + 7 ≤ shift + 7 * fuel
    → Safe n 1 (decode_var_loop fuel w result shift)
unfolding decode_var_loop
decode_var_loop-Safe n zero w result shift h g = absurd (omega arith)
decode_var_loop-Safe n (suc fuel) w result shift h g = Safe-then 1 (read_byte-Safe n) λ byte.
    let result' = bit_or result (bit_and byte 127 * 2 ^ shift % 2 ^ w) in
    Safe-if (ltb shift w)
      (λ below.
        Safe-if (ltb byte 128) (λ _. Safe-pure (n - 1) result')
          (λ _.
            Safe-le (omega arith) (omega arith) (
              decode_var_loop-Safe (n - 1) fuel w result' (shift + 7) (ground arith)
                (omega arith))))
      (λ _. Safe-abort (n - 1) 0)

pub impl_decode_var-Safe : (n w : ℕ) → Safe n 1 (impl_decode_var w)
unfolding impl_decode_var
impl_decode_var-Safe n w = Safe-then 1 (read_byte-Safe n) λ first.
    Safe-if (ltb first 128) (λ _. Safe-pure (n - 1) (bit_and first 63))
      (λ _.
        Safe-le (omega arith) (omega arith)
          (decode_var_loop-Safe (n - 1) (suc w) w (bit_and first 63) 6 (omega arith) (omega arith)))

pub read_usize-Safe : (n : ℕ) → Safe n 1 read_usize
unfolding read_usize
read_usize-Safe n = impl_decode_var-Safe n 64

skip_var_int_loop-Safe : (n fuel : ℕ) → n < fuel → Safe n 0 (skip_var_int_loop fuel)
unfolding skip_var_int_loop
skip_var_int_loop-Safe n zero h = absurd (omega arith)
skip_var_int_loop-Safe n (suc fuel) h = record {
  at = λ r v b. elim (Bool-cases (ltb r.cursor (length r.buffer))) [
    | inl more ↦
        let room : r.cursor + 1 ≤ length r.buffer = ground arith in
        let rest = λ (byte : ℕ) (_ : 1 ≤ n) (t : Unit {0}).
          Safe-if (ltb byte 128) (λ _. Safe-pure (n - 1) tt)
            (λ _. skip_var_int_loop-Safe (n - 1) fuel (omega arith)) in
        rw more (
          Keeps-Still 0 r _ peek _ refl (peek-Still r) λ byte.
            Keeps-le (omega arith)
              (Keeps-bind n 1 0 _ (rest byte) (advance 1) _ refl b (Keeps-advance 1 r room)))
    | inr done ↦ rw done (on_ok (Moved-refl r v))
  ];
}

pub skip_var_int-Safe : (n : ℕ) → Safe n 0 skip_var_int
unfolding skip_var_int
skip_var_int-Safe n = record {
  at = λ r v b.
      (skip_var_int_loop-Safe (length r.buffer - r.cursor) (suc (length r.buffer - r.cursor))
          (omega arith)).at
        r v (omega arith);
}

pub read_u8-Safe : (n : ℕ) → Safe n 1 read_u8
unfolding read_u8
read_u8-Safe n = Safe-then 1 (read_byte-Safe n) λ first.
    Safe-if (ltb first 128) (λ _. Safe-pure (n - 1) (bit_and first 63))
      (λ _. Safe-le (omega arith) (omega arith) (
        Safe-then 1 (read_byte-Safe (n - 1)) λ byte.
          let result' = bit_or (bit_and first 63) (bit_and byte 127 * 2 ^ 6 % 2 ^ 8) in
          Safe-if (ltb byte 128) (λ _. Safe-pure (n - 1 - 1) result')
            (λ _.
              Safe-then 0 (skip_var_int-Safe (n - 1 - 1)) λ _. Safe-pure (n - 1 - 1 - 0) result')))

-- ===== src/Reader/Skip/Safety.antt =====
-- Skipping keeps what every read keeps, and its fuel is enough: a value is never nested deeper, and
-- a group never longer, than there are bytes left.
use blaze_pk_rs.Prelude.{
  ℕ, zero, suc, ◌+◌, ◌-◌, ◌≤◌, ◌<◌, ◌≡◌, refl, Bool, true, false, inl, inr, Bool-cases, ltb, length,
  arith, lt→ltb, ◌==◌, if◌then◌else◌,
}
use blaze_pk_rs.Tag.{TdfType}
use blaze_pk_rs.Types.{union_unset}
use blaze_pk_rs.Reader.{
  TdfReader, Run, Reader, ok, err, panic, stuck, ◌>>=◌, pure, peek, advance, retreat, expect_length,
  read_byte,
}
use blaze_pk_rs.Reader.Bind.{bind_ok, bind_err, bind_panic}
use blaze_pk_rs.Reader.Keeps.{
  IsValid, Moved, Moved-refl, Moved-le, Keeps, on_ok, on_err, on_panic, Safe, Safe-le, Safe-pure,
  Safe-if, Safe-then, Safe-then_le, Keeps-le, Keeps-Still, Keeps-advance, Keeps-expect, peek-Still,
  read_byte-Safe,
}
use blaze_pk_rs.Reader.VarInt.Safety.{read_usize-Safe, skip_var_int-Safe}
use blaze_pk_rs.Reader.Tagged.Safety.{read_type-Safe, read_tag-Safe}
use blaze_pk_rs.Reader.Skip.{
  repeat, skip_f32, skip_blob, skip_group_2, skip_var_int_list, skip_tagged, skip_group_loop,
  skip_group, skip_list, skip_map, skip_union, skip_by_type, skip_nested, skip_type,
}

repeat-Safe : (n times : ℕ) {m : Reader (Unit {0})} → Safe n 0 m → Safe n 0 (repeat times m)
unfolding repeat
repeat-Safe n zero h = Safe-pure n tt
repeat-Safe n (suc times) h =
    Safe-then 0 h λ _. Safe-le (omega arith) (omega arith) (repeat-Safe n times h)

expect_advance-Safe : (n size : ℕ) → Safe n 0 (expect_length size >>= λ _. advance size)
expect_advance-Safe n size = record {
  at =
      λ r v b. Keeps-expect size r 0 _ v λ room. Keeps-le (omega arith) (Keeps-advance size r room);
}

skip_f32-Safe : (n : ℕ) → Safe n 0 skip_f32
unfolding skip_f32
skip_f32-Safe n = expect_advance-Safe n 4

skip_blob-Safe : (n : ℕ) → Safe n 0 skip_blob
unfolding skip_blob
skip_blob-Safe n =
    Safe-le (omega arith) (omega arith)
      (Safe-then 1 (read_usize-Safe n) λ size. expect_advance-Safe (n - 1) size)

skip_var_int_list-Safe : (n : ℕ) → Safe n 0 skip_var_int_list
unfolding skip_var_int_list
skip_var_int_list-Safe n =
    Safe-le (omega arith) (omega arith)
      (Safe-then 1 (read_usize-Safe n) λ size. repeat-Safe (n - 1) size (skip_var_int-Safe (n - 1)))

-- The byte that is put back is the one that was read.
retreat-Keeps : {r s : TdfReader} → Moved 1 r s → Keeps 0 r (retreat s)
unfolding retreat
retreat-Keeps {r} {s} h = rw (lt→ltb 0 s.cursor (omega (arith, h.forth))) (
    on_ok
      (record { same = h.same; forth = omega (arith, h.forth); within = omega (arith, h.within) }))

retreat_unless-Keeps :
    {r s : TdfReader} (b : Bool) → Moved 1 r s → Keeps 0 r ((if b then pure tt else retreat) s)
retreat_unless-Keeps true h = on_ok (Moved-le (omega arith) h)
retreat_unless-Keeps false h = retreat-Keeps h

skip_group_2-Safe : (n : ℕ) → Safe n 0 skip_group_2
unfolding skip_group_2
skip_group_2-Safe n = record {
  at = λ r v b. after r (read_byte r) refl ((read_byte-Safe n).at r v b);
}
  where
    next : ℕ → Reader (Unit {0})
    next first = if first == 2 then pure tt else retreat

    after :
        (r : TdfReader) (x : Run ℕ)
        → read_byte r ≡ x
        → Keeps 1 r x
        → Keeps 0 r ((read_byte >>= next) r)
    after r (ok first s) e (on_ok h) =
        rw (bind_ok read_byte next e) (retreat_unless-Keeps (first == 2) h)
    after r (err d s) e (on_err h) = rw (bind_err read_byte next e) (on_err h)
    after r panic e h = rw (bind_panic read_byte next e) on_panic
    after r stuck e h = elim h [ ]

-- The methods that call `skip_type`, where it is safe on fewer than `n` bytes.
module _ (go : TdfType → Reader (Unit {0})) (n : ℕ)
    (inner : (k : ℕ) (ty : TdfType) → k < n → Safe k 0 (go ty)) where
  skip_tagged-Safe : (k : ℕ) → k < n + 4 → Safe k 4 (skip_tagged go)
  unfolding skip_tagged
  skip_tagged-Safe k h =
      Safe-then_le 4 (read_tag-Safe k) λ enough tag. inner (k - 4) tag.ty (omega arith)

  skip_group_loop-Safe : (k fuel : ℕ) → k < fuel → k ≤ n → Safe k 0 (skip_group_loop go fuel)
  unfolding skip_group_loop
  skip_group_loop-Safe k zero h l = absurd (omega arith)
  skip_group_loop-Safe k (suc fuel) h l = record {
    at = λ r v b. elim (Bool-cases (ltb r.cursor (length r.buffer))) [
      | inl more ↦
          let room : r.cursor + 1 ≤ length r.buffer = ground arith in
          let inside : Safe k 0 (skip_tagged go >>= λ _. skip_group_loop go fuel) =
            Safe-le (omega arith) (omega arith) (
              Safe-then_le 4 (skip_tagged-Safe k (omega arith))
                λ enough _. skip_group_loop-Safe (k - 4) fuel (omega arith) (omega arith)) in
          rw more (
            Keeps-Still 0 r _ peek _ refl (peek-Still r) λ byte. elim (Bool-cases (byte == 0)) [
              | inl e ↦ rw e (Keeps-le (omega arith) (Keeps-advance 1 r room))
              | inr e ↦ rw e (inside.at r v b)
            ])
      | inr done ↦ rw done (on_ok (Moved-refl r v))
    ];
  }

  skip_group-Safe : (k : ℕ) → k ≤ n → Safe k 0 (skip_group go)
  unfolding skip_group
  skip_group-Safe k l = Safe-then 0 (skip_group_2-Safe k) λ _. record {
    at = λ r v b.
        (skip_group_loop-Safe (length r.buffer - r.cursor) (suc (length r.buffer - r.cursor))
            (omega arith) (omega arith)).at
          r v (omega arith);
  }

  skip_list-Safe : (k : ℕ) → k ≤ n → Safe k 0 (skip_list go)
  unfolding skip_list
  skip_list-Safe k l = Safe-le (omega arith) (omega arith) (
      Safe-then_le 1 (read_type-Safe k) λ enough ty. Safe-le (omega arith) (omega arith) (
        Safe-then 1 (read_usize-Safe (k - 1))
          λ size. repeat-Safe (k - 1 - 1) size (inner (k - 1 - 1) ty (omega arith))))

  skip_map-Safe : (k : ℕ) → k ≤ n → Safe k 0 (skip_map go)
  unfolding skip_map
  skip_map-Safe k l = Safe-le (omega arith) (omega arith) (
      Safe-then_le 1 (read_type-Safe k) λ enough key_ty. Safe-le (omega arith) (omega arith) (
        Safe-then 1 (read_type-Safe (k - 1)) λ value_ty. Safe-le (omega arith) (omega arith) (
          Safe-then 1 (read_usize-Safe (k - 1 - 1)) λ size. repeat-Safe (k - 1 - 1 - 1) size (
            Safe-then 0 (inner (k - 1 - 1 - 1) key_ty (omega arith))
              λ _. inner (k - 1 - 1 - 1 - 0) value_ty (omega arith)))))

  skip_union-Safe : (k : ℕ) → k ≤ n → Safe k 0 (skip_union go)
  unfolding skip_union
  skip_union-Safe k l = Safe-le (omega arith) (omega arith) (
      Safe-then 1 (read_byte-Safe k) λ ty.
        Safe-if (ty == union_unset) (λ _. Safe-pure (k - 1) tt)
          (λ _. Safe-le (omega arith) (omega arith) (skip_tagged-Safe (k - 1) (omega arith))))

  skip_by_type-Safe : (ty : TdfType) (k : ℕ) → k ≤ n → Safe k 0 (skip_by_type go ty)
  unfolding skip_by_type
  skip_by_type-Safe TdfType.var_int k l = skip_var_int-Safe k
  skip_by_type-Safe TdfType.string k l = skip_blob-Safe k
  skip_by_type-Safe TdfType.blob k l = skip_blob-Safe k
  skip_by_type-Safe TdfType.group k l = skip_group-Safe k l
  skip_by_type-Safe TdfType.list k l = skip_list-Safe k l
  skip_by_type-Safe TdfType.map k l = skip_map-Safe k l
  skip_by_type-Safe TdfType.union k l = skip_union-Safe k l
  skip_by_type-Safe TdfType.var_int_list k l = skip_var_int_list-Safe k
  skip_by_type-Safe TdfType.pair k l =
      Safe-then 0 (skip_var_int-Safe k) λ _. skip_var_int-Safe (k - 0)
  skip_by_type-Safe TdfType.triple k l =
      Safe-then 0 (Safe-then 0 (skip_var_int-Safe k) λ _. skip_var_int-Safe (k - 0))
        λ _. skip_var_int-Safe (k - 0)
  skip_by_type-Safe TdfType.float k l = skip_f32-Safe k

skip_nested-Safe : (depth k : ℕ) (ty : TdfType) → k < depth → Safe k 0 (skip_nested depth ty)
unfolding skip_nested
skip_nested-Safe zero k ty h = absurd (omega arith)
skip_nested-Safe (suc depth) k ty h =
    skip_by_type-Safe (λ inner. skip_nested depth inner) depth
      (λ k' ty' h'. skip_nested-Safe depth k' ty' h') ty k (omega arith)

pub skip_type-Safe : (n : ℕ) (ty : TdfType) → Safe n 0 (skip_type ty)
unfolding skip_type
skip_type-Safe n ty = record {
  at = λ r v b.
      (skip_nested-Safe (suc (length r.buffer - r.cursor)) (length r.buffer - r.cursor) ty
          (omega arith)).at
        r v (omega arith);
}

-- In every valid reader `skip_type` succeeds, fails or panics and does not run out of fuel; where it
-- succeeds or fails the buffer is the same, and the cursor has not moved back and stands within the
-- buffer.
pub skip_type-Keeps : (ty : TdfType) (r : TdfReader) → IsValid r → Keeps 0 r (skip_type ty r)
skip_type-Keeps ty r v = (skip_type-Safe (length r.buffer - r.cursor) ty).at r v (omega arith)

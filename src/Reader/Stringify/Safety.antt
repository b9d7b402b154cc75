-- ===== src/Reader/Stringify/Safety.antt =====
-- Making a text of a value keeps what every read keeps and only appends to the text, and its fuel
-- is enough: a value is never nested deeper, and a group never longer, than there are bytes left.
use blaze_pk_rs.Prelude.{
  ℕ, zero, suc, ◌+◌, ◌-◌, ◌≤◌, ◌<◌, refl, Bool, true, false, inl, inr, Bool-cases, [], ◌++◌, ltb,
  ◌==◌, if◌then◌else◌, length, arith,
}
use blaze_pk_rs.Tag.{TdfType, fmt}
use blaze_pk_rs.Text.{Text, Formats, codes}
use blaze_pk_rs.Reader.{TdfReader, peek, advance}
use blaze_pk_rs.Reader.Keeps.{IsValid, Keeps-advance, peek-Still, read_byte-Safe}
use blaze_pk_rs.Reader.Tagged.Safety.{read_type-Safe, read_tag-Safe}
use blaze_pk_rs.Printer.{Printer, ◌▸◌, read}
use blaze_pk_rs.Printer.Safety.{
  Prints-read, Prints, Prints-le, Prints-Still, Safely, Safely-le, push-Safely, Safely-if,
  Safely-then, Safely-read, either_way-Safely, for_each-Safely,
}
use blaze_pk_rs.Types.{union_unset}
use blaze_pk_rs.Reader.Stringify.{
  indentation, stringify_float, stringify_tag, group_end, group_byte, stringify_group_loop,
  stringify_group, list_item, stringify_list, map_item, stringify_map, stringify_union,
  stringify_by_type, stringify_nested, stringify_type,
}
use blaze_pk_rs.Reader.Stringify.Parts.{
  read_f32-Safe, pushes, both, unless_last-Safely, read_usize-Safely, stringify_var_int-Safely,
  stringify_string-Safely, stringify_blob-Safely, stringify_var_int_list-Safely,
  stringify_pair-Safely, stringify_triple-Safely,
}

-- The methods that call `stringify_type`, where it is safe on fewer than `n` bytes.
module _ (f : Formats) where
  stringify_float-Safely : (n : ℕ) → Safely n 4 (stringify_float f)
  unfolding stringify_float
  stringify_float-Safely n =
      Safely-read 4 (read_f32-Safe n) λ _ value. push-Safely (n - 4) (f.f32_to_string value)

  module _ (go : ℕ → TdfType → Printer) (n : ℕ)
      (inner : (k indent : ℕ) (ty : TdfType) → k < n → Safely k 0 (go indent ty)) where
    pub stringify_tag-Safely : (k indent : ℕ) → k < n + 4 → Safely k 4 (stringify_tag f go indent)
    unfolding stringify_tag
    stringify_tag-Safely k indent h = Safely-read 4 (read_tag-Safe k) λ enough tag.
        pushes (k - 4) (indentation indent) (
          pushes (k - 4) (codes "\"" ++ (fmt tag.tag ++ codes "\": ")) (
            either_way-Safely (codes ",\n") (codes "...")
              (inner (k - 4) indent tag.ty (omega arith))))

    group_end-Safely : (k indent : ℕ) (two : Bool) → Safely k 0 (group_end f go indent two)
    unfolding group_end
    group_end-Safely k indent two =
        pushes k (indentation indent)
          (pushes k (codes "}") (push-Safely k (if two then codes " (2)" else [])))

    -- A move by one byte, and what is safe on those behind it.
    step_at :
        (k : ℕ) {r : TdfReader} {out : Text} {p : Printer}
        → length r.buffer ≤ r.cursor + k
        → r.cursor + 1 ≤ length r.buffer
        → Safely (k - 1) 0 p
        → Prints 0 r out (read (advance 1) (λ _. p) r out)
    step_at k {r} {p} b room h = Prints-le (omega arith) (
        Prints-read {n = k} 1 (advance 1) (λ _. p) (advance 1 r) refl b (Keeps-advance 1 r room)
          λ _ _. h)

    group_byte-Safely :
        (k indent byte : ℕ) (two : Bool) (more : Bool → Printer) {r : TdfReader} (out : Text)
        → IsValid r
        → length r.buffer ≤ r.cursor + k
        → r.cursor + 1 ≤ length r.buffer
        → ((j : ℕ) (t : Bool) → j ≤ k → Safely j 0 (more t))
        → Prints 0 r out (group_byte f go indent two more byte r out)
    unfolding group_byte
    group_byte-Safely k indent byte two more {r} out v b room next = elim (Bool-cases (byte == 0)) [
      | inl e ↦ rw e (step_at k b room (group_end-Safely (k - 1) indent two))
      | inr e ↦ elim (Bool-cases (byte == 2)) [
        | inl d ↦ rw e (rw d (step_at k b room (next (k - 1) true (omega arith))))
        | inr d ↦ rw e (rw d ((next k two (omega arith)).at r out v b))
      ]
    ]

    stringify_group_loop-Safely :
        (k fuel indent : ℕ) (two : Bool)
        → k < fuel
        → k ≤ n
        → Safely k 0 (stringify_group_loop f go indent fuel two)
    unfolding stringify_group_loop
    stringify_group_loop-Safely k zero indent two h l = absurd (omega arith)
    stringify_group_loop-Safely k (suc fuel) indent two h l = record {
      at = λ r out v b. elim (Bool-cases (ltb r.cursor (length r.buffer))) [
        | inl more ↦
            let room : r.cursor + 1 ≤ length r.buffer = ground arith in
            let after = λ (t : Bool).
              stringify_tag f go (indent + 1) ▸ stringify_group_loop f go indent fuel t in
            let next = λ (j : ℕ) (t : Bool) (p : j ≤ k).
              Safely-le {k = 0} (omega arith) (omega arith) (
                Safely-then 4 (stringify_tag-Safely j (indent + 1) (omega arith)) λ enough.
                  stringify_group_loop-Safely (j - 4) fuel indent t (omega arith) (omega arith)) in
            rw more (
              Prints-Still 0 r out peek (group_byte f go indent two after) _ refl (peek-Still r)
                λ byte. group_byte-Safely k indent byte two after out v b room next)
        | inr over ↦ rw over ((group_end-Safely k indent two).at r out v b)
      ];
    }

    stringify_group-Safely : (k indent : ℕ) → k ≤ n → Safely k 0 (stringify_group f go indent)
    unfolding stringify_group
    stringify_group-Safely k indent l = pushes k (codes "{\n") (record {
      at = λ r out v b.
          (stringify_group_loop-Safely (length r.buffer - r.cursor)
              (suc (length r.buffer - r.cursor)) indent false (omega arith) (omega arith)).at
            r out v (omega arith);
    })

    list_item-Safely :
        (k indent size i : ℕ) (ty : TdfType) → k < n → Safely k 0 (list_item f go indent ty size i)
    unfolding list_item
    list_item-Safely k indent size i ty l = pushes k _ (
        both (inner k (indent + 1) ty l)
          (both (unless_last-Safely k i size (codes ", ")) (push-Safely k _)))

    stringify_list-Safely : (k indent : ℕ) → k ≤ n → Safely k 0 (stringify_list f go indent)
    unfolding stringify_list
    stringify_list-Safely k indent l = Safely-le (omega arith) (omega arith) (
        Safely-read 1 (read_type-Safe k) λ enough ty. Safely-le (omega arith) (omega arith) (
          read_usize-Safely (k - 1) λ size. pushes (k - 1 - 1) (codes "[") (
            pushes (k - 1 - 1) _ (
              both
                (for_each-Safely (k - 1 - 1) size 0
                  λ i. list_item-Safely (k - 1 - 1) indent size i ty (omega arith))
                (pushes (k - 1 - 1) _ (push-Safely (k - 1 - 1) (codes "]")))))))

    map_item-Safely :
        (k indent size i : ℕ) (key_ty value_ty : TdfType)
        → k < n
        → Safely k 0 (map_item f go indent key_ty value_ty size i)
    unfolding map_item
    map_item-Safely k indent size i key_ty value_ty l = pushes k (indentation (indent + 1)) (
        both (inner k (indent + 1) key_ty l) (
          pushes k (codes ": ") (
            both (inner k (indent + 1) value_ty l)
              (both (unless_last-Safely k i size (codes ",")) (push-Safely k (codes "\n"))))))

    stringify_map-Safely : (k indent : ℕ) → k ≤ n → Safely k 0 (stringify_map f go indent)
    unfolding stringify_map
    stringify_map-Safely k indent l = Safely-le (omega arith) (omega arith) (
        Safely-read 1 (read_type-Safe k) λ enough key_ty. Safely-le (omega arith) (omega arith) (
          Safely-read 1 (read_type-Safe (k - 1)) λ _ value_ty.
            Safely-le (omega arith) (omega arith) (
              read_usize-Safely (k - 1 - 1) λ size. pushes (k - 1 - 1 - 1) _ (
                pushes (k - 1 - 1 - 1) (codes "{\n") (
                  both
                    (for_each-Safely (k - 1 - 1 - 1) size 0 λ i.
                      map_item-Safely (k - 1 - 1 - 1) indent size i key_ty value_ty (omega arith))
                    (pushes (k - 1 - 1 - 1) (indentation indent)
                      (push-Safely (k - 1 - 1 - 1) (codes "}"))))))))

    stringify_union-Safely : (k indent : ℕ) → k ≤ n → Safely k 0 (stringify_union f go indent)
    unfolding stringify_union
    stringify_union-Safely k indent l = Safely-le (omega arith) (omega arith) (
        Safely-read 1 (read_byte-Safe k) λ enough key.
          Safely-if (key == union_unset) (λ _. push-Safely (k - 1) (codes "Union(Unset)"))
            (λ _. Safely-le (omega arith) (omega arith) (
              Safely-read 4 (read_tag-Safe (k - 1)) λ _ tag. pushes (k - 1 - 4) _ (
                both (inner (k - 1 - 4) (indent + 1) tag.ty (omega arith))
                  (push-Safely (k - 1 - 4) (codes ")"))))))

    stringify_by_type-Safely :
        (k indent : ℕ) (ty : TdfType) → k ≤ n → Safely k 0 (stringify_by_type f go indent ty)
    unfolding stringify_by_type
    stringify_by_type-Safely k indent TdfType.var_int l =
        Safely-le (omega arith) (omega arith) (stringify_var_int-Safely k)
    stringify_by_type-Safely k indent TdfType.string l =
        Safely-le (omega arith) (omega arith) (stringify_string-Safely k)
    stringify_by_type-Safely k indent TdfType.blob l =
        Safely-le (omega arith) (omega arith) (stringify_blob-Safely k)
    stringify_by_type-Safely k indent TdfType.group l = stringify_group-Safely k indent l
    stringify_by_type-Safely k indent TdfType.list l = stringify_list-Safely k indent l
    stringify_by_type-Safely k indent TdfType.map l = stringify_map-Safely k indent l
    stringify_by_type-Safely k indent TdfType.union l = stringify_union-Safely k indent l
    stringify_by_type-Safely k indent TdfType.var_int_list l =
        Safely-le (omega arith) (omega arith) (stringify_var_int_list-Safely k)
    stringify_by_type-Safely k indent TdfType.pair l =
        Safely-le (omega arith) (omega arith) (stringify_pair-Safely k)
    stringify_by_type-Safely k indent TdfType.triple l =
        Safely-le (omega arith) (omega arith) (stringify_triple-Safely k)
    stringify_by_type-Safely k indent TdfType.float l =
        Safely-le (omega arith) (omega arith) (stringify_float-Safely k)

  stringify_nested-Safely :
      (depth k indent : ℕ) (ty : TdfType)
      → k < depth
      → Safely k 0 (stringify_nested f depth indent ty)
  unfolding stringify_nested
  stringify_nested-Safely zero k indent ty h = absurd (omega arith)
  stringify_nested-Safely (suc depth) k indent ty h =
      let inside =
        stringify_by_type-Safely (λ i inner. stringify_nested f depth i inner) depth
          (λ j i inner l. stringify_nested-Safely depth j i inner l) k indent ty (omega arith) in
      record { at = λ r out v b. inside.at r out v b }

  -- `stringify_type` always comes to an end.
  pub stringify_type-Safely :
      (n indent : ℕ) (ty : TdfType) → Safely n 0 (stringify_type f indent ty)
  unfolding stringify_type
  stringify_type-Safely n indent ty = record {
    at = λ r out v b.
        (stringify_nested-Safely (suc (length r.buffer - r.cursor)) (length r.buffer - r.cursor)
            indent ty (omega arith)).at
          r out v (omega arith);
  }

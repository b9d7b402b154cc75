-- ===== src/Format/Skip.antt =====
-- `skip_type` takes exactly the bytes of a value of the format.
use mathlib.Core.Path.{subst}
use blaze_pk_rs.Prelude.{
  ℕ, zero, suc, ◌+◌, ◌<◌, ◌≤◌, List, [], ◌∷◌, ◌++◌, append_assoc, length, length-append, arith,
}
use blaze_pk_rs.Tag.{TdfType}
use blaze_pk_rs.Tag.Code.{to_u8}
use blaze_pk_rs.Text.{Formats}
use blaze_pk_rs.TagFormat.Pack.{length-pack}
use blaze_pk_rs.Writer.Tagged.{pack}
use blaze_pk_rs.Reader.{◌>>◌}
use blaze_pk_rs.Reader.VarInt.{skip_var_int}
use blaze_pk_rs.Reader.Reads.{Reads, Reads-pure, Reads-bind, skip_slice-Reads}
use blaze_pk_rs.Reader.Skip.{repeat, skip_group_loop, skip_by_type, skip_nested, skip_type}
use blaze_pk_rs.Reader.Skip.Reads.{skip_type-Reads}
use blaze_pk_rs.Format.{
  Layout, Value, var_int, string, blob, group, group_2, list, map, union_none, union_some,
  var_int_list, pair, triple, float, Items, no_items, item, Pairs, no_pairs, entry, Fields,
  no_fields, field,
}
use blaze_pk_rs.Format.Tokens.{Number-skips, Numbers-skips}
use blaze_pk_rs.Format.Groups.{loop_end}
use blaze_pk_rs.Format.Skips.{
  sized_skips, numbers_skip, group_2_skips, group_skips, list_skips, map_skips, union_none_skips,
  union_some_skips, field_skips,
}

module _ (f : Formats) where
  mutual
    unfolding skip_nested skip_by_type repeat

    value_skips :
        {ty : TdfType} {xs : List ℕ} {text : Layout}
        → Value f ty xs text
        → (depth : ℕ) → length xs ≤ depth
        → Reads (skip_nested (suc depth) ty) xs tt
    value_skips (var_int n) depth h = Number-skips n
    value_skips (string xs n e) depth h = sized_skips xs n e
    value_skips (blob xs n e) depth h = sized_skips xs n e
    value_skips (group {xs} fs) depth h =
        group_skips depth xs (fields_skips fs depth (omega (arith, length-append xs (0 ∷ [])))) fs
    value_skips (group_2 {xs} fs some) depth h =
        group_2_skips depth xs (fields_skips fs depth (omega (arith, length-append xs (0 ∷ []))))
    value_skips (list {ns} {xs} ty n e items) zero h = absurd (omega arith)
    value_skips (list {ns} {xs} {ts} ty n e items) (suc depth) h =
        list_skips (suc depth) ts ty n e
          (items_skips items depth (omega (arith, length-append ns xs)))
    value_skips (map key_ty value_ty n e pairs) zero h = absurd (omega arith)
    value_skips (map {ns} {xs} {ts} key_ty value_ty n e pairs) (suc depth) h =
        map_skips (suc depth) ts key_ty value_ty n e
          (pairs_skips pairs depth (omega (arith, length-append ns xs)))
    value_skips union_none depth h = union_none_skips depth
    value_skips (union_some key name ty set bytes v) zero h = absurd (omega arith)
    value_skips (union_some {xs} key name ty set bytes v) (suc depth) h =
        union_some_skips (suc depth) key name ty set bytes
          (value_skips v depth (omega (arith, length-append (pack name (to_u8 ty)) xs)))
    value_skips (var_int_list {vs} n e ns) depth h = numbers_skip vs n e (Numbers-skips ns)
    value_skips (pair a b) depth h = Reads-bind skip_var_int _ (Number-skips a) (Number-skips b)
    value_skips (triple {xs} {ys} {zs} a b c) depth h =
        subst (λ bytes. Reads (skip_var_int >> skip_var_int >> skip_var_int) bytes tt)
          (append_assoc xs ys zs)
          (Reads-bind (skip_var_int >> skip_var_int) _
            (Reads-bind skip_var_int _ (Number-skips a) (Number-skips b)) (Number-skips c))
    value_skips (float a b c d) depth h = skip_slice-Reads (a ∷ b ∷ c ∷ d ∷ [])

    fields_skips :
        {xs : List ℕ} {lines : Layout}
        → Fields f xs lines
        → (depth : ℕ) → length xs < depth
        → (fuel : ℕ) → length xs ≤ fuel
        → Reads (skip_group_loop (skip_nested depth) (suc fuel)) (xs ++ 0 ∷ []) tt
    fields_skips no_fields depth h fuel g = loop_end (skip_nested depth) fuel
    fields_skips (field name ty letter v fs) zero h fuel g = absurd (omega arith)
    fields_skips (field {xs} {ys} name ty letter v fs) (suc depth) h zero g = absurd (
        omega (
          arith,
          length-append (pack name (to_u8 ty) ++ xs) ys,
          length-append (pack name (to_u8 ty)) xs,
          length-pack name (to_u8 ty),
        ))
    fields_skips (field {xs} {ys} name ty letter v fs) (suc depth) h (suc fuel) g =
        field_skips depth fuel ys name ty letter
          (value_skips v depth (
            omega (
              arith,
              length-append (pack name (to_u8 ty) ++ xs) ys,
              length-append (pack name (to_u8 ty)) xs,
            )))
          (fields_skips fs (suc depth)
            (omega (arith, length-append (pack name (to_u8 ty) ++ xs) ys)) fuel
            (omega (
              arith,
              length-append (pack name (to_u8 ty) ++ xs) ys,
              length-append (pack name (to_u8 ty)) xs,
              length-pack name (to_u8 ty),
            )))

    items_skips :
        {ty : TdfType} {xs : List ℕ} {ts : List Layout}
        → Items f ty xs ts
        → (depth : ℕ) → length xs ≤ depth
        → Reads (repeat (length ts) (skip_nested (suc depth) ty)) xs tt
    items_skips no_items depth h = Reads-pure tt
    items_skips (item {xs} {ys} v items) depth h =
        Reads-bind (skip_nested (suc depth) _) _
          (value_skips v depth (omega (arith, length-append xs ys)))
          (items_skips items depth (omega (arith, length-append xs ys)))

    pairs_skips :
        {key_ty value_ty : TdfType} {xs : List ℕ} {ts : List (Layout × Layout)}
        → Pairs f key_ty value_ty xs ts
        → (depth : ℕ) → length xs ≤ depth
        → Reads
            (repeat
              (length ts)
              (skip_nested (suc depth) key_ty >> skip_nested (suc depth) value_ty))
            xs
            tt
    pairs_skips no_pairs depth h = Reads-pure tt
    pairs_skips (entry {xs} {ys} {zs} k v pairs) depth h =
        let room : length xs + length ys + length zs ≤ depth =
          omega (arith, length-append xs ys, length-append (xs ++ ys) zs) in
        Reads-bind (skip_nested (suc depth) _ >> skip_nested (suc depth) _) _
          (Reads-bind (skip_nested (suc depth) _) _ (value_skips k depth (omega arith))
            (value_skips v depth (omega arith)))
          (pairs_skips pairs depth (omega arith))

  -- `skip_type` takes exactly the bytes of a value of its type.
  pub skip_type-Value :
      {ty : TdfType} {xs : List ℕ} {text : Layout} → Value f ty xs text → Reads (skip_type ty) xs tt
  skip_type-Value {ty} {xs} v = skip_type-Reads ty xs (value_skips v)

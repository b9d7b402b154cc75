-- ===== src/Format/Show.antt =====
-- `stringify_type` takes exactly the bytes of a value of the format, and writes its text; and
-- `stringify` does so with all fields of a message.
use mathlib.Core.Path.{subst}
use blaze_pk_rs.Prelude.{
  ℕ, zero, suc, ◌+◌, ◌<◌, ◌≤◌, ◌≡◌, sym, Bool, true, false, List, [], ◌∷◌, ◌++◌, append_assoc,
  length, length-append, arith,
}
use blaze_pk_rs.Tag.{TdfType}
use blaze_pk_rs.Tag.Code.{to_u8}
use blaze_pk_rs.Text.{Text, Formats, codes}
use blaze_pk_rs.TagFormat.Pack.{length-pack}
use blaze_pk_rs.Writer.Tagged.{pack}
use blaze_pk_rs.Reader.Reads.{Reads}
use blaze_pk_rs.Printer.{for_each}
use blaze_pk_rs.Printer.Shows.{Shows, Shows-then, Shows-fuel}
use blaze_pk_rs.Reader.Stringify.{
  indentation, stringify_group_loop, list_item, map_item, stringify_by_type, stringify_nested,
  stringify_type,
}
use blaze_pk_rs.Format.{
  Layout, IsFieldName, items_text, pairs_text, field_text, Value, var_int, string, blob, group,
  group_2, list, map, union_none, union_some, var_int_list, pair, triple, float, Items, no_items,
  item, Pairs, no_pairs, entry, Fields, no_fields, field,
}
use blaze_pk_rs.Format.Tokens.{Starts-append, pack-Starts}
use blaze_pk_rs.Format.Skip.{skip_type-Value}
use blaze_pk_rs.Reader.Skip.{skip_type}
use blaze_pk_rs.Format.Rows.{
  for_none-Shows, for_next-Shows, var_int-Shows, string-Shows, blob-Shows, var_int_list-Shows,
  pair-Shows, triple-Shows, float-Shows,
}
use blaze_pk_rs.Format.Rounds.{
  mark, more, end_round, two_round, field_round, tag-Shows, list_item-Shows, list-Shows,
  map_item-Shows, map-Shows, union_none-Shows, union_some-Shows, group-Shows,
}

module _ (f : Formats) where
  -- A field, and the other fields of its group, in front of the end of the group.
  more-Shows :
      (depth i fuel : ℕ) (was two : Bool) {xs : List ℕ} (ys name : List ℕ) (ty : TdfType)
      (text lines : Layout)
      → IsFieldName name
      → Shows (stringify_nested f depth (i + 1) ty) xs (text (i + 1))
      → Shows
          (stringify_group_loop f (stringify_nested f depth) i fuel two)
          (ys ++ 0 ∷ [])
          (lines (i + 1) ++ (indentation i ++ (codes "}" ++ mark two)))
      → Shows
          (more f (stringify_nested f depth) i fuel was two)
          (((pack name (to_u8 ty) ++ xs) ++ ys) ++ 0 ∷ [])
          ((field_text name text (i + 1) ++ lines (i + 1))
            ++ (indentation i ++ (codes "}" ++ mark two)))
  more-Shows depth i fuel was two {xs} ys name ty text lines letter h rest =
      let end : Text = indentation i ++ (codes "}" ++ mark two) in
      subst
        (λ t.
          Shows (more f (stringify_nested f depth) i fuel was two)
            (((pack name (to_u8 ty) ++ xs) ++ ys) ++ 0 ∷ []) t)
        (sym (append_assoc (field_text name text (i + 1)) (lines (i + 1)) end))
        (subst
          (λ zs.
            Shows (more f (stringify_nested f depth) i fuel was two) zs
              (field_text name text (i + 1) ++ (lines (i + 1) ++ end)))
          (sym (append_assoc (pack name (to_u8 ty) ++ xs) ys (0 ∷ [])))
          (Shows-then (tag-Shows f (stringify_nested f depth) (i + 1) text name ty letter.bytes h)
            rest))

  abbrev parts_length :
      (xs ys name : List ℕ) (ty : TdfType)
      → length ((pack name (to_u8 ty) ++ xs) ++ ys) ≡ 4 + length xs + length ys
  parts_length xs ys name ty = omega (
    arith,
    length-append (pack name (to_u8 ty) ++ xs) ys,
    length-append (pack name (to_u8 ty)) xs,
    length-pack name (to_u8 ty),
  )

  mutual
    unfolding stringify_nested stringify_by_type

    value_shows :
        {ty : TdfType} {xs : List ℕ} {text : Layout}
        → Value f ty xs text
        → (depth i : ℕ) → length xs ≤ depth
        → Shows (stringify_nested f (suc depth) i ty) xs (text i)
    value_shows (var_int n) depth i h = var_int-Shows n
    value_shows (string xs n e) depth i h = string-Shows xs n e
    value_shows (blob xs n e) depth i h = blob-Shows xs n e
    value_shows (group {xs} {lines} fs) depth i h =
        group-Shows f (stringify_nested f depth) i lines (xs ++ 0 ∷ []) false λ fuel g.
          fields_shows fs depth i (omega (arith, length-append xs (0 ∷ []))) (suc fuel) false
            (omega (arith, length-append xs (0 ∷ [])))
    value_shows (group_2 no_fields some) depth i h = absurd (omega arith)
    value_shows (group_2 (field name ty letter v fs) some) zero i h = absurd (omega arith)
    value_shows (group_2 {lines} (field {xs} {ys} {text} {lines = others} name ty letter v fs) some)
          (suc depth) i h =
        let size : length ((pack name (to_u8 ty) ++ xs) ++ ys) ≡ 4 + length xs + length ys =
          parts_length xs ys name ty in
        let whole = length-append ((pack name (to_u8 ty) ++ xs) ++ ys) (0 ∷ []) in
        group-Shows f (stringify_nested f (suc depth)) i (λ j. field_text name text j ++ others j) _
          true
          λ fuel g. two_round f (stringify_nested f (suc depth)) i fuel false (
            more-Shows (suc depth) i fuel false true ys name ty text others letter
              (value_shows v depth (i + 1) (omega (arith, size, whole)))
              (fields_shows fs (suc depth) i (omega (arith, size, whole)) fuel true
                (omega (arith, size, whole))))
    value_shows (list {ns} {xs} ty n e items) zero i h = absurd (omega arith)
    value_shows (list {ns} {xs} {ts} ty n e items) (suc depth) i h =
        list-Shows f (stringify_nested f (suc depth)) i ts ty n e (
          items_shows items depth i (length ts) 0 (omega (arith, length-append ns xs))
            (omega arith))
    value_shows (map {ns} {xs} key_ty value_ty n e pairs) zero i h = absurd (omega arith)
    value_shows (map {ns} {xs} {ts} key_ty value_ty n e pairs) (suc depth) i h =
        map-Shows f (stringify_nested f (suc depth)) i ts key_ty value_ty n e (
          pairs_shows pairs depth i (length ts) 0 (omega (arith, length-append ns xs))
            (omega arith))
    value_shows union_none depth i h = union_none-Shows f (stringify_nested f depth) i
    value_shows (union_some {xs} {text} key name ty set bytes v) zero i h = absurd (omega arith)
    value_shows (union_some {xs} {text} key name ty set bytes v) (suc depth) i h =
        union_some-Shows f (stringify_nested f (suc depth)) i text key name ty set bytes
          (value_shows v depth (i + 1) (omega (arith, length-append (pack name (to_u8 ty)) xs)))
    value_shows (var_int_list n e ns) depth i h = var_int_list-Shows n e ns
    value_shows (pair a b) depth i h = pair-Shows a b
    value_shows (triple a b c) depth i h = triple-Shows a b c
    value_shows (float a b c d) depth i h = float-Shows f a b c d

    fields_shows :
        {xs : List ℕ} {lines : Layout}
        → Fields f xs lines
        → (depth i : ℕ) → length xs < depth
        → (fuel : ℕ) (two : Bool) → length xs < fuel
        → Shows
            (stringify_group_loop f (stringify_nested f depth) i fuel two)
            (xs ++ 0 ∷ [])
            (lines (i + 1) ++ (indentation i ++ (codes "}" ++ mark two)))
    fields_shows no_fields depth i h zero two g = absurd (omega arith)
    fields_shows no_fields depth i h (suc fuel) two g =
        end_round f (stringify_nested f depth) i fuel two
    fields_shows (field name ty letter v fs) zero i h fuel two g = absurd (omega arith)
    fields_shows (field {xs} {ys} name ty letter v fs) (suc depth) i h zero two g =
        absurd (omega arith)
    fields_shows (field {xs} {ys} {text} {lines} name ty letter v fs) (suc depth) i h (suc fuel) two
          g =
        let size = parts_length xs ys name ty in
        field_round f (stringify_nested f (suc depth)) i fuel two
          (Starts-append (0 ∷ [])
            (Starts-append ys (Starts-append xs (pack-Starts name ty letter))))
          (more-Shows (suc depth) i fuel two two ys name ty text lines letter
            (value_shows v depth (i + 1) (omega (arith, size)))
            (fields_shows fs (suc depth) i (omega (arith, size)) fuel two (omega (arith, size))))

    items_shows :
        {ty : TdfType} {xs : List ℕ} {ts : List Layout}
        → Items f ty xs ts
        → (depth i size j : ℕ) → length xs ≤ depth
        → j + length ts ≡ size
        → Shows
            (for_each (length ts) j (list_item f (stringify_nested f (suc depth)) i ty size))
            xs
            (items_text ty i ts)
    items_shows (no_items {ty}) depth i size j h e =
        for_none-Shows j (list_item f (stringify_nested f (suc depth)) i ty size)
    items_shows (item {ty} {xs} {ys} {t} {ts} v items) depth i size j h e =
        for_next-Shows (length ts) j _
          (list_item-Shows f (stringify_nested f (suc depth)) i t ty size j ts
            (value_shows v depth (i + 1) (omega (arith, length-append xs ys))) (omega (arith, e)))
          (items_shows items depth i size (j + 1) (omega (arith, length-append xs ys))
            (omega (arith, e)))

    pairs_shows :
        {key_ty value_ty : TdfType} {xs : List ℕ} {ts : List (Layout × Layout)}
        → Pairs f key_ty value_ty xs ts
        → (depth i size j : ℕ) → length xs ≤ depth
        → j + length ts ≡ size
        → Shows
            (for_each
              (length ts)
              j
              (map_item f (stringify_nested f (suc depth)) i key_ty value_ty size))
            xs
            (pairs_text i ts)
    pairs_shows (no_pairs {key_ty} {value_ty}) depth i size j h e =
        for_none-Shows j (map_item f (stringify_nested f (suc depth)) i key_ty value_ty size)
    pairs_shows (entry {key_ty} {value_ty} {xs} {ys} {zs} {k} {v} {ts} hk hv pairs) depth i size j h
          e =
        let room : length xs + length ys + length zs ≤ depth =
          omega (arith, length-append xs ys, length-append (xs ++ ys) zs) in
        for_next-Shows (length ts) j _
          (map_item-Shows f (stringify_nested f (suc depth)) i k v key_ty value_ty size j ts
            (value_shows hk depth (i + 1) (omega arith))
            (value_shows hv depth (i + 1) (omega arith)) (omega (arith, e)))
          (pairs_shows pairs depth i size (j + 1) (omega arith) (omega (arith, e)))

  -- `stringify_type` takes exactly the bytes of a value of its type, and writes its text.
  pub stringify_type-Value :
      {ty : TdfType} {xs : List ℕ} {text : Layout}
      → Value f ty xs text
      → (i : ℕ) → Shows (stringify_type f i ty) xs (text i)
  unfolding stringify_type
  stringify_type-Value {ty} {xs} {text} v i =
      Shows-fuel (λ fuel. stringify_nested f fuel i ty) xs (text i) λ fuel g. value_shows v fuel i g

  -- A reader that knows the type of a value of the format alone has two ways to pass over it,
  -- `skip_type` and `stringify_type`. Both take exactly its bytes, wherever they stand in a buffer of
  -- less than 2 ^ 63 bytes, and `stringify_type` writes its text.
  pub skip_type-stringify_type :
      {ty : TdfType} {xs : List ℕ} {text : Layout} (i : ℕ)
      → Value f ty xs text
      → Reads (skip_type ty) xs tt × Shows (stringify_type f i ty) xs (text i)
  skip_type-stringify_type i v = (skip_type-Value f v, stringify_type-Value v i)

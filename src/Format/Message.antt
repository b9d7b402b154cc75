-- ===== src/Format/Message.antt =====
-- `stringify` on a whole buffer of fields, and on the one form of a group that it does not take as
-- `skip_type` does.
use blaze_pk_rs.Prelude.{
  ℕ, zero, suc, ◌+◌, ◌-◌, ◌^◌, ◌<◌, ◌≡◌, sym, ap, ◌∙◌, false, true, List, [], ◌∷◌, ◌++◌,
  append_assoc, append-nil, length, length-append, ltb, lt→ltb, le→not_ltb, arith,
}
use blaze_pk_rs.Tag.{TdfType}
use blaze_pk_rs.Tag.Code.{to_u8}
use blaze_pk_rs.TagFormat.Pack.{length-pack}
use blaze_pk_rs.Writer.Tagged.{pack}
use blaze_pk_rs.Text.{Text, Formats, codes}
use blaze_pk_rs.Error.{unexpected_eof}
use blaze_pk_rs.Reader.Bind.{bind_ok, bind_err}
use blaze_pk_rs.Reader.Keeps.{len_lem}
use blaze_pk_rs.Reader.Skip.{skip_type, skip_nested, skip_group}
use blaze_pk_rs.Reader.Skip.Reads.{skip_type-Reads}
use blaze_pk_rs.Format.Skips.{group_2_skips}
use blaze_pk_rs.Format.Groups.{loop_end}
use blaze_pk_rs.Reader.{
  TdfReader, ok, err, new, read_byte_4, expect_length, end_of, eof, len, usize_mod,
}
use blaze_pk_rs.Reader.Tagged.{read_tag}
use blaze_pk_rs.Reader.Reads.{Reads, between, peek-between, advance-between, slice_limit}
use blaze_pk_rs.Reader.Stringify.{
  stringify_nested, stringify_group, stringify_group_loop, group_byte, stringify_tag,
  stringify_type, field_end, stringify_loop, stringify,
}
use blaze_pk_rs.Printer.{Printer, read, push, ◌▸◌, done, failed}
use blaze_pk_rs.Format.{Layout, field_text, Fields, no_fields, field}
use blaze_pk_rs.Format.Rounds.{tag-Shows}
use blaze_pk_rs.Format.Show.{stringify_type-Value}

module _ (f : Formats) where
  fields_loop :
      {xs : List ℕ} {lines : Layout}
      → Fields f xs lines
      → (fuel : ℕ) (front : List ℕ) (out : Text) → length xs < fuel
      → length (front ++ xs) < slice_limit
      → stringify_loop f fuel (between front xs) out
        ≡ done (between (front ++ xs) []) (out ++ lines 1)
  unfolding stringify_loop field_end
  fields_loop no_fields zero front out h fits = absurd (omega arith)
  fields_loop no_fields (suc fuel) front out h fits =
      rw (le→not_ltb (length front) (length (front ++ [])) (omega (arith, length-append front [])))
        (λ i. done (between (sym (append-nil front) i) []) (sym (append-nil out) i))
  fields_loop (field name ty letter v fs) zero front out h fits = absurd (omega arith)
  fields_loop (field {xs} {ys} {text} {lines} name ty letter v fs) (suc fuel) front out h fits =
      let value = pack name (to_u8 ty) ++ xs in
      let size : length (value ++ ys) ≡ 4 + length xs + length ys = omega (
        arith,
        length-append value ys,
        length-append (pack name (to_u8 ty)) xs,
        length-pack name (to_u8 ty),
      ) in
      let more : ltb (length front) (length (front ++ (value ++ ys))) ≡ true =
        lt→ltb (length front) (length (front ++ (value ++ ys)))
          (omega (arith, size, length-append front (value ++ ys))) in
      let step =
        (tag-Shows f (stringify_type f) 1 text name ty letter.bytes
            (stringify_type-Value f v 1)).run
          front ys out fits in
      let rest =
        fields_loop fs fuel (front ++ value) (out ++ field_text name text 1) (omega (arith, size))
          (rw append_assoc fits) in
      rw more (
        ap (field_end f (stringify_loop f fuel)) step ∙ rest ∙ (λ i.
          done (between (append_assoc front value ys i) [])
            (append_assoc out (field_text name text 1) (lines 1) i)))

  -- For a buffer of less than 2 ^ 63 bytes that holds fields, and nothing behind them, `stringify`
  -- returns no error, reads all of it, and appends the line of each field, in their order and
  -- indented once, and no note on an error.
  pub stringify-Fields :
      {xs : List ℕ} {lines : Layout} (out : Text)
      → Fields f xs lines
      → length xs < 2 ^ 63
      → stringify f (new xs) out ≡ done (between xs []) (out ++ lines 1)
  unfolding stringify new
  stringify-Fields {xs} out fs fits = fields_loop fs (suc (length xs - 0)) [] out (omega arith) fits

-- One byte is left, and four are wanted.
module _ (front : List ℕ) (b : ℕ) (h : length front < 2 ^ 62) where
  abbrev one_left : TdfReader
  one_left = between front (b ∷ [])

  size : length (front ++ b ∷ []) ≡ length front + 1
  size = length-append front (b ∷ [])

  end_past : end_of 4 one_left ≡ ok (length front + 4) one_left
  unfolding end_of
  end_past = rw (lt→ltb (length front + 4) usize_mod (omega arith))

  no_room : expect_length 4 one_left ≡ err (unexpected_eof (length front) 4 1) one_left
  unfolding expect_length eof
  no_room =
      bind_ok (end_of 4) _ end_past
      ∙ rw (lt→ltb (length (front ++ b ∷ [])) (length front + 4) (omega (arith, size))) (
          bind_ok len _ (len_lem one_left (omega (arith, size)))
          ∙ ap (λ n. err (unexpected_eof (length front) 4 n) one_left) (omega (arith, size)))

  no_tag : read_tag one_left ≡ err (unexpected_eof (length front) 4 1) one_left
  unfolding read_tag read_byte_4
  no_tag = bind_err read_byte_4 _ (bind_err (expect_length 4) _ no_room)

-- The loop over the fields of a group reads a tag behind a two.
two_and_end :
    (f : Formats) (go : ℕ → TdfType → Printer) (i fuel : ℕ) (front : List ℕ) (out : Text)
    → length front < 2 ^ 61
    → stringify_group_loop f go i (suc fuel) false (between front (2 ∷ 0 ∷ [])) out
      ≡ failed
          (unexpected_eof (length (front ++ 2 ∷ [])) 4 1)
          (between (front ++ 2 ∷ []) (0 ∷ []))
          out
unfolding stringify_group_loop group_byte stringify_tag
two_and_end f go i fuel front out h =
    let fits : length (front ++ 2 ∷ 0 ∷ []) < slice_limit =
      omega (arith, length-append front (2 ∷ 0 ∷ [])) in
    let room : length (front ++ 2 ∷ []) < 2 ^ 62 = omega (arith, length-append front (2 ∷ [])) in
    rw
      (lt→ltb (length front) (length (front ++ 2 ∷ 0 ∷ []))
        (omega (arith, length-append front (2 ∷ 0 ∷ []))))
      (rw (peek-between front 2 (0 ∷ []), read)
        (rw (advance-between front (2 ∷ []) (0 ∷ []) fits, read)
          (rw (no_tag (front ++ 2 ∷ []) 0 room, read, ◌▸◌))))

-- A group that begins with a two, has no fields, and is the last thing in a buffer: `skip_type`
-- takes both of its bytes, and `stringify_type` takes the second one for the first byte of a tag
-- and returns an error, with the text `{` and a line break behind the text that was there.
pub empty_group_2 :
    (f : Formats) (i : ℕ) (front : List ℕ) (out : Text)
    → length front < 2 ^ 61
    → (skip_type TdfType.group (between front (2 ∷ 0 ∷ []))
        ≡ ok tt (between (front ++ 2 ∷ 0 ∷ []) []))
      × (stringify_type f i TdfType.group (between front (2 ∷ 0 ∷ [])) out
          ≡ failed
              (unexpected_eof (length (front ++ 2 ∷ [])) 4 1)
              (between (front ++ 2 ∷ []) (0 ∷ []))
              (out ++ codes "{\n"))
unfolding skip_nested skip_group stringify_type stringify_nested stringify_group push ◌▸◌
empty_group_2 f i front out h =
    let fits : length (front ++ 2 ∷ 0 ∷ []) < slice_limit =
      omega (arith, length-append front (2 ∷ 0 ∷ [])) in
    let skipped : Reads (skip_type TdfType.group) (2 ∷ 0 ∷ []) tt =
      skip_type-Reads TdfType.group (2 ∷ 0 ∷ [])
        (λ depth _. group_2_skips depth [] (λ fuel _. loop_end (skip_nested depth) fuel)) in
    let left : ℕ = length (front ++ 2 ∷ 0 ∷ []) - length front in
    (
      skipped.run front [] fits,
      two_and_end f (stringify_nested f left) i left front (out ++ codes "{\n") h,
    )

-- ===== src/Runs/Texts.antt =====
-- Runs of what makes texts.
use blaze_pk_rs.Prelude.{ℕ, ◌≡◌, refl, List, [], ◌∷◌, ◌++◌, none, false, inl, arith}
use blaze_pk_rs.Buffer.Vectors.{vectors}
use blaze_pk_rs.Packet.{request}
use blaze_pk_rs.Packet.Debug.{PacketDebug, unlines, shown, fmt, Braced, fmt-Braced}
use blaze_pk_rs.Error.{unexpected_eof}
use blaze_pk_rs.Tag.{TdfType}
use blaze_pk_rs.Tag.Code.{to_u8}
use blaze_pk_rs.Text.{Formats, codes, decimal}
use blaze_pk_rs.Types.Text.{as_bytes, encode_char, terminated, ends_in_zero, tag_str}
use blaze_pk_rs.Types.Text.Utf8.{IsScalar}
use blaze_pk_rs.VarInt.{short}
use blaze_pk_rs.Writer.{Writer, ◌▸◌, default, write_byte, write_slice}
use blaze_pk_rs.Writer.VarInt.{write_usize, write_u8, impl_encode_var}
use blaze_pk_rs.Writer.Tagged.{pack, tag, tag_u8, group}
use blaze_pk_rs.Reader.{new, ok}
use blaze_pk_rs.Reader.Reads.{Reads, between}
use blaze_pk_rs.Reader.Skip.{skip_type}
use blaze_pk_rs.Reader.Stringify.{stringify, stringify_type}
use blaze_pk_rs.Reader.Stringify.Ends.{Ends}
use blaze_pk_rs.Reader.Stringify.Rounds.{Rounds, stringify-Rounds}
use blaze_pk_rs.Printer.{done, failed}
use blaze_pk_rs.Printer.Shows.{Shows}
use blaze_pk_rs.Format.{
  Number, IsFieldName, Layout, Value, Fields, field, no_fields, field_text, group_text,
}
use blaze_pk_rs.Format.Show.{skip_type-stringify_type}
use blaze_pk_rs.Format.Message.{stringify-Fields, empty_group_2}
use blaze_pk_rs.Format.Written.{quoted}
use blaze_pk_rs.Format.Calls.{calls, call_u8, call_group, call_str, stringify-Calls}

abbrev formats : Formats
formats = record { f32_to_string = λ bits. codes "float"; debug_str = λ s. codes "\"\"" }

-- Bytes that are no message.
ends_example :
    Ends (new (1 ∷ 2 ∷ 3 ∷ [])) (codes "> ") (stringify formats (new (1 ∷ 2 ∷ 3 ∷ [])) (codes "> "))
    × Rounds formats
        (new (1 ∷ 2 ∷ 3 ∷ []))
        (codes "> ")
        (stringify formats (new (1 ∷ 2 ∷ 3 ∷ [])) (codes "> "))
unfolding new
ends_example = stringify-Rounds formats (new (1 ∷ 2 ∷ 3 ∷ [])) (codes "> ") (omega arith)

abbrev debugged : PacketDebug vectors formats (λ bytes. []) ℕ
debugged = record {
  packet = record { header = request 7 9 2; contents = 0x86 ∷ 0xeb ∷ 0xee ∷ 0 ∷ 5 ∷ [] };
  component = none;
  minified = false;
}

braced_example :
    Braced vectors formats
      (λ bytes. [])
      (unlines (shown decimal (request 7 9 2) none))
      (fmt vectors formats (λ bytes. []) decimal debugged)
braced_example = fmt-Braced vectors formats (λ bytes. []) decimal debugged refl

-- The name "GRP".
abbrev grp : List ℕ
grp = 71 ∷ 82 ∷ 80 ∷ []

grp-IsFieldName : IsFieldName grp
grp-IsFieldName = omega arith

five : Number 5 (5 ∷ [])
five = record { fits = omega arith; brief = omega arith; code = short (omega arith) }

abbrev five_line : Layout
five_line i = field_text grp (λ j. decimal 5) i ++ []

one_field : Fields formats ((pack grp 0 ++ 5 ∷ []) ++ []) five_line
unfolding to_u8
one_field = field grp TdfType.var_int grp-IsFieldName (Value.var_int five) no_fields

passed_example :
    Reads (skip_type TdfType.group) (2 ∷ (((pack grp 0 ++ 5 ∷ []) ++ []) ++ 0 ∷ [])) tt
    × Shows
        (stringify_type formats 1 TdfType.group)
        (2 ∷ (((pack grp 0 ++ 5 ∷ []) ++ []) ++ 0 ∷ []))
        (group_text five_line (codes " (2)") 1)
unfolding pack
passed_example = skip_type-stringify_type formats 1 (Value.group_2 one_field (omega arith))

fields_example :
    stringify formats (new ((pack grp 0 ++ 5 ∷ []) ++ [])) (codes "> ")
    ≡ done (between ((pack grp 0 ++ 5 ∷ []) ++ []) []) (codes "> " ++ five_line 1)
unfolding pack
fields_example = stringify-Fields formats (codes "> ") one_field (omega arith)

abbrev closure : Writer
closure = tag_u8 grp 200 ▸ group grp (tag_str grp (0xe9 ∷ []))

abbrev closure_lines : Layout
closure_lines i =
    field_text grp (λ j. decimal 200) i
    ++ field_text grp (group_text (field_text grp (quoted formats (0xe9 ∷ []))) []) i

calls_example :
    stringify formats (new (closure default).buffer) []
    ≡ done (between (closure default).buffer []) ([] ++ closure_lines 1)
unfolding as_bytes encode_char terminated ends_in_zero default tag_u8 group tag_str ◌▸◌ write_byte
    write_slice write_usize impl_encode_var tag write_u8
calls_example =
    stringify-Calls formats []
      (calls (call_u8 grp 200 grp-IsFieldName (omega arith)) (
        call_group grp grp-IsFieldName
          (call_str grp (0xe9 ∷ []) grp-IsFieldName (e_acute, tt) (omega arith))))
      (omega arith)
  where
    e_acute : IsScalar 0xe9
    e_acute = record { below = omega arith; no_surrogate = inl (omega arith) }

empty_group_example :
    (skip_type TdfType.group (between (1 ∷ []) (2 ∷ 0 ∷ [])) ≡ ok tt (between (1 ∷ 2 ∷ 0 ∷ []) []))
    × (stringify_type formats 1 TdfType.group (between (1 ∷ []) (2 ∷ 0 ∷ [])) []
        ≡ failed (unexpected_eof 2 4 1) (between (1 ∷ 2 ∷ []) (0 ∷ [])) (codes "{\n"))
empty_group_example = empty_group_2 formats 1 (1 ∷ []) [] (omega arith)

-- ===== src/Format/Calls.antt =====
-- Closures that call methods of the writer, and what `stringify` makes of the bytes that they write.
use mathlib.Core.Path.{subst}
use blaze_pk_rs.Prelude.{
  ℕ, ◌^◌, ◌<◌, ◌≡◌, sym, ap, Bool, List, [], ◌++◌, length, All, if◌then◌else◌, arith,
}
use blaze_pk_rs.Tag.{TdfType}
use blaze_pk_rs.Text.{Text, Formats, codes, decimal}
use blaze_pk_rs.Writer.{Writer, ◌▸◌, nothing}
use blaze_pk_rs.Writer.Tagged.{
  group, tag_u8, tag_u16, tag_u32, tag_u64, tag_usize, tag_bool, tag_zero, tag_str_empty,
  tag_empty_blob, tag_union_unset,
}
use blaze_pk_rs.VarInt.RoundTrip.{
  write_u8-IntTrips, write_u16-IntTrips, write_u32-IntTrips, write_u64-IntTrips,
  write_usize-IntTrips,
}
use blaze_pk_rs.Types.Text.{as_bytes, pop, ends_in_zero, terminated, tag_str}
use blaze_pk_rs.Types.Text.Utf8.{IsScalar}
use blaze_pk_rs.Format.{Layout, IsFieldName, field_text, group_text, Fields}
use blaze_pk_rs.Writer.{default}
use blaze_pk_rs.Printer.{done}
use blaze_pk_rs.Reader.{new}
use blaze_pk_rs.Reader.Reads.{between}
use blaze_pk_rs.Reader.Stringify.{stringify}
use blaze_pk_rs.Format.Message.{stringify-Fields}
use blaze_pk_rs.Format.Written.{
  Lays, tagged-Lays, nothing-Lays, then-Lays, group-Lays, IntTrips-Sends, byte-Sends, bool-Sends,
  quoted, str-Sends, empty_str-Sends, empty_blob-Sends, unset-Sends,
}

module _ (f : Formats) where
  -- Closures that call methods of the writer, and the lines that stand for what they write.
  pub data Calls : Writer → Layout → Type 0 where
    no_call : Calls nothing (λ i. [])
    calls : {v w : Writer} {l m : Layout} → Calls v l → Calls w m → Calls (v ▸ w) (λ i. l i ++ m i)
    call_u8 :
        (name : List ℕ) (v : ℕ)
        → IsFieldName name
        → v < 2 ^ 8
        → Calls (tag_u8 name v) (field_text name (λ i. decimal v))
    call_u16 :
        (name : List ℕ) (v : ℕ)
        → IsFieldName name
        → v < 2 ^ 16
        → Calls (tag_u16 name v) (field_text name (λ i. decimal v))
    call_u32 :
        (name : List ℕ) (v : ℕ)
        → IsFieldName name
        → v < 2 ^ 32
        → Calls (tag_u32 name v) (field_text name (λ i. decimal v))
    call_u64 :
        (name : List ℕ) (v : ℕ)
        → IsFieldName name
        → v < 2 ^ 64
        → Calls (tag_u64 name v) (field_text name (λ i. decimal v))
    call_usize :
        (name : List ℕ) (v : ℕ)
        → IsFieldName name
        → v < 2 ^ 64
        → Calls (tag_usize name v) (field_text name (λ i. decimal v))
    call_bool :
        (name : List ℕ) (b : Bool)
        → IsFieldName name
        → Calls (tag_bool name b) (field_text name (λ i. if b then codes "1" else codes "0"))
    call_zero :
        (name : List ℕ)
        → IsFieldName name
        → Calls (tag_zero name) (field_text name (λ i. codes "0"))
    -- A zero at the end of a string is lost.
    call_str :
        (name cs : List ℕ)
        → IsFieldName name
        → All IsScalar cs
        → length (terminated (as_bytes cs)) < 2 ^ 63
        → Calls
            (tag_str name cs)
            (field_text name (quoted f (if ends_in_zero cs then pop cs else cs)))
    call_str_empty :
        (name : List ℕ)
        → IsFieldName name
        → Calls (tag_str_empty name) (field_text name (quoted f []))
    call_empty_blob :
        (name : List ℕ)
        → IsFieldName name
        → Calls (tag_empty_blob name) (field_text name (λ i. codes "Blob []"))
    call_union_unset :
        (name : List ℕ)
        → IsFieldName name
        → Calls (tag_union_unset name) (field_text name (λ i. codes "Union(Unset)"))
    call_group :
        {gr : Writer} {lines : Layout} (name : List ℕ)
        → IsFieldName name
        → Calls gr lines
        → Calls (group name gr) (field_text name (group_text lines []))

  -- What such calls write is fields.
  pub Calls-Lays : {w : Writer} {lines : Layout} → Calls w lines → Lays f w lines
  unfolding tag_u8 tag_u16 tag_u32 tag_u64 tag_usize tag_bool tag_zero tag_str tag_str_empty
      tag_empty_blob tag_union_unset decimal
  Calls-Lays no_call = nothing-Lays f
  Calls-Lays (calls a b) = then-Lays f (Calls-Lays a) (Calls-Lays b)
  Calls-Lays (call_u8 name v letter h) =
      tagged-Lays f name TdfType.var_int letter
        (IntTrips-Sends f (omega arith) (write_u8-IntTrips v h))
  Calls-Lays (call_u16 name v letter h) =
      tagged-Lays f name TdfType.var_int letter
        (IntTrips-Sends f (omega arith) (write_u16-IntTrips v h))
  Calls-Lays (call_u32 name v letter h) =
      tagged-Lays f name TdfType.var_int letter
        (IntTrips-Sends f (omega arith) (write_u32-IntTrips v h))
  Calls-Lays (call_u64 name v letter h) =
      tagged-Lays f name TdfType.var_int letter (IntTrips-Sends f h (write_u64-IntTrips v h))
  Calls-Lays (call_usize name v letter h) =
      tagged-Lays f name TdfType.var_int letter (IntTrips-Sends f h (write_usize-IntTrips v h))
  Calls-Lays (call_bool name b letter) = tagged-Lays f name TdfType.var_int letter (bool-Sends f b)
  Calls-Lays (call_zero name letter) =
      tagged-Lays f name TdfType.var_int letter (byte-Sends f 0 (omega arith))
  Calls-Lays (call_str name cs letter all h) =
      tagged-Lays f name TdfType.string letter (str-Sends f cs all h)
  Calls-Lays (call_str_empty name letter) =
      tagged-Lays f name TdfType.string letter (empty_str-Sends f)
  Calls-Lays (call_empty_blob name letter) =
      tagged-Lays f name TdfType.blob letter (empty_blob-Sends f)
  Calls-Lays (call_union_unset name letter) =
      tagged-Lays f name TdfType.union letter (unset-Sends f)
  Calls-Lays (call_group name letter g) = group-Lays f name letter (Calls-Lays g)

  -- Numbers, Booleans, strings, empty strings and blobs, unset unions and groups of such fields are
  -- written by the tag methods of the writer, under names of bytes whose first has bit 6, as letters
  -- have, into a writer that is empty at first and ends with less than 2 ^ 63 bytes. `stringify`
  -- reads these bytes to their end, with no error, and writes the lines that stand for the calls, in
  -- their order and indented once, behind the text that was there.
  pub stringify-Calls :
      {w : Writer} {lines : Layout} (out : Text)
      → Calls w lines
      → length (w default).buffer < 2 ^ 63
      → stringify f (new (w default).buffer) out
        ≡ done (between (w default).buffer []) (out ++ lines 1)
  unfolding default
  stringify-Calls {w} {lines} out c h =
      let l = Calls-Lays c in
      let same : (w default).buffer ≡ l.bytes = ap (λ t. t.buffer) (l.writes.run default) in
      stringify-Fields f out (subst (λ xs. Fields f xs lines) (sym same) l.fields) h

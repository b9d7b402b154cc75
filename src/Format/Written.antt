-- ===== src/Format/Written.antt =====
-- What the methods of the writer write is in the format.
use mathlib.Core.Path.{subst, fun_ext}
use blaze_pk_rs.Prelude.{
  ℕ, ◌^◌, ◌<◌, refl, sym, Bool, true, false, List, [], ◌∷◌, ◌++◌, append_assoc, append-nil, length,
  All, if◌then◌else◌, arith,
}
use blaze_pk_rs.Tag.{TdfType}
use blaze_pk_rs.Tag.Code.{to_u8}
use blaze_pk_rs.Text.{Formats, codes, decimal}
use blaze_pk_rs.Reader.{Reader}
use blaze_pk_rs.Writer.{Writer, ◌▸◌, nothing, write_byte, write_slice, write_bool, write_empty_str}
use blaze_pk_rs.Writer.Writes.{
  Writes, Writes-nothing, Writes-then, write_byte-Writes, write_slice-Writes,
}
use blaze_pk_rs.Writer.VarInt.{write_usize}
use blaze_pk_rs.Writer.Tagged.{tag, pack, group, tag_group, tag_group_end}
use blaze_pk_rs.VarInt.{short}
use blaze_pk_rs.VarInt.RoundTrip.{IntTrips, write_usize-IntTrips}
use blaze_pk_rs.Types.{union_unset}
use blaze_pk_rs.Types.Text.{as_bytes, from_utf8_lossy, pop, ends_in_zero, terminated, write_str}
use blaze_pk_rs.Types.Text.Utf8.{IsScalar}
use blaze_pk_rs.Types.Text.Laws.{pop-terminated}
use blaze_pk_rs.Format.{
  Layout, Number, IsFieldName, field_text, group_text, Value, Fields, no_fields, field,
}

module _ (f : Formats) where
  -- What is written for a value.
  pub record Sends (w : Writer) (ty : TdfType) (text : Layout) : Type 0 where
    pub bytes : List ℕ
    pub writes : Writes w bytes
    pub value : Value f ty bytes text

  -- What is written for fields.
  pub record Lays (w : Writer) (lines : Layout) : Type 0 where
    pub bytes : List ℕ
    pub writes : Writes w bytes
    pub fields : Fields f bytes lines

  pub Fields-append :
      {xs ys : List ℕ} {l m : Layout}
      → Fields f xs l
      → Fields f ys m
      → Fields f (xs ++ ys) (λ i. l i ++ m i)
  Fields-append no_fields gs = gs
  Fields-append {ys = zs} {m} (field {xs} {ys} {text} {lines} name ty letter v fs) gs =
      subst (λ l. Fields f (((pack name (to_u8 ty) ++ xs) ++ ys) ++ zs) l)
        (fun_ext (λ i. sym (append_assoc (field_text name text i) (lines i) (m i))))
        (subst (λ bs. Fields f bs (λ i. field_text name text i ++ (lines i ++ m i)))
          (sym (append_assoc (pack name (to_u8 ty) ++ xs) ys zs))
          (field name ty letter v (Fields-append fs gs)))

  one_field :
      {xs : List ℕ} {text : Layout} (name : List ℕ) (ty : TdfType)
      → IsFieldName name
      → Value f ty xs text
      → Fields f (pack name (to_u8 ty) ++ xs) (field_text name text)
  one_field {xs} {text} name ty letter v =
      subst (λ l. Fields f (pack name (to_u8 ty) ++ xs) l)
        (fun_ext (λ i. append-nil (field_text name text i)))
        (subst (λ bs. Fields f bs (λ i. field_text name text i ++ []))
          (append-nil (pack name (to_u8 ty) ++ xs)) (field name ty letter v no_fields))

  pub tagged-Lays :
      {w : Writer} {text : Layout} (name : List ℕ) (ty : TdfType)
      → IsFieldName name
      → Sends w ty text
      → Lays (tag name ty ▸ w) (field_text name text)
  unfolding tag
  tagged-Lays name ty letter s = record {
    bytes = pack name (to_u8 ty) ++ s.bytes;
    writes = Writes-then (write_slice-Writes (pack name (to_u8 ty))) s.writes;
    fields = one_field name ty letter s.value;
  }

  pub nothing-Lays : Lays nothing (λ i. [])
  nothing-Lays = record { bytes = []; writes = Writes-nothing; fields = no_fields }

  pub then-Lays :
      {v w : Writer} {l m : Layout} → Lays v l → Lays w m → Lays (v ▸ w) (λ i. l i ++ m i)
  then-Lays a b = record {
    bytes = a.bytes ++ b.bytes;
    writes = Writes-then a.writes b.writes;
    fields = Fields-append a.fields b.fields;
  }

  pub group-Lays :
      {w : Writer} {lines : Layout} (name : List ℕ)
      → IsFieldName name
      → Lays w lines
      → Lays (group name w) (field_text name (group_text lines []))
  unfolding group tag_group tag_group_end tag
  group-Lays {lines} name letter g =
      let head = pack name (to_u8 TdfType.group) in
      record {
        bytes = (head ++ g.bytes) ++ 0 ∷ [];
        writes = Writes-then (Writes-then (write_slice-Writes head) g.writes) (write_byte-Writes 0);
        fields =
            subst (λ bs. Fields f bs (field_text name (group_text lines [])))
              (sym (append_assoc head g.bytes (0 ∷ [])))
              (one_field name TdfType.group letter (Value.group g.fields));
      }

  pub IntTrips-Sends :
      {w : Writer} {r : Reader ℕ} {v : ℕ}
      → v < 2 ^ 64
      → IntTrips w r v
      → Sends w TdfType.var_int (λ i. decimal v)
  IntTrips-Sends h t = record {
    bytes = t.bytes;
    writes = t.writes;
    value = Value.var_int (record { fits = h; brief = t.brief; code = t.code });
  }

  pub byte-Sends : (v : ℕ) → v < 64 → Sends (write_byte v) TdfType.var_int (λ i. decimal v)
  byte-Sends v h = record {
    bytes = v ∷ [];
    writes = write_byte-Writes v;
    value = Value.var_int (record { fits = omega arith; brief = omega arith; code = short h });
  }

  pub bool-Sends :
      (b : Bool) → Sends (write_bool b) TdfType.var_int (λ i. if b then codes "1" else codes "0")
  unfolding write_bool decimal
  bool-Sends true = byte-Sends 1 (omega arith)
  bool-Sends false = byte-Sends 0 (omega arith)

  -- A length and so many bytes.
  sized-Writes :
      (xs : List ℕ) (h : length xs < 2 ^ 63)
      → Writes
          (write_usize (length xs) ▸ write_slice xs)
          ((write_usize-IntTrips (length xs) (omega arith)).bytes ++ xs)
  sized-Writes xs h =
      Writes-then (write_usize-IntTrips (length xs) (omega arith)).writes (write_slice-Writes xs)

  size-Number :
      (xs : List ℕ) (h : length xs < 2 ^ 63)
      → Number (length xs) (write_usize-IntTrips (length xs) (omega arith)).bytes
  size-Number xs h =
      let t = write_usize-IntTrips (length xs) (omega arith) in
      record { fits = omega arith; brief = t.brief; code = t.code }

  abbrev pub quoted : List ℕ → Layout
  quoted cs i = codes "\"" ++ (cs ++ codes "\"")

  pub str-Sends :
      (cs : List ℕ)
      → All IsScalar cs
      → length (terminated (as_bytes cs)) < 2 ^ 63
      → Sends (write_str cs) TdfType.string (quoted (if ends_in_zero cs then pop cs else cs))
  unfolding write_str
  str-Sends cs all h =
      let xs = terminated (as_bytes cs) in
      record {
        bytes = (write_usize-IntTrips (length xs) (omega arith)).bytes ++ xs;
        writes = sized-Writes xs h;
        value =
            subst
              (λ t.
                Value f TdfType.string
                  ((write_usize-IntTrips (length xs) (omega arith)).bytes ++ xs) (quoted t))
              (pop-terminated cs all) (Value.string xs (size-Number xs h) refl);
      }

  one : Number 1 (1 ∷ [])
  one = record { fits = omega arith; brief = omega arith; code = short (omega arith) }

  zero_count : Number 0 (0 ∷ [])
  zero_count = record { fits = omega arith; brief = omega arith; code = short (omega arith) }

  pub empty_str-Sends : Sends write_empty_str TdfType.string (quoted [])
  unfolding write_empty_str from_utf8_lossy pop
  empty_str-Sends = record {
    bytes = 1 ∷ 0 ∷ [];
    writes = write_slice-Writes (1 ∷ 0 ∷ []);
    value = Value.string (0 ∷ []) one refl;
  }

  pub empty_blob-Sends : Sends (write_byte 0) TdfType.blob (λ i. codes "Blob []")
  empty_blob-Sends = record {
    bytes = 0 ∷ [];
    writes = write_byte-Writes 0;
    value = Value.blob [] zero_count refl;
  }

  pub unset-Sends : Sends (write_byte union_unset) TdfType.union (λ i. codes "Union(Unset)")
  unset-Sends = record {
    bytes = union_unset ∷ [];
    writes = write_byte-Writes union_unset;
    value = Value.union_none;
  }

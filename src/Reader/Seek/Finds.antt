-- ===== src/Reader/Seek/Finds.antt =====
-- What a search finds among fields that were written one after another.
use mathlib.Core.Path.{subst}
use blaze_pk_rs.Prelude.{
  ℕ, suc, ◌+◌, ◌≤◌, ◌<◌, ◌≡◌, refl, sym, ap, ◌∙◌, true, false, List, [], ◌∷◌, ◌++◌, append_assoc,
  append-nil, length, length-append, All, arith, if◌then◌else◌,
}
use blaze_pk_rs.Tag.{Tag, TdfType, tag_eq}
use blaze_pk_rs.Tag.Code.{to_u8, ty_eq, ty_eq_iff}
use blaze_pk_rs.TagFormat.{visible_tag}
use blaze_pk_rs.TagFormat.Pack.{length-pack}
use blaze_pk_rs.TagFormat.RoundTrip.{read_tag-Reads}
use blaze_pk_rs.Error.{DecodeResult, invalid_tag_type}
use blaze_pk_rs.Reader.Bind.{bind_ok}
use blaze_pk_rs.Reader.{pure, throw}
use blaze_pk_rs.Reader.Reads.{Reads, between, slice_limit}
use blaze_pk_rs.Reader.Tagged.{read_tag}
use blaze_pk_rs.Reader.Skip.{skip_type}
use blaze_pk_rs.Reader.Skip.Reads.{skip_type-Reads}
use blaze_pk_rs.Reader.Seek.{until_tag_round, until_tag_loop, tag}
use blaze_pk_rs.Reader.Seek.Attempt.{attempt_ok}
use blaze_pk_rs.Writer.{Writer, ◌▸◌, nothing}
use blaze_pk_rs.Writer.Writes.{Writes, Writes-then, Writes-nothing, write_slice-Writes}
use blaze_pk_rs.Writer.Tagged.{pack, tag as write_tag}
use blaze_pk_rs.Writer.Values.{tag_value}
use blaze_pk_rs.Codec.{Codec, Lawful}

-- A field of a struct: a name of bytes, and a value of a type that can be encoded.
pub record Field : Type 1 where
  pub C : Type 0
  pub codec : Codec C
  pub value : C
  pub name : List ℕ
  pub is_bytes : All (λ b. b < 256) name
  pub law : Lawful codec value

abbrev pub field_bytes : Field → List ℕ
field_bytes f = pack f.name (to_u8 f.codec.value_type) ++ f.law.bytes

abbrev pub fields_bytes : List Field → List ℕ
fields_bytes [] = []
fields_bytes (f ∷ fs) = field_bytes f ++ fields_bytes fs

abbrev pub write_field : Field → Writer
write_field f = tag_value f.codec f.name f.value

abbrev pub write_fields : List Field → Writer
write_fields [] = nothing
write_fields (f ∷ fs) = write_field f ▸ write_fields fs

-- A field that a search for `tag` passes over.
abbrev pub Passes : Tag → Field → Type 0
Passes tag f = tag_eq (visible_tag f.name) tag ≡ false

write_field-Writes : (f : Field) → Writes (write_field f) (field_bytes f)
unfolding tag_value write_tag
write_field-Writes f =
    Writes-then (write_slice-Writes (pack f.name (to_u8 f.codec.value_type))) f.law.writes

pub write_fields-Writes : (fs : List Field) → Writes (write_fields fs) (fields_bytes fs)
write_fields-Writes [] = Writes-nothing
write_fields-Writes (f ∷ fs) = Writes-then (write_field-Writes f) (write_fields-Writes fs)

skip_value-Reads : (f : Field) → Reads (skip_type f.codec.value_type) f.law.bytes tt
skip_value-Reads f = skip_type-Reads f.codec.value_type f.law.bytes f.law.skips

-- One round more for each field.
abbrev pub rounds : List Field → ℕ → ℕ
rounds [] fuel = fuel
rounds (f ∷ fs) fuel = suc (rounds fs fuel)

pub rounds_lem : (fs : List Field) (fuel : ℕ) → rounds fs fuel ≡ length fs + fuel
rounds_lem [] fuel = omega arith
rounds_lem (f ∷ fs) fuel = omega (arith, rounds_lem fs fuel)

pub length-fields_bytes : (fs : List Field) → length fs ≤ length (fields_bytes fs)
length-fields_bytes [] = omega arith
length-fields_bytes (f ∷ fs) = omega (
  arith,
  length-fields_bytes fs,
  length-append (field_bytes f) (fields_bytes fs),
  length-append (pack f.name (to_u8 f.codec.value_type)) f.law.bytes,
  length-pack f.name (to_u8 f.codec.value_type),
)

tag_eq_refl : (t : Tag) → tag_eq t t ≡ true
unfolding tag_eq
tag_eq_refl t = ground arith

pub ty_eq_refl : (ty : TdfType) → ty_eq ty ty ≡ true
ty_eq_refl ty = (ty_eq_iff ty ty).1 refl

module _ (tag : Tag) (ty : TdfType) where
  -- The loop passes over a field with another tag.
  pass :
      (f : Field) (fuel : ℕ) (front back : List ℕ)
      → Passes tag f
      → length (front ++ (field_bytes f ++ back)) < slice_limit
      → until_tag_loop (suc fuel) tag ty (between front (field_bytes f ++ back))
        ≡ until_tag_loop fuel tag ty (between (front ++ field_bytes f) back)
  unfolding until_tag_loop until_tag_round
  pass f fuel front back other fits =
      let p = pack f.name (to_u8 f.codec.value_type) in
      let v = f.law.bytes in
      let fits' : length (front ++ (p ++ (v ++ back))) < slice_limit = rw append_assoc at fits in
      let fits'' : length ((front ++ p) ++ (v ++ back)) < slice_limit = rw append_assoc fits' in
      ap (λ xs. until_tag_loop (suc fuel) tag ty (between front xs)) (append_assoc p v back)
      ∙ attempt_ok read_tag _
          ((read_tag-Reads f.name f.codec.value_type f.is_bytes).run front (v ++ back) fits')
      ∙ rw other (
          bind_ok (skip_type f.codec.value_type) _
            ((skip_value-Reads f).run (front ++ p) back fits''))
      ∙ ap (λ xs. until_tag_loop fuel tag ty (between xs back)) (append_assoc front p v)

  -- The loop passes over fields with other tags, a round each.
  pub pass_all :
      (fs : List Field) (fuel : ℕ) (front back : List ℕ)
      → All (Passes tag) fs
      → length (front ++ (fields_bytes fs ++ back)) < slice_limit
      → until_tag_loop (rounds fs fuel) tag ty (between front (fields_bytes fs ++ back))
        ≡ until_tag_loop fuel tag ty (between (front ++ fields_bytes fs) back)
  pass_all [] fuel front back others fits =
      ap (λ xs. until_tag_loop fuel tag ty (between xs back)) (sym (append-nil front))
  pass_all (f ∷ fs) fuel front back (other, others) fits =
      let b = field_bytes f in
      let bs = fields_bytes fs in
      let fits' : length (front ++ (b ++ (bs ++ back))) < slice_limit =
        subst (λ xs. length (front ++ xs) < slice_limit) (append_assoc b bs back) fits in
      let fits'' : length ((front ++ b) ++ (bs ++ back)) < slice_limit = rw append_assoc fits' in
      ap (λ xs. until_tag_loop (suc (rounds fs fuel)) tag ty (between front xs))
        (append_assoc b bs back)
      ∙ pass f (rounds fs fuel) front (bs ++ back) other fits'
      ∙ pass_all fs fuel (front ++ b) back others fits''
      ∙ ap (λ xs. until_tag_loop fuel tag ty (between xs back)) (append_assoc front b bs)

  -- A field with the tag ends the loop.
  pub arrive :
      (name : List ℕ) (actual : TdfType) (fuel : ℕ) (front back : List ℕ)
      → All (λ b. b < 256) name
      → visible_tag name ≡ tag
      → length (front ++ (pack name (to_u8 actual) ++ back)) < slice_limit
      → until_tag_loop (suc fuel) tag ty (between front (pack name (to_u8 actual) ++ back))
        ≡ (if ty_eq actual ty then pure tt else throw (invalid_tag_type tag ty actual))
            (between (front ++ pack name (to_u8 actual)) back)
  unfolding until_tag_loop until_tag_round
  arrive name actual fuel front back bytes e fits =
      attempt_ok read_tag _ ((read_tag-Reads name actual bytes).run front back fits)
      ∙ ap
          (λ t.
            until_tag_round tag ty (until_tag_loop fuel tag ty)
              (DecodeResult.ok (record { tag = t; ty = actual }))
              (between (front ++ pack name (to_u8 actual)) back))
          e
      ∙ rw (tag_eq_refl tag) refl

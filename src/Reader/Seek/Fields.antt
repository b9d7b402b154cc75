-- ===== src/Reader/Seek/Fields.antt =====
-- A struct's fields, written one after another: which of them `until_tag` and `tag` find, what they
-- pass over, and what they answer where the field is missing or has another type.
use mathlib.Core.Path.{subst}
use blaze_pk_rs.Prelude.{
  ℕ, suc, ◌-◌, ◌≤◌, ◌<◌, ◌≡◌, refl, sym, ap, ◌∙◌, false, List, ◌++◌, append_assoc, length,
  length-append, All, arith, if◌then◌else◌,
}
use blaze_pk_rs.Tag.{TdfType}
use blaze_pk_rs.Tag.Code.{to_u8, ty_eq}
use blaze_pk_rs.TagFormat.{visible_tag}
use blaze_pk_rs.TagFormat.RoundTrip.{IsTagChar, from_slice-visible}
use blaze_pk_rs.Error.{invalid_tag_type}
use blaze_pk_rs.Reader.Bind.{bind_ok}
use blaze_pk_rs.Reader.{ok, err, pure, throw}
use blaze_pk_rs.Reader.Reads.{Reads, Reads-bind, between, slice_limit}
use blaze_pk_rs.Reader.Seek.{until_tag_loop, until_tag, tag}
use blaze_pk_rs.Reader.Seek.Attempt.{to_tag-some}
use blaze_pk_rs.Reader.Seek.Finds.{
  Field, fields_bytes, write_fields, write_fields-Writes, Passes, rounds, rounds_lem,
  length-fields_bytes, pass_all, arrive, ty_eq_refl,
}
use blaze_pk_rs.Writer.{◌▸◌}
use blaze_pk_rs.Writer.Writes.{Writes, Writes-then, write_slice-Writes}
use blaze_pk_rs.Writer.Tagged.{pack, tag as write_tag}
use blaze_pk_rs.Writer.Values.{tag_value}
use blaze_pk_rs.Codec.{Codec, Lawful, RoundTrips}

-- A name that a search can find: at most four characters, each of which a tag can hold.
pub record IsName (name : List ℕ) : Type 0 where
  pub at_most_4 : length name ≤ 4
  pub chars : All IsTagChar name
  pub bytes : All (λ b. b < 256) name

module _ (name : List ℕ) (ty : TdfType) (is_name : IsName name) where
  -- The search comes to what stands behind fields with other tags.
  pub until_tag-fields :
      (fs : List Field) (front back : List ℕ)
      → All (Passes (visible_tag name)) fs
      → length (front ++ (fields_bytes fs ++ back)) < slice_limit
      → (k : ℕ) × (until_tag name ty (between front (fields_bytes fs ++ back))
          ≡ until_tag_loop (suc k) (visible_tag name) ty (between (front ++ fields_bytes fs) back))
  unfolding until_tag
  until_tag-fields fs front back others fits =
      let tag = visible_tag name in
      let total = length (front ++ (fields_bytes fs ++ back)) - length front in
      let r = between front (fields_bytes fs ++ back) in
      let enough : rounds fs (suc (total - length fs)) ≡ suc total = omega (
        arith,
        rounds_lem fs (suc (total - length fs)),
        length-fields_bytes fs,
        length-append front (fields_bytes fs ++ back),
        length-append (fields_bytes fs) back,
      ) in
      (
        total - length fs,
        bind_ok _ _ (to_tag-some name r (from_slice-visible name is_name.at_most_4 is_name.chars))
            ∙ ap (λ n. until_tag_loop n tag ty r) (sym enough)
            ∙ pass_all tag ty fs (suc (total - length fs)) front back others fits,
      )

  arrive-fields :
      (fs : List Field) (actual : TdfType) (front back : List ℕ)
      → All (Passes (visible_tag name)) fs
      → length (front ++ (fields_bytes fs ++ (pack name (to_u8 actual) ++ back))) < slice_limit
      → until_tag name ty (between front (fields_bytes fs ++ (pack name (to_u8 actual) ++ back)))
        ≡ (if ty_eq actual ty
              then pure tt
              else throw (invalid_tag_type (visible_tag name) ty actual))
            (between ((front ++ fields_bytes fs) ++ pack name (to_u8 actual)) back)
  arrive-fields fs actual front back others fits =
      let (k, start) = until_tag-fields fs front (pack name (to_u8 actual) ++ back) others fits in
      let fits' : length ((front ++ fields_bytes fs) ++ (pack name (to_u8 actual) ++ back))
          < slice_limit =
        subst (λ xs. length xs < slice_limit)
          (sym (append_assoc front (fields_bytes fs) (pack name (to_u8 actual) ++ back))) fits in
      start
      ∙ arrive (visible_tag name) ty name actual k (front ++ fields_bytes fs) back is_name.bytes
          refl fits'

  until_tag-Reads :
      (fs : List Field)
      → All (Passes (visible_tag name)) fs
      → Reads (until_tag name ty) (fields_bytes fs ++ pack name (to_u8 ty)) tt
  until_tag-Reads fs others = record {
    run = λ front back fits.
        let p = pack name (to_u8 ty) in
        let fits' : length (front ++ (fields_bytes fs ++ (p ++ back))) < slice_limit =
          subst (λ xs. length (front ++ xs) < slice_limit) (append_assoc (fields_bytes fs) p back)
            fits in
        ap (λ xs. until_tag name ty (between front xs)) (append_assoc (fields_bytes fs) p back)
        ∙ arrive-fields fs ty front back others fits'
        ∙ rw (ty_eq_refl ty)
            (ap (λ xs. ok tt (between xs back)) (append_assoc front (fields_bytes fs) p));
  }

  -- Behind fields with other tags, in a buffer of less than 2 ^ 63 bytes, a tag with the name that
  -- is looked for and another type makes `until_tag` fail with an error that names both types,
  -- behind that tag. The name has at most four characters, each of which a tag can hold.
  pub until_tag-other_type :
      (fs : List Field) (actual : TdfType) (front back : List ℕ)
      → All (Passes (visible_tag name)) fs
      → ty_eq actual ty ≡ false
      → length (front ++ (fields_bytes fs ++ (pack name (to_u8 actual) ++ back))) < slice_limit
      → until_tag name ty (between front (fields_bytes fs ++ (pack name (to_u8 actual) ++ back)))
        ≡ err
            (invalid_tag_type (visible_tag name) ty actual)
            (between ((front ++ fields_bytes fs) ++ pack name (to_u8 actual)) back)
  until_tag-other_type fs actual front back others other fits =
      arrive-fields fs actual front back others fits ∙ rw other refl

-- What `tag_value` writes for a value under a name, behind any fields with other tags, `tag`
-- returns, and it takes exactly the bytes of these fields and of the value, in any buffer of less
-- than 2 ^ 63 bytes. The value obeys the law of its codec, and the name has at most four
-- characters, each of which a tag can hold.
pub tag-finds :
    {C : Type 0} (c : Codec C) (name : List ℕ) (value : C) (fs : List Field)
    → IsName name
    → Lawful c value
    → All (Passes (visible_tag name)) fs
    → RoundTrips (write_fields fs ▸ tag_value c name value) (tag c name) value
unfolding tag tag_value write_tag
tag-finds c name value fs is_name law others = record {
  bytes = (fields_bytes fs ++ pack name (to_u8 c.value_type)) ++ law.bytes;
  writes =
      subst (λ xs. Writes (write_fields fs ▸ tag_value c name value) xs)
        (sym (append_assoc (fields_bytes fs) (pack name (to_u8 c.value_type)) law.bytes))
        (Writes-then (write_fields-Writes fs)
          (Writes-then (write_slice-Writes (pack name (to_u8 c.value_type))) law.writes));
  reads =
      Reads-bind (until_tag name c.value_type) _
        (until_tag-Reads name c.value_type is_name fs others) law.reads;
}

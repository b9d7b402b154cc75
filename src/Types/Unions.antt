-- ===== src/Types/Unions.antt =====
-- The law of `Union`.
use mathlib.Core.Path.{subst}
use blaze_pk_rs.Prelude.{
  ℕ, zero, suc, ◌<◌, ◌≤◌, ◌≡◌, ◌≢◌, List, [], ◌∷◌, ◌++◌, append-nil, length, length-append, All,
  arith, ◌==◌, ==_iff, false, inl, inr, Bool-cases,
}
use blaze_pk_rs.Tag.{Tag, TdfType}
use blaze_pk_rs.Tag.Code.{to_u8}
use blaze_pk_rs.TagFormat.{visible_tag}
use blaze_pk_rs.TagFormat.RoundTrip.{read_tag-Reads, IsTagChar}
use blaze_pk_rs.Reader.{◌>>=◌, pure, read_byte}
use blaze_pk_rs.Reader.Tagged.{read_tag}
use blaze_pk_rs.Reader.Reads.{Reads, Reads-pure, Reads-bind, read_byte-Reads}
use blaze_pk_rs.Reader.Skip.{skip_nested, skip_by_type, skip_union, skip_tagged}
use blaze_pk_rs.Reader.Seek.{expect_type}
use blaze_pk_rs.Writer.Writes.{Writes, Writes-then, write_slice-Writes, write_byte-Writes}
use blaze_pk_rs.Writer.Tagged.{pack, tag as write_tag}
use blaze_pk_rs.Codec.{Codec, Lawful, IsLawful}
use blaze_pk_rs.Types.{union_unset}
use blaze_pk_rs.Types.Lists.{Union, set, unset, encode_union, decode_union, union_codec}
use blaze_pk_rs.Types.Lists.Elements.{expect_type-Reads}

abbrev chars : Tag → List ℕ
chars t = t.at0 ∷ t.at1 ∷ t.at2 ∷ t.at3 ∷ []

-- Unions whose key is not the one that stands for no value, and whose tag holds only characters
-- that a tag can hold.
pub data FitsUnion {C : Type 0} (Fits : C → Type 0) : Union C → Type 0 where
  fits_set :
      {key : ℕ} {tag : Tag} {value : C}
      → key ≢ union_unset
      → All (λ b. b < 256) (chars tag)
      → All IsTagChar (chars tag)
      → Fits value
      → FitsUnion Fits (set key tag value)
  fits_unset : FitsUnion Fits unset

visible_chars : (t : Tag) → All IsTagChar (chars t) → visible_tag (chars t) ≡ t
visible_chars t (h0, (h1, (h2, (h3, _)))) =
    λ i. record { at0 = h0 i; at1 = h1 i; at2 = h2 i; at3 = h3 i }

not_unset : (key : ℕ) → key ≢ union_unset → (key == union_unset) ≡ false
not_unset key h = elim (Bool-cases (key == union_unset)) [
  | inl e ↦ absurd (h ((==_iff key union_unset).0 e))
  | inr e ↦ e
]

module _ {C : Type 0} (c : Codec C) where
  abbrev set_bytes : ℕ → Tag → List ℕ → List ℕ
  set_bytes key t xs = (key ∷ pack (chars t) (to_u8 c.value_type)) ++ xs

  set-Reads :
      (key : ℕ) (t : Tag) (value : C) {xs : List ℕ}
      → key ≢ union_unset
      → All (λ b. b < 256) (chars t)
      → All IsTagChar (chars t)
      → Reads c.decode xs value
      → Reads (decode_union c) (set_bytes key t xs) (set key t value)
  unfolding decode_union
  set-Reads key t value {xs} k bytes all reads = Reads-bind read_byte _ (read_byte-Reads key) (
      rw (not_unset key k) (
        Reads-bind read_tag _ (read_tag-Reads (chars t) c.value_type bytes) (
          Reads-bind (expect_type c.value_type c.value_type) _ (expect_type-Reads c.value_type) (
            subst
              (λ u.
                Reads (c.decode >>= λ value. pure (set key (visible_tag (chars t)) value)) xs
                  (set key u value))
              (visible_chars t all)
              (subst
                (λ ys.
                  Reads (c.decode >>= λ value. pure (set key (visible_tag (chars t)) value)) ys
                    (set key (visible_tag (chars t)) value))
                (append-nil xs) (Reads-bind c.decode _ reads (Reads-pure _)))))))

  set-skips :
      (key depth : ℕ) (t : Tag) {xs : List ℕ}
      → key ≢ union_unset
      → All (λ b. b < 256) (chars t)
      → ((d : ℕ) → length xs ≤ d → Reads (skip_nested (suc d) c.value_type) xs tt)
      → length (set_bytes key t xs) ≤ depth
      → Reads (skip_nested (suc depth) TdfType.union) (set_bytes key t xs) tt
  unfolding skip_nested skip_by_type skip_union skip_tagged
  set-skips key zero t k bytes skips h = absurd (omega arith)
  set-skips key (suc d) t {xs} k bytes skips h = Reads-bind read_byte _ (read_byte-Reads key) (
      rw (not_unset key k) (
        Reads-bind read_tag _ (read_tag-Reads (chars t) c.value_type bytes)
          (skips d (omega (arith, length-append (pack (chars t) (to_u8 c.value_type)) xs)))))

  set-Writes :
      (key : ℕ) (t : Tag) (value : C) {xs : List ℕ}
      → Writes (c.encode value) xs
      → Writes (encode_union c (set key t value)) (set_bytes key t xs)
  unfolding encode_union write_tag
  set-Writes key t value writes =
      Writes-then
        (Writes-then (write_byte-Writes key)
          (write_slice-Writes (pack (chars t) (to_u8 c.value_type))))
        writes

  unset-Writes : Writes (encode_union c unset) (union_unset ∷ [])
  unfolding encode_union
  unset-Writes = write_byte-Writes union_unset

  unset-Reads : Reads (decode_union c) (union_unset ∷ []) unset
  unfolding decode_union
  unset-Reads = Reads-bind read_byte _ (read_byte-Reads union_unset) (Reads-pure unset)

  unset-skips :
      (depth : ℕ) → 1 ≤ depth → Reads (skip_nested (suc depth) TdfType.union) (union_unset ∷ []) tt
  unfolding skip_nested skip_by_type skip_union
  unset-skips depth h = Reads-bind read_byte _ (read_byte-Reads union_unset) (Reads-pure tt)

  pub union-IsLawful :
      {Fits : C → Type 0} (size : ℕ)
      → IsLawful c Fits
      → IsLawful (union_codec c size) (FitsUnion Fits)
  unfolding union_codec
  union-IsLawful {Fits} size h = record { law = go }
    where
      go : (u : Union C) → FitsUnion Fits u → Lawful (union_codec c size) u
      go (set key t value) (fits_set k bytes all fits) =
          let l = h.law value fits in
          record {
            bytes = set_bytes key t l.bytes;
            writes = set-Writes key t value l.writes;
            reads = set-Reads key t value k bytes all l.reads;
            skips = λ depth d. set-skips key depth t k bytes l.skips d;
          }
      go unset fits_unset = record {
        bytes = union_unset ∷ [];
        writes = unset-Writes;
        reads = unset-Reads;
        skips = unset-skips;
      }

  -- If the values of a type are encoded, decoded to themselves and skipped, then so are unions of
  -- them whose key is not 127 and whose tag is four bytes that a tag can hold, and the union
  -- without a value.
  pub union-Lawful :
      {Fits : C → Type 0} (size : ℕ) (u : Union C)
      → IsLawful c Fits
      → FitsUnion Fits u
      → Lawful (union_codec c size) u
  union-Lawful size u h fits = (union-IsLawful size h).law u fits

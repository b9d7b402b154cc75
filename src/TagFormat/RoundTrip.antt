-- ===== src/TagFormat/RoundTrip.antt =====
-- A tag that is written comes back with the visible part of its characters and with its type.
use blaze_pk_rs.Prelude.{
  ℕ, ◌+◌, ◌*◌, ◌/◌, ◌%◌, ◌<◌, ◌≤◌, ◌≡◌, refl, ◌∙◌, List, All, arith, get_or, length, some, [], ◌∷◌,
}
use blaze_pk_rs.Tag.{TdfType, from_slice}
use blaze_pk_rs.Tag.Code.{to_u8, try_from-to_u8}
use blaze_pk_rs.Reader.{pure, read_byte_4, read_byte}
use blaze_pk_rs.Reader.Reads.{Reads, Reads-pure, Reads-bind, read_byte_4-Reads, read_byte-Reads}
use blaze_pk_rs.Reader.Tagged.{unpack, read_tag, read_type}
use blaze_pk_rs.Writer.Writes.{write_slice-Writes}
use blaze_pk_rs.Writer.Tagged.{pack, tag}
use blaze_pk_rs.Codec.{RoundTrips}
use blaze_pk_rs.TagFormat.{six, character, visible, visible_tag}
use blaze_pk_rs.TagFormat.Pack.{pack_lem, IsByte-get_or}
use blaze_pk_rs.TagFormat.Unpack.{unpack_lem}

unpack-packed :
    (a b c d ty : ℕ)
    → a < 256
    → b < 256
    → c < 256
    → d < 256
    → unpack ((six a * 4 + six b / 16), (six b % 16 * 16 + six c / 4), (six c % 4 * 64 + six d), ty)
      ≡ record { at0 = visible a; at1 = visible b; at2 = visible c; at3 = visible d }
unpack-packed a b c d ty ha hb hc hd =
    unpack_lem (six a * 4 + six b / 16) (six b % 16 * 16 + six c / 4) (six c % 4 * 64 + six d) ty
      (omega arith) (omega arith) (omega arith)
    ∙ (λ i. record { at0 = zeroth i; at1 = first i; at2 = second i; at3 = third i })
  where
    zeroth : character ((six a * 4 + six b / 16) / 4) ≡ visible a
    zeroth = omega arith

    first :
        character ((six a * 4 + six b / 16) % 4 * 16 + (six b % 16 * 16 + six c / 4) / 16)
        ≡ visible b
    first = omega arith

    second :
        character ((six b % 16 * 16 + six c / 4) % 16 * 4 + (six c % 4 * 64 + six d) / 64)
        ≡ visible c
    second = omega arith

    third : character ((six c % 4 * 64 + six d) % 64) ≡ visible d
    third = omega arith

pub read_tag-Reads :
    (name : List ℕ) (ty : TdfType)
    → All (λ b. b < 256) name
    → Reads read_tag (pack name (to_u8 ty)) (record { tag = visible_tag name; ty = ty })
unfolding read_tag
read_tag-Reads name ty h =
    let at = λ (i : ℕ). get_or name i 0 in
    let byte = λ (i : ℕ). IsByte-get_or name i h in
    rw (pack_lem name (to_u8 ty) h) (
      Reads-bind read_byte_4 _ (read_byte_4-Reads _ _ _ (to_u8 ty)) (
        rw (try_from-to_u8 ty) (
          Reads-bind (pure ty) _ (Reads-pure ty) (
            rw
              (unpack-packed (at 0) (at 1) (at 2) (at 3) (to_u8 ty) (byte 0) (byte 1) (byte 2)
                (byte 3))
              (Reads-pure _)))))

-- What `tag` writes for a name of bytes and a type, `read_tag` reads as that type with the visible
-- part of the name: of each of the first four characters bit 6 and the five lowest bits, and zeros
-- for the characters that are missing.
pub tag-RoundTrips :
    (name : List ℕ) (ty : TdfType)
    → All (λ b. b < 256) name
    → RoundTrips (tag name ty) read_tag (record { tag = visible_tag name; ty = ty })
unfolding tag
tag-RoundTrips name ty h = record {
  bytes = pack name (to_u8 ty);
  writes = write_slice-Writes (pack name (to_u8 ty));
  reads = read_tag-Reads name ty h;
}

pub read_type-Reads : (ty : TdfType) → Reads read_type (to_u8 ty ∷ []) ty
unfolding read_type
read_type-Reads ty =
    Reads-bind read_byte _ (read_byte-Reads (to_u8 ty)) (rw (try_from-to_u8 ty) (Reads-pure ty))

-- The characters that a tag can hold: the upper case letters, `@ [ \ ] ^ _` and the codes below 32.
abbrev pub IsTagChar : ℕ → Type 0
IsTagChar c = visible c ≡ c

-- For a name of at most four characters, each of which a tag can hold, `Tag::from` does not panic
-- and gives the tag that is read back when the name is written.
pub from_slice-visible :
    (name : List ℕ)
    → length name ≤ 4
    → All IsTagChar name
    → from_slice name ≡ some (visible_tag name)
unfolding from_slice
from_slice-visible [] h all = refl
from_slice-visible (a ∷ []) h all = ground arith
from_slice-visible (a ∷ b ∷ []) h all = ground arith
from_slice-visible (a ∷ b ∷ c ∷ []) h all = ground arith
from_slice-visible (a ∷ b ∷ c ∷ d ∷ []) h all = ground arith
from_slice-visible (a ∷ b ∷ c ∷ d ∷ e ∷ rest) h all = absurd (omega arith)

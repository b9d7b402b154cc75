-- ===== src/Types/Numbers/Laws.antt =====
-- Every number that is encoded is decoded to itself, and is skipped.
use mathlib.Core.Path.{subst}
use native.Mathlib.Nat.{mod-eq_of_lt}
use blaze_pk_rs.Prelude.{
  ℕ, suc, ◌+◌, ◌-◌, ◌*◌, ◌/◌, ◌%◌, ◌^◌, ◌<◌, ◌≡◌, refl, ap, sym, List, [], ◌∷◌, append-nil, Bool,
  true, false, lt→ltb, le→not_ltb, arith,
}
use blaze_pk_rs.Prelude.Int.{ℤ, pos, negsuc}
use blaze_pk_rs.Tag.{TdfType}
use blaze_pk_rs.Reader.{◌>>=◌, pure, read_byte_4}
use blaze_pk_rs.Reader.Reads.{Reads, Reads-pure, Reads-bind, read_byte_4-Reads, skip_slice-Reads}
use blaze_pk_rs.Reader.VarInt.{read_u8, read_bool}
use blaze_pk_rs.Reader.Skip.{skip_nested, skip_by_type, skip_f32}
use blaze_pk_rs.Writer.{write_bool}
use blaze_pk_rs.Writer.Writes.{Writes, write_slice-Writes, write_byte-Writes}
use blaze_pk_rs.VarInt.{Encodes, short}
use blaze_pk_rs.VarInt.Skip.{skip_var_int-Reads}
use blaze_pk_rs.VarInt.RoundTrip.{
  IntTrips, write_u8-IntTrips, write_u16-IntTrips, write_u32-IntTrips, write_u64-IntTrips,
  write_usize-IntTrips, read_u8_short,
}
use blaze_pk_rs.Codec.{Codec, IsLawful, Lawful}
use blaze_pk_rs.Types.Numbers.{
  u8_codec, u16_codec, u32_codec, u64_codec, usize_codec, bool_codec, to_unsigned, to_signed,
  forward_codec, i8_codec, i16_codec, i32_codec, i64_codec, isize_codec, write_f32, from_be_bytes,
  read_f32, f32_codec,
}

-- The law of a value of an integer type, whose bytes are those of a variable length integer.
pub record VarIntLawful {A : Type 0} (c : Codec A) (a : A) : Type 0 where
  pub code : ℕ
  pub bytes : List ℕ
  pub writes : Writes (c.encode a) bytes
  pub reads : Reads c.decode bytes a
  pub encodes : Encodes code bytes

-- The implementations of `VarInt`.
pub record IsVarInt {A : Type 0} (c : Codec A) (Fits : A → Type 0) : Type 0 where
  pub is_var_int : c.value_type ≡ TdfType.var_int
  pub law : (a : A) → Fits a → VarIntLawful c a

skip_var_int_type :
    (depth : ℕ) {v : ℕ} {xs : List ℕ}
    → Encodes v xs
    → Reads (skip_nested (suc depth) TdfType.var_int) xs tt
unfolding skip_nested skip_by_type
skip_var_int_type depth code = skip_var_int-Reads code

pub VarInt→IsLawful :
    {A : Type 0} {c : Codec A} {Fits : A → Type 0} → IsVarInt c Fits → IsLawful c Fits
VarInt→IsLawful h = record {
  law = λ a fits.
      let l = h.law a fits in
      record {
        bytes = l.bytes;
        writes = l.writes;
        reads = l.reads;
        skips = λ depth _. rw h.is_var_int (skip_var_int_type depth l.encodes);
      };
}

of_trips : {c : Codec ℕ} {v : ℕ} → IntTrips (c.encode v) c.decode v → VarIntLawful c v
of_trips {v = v} t = record {
  code = v;
  bytes = t.bytes;
  writes = t.writes;
  reads = t.reads;
  encodes = t.code;
}

-- An unsigned integer of `w` bits.
abbrev pub Below : ℕ → ℕ → Type 0
Below w v = v < 2 ^ w

pub u8-IsVarInt : IsVarInt u8_codec (Below 8)
u8-IsVarInt = record { is_var_int = refl; law = λ v h. of_trips (write_u8-IntTrips v h) }

pub u16-IsVarInt : IsVarInt u16_codec (Below 16)
u16-IsVarInt = record { is_var_int = refl; law = λ v h. of_trips (write_u16-IntTrips v h) }

pub u32-IsVarInt : IsVarInt u32_codec (Below 32)
u32-IsVarInt = record { is_var_int = refl; law = λ v h. of_trips (write_u32-IntTrips v h) }

pub u64-IsVarInt : IsVarInt u64_codec (Below 64)
u64-IsVarInt = record { is_var_int = refl; law = λ v h. of_trips (write_u64-IntTrips v h) }

pub usize-IsVarInt : IsVarInt usize_codec (Below 64)
usize-IsVarInt = record { is_var_int = refl; law = λ v h. of_trips (write_usize-IntTrips v h) }

-- A signed integer of `w` bits.
abbrev pub InRange : ℕ → ℤ → Type 0
InRange w (pos n) = n < 2 ^ (w - 1)
InRange w (negsuc n) = n < 2 ^ (w - 1)

-- Signed types of the widths that the macro is used with.
abbrev Double : ℕ → Type 0
Double w = 2 ^ w ≡ 2 * 2 ^ (w - 1)

to_unsigned-Below : (w : ℕ) (z : ℤ) → Double w → InRange w z → to_unsigned w z < 2 ^ w
unfolding to_unsigned
to_unsigned-Below w (pos n) d h = omega arith
to_unsigned-Below w (negsuc n) d h = omega arith

to_signed-to_unsigned : (w : ℕ) (z : ℤ) → Double w → InRange w z → to_signed w (to_unsigned w z) ≡ z
unfolding to_signed to_unsigned
to_signed-to_unsigned w (pos n) d h =
    let low : n % 2 ^ w ≡ n = mod-eq_of_lt (omega arith) in rw (low, lt→ltb n (2 ^ (w - 1)) h) refl
to_signed-to_unsigned w (negsuc n) d h =
    let u = 2 ^ w - 1 - n % 2 ^ w in
    let low : n % 2 ^ w ≡ n = mod-eq_of_lt (omega arith) in
    let back : 2 ^ w - 1 - u ≡ n = omega (arith, low) in
    rw (le→not_ltb u (2 ^ (w - 1)) (omega (arith, low))) (ap negsuc back)

forward-IsVarInt :
    (w : ℕ) {c : Codec ℕ}
    → Double w
    → IsVarInt c (Below w)
    → IsVarInt (forward_codec w c) (InRange w)
unfolding forward_codec
forward-IsVarInt w {c} d h = record {
  is_var_int = h.is_var_int;
  law = λ z fits.
      let l = h.law (to_unsigned w z) (to_unsigned-Below w z d fits) in
      record {
        code = l.code;
        bytes = l.bytes;
        writes = l.writes;
        reads =
            subst (λ xs. Reads (c.decode >>= λ value. pure (to_signed w value)) xs z)
              (append-nil l.bytes)
              (Reads-bind c.decode _ l.reads (
                subst (λ y. Reads (pure (to_signed w (to_unsigned w z))) [] y)
                  (to_signed-to_unsigned w z d fits) (Reads-pure _)));
        encodes = l.encodes;
      };
}

pub i8-IsVarInt : IsVarInt i8_codec (InRange 8)
unfolding i8_codec
i8-IsVarInt = forward-IsVarInt 8 refl u8-IsVarInt

pub i16-IsVarInt : IsVarInt i16_codec (InRange 16)
unfolding i16_codec
i16-IsVarInt = forward-IsVarInt 16 refl u16-IsVarInt

pub i32-IsVarInt : IsVarInt i32_codec (InRange 32)
unfolding i32_codec
i32-IsVarInt = forward-IsVarInt 32 refl u32-IsVarInt

pub i64-IsVarInt : IsVarInt i64_codec (InRange 64)
unfolding i64_codec
i64-IsVarInt = forward-IsVarInt 64 refl u64-IsVarInt

pub isize-IsVarInt : IsVarInt isize_codec (InRange 64)
unfolding isize_codec
isize-IsVarInt = forward-IsVarInt 64 refl usize-IsVarInt

abbrev of_bool : Bool → ℕ
of_bool true = 1
of_bool false = 0

read_bool-Reads : (value : Bool) → Reads read_bool (of_bool value ∷ []) value
unfolding read_bool
read_bool-Reads true = Reads-bind read_u8 _ (read_u8_short 1 (omega arith)) (Reads-pure true)
read_bool-Reads false = Reads-bind read_u8 _ (read_u8_short 0 (omega arith)) (Reads-pure false)

write_bool-Writes : (value : Bool) → Writes (write_bool value) (of_bool value ∷ [])
unfolding write_bool
write_bool-Writes true = write_byte-Writes 1
write_bool-Writes false = write_byte-Writes 0

of_bool-code : (value : Bool) → Encodes (of_bool value) (of_bool value ∷ [])
of_bool-code true = short (omega arith)
of_bool-code false = short (omega arith)

pub bool-IsLawful : IsLawful bool_codec (λ value. Unit)
bool-IsLawful = record {
  law = λ value _. record {
    bytes = of_bool value ∷ [];
    writes = write_bool-Writes value;
    reads = read_bool-Reads value;
    skips = λ depth _. skip_var_int_type depth (of_bool-code value);
  };
}

abbrev be_bytes : ℕ → List ℕ
be_bytes bits =
    (bits / 2 ^ 24 % 256) ∷ (bits / 2 ^ 16 % 256) ∷ (bits / 2 ^ 8 % 256) ∷ (bits % 256) ∷ []

read_f32-Reads : (bits : ℕ) → bits < 2 ^ 32 → Reads read_f32 (be_bytes bits) bits
unfolding read_f32 from_be_bytes
read_f32-Reads bits h =
    let whole : bits / 2 ^ 24 % 256 * 2 ^ 24
          + bits / 2 ^ 16 % 256 * 2 ^ 16
          + bits / 2 ^ 8 % 256 * 2 ^ 8
          + bits % 256
        ≡ bits =
      omega arith in
    Reads-bind read_byte_4 _ (read_byte_4-Reads _ _ _ _)
      (subst (λ v. Reads (pure v) [] bits) (sym whole) (Reads-pure bits))

pub f32-IsLawful : IsLawful f32_codec (λ bits. bits < 2 ^ 32)
unfolding write_f32 skip_nested skip_by_type skip_f32
f32-IsLawful = record {
  law = λ bits h. record {
    bytes = be_bytes bits;
    writes = write_slice-Writes (be_bytes bits);
    reads = read_f32-Reads bits h;
    skips = λ depth _. skip_slice-Reads (be_bytes bits);
  };
}

-- Both Booleans are encoded, decoded to themselves and skipped.
pub bool-Lawful : (value : Bool) → Lawful bool_codec value
bool-Lawful value = bool-IsLawful.law value tt

-- Every pattern of 32 bits of an f32, those of NaN too, is encoded, decoded to itself and skipped.
pub f32-Lawful : (pattern : ℕ) → pattern < 2 ^ 32 → Lawful f32_codec pattern
f32-Lawful pattern h = f32-IsLawful.law pattern h

-- ===== src/Buffer/Vectors.antt =====
-- Buffers that are lists of bytes, for runs of what the repository does with the crate `bytes`.
use blaze_pk_rs.Prelude.{
  ℕ, ◌+◌, ◌*◌, ◌/◌, ◌%◌, ◌≡◌, refl, List, [], ◌∷◌, ◌++◌, Option, none, some, length, ltb,
  if◌then◌else◌, take, drop, take-append, drop-append, le→not_ltb, arith, length-append,
}
use blaze_pk_rs.Buffer.{Buffers}

abbrev split_at : ℕ → List ℕ → Option (List ℕ × List ℕ)
split_at n b = if ltb (length b) n then none else some (take n b, drop n b)

abbrev first : List ℕ → Option (ℕ × List ℕ)
first [] = none
first (x ∷ rest) = some (x, rest)

abbrev first_two : List ℕ → Option (ℕ × List ℕ)
first_two (x ∷ y ∷ rest) = some (x * 256 + y, rest)
first_two _ = none

pub split_at-append :
    (b front back : List ℕ)
    → b ≡ front ++ back
    → (f : List ℕ) × (b' : List ℕ) × (split_at (length front) b ≡ some (f, b'))
      × (f ≡ front)
      × (b' ≡ back)
split_at-append b front back e = (
  take (length front) b,
  drop (length front) b,
  rw (le→not_ltb (length b) (length front) (rw e (omega (arith, length-append front back)))) refl,
  rw e (take-append front back),
  rw e (drop-append front back),
)

abbrev pub vectors : Buffers
vectors = record {
  BytesMut = List ℕ;
  Bytes = List ℕ;
  view = λ b. b;
  as_slice = λ b. b;
  remaining = length;
  get_u8 = first;
  get_u16 = first_two;
  split_to = split_at;
  freeze = λ b. b;
  put_u8 = λ x b. b ++ x ∷ [];
  put_u16 = λ x b. b ++ (x / 256) ∷ (x % 256) ∷ [];
  extend_from_slice = λ xs b. b ++ xs;
  from_vec = λ xs. xs;
  empty = [];
  remaining_lem = λ b. refl;
  get_u8_lem = λ b x rest e. (rest, rw e refl, refl);
  get_u16_lem = λ b x y rest e. (rest, rw e refl, refl);
  split_to_lem = split_at-append;
  freeze_lem = λ b. refl;
  put_u8_lem = λ b x. refl;
  put_u16_lem = λ b x. refl;
  extend_from_slice_lem = λ b xs. refl;
  from_vec_lem = λ xs. refl;
  empty_lem = refl;
}

-- ===== src/Types/Text/Utf8.antt =====
-- Every string is read back from its bytes in UTF-8.
use blaze_pk_rs.Prelude.{
  ℕ, zero, suc, ◌+◌, ◌/◌, ◌%◌, ◌<◌, ◌≤◌, ◌≡◌, refl, ap, ◌∙◌, List, [], ◌∷◌, ◌++◌, length,
  length-append, All, arith, inl, inr, ◌⊎◌, lt_or_le, lt→ltb, le→not_ltb,
}
use blaze_pk_rs.Types.Text.{
  encode_char, as_bytes, two, three, four, second_of_three, second_of_four, decode_char, lossy_loop,
  from_utf8_lossy,
}

-- A Unicode scalar value.
pub record IsScalar (c : ℕ) : Type 0 where
  pub below : c < 0x110000
  pub no_surrogate : (c < 0xd800) ⊎ (0xe000 ≤ c)

decode_one : (c : ℕ) (rest : List ℕ) → c < 0x80 → decode_char c rest ≡ (c, rest)
unfolding decode_char
decode_one c rest h = rw (lt→ltb c 0x80 h) refl

decode_two :
    (c : ℕ) (rest : List ℕ)
    → 0x80 ≤ c
    → c < 0x800
    → decode_char (0xc0 + c / 64) ((0x80 + c % 64) ∷ rest) ≡ (c, rest)
unfolding decode_char two
decode_two c rest h k = ground arith

decode_three :
    (c : ℕ) (rest : List ℕ)
    → IsScalar c
    → 0x800 ≤ c
    → c < 0x10000
    → decode_char (0xe0 + c / 4096) ((0x80 + c / 64 % 64) ∷ (0x80 + c % 64) ∷ rest) ≡ (c, rest)
unfolding decode_char three second_of_three
decode_three c rest s h k = ground arith

decode_four :
    (c : ℕ) (rest : List ℕ)
    → IsScalar c
    → 0x10000 ≤ c
    → decode_char
        (0xf0 + c / 262144)
        ((0x80 + c / 4096 % 64) ∷ (0x80 + c / 64 % 64) ∷ (0x80 + c % 64) ∷ rest)
      ≡ (c, rest)
unfolding decode_char four second_of_four
decode_four c rest s h = ground arith

encode_char-1 : (c : ℕ) → c < 0x80 → encode_char c ≡ c ∷ []
unfolding encode_char
encode_char-1 c h = rw (lt→ltb c 0x80 h) refl

encode_char-2 :
    (c : ℕ) → 0x80 ≤ c → c < 0x800 → encode_char c ≡ (0xc0 + c / 64) ∷ (0x80 + c % 64) ∷ []
unfolding encode_char
encode_char-2 c h k = rw (le→not_ltb c 0x80 h) (rw (lt→ltb c 0x800 k) refl)

encode_char-3 :
    (c : ℕ)
    → 0x800 ≤ c
    → c < 0x10000
    → encode_char c ≡ (0xe0 + c / 4096) ∷ (0x80 + c / 64 % 64) ∷ (0x80 + c % 64) ∷ []
unfolding encode_char
encode_char-3 c h k =
    rw (le→not_ltb c 0x80 (omega arith)) (rw (le→not_ltb c 0x800 h) (rw (lt→ltb c 0x10000 k) refl))

encode_char-4 :
    (c : ℕ)
    → 0x10000 ≤ c
    → encode_char c
      ≡ (0xf0 + c / 262144) ∷ (0x80 + c / 4096 % 64) ∷ (0x80 + c / 64 % 64) ∷ (0x80 + c % 64) ∷ []
unfolding encode_char
encode_char-4 c h =
    rw (le→not_ltb c 0x80 (omega arith))
      (rw (le→not_ltb c 0x800 (omega arith)) (rw (le→not_ltb c 0x10000 h) refl))

-- One character of a text.
lossy_char :
    (c fuel : ℕ) (rest : List ℕ)
    → IsScalar c
    → lossy_loop (suc fuel) (encode_char c ++ rest) ≡ c ∷ lossy_loop fuel rest
unfolding lossy_loop
lossy_char c fuel rest s = elim (lt_or_le c 0x80) [
  | inl h ↦ rw (encode_char-1 c h) (next c [] (decode_one c rest h))
  | inr h ↦ elim (lt_or_le c 0x800) [
    | inl k ↦
        rw (encode_char-2 c h k)
          (next (0xc0 + c / 64) ((0x80 + c % 64) ∷ []) (decode_two c rest h k))
    | inr k ↦ elim (lt_or_le c 0x10000) [
      | inl l ↦ rw (encode_char-3 c k l) (
          next (0xe0 + c / 4096) ((0x80 + c / 64 % 64) ∷ (0x80 + c % 64) ∷ [])
            (decode_three c rest s k l))
      | inr l ↦ rw (encode_char-4 c l) (
          next (0xf0 + c / 262144)
            ((0x80 + c / 4096 % 64) ∷ (0x80 + c / 64 % 64) ∷ (0x80 + c % 64) ∷ [])
            (decode_four c rest s l))
    ]
  ]
]
  where
    next :
        (b0 : ℕ) (others : List ℕ)
        → decode_char b0 (others ++ rest) ≡ (c, rest)
        → lossy_loop (suc fuel) ((b0 ∷ others) ++ rest) ≡ c ∷ lossy_loop fuel rest
    next b0 others e = ap (λ (p : ℕ × List ℕ). p.0 ∷ lossy_loop fuel p.1) e

pub length-encode_char : (c : ℕ) → 1 ≤ length (encode_char c)
unfolding encode_char
length-encode_char c = ground arith

lossy_as_bytes :
    (cs : List ℕ) (fuel : ℕ)
    → All IsScalar cs
    → length (as_bytes cs) ≤ fuel
    → lossy_loop fuel (as_bytes cs) ≡ cs
unfolding as_bytes
lossy_as_bytes [] zero all h = unfold lossy_loop in refl
lossy_as_bytes [] (suc fuel) all h = unfold lossy_loop in refl
lossy_as_bytes (c ∷ cs) zero all h =
    absurd (omega (arith, length-append (encode_char c) (as_bytes cs), length-encode_char c))
lossy_as_bytes (c ∷ cs) (suc fuel) (s, all) h =
    lossy_char c fuel (as_bytes cs) s
    ∙ ap (◌∷◌ c) (
        lossy_as_bytes cs fuel all
          (omega (arith, length-append (encode_char c) (as_bytes cs), length-encode_char c)))

-- Every text of Unicode scalar values is read back from its bytes, with no character replaced.
pub from_utf8_lossy-as_bytes : (cs : List ℕ) → All IsScalar cs → from_utf8_lossy (as_bytes cs) ≡ cs
unfolding from_utf8_lossy
from_utf8_lossy-as_bytes cs all = lossy_as_bytes cs (length (as_bytes cs)) all (omega arith)

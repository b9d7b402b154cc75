-- ===== src/Text.antt =====
-- Texts, as lists of Unicode scalar values, and what the standard library's formatting makes of
-- numbers. What it makes of floats and of texts in quotes is a parameter.
pub mod Debug
use Prim.Native.Char.{code}
use Prim.Native.String.{String}
use blaze_pk_rs.Prelude.{
  ℕ, zero, suc, ◌+◌, ◌-◌, ◌/◌, ◌%◌, List, [], ◌∷◌, ◌++◌, ltb, if◌then◌else◌, length,
}

abbrev pub Text : Type 0
Text = List ℕ

abbrev pub codes : String → Text
codes String.[] = []
codes (String.◌∷◌ c s) = code c ∷ codes s

-- `f32::to_string` of a bit pattern, and `{:?}` of a text.
pub record Formats : Type 0 where
  pub f32_to_string : ℕ → Text
  pub debug_str : String → Text

-- `s.repeat(n)`
unfoldable pub repeat : Text → ℕ → Text
repeat s zero = []
repeat s (suc n) = s ++ repeat s n

-- A digit below sixteen; `letter` is the code of ten.
abbrev digit : ℕ → ℕ → ℕ
digit letter d = if ltb d 10 then b'0' + d else letter + (d - 10)

-- There are fewer digits than the number says.
unfoldable pub digits : ℕ → ℕ → ℕ → ℕ → Text
digits base letter zero n = []
digits base letter (suc fuel) n =
    let front = digits base letter fuel (n / base) in
    if ltb n base then digit letter n ∷ [] else front ++ digit letter (n % base) ∷ []

-- `{}` of an integer.
unfoldable pub decimal : ℕ → Text
unfolding digits
decimal n = digits 10 b'a' (suc n) n

-- `0x{:X}`
unfoldable pub upper_hex : ℕ → Text
unfolding digits
upper_hex n = codes "0x" ++ digits 16 b'A' (suc n) n

-- `{:#06x}`
unfoldable pub padded_hex : ℕ → Text
unfolding digits repeat
padded_hex n =
    let ds = digits 16 b'a' (suc n) n in codes "0x" ++ (repeat (codes "0") (4 - length ds) ++ ds)

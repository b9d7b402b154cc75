-- ===== src/Types/Text.antt =====
-- src/reader.rs, src/writer.rs, src/types.rs: strings, as lists of Unicode scalar values. The
-- encoding in UTF-8 and `String::from_utf8_lossy` are those of the standard library.
pub mod Utf8
pub mod Laws
use blaze_pk_rs.Prelude.{
  ℕ, zero, suc, ◌+◌, ◌-◌, ◌*◌, ◌/◌, ◌%◌, ◌^◌, List, [], ◌∷◌, ◌++◌, Bool, true, false, ◌&&◌, ◌||◌,
  ltb, leb, ◌==◌, if◌then◌else◌, length,
}
use blaze_pk_rs.Tag.{TdfType}
use blaze_pk_rs.Reader.{Reader, ◌>>=◌, pure, read_slice}
use blaze_pk_rs.Reader.VarInt.{read_usize}
use blaze_pk_rs.Writer.{Writer, ◌▸◌, write_slice}
use blaze_pk_rs.Writer.VarInt.{write_usize}
use blaze_pk_rs.Writer.Tagged.{tag}
use blaze_pk_rs.Codec.{Codec}

-- The bytes of a character.
unfoldable pub encode_char : ℕ → List ℕ
encode_char c =
    if ltb c 0x80
    then c ∷ []
    else if ltb c 0x800
    then (0xc0 + c / 64) ∷ (0x80 + c % 64) ∷ []
    else if ltb c 0x10000
    then (0xe0 + c / 4096) ∷ (0x80 + c / 64 % 64) ∷ (0x80 + c % 64) ∷ []
    else (0xf0 + c / 262144) ∷ (0x80 + c / 4096 % 64) ∷ (0x80 + c / 64 % 64) ∷ (0x80 + c % 64) ∷ []

-- `str::as_bytes`
unfoldable pub as_bytes : List ℕ → List ℕ
unfolding encode_char
as_bytes [] = []
as_bytes (c ∷ cs) = encode_char c ++ as_bytes cs

abbrev between : ℕ → ℕ → ℕ → Bool
between low high b = leb low b && leb b high

-- U+FFFD, which stands for bytes that are no character.
abbrev pub replacement : ℕ
replacement = 0xfffd

-- The bytes that may follow the first byte of a character of three or four bytes.
unfoldable pub second_of_three : ℕ → ℕ → Bool
second_of_three first second =
    if first == 0xe0
    then between 0xa0 0xbf second
    else if first == 0xed
    then between 0x80 0x9f second
    else between 0x80 0xbf second

unfoldable pub second_of_four : ℕ → ℕ → Bool
second_of_four first second =
    if first == 0xf0
    then between 0x90 0xbf second
    else if first == 0xf4
    then between 0x80 0x8f second
    else between 0x80 0xbf second

-- A character and the bytes behind it; where the bytes are no character, as many of them are taken
-- as may begin one.
unfoldable pub two : ℕ → List ℕ → ℕ × List ℕ
two b0 [] = (replacement, [])
two b0 (b1 ∷ rest) =
    if between 0x80 0xbf b1 then (b0 % 32 * 64 + b1 % 64, rest) else (replacement, b1 ∷ rest)

unfoldable pub three : ℕ → List ℕ → ℕ × List ℕ
unfolding second_of_three
three b0 [] = (replacement, [])
three b0 (b1 ∷ []) = if second_of_three b0 b1 then (replacement, []) else (replacement, b1 ∷ [])
three b0 (b1 ∷ b2 ∷ rest) =
    if second_of_three b0 b1
    then if between 0x80 0xbf b2
      then (b0 % 16 * 4096 + b1 % 64 * 64 + b2 % 64, rest)
      else (replacement, b2 ∷ rest)
    else (replacement, b1 ∷ b2 ∷ rest)

unfoldable pub four : ℕ → List ℕ → ℕ × List ℕ
unfolding second_of_four
four b0 [] = (replacement, [])
four b0 (b1 ∷ []) = if second_of_four b0 b1 then (replacement, []) else (replacement, b1 ∷ [])
four b0 (b1 ∷ b2 ∷ []) =
    if second_of_four b0 b1
    then if between 0x80 0xbf b2 then (replacement, []) else (replacement, b2 ∷ [])
    else (replacement, b1 ∷ b2 ∷ [])
four b0 (b1 ∷ b2 ∷ b3 ∷ rest) =
    if second_of_four b0 b1
    then if between 0x80 0xbf b2
      then if between 0x80 0xbf b3
        then (b0 % 8 * 262144 + b1 % 64 * 4096 + b2 % 64 * 64 + b3 % 64, rest)
        else (replacement, b3 ∷ rest)
      else (replacement, b2 ∷ b3 ∷ rest)
    else (replacement, b1 ∷ b2 ∷ b3 ∷ rest)

unfoldable pub decode_char : ℕ → List ℕ → ℕ × List ℕ
unfolding two three four
decode_char b0 rest =
    if ltb b0 0x80
    then (b0, rest)
    else if between 0xc2 0xdf b0
    then two b0 rest
    else if between 0xe0 0xef b0
    then three b0 rest
    else if between 0xf0 0xf4 b0
    then four b0 rest
    else (replacement, rest)

-- Each character takes a byte at least.
unfoldable pub lossy_loop : ℕ → List ℕ → List ℕ
unfolding decode_char
lossy_loop zero bytes = []
lossy_loop (suc fuel) [] = []
lossy_loop (suc fuel) (b0 ∷ rest) = let (c, left) = decode_char b0 rest in c ∷ lossy_loop fuel left

unfoldable pub from_utf8_lossy : List ℕ → List ℕ
unfolding lossy_loop
from_utf8_lossy bytes = lossy_loop (length bytes) bytes

-- `String::pop`, whose result is dropped.
unfoldable pub pop : List ℕ → List ℕ
pop [] = []
pop (c ∷ []) = []
pop (c ∷ d ∷ cs) = c ∷ pop (d ∷ cs)

unfoldable pub ends_in_zero : List ℕ → Bool
ends_in_zero [] = false
ends_in_zero (b ∷ []) = b == 0
ends_in_zero (b ∷ d ∷ bs) = ends_in_zero (d ∷ bs)

unfoldable pub terminated : List ℕ → List ℕ
unfolding ends_in_zero
terminated bytes = if ends_in_zero bytes then bytes else bytes ++ 0 ∷ []

unfoldable pub write_str : List ℕ → Writer
unfolding as_bytes terminated
write_str value =
    let bytes = terminated (as_bytes value) in write_usize (length bytes) ▸ write_slice bytes

unfoldable pub tag_str : List ℕ → List ℕ → Writer
unfolding write_str
tag_str name value = tag name TdfType.string ▸ write_str value

unfoldable pub read_blob : Reader (List ℕ)
read_blob = read_usize >>= λ length. read_slice length

unfoldable pub read_string : Reader (List ℕ)
unfolding read_blob from_utf8_lossy pop
read_string = read_blob >>= λ bytes. pure (pop (from_utf8_lossy bytes))

-- The codec of `String`.
unfoldable pub string_codec : Codec (List ℕ)
unfolding write_str read_string
string_codec = record {
  encode = write_str;
  decode = read_string;
  value_type = TdfType.string;
  size_of = 24;
}

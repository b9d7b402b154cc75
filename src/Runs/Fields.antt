-- ===== src/Runs/Fields.antt =====
-- Runs of the search for a tag, on a struct with the fields "AGE " and "TEST".
use blaze_pk_rs.Prelude.{ℕ, ◌<◌, ◌≡◌, refl, List, [], ◌∷◌, ◌++◌, none, All, arith, length, ◌^◌}
use blaze_pk_rs.Tag.{TdfType, tag_eq}
use blaze_pk_rs.Tag.Code.{to_u8, ty_eq}
use blaze_pk_rs.TagFormat.{visible_tag}
use blaze_pk_rs.Error.{missing_tag, invalid_tag_type}
use blaze_pk_rs.Reader.{TdfReader, ok, err}
use blaze_pk_rs.Reader.Keeps.{IsValid, Keeps, Safe, Safe-le}
use blaze_pk_rs.Reader.Reads.{between}
use blaze_pk_rs.Reader.VarInt.{read_u16}
use blaze_pk_rs.Reader.VarInt.Safety.{impl_decode_var-Safe}
use blaze_pk_rs.Reader.Skip.{skip_type}
use blaze_pk_rs.Reader.Skip.Safety.{skip_type-Keeps}
use blaze_pk_rs.Reader.Seek.{until_tag, try_until_tag, try_tag, tag}
use blaze_pk_rs.Reader.Seek.Finds.{Field, Passes, write_fields}
use blaze_pk_rs.Reader.Seek.Fields.{IsName, tag-finds, until_tag-other_type}
use blaze_pk_rs.Reader.Seek.Missing.{missing_lem}
use blaze_pk_rs.Reader.Seek.Safety.{until_tag-Keeps}
use blaze_pk_rs.Reader.Seek.Tries.{TriesTag}
use blaze_pk_rs.Reader.Seek.Agrees.{TriesUntil, try_lem}
use blaze_pk_rs.Buffer.Vectors.{vectors}
use blaze_pk_rs.Packet.Body.{request, codec_encode}
use blaze_pk_rs.Packet.Message.{Received, request-Received}
use blaze_pk_rs.Writer.Writes.{write_byte-Writes}
use blaze_pk_rs.Writer.{◌▸◌, write_byte, write_slice}
use blaze_pk_rs.Writer.Tagged.{pack, tag as write_tag}
use blaze_pk_rs.Writer.Values.{tag_value}
use blaze_pk_rs.Writer.VarInt.{write_u16}
use blaze_pk_rs.Codec.{Codec, encode_bytes, Lawful, RoundTrips}
use blaze_pk_rs.Types.Numbers.{u16_codec}
use blaze_pk_rs.Types.Numbers.Laws.{u16-IsVarInt, VarInt→IsLawful}

abbrev age : List ℕ
age = 65 ∷ 71 ∷ 69 ∷ 0 ∷ []

abbrev test : List ℕ
test = 84 ∷ 69 ∷ 83 ∷ 84 ∷ []

Lawful-number : (v : ℕ) → v < 2 ^ 16 → Lawful u16_codec v
Lawful-number v h = (VarInt→IsLawful u16-IsVarInt).law v h

age_bytes : All (λ b. b < 256) age
age_bytes = (omega arith, (omega arith, (omega arith, (omega arith, tt))))

test_bytes : All (λ b. b < 256) test
test_bytes = (omega arith, (omega arith, (omega arith, (omega arith, tt))))

test-IsName : IsName test
test-IsName = record {
  at_most_4 = omega arith;
  chars = (refl, (refl, (refl, (refl, tt))));
  bytes = test_bytes;
}

abbrev fields : List Field
fields =
    record {
      C = ℕ;
      codec = u16_codec;
      value = 33;
      name = age;
      is_bytes = age_bytes;
      law = Lawful-number 33 (omega arith);
    }
    ∷ []

fields_pass : All (Passes (visible_tag test)) fields
unfolding tag_eq
fields_pass = (refl, tt)

finds_example :
    RoundTrips (write_fields fields ▸ tag_value u16_codec test 300) (tag u16_codec test) 300
finds_example =
    tag-finds u16_codec test 300 fields test-IsName (Lawful-number 300 (omega arith)) fields_pass

other_type_example :
    until_tag test TdfType.string (between [] ([] ++ (pack test (to_u8 TdfType.blob) ++ [])))
    ≡ err
        (invalid_tag_type (visible_tag test) TdfType.string TdfType.blob)
        (between (([] ++ []) ++ pack test (to_u8 TdfType.blob)) [])
unfolding ty_eq pack
other_type_example =
    until_tag-other_type test TdfType.string test-IsName [] TdfType.blob [] [] tt refl (omega arith)

missing_example :
    (until_tag test TdfType.string (between (1 ∷ 2 ∷ []) [])
      ≡ err (missing_tag (visible_tag test) TdfType.string) (between ((1 ∷ 2 ∷ []) ++ []) []))
    × (try_tag u16_codec test (between (1 ∷ 2 ∷ []) []) ≡ ok none (between (1 ∷ 2 ∷ []) []))
missing_example =
    missing_lem test test-IsName [] (1 ∷ 2 ∷ []) tt (omega arith) u16_codec TdfType.string

-- A tag without a value, and bytes that are no tag.
abbrev reader : TdfReader
reader = record { buffer = 0xd2 ∷ 0x5c ∷ 0xf4 ∷ 4 ∷ 3 ∷ 200 ∷ 9 ∷ []; cursor = 0 }

reader-IsValid : IsValid reader
reader-IsValid = omega arith

skip_example : Keeps 0 reader (skip_type TdfType.map reader)
skip_example = skip_type-Keeps TdfType.map reader reader-IsValid

until_example : Keeps 0 reader (until_tag test TdfType.list reader)
until_example = until_tag-Keeps test TdfType.list reader reader-IsValid

read_u16-Safe : (k : ℕ) → Safe k 0 read_u16
unfolding read_u16
read_u16-Safe k = Safe-le (omega arith) (omega arith) (impl_decode_var-Safe k 16)

try_example :
    TriesUntil reader (until_tag test TdfType.list reader) (try_until_tag test TdfType.list reader)
    × TriesTag reader (tag u16_codec test reader) (try_tag u16_codec test reader)
try_example = try_lem u16_codec test TdfType.list reader read_u16-Safe reader-IsValid

-- A message of one number, behind the fields and in front of a last byte.
abbrev message_codec : Codec ℕ
message_codec = record {
  encode = λ v. (write_fields fields ▸ tag_value u16_codec test v) ▸ write_byte 9;
  decode = tag u16_codec test;
  value_type = TdfType.group;
  size_of = 2;
}

sent_size : length (encode_bytes message_codec 300) < 2 ^ 16
unfolding encode_bytes ◌▸◌ write_byte tag_value write_u16 write_tag write_slice
sent_size = omega arith

abbrev sent : List ℕ
sent = codec_encode vectors (request vectors message_codec 5 (9, 2) 300) [] ++ 1 ∷ 2 ∷ []

message_example : Received vectors message_codec u16_codec test sent 5 (9, 2) 300 (1 ∷ 2 ∷ [])
message_example =
    request-Received vectors message_codec u16_codec test 5 (9, 2) 300 300 fields (write_byte 9)
      (9 ∷ []) [] sent (1 ∷ 2 ∷ []) refl (write_byte-Writes 9) test-IsName
      (Lawful-number 300 (omega arith)) fields_pass sent_size refl refl

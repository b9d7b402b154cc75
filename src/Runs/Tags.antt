-- ===== src/Runs/Tags.antt =====
-- Runs of the formats of tags and of numbers.
use blaze_pk_rs.Prelude.{ℕ, ◌*◌, ◌^◌, ◌<◌, List, [], ◌∷◌, All, arith}
use blaze_pk_rs.Tag.{TdfType}
use blaze_pk_rs.TagFormat.{visible_tag}
use blaze_pk_rs.TagFormat.RoundTrip.{tag-RoundTrips}
use blaze_pk_rs.Reader.Tagged.{read_tag}
use blaze_pk_rs.Writer.Tagged.{tag}
use blaze_pk_rs.Writer.VarInt.{write_u16, write_u64}
use blaze_pk_rs.Reader.VarInt.{read_u16, read_u64, impl_decode_var}
use blaze_pk_rs.Reader.{new}
use blaze_pk_rs.VarInt.Bounds.{Bounded, impl_decode_var-Bounded}
use blaze_pk_rs.VarInt.RoundTrip.{IntTrips, write_u16-IntTrips, write_u64-IntTrips}
use blaze_pk_rs.Codec.{RoundTrips}

-- The tag "TEST".
abbrev test : List ℕ
test = 84 ∷ 69 ∷ 83 ∷ 84 ∷ []

test-bytes : All (λ b. b < 256) test
test-bytes = (omega arith, (omega arith, (omega arith, (omega arith, tt))))

tag_example :
    RoundTrips
      (tag test TdfType.string)
      read_tag
      (record { tag = visible_tag test; ty = TdfType.string })
tag_example = tag-RoundTrips test TdfType.string test-bytes

u64_example : IntTrips (write_u64 0xfedcba9876543210) read_u64 0xfedcba9876543210
u64_example = write_u64-IntTrips 0xfedcba9876543210 (omega arith)

u16_example : IntTrips (write_u16 300) read_u16 300
u16_example = write_u16-IntTrips 300 (omega arith)

-- Three bytes that hold ones.
bounded_example :
    Bounded
      (λ v n. (v < 2 ^ 16) × (7 * n < 24))
      (new (255 ∷ 255 ∷ 127 ∷ 1 ∷ []))
      (impl_decode_var 16 (new (255 ∷ 255 ∷ 127 ∷ 1 ∷ [])))
bounded_example = impl_decode_var-Bounded 16 (new (255 ∷ 255 ∷ 127 ∷ 1 ∷ [])) (omega arith)

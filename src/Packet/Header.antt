-- ===== src/Packet/Header.antt =====
-- src/packet.rs: the headers of packets on the wire, over the buffers of the crate `bytes`.
use blaze_pk_rs.Prelude.{
  ℕ, ◌+◌, ◌/◌, ◌%◌, ◌^◌, bit_and, Option, none, some, Bool, true, false, ltb, ◌==◌, if◌then◌else◌,
}
use blaze_pk_rs.Buffer.{Buffers}
use blaze_pk_rs.PacketType.{type_code, from_u8}
use blaze_pk_rs.Packet.{PacketHeader}

module _ (api : Buffers) where
  open api use {BytesMut, remaining, get_u8, get_u16, put_u8, put_u16}

  -- What a read does to its source: it returns a value, it returns `None` with the source as it
  -- left it, or it panics.
  pub data Parse (A : Type 0) : Type 0 where
    parsed : A → BytesMut → Parse A
    incomplete : BytesMut → Parse A
    panic : Parse A

  module _ {A B : Type 0} where
    infixl 5 ◌>>=◌
    unfoldable pub ◌>>=◌ : (BytesMut → Parse A) → (A → BytesMut → Parse B) → BytesMut → Parse B
    ◌>>=◌ m f b = elim (m b) [ parsed a c ↦ f a c | incomplete c ↦ incomplete c | panic ↦ panic ]

  unfoldable pub or_panic : {A : Type 0} → Option (A × BytesMut) → Parse A
  or_panic (some (a, b)) = parsed a b
  or_panic none = panic

  unfoldable pub take_u8 : BytesMut → Parse ℕ
  unfolding or_panic
  take_u8 b = or_panic (get_u8 b)

  unfoldable pub take_u16 : BytesMut → Parse ℕ
  unfolding or_panic
  take_u16 b = or_panic (get_u16 b)

  -- `PacketHeader::write`
  unfoldable pub write : PacketHeader → ℕ → BytesMut → BytesMut
  write header size dst =
      let is_extended = ltb 0xffff size in
      let fixed = put_u16 header.id (
        put_u8 (if is_extended then 0x10 else 0x00) (
          put_u8 (type_code header.ty) (
            put_u16 header.error (
              put_u16 header.command (put_u16 header.component (put_u16 (size % 2 ^ 16) dst)))))) in
      if is_extended
      then put_u8 (bit_and size 0x00ff0000 / 2 ^ 16 % 256)
          (put_u8 (bit_and size 0xff000000 / 2 ^ 24 % 256) fixed)
      else fixed

  -- The two bytes of an extended length, which the source adds to the first two.
  unfoldable pub read_extended : Bool → ℕ → BytesMut → Parse ℕ
  unfolding take_u16
  read_extended true size b =
      if ltb (remaining b) 2 then incomplete b else (take_u16 >>= λ more. parsed (size + more)) b
  read_extended false size b = parsed size b

  -- `PacketHeader::read` behind its test that there are twelve bytes.
  unfoldable pub read_fields : BytesMut → Parse (PacketHeader × ℕ)
  unfolding take_u8 take_u16 read_extended
  read_fields = do
    size ← take_u16
    component ← take_u16
    command ← take_u16
    error ← take_u16
    ty ← take_u8
    flags ← take_u8
    id ← take_u16
    total ← read_extended (flags == 0x10) size
    parsed (
      record { component = component; command = command; error = error; ty = from_u8 ty; id = id },
      total,
    )

  unfoldable pub read : BytesMut → Parse (PacketHeader × ℕ)
  unfolding read_fields
  read src = if ltb (remaining src) 12 then incomplete src else read_fields src

-- ===== src/PacketType.antt =====
-- src/packet.rs: the types of packets.
use blaze_pk_rs.Prelude.{ℕ, ◌==◌, if◌then◌else◌, ◌≡◌, refl}

pub data PacketType : Type 0 where
  request response notify error : PacketType

-- `ty as u8`
unfoldable pub type_code : PacketType → ℕ
type_code PacketType.request = 0x00
type_code PacketType.response = 0x10
type_code PacketType.notify = 0x20
type_code PacketType.error = 0x30

-- `PacketType::from`
unfoldable pub from_u8 : ℕ → PacketType
from_u8 value =
    if value == 0x00
    then PacketType.request
    else if value == 0x10
    then PacketType.response
    else if value == 0x20
    then PacketType.notify
    else if value == 0x30
    then PacketType.error
    else PacketType.request

pub from_u8-type_code : (ty : PacketType) → from_u8 (type_code ty) ≡ ty
unfolding from_u8 type_code
from_u8-type_code PacketType.request = refl
from_u8-type_code _ = refl

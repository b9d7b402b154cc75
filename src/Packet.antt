-- ===== src/Packet.antt =====
-- src/packet.rs: the headers of packets.
pub mod Header
pub mod Parses
pub mod Wire
pub mod Body
pub mod Stream
pub mod Partial
pub mod Next
pub mod Arrivals
pub mod Message
pub mod Total
pub mod Requests
pub mod Debug
use blaze_pk_rs.Prelude.{ℕ, Bool, ◌&&◌, ◌==◌}
use blaze_pk_rs.PacketType.{PacketType}

pub record PacketHeader : Type 0 where
  pub component : ℕ
  pub command : ℕ
  pub error : ℕ
  pub ty : PacketType
  pub id : ℕ

unfoldable pub notify : ℕ → ℕ → PacketHeader
notify component command = record {
  component = component;
  command = command;
  error = 0;
  ty = PacketType.notify;
  id = 0;
}

unfoldable pub request : ℕ → ℕ → ℕ → PacketHeader
request id component command = record {
  component = component;
  command = command;
  error = 0;
  ty = PacketType.request;
  id = id;
}

unfoldable pub with_type : PacketType → PacketHeader → PacketHeader
with_type ty header = record {
  component = header.component;
  command = header.command;
  error = header.error;
  ty = ty;
  id = header.id;
}

unfoldable pub response : PacketHeader → PacketHeader
unfolding with_type
response = with_type PacketType.response

unfoldable pub with_error : ℕ → PacketHeader → PacketHeader
with_error error header = record {
  component = header.component;
  command = header.command;
  error = error;
  ty = PacketType.error;
  id = header.id;
}

unfoldable pub path_matches : PacketHeader → PacketHeader → Bool
path_matches header other = header.component == other.component && header.command == other.command

-- ===== src/Packet/Body.antt =====
-- src/packet.rs: packets, how they are built in answer to others, and the codec of streams.
use blaze_pk_rs.Prelude.{ℕ, List, Option, none, some, ltb, if◌then◌else◌, length}
use blaze_pk_rs.Buffer.{Buffers}
use blaze_pk_rs.Reader.{new, Run}
use blaze_pk_rs.Codec.{Codec, encode_bytes}
use blaze_pk_rs.Packet.{
  PacketHeader, with_error, response as header_response, notify as header_notify,
  request as header_request,
}
use blaze_pk_rs.Packet.Header.{read as read_header, write as write_header}
use blaze_pk_rs.Packet.Header.{Parse, parsed, incomplete, panic, ◌>>=◌}

module _ (api : Buffers) where
  open api use {
    BytesMut, Bytes, remaining, as_slice, split_to, freeze, extend_from_slice, from_vec, empty,
  }

  pub record Packet : Type 0 where
    pub header : PacketHeader
    pub contents : Bytes

  unfoldable pub raw : PacketHeader → List ℕ → Packet
  raw header contents = record { header = header; contents = from_vec contents }

  unfoldable pub raw_empty : PacketHeader → Packet
  raw_empty header = record { header = header; contents = empty }

  module _ {C : Type 0} (c : Codec C) where
    unfoldable pub response : Packet → C → Packet
    response packet contents = record {
      header = header_response packet.header;
      contents = from_vec (encode_bytes c contents);
    }

    unfoldable pub respond : Packet → C → Packet
    unfolding response
    respond self contents = response self contents

    unfoldable pub error : Packet → ℕ → C → Packet
    error packet code contents = record {
      header = with_error code packet.header;
      contents = from_vec (encode_bytes c contents);
    }

    unfoldable pub respond_error : Packet → ℕ → C → Packet
    unfolding error
    respond_error self code contents = error self code contents

    -- `values` are the component's and the command's numbers.
    unfoldable pub notify : ℕ × ℕ → C → Packet
    notify (component, command) contents = record {
      header = header_notify component command;
      contents = from_vec (encode_bytes c contents);
    }

    unfoldable pub request : ℕ → ℕ × ℕ → C → Packet
    request id (component, command) contents = record {
      header = header_request id component command;
      contents = from_vec (encode_bytes c contents);
    }

    unfoldable pub decode : Packet → Run C
    decode packet = c.decode (new (as_slice packet.contents))

  unfoldable pub notify_raw : ℕ × ℕ → List ℕ → Packet
  notify_raw (component, command) contents = record {
    header = header_notify component command;
    contents = from_vec contents;
  }

  unfoldable pub notify_empty : ℕ × ℕ → Packet
  notify_empty (component, command) = record {
    header = header_notify component command;
    contents = empty;
  }

  unfoldable pub request_raw : ℕ → ℕ × ℕ → List ℕ → Packet
  request_raw id (component, command) contents = record {
    header = header_request id component command;
    contents = from_vec contents;
  }

  unfoldable pub request_empty : ℕ → ℕ × ℕ → Packet
  request_empty id (component, command) = record {
    header = header_request id component command;
    contents = empty;
  }

  unfoldable pub response_raw : Packet → List ℕ → Packet
  response_raw packet contents = record {
    header = header_response packet.header;
    contents = from_vec contents;
  }

  unfoldable pub response_empty : Packet → Packet
  response_empty packet = record { header = header_response packet.header; contents = empty }

  unfoldable pub respond_empty : Packet → Packet
  unfolding response_empty
  respond_empty self = response_empty self

  unfoldable pub error_raw : Packet → ℕ → List ℕ → Packet
  error_raw packet code contents = record {
    header = with_error code packet.header;
    contents = from_vec contents;
  }

  unfoldable pub error_empty : Packet → ℕ → Packet
  error_empty packet code = record { header = with_error code packet.header; contents = empty }

  unfoldable pub respond_error_empty : Packet → ℕ → Packet
  unfolding error_empty
  respond_error_empty self code = error_empty self code

  unfoldable pub cut : PacketHeader → Option (BytesMut × BytesMut) → Parse api Packet
  cut header (some (contents, rest)) =
      parsed (record { header = header; contents = freeze contents }) rest
  cut header none = panic

  -- The contents behind a header.
  unfoldable pub read_contents : PacketHeader → ℕ → BytesMut → Parse api Packet
  unfolding cut
  read_contents header size src =
      if ltb (remaining src) size then incomplete src else cut header (split_to size src)

  unfoldable pub read : BytesMut → Parse api Packet
  unfolding read_contents
  read = ◌>>=◌ api (read_header api) (λ (header, size). read_contents header size)

  unfoldable pub write : Packet → BytesMut → BytesMut
  write packet dst =
      let contents = as_slice packet.contents in
      extend_from_slice contents (write_header api packet.header (length contents) dst)

  unfoldable pub commit : BytesMut → Parse api Packet → Option (Option Packet × BytesMut)
  commit src (parsed packet read_src) = some (some packet, read_src)
  commit src (incomplete read_src) = some (none, src)
  commit src panic = none

  -- `PacketCodec::decode` works on a copy of its source and keeps it only if there was a packet.
  -- It returns no error; an outer `none` is a panic.
  unfoldable pub codec_decode : BytesMut → Option (Option Packet × BytesMut)
  unfolding commit
  codec_decode src = commit src (read src)

  -- `PacketCodec::encode`
  unfoldable pub codec_encode : Packet → BytesMut → BytesMut
  unfolding write
  codec_encode = write

  -- Encoding of a packet that is borrowed, and of one behind an `Arc`.
  unfoldable pub codec_encode_ref : Packet → BytesMut → BytesMut
  unfolding write
  codec_encode_ref = write

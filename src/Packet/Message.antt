-- ===== src/Packet/Message.antt =====
-- src/packet.rs with src/writer.rs and src/reader.rs: a packet whose contents are a message of
-- tagged values, from its encoder to what the receiver looks up in it.
use blaze_pk_rs.Prelude.{ℕ, ◌^◌, ◌<◌, ◌≡◌, ap, ◌∙◌, List, [], ◌++◌, some, length, arith, All}
use blaze_pk_rs.Buffer.{Buffers}
use blaze_pk_rs.TagFormat.{visible_tag}
use blaze_pk_rs.Reader.{new, ok}
use blaze_pk_rs.Reader.Reads.{between}
use blaze_pk_rs.Reader.Seek.{tag}
use blaze_pk_rs.Reader.Seek.Finds.{Field, write_fields, Passes}
use blaze_pk_rs.Reader.Seek.Fields.{IsName, tag-finds}
use blaze_pk_rs.Writer.{Writer, ◌▸◌, default}
use blaze_pk_rs.Writer.Writes.{Writes, Writes-then}
use blaze_pk_rs.Writer.Values.{tag_value}
use blaze_pk_rs.Codec.{Codec, Lawful, encode_bytes}
use blaze_pk_rs.Packet.{request as header_request}
use blaze_pk_rs.Packet.Body.{Packet, request, codec_decode, codec_encode}
use blaze_pk_rs.Packet.Stream.{codec_decode-codec_encode}

module _ (api : Buffers) {M C : Type 0} (m : Codec M) (c : Codec C) (name : List ℕ) where
  open api use {BytesMut, view, as_slice, from_vec, from_vec_lem}

  -- What a receiver gets of a request with a message: its header, and in it the value that has the
  -- name.
  pub record Received (src : BytesMut) (id : ℕ) (target : ℕ × ℕ) (value : C) (rest : List ℕ)
      : Type 0 where
    pub packet : Packet api
    pub left : BytesMut
    pub decodes : codec_decode api src ≡ some (some packet, left)
    pub same_header : packet.header ≡ header_request id target.0 target.1
    pub front : List ℕ
    pub back : List ℕ
    pub finds : tag c name (new (as_slice packet.contents)) ≡ ok value (between front back)
    pub rest_left : view left ≡ rest

  message_bytes :
      (message : M) (writer more : Writer) (bytes others : List ℕ)
      → m.encode message ≡ writer ▸ more
      → Writes writer bytes
      → Writes more others
      → encode_bytes m message ≡ bytes ++ others
  unfolding encode_bytes default
  message_bytes message writer more bytes others shape writes writes' =
      ap (λ (w : Writer). (w default).buffer) shape
      ∙ ap (λ w. w.buffer) ((Writes-then writes writes').run default)

  -- A request is made of a message whose encoder writes fields, a value under a name, and anything
  -- more. No field before the value has its tag. The request is encoded into an empty buffer, and
  -- its bytes arrive with others behind them. Then the receiver decodes a packet with the header of
  -- the request, in which `tag` finds the value under its name, and the other bytes are left. The
  -- message is encoded to less than 2 ^ 16 bytes, the value obeys the law of its codec, and the name
  -- has at most four characters, each of which a tag can hold.
  pub request-Received :
      (id : ℕ) (target : ℕ × ℕ) (message : M) (value : C) (fs : List Field) (more : Writer)
      (others : List ℕ) (dst src : BytesMut) (rest : List ℕ)
      → m.encode message ≡ (write_fields fs ▸ tag_value c name value) ▸ more
      → Writes more others
      → IsName name
      → Lawful c value
      → All (Passes (visible_tag name)) fs
      → length (encode_bytes m message) < 2 ^ 16
      → view dst ≡ []
      → view src ≡ view (codec_encode api (request api m id target message) dst) ++ rest
      → Received src id target value rest
  unfolding request new
  request-Received id target message value fs more others dst src rest shape writes is_name law pass
        short empty e =
      let trip = tag-finds c name value fs is_name law pass in
      let whole : encode_bytes m message ≡ trip.bytes ++ others =
        message_bytes message (write_fields fs ▸ tag_value c name value) more trip.bytes others
          shape trip.writes writes in
      let size = ap length (from_vec_lem (encode_bytes m message)) in
      let d =
        codec_decode-codec_encode api (request api m id target message) dst src rest
          (omega (arith, size)) empty e in
      record {
        packet = d.packet;
        left = d.left;
        decodes = d.run;
        same_header = d.header_eq;
        front = trip.bytes;
        back = others;
        finds =
            ap (λ xs. tag c name (new xs))
              (d.contents_eq ∙ from_vec_lem (encode_bytes m message) ∙ whole)
            ∙ trip.reads.run [] others (omega (arith, ap length whole));
        rest_left = d.left_eq;
      }

-- ===== src/Packet/Stream.antt =====
-- What the codec of streams in src/packet.rs does with whole packets, with parts of them, and with
-- packets that are longer than their header can say.
use blaze_pk_rs.Prelude.{
  ℕ, ◌^◌, ◌<◌, ◌≡◌, refl, ap, ◌∙◌, sym, List, [], ◌∷◌, ◌++◌, append_assoc, some, false, ltb, length,
  length-append, arith, le→not_ltb, All, append-nil,
}
use blaze_pk_rs.Buffer.{Buffers}
use blaze_pk_rs.Packet.{PacketHeader}
use blaze_pk_rs.Packet.Header.{parsed}
use blaze_pk_rs.Packet.Header.{read as read_header}
use blaze_pk_rs.Packet.Parses.{bind_parsed}
use blaze_pk_rs.Packet.Wire.{header_bytes, read_length, view-write, read-write}
use blaze_pk_rs.Packet.Body.{Packet, read_contents, read, commit, codec_decode, codec_encode}

module _ (api : Buffers) where
  open api use {
    BytesMut, Bytes, view, as_slice, remaining, remaining_lem, split_to_lem, freeze, freeze_lem,
    extend_from_slice_lem,
  }

  -- The bytes of a packet in a stream.
  abbrev pub packet_bytes : Packet api → List ℕ
  packet_bytes p = header_bytes p.header (length (as_slice p.contents)) ++ as_slice p.contents

  -- `encode` appends these bytes.
  pub view-codec_encode :
      (p : Packet api) (dst : BytesMut) → view (codec_encode api p dst) ≡ view dst ++ packet_bytes p
  unfolding codec_encode
  view-codec_encode p dst = simp (
    extend_from_slice_lem,
    view-write api p.header (length (as_slice p.contents)) dst,
    append_assoc,
  )

  -- What `decode` has returned: a packet with this header and these contents, and a source that
  -- still holds `rest`.
  pub record Decoded (src : BytesMut) (h : PacketHeader) (contents rest : List ℕ) : Type 0 where
    pub packet : Packet api
    pub left : BytesMut
    pub run : codec_decode api src ≡ some (some packet, left)
    pub header_eq : packet.header ≡ h
    pub contents_eq : as_slice packet.contents ≡ contents
    pub left_eq : view left ≡ rest

  read_contents_lem :
      (h : PacketHeader) (b : BytesMut) (contents rest : List ℕ)
      → view b ≡ contents ++ rest
      → (f : BytesMut) × (b' : BytesMut) × (read_contents api h (length contents) b
          ≡ parsed (record { header = h; contents = freeze f }) b')
        × (view f ≡ contents)
        × (view b' ≡ rest)
  unfolding read_contents
  read_contents_lem h b contents rest e =
      let (f, b', split, front, back) = split_to_lem b contents rest e in
      let room : ltb (remaining b) (length contents) ≡ false =
        rw (remaining_lem b) (rw e (le→not_ltb _ _ (omega (arith, length-append contents rest)))) in
      (f, b', rw (room, split) refl, front, back)

  -- Whatever stands behind a header, as many bytes as `read` takes its length to be are its
  -- contents.
  pub decode-header :
      (h : PacketHeader) (size : ℕ) (src : BytesMut) (contents rest : List ℕ)
      → view src ≡ header_bytes h size ++ (contents ++ rest)
      → read_length size ≡ length contents
      → Decoded src h contents rest
  unfolding codec_decode read
  decode-header h size src contents rest e n =
      let p = read-write api h size src (contents ++ rest) e in
      let (f, b', run, front, back) = read_contents_lem h p.left contents rest p.view_left in
      let whole : read api src ≡ parsed (record { header = h; contents = freeze f }) b' =
        bind_parsed api (read_header api) (λ (header, size). read_contents api header size) p.run
        ∙ ap (λ k. read_contents api h k p.left) n
        ∙ run in
      record {
        packet = record { header = h; contents = freeze f };
        left = b';
        run = ap (commit api src) whole;
        header_eq = refl;
        contents_eq = freeze_lem f ∙ front;
        left_eq = back;
      }

  pub short_length : (size : ℕ) → size < 2 ^ 16 → read_length size ≡ size
  short_length size h = rw (le→not_ltb 0xffff size (omega arith)) refl

  -- A packet of less than 2 ^ 16 bytes of contents that was encoded into an empty buffer is
  -- decoded to the same header and contents, and what stands behind it is left.
  pub codec_decode-codec_encode :
      (p : Packet api) (dst src : BytesMut) (rest : List ℕ)
      → length (as_slice p.contents) < 2 ^ 16
      → view dst ≡ []
      → view src ≡ view (codec_encode api p dst) ++ rest
      → Decoded src p.header (as_slice p.contents) rest
  codec_decode-codec_encode p dst src rest short start e =
      let contents = as_slice p.contents in
      let whole : view src ≡ header_bytes p.header (length contents) ++ (contents ++ rest) =
        e
        ∙ ap (λ v. v ++ rest) (view-codec_encode p dst ∙ ap (λ v. v ++ packet_bytes p) start)
        ∙ append_assoc (header_bytes p.header (length contents)) contents rest in
      decode-header p.header (length contents) src contents rest whole (short_length _ short)

  -- A buffer from which packets are decoded one after another.
  pub data DecodesAll : BytesMut → List (Packet api) → BytesMut → Type 0 where
    done : {src : BytesMut} → DecodesAll src [] src
    next :
        {src mid left : BytesMut} {p q : Packet api} {ps : List (Packet api)}
        → codec_decode api src ≡ some (some q, mid)
        → q.header ≡ p.header
        → as_slice q.contents ≡ as_slice p.contents
        → DecodesAll mid ps left
        → DecodesAll src (p ∷ ps) left

  unfoldable pub encode_all : List (Packet api) → BytesMut → BytesMut
  encode_all [] dst = dst
  encode_all (p ∷ ps) dst = encode_all ps (codec_encode api p dst)

  abbrev pub stream_bytes : List (Packet api) → List ℕ
  stream_bytes [] = []
  stream_bytes (p ∷ ps) = packet_bytes p ++ stream_bytes ps

  pub view-encode_all :
      (ps : List (Packet api)) (dst : BytesMut)
      → view (encode_all ps dst) ≡ view dst ++ stream_bytes ps
  unfolding encode_all
  view-encode_all [] dst = sym (append-nil (view dst))
  view-encode_all (p ∷ ps) dst =
      view-encode_all ps (codec_encode api p dst)
      ∙ ap (λ v. v ++ stream_bytes ps) (view-codec_encode p dst)
      ∙ append_assoc (view dst) (packet_bytes p) (stream_bytes ps)

  abbrev pub IsShort : Packet api → Type 0
  IsShort p = length (as_slice p.contents) < 2 ^ 16

  decode_stream :
      (ps : List (Packet api)) (src : BytesMut) (rest : List ℕ)
      → All IsShort ps
      → view src ≡ stream_bytes ps ++ rest
      → (left : BytesMut) × DecodesAll src ps left × (view left ≡ rest)
  decode_stream [] src rest short e = (src, done, e)
  decode_stream (p ∷ ps) src rest (short, shorts) e =
      let contents = as_slice p.contents in
      let whole : view src
          ≡ header_bytes p.header (length contents) ++ (contents ++ (stream_bytes ps ++ rest)) =
        e
        ∙ append_assoc (packet_bytes p) (stream_bytes ps) rest
        ∙ append_assoc (header_bytes p.header (length contents)) contents
            (stream_bytes ps ++ rest) in
      let d =
        decode-header p.header (length contents) src contents (stream_bytes ps ++ rest) whole
          (short_length _ short) in
      let (left, all, e') = decode_stream ps d.left rest shorts d.left_eq in
      (left, next {q = d.packet} d.run d.header_eq d.contents_eq all, e')

  -- Packets of less than 2 ^ 16 bytes of contents each that were encoded one after another into an
  -- empty buffer are decoded one after another, in their order, with their headers and contents,
  -- and the bytes that stand behind them are left.
  pub codec_decode-encode_all :
      (ps : List (Packet api)) (dst src : BytesMut) (rest : List ℕ)
      → All IsShort ps
      → view dst ≡ []
      → view src ≡ view (encode_all ps dst) ++ rest
      → (left : BytesMut) × DecodesAll src ps left × (view left ≡ rest)
  codec_decode-encode_all ps dst src rest short start e =
      decode_stream ps src rest short
        (e ∙ ap (λ v. v ++ rest) (view-encode_all ps dst ∙ ap (λ v. v ++ stream_bytes ps) start))

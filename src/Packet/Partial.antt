-- ===== src/Packet/Partial.antt =====
-- What the codec of streams in src/packet.rs does with a part of a packet, with bytes that are no
-- packet at all, and with a packet that is longer than two bytes can say.
use blaze_pk_rs.Prelude.{
  ℕ, ◌^◌, ◌<◌, ◌≤◌, ◌≡◌, refl, ap, ◌∙◌, sym, List, ◌∷◌, ◌++◌, some, none, true, ltb, length,
  length-append, arith, lt→ltb, le→not_ltb, inl, inr, append_split, take, drop, take-append-drop,
  length-take, lt_or_le,
}
use blaze_pk_rs.Buffer.{Buffers}
use blaze_pk_rs.Packet.{PacketHeader}
use blaze_pk_rs.Packet.Header.{Parse, parsed, incomplete, panic, read as read_header}
use blaze_pk_rs.Packet.Parses.{bind_parsed, bind_incomplete}
use blaze_pk_rs.Packet.Wire.{header_bytes, read_length, read-write}
use blaze_pk_rs.Packet.Body.{Packet, read_contents, read, commit, codec_decode}
use blaze_pk_rs.Packet.Stream.{packet_bytes, IsShort, Decoded, decode-header, short_length}

module _ (api : Buffers) where
  open api use {BytesMut, Bytes, view, as_slice, remaining, remaining_lem}

  commit_keeps :
      (src src' : BytesMut) (r : Parse api (Packet api))
      → commit api src r ≡ some (none, src')
      → src' ≡ src
  unfolding commit
  commit_keeps src src' (parsed p left) e = absurd (cc)
  commit_keeps src src' (incomplete left) e = cc
  commit_keeps src src' panic e = absurd (cc)

  -- `decode` leaves its source as it was wherever it returns no packet.
  pub codec_decode-keeps :
      (src src' : BytesMut) → codec_decode api src ≡ some (none, src') → src' ≡ src
  unfolding codec_decode
  codec_decode-keeps src src' e = commit_keeps src src' (read api src) e

  too_short : (b : BytesMut) (n : ℕ) → length (view b) < n → ltb (remaining b) n ≡ true
  too_short b n h = rw (remaining_lem b) (lt→ltb _ n h)

  read-no_header : (src : BytesMut) → length (view src) < 12 → read api src ≡ incomplete src
  unfolding read read_header
  read-no_header src h =
      bind_incomplete api (read_header api) (λ (header, size). read_contents api header size)
        (rw (too_short src 12 h) refl)

  read-part :
      (h : PacketHeader) (size : ℕ) (src : BytesMut) (part : List ℕ)
      → view src ≡ header_bytes h size ++ part
      → read_length size ≡ size
      → length part < size
      → (left : BytesMut) × (read api src ≡ incomplete left)
  unfolding read read_contents
  read-part h size src part e n short =
      let p = read-write api h size src part e in
      let missing : ltb (remaining p.left) (read_length size) ≡ true =
        rw n (too_short p.left size (rw p.view_left short)) in
      (
        p.left,
        bind_parsed api (read_header api) (λ (header, size). read_contents api header size) p.run
            ∙ rw missing refl,
      )

  header_long : (h : PacketHeader) (size : ℕ) → size < 2 ^ 16 → length (header_bytes h size) ≡ 12
  header_long h size small = rw (le→not_ltb 0xffff size (omega arith)) refl

  codec_decode-incomplete :
      (src left : BytesMut)
      → read api src ≡ incomplete left
      → codec_decode api src ≡ some (none, src)
  unfolding codec_decode commit
  codec_decode-incomplete src left e = rw e refl

  pub codec_decode-no_header :
      (src : BytesMut) → length (view src) < 12 → codec_decode api src ≡ some (none, src)
  codec_decode-no_header src h = codec_decode-incomplete src src (read-no_header src h)

  -- For bytes that a packet of less than 2 ^ 16 bytes of contents begins with and that lack at
  -- least one byte of it, `decode` returns no packet, does not panic, and leaves its source as it
  -- was.
  pub codec_decode-part :
      (p : Packet api) (src : BytesMut) (x : ℕ) (more : List ℕ)
      → IsShort api p
      → packet_bytes api p ≡ view src ++ x ∷ more
      → codec_decode api src ≡ some (none, src)
  codec_decode-part p src x more short e =
      let contents = as_slice p.contents in
      let size = length contents in
      elim (lt_or_le (length (view src)) 12) [
        | inl few ↦ codec_decode-incomplete src src (read-no_header src few)
        | inr many ↦
            let twelve : length (header_bytes p.header size) ≤ length (view src) =
              omega (arith, header_long p.header size short) in
            let (part, front, back) =
              append_split (header_bytes p.header size) contents (view src) (x ∷ more) e twelve in
            let lacks : length part < size =
              rw back (omega (arith, length-append part (x ∷ more))) in
            let (left, run) =
              read-part p.header size src part front (short_length api size short) lacks in
            codec_decode-incomplete src left run
      ]

  -- A packet of 2 ^ 16 to 2 ^ 32 - 1 bytes of contents is not decoded to itself: `decode` returns
  -- its header with only as many of its bytes as the sum of the two halves of its length, which are
  -- fewer, and leaves the others in the source.
  pub codec_decode-long :
      (p : Packet api) (src : BytesMut)
      → 2 ^ 16 ≤ length (as_slice p.contents)
      → length (as_slice p.contents) < 2 ^ 32
      → view src ≡ packet_bytes api p
      → let read_size = read_length (length (as_slice p.contents)) in
        (read_size < length (as_slice p.contents))
        × Decoded api src p.header
            (take read_size (as_slice p.contents))
            (drop read_size (as_slice p.contents))
  codec_decode-long p src large small e =
      let contents = as_slice p.contents in
      let n = read_length (length contents) in
      let less : n < length contents =
        rw (lt→ltb 0xffff (length contents) (omega arith)) (omega arith) in
      (
        less,
        decode-header api p.header (length contents) src (take n contents) (drop n contents)
            (e
              ∙ ap (λ v. header_bytes p.header (length contents) ++ v)
                  (sym (take-append-drop n contents)))
            (omega (arith, length-take n contents, less)),
      )

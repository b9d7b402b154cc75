-- ===== src/Packet/Next.antt =====
-- src/packet.rs: what `PacketCodec::decode` does next in a buffer, in front of packets of which some
-- have arrived.
use blaze_pk_rs.Prelude.{
  ℕ, ◌<◌, ◌≡◌, refl, sym, ap, ◌∙◌, List, [], ◌∷◌, ◌++◌, append_assoc, some, none, length,
  length-append, append_split, lt_or_le, inl, inr, arith, All,
}
use blaze_pk_rs.Buffer.{Buffers}
use blaze_pk_rs.Packet.Body.{Packet, codec_decode}
use blaze_pk_rs.Packet.Wire.{header_bytes}
use blaze_pk_rs.Packet.Stream.{
  packet_bytes, stream_bytes, IsShort, Decoded, decode-header, short_length,
}
use blaze_pk_rs.Packet.Partial.{codec_decode-part, codec_decode-no_header}

module _ (api : Buffers) where
  open api use {BytesMut, view, as_slice}

  -- Packets with the headers and contents of others.
  abbrev pub Same : List (Packet api) → List (Packet api) → Type 0
  Same [] [] = Unit {0}
  Same [] (p ∷ ps) = ⊥
  Same (q ∷ qs) [] = ⊥
  Same (q ∷ qs) (p ∷ ps) =
      (q.header ≡ p.header) × (as_slice q.contents ≡ as_slice p.contents) × Same qs ps

  pub Same-snoc :
      (qs ps : List (Packet api)) (q p : Packet api)
      → Same qs ps
      → q.header ≡ p.header
      → as_slice q.contents ≡ as_slice p.contents
      → Same (qs ++ q ∷ []) (ps ++ p ∷ [])
  Same-snoc [] [] q p h e f = (e, f, tt)
  Same-snoc [] (_ ∷ _) q p h e f = absurd h
  Same-snoc (_ ∷ _) [] q p h e f = absurd h
  Same-snoc (_ ∷ qs) (_ ∷ ps) q p (g, k, h) e f = (g, k, Same-snoc qs ps q p h e f)

  -- What `decode` does in front of the packets `todo`, of which `later` has not arrived.
  pub data Next (buffer : BytesMut) (later : List ℕ) : List (Packet api) → Type 0 where
    nothing_left :
        view buffer ≡ [] → codec_decode api buffer ≡ some (none, buffer) → Next buffer later []
    part_of :
        {p : Packet api} {ps : List (Packet api)} (x : ℕ) (more : List ℕ)
        → later ≡ x ∷ more
        → codec_decode api buffer ≡ some (none, buffer)
        → Next buffer later (p ∷ ps)
    whole :
        {p : Packet api} {ps : List (Packet api)} (rest : List ℕ)
        → Decoded api buffer p.header (as_slice p.contents) rest
        → rest ++ later ≡ stream_bytes api ps
        → Next buffer later (p ∷ ps)

  append-eq-nil : (xs ys : List ℕ) → xs ++ ys ≡ [] → xs ≡ []
  append-eq-nil [] ys e = refl
  append-eq-nil (x ∷ xs) ys e = absurd (omega (arith, ap length e))

  pub next :
      (buffer : BytesMut) (later : List ℕ) (todo : List (Packet api))
      → All (IsShort api) todo
      → view buffer ++ later ≡ stream_bytes api todo
      → Next buffer later todo
  next buffer later [] short e =
      let gone = append-eq-nil (view buffer) later e in
      nothing_left gone (codec_decode-no_header api buffer (omega (arith, ap length gone)))
  next buffer later (p ∷ ps) (short, shorts) e =
      elim (lt_or_le (length (view buffer)) (length (packet_bytes api p))) [
        | inl few ↦
            let (mid, front, back) =
              append_split (view buffer) later (packet_bytes api p) (stream_bytes api ps) e
                (omega arith) in
            part mid front back few
        | inr many ↦
            let (rest, front, back) =
              append_split (packet_bytes api p) (stream_bytes api ps) (view buffer) later (sym e)
                many in
            whole rest
              (decode-header api p.header (length (as_slice p.contents)) buffer
                (as_slice p.contents) rest
                (front
                  ∙ append_assoc (header_bytes p.header (length (as_slice p.contents)))
                      (as_slice p.contents) rest)
                (short_length api _ short))
              (sym back)
      ]
    where
      part :
          (mid : List ℕ)
          → packet_bytes api p ≡ view buffer ++ mid
          → later ≡ mid ++ stream_bytes api ps
          → length (view buffer) < length (packet_bytes api p)
          → Next buffer later (p ∷ ps)
      part [] front back few =
          absurd (omega (arith, ap length front, length-append (view buffer) []))
      part (x ∷ more) front back few =
          part_of x (more ++ stream_bytes api ps) back
            (codec_decode-part api p buffer x more short front)

-- ===== src/Packet/Arrivals.antt =====
-- src/packet.rs: the codec of streams as it is driven, by bytes that arrive in pieces of any size
-- and calls of `decode` at any time.
use blaze_pk_rs.Prelude.{
  ℕ, ◌≡◌, refl, sym, ap, ◌∙◌, List, [], ◌∷◌, ◌++◌, append_assoc, append-nil, Option, some, none,
  length, All,
}
use mathlib.Core.Path.{subst}
use blaze_pk_rs.Buffer.{Buffers}
use blaze_pk_rs.Packet.Body.{Packet, codec_decode}
use blaze_pk_rs.Packet.Wire.{header_bytes}
use blaze_pk_rs.Packet.Stream.{
  stream_bytes, IsShort, decode-header, short_length, encode_all, view-encode_all,
}
use blaze_pk_rs.Packet.Next.{Same, Same-snoc, Next, nothing_left, part_of, whole, next}
use blaze_pk_rs.Packet.Partial.{codec_decode-keeps}

module _ (api : Buffers) where
  open api use {BytesMut, view, as_slice, extend_from_slice, extend_from_slice_lem}

  -- What is kept between calls of `decode`, and the packets that it has returned, in order.
  pub record Framed : Type 0 where
    pub buffer : BytesMut
    pub packets : List (Packet api)

  -- How a stream comes to be decoded: the bytes that have arrived so far, and the state.
  pub data Reach (start : BytesMut) : List ℕ → Framed → Type 0 where
    begin : Reach start [] (record { buffer = start; packets = [] })
    arrive :
        {arrived : List ℕ} {s : Framed} (chunk : List ℕ)
        → Reach start arrived s
        → Reach start
            (arrived ++ chunk)
            (record { buffer = extend_from_slice chunk s.buffer; packets = s.packets })
    deliver :
        {arrived : List ℕ} {s : Framed} (p : Packet api) (left : BytesMut)
        → Reach start arrived s
        → codec_decode api s.buffer ≡ some (some p, left)
        → Reach start arrived (record { buffer = left; packets = s.packets ++ p ∷ [] })
    wait :
        {arrived : List ℕ} {s : Framed} (left : BytesMut)
        → Reach start arrived s
        → codec_decode api s.buffer ≡ some (none, left)
        → Reach start arrived (record { buffer = left; packets = s.packets })

  -- What holds of a state where `later` is still to come of the stream of `ps`: it has returned
  -- the first of them, and its buffer holds what has arrived of the others.
  pub record Kept (ps : List (Packet api)) (later : List ℕ) (s : Framed) : Type 0 where
    pub done : List (Packet api)
    pub todo : List (Packet api)
    pub parts : done ++ todo ≡ ps
    pub returned : Same api s.packets done
    pub held : view s.buffer ++ later ≡ stream_bytes api todo

  All-back : (xs ys : List (Packet api)) → All (IsShort api) (xs ++ ys) → All (IsShort api) ys
  All-back [] ys h = h
  All-back (x ∷ xs) ys (h, hs) = All-back xs ys hs

  deliver-Kept :
      {ps : List (Packet api)} {later : List ℕ} (s : Framed) (p : Packet api) (left : BytesMut)
      → (done todo : List (Packet api)) → done ++ todo ≡ ps
      → Same api s.packets done
      → codec_decode api s.buffer ≡ some (some p, left)
      → Next api s.buffer later todo
      → Kept ps later (record { buffer = left; packets = s.packets ++ p ∷ [] })
  deliver-Kept s p left done todo parts same run (nothing_left _ stay) = absurd (cc)
  deliver-Kept s p left done todo parts same run (part_of _ _ _ stay) = absurd (cc)
  deliver-Kept {later} s p left done (o ∷ todo) parts same run (whole rest d e) =
      let both : ◌≡◌ {A = Option (Option (Packet api) × BytesMut)} (some (some d.packet, d.left))
          (some (some p, left)) =
        sym d.run ∙ run in
      let alike : d.packet ≡ p = cc in
      let stays : d.left ≡ left = cc in
      record {
        done = done ++ o ∷ [];
        todo = todo;
        parts = append_assoc done (o ∷ []) todo ∙ parts;
        returned =
            Same-snoc api s.packets done p o same (ap (λ q. q.header) (sym alike) ∙ d.header_eq)
              (ap (λ q. as_slice q.contents) (sym alike) ∙ d.contents_eq);
        held = ap (λ b. view b ++ later) (sym stays) ∙ ap (λ v. v ++ later) d.left_eq ∙ e;
      }

  Reach-Kept :
      {start : BytesMut} {arrived : List ℕ} {s : Framed} (ps : List (Packet api)) (later : List ℕ)
      → All (IsShort api) ps
      → view start ≡ []
      → Reach start arrived s
      → arrived ++ later ≡ stream_bytes api ps
      → Kept ps later s
  Reach-Kept ps later short empty begin e = record {
    done = [];
    todo = ps;
    parts = refl;
    returned = tt;
    held = ap (λ v. v ++ later) empty ∙ e;
  }
  Reach-Kept ps later short empty (arrive {arrived} {s} chunk r) e =
      let k =
        Reach-Kept ps (chunk ++ later) short empty r (sym (append_assoc arrived chunk later) ∙ e) in
      record {
        done = k.done;
        todo = k.todo;
        parts = k.parts;
        returned = k.returned;
        held =
            ap (λ v. v ++ later) (extend_from_slice_lem s.buffer chunk)
            ∙ append_assoc (view s.buffer) chunk later
            ∙ k.held;
      }
  Reach-Kept ps later short empty (deliver {s} p left r run) e =
      let k = Reach-Kept ps later short empty r e in
      deliver-Kept s p left k.done k.todo k.parts k.returned run (
        next api s.buffer later k.todo
          (All-back k.done k.todo (subst (All (IsShort api)) (sym k.parts) short)) k.held)
  Reach-Kept ps later short empty (wait {s} left r run) e =
      let k = Reach-Kept ps later short empty r e in
      record {
        done = k.done;
        todo = k.todo;
        parts = k.parts;
        returned = k.returned;
        held = ap (λ b. view b ++ later) (codec_decode-keeps api s.buffer left run) ∙ k.held;
      }

  sent :
      (ps : List (Packet api)) (dst : BytesMut)
      → view dst ≡ []
      → view (encode_all api ps dst) ≡ stream_bytes api ps
  sent ps dst start = view-encode_all api ps dst ∙ ap (λ v. v ++ stream_bytes api ps) start

  -- Packets of less than 2 ^ 16 bytes of contents each are encoded one after another, and their
  -- bytes arrive in pieces, with calls of `decode` between them, into a buffer that is empty at
  -- first. At any time, what has been returned is the first so many of the packets, in their order,
  -- with their headers and contents, and the buffer holds the bytes of the others that have arrived.
  pub arrivals_in_order :
      {start : BytesMut} {arrived : List ℕ} {s : Framed} (ps : List (Packet api)) (dst : BytesMut)
      (later : List ℕ)
      → All (IsShort api) ps
      → view start ≡ []
      → view dst ≡ []
      → Reach start arrived s
      → arrived ++ later ≡ view (encode_all api ps dst)
      → Kept ps later s
  arrivals_in_order ps dst later short empty start r e =
      Reach-Kept ps later short empty r (e ∙ sent ps dst start)

  -- Calls of `decode` with no arrival between them, each of which returns a packet.
  pub data Calls : Framed → Framed → Type 0 where
    stop : {s : Framed} → Calls s s
    call :
        {s t : Framed} (p : Packet api) (left : BytesMut)
        → codec_decode api s.buffer ≡ some (some p, left)
        → Calls (record { buffer = left; packets = s.packets ++ p ∷ [] }) t
        → Calls s t

  drain :
      (done todo : List (Packet api)) (s : Framed)
      → All (IsShort api) todo
      → Same api s.packets done
      → view s.buffer ≡ stream_bytes api todo
      → (t : Framed) × Calls s t × Same api t.packets (done ++ todo) × (view t.buffer ≡ [])
  drain done [] s short same e = (s, stop, rw (append-nil done) same, e)
  drain done (p ∷ todo) s (short, shorts) same e =
      let d =
        decode-header api p.header (length (as_slice p.contents)) s.buffer (as_slice p.contents)
          (stream_bytes api todo)
          (e
            ∙ append_assoc (header_bytes p.header (length (as_slice p.contents)))
                (as_slice p.contents) (stream_bytes api todo))
          (short_length api _ short) in
      let grown = Same-snoc api s.packets done d.packet p same d.header_eq d.contents_eq in
      let (t, calls, all, gone) =
        drain (done ++ p ∷ []) todo
          (record { buffer = d.left; packets = s.packets ++ d.packet ∷ [] }) shorts grown
          d.left_eq in
      (
        t,
        call d.packet d.left d.run calls,
        subst (Same api t.packets) (append_assoc done (p ∷ []) todo) all,
        gone,
      )

  -- Packets of less than 2 ^ 16 bytes of contents each are encoded one after another, and all of
  -- their bytes have arrived in pieces, with calls of `decode` between them, in a buffer that was
  -- empty at first. Then further calls of `decode` return every packet that is still to come, one at
  -- each call, so that all have been returned in order, and leave the buffer empty.
  pub arrivals_all_returned :
      {start : BytesMut} {arrived : List ℕ} {s : Framed} (ps : List (Packet api)) (dst : BytesMut)
      → All (IsShort api) ps
      → view start ≡ []
      → view dst ≡ []
      → Reach start arrived s
      → arrived ≡ view (encode_all api ps dst)
      → (t : Framed) × Calls s t × Same api t.packets ps × (view t.buffer ≡ [])
  arrivals_all_returned {s} ps dst short empty start r e =
      let k = arrivals_in_order ps dst [] short empty start r (append-nil _ ∙ e) in
      let (t, calls, all, gone) =
        drain k.done k.todo s
          (All-back k.done k.todo (subst (All (IsShort api)) (sym k.parts) short)) k.returned
          (sym (append-nil (view s.buffer)) ∙ k.held) in
      (t, calls, subst (Same api t.packets) k.parts all, gone)

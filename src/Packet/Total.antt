-- ===== src/Packet/Total.antt =====
-- The codec of streams in src/packet.rs never panics: what it reads it has tested to be there.
use blaze_pk_rs.Prelude.{
  ℕ, ◌+◌, ◌*◌, ◌≤◌, ◌≡◌, ◌≢◌, refl, ap, sym, List, [], ◌∷◌, none, Bool, true, false, ◌==◌, length,
  arith, lt→ltb, le→not_ltb, inl, inr, lt_or_le, take, drop, take-append-drop, length-take,
}
use blaze_pk_rs.Buffer.{Buffers}
use blaze_pk_rs.Packet.{PacketHeader}
use blaze_pk_rs.Packet.Header.{
  Parse, parsed, incomplete, panic, ◌>>=◌, take_u8, take_u16, read_extended, read_fields,
  read as read_header,
}
use blaze_pk_rs.Packet.Parses.{bind_parsed, bind_incomplete, take_u8-Parses, take_u16-Parses}
use blaze_pk_rs.Packet.Body.{Packet, cut, read_contents, read, commit, codec_decode}

module _ (api : Buffers) where
  open api use {BytesMut, Bytes, view, as_slice, remaining, remaining_lem, split_to_lem}

  abbrev Returns : {A : Type 0} → Parse api A → Type 0
  Returns (parsed a left) = Unit
  Returns (incomplete left) = Unit
  Returns panic = ⊥

  -- `m` returns a value from any source of at least `n` bytes, and takes exactly these.
  record Takes {A : Type 0} (n : ℕ) (m : BytesMut → Parse api A) : Type 0 where
    take_it :
        (b : BytesMut)
        → n ≤ length (view b)
        → (a : A) × (left : BytesMut) × (m b ≡ parsed a left)
          × (length (view b) ≡ n + length (view left))

  take_u8-Takes : Takes 1 (take_u8 api)
  take_u8-Takes = record { take_it = λ b h. go b (view b) refl h }
    where
      go :
          (b : BytesMut) (v : List ℕ)
          → view b ≡ v
          → 1 ≤ length (view b)
          → (a : ℕ) × (left : BytesMut) × (take_u8 api b ≡ parsed a left)
            × (length (view b) ≡ 1 + length (view left))
      go b [] e h = absurd (omega (arith, ap length e))
      go b (x ∷ rest) e h =
          let p = take_u8-Parses api b x rest e in
          (x, p.left, p.run, omega (arith, ap length e, ap length p.view_left))

  take_u16-Takes : Takes 2 (take_u16 api)
  take_u16-Takes = record { take_it = λ b h. go b (view b) refl h }
    where
      go :
          (b : BytesMut) (v : List ℕ)
          → view b ≡ v
          → 2 ≤ length (view b)
          → (a : ℕ) × (left : BytesMut) × (take_u16 api b ≡ parsed a left)
            × (length (view b) ≡ 2 + length (view left))
      go b [] e h = absurd (omega (arith, ap length e))
      go b (x ∷ []) e h = absurd (omega (arith, ap length e))
      go b (x ∷ y ∷ rest) e h =
          let p = take_u16-Parses api b x y rest e in
          (x * 256 + y, p.left, p.run, omega (arith, ap length e, ap length p.view_left))

  -- `m` does not panic on a source of at least `n` bytes.
  record Total {A : Type 0} (n : ℕ) (m : BytesMut → Parse api A) : Type 0 where
    returns : (b : BytesMut) → n ≤ length (view b) → Returns (m b)

  Total-bind :
      {A B : Type 0} (n k : ℕ) (m : BytesMut → Parse api A) (f : A → BytesMut → Parse api B)
      → Takes n m
      → ((a : A) → Total k (f a))
      → Total (n + k) (◌>>=◌ api m f)
  Total-bind n k m f t g = record {
    returns = λ b h.
        let (a, left, run, e) = t.take_it b (omega arith) in
        rw (bind_parsed api m f run) ((g a).returns left (omega arith));
  }

  Total-then :
      {A B : Type 0} (m : BytesMut → Parse api A) (f : A → BytesMut → Parse api B)
      → Total 0 m
      → ((a : A) → Total 0 (f a))
      → Total 0 (◌>>=◌ api m f)
  Total-then {A} m f t g = record { returns = λ b h. go b (m b) refl (t.returns b h) }
    where
      go : (b : BytesMut) (r : Parse api A) → m b ≡ r → Returns r → Returns (◌>>=◌ api m f b)
      go b (parsed a left) e h = rw (bind_parsed api m f e) ((g a).returns left (omega arith))
      go b (incomplete left) e h = rw (bind_incomplete api m f e) tt
      go b panic e h = absurd h

  read_extended-Total : (long : Bool) (size : ℕ) → Total 0 (read_extended api long size)
  unfolding read_extended
  read_extended-Total true size = record {
    returns = λ b h. elim (lt_or_le (length (view b)) 2) [
      | inl few ↦ rw (remaining_lem b) (rw (lt→ltb (length (view b)) 2 few) tt)
      | inr many ↦ rw (remaining_lem b) (
          rw (le→not_ltb (length (view b)) 2 many) (
            (Total-bind 2 0 (take_u16 api) (λ more. parsed (size + more)) take_u16-Takes
                (λ more. record { returns = λ c hc. tt })).returns
              b many))
    ];
  }
  read_extended-Total false size = record { returns = λ b h. tt }

  read_fields-Total : Total 12 (read_fields api)
  unfolding read_fields
  read_fields-Total = Total-bind 2 10 (take_u16 api) _ take_u16-Takes λ size.
      Total-bind 2 8 (take_u16 api) _ take_u16-Takes λ component.
        Total-bind 2 6 (take_u16 api) _ take_u16-Takes λ command.
          Total-bind 2 4 (take_u16 api) _ take_u16-Takes λ error.
            Total-bind 1 3 (take_u8 api) _ take_u8-Takes λ ty.
              Total-bind 1 2 (take_u8 api) _ take_u8-Takes λ flags.
                Total-bind 2 0 (take_u16 api) _ take_u16-Takes λ id.
                  Total-then (read_extended api (flags == 0x10) size) _
                    (read_extended-Total (flags == 0x10) size)
                    λ total. record { returns = λ b h. tt }

  read_header-Total : Total 0 (read_header api)
  unfolding read_header
  read_header-Total = record {
    returns = λ b h. elim (lt_or_le (length (view b)) 12) [
      | inl few ↦ rw (remaining_lem b) (rw (lt→ltb (length (view b)) 12 few) tt)
      | inr many ↦
          rw (remaining_lem b)
            (rw (le→not_ltb (length (view b)) 12 many) (read_fields-Total.returns b many))
    ];
  }

  read_contents-Total : (header : PacketHeader) (size : ℕ) → Total 0 (read_contents api header size)
  unfolding read_contents cut
  read_contents-Total header size = record {
    returns = λ b h. elim (lt_or_le (length (view b)) size) [
      | inl few ↦ rw (remaining_lem b) (rw (lt→ltb (length (view b)) size few) tt)
      | inr many ↦
          let (f, b', split, front, back) =
            split_to_lem b (take size (view b)) (drop size (view b))
              (sym (take-append-drop size (view b))) in
          let front_length : length (take size (view b)) ≡ size =
            omega (arith, length-take size (view b)) in
          let split' = rw front_length at split in
          rw (remaining_lem b) (rw (le→not_ltb (length (view b)) size many) (rw split' tt))
    ];
  }

  read-Total : Total 0 (read api)
  unfolding read
  read-Total =
      Total-then (read_header api) _ read_header-Total
        λ (header, size). read_contents-Total header size

  commit-Returns :
      (src : BytesMut) (r : Parse api (Packet api)) → Returns r → commit api src r ≢ none
  unfolding commit
  commit-Returns src (parsed p left) h e = absurd (cc)
  commit-Returns src (incomplete left) h e = absurd (cc)
  commit-Returns src panic h e = absurd h

  -- `decode` does not panic, whatever bytes its source holds.
  pub codec_decode-total : (src : BytesMut) → codec_decode api src ≢ none
  unfolding codec_decode
  codec_decode-total src = commit-Returns src (read api src) (read-Total.returns src (omega arith))

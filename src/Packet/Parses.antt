-- ===== src/Packet/Parses.antt =====
-- What it means that a parse takes a value and leaves the bytes `rest`.
use blaze_pk_rs.Prelude.{ℕ, ◌+◌, ◌*◌, ◌≡◌, refl, List, ◌∷◌}
use blaze_pk_rs.Buffer.{Buffers}
use blaze_pk_rs.Packet.Header.{Parse, parsed, incomplete, ◌>>=◌, take_u8, take_u16}

module _ (api : Buffers) where
  open api use {BytesMut, view, get_u8_lem, get_u16_lem}

  pub record Parses {A : Type 0} (m : BytesMut → Parse api A) (b : BytesMut) (a : A) (rest : List ℕ)
      : Type 0 where
    pub left : BytesMut
    pub run : m b ≡ parsed a left
    pub view_left : view left ≡ rest

  pub Parses-pure :
      {A : Type 0} (a : A) (b : BytesMut) {rest : List ℕ}
      → view b ≡ rest
      → Parses (parsed a) b a rest
  Parses-pure a b e = record { left = b; run = refl; view_left = e }

  pub Parses-bind :
      {A B : Type 0} (m : BytesMut → Parse api A) (f : A → BytesMut → Parse api B) {b : BytesMut}
      {a : A} {v : B} {mid rest : List ℕ}
      → Parses m b a mid
      → ((c : BytesMut) → view c ≡ mid → Parses (f a) c v rest)
      → Parses (◌>>=◌ api m f) b v rest
  unfolding ◌>>=◌
  Parses-bind m f h g =
      let next = g h.left h.view_left in
      record { left = next.left; run = rw (h.run, ◌>>=◌) next.run; view_left = next.view_left }

  module _ {A B : Type 0} (m : BytesMut → Parse api A) (f : A → BytesMut → Parse api B) where
    pub bind_parsed : {b c : BytesMut} {a : A} → m b ≡ parsed a c → ◌>>=◌ api m f b ≡ f a c
    unfolding ◌>>=◌
    bind_parsed e = rw (e, ◌>>=◌) refl

    pub bind_incomplete : {b c : BytesMut} → m b ≡ incomplete c → ◌>>=◌ api m f b ≡ incomplete c
    unfolding ◌>>=◌
    bind_incomplete e = rw (e, ◌>>=◌) refl

  pub take_u16-Parses :
      (b : BytesMut) (x y : ℕ) (rest : List ℕ)
      → view b ≡ x ∷ y ∷ rest
      → Parses (take_u16 api) b (x * 256 + y) rest
  unfolding take_u16
  take_u16-Parses b x y rest e =
      let (left, run, seen) = get_u16_lem b x y rest e in
      record { left = left; run = rw run; view_left = seen }

  pub take_u8-Parses :
      (b : BytesMut) (x : ℕ) (rest : List ℕ) → view b ≡ x ∷ rest → Parses (take_u8 api) b x rest
  unfolding take_u8
  take_u8-Parses b x rest e =
      let (left, run, seen) = get_u8_lem b x rest e in
      record { left = left; run = rw run; view_left = seen }

-- ===== src/Packet/Wire.antt =====
-- The bytes of a header, and how they are read back.
use mathlib.Core.Path.{subst, ap₂}
use blaze_pk_rs.Prelude.{
  ℕ, ◌+◌, ◌/◌, ◌%◌, ◌^◌, ◌≤◌, ◌≡◌, ◌∙◌, bit_and, List, [], ◌∷◌, ◌++◌, append_assoc, true, false,
  ltb, ◌==◌, if◌then◌else◌, length, arith, le→not_ltb, inl, inr, Bool-cases,
}
use blaze_pk_rs.Prelude.Bits.{bit_and_byte}
use blaze_pk_rs.Buffer.{Buffers}
use blaze_pk_rs.PacketType.{type_code, from_u8-type_code}
use blaze_pk_rs.Packet.{PacketHeader}
use blaze_pk_rs.Packet.Header.{parsed, take_u16, read_extended, read_fields, read, write}
use blaze_pk_rs.Packet.Parses.{Parses, Parses-pure, Parses-bind, take_u8-Parses, take_u16-Parses}

-- The twelve bytes that every header has; `flag` says whether two more follow.
abbrev fixed_bytes : PacketHeader → ℕ → ℕ → List ℕ
fixed_bytes h size flag =
    (size / 256)
    ∷ (size % 256)
    ∷ (h.component / 256)
    ∷ (h.component % 256)
    ∷ (h.command / 256)
    ∷ (h.command % 256)
    ∷ (h.error / 256)
    ∷ (h.error % 256)
    ∷ type_code h.ty
    ∷ flag
    ∷ (h.id / 256)
    ∷ (h.id % 256)
    ∷ []

-- The length that a header of contents of `size` bytes gives after its fixed bytes: bytes 24 to 31
-- and 16 to 23 of the length, where it does not fit 16 bits.
abbrev pub header_bytes : PacketHeader → ℕ → List ℕ
header_bytes h size =
    if ltb 0xffff size
    then fixed_bytes h (size % 2 ^ 16) 0x10 ++ (size / 2 ^ 24 % 256) ∷ (size / 2 ^ 16 % 256) ∷ []
    else fixed_bytes h (size % 2 ^ 16) 0x00

-- The length that `read` makes of these bytes: the two halves of an extended length are added.
abbrev pub read_length : ℕ → ℕ
read_length size = if ltb 0xffff size then size % 2 ^ 16 + size / 2 ^ 16 % 2 ^ 16 else size

byte_3 : (size : ℕ) → bit_and size 0xff000000 / 2 ^ 24 % 256 ≡ size / 2 ^ 24 % 256
byte_3 size = omega (arith, bit_and_byte 24 size)

byte_2 : (size : ℕ) → bit_and size 0x00ff0000 / 2 ^ 16 % 256 ≡ size / 2 ^ 16 % 256
byte_2 size = omega (arith, bit_and_byte 16 size)

-- The two bytes of an extended length.
halves :
    (size : ℕ) (rest : List ℕ)
    → (size / 2 ^ 24 % 256) ∷ (size / 2 ^ 16 % 256) ∷ rest
      ≡ (size / 2 ^ 16 % 2 ^ 16 / 256) ∷ (size / 2 ^ 16 % 2 ^ 16 % 256) ∷ rest
halves size rest = ap₂ (λ (x y : ℕ). x ∷ y ∷ rest) (omega arith) (omega arith)

module _ (api : Buffers) where
  open api use {BytesMut, view, remaining, remaining_lem, put_u8_lem, put_u16_lem}

  -- `write` appends these bytes.
  pub view-write :
      (h : PacketHeader) (size : ℕ) (dst : BytesMut)
      → view (write api h size dst) ≡ view dst ++ header_bytes h size
  unfolding write
  view-write h size dst = elim (Bool-cases (ltb 0xffff size)) [
    | inl long ↦ rw long (simp (put_u8_lem, put_u16_lem, append_assoc, byte_3 size, byte_2 size))
    | inr short ↦ rw short (simp (put_u8_lem, put_u16_lem, append_assoc))
  ]

  take_field :
      (b : BytesMut) (x : ℕ) (rest : List ℕ)
      → view b ≡ (x / 256) ∷ (x % 256) ∷ rest
      → Parses api (take_u16 api) b x rest
  take_field b x rest e =
      subst (λ v. Parses api (take_u16 api) b v rest) (omega arith)
        (take_u16-Parses api b (x / 256) (x % 256) rest e)

  enough :
      (b : BytesMut) (n : ℕ) {xs : List ℕ}
      → view b ≡ xs
      → n ≤ length xs
      → ltb (remaining b) n ≡ false
  enough b n e h = rw (remaining_lem b) (rw e (le→not_ltb _ n h))

  read_extended-Parses :
      (size more : ℕ) (b : BytesMut) (rest : List ℕ)
      → view b ≡ (more / 256) ∷ (more % 256) ∷ rest
      → Parses api (read_extended api true size) b (size + more) rest
  unfolding read_extended
  read_extended-Parses size more b rest e =
      let p =
        Parses-bind api (take_u16 api) (λ m. parsed (size + m)) {b = b} {v = size + more}
          {rest = rest} (take_field b more rest e) (λ c e'. Parses-pure api (size + more) c e') in
      record { left = p.left; run = rw (enough b 2 e (omega arith)) p.run; view_left = p.view_left }

  -- The fixed bytes, and what the flag asks for.
  read_fields-Parses :
      (h : PacketHeader) (size flag total : ℕ) (b : BytesMut) (tail rest : List ℕ)
      → view b ≡ fixed_bytes h size flag ++ tail
      → ((c : BytesMut)
          → view c ≡ tail
          → Parses api (read_extended api (flag == 0x10) size) c total rest)
      → Parses api (read_fields api) b (h, total) rest
  unfolding read_fields
  read_fields-Parses h size flag total b tail rest e k =
      Parses-bind api _ _ (take_field b size _ e) λ b1 e1.
        Parses-bind api _ _ (take_field b1 h.component _ e1) λ b2 e2.
          Parses-bind api _ _ (take_field b2 h.command _ e2) λ b3 e3.
            Parses-bind api _ _ (take_field b3 h.error _ e3) λ b4 e4.
              Parses-bind api _ _ (take_u8-Parses api b4 (type_code h.ty) _ e4) λ b5 e5.
                Parses-bind api _ _ (take_u8-Parses api b5 flag _ e5) λ b6 e6.
                  Parses-bind api _ _ (take_field b6 h.id _ e6) λ b7 e7.
                    Parses-bind api _ _ (k b7 e7)
                      λ b8 e8. rw (from_u8-type_code h.ty) (Parses-pure api (h, total) b8 e8)

  read-Parses :
      (h : PacketHeader) (size flag total : ℕ) (b : BytesMut) (tail rest : List ℕ)
      → view b ≡ fixed_bytes h size flag ++ tail
      → ((c : BytesMut)
          → view c ≡ tail
          → Parses api (read_extended api (flag == 0x10) size) c total rest)
      → Parses api (read api) b (h, total) rest
  unfolding read
  read-Parses h size flag total b tail rest e k =
      let p = read_fields-Parses h size flag total b tail rest e k in
      record {
        left = p.left;
        run = rw (enough b 12 e (omega arith)) p.run;
        view_left = p.view_left;
      }

  -- `read` takes exactly the bytes that `write` appends for a header, and returns that header.
  -- The length it returns is the one written where that fits 16 bits.
  pub read-write :
      (h : PacketHeader) (size : ℕ) (b : BytesMut) (rest : List ℕ)
      → view b ≡ header_bytes h size ++ rest
      → Parses api (read api) b (h, read_length size) rest
  read-write h size b rest e = elim (Bool-cases (ltb 0xffff size)) [
    | inl long ↦
        let more = size / 2 ^ 16 % 2 ^ 16 in
        rw long (
          read-Parses h (size % 2 ^ 16) 0x10 (size % 2 ^ 16 + more) b _ rest (rw long at e)
            λ c ec. read_extended-Parses (size % 2 ^ 16) more c rest (ec ∙ halves size rest))
    | inr short ↦
        let low : size % 2 ^ 16 ≡ size = ground arith in
        rw short (
          subst (λ n. Parses api (read api) b (h, n) rest) low
            (read-Parses h (size % 2 ^ 16) 0x00 (size % 2 ^ 16) b rest rest (rw short at e)
              λ c ec. unfold read_extended in Parses-pure api (size % 2 ^ 16) c ec))
  ]

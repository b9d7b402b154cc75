-- ===== src/Reader/Reads.antt =====
-- What it means that a read takes exactly the bytes `xs` for the value `a`.
use blaze_pk_rs.Prelude.{
  ℕ, ◌+◌, ◌^◌, ◌<◌, ◌≤◌, ◌≡◌, refl, sym, ap, ◌∙◌, List, [], ◌∷◌, ◌++◌, append_assoc, append-nil,
  length, length-append, arith, lt→ltb, le→leb, le→not_ltb, get_elem?-append, take-append,
  drop-append, take, drop, ◌-◌,
}
use mathlib.Core.Path.{subst}
use blaze_pk_rs.Reader.Bind.{bind_ok}
use blaze_pk_rs.Reader.{
  TdfReader, Reader, ok, ◌>>=◌, pure, read_byte, read_byte_4, read_slice, usize_mod, end_of,
  expect_length, advance, slice_to, peek, byte_or_abort,
}

-- The reader whose cursor stands between `front` and `back`.
abbrev pub between : List ℕ → List ℕ → TdfReader
between front back = record { buffer = front ++ back; cursor = length front }

-- No slice is longer than `isize::MAX` bytes.
abbrev pub slice_limit : ℕ
slice_limit = 2 ^ 63

module _ {A : Type 0} where
  -- Wherever `xs` stands next in a buffer, `m` returns `a` and leaves the cursor behind it.
  pub record Reads (m : Reader A) (xs : List ℕ) (a : A) : Type 0 where
    pub run :
        (front back : List ℕ)
        → length (front ++ (xs ++ back)) < slice_limit
        → m (between front (xs ++ back)) ≡ ok a (between (front ++ xs) back)

pub Reads-pure : {A : Type 0} (a : A) → Reads (pure a) [] a
Reads-pure a = record {
  run = λ front back h. ap (ok a) (ap (λ f. between f back) (sym (append-nil front)));
}

between_step :
    (front xs back : List ℕ) {n : ℕ}
    → n ≡ length front + length xs
    → record { buffer = front ++ (xs ++ back); cursor = n } ≡ between (front ++ xs) back
between_step front xs back e = λ i. record {
  buffer = sym (append_assoc front xs back) i;
  cursor = (e ∙ sym (length-append front xs)) i;
}

module _ {A B : Type 0} (m : Reader A) (f : A → Reader B) where
  pub Reads-bind :
      {xs ys : List ℕ} {a : A} {b : B}
      → Reads m xs a
      → Reads (f a) ys b
      → Reads (m >>= f) (xs ++ ys) b
  Reads-bind {xs} {ys} {a} {b} hm hf = record {
    run = λ front back h.
        let whole : length (front ++ (xs ++ (ys ++ back))) < slice_limit = rw append_assoc at h in
        let regrouped : length ((front ++ xs) ++ (ys ++ back)) < slice_limit =
          rw append_assoc whole in
        rw (append_assoc xs ys back) (
          bind_ok m f (hm.run front (ys ++ back) whole)
          ∙ hf.run (front ++ xs) back regrouped
          ∙ ap (λ t. ok b (between t back)) (append_assoc front xs ys));
  }

module _ (r : TdfReader) (n : ℕ) (fits : length r.buffer < slice_limit)
    (room : r.cursor + n ≤ length r.buffer) where
  end_of_lem : end_of n r ≡ ok (r.cursor + n) r
  unfolding end_of
  end_of_lem = rw (lt→ltb (r.cursor + n) usize_mod (omega arith))

  pub expect_length_lem : expect_length n r ≡ ok tt r
  unfolding expect_length
  expect_length_lem = bind_ok _ _ end_of_lem ∙ rw (le→not_ltb _ _ room)

  pub advance_lem : advance n r ≡ ok tt (record r { cursor = r.cursor + n })
  unfolding advance
  advance_lem = bind_ok _ _ end_of_lem

module _ (r : TdfReader) where
  pub slice_to_lem :
      (end : ℕ)
      → r.cursor ≤ end
      → end ≤ length r.buffer
      → slice_to end r ≡ ok (take (end - r.cursor) (drop r.cursor r.buffer)) r
  unfolding slice_to
  slice_to_lem end h k = rw (le→leb _ _ h) (rw (le→leb _ _ k))

-- The bytes between the cursor and `length xs` bytes on.
slice_between :
    (front xs back : List ℕ) (n : ℕ)
    → n ≡ length xs
    → slice_to (length front + n) (between front (xs ++ back)) ≡ ok xs (between front (xs ++ back))
slice_between front xs back n e =
    slice_to_lem (between front (xs ++ back)) (length front + n) (omega arith)
      (omega (arith, length-append front (xs ++ back), length-append xs back))
    ∙ ap (λ t. ok t (between front (xs ++ back)))
        (rw (drop-append front (xs ++ back))
          (subst (λ k. take k (xs ++ back) ≡ xs) (omega arith) (take-append xs back)))

pub read_slice-Reads : (xs : List ℕ) → Reads (read_slice (length xs)) xs xs
unfolding read_slice
read_slice-Reads xs = record {
  run = λ front back h.
      let r = between front (xs ++ back) in
      let room : length front + length xs ≤ length (front ++ (xs ++ back)) =
        omega (arith, length-append front (xs ++ back), length-append xs back) in
      bind_ok _ _ (expect_length_lem r (length xs) h room)
      ∙ bind_ok _ _ (end_of_lem r (length xs) h room)
      ∙ bind_ok _ _ (slice_between front xs back (length xs) refl)
      ∙ bind_ok _ _ (advance_lem r (length xs) h room)
      ∙ ap (ok xs) (between_step front xs back refl);
}

pub read_byte-Reads : (byte : ℕ) → Reads read_byte (byte ∷ []) byte
unfolding read_byte peek
read_byte-Reads byte = record {
  run = λ front back h.
      let r = between front (byte ∷ back) in
      let room : length front + 1 ≤ length (front ++ byte ∷ back) =
        omega (arith, length-append front (byte ∷ back)) in
      bind_ok _ _ (expect_length_lem r 1 h room)
      ∙ bind_ok _ _ (ap (λ o. byte_or_abort o r) (get_elem?-append front byte back))
      ∙ bind_ok _ _ (advance_lem r 1 h room)
      ∙ ap (ok byte) (between_step front (byte ∷ []) back refl);
}

pub read_byte_4-Reads : (a b c d : ℕ) → Reads read_byte_4 (a ∷ b ∷ c ∷ d ∷ []) (a, b, c, d)
unfolding read_byte_4
read_byte_4-Reads a b c d = record {
  run = λ front back h.
      let xs : List ℕ = a ∷ b ∷ c ∷ d ∷ [] in
      let r = between front (xs ++ back) in
      let room : length front + 4 ≤ length (front ++ (xs ++ back)) =
        omega (arith, length-append front (xs ++ back)) in
      bind_ok _ _ (expect_length_lem r 4 h room)
      ∙ bind_ok _ _ (end_of_lem r 4 h room)
      ∙ bind_ok _ _ (slice_between front xs back 4 refl)
      ∙ bind_ok _ _ refl
      ∙ bind_ok _ _ (advance_lem r 4 h room)
      ∙ ap (ok (a, b, c, d)) (between_step front xs back refl);
}

pub peek-between :
    (front : List ℕ) (byte : ℕ) (back : List ℕ)
    → peek (between front (byte ∷ back)) ≡ ok byte (between front (byte ∷ back))
unfolding peek byte_or_abort
peek-between front byte back =
    ap (λ o. byte_or_abort o (between front (byte ∷ back))) (get_elem?-append front byte back)

pub advance-between :
    (front xs back : List ℕ)
    → length (front ++ (xs ++ back)) < slice_limit
    → advance (length xs) (between front (xs ++ back)) ≡ ok tt (between (front ++ xs) back)
advance-between front xs back h =
    let room : length front + length xs ≤ length (front ++ (xs ++ back)) =
      omega (arith, length-append front (xs ++ back), length-append xs back) in
    advance_lem (between front (xs ++ back)) (length xs) h room
    ∙ ap (ok tt) (between_step front xs back refl)

-- A length test, and then a move of the cursor.
pub skip_slice-Reads :
    (xs : List ℕ) → Reads (expect_length (length xs) >>= λ _. advance (length xs)) xs tt
skip_slice-Reads xs = record {
  run = λ front back h.
      let room : length front + length xs ≤ length (front ++ (xs ++ back)) =
        omega (arith, length-append front (xs ++ back), length-append xs back) in
      bind_ok _ _ (expect_length_lem (between front (xs ++ back)) (length xs) h room)
      ∙ advance-between front xs back h;
}

-- How many bytes are left.
pub left-between : (front back : List ℕ) → length (front ++ back) - length front ≡ length back
left-between front back = omega (arith, length-append front back)

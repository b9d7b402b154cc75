-- ===== src/Types/Text/Laws.antt =====
-- The law of strings.
use mathlib.Core.Path.{subst}
use blaze_pk_rs.Prelude.{
  ℕ, ◌+◌, ◌^◌, ◌<◌, ◌≡◌, refl, sym, ap, ◌∙◌, List, [], ◌∷◌, ◌++◌, append_assoc, append-nil, true,
  false, ◌==◌, if◌then◌else◌, length, length-append, All, arith, inl, inr, Bool-cases,
}
use blaze_pk_rs.Reader.{pure}
use blaze_pk_rs.Reader.VarInt.{read_usize}
use blaze_pk_rs.Reader.Reads.{Reads, Reads-pure, Reads-bind, read_slice-Reads, skip_slice-Reads}
use blaze_pk_rs.Reader.Skip.{skip_nested, skip_by_type, skip_blob}
use blaze_pk_rs.Writer.Writes.{Writes, Writes-then, write_slice-Writes}
use blaze_pk_rs.VarInt.{Encodes}
use blaze_pk_rs.VarInt.RoundTrip.{write_usize-IntTrips}
use blaze_pk_rs.Codec.{Lawful, RoundTrips}
use blaze_pk_rs.Types.Text.{
  encode_char, as_bytes, from_utf8_lossy, pop, ends_in_zero, terminated, write_str, read_blob,
  read_string, string_codec,
}
use blaze_pk_rs.Types.Text.Utf8.{IsScalar, length-encode_char, from_utf8_lossy-as_bytes}

pop-append : (cs : List ℕ) → pop (cs ++ 0 ∷ []) ≡ cs
unfolding pop
pop-append [] = refl
pop-append (c ∷ []) = refl
pop-append (c ∷ d ∷ cs) = ap (◌∷◌ c) (pop-append (d ∷ cs))

ends_in_zero-append :
    (xs : List ℕ) (y : ℕ) (ys : List ℕ) → ends_in_zero (xs ++ y ∷ ys) ≡ ends_in_zero (y ∷ ys)
unfolding ends_in_zero
ends_in_zero-append [] y ys = refl
ends_in_zero-append (x ∷ []) y ys = refl
ends_in_zero-append (x ∷ z ∷ xs) y ys = ends_in_zero-append (z ∷ xs) y ys

ends_in_zero-encode_char : (c : ℕ) → ends_in_zero (encode_char c) ≡ (c == 0)
unfolding ends_in_zero encode_char
ends_in_zero-encode_char c = ground arith

as_bytes-append : (cs ds : List ℕ) → as_bytes (cs ++ ds) ≡ as_bytes cs ++ as_bytes ds
unfolding as_bytes
as_bytes-append [] ds = refl
as_bytes-append (c ∷ cs) ds =
    ap (λ xs. encode_char c ++ xs) (as_bytes-append cs ds)
    ∙ sym (append_assoc (encode_char c) (as_bytes cs) (as_bytes ds))

as_bytes-cons : (c : ℕ) (cs : List ℕ) → (b : ℕ) × (bs : List ℕ) × (as_bytes (c ∷ cs) ≡ b ∷ bs)
unfolding as_bytes
as_bytes-cons c cs = go (encode_char c) refl
  where
    go :
        (xs : List ℕ)
        → encode_char c ≡ xs
        → (b : ℕ) × (bs : List ℕ) × (encode_char c ++ as_bytes cs ≡ b ∷ bs)
    go [] e = absurd (omega (arith, ap length e, length-encode_char c))
    go (b ∷ bs) e = (b, bs ++ as_bytes cs, ap (λ xs. xs ++ as_bytes cs) e)

ends_in_zero-as_bytes : (cs : List ℕ) → ends_in_zero (as_bytes cs) ≡ ends_in_zero cs
unfolding as_bytes
ends_in_zero-as_bytes [] = refl
ends_in_zero-as_bytes (c ∷ []) =
    unfold ends_in_zero in
    (ap ends_in_zero (append-nil (encode_char c)) ∙ ends_in_zero-encode_char c)
ends_in_zero-as_bytes (c ∷ d ∷ cs) =
    let (b, bs, e) = as_bytes-cons d cs in
    ap (λ xs. ends_in_zero (encode_char c ++ xs)) e
    ∙ ends_in_zero-append (encode_char c) b bs
    ∙ ap ends_in_zero (sym e)
    ∙ ends_in_zero-as_bytes (d ∷ cs)
    ∙ unfold ends_in_zero in refl

as_bytes-append_zero : (cs : List ℕ) → as_bytes (cs ++ 0 ∷ []) ≡ as_bytes cs ++ 0 ∷ []
as_bytes-append_zero cs = as_bytes-append cs (0 ∷ []) ∙ unfold as_bytes encode_char in refl

-- The bytes that are written for a string that does not end in a zero.
terminated-as_bytes :
    (cs : List ℕ) → ends_in_zero cs ≡ false → terminated (as_bytes cs) ≡ as_bytes (cs ++ 0 ∷ [])
unfolding terminated
terminated-as_bytes cs h = rw (ends_in_zero-as_bytes cs) (rw h (sym (as_bytes-append_zero cs)))

All-append_zero : (cs : List ℕ) → All IsScalar cs → All IsScalar (cs ++ 0 ∷ [])
All-append_zero [] all = (record { below = omega arith; no_surrogate = inl (omega arith) }, tt)
All-append_zero (c ∷ cs) (s, all) = (s, All-append_zero cs all)

read_blob-Reads :
    (xs : List ℕ) (h : length xs < 2 ^ 63)
    → Reads read_blob ((write_usize-IntTrips (length xs) (omega arith)).bytes ++ xs) xs
unfolding read_blob
read_blob-Reads xs h =
    Reads-bind read_usize _ (write_usize-IntTrips (length xs) (omega arith)).reads
      (read_slice-Reads xs)

-- The law of a string, with the bytes that it is encoded to: the number of those that follow, those
-- of its characters, and a zero.
pub record StringLawful (cs : List ℕ) : Type 0 where
  pub law : Lawful string_codec cs
  pub number : List ℕ
  pub encodes : Encodes (length (as_bytes cs) + 1) number
  pub bytes : law.bytes ≡ number ++ (as_bytes cs ++ 0 ∷ [])

-- A string that does not end in a zero and takes less than 2 ^ 63 - 1 bytes is encoded as the number
-- of its bytes and one more, its bytes in UTF-8, and a zero behind them. It is decoded to itself,
-- with no character replaced, and skipped.
pub string-StringLawful :
    (cs : List ℕ)
    → All IsScalar cs
    → ends_in_zero cs ≡ false
    → length (as_bytes (cs ++ 0 ∷ [])) < 2 ^ 63
    → StringLawful cs
unfolding string_codec write_str read_string skip_nested skip_by_type skip_blob
string-StringLawful cs all open_end h =
    let xs = as_bytes (cs ++ 0 ∷ []) in
    let n = write_usize-IntTrips (length xs) (omega arith) in
    let back : pop (from_utf8_lossy xs) ≡ cs =
      ap pop (from_utf8_lossy-as_bytes (cs ++ 0 ∷ []) (All-append_zero cs all)) ∙ pop-append cs in
    let size : length xs ≡ length (as_bytes cs) + 1 =
      ap length (as_bytes-append_zero cs) ∙ length-append (as_bytes cs) (0 ∷ []) in
    record {
      law = record {
        bytes = n.bytes ++ xs;
        writes =
            rw (terminated-as_bytes cs open_end) (Writes-then n.writes (write_slice-Writes xs));
        reads =
            subst (λ ys. Reads read_string ys cs) (append-nil (n.bytes ++ xs))
              (Reads-bind read_blob _ (read_blob-Reads xs h) (
                subst (λ v. Reads (pure (pop (from_utf8_lossy xs))) [] v) back
                  (Reads-pure (pop (from_utf8_lossy xs)))));
        skips = λ depth d. Reads-bind read_usize _ n.reads (skip_slice-Reads xs);
      };
      number = n.bytes;
      encodes = subst (λ v. Encodes v n.bytes) size n.code;
      bytes = ap (λ ys. n.bytes ++ ys) (as_bytes-append_zero cs);
    }

-- A string from the bytes behind their length.
read_string-Reads :
    (xs v : List ℕ) (h : length xs < 2 ^ 63)
    → pop (from_utf8_lossy xs) ≡ v
    → Reads read_string ((write_usize-IntTrips (length xs) (omega arith)).bytes ++ xs) v
unfolding read_string
read_string-Reads xs v h back =
    subst (λ ys. Reads read_string ys v)
      (append-nil ((write_usize-IntTrips (length xs) (omega arith)).bytes ++ xs))
      (Reads-bind read_blob _ (read_blob-Reads xs h) (
        subst (λ u. Reads (pure (pop (from_utf8_lossy xs))) [] u) back
          (Reads-pure (pop (from_utf8_lossy xs)))))

terminated-zero : (cs : List ℕ) → ends_in_zero cs ≡ true → terminated (as_bytes cs) ≡ as_bytes cs
unfolding terminated
terminated-zero cs h = rw (ends_in_zero-as_bytes cs) (rw h refl)

write_str-Writes :
    (cs xs : List ℕ) (h : length xs < 2 ^ 63)
    → terminated (as_bytes cs) ≡ xs
    → Writes (write_str cs) ((write_usize-IntTrips (length xs) (omega arith)).bytes ++ xs)
unfolding write_str
write_str-Writes cs xs h e =
    rw e
      (Writes-then (write_usize-IntTrips (length xs) (omega arith)).writes (write_slice-Writes xs))

-- The bytes that a string is sent as, and what they are read as.
sent :
    (cs xs v : List ℕ)
    → length xs < 2 ^ 63
    → terminated (as_bytes cs) ≡ xs
    → pop (from_utf8_lossy xs) ≡ v
    → RoundTrips (write_str cs) read_string v
sent cs xs v h e back = record {
  bytes = (write_usize-IntTrips (length xs) (omega arith)).bytes ++ xs;
  writes = write_str-Writes cs xs h e;
  reads = read_string-Reads xs v h back;
}

-- Every string of less than 2 ^ 63 - 1 bytes comes back as itself, or, where it ends in a zero, as the
-- string without that zero: `write_str` takes it for the terminator that `read_string` drops.
pub write_str-RoundTrips :
    (cs : List ℕ)
    → All IsScalar cs
    → length (as_bytes (cs ++ 0 ∷ [])) < 2 ^ 63
    → RoundTrips (write_str cs) read_string (if ends_in_zero cs then pop cs else cs)
write_str-RoundTrips cs all h = elim (Bool-cases (ends_in_zero cs)) [
  | inl zero_end ↦ rw zero_end (
      sent cs (as_bytes cs) (pop cs)
        (omega (
          arith,
          ap length (as_bytes-append cs (0 ∷ [])),
          length-append (as_bytes cs) (as_bytes (0 ∷ [])),
        ))
        (terminated-zero cs zero_end) (ap pop (from_utf8_lossy-as_bytes cs all)))
  | inr open_end ↦ rw open_end (
      sent cs (as_bytes (cs ++ 0 ∷ [])) cs h (terminated-as_bytes cs open_end)
        (ap pop (from_utf8_lossy-as_bytes (cs ++ 0 ∷ []) (All-append_zero cs all)) ∙ pop-append cs))
]

-- What is shown of a string that was written.
pub pop-terminated :
    (cs : List ℕ)
    → All IsScalar cs
    → pop (from_utf8_lossy (terminated (as_bytes cs))) ≡ (if ends_in_zero cs then pop cs else cs)
pop-terminated cs all = elim (Bool-cases (ends_in_zero cs)) [
  | inl zero_end ↦
      rw zero_end (rw (terminated-zero cs zero_end) (ap pop (from_utf8_lossy-as_bytes cs all)))
  | inr open_end ↦ rw open_end (
      rw (terminated-as_bytes cs open_end)
        (ap pop (from_utf8_lossy-as_bytes (cs ++ 0 ∷ []) (All-append_zero cs all)) ∙ pop-append cs))
]

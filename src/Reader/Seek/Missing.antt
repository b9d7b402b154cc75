-- ===== src/Reader/Seek/Missing.antt =====
-- What `until_tag`, `try_until_tag` and `try_tag` answer for a field that is not there.
use blaze_pk_rs.Prelude.{
  ℕ, ◌+◌, ◌-◌, ◌≤◌, ◌<◌, ◌≡◌, refl, sym, ap, ◌∙◌, List, [], ◌++◌, append-nil, none, length,
  length-append, All, arith, lt→ltb,
}
use blaze_pk_rs.Tag.{TdfType}
use blaze_pk_rs.TagFormat.{visible_tag}
use blaze_pk_rs.Error.{missing_tag, unexpected_eof}
use blaze_pk_rs.Reader.Bind.{bind_ok, bind_err}
use blaze_pk_rs.Reader.{
  TdfReader, ok, err, pure, usize_mod, end_of, eof, len, expect_length, read_byte_4,
}
use blaze_pk_rs.Reader.Keeps.{len_lem}
use blaze_pk_rs.Reader.Reads.{between, slice_limit}
use blaze_pk_rs.Reader.Tagged.{read_tag}
use blaze_pk_rs.Reader.Seek.{
  until_tag_round, until_tag_loop, until_tag, reset, tag, try_tag, try_tag_end,
}
use blaze_pk_rs.Reader.Seek.Attempt.{attempt_err}
use blaze_pk_rs.Reader.Seek.Finds.{Field, fields_bytes, Passes}
use blaze_pk_rs.Reader.Seek.Fields.{IsName, until_tag-fields}
use blaze_pk_rs.Codec.{Codec}

expect_length-short :
    (r : TdfReader) (n : ℕ)
    → r.cursor ≤ length r.buffer
    → r.cursor + n < usize_mod
    → length r.buffer < r.cursor + n
    → expect_length n r ≡ err (unexpected_eof r.cursor n (length r.buffer - r.cursor)) r
unfolding expect_length end_of eof
expect_length-short r n v small short =
    let inside : end_of n r ≡ ok (r.cursor + n) r =
      rw (lt→ltb (r.cursor + n) usize_mod small) refl in
    bind_ok (end_of n) _ inside
    ∙ rw (lt→ltb (length r.buffer) (r.cursor + n) short) (bind_ok len _ (len_lem r v))

read_tag-end :
    (front : List ℕ)
    → length front < slice_limit
    → read_tag (between front [])
      ≡ err
          (unexpected_eof (length front) 4 (length (front ++ []) - length front))
          (between front [])
unfolding read_tag read_byte_4
read_tag-end front fits = bind_err read_byte_4 _ (
    bind_err (expect_length 4) _ (
      expect_length-short (between front []) 4 (omega (arith, length-append front [])) (omega arith)
        (omega (arith, length-append front []))))

module _ (name : List ℕ) (is_name : IsName name) (fs : List Field) (front : List ℕ)
    (others : All (Passes (visible_tag name)) fs)
    (fits : length (front ++ fields_bytes fs) < slice_limit) where
  -- Among fields with other tags that fill the rest of a buffer of less than 2 ^ 63 bytes,
  -- `until_tag` passes over all of them and reports its tag as missing. The name has at most four
  -- characters, each of which a tag can hold.
  pub until_tag-missing :
      (ty : TdfType)
      → until_tag name ty (between front (fields_bytes fs))
        ≡ err (missing_tag (visible_tag name) ty) (between (front ++ fields_bytes fs) [])
  unfolding until_tag_loop until_tag_round
  until_tag-missing ty =
      let fits' : length (front ++ (fields_bytes fs ++ [])) < slice_limit =
        rw (append-nil (fields_bytes fs)) fits in
      let (k, start) = until_tag-fields name ty is_name fs front [] others fits' in
      ap (λ xs. until_tag name ty (between front xs)) (sym (append-nil (fields_bytes fs)))
      ∙ start
      ∙ attempt_err read_tag _ (read_tag-end (front ++ fields_bytes fs) fits)

  -- Among fields with other tags that fill the rest of a buffer of less than 2 ^ 63 bytes,
  -- `try_tag` returns `None` and leaves the reader as it was, so that the fields may still be read.
  -- The name has at most four characters, each of which a tag can hold.
  pub try_tag-missing :
      {C : Type 0} (c : Codec C)
      → try_tag c name (between front (fields_bytes fs)) ≡ ok none (between front (fields_bytes fs))
  unfolding try_tag tag try_tag_end reset
  try_tag-missing c =
      let r = between front (fields_bytes fs) in
      attempt_err (tag c name) (try_tag_end c (length front))
        (bind_err (until_tag name c.value_type) (λ _. c.decode) (until_tag-missing c.value_type))
      ∙ bind_ok (reset (length front)) (λ _. pure none) {r = between (front ++ fields_bytes fs) []}
          refl
      ∙ ap (λ xs. ok none (record { buffer = xs; cursor = length front }))
          (append-nil (front ++ fields_bytes fs))

  -- Among fields with other tags that fill the rest of a buffer of less than 2 ^ 63 bytes,
  -- `until_tag` passes over all of them and reports its tag as missing, and `try_tag` returns `None`
  -- and leaves the reader as it was, so that the fields may still be read. The name has at most
  -- four characters, each of which a tag can hold.
  pub missing_lem :
      {C : Type 0} (c : Codec C) (ty : TdfType)
      → (until_tag name ty (between front (fields_bytes fs))
          ≡ err (missing_tag (visible_tag name) ty) (between (front ++ fields_bytes fs) []))
        × (try_tag c name (between front (fields_bytes fs))
            ≡ ok none (between front (fields_bytes fs)))
  missing_lem c ty = (until_tag-missing ty, try_tag-missing c)

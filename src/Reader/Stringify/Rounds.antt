-- ===== src/Reader/Stringify/Rounds.antt =====
-- What the text of all that is in the buffer consists of.
use blaze_pk_rs.Prelude.{
  ℕ, zero, suc, ◌+◌, ◌-◌, ◌≤◌, ◌<◌, ◌≡◌, refl, ap, inl, inr, Bool-cases, ◌++◌, ltb, length, arith,
}
use blaze_pk_rs.Text.{Text, Formats, codes, decimal}
use blaze_pk_rs.Text.Debug.{error_debug}
use blaze_pk_rs.Error.{DecodeError}
use blaze_pk_rs.Reader.{TdfReader}
use blaze_pk_rs.Reader.Keeps.{IsValid, len_lem}
use blaze_pk_rs.Printer.{Printer, Printed, done, failed, panicked, ran_out, push, read}
use blaze_pk_rs.Printer.Safety.{Prints, on_done, on_failed, on_panicked}
use blaze_pk_rs.Reader.Stringify.{
  stringify_tag, stringify_type, field_end, stringify_loop, stringify,
}
use blaze_pk_rs.Reader.Stringify.Safety.{stringify_tag-Safely, stringify_type-Safely}
use blaze_pk_rs.Reader.Stringify.Ends.{Ends, stringify-Ends}

module _ (f : Formats) where
  -- The note on an error, and on the number of bytes from where it was found to the end.
  abbrev pub note : DecodeError → TdfReader → Text
  note e s =
      codes "... remaining "
      ++ (decimal (length s.buffer - s.cursor) ++ (codes ", cause: " ++ error_debug f e))

  -- How a text comes to be: the texts of fields, one behind the other, up to the end of the buffer or
  -- to the first field that is malformed. What that field had written by then is followed by a note.
  pub data Rounds : TdfReader → Text → Printed → Type 0 where
    at_end : {r : TdfReader} {out : Text} → length r.buffer ≤ r.cursor → Rounds r out (done r out)
    field_written :
        {r s : TdfReader} {out out' : Text} {x : Printed}
        → r.cursor < length r.buffer
        → stringify_tag f (stringify_type f) 1 r out ≡ done s out'
        → Rounds s out' x
        → Rounds r out x
    malformed :
        {r s : TdfReader} {out out' : Text} {e : DecodeError}
        → r.cursor < length r.buffer
        → stringify_tag f (stringify_type f) 1 r out ≡ failed e s out'
        → Rounds r out (done s (out' ++ note e s))
    field_panics :
        {r : TdfReader} {out : Text}
        → r.cursor < length r.buffer
        → stringify_tag f (stringify_type f) 1 r out ≡ panicked
        → Rounds r out panicked

  field_end-Rounds :
      (k : ℕ) {r : TdfReader} {out : Text} (rest : Printer) (x : Printed)
      → r.cursor < length r.buffer
      → length r.buffer ≤ r.cursor + k
      → stringify_tag f (stringify_type f) 1 r out ≡ x
      → ((s : TdfReader) (out' : Text)
          → IsValid s
          → length s.buffer + 4 ≤ s.cursor + k
          → Rounds s out' (rest s out'))
      → Prints 4 r out x
      → Rounds r out (field_end f rest x)
  unfolding field_end read push
  field_end-Rounds k rest (done s out') more b e go (on_done _ h _) = field_written more e (
      go s out' (omega (arith, h.within, ap length h.same))
        (omega (arith, h.forth, ap length h.same)))
  field_end-Rounds k rest (failed d s out') more b e go (on_failed _ h _) =
      let valid : s.cursor ≤ length s.buffer = omega (arith, h.within, ap length h.same) in
      rw (len_lem s valid, read) (malformed more e)
  field_end-Rounds k rest panicked more b e go on_panicked = field_panics more e
  field_end-Rounds k rest ran_out more b e go h = elim h [ ]

  stringify_loop-Rounds :
      (fuel : ℕ) (r : TdfReader) (out : Text)
      → IsValid r
      → length r.buffer < r.cursor + fuel
      → Rounds r out (stringify_loop f fuel r out)
  unfolding stringify_loop
  stringify_loop-Rounds zero r out v h = absurd (omega arith)
  stringify_loop-Rounds (suc fuel) r out v h = elim (Bool-cases (ltb r.cursor (length r.buffer))) [
    | inl more ↦
        let k = length r.buffer - r.cursor in
        rw more (
          field_end-Rounds k (stringify_loop f fuel) _ (ground arith) (omega arith) refl
            (λ s out' w g. stringify_loop-Rounds fuel s out' w (omega arith))
            ((stringify_tag-Safely f (stringify_type f) k
                (λ j i ty l. stringify_type-Safely f j i ty) k 1 (omega arith)).at
              r out v (omega arith)))
    | inr over ↦ rw over (at_end (ground arith))
  ]

  -- Whatever stands in the buffer, `stringify` comes to an end or panics: it returns no error, keeps
  -- the buffer, does not move the cursor back nor past the end, and keeps the text that was there
  -- in front of what it writes. It writes the fields that `stringify_tag` writes, indented once, up to
  -- the end of the buffer; where one of them is malformed, it writes as much of it as was written, a
  -- note with the number of bytes that are left and the error, and nothing more.
  pub stringify-Rounds :
      (r : TdfReader) (out : Text)
      → IsValid r
      → Ends r out (stringify f r out) × Rounds r out (stringify f r out)
  unfolding stringify
  stringify-Rounds r out v = (
    stringify-Ends f r out v,
    stringify_loop-Rounds (suc (length r.buffer - r.cursor)) r out v (omega arith),
  )

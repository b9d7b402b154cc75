-- ===== src/Reader/Stringify/Ends.antt =====
-- Making a text of all that is in the buffer comes to an end, and returns no error.
use blaze_pk_rs.Prelude.{
  ℕ, zero, suc, ◌+◌, ◌-◌, ◌≤◌, ◌<◌, ◌≡◌, sym, ap, append-nil, append_assoc, ◌∙◌, inl, inr,
  Bool-cases, [], ◌++◌, ltb, length, arith,
}
use blaze_pk_rs.Text.{Text, Formats, codes, decimal}
use blaze_pk_rs.Reader.{TdfReader, len}
use blaze_pk_rs.Reader.Keeps.{IsValid, Moved-refl, Moved-le, Moved-trans, Moved, len_lem}
use blaze_pk_rs.Text.Debug.{error_debug}
use blaze_pk_rs.Printer.{Printer, Printed, done, panicked, push, read}
use blaze_pk_rs.Printer.Safety.{Prints, on_done, on_failed, on_panicked}
use blaze_pk_rs.Reader.Stringify.{stringify_type, field_end, stringify_loop, stringify}
use blaze_pk_rs.Reader.Stringify.Safety.{stringify_tag-Safely, stringify_type-Safely}

-- What `stringify` does: it returns no error, keeps the buffer, stays within it, and only appends.
pub data Ends (r : TdfReader) (out : Text) : Printed → Type 0 where
  ended :
      {s : TdfReader} {out' : Text} (more : Text)
      → Moved 0 r s
      → out' ≡ out ++ more
      → Ends r out (done s out')
  panics : Ends r out panicked

Ends-after :
    {j : ℕ} {r s : TdfReader} {out out' : Text} {x : Printed} (more : Text)
    → Moved j r s
    → out' ≡ out ++ more
    → Ends s out' x
    → Ends r out x
Ends-after {out} more h e (ended more' g e') =
    ended (more ++ more') (Moved-le (omega arith) (Moved-trans h g))
      (e' ∙ ap (λ t. t ++ more') e ∙ append_assoc out more more')
Ends-after more h e panics = panics

-- The note on an error, behind which nothing more is written.
note_Ends :
    {r s : TdfReader} {out out' : Text} (f : ℕ → Text) (more : Text)
    → Moved 0 r s
    → out' ≡ out ++ more
    → Ends r out (read len (λ remaining. push (f remaining)) s out')
unfolding read push
note_Ends {r} {s} {out} f more h e =
    let valid : s.cursor ≤ length s.buffer = omega (arith, h.within, ap length h.same) in
    rw (len_lem s valid, read)
      (ended (more ++ f (length s.buffer - s.cursor)) h
        (ap (λ t. t ++ f (length s.buffer - s.cursor)) e ∙ append_assoc out more _))

module _ (f : Formats) where
  field_end-Ends :
      (k : ℕ) {r : TdfReader} {out : Text} {x : Printed} (rest : Printer)
      → length r.buffer ≤ r.cursor + k
      → ((s : TdfReader) (out' : Text)
          → IsValid s
          → length s.buffer + 4 ≤ s.cursor + k
          → Ends s out' (rest s out'))
      → Prints 4 r out x
      → Ends r out (field_end f rest x)
  unfolding field_end
  field_end-Ends k rest b go (on_done {s} {out'} more h e) = Ends-after more h e (
      go s out' (omega (arith, h.within, ap length h.same))
        (omega (arith, h.forth, ap length h.same)))
  field_end-Ends k rest b go (on_failed {e = d} more h e) =
      note_Ends
        (λ remaining.
          codes "... remaining " ++ (decimal remaining ++ (codes ", cause: " ++ error_debug f d)))
        more h e
  field_end-Ends k rest b go on_panicked = panics

  stringify_loop-Ends :
      (fuel : ℕ) (r : TdfReader) (out : Text)
      → IsValid r
      → length r.buffer < r.cursor + fuel
      → Ends r out (stringify_loop f fuel r out)
  unfolding stringify_loop
  stringify_loop-Ends zero r out v h = absurd (omega arith)
  stringify_loop-Ends (suc fuel) r out v h = elim (Bool-cases (ltb r.cursor (length r.buffer))) [
    | inl more ↦
        let k = length r.buffer - r.cursor in
        rw more (
          field_end-Ends k (stringify_loop f fuel) (omega arith)
            (λ s out' w g. stringify_loop-Ends fuel s out' w (omega arith))
            ((stringify_tag-Safely f (stringify_type f) k
                (λ j i ty l. stringify_type-Safely f j i ty) k 1 (omega arith)).at
              r out v (omega arith)))
    | inr over ↦ rw over (ended [] (Moved-refl r v) (sym (append-nil out)))
  ]

  -- Whatever stands in the buffer, `stringify` comes to an end or panics: it returns no error, keeps
  -- the buffer, does not move the cursor back nor past the end, and keeps the text that was there
  -- in front of what it writes.
  pub stringify-Ends : (r : TdfReader) (out : Text) → IsValid r → Ends r out (stringify f r out)
  unfolding stringify
  stringify-Ends r out v =
      stringify_loop-Ends (suc (length r.buffer - r.cursor)) r out v (omega arith)

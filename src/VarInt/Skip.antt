-- ===== src/VarInt/Skip.antt =====
-- Skipping takes exactly the bytes of a variable length integer, whatever its width.
use blaze_pk_rs.Prelude.{
  true, ℕ, zero, suc, ◌+◌, ◌-◌, ◌*◌, ◌<◌, ◌≤◌, ◌≡◌, refl, ap, ◌∙◌, List, [], ◌∷◌, ◌++◌,
  append_assoc, length, length-append, arith, ltb, lt→ltb, le→not_ltb,
}
use blaze_pk_rs.Reader.{ok, peek, advance}
use blaze_pk_rs.Reader.Bind.{bind_ok}
use blaze_pk_rs.Reader.Reads.{Reads, between, slice_limit, advance-between, peek-between}
use blaze_pk_rs.Reader.VarInt.{skip_var_int_loop, skip_var_int}
use blaze_pk_rs.VarInt.{Groups, last, more, Encodes, short, long}

-- One round of the loop on a byte.
module _ (front : List ℕ) (byte : ℕ) (back : List ℕ) (fuel : ℕ)
    (fits : length (front ++ byte ∷ back) < slice_limit) where
  inside : ltb (length front) (length (front ++ byte ∷ back)) ≡ true
  inside = lt→ltb _ _ (omega (arith, length-append front (byte ∷ back)))

  round_last :
      byte < 128
      → skip_var_int_loop (suc fuel) (between front (byte ∷ back))
        ≡ ok tt (between (front ++ byte ∷ []) back)
  unfolding skip_var_int_loop
  round_last h = rw inside (
      bind_ok peek _ (peek-between front byte back)
      ∙ bind_ok (advance 1) _ (advance-between front (byte ∷ []) back fits)
      ∙ rw (lt→ltb byte 128 h) refl)

  round_more :
      128 ≤ byte
      → skip_var_int_loop (suc fuel) (between front (byte ∷ back))
        ≡ skip_var_int_loop fuel (between (front ++ byte ∷ []) back)
  unfolding skip_var_int_loop
  round_more h = rw inside (
      bind_ok peek _ (peek-between front byte back)
      ∙ bind_ok (advance 1) _ (advance-between front (byte ∷ []) back fits)
      ∙ rw (le→not_ltb byte 128 h) refl)

skip-Groups :
    (fuel : ℕ) {c : ℕ} {xs : List ℕ}
    → Groups c xs
    → length xs ≤ fuel
    → Reads (skip_var_int_loop fuel) xs tt
skip-Groups zero (last h) f = absurd (omega arith)
skip-Groups zero (more h e g) f = absurd (omega arith)
skip-Groups (suc fuel) (last {c} h) f = record {
  run = λ front back fits. round_last front c back fuel fits h;
}
skip-Groups (suc fuel) (more {c} {d} {g} {xs} h e rest) f = record {
  run = λ front back fits.
      let next : length ((front ++ (g + 128) ∷ []) ++ (xs ++ back)) < slice_limit =
        rw (append_assoc front ((g + 128) ∷ []) (xs ++ back)) fits in
      round_more front (g + 128) (xs ++ back) fuel fits (omega arith)
      ∙ (skip-Groups fuel rest (omega arith)).run (front ++ (g + 128) ∷ []) back next
      ∙ ap (λ f. ok tt (between f back)) (append_assoc front ((g + 128) ∷ []) xs);
}

skip_encoded :
    (fuel : ℕ) {v : ℕ} {xs : List ℕ}
    → Encodes v xs
    → length xs ≤ fuel
    → Reads (skip_var_int_loop fuel) xs tt
skip_encoded fuel (short h) f = skip-Groups fuel (last (omega arith)) f
skip_encoded fuel (long {c} {v} {g} h e groups) f =
    skip-Groups fuel (more {c = c} {d = g + 128 * c} {g = g} (omega arith) refl groups) f

-- `skip_var_int` takes exactly the bytes of a number, whether or not more bytes were spent on it
-- than it needs.
pub skip_var_int-Reads : {v : ℕ} {xs : List ℕ} → Encodes v xs → Reads skip_var_int xs tt
unfolding skip_var_int
skip_var_int-Reads {v} {xs} code = record {
  run = λ front back fits.
      let enough : length xs ≤ suc (length (front ++ (xs ++ back)) - length front) =
        omega (arith, length-append front (xs ++ back), length-append xs back) in
      (skip_encoded (suc (length (front ++ (xs ++ back)) - length front)) code enough).run front
        back fits;
}

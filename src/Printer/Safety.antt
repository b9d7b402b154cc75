-- ===== src/Printer/Safety.antt =====
-- What every method that reads and prints keeps: what every read keeps, and the text that was
-- there, to which it only appends. The rules count bytes as those of reads do.
use blaze_pk_rs.Prelude.{
  ℕ, zero, suc, ◌+◌, ◌-◌, ◌≤◌, ◌≡◌, refl, sym, ap, ◌∙◌, Bool, true, false, [], ◌++◌, append-nil,
  append_assoc, length, arith, if◌then◌else◌,
}
use blaze_pk_rs.Error.{DecodeError}
use blaze_pk_rs.Reader.{TdfReader, Run, ok, err, panic, stuck, Reader}
use blaze_pk_rs.Reader.Keeps.{
  IsValid, Moved, Moved-trans, Moved-le, Moved-refl, Keeps, on_ok, on_err, on_panic, Safe, Still,
  still_ok, still_panic,
}
use blaze_pk_rs.Text.{Text}
use blaze_pk_rs.Printer.{
  Printer, Printed, done, failed, panicked, ran_out, push, ◌▸◌, read, either_way, for_each,
}

pub data Prints (k : ℕ) (r : TdfReader) (out : Text) : Printed → Type 0 where
  on_done :
      {s : TdfReader} {out' : Text} (more : Text)
      → Moved k r s
      → out' ≡ out ++ more
      → Prints k r out (done s out')
  on_failed :
      {e : DecodeError} {s : TdfReader} {out' : Text} (more : Text)
      → Moved 0 r s
      → out' ≡ out ++ more
      → Prints k r out (failed e s out')
  on_panicked : Prints k r out panicked

-- `p` keeps this in a reader with `n` bytes left at most, and takes `k` at least.
pub record Safely (n k : ℕ) (p : Printer) : Type 0 where
  pub at :
      (r : TdfReader) (out : Text)
      → IsValid r
      → length r.buffer ≤ r.cursor + n
      → Prints k r out (p r out)

pub Prints-le :
    {j k : ℕ} {r : TdfReader} {out : Text} {x : Printed}
    → k ≤ j
    → Prints j r out x
    → Prints k r out x
Prints-le l (on_done more h e) = on_done more (Moved-le l h) e
Prints-le l (on_failed more h e) = on_failed more h e
Prints-le l on_panicked = on_panicked

pub Safely-le : {n n' j k : ℕ} {p : Printer} → n' ≤ n → k ≤ j → Safely n j p → Safely n' k p
Safely-le l l' h = record { at = λ r out v b. Prints-le l' (h.at r out v (omega arith)) }

pub push-Safely : (n : ℕ) (text : Text) → Safely n 0 (push text)
unfolding push
push-Safely n text = record { at = λ r out v b. on_done text (Moved-refl r v) refl }

-- What follows a part that moved the cursor and appended `more`.
pub Prints-after :
    {j k : ℕ} {r s : TdfReader} {out out' : Text} {x : Printed} (more : Text)
    → Moved j r s
    → out' ≡ out ++ more
    → Prints k s out' x
    → Prints (j + k) r out x
Prints-after {out} more h e (on_done more' g e') =
    on_done (more ++ more') (Moved-trans h g)
      (e' ∙ ap (λ t. t ++ more') e ∙ append_assoc out more more')
Prints-after {out} more h e (on_failed more' g e') =
    on_failed (more ++ more') (Moved-le (omega arith) (Moved-trans h g))
      (e' ∙ ap (λ t. t ++ more') e ∙ append_assoc out more more')
Prints-after more h e on_panicked = on_panicked

pub Safely-if :
    {n k : ℕ} (b : Bool) {p q : Printer}
    → (b ≡ true → Safely n k p)
    → (b ≡ false → Safely n k q)
    → Safely n k (if b then p else q)
Safely-if true h g = h refl
Safely-if false h g = g refl

module _ {n : ℕ} (j : ℕ) where
  then_at :
      {r : TdfReader} {out : Text} (p q : Printer) (x : Printed)
      → p r out ≡ x
      → length r.buffer ≤ r.cursor + n
      → Prints j r out x
      → (j ≤ n → Safely (n - j) 0 q)
      → Prints j r out ((p ▸ q) r out)
  unfolding ◌▸◌
  then_at p q (done s out') e b (on_done more h w) rest =
      rw (e, ◌▸◌)
        (Prints-le (omega arith) (
          Prints-after more h w (
            (rest (omega (arith, h.forth, h.within))).at s out'
              (omega (arith, h.within, ap length h.same))
              (omega (arith, h.forth, h.within, ap length h.same)))))
  then_at p q (failed d s out') e b (on_failed more h w) rest = rw (e, ◌▸◌) (on_failed more h w)
  then_at p q panicked e b on_panicked rest = rw (e, ◌▸◌) on_panicked
  then_at p q ran_out e b h rest = elim h [ ]

  pub Safely-then :
      {p q : Printer} → Safely n j p → (j ≤ n → Safely (n - j) 0 q) → Safely n j (p ▸ q)
  Safely-then {p} {q} h rest = record {
    at = λ r out v b. then_at p q (p r out) refl b (h.at r out v b) rest;
  }

  pub Prints-read :
      {A : Type 0} {r : TdfReader} {out : Text} (m : Reader A) (f : A → Printer) (x : Run A)
      → m r ≡ x
      → length r.buffer ≤ r.cursor + n
      → Keeps j r x
      → (j ≤ n → (a : A) → Safely (n - j) 0 (f a))
      → Prints j r out (read m f r out)
  unfolding read
  Prints-read {out} m f (ok a s) e b (on_ok h) rest =
      rw (e, read)
        (Prints-le (omega arith) (
          Prints-after [] h (sym (append-nil out)) (
            (rest (omega (arith, h.forth, h.within)) a).at s out
              (omega (arith, h.within, ap length h.same))
              (omega (arith, h.forth, h.within, ap length h.same)))))
  Prints-read {out} m f (err d s) e b (on_err h) rest =
      rw (e, read) (on_failed [] h (sym (append-nil out)))
  Prints-read m f panic e b on_panic rest = rw (e, read) on_panicked
  Prints-read m f stuck e b h rest = elim h [ ]

  pub Safely-read :
      {A : Type 0} {m : Reader A} {f : A → Printer}
      → Safe n j m
      → (j ≤ n → (a : A) → Safely (n - j) 0 (f a))
      → Safely n j (read m f)
  Safely-read {m} {f} h rest = record {
    at = λ r out v b. Prints-read m f (m r) refl b (h.at r v b) rest;
  }

-- A step that leaves the reader as it is.
pub Prints-Still :
    {A : Type 0} (k : ℕ) (r : TdfReader) (out : Text) (m : Reader A) (f : A → Printer) (x : Run A)
    → m r ≡ x
    → Still r x
    → ((a : A) → Prints k r out (f a r out))
    → Prints k r out (read m f r out)
unfolding read
Prints-Still k r out m f (ok a s) e still_ok h = rw (e, read) (h a)
Prints-Still k r out m f panic e still_panic h = rw (e, read) on_panicked
Prints-Still k r out m f (err d s) e h g = elim h [ ]
Prints-Still k r out m f stuck e h g = elim h [ ]

either_at :
    {k : ℕ} {r : TdfReader} {out : Text} (p : Printer) (good bad : Text) (x : Printed)
    → p r out ≡ x
    → Prints k r out x
    → Prints k r out (either_way p good bad r out)
unfolding either_way
either_at {out} p good bad (done s out') e (on_done more h w) =
    rw (e, either_way)
      (on_done (more ++ good) h (ap (λ t. t ++ good) w ∙ append_assoc out more good))
either_at {out} p good bad (failed d s out') e (on_failed more h w) =
    rw (e, either_way)
      (on_failed (more ++ bad) h (ap (λ t. t ++ bad) w ∙ append_assoc out more bad))
either_at p good bad panicked e on_panicked = rw (e, either_way) on_panicked
either_at p good bad ran_out e h = elim h [ ]

pub either_way-Safely :
    {n k : ℕ} {p : Printer} (good bad : Text) → Safely n k p → Safely n k (either_way p good bad)
either_way-Safely {p} good bad h = record {
  at = λ r out v b. either_at p good bad (p r out) refl (h.at r out v b);
}

pub for_each-Safely :
    (n left i : ℕ) {body : ℕ → Printer}
    → ((j : ℕ) → Safely n 0 (body j))
    → Safely n 0 (for_each left i body)
unfolding for_each
for_each-Safely n zero i h = record {
  at = λ r out v b. on_done [] (Moved-refl r v) (sym (append-nil out));
}
for_each-Safely n (suc left) i h =
    Safely-then 0 (h i)
      λ _. Safely-le (omega arith) (omega arith) (for_each-Safely n left (i + 1) h)

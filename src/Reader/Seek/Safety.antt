-- ===== src/Reader/Seek/Safety.antt =====
-- What the search for a tag keeps: its fuel is enough, and the loop of `try_until_tag` returns no
-- error.
use blaze_pk_rs.Prelude.{
  ℕ, zero, suc, ◌+◌, ◌-◌, ◌≤◌, ◌<◌, ◌≡◌, refl, ap, Bool, true, false, List, Option, none, some,
  length, arith, if◌then◌else◌,
}
use blaze_pk_rs.Tag.{Tag, TdfType, Tagged, from_slice, tag_eq}
use blaze_pk_rs.Tag.Code.{ty_eq}
use blaze_pk_rs.Error.{DecodeError, DecodeResult, unexpected_eof}
use blaze_pk_rs.Reader.{TdfReader, Run, ok, err, panic, stuck, Reader, ◌>>=◌, pure}
use blaze_pk_rs.Reader.Keeps.{
  IsValid, Keeps, on_ok, on_err, on_panic, Safe, Safe-pure, Safe-throw, Safe-if, Safe-then, Safe-le,
  Keeps-after, Keeps-le, Still, still_ok, still_panic, Keeps-Still,
}
use blaze_pk_rs.Reader.Tagged.{read_tag}
use blaze_pk_rs.Reader.Tagged.Safety.{read_tag-Safe}
use blaze_pk_rs.Reader.Skip.{skip_type}
use blaze_pk_rs.Reader.Skip.Safety.{skip_type-Safe}
use blaze_pk_rs.Reader.Seek.{
  attempt, to_tag, until_tag_round, until_tag_loop, until_tag, try_skipped, try_until_tag_round,
  try_until_tag_loop, tag,
}
use blaze_pk_rs.Reader.Seek.Attempt.{attempt_ok, attempt_err, attempt_panic, attempt_stuck}

-- A method whose result is matched on: what follows a value may count on what it took.
module _ {A B : Type 0} (n j : ℕ) (m : Reader A) (f : DecodeResult A → Reader B) where
  Keeps-attempt :
      (r : TdfReader) (x : Run A)
      → m r ≡ x
      → length r.buffer ≤ r.cursor + n
      → Keeps j r x
      → (j ≤ n → (a : A) → Safe (n - j) 0 (f (DecodeResult.ok a)))
      → ((e : DecodeError) → Safe n 0 (f (DecodeResult.err e)))
      → Keeps 0 r ((attempt m >>= f) r)
  Keeps-attempt r (ok a s) e b (on_ok h) g k = rw (attempt_ok m f e) (
      Keeps-le (omega arith) (
        Keeps-after h (
          (g (omega (arith, h.forth, h.within)) a).at s (omega (arith, h.within, ap length h.same))
            (omega (arith, h.forth, h.within, ap length h.same)))))
  Keeps-attempt r (err d s) e b (on_err h) g k = rw (attempt_err m f e) (
      Keeps-after h (
        (k d).at s (omega (arith, h.within, ap length h.same))
          (omega (arith, h.forth, ap length h.same))))
  Keeps-attempt r panic e b on_panic g k = rw (attempt_panic m f e) on_panic
  Keeps-attempt r stuck e b h g k = elim h [ ]

  Safe-attempt :
      Safe n j m
      → (j ≤ n → (a : A) → Safe (n - j) 0 (f (DecodeResult.ok a)))
      → ((e : DecodeError) → Safe n 0 (f (DecodeResult.err e)))
      → Safe n 0 (attempt m >>= f)
  Safe-attempt h g k = record { at = λ r v b. Keeps-attempt r (m r) refl b (h.at r v b) g k }

module _ (tag : Tag) (ty : TdfType) where
  until_tag_err :
      (n : ℕ) (more : Reader (Unit {0})) (e : DecodeError)
      → Safe n 0 (until_tag_round tag ty more (DecodeResult.err e))
  unfolding until_tag_round
  until_tag_err n more (unexpected_eof c w r) = Safe-throw n 0 _
  until_tag_err n more _ = Safe-throw n 0 _

  until_tag_ok :
      (n : ℕ) (more : Reader (Unit {0})) (next : Tagged)
      → Safe n 0 more
      → Safe n 0 (until_tag_round tag ty more (DecodeResult.ok next))
  unfolding until_tag_round
  until_tag_ok n more next h =
      Safe-if (tag_eq next.tag tag)
        (λ _. Safe-if (ty_eq next.ty ty) (λ _. Safe-pure n tt) (λ _. Safe-throw n 0 _))
        (λ _. Safe-then 0 (skip_type-Safe n next.ty) λ _. Safe-le (omega arith) (omega arith) h)

  until_tag_loop-Safe : (fuel n : ℕ) → n < fuel → Safe n 0 (until_tag_loop fuel tag ty)
  unfolding until_tag_loop
  until_tag_loop-Safe zero n h = absurd (omega arith)
  until_tag_loop-Safe (suc fuel) n h =
      Safe-attempt n 4 read_tag _ (read_tag-Safe n)
        (λ l next. until_tag_ok (n - 4) _ next (until_tag_loop-Safe fuel (n - 4) (omega arith)))
        (λ e. until_tag_err n (until_tag_loop fuel tag ty) e)

  try_skipped-Safe :
      (n : ℕ) (more : Reader Bool) (x : DecodeResult (Unit {0}))
      → Safe n 0 more
      → Safe n 0 (try_skipped more x)
  unfolding try_skipped
  try_skipped-Safe n more (DecodeResult.ok _) h = h
  try_skipped-Safe n more (DecodeResult.err _) h = Safe-pure n false

  try_until_tag_ok :
      (n : ℕ) (more : Reader Bool) (next : Tagged)
      → Safe n 0 more
      → Safe n 0 (try_until_tag_round tag ty more (DecodeResult.ok next))
  unfolding try_until_tag_round
  try_until_tag_ok n more next h =
      Safe-if (tag_eq next.tag tag)
        (λ _. Safe-if (ty_eq next.ty ty) (λ _. Safe-pure n true) (λ _. Safe-pure n false))
        (λ _.
          Safe-attempt n 0 (skip_type next.ty) _ (skip_type-Safe n next.ty)
            (λ l a.
              try_skipped-Safe (n - 0) more (DecodeResult.ok a)
                (Safe-le (omega arith) (omega arith) h))
            (λ e. try_skipped-Safe n more (DecodeResult.err e) h))

  pub try_until_tag_loop-Safe : (fuel n : ℕ) → n < fuel → Safe n 0 (try_until_tag_loop fuel tag ty)
  unfolding try_until_tag_loop try_until_tag_round
  try_until_tag_loop-Safe zero n h = absurd (omega arith)
  try_until_tag_loop-Safe (suc fuel) n h =
      Safe-attempt n 4 read_tag _ (read_tag-Safe n)
        (λ l next.
          try_until_tag_ok (n - 4) _ next (try_until_tag_loop-Safe fuel (n - 4) (omega arith)))
        (λ e. Safe-pure n false)

to_tag-Still : (name : List ℕ) (r : TdfReader) → Still r (to_tag name r)
unfolding to_tag
to_tag-Still name r = go (from_slice name)
  where
    go : (o : Option Tag) → Still r (elim o [ some t ↦ ok t r | none ↦ panic ])
    go (some t) = still_ok
    go none = still_panic

pub until_tag-Safe : (n : ℕ) (name : List ℕ) (ty : TdfType) → Safe n 0 (until_tag name ty)
unfolding until_tag
until_tag-Safe n name ty = record {
  at = λ r v b. Keeps-Still 0 r _ (to_tag name) _ refl (to_tag-Still name r) λ tag.
      (until_tag_loop-Safe tag ty (suc (length r.buffer - r.cursor)) (length r.buffer - r.cursor)
          (omega arith)).at
        r v (omega arith);
}

-- In every valid reader `until_tag` succeeds, fails or panics and does not run out of fuel; where it
-- succeeds or fails the buffer is the same, and the cursor has not moved back and stands within the
-- buffer.
pub until_tag-Keeps :
    (name : List ℕ) (ty : TdfType) (r : TdfReader) → IsValid r → Keeps 0 r (until_tag name ty r)
until_tag-Keeps name ty r v =
    (until_tag-Safe (length r.buffer - r.cursor) name ty).at r v (omega arith)

-- No error is returned.
abbrev pub IsCalm : {A : Type 0} → Run A → Type 0
IsCalm (err e s) = ⊥
IsCalm _ = Unit

pub record Calm {A : Type 0} (m : Reader A) : Type 0 where
  pub at : (r : TdfReader) → IsCalm (m r)

Calm-pure : {A : Type 0} (a : A) → Calm (pure a)
Calm-pure a = record { at = λ r. tt }

Calm-if : {A : Type 0} (b : Bool) {m m' : Reader A} → Calm m → Calm m' → Calm (if b then m else m')
Calm-if true h g = h
Calm-if false h g = g

-- What is attempted returns no error of its own.
Calm-attempt :
    {A B : Type 0} (m : Reader A) (f : DecodeResult A → Reader B)
    → ((x : DecodeResult A) → Calm (f x))
    → Calm (attempt m >>= f)
Calm-attempt {A} {B} m f h = record { at = λ r. go r (m r) refl }
  where
    go : (r : TdfReader) (x : Run A) → m r ≡ x → IsCalm ((attempt m >>= f) r)
    go r (ok a s) e = rw (attempt_ok m f e) ((h (DecodeResult.ok a)).at s)
    go r (err d s) e = rw (attempt_err m f e) ((h (DecodeResult.err d)).at s)
    go r panic e = rw (attempt_panic m f e) tt
    go r stuck e = rw (attempt_stuck m f e) tt

try_skipped-Calm :
    (more : Reader Bool) (x : DecodeResult (Unit {0})) → Calm more → Calm (try_skipped more x)
unfolding try_skipped
try_skipped-Calm more (DecodeResult.ok _) h = h
try_skipped-Calm more (DecodeResult.err _) h = Calm-pure false

try_until_tag_round-Calm :
    (tag : Tag) (ty : TdfType) (more : Reader Bool) (x : DecodeResult Tagged)
    → Calm more
    → Calm (try_until_tag_round tag ty more x)
unfolding try_until_tag_round
try_until_tag_round-Calm tag ty more (DecodeResult.ok next) h =
    Calm-if (tag_eq next.tag tag) (Calm-if (ty_eq next.ty ty) (Calm-pure true) (Calm-pure false))
      (Calm-attempt (skip_type next.ty) _ λ x. try_skipped-Calm more x h)
try_until_tag_round-Calm tag ty more (DecodeResult.err _) h = Calm-pure false

pub try_until_tag_loop-Calm :
    (fuel : ℕ) (tag : Tag) (ty : TdfType) → Calm (try_until_tag_loop fuel tag ty)
unfolding try_until_tag_loop
try_until_tag_loop-Calm zero tag ty = record { at = λ r. tt }
try_until_tag_loop-Calm (suc fuel) tag ty = Calm-attempt read_tag _ λ x.
    try_until_tag_round-Calm tag ty (try_until_tag_loop fuel tag ty) x
      (try_until_tag_loop-Calm fuel tag ty)

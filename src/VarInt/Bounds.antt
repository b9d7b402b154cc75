-- ===== src/VarInt/Bounds.antt =====
-- src/reader.rs: what bounds the numbers that `impl_decode_var` returns and the bytes that it takes,
-- whatever bytes it reads.
use blaze_pk_rs.Prelude.{
  ℕ, zero, suc, ◌+◌, ◌*◌, ◌/◌, ◌%◌, ◌^◌, ◌≤◌, ◌<◌, ◌≡◌, refl, ◌∙◌, bit_and, bit_or, Bool, true,
  false, ltb, leb, if◌then◌else◌, length, arith,
}
use native.Mathlib.Nat.{mod-lt, pow-le-pow_right}
use blaze_pk_rs.Prelude.Bits.{bit_or-halves, bit_and_63}
use blaze_pk_rs.Error.{DecodeError}
use blaze_pk_rs.Reader.{
  TdfReader, Run, ok, err, panic, stuck, Reader, ◌>>=◌, end_of, expect_length, eof, len, peek,
  advance, read_byte, usize_mod,
}
use blaze_pk_rs.Reader.Keeps.{Still, still_ok, still_panic, peek-Still}
use blaze_pk_rs.Reader.VarInt.{decode_var_loop, impl_decode_var}

-- An outcome in which a value, if there is one, and the number of bytes that were taken for it are
-- related by `P`; the buffer is the same.
pub data Bounded {A : Type 0} (P : A → ℕ → Type 0) (r : TdfReader) : Run A → Type 0 where
  gives :
      {a : A} {s : TdfReader} (n : ℕ)
      → s.buffer ≡ r.buffer
      → s.cursor ≡ r.cursor + n
      → P a n
      → Bounded P r (ok a s)
  errs : {e : DecodeError} {s : TdfReader} → Bounded P r (err e s)
  panics : Bounded P r panic

module _ {A : Type 0} {P : A → ℕ → Type 0} {r : TdfReader} where
  Bounded-later :
      {s : TdfReader} (n : ℕ) {x : Run A}
      → s.buffer ≡ r.buffer
      → s.cursor ≡ r.cursor + n
      → Bounded (λ a k. P a (n + k)) s x
      → Bounded P r x
  Bounded-later n b c (gives k b' c' p) = gives (n + k) (b' ∙ b) (omega (arith, c, c')) p
  Bounded-later n b c errs = errs
  Bounded-later n b c panics = panics

  Bounded-if :
      (b : Bool) {x y : Run A}
      → (b ≡ true → Bounded P r x)
      → (b ≡ false → Bounded P r y)
      → Bounded P r (if b then x else y)
  Bounded-if true h g = h refl
  Bounded-if false h g = g refl

  Bounded-branch :
      (b : Bool) (m m' : Reader A)
      → (b ≡ true → Bounded P r (m r))
      → (b ≡ false → Bounded P r (m' r))
      → Bounded P r ((if b then m else m') r)
  Bounded-branch true m m' h g = h refl
  Bounded-branch false m m' h g = g refl

  Bounded-mono :
      {Q : A → ℕ → Type 0} {x : Run A}
      → ((a : A) (n : ℕ) → Q a n → P a n)
      → Bounded Q r x
      → Bounded P r x
  Bounded-mono up (gives {a} n b c q) = gives n b c (up a n q)
  Bounded-mono up errs = errs
  Bounded-mono up panics = panics

  module _ {B : Type 0} (m : Reader B) (f : B → Reader A) where
    Bounded-Still :
        (x : Run B)
        → m r ≡ x
        → Still r x
        → ((b : B) → Bounded P r (f b r))
        → Bounded P r ((m >>= f) r)
    unfolding ◌>>=◌
    Bounded-Still (ok b s) e still_ok rest = rw (e, ◌>>=◌) (rest b)
    Bounded-Still panic e still_panic rest = rw (e, ◌>>=◌) panics
    Bounded-Still (err d s) e h rest = elim h [ ]
    Bounded-Still stuck e h rest = elim h [ ]

    Bounded-bind :
        {Q : B → ℕ → Type 0} (x : Run B)
        → m r ≡ x
        → Bounded Q r x
        → ((b : B) (n : ℕ) (s : TdfReader)
            → s.cursor ≡ r.cursor + n
            → Q b n
            → Bounded (λ a k. P a (n + k)) s (f b s))
        → Bounded P r ((m >>= f) r)
    unfolding ◌>>=◌
    Bounded-bind (ok b s) e (gives n same moved q) rest =
        rw (e, ◌>>=◌) (Bounded-later n same moved (rest b n s moved q))
    Bounded-bind (err d s) e errs rest = rw (e, ◌>>=◌) errs
    Bounded-bind panic e panics rest = rw (e, ◌>>=◌) panics
    Bounded-bind stuck e h rest = elim h [ ]

-- A byte is taken.
One : {A : Type 0} → A → ℕ → Type 0
One a n = n ≡ 1

None : {A : Type 0} → A → ℕ → Type 0
None a n = n ≡ 0

end_of-Bounded : (r : TdfReader) → Bounded (λ end n. (n ≡ 0) × (end ≡ r.cursor + 1)) r (end_of 1 r)
unfolding end_of
end_of-Bounded r =
    Bounded-if (ltb (r.cursor + 1) usize_mod) (λ _. gives 0 refl (omega arith) (refl, refl))
      (λ _. panics)

advance-Bounded : (r : TdfReader) → Bounded One r (advance 1 r)
unfolding advance One
advance-Bounded r =
    Bounded-bind (end_of 1) _ _ refl (end_of-Bounded r)
      λ end n s at (none, next). gives 1 refl (omega arith) (omega arith)

len-Bounded : (r : TdfReader) → Bounded None r (len r)
unfolding len None
len-Bounded r =
    Bounded-if (leb r.cursor (length r.buffer)) (λ _. gives 0 refl (omega arith) refl) (λ _. panics)

eof-Bounded : (n : ℕ) (r : TdfReader) → Bounded None r (eof n r)
unfolding eof
eof-Bounded n r = Bounded-bind len _ _ refl (len-Bounded r) λ _ _ _ _ _. errs

expect_length-Bounded : (r : TdfReader) → Bounded None r (expect_length 1 r)
unfolding expect_length None
expect_length-Bounded r =
    Bounded-bind (end_of 1) _ _ refl (end_of-Bounded r) λ end n s at (none, next).
      Bounded-branch (ltb (length r.buffer) end) _ _
        (λ _. Bounded-mono (λ _ k e. omega (arith, none, e)) (eof-Bounded 1 s))
        (λ _. gives 0 refl (omega arith) (omega arith))

read_byte-Bounded : (r : TdfReader) → Bounded One r (read_byte r)
unfolding read_byte None One
read_byte-Bounded r =
    Bounded-bind (expect_length 1) _ _ refl (expect_length-Bounded r) λ _ n s at e.
      Bounded-Still peek _ _ refl (peek-Still s) λ byte.
        Bounded-bind (advance 1) _ _ refl (advance-Bounded s)
          λ _ k t at' g. gives 0 refl (omega arith) (omega arith)

pow-pos : (w : ℕ) → 0 < 2 ^ w
pow-pos zero = omega arith
pow-pos (suc w) = omega (arith, pow-pos w)

bit_or-lt : (w a b : ℕ) → a < 2 ^ w → b < 2 ^ w → bit_or a b < 2 ^ w
bit_or-lt zero a b h g = ground (arith, bit_or-halves a b)
bit_or-lt (suc w) a b h g =
    omega (arith, bit_or-halves a b, bit_or-lt w (a / 2) (b / 2) (omega arith) (omega arith))

-- A loop that starts at `shift` returns a number of `w` bits. Its last byte is shifted by less than
-- `w`.
decode_var_loop-Bounded :
    (fuel w result shift : ℕ) (r : TdfReader)
    → 0 < fuel
    → w < fuel + shift
    → result < 2 ^ w
    → Bounded
        (λ v n. (v < 2 ^ w) × (7 * n + shift < w + 7))
        r
        (decode_var_loop fuel w result shift r)
unfolding decode_var_loop One
decode_var_loop-Bounded zero w result shift r h g low = absurd (omega arith)
decode_var_loop-Bounded (suc fuel) w result shift r h g low =
    Bounded-bind read_byte _ _ refl (read_byte-Bounded r) λ byte n s at e.
      let result' = bit_or result (bit_and byte 127 * 2 ^ shift % 2 ^ w) in
      let low' : result' < 2 ^ w =
        bit_or-lt w result _ low (mod-lt (bit_and byte 127 * 2 ^ shift) (pow-pos w)) in
      Bounded-branch (ltb shift w) _ _
        (λ below.
          Bounded-branch (ltb byte 128) _ _ (λ _. gives 0 refl (omega arith) (low', ground arith))
            (λ _.
              Bounded-mono (λ v k (small, few). (small, omega (arith, e, few)))
                (decode_var_loop-Bounded fuel w result' (shift + 7) s (ground arith) (ground arith)
                  low')))
        (λ _. panics)

-- At a width of w bits, which are six at least, `impl_decode_var` returns a number below 2 ^ w, for
-- which it takes fewer than (w + 8) / 7 bytes and keeps the buffer, or it returns an error, or it
-- panics, in any reader. It does not run out of fuel.
pub impl_decode_var-Bounded :
    (w : ℕ) (r : TdfReader)
    → 6 ≤ w
    → Bounded (λ v n. (v < 2 ^ w) × (7 * n < w + 8)) r (impl_decode_var w r)
unfolding impl_decode_var One
impl_decode_var-Bounded w r h =
    Bounded-bind read_byte _ _ refl (read_byte-Bounded r) λ first n s at e.
      let low : bit_and first 63 < 2 ^ w =
        omega (arith, bit_and_63 first, pow-le-pow_right {n = 2} (omega arith) h) in
      Bounded-branch (ltb first 128) _ _ (λ _. gives 0 refl (omega arith) (low, omega (arith, e)))
        (λ _.
          Bounded-mono (λ v k (small, few). (small, omega (arith, e, few)))
            (decode_var_loop-Bounded (suc w) w (bit_and first 63) 6 s (omega arith) (omega arith)
              low))

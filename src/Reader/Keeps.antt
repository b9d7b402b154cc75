-- ===== src/Reader/Keeps.antt =====
-- What every read keeps, on its error paths too: the buffer is the same, the cursor does not move
-- back and stays within the buffer. The rules also count: how many bytes a read may still find,
-- which is what pays for fuel, and how many it takes at least when it succeeds.
use blaze_pk_rs.Prelude.{
  ℕ, ◌+◌, ◌-◌, ◌≤◌, ◌≡◌, refl, ap, ◌∙◌, Bool, true, false, List, Option, none, some, length, arith,
  if◌then◌else◌, ltb, le→leb, ◌^◌, [], ◌∷◌, ◌⊎◌, inl, inr, Bool-cases,
}
use blaze_pk_rs.Error.{DecodeError, unexpected_eof, DecodeResult}
use blaze_pk_rs.Reader.Bind.{bind_ok, bind_err, bind_panic}
use blaze_pk_rs.Reader.{
  usize_mod, TdfReader, Run, ok, err, panic, stuck, Reader, ◌>>=◌, ◌>>◌, pure, throw, abort, lift,
  len, end_of, advance, eof, expect_length, peek, byte_or_abort, slice_to, copy_4, read_byte,
  read_byte_4, read_slice,
}

abbrev pub IsValid : TdfReader → Type 0
IsValid r = r.cursor ≤ length r.buffer

pub record Moved (k : ℕ) (r s : TdfReader) : Type 0 where
  pub same : s.buffer ≡ r.buffer
  pub forth : r.cursor + k ≤ s.cursor
  pub within : s.cursor ≤ length r.buffer

pub data Keeps {A : Type 0} (k : ℕ) (r : TdfReader) : Run A → Type 0 where
  on_ok : {a : A} {s : TdfReader} → Moved k r s → Keeps k r (ok a s)
  on_err : {e : DecodeError} {s : TdfReader} → Moved 0 r s → Keeps k r (err e s)
  on_panic : Keeps k r panic

-- `m` keeps this in a reader with `n` bytes left at most, and takes `k` at least.
pub record Safe {A : Type 0} (n k : ℕ) (m : Reader A) : Type 0 where
  pub at : (r : TdfReader) → IsValid r → length r.buffer ≤ r.cursor + n → Keeps k r (m r)

pub Moved-trans : {j k : ℕ} {r s t : TdfReader} → Moved j r s → Moved k s t → Moved (j + k) r t
Moved-trans h g = record {
  same = g.same ∙ h.same;
  forth = omega (arith, h.forth, g.forth);
  within = omega (arith, g.within, ap length h.same);
}

pub Moved-le : {j k : ℕ} {r s : TdfReader} → k ≤ j → Moved j r s → Moved k r s
Moved-le l h = record { same = h.same; forth = omega (arith, h.forth); within = h.within }

pub Moved-refl : (r : TdfReader) → IsValid r → Moved 0 r r
Moved-refl r v = record { same = refl; forth = omega arith; within = v }

pub Keeps-after :
    {A : Type 0} {j k : ℕ} {r s : TdfReader} {x : Run A}
    → Moved j r s
    → Keeps k s x
    → Keeps (j + k) r x
Keeps-after h (on_ok g) = on_ok (Moved-trans h g)
Keeps-after h (on_err g) = on_err (Moved-le (omega arith) (Moved-trans h g))
Keeps-after h on_panic = on_panic

pub Keeps-le :
    {A : Type 0} {j k : ℕ} {r : TdfReader} {x : Run A} → k ≤ j → Keeps j r x → Keeps k r x
Keeps-le l (on_ok h) = on_ok (Moved-le l h)
Keeps-le l (on_err h) = on_err h
Keeps-le l on_panic = on_panic

module _ {A : Type 0} where
  pub Safe-le : {n n' j k : ℕ} {m : Reader A} → n' ≤ n → k ≤ j → Safe n j m → Safe n' k m
  Safe-le l l' h = record { at = λ r v b. Keeps-le l' (h.at r v (omega arith)) }

  pub Safe-pure : (n : ℕ) (a : A) → Safe n 0 (pure a)
  Safe-pure n a = record { at = λ r v b. on_ok (Moved-refl r v) }

  pub Safe-throw : (n k : ℕ) (e : DecodeError) → Safe {A = A} n k (throw e)
  Safe-throw n k e = record { at = λ r v b. on_err (Moved-refl r v) }

  pub Safe-abort : (n k : ℕ) → Safe {A = A} n k abort
  Safe-abort n k = record { at = λ r v b. on_panic }

  pub Safe-lift : (n : ℕ) (x : DecodeResult A) → Safe n 0 (lift x)
  Safe-lift n (DecodeResult.ok a) = Safe-pure n a
  Safe-lift n (DecodeResult.err e) = Safe-throw n 0 e

  pub Safe-if :
      {n k : ℕ} (b : Bool) {m m' : Reader A}
      → (b ≡ true → Safe n k m)
      → (b ≡ false → Safe n k m')
      → Safe n k (if b then m else m')
  Safe-if true h g = h refl
  Safe-if false h g = g refl

module _ {A B : Type 0} (n j k : ℕ) (f : A → Reader B)
    (rest : j ≤ n → (a : A) → Safe (n - j) k (f a)) where
  pub Keeps-bind :
      {r : TdfReader} (m : Reader A) (x : Run A)
      → m r ≡ x
      → length r.buffer ≤ r.cursor + n
      → Keeps j r x
      → Keeps (j + k) r ((m >>= f) r)
  unfolding ◌>>=◌
  Keeps-bind m (ok a s) e b (on_ok h) =
      rw (e, ◌>>=◌)
        (Keeps-after h (
          (rest (omega (arith, h.forth, h.within)) a).at s
            (omega (arith, h.within, ap length h.same))
            (omega (arith, h.forth, h.within, ap length h.same))))
  Keeps-bind m (err d s) e b (on_err h) = rw (e, ◌>>=◌) (on_err h)
  Keeps-bind m panic e b on_panic = rw (e, ◌>>=◌) on_panic
  Keeps-bind m stuck e b h = elim h [ ]

  pub Safe-bind : {m : Reader A} → Safe n j m → Safe n (j + k) (m >>= f)
  Safe-bind {m} h = record { at = λ r v b. Keeps-bind m (m r) refl b (h.at r v b) }

-- A step that leaves the reader as it is.
pub data Still {A : Type 0} (r : TdfReader) : Run A → Type 0 where
  still_ok : {a : A} → Still r (ok a r)
  still_panic : Still r panic

module _ {A B : Type 0} (k : ℕ) (r : TdfReader) (f : A → Reader B) where
  pub Keeps-Still :
      (m : Reader A) (x : Run A)
      → m r ≡ x
      → Still r x
      → ((a : A) → Keeps k r (f a r))
      → Keeps k r ((m >>= f) r)
  unfolding ◌>>=◌
  Keeps-Still m (ok a s) e still_ok h = rw (e, ◌>>=◌) (h a)
  Keeps-Still m panic e still_panic h = rw (e, ◌>>=◌) on_panic
  Keeps-Still m (err d s) e h g = elim h [ ]
  Keeps-Still m stuck e h g = elim h [ ]

Still-if :
    {A : Type 0} (r : TdfReader) (b : Bool) (x : Run A)
    → Still r x
    → Still r (if b then x else panic)
Still-if r true x h = h
Still-if r false x h = still_panic

end_of-Still : (n : ℕ) (r : TdfReader) → Still r (end_of n r)
unfolding end_of
end_of-Still n r = Still-if r (ltb (r.cursor + n) (2 ^ 64)) _ still_ok

slice_to-Still : (end : ℕ) (r : TdfReader) → Still r (slice_to end r)
unfolding slice_to
slice_to-Still end r = Still-if r _ _ (Still-if r _ _ still_ok)

byte_or_abort-Still : (o : Option ℕ) (r : TdfReader) → Still r (byte_or_abort o r)
unfolding byte_or_abort
byte_or_abort-Still (some b) r = still_ok
byte_or_abort-Still none r = still_panic

pub peek-Still : (r : TdfReader) → Still r (peek r)
unfolding peek
peek-Still r = byte_or_abort-Still _ r

copy_4-Still : (xs : List ℕ) (r : TdfReader) → Still r (copy_4 xs r)
unfolding copy_4
copy_4-Still (a ∷ b ∷ c ∷ d ∷ []) r = still_ok
copy_4-Still _ r = still_panic

pub len_lem : (r : TdfReader) → IsValid r → len r ≡ ok (length r.buffer - r.cursor) r
unfolding len
len_lem r v = rw (le→leb r.cursor (length r.buffer) v)

module _ (need : ℕ) (r : TdfReader) where
  end_of-cases : (end_of need r ≡ panic) ⊎ (end_of need r ≡ ok (r.cursor + need) r)
  unfolding end_of
  end_of-cases = elim (Bool-cases (ltb (r.cursor + need) usize_mod)) [
    | inl e ↦ inr (rw e)
    | inr e ↦ inl (rw e)
  ]

  pub Keeps-advance : r.cursor + need ≤ length r.buffer → Keeps need r (advance need r)
  unfolding advance
  Keeps-advance room = elim end_of-cases [
    | inl e ↦ rw (bind_panic (end_of need) _ e) on_panic
    | inr e ↦
        rw (bind_ok (end_of need) _ e)
          (on_ok (record { same = refl; forth = omega arith; within = room }))
  ]

  Keeps-eof : (k : ℕ) → IsValid r → Keeps k r (eof need r)
  unfolding eof
  Keeps-eof k v = rw (bind_ok len _ (len_lem r v)) (on_err (Moved-refl r v))

  -- The outcomes of a length test; the reader stays as it is.
  expect_length-cases :
      IsValid r
      → (expect_length need r ≡ panic)
        ⊎ ((e : DecodeError) × (expect_length need r ≡ err e r))
        ⊎ ((expect_length need r ≡ ok tt r) × (r.cursor + need ≤ length r.buffer))
  unfolding expect_length eof
  expect_length-cases v = elim end_of-cases [
    | inl e ↦ inl (bind_panic (end_of need) _ e)
    | inr e ↦ elim (Bool-cases (ltb (length r.buffer) (r.cursor + need))) [
      | inl short ↦ inr (
          inl (
            unexpected_eof r.cursor need (length r.buffer - r.cursor),
            bind_ok (end_of need) _ e ∙ rw short (bind_ok len _ (len_lem r v)),
          ))
      | inr long ↦ inr (inr (bind_ok (end_of need) _ e ∙ rw long, ground arith))
    ]
  ]

  -- What follows a length test has the bytes that it asked for.
  pub Keeps-expect :
      {A : Type 0} (k : ℕ) (f : Unit {0} → Reader A)
      → IsValid r
      → (r.cursor + need ≤ length r.buffer → Keeps k r (f tt r))
      → Keeps k r ((expect_length need >>= f) r)
  Keeps-expect k f v h = elim (expect_length-cases v) [
    | inl e ↦ rw (bind_panic (expect_length need) f e) on_panic
    | inr (inl (e, p)) ↦ rw (bind_err (expect_length need) f p) (on_err (Moved-refl r v))
    | inr (inr (e, room)) ↦ rw (bind_ok (expect_length need) f e) (h room)
  ]

-- A move by `need` bytes and a value.
Keeps-advance-pure :
    {A : Type 0} (need : ℕ) (r : TdfReader) (a : A)
    → r.cursor + need ≤ length r.buffer
    → Keeps need r ((advance need >> pure a) r)
Keeps-advance-pure need r a room = Keeps-le (omega arith) (
    Keeps-bind (length r.buffer) need 0 (λ _. pure a) (λ _ _. Safe-pure _ a) (advance need) _ refl
      (omega arith) (Keeps-advance need r room))

pub read_byte-Safe : (n : ℕ) → Safe n 1 read_byte
unfolding read_byte
read_byte-Safe n = record {
  at = λ r v b.
      Keeps-expect 1 r 1 _ v λ room.
        Keeps-Still 1 r _ peek _ refl (peek-Still r) λ byte. Keeps-advance-pure 1 r byte room;
}

pub read_byte_4-Safe : (n : ℕ) → Safe n 4 read_byte_4
unfolding read_byte_4
read_byte_4-Safe n = record {
  at = λ r v b. Keeps-expect 4 r 4 _ v λ room.
      Keeps-Still 4 r _ (end_of 4) _ refl (end_of-Still 4 r) λ end.
        Keeps-Still 4 r _ (slice_to end) _ refl (slice_to-Still end r) λ slice.
          Keeps-Still 4 r _ (copy_4 slice) _ refl (copy_4-Still slice r)
            λ bytes. Keeps-advance-pure 4 r bytes room;
}

pub read_slice-Safe : (n size : ℕ) → Safe n size (read_slice size)
unfolding read_slice
read_slice-Safe n size = record {
  at = λ r v b. Keeps-expect size r size _ v λ room.
      Keeps-Still size r _ (end_of size) _ refl (end_of-Still size r) λ end.
        Keeps-Still size r _ (slice_to end) _ refl (slice_to-Still end r)
          λ slice. Keeps-advance-pure size r slice room;
}

-- A read that is safe whatever is left.
module _ {A B : Type 0} where
  pub Safe-then :
      {n : ℕ} (j : ℕ) {m : Reader A} {f : A → Reader B}
      → Safe n j m
      → ((a : A) → Safe (n - j) 0 (f a))
      → Safe n j (m >>= f)
  Safe-then {n} j {f} h g = Safe-le (omega arith) (omega arith) (Safe-bind n j 0 f (λ _. g) h)

  -- What follows a read that takes `j` bytes runs only where there were so many.
  pub Safe-then_le :
      {n : ℕ} (j : ℕ) {m : Reader A} {f : A → Reader B}
      → Safe n j m
      → (j ≤ n → (a : A) → Safe (n - j) 0 (f a))
      → Safe n j (m >>= f)
  Safe-then_le {n} j {f} h g = Safe-le (omega arith) (omega arith) (Safe-bind n j 0 f g h)

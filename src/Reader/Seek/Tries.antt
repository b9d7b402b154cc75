-- ===== src/Reader/Seek/Tries.antt =====
-- What the two methods do that try: `try_until_tag` and `try_tag` put the cursor back where they did
-- not find their tag.
use blaze_pk_rs.Prelude.{
  ℕ, suc, ◌-◌, ◌≡◌, refl, Bool, true, false, List, Option, none, some, length, arith,
}
use blaze_pk_rs.Tag.{Tag, TdfType, from_slice}
use blaze_pk_rs.Error.{
  DecodeError, DecodeResult, missing_tag, invalid_tag_type, invalid_type, unexpected_eof,
  unknown_type, other,
}
use blaze_pk_rs.Reader.Bind.{bind_ok, bind_panic}
use blaze_pk_rs.Reader.{TdfReader, Run, ok, err, panic, stuck, Reader, ◌>>=◌, pure}
use blaze_pk_rs.Reader.Keeps.{IsValid, Moved, Keeps, on_ok, on_err, Safe, Safe-then}
use blaze_pk_rs.Reader.Seek.{
  attempt, reset, to_tag, try_until_tag_loop, try_until_tag_end, try_until_tag, tag, try_tag_end,
  try_tag,
}
use blaze_pk_rs.Reader.Seek.Attempt.{
  attempt_ok, attempt_err, attempt_panic, to_tag-some, to_tag-none,
}
use blaze_pk_rs.Codec.{Codec}
use blaze_pk_rs.Reader.Seek.Safety.{
  IsCalm, until_tag-Safe, try_until_tag_loop-Safe, try_until_tag_loop-Calm,
}

-- What `try_until_tag` may do in the reader `r`: it returns `true` and has moved on within the
-- buffer, or it returns `false` and leaves the reader exactly as it was, or it panics.
pub data Tries (r : TdfReader) : Run Bool → Type 0 where
  found : {s : TdfReader} → Moved 0 r s → Tries r (ok true s)
  missed : Tries r (ok false r)
  panicked : Tries r panic

back_at_start : (r s : TdfReader) → s.buffer ≡ r.buffer → record s { cursor = r.cursor } ≡ r
back_at_start r s e = λ i. record { buffer = e i; cursor = r.cursor }

Tries-end :
    (r : TdfReader) (m : Reader Bool) (x : Run Bool)
    → m r ≡ x
    → IsCalm x
    → Keeps 0 r x
    → Tries r ((m >>= λ answer. try_until_tag_end r.cursor answer) r)
unfolding try_until_tag_end reset
Tries-end r m (ok true s) e c (on_ok h) =
    rw (bind_ok m (λ answer. try_until_tag_end r.cursor answer) e) (found h)
Tries-end r m (ok false s) e c (on_ok h) =
    rw (bind_ok m (λ answer. try_until_tag_end r.cursor answer) e) (
      rw (bind_ok (reset r.cursor) (λ _. pure false) {r = s} refl)
        (rw (back_at_start r s h.same) missed))
Tries-end r m (err d s) e c h = absurd c
Tries-end r m panic e c h =
    rw (bind_panic m (λ answer. try_until_tag_end r.cursor answer) e) panicked
Tries-end r m stuck e c h = elim h [ ]

-- In every valid reader `try_until_tag` returns `true` with the same buffer and a cursor that has
-- not moved back and stands within it, or it returns `false` and leaves the reader exactly as it
-- was, or it panics. It returns no error and does not run out of fuel.
pub try_until_tag-Tries :
    (name : List ℕ) (ty : TdfType) (r : TdfReader) → IsValid r → Tries r (try_until_tag name ty r)
unfolding try_until_tag
try_until_tag-Tries name ty r v = go (from_slice name) refl
  where
    go : (o : Option Tag) → from_slice name ≡ o → Tries r (try_until_tag name ty r)
    go (some tag) e =
        let left = length r.buffer - r.cursor in
        let loop = try_until_tag_loop (suc left) tag ty in
        rw (bind_ok (to_tag name) _ (to_tag-some name r e)) (
          Tries-end r loop (loop r) refl ((try_until_tag_loop-Calm (suc left) tag ty).at r)
            ((try_until_tag_loop-Safe tag ty (suc left) left (omega arith)).at r v (omega arith)))
    go none e = rw (bind_panic (to_tag name) _ (to_tag-none name r e)) panicked

-- Whether an error says that a tag is missing.
abbrev pub is_missing : DecodeError → Bool
is_missing (missing_tag _ _) = true
is_missing (invalid_tag_type _ _ _) = false
is_missing (invalid_type _ _) = false
is_missing (unknown_type _) = false
is_missing (unexpected_eof _ _ _) = false
is_missing (other _) = false

-- What `try_tag` does in the reader `r` where `tag` comes to the first outcome. It returns the same
-- value in the same place, which is not before `r` and within the buffer, or `None`, if a tag is
-- reported as missing, and leaves the reader exactly as it was, or the same error in the same place.
pub data TriesTag {C : Type 0} (r : TdfReader) : Run C → Run (Option C) → Type 0 where
  value_found :
      {value : C} {s : TdfReader} → Moved 0 r s → TriesTag r (ok value s) (ok (some value) s)
  value_missed :
      {d : DecodeError} {s : TdfReader} → is_missing d ≡ true → TriesTag r (err d s) (ok none r)
  value_failed :
      {d : DecodeError} {s : TdfReader}
      → is_missing d ≡ false
      → Moved 0 r s
      → TriesTag r (err d s) (err d s)
  value_panicked : TriesTag r panic panic

module _ {C : Type 0} (c : Codec C) where
  tag-Safe : (n : ℕ) (name : List ℕ) → ((k : ℕ) → Safe k 0 c.decode) → Safe n 0 (tag c name)
  unfolding tag
  tag-Safe n name h = Safe-then 0 (until_tag-Safe n name c.value_type) λ _. h (n - 0)

  try_tag_error :
      (r s : TdfReader) (e : DecodeError)
      → Moved 0 r s
      → TriesTag r (err e s) (try_tag_end c r.cursor (DecodeResult.err e) s)
  unfolding try_tag_end reset
  try_tag_error r s (missing_tag t ty) h =
      rw (bind_ok (reset r.cursor) (λ _. pure none) {r = s} refl)
        (rw (back_at_start r s h.same) (value_missed refl))
  try_tag_error r s (invalid_tag_type t e a) h = value_failed refl h
  try_tag_error r s (invalid_type e a) h = value_failed refl h
  try_tag_error r s (unknown_type t) h = value_failed refl h
  try_tag_error r s (unexpected_eof a b d) h = value_failed refl h
  try_tag_error r s (other t) h = value_failed refl h

  TriesTag-end :
      (r : TdfReader) (m : Reader C) (x : Run C)
      → m r ≡ x
      → Keeps 0 r x
      → TriesTag r x ((attempt m >>= λ result. try_tag_end c r.cursor result) r)
  unfolding try_tag_end
  TriesTag-end r m (ok value s) e (on_ok h) =
      rw (attempt_ok m (try_tag_end c r.cursor) e) (value_found h)
  TriesTag-end r m (err d s) e (on_err h) =
      rw (attempt_err m (try_tag_end c r.cursor) e) (try_tag_error r s d h)
  TriesTag-end r m panic e h = rw (attempt_panic m (try_tag_end c r.cursor) e) value_panicked
  TriesTag-end r m stuck e h = elim h [ ]

  -- If the decoder of a value keeps the buffer, moves the cursor forth within it and does not run
  -- out of fuel, then `try_tag` in a valid reader does what `tag` does, but that it returns `None`
  -- and leaves the reader exactly as it was where that reports a tag as missing.
  pub try_tag-TriesTag :
      (name : List ℕ) (r : TdfReader)
      → ((k : ℕ) → Safe k 0 c.decode)
      → IsValid r
      → TriesTag r (tag c name r) (try_tag c name r)
  unfolding try_tag
  try_tag-TriesTag name r h v =
      let m = tag c name in
      TriesTag-end r m (m r) refl
        ((tag-Safe (length r.buffer - r.cursor) name h).at r v (omega arith))

-- ===== src/Reader/Seek/Agrees.antt =====
-- The two methods that try, against those that return an error where these do not find their tag.
use blaze_pk_rs.Prelude.{
  ℕ, zero, suc, ◌-◌, ◌≡◌, refl, Bool, true, false, inl, inr, Bool-cases, List, Option, none, some,
  length,
}
use blaze_pk_rs.Tag.{Tag, TdfType, Tagged, from_slice, tag_eq}
use blaze_pk_rs.Tag.Code.{ty_eq}
use blaze_pk_rs.Error.{
  DecodeError, DecodeResult, missing_tag, invalid_tag_type, invalid_type, unexpected_eof,
  unknown_type, other,
}
use blaze_pk_rs.Reader.Bind.{bind_ok, bind_err, bind_panic, bind_stuck}
use blaze_pk_rs.Reader.{TdfReader, Run, ok, err, panic, stuck, Reader, ◌>>=◌, pure}
use blaze_pk_rs.Reader.Keeps.{IsValid, Moved, Safe}
use blaze_pk_rs.Reader.Tagged.{read_tag}
use blaze_pk_rs.Reader.Skip.{skip_type}
use blaze_pk_rs.Reader.Seek.{
  attempt, reset, to_tag, until_tag_round, until_tag_loop, until_tag, try_skipped,
  try_until_tag_round, try_until_tag_loop, try_until_tag_end, try_until_tag, tag, try_tag,
}
use blaze_pk_rs.Reader.Seek.Attempt.{
  attempt_ok, attempt_err, attempt_panic, attempt_stuck, to_tag-some, to_tag-none,
}
use blaze_pk_rs.Reader.Seek.Tries.{
  Tries, found, missed, panicked, TriesTag, try_until_tag-Tries, try_tag-TriesTag,
}
use blaze_pk_rs.Codec.{Codec}

-- What `try_until_tag` answers where `until_tag` comes to the first outcome: `true` in the same
-- place if that finds the tag, and `false` whatever its error is.
pub data Agrees : Run (Unit {0}) → Run Bool → Type 0 where
  both_find : {s : TdfReader} → Agrees (ok tt s) (ok true s)
  neither : {d : DecodeError} {s t : TdfReader} → Agrees (err d s) (ok false t)
  both_panic : Agrees panic panic
  both_stuck : Agrees stuck stuck

module _ (tag : Tag) (ty : TdfType) (more : Reader (Unit {0})) (try_more : Reader Bool)
    (rest : (s : TdfReader) → Agrees (more s) (try_more s)) where
  skipped-Agrees :
      (r : TdfReader) (next : TdfType) (x : Run (Unit {0}))
      → skip_type next r ≡ x
      → Agrees
          ((skip_type next >>= λ _. more) r)
          ((attempt (skip_type next) >>= λ result. try_skipped try_more result) r)
  unfolding try_skipped
  skipped-Agrees r next (ok u s) e =
      rw (bind_ok (skip_type next) (λ _. more) e)
        (rw (attempt_ok (skip_type next) (try_skipped try_more) e) (rest s))
  skipped-Agrees r next (err d s) e =
      rw (bind_err (skip_type next) (λ _. more) e)
        (rw (attempt_err (skip_type next) (try_skipped try_more) e) neither)
  skipped-Agrees r next panic e =
      rw (bind_panic (skip_type next) (λ _. more) e)
        (rw (attempt_panic (skip_type next) (try_skipped try_more) e) both_panic)
  skipped-Agrees r next stuck e =
      rw (bind_stuck (skip_type next) (λ _. more) e)
        (rw (attempt_stuck (skip_type next) (try_skipped try_more) e) both_stuck)

  error-Agrees :
      (r : TdfReader) (d : DecodeError)
      → Agrees
          (until_tag_round tag ty more (DecodeResult.err d) r)
          (try_until_tag_round tag ty try_more (DecodeResult.err d) r)
  unfolding until_tag_round try_until_tag_round
  error-Agrees r (missing_tag t ty) = neither
  error-Agrees r (invalid_tag_type t e a) = neither
  error-Agrees r (invalid_type e a) = neither
  error-Agrees r (unknown_type t) = neither
  error-Agrees r (unexpected_eof a b d) = neither
  error-Agrees r (other t) = neither

  round-Agrees :
      (r : TdfReader) (next : Tagged)
      → Agrees
          (until_tag_round tag ty more (DecodeResult.ok next) r)
          (try_until_tag_round tag ty try_more (DecodeResult.ok next) r)
  unfolding until_tag_round try_until_tag_round
  round-Agrees r next = elim (Bool-cases (tag_eq next.tag tag)) [
    | inl wanted ↦ rw wanted (elim (Bool-cases (ty_eq next.ty ty)) [
      | inl same ↦ rw same both_find
      | inr differs ↦ rw differs neither
    ])
    | inr passed ↦ rw passed (skipped-Agrees r next.ty (skip_type next.ty r) refl)
  ]

  read-Agrees :
      (r : TdfReader) (x : Run Tagged)
      → read_tag r ≡ x
      → Agrees
          ((attempt read_tag >>= λ result. until_tag_round tag ty more result) r)
          ((attempt read_tag >>= λ result. try_until_tag_round tag ty try_more result) r)
  read-Agrees r (ok next s) e =
      rw (attempt_ok read_tag (until_tag_round tag ty more) e)
        (rw (attempt_ok read_tag (try_until_tag_round tag ty try_more) e) (round-Agrees s next))
  read-Agrees r (err d s) e =
      rw (attempt_err read_tag (until_tag_round tag ty more) e)
        (rw (attempt_err read_tag (try_until_tag_round tag ty try_more) e) (error-Agrees s d))
  read-Agrees r panic e =
      rw (attempt_panic read_tag (until_tag_round tag ty more) e)
        (rw (attempt_panic read_tag (try_until_tag_round tag ty try_more) e) both_panic)
  read-Agrees r stuck e =
      rw (attempt_stuck read_tag (until_tag_round tag ty more) e)
        (rw (attempt_stuck read_tag (try_until_tag_round tag ty try_more) e) both_stuck)

loop-Agrees :
    (fuel : ℕ) (tag : Tag) (ty : TdfType) (r : TdfReader)
    → Agrees (until_tag_loop fuel tag ty r) (try_until_tag_loop fuel tag ty r)
unfolding until_tag_loop try_until_tag_loop
loop-Agrees zero tag ty r = both_stuck
loop-Agrees (suc fuel) tag ty r =
    read-Agrees tag ty (until_tag_loop fuel tag ty) (try_until_tag_loop fuel tag ty)
      (loop-Agrees fuel tag ty) r (read_tag r) refl

end-Agrees :
    (start : ℕ) (r : TdfReader) (m : Reader Bool) (x : Run (Unit {0})) (y : Run Bool)
    → m r ≡ y
    → Agrees x y
    → Agrees x ((m >>= λ found. try_until_tag_end start found) r)
unfolding try_until_tag_end reset
end-Agrees start r m _ _ e both_find =
    rw (bind_ok m (λ found. try_until_tag_end start found) e) both_find
end-Agrees start r m _ (ok _ t) e neither =
    rw (bind_ok m (λ found. try_until_tag_end start found) e)
      (rw (bind_ok (reset start) (λ _. pure false) {r = t} refl) neither)
end-Agrees start r m _ _ e both_panic =
    rw (bind_panic m (λ found. try_until_tag_end start found) e) both_panic
end-Agrees start r m _ _ e both_stuck =
    rw (bind_stuck m (λ found. try_until_tag_end start found) e) both_stuck

until-Agrees :
    (name : List ℕ) (ty : TdfType) (r : TdfReader)
    → Agrees (until_tag name ty r) (try_until_tag name ty r)
unfolding until_tag try_until_tag
until-Agrees name ty r = go (from_slice name) refl
  where
    go :
        (o : Option Tag)
        → from_slice name ≡ o
        → Agrees (until_tag name ty r) (try_until_tag name ty r)
    go (some tag) e =
        let loop = try_until_tag_loop (suc (length r.buffer - r.cursor)) tag ty in
        rw (bind_ok (to_tag name) _ (to_tag-some name r e)) (
          rw (bind_ok (to_tag name) _ (to_tag-some name r e)) (
            end-Agrees r.cursor r loop _ (loop r) refl
              (loop-Agrees (suc (length r.buffer - r.cursor)) tag ty r)))
    go none e =
        rw (bind_panic (to_tag name) _ (to_tag-none name r e))
          (rw (bind_panic (to_tag name) _ (to_tag-none name r e)) both_panic)

-- What `try_until_tag` does in the reader `r` where `until_tag` comes to the first outcome.
pub data TriesUntil (r : TdfReader) : Run (Unit {0}) → Run Bool → Type 0 where
  tag_found : {s : TdfReader} → Moved 0 r s → TriesUntil r (ok tt s) (ok true s)
  tag_missed : {d : DecodeError} {s : TdfReader} → TriesUntil r (err d s) (ok false r)
  tag_panics : TriesUntil r panic panic

Tries-Agrees :
    {r : TdfReader} (x : Run (Unit {0})) (y : Run Bool) → Agrees x y → Tries r y → TriesUntil r x y
Tries-Agrees _ _ both_find (found h) = tag_found h
Tries-Agrees _ _ neither missed = tag_missed
Tries-Agrees _ _ both_panic panicked = tag_panics
Tries-Agrees _ _ both_stuck h = elim h [ ]

-- In every valid reader `try_until_tag` returns `true` exactly where `until_tag` finds the tag, and
-- with the same place, which is not before the reader's and within the buffer. Where `until_tag`
-- returns an error, of any kind, it returns `false` and leaves the reader exactly as it was, and it
-- panics where that panics. `try_tag` returns the value, or the error, that `tag` returns, in the
-- same place, but that it returns `None` and leaves the reader exactly as it was where that error
-- says that a tag is missing, and it panics where that panics; the decoder of the value keeps the
-- buffer, moves the cursor forth within it and does not run out of fuel. Neither runs out of fuel.
pub try_lem :
    {C : Type 0} (c : Codec C) (name : List ℕ) (ty : TdfType) (r : TdfReader)
    → ((k : ℕ) → Safe k 0 c.decode)
    → IsValid r
    → TriesUntil r (until_tag name ty r) (try_until_tag name ty r)
      × TriesTag r (tag c name r) (try_tag c name r)
try_lem c name ty r h v = (
  Tries-Agrees (until_tag name ty r) (try_until_tag name ty r) (until-Agrees name ty r)
      (try_until_tag-Tries name ty r v),
  try_tag-TriesTag c name r h v,
)

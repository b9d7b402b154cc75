-- ===== src/Reader/Seek/Attempt.antt =====
-- What a caller finds that matches on the result of a method.
use blaze_pk_rs.Prelude.{ℕ, List, some, none, ◌≡◌, refl}
use blaze_pk_rs.Tag.{Tag, from_slice}
use blaze_pk_rs.Error.{DecodeError, DecodeResult}
use blaze_pk_rs.Reader.Bind.{bind_ok, bind_panic, bind_stuck}
use blaze_pk_rs.Reader.{TdfReader, ok, err, panic, stuck, Reader, ◌>>=◌}
use blaze_pk_rs.Reader.Seek.{attempt, to_tag}

module _ {A B : Type 0} (m : Reader A) (f : DecodeResult A → Reader B) {r : TdfReader} where
  pub attempt_ok :
      {s : TdfReader} {a : A} → m r ≡ ok a s → (attempt m >>= f) r ≡ f (DecodeResult.ok a) s
  unfolding attempt
  attempt_ok e = bind_ok (attempt m) f (rw (e, attempt))

  pub attempt_err :
      {s : TdfReader} {d : DecodeError}
      → m r ≡ err d s
      → (attempt m >>= f) r ≡ f (DecodeResult.err d) s
  unfolding attempt
  attempt_err e = bind_ok (attempt m) f (rw (e, attempt))

  pub attempt_panic : m r ≡ panic → (attempt m >>= f) r ≡ panic
  unfolding attempt
  attempt_panic e = bind_panic (attempt m) f (rw (e, attempt))

  pub attempt_stuck : m r ≡ stuck → (attempt m >>= f) r ≡ stuck
  unfolding attempt
  attempt_stuck e = bind_stuck (attempt m) f (rw (e, attempt))

module _ (name : List ℕ) (r : TdfReader) where
  pub to_tag-some : {t : Tag} → from_slice name ≡ some t → to_tag name r ≡ ok t r
  unfolding to_tag
  to_tag-some e = rw (e, to_tag) refl

  pub to_tag-none : from_slice name ≡ none → to_tag name r ≡ panic
  unfolding to_tag
  to_tag-none e = rw (e, to_tag) refl

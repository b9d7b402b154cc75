-- ===== src/Reader/Bind.antt =====
-- What a bind does on each outcome of its first part.
use blaze_pk_rs.Prelude.{◌≡◌}
use blaze_pk_rs.Error.{DecodeError}
use blaze_pk_rs.Reader.{TdfReader, ok, err, panic, stuck, Reader, ◌>>=◌}

module _ {A B : Type 0} (m : Reader A) (f : A → Reader B) {r : TdfReader} where
  pub bind_ok : {s : TdfReader} {a : A} → m r ≡ ok a s → (m >>= f) r ≡ f a s
  unfolding ◌>>=◌
  bind_ok e = rw (e, ◌>>=◌)

  pub bind_err : {s : TdfReader} {e : DecodeError} → m r ≡ err e s → (m >>= f) r ≡ err e s
  unfolding ◌>>=◌
  bind_err e = rw (e, ◌>>=◌)

  pub bind_panic : m r ≡ panic → (m >>= f) r ≡ panic
  unfolding ◌>>=◌
  bind_panic e = rw (e, ◌>>=◌)

  pub bind_stuck : m r ≡ stuck → (m >>= f) r ≡ stuck
  unfolding ◌>>=◌
  bind_stuck e = rw (e, ◌>>=◌)

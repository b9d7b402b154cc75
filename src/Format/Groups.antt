-- ===== src/Format/Groups.antt =====
-- One round of the loop over the fields of a group that is skipped, and the byte before them.
use mathlib.Core.Path.{subst}
use blaze_pk_rs.Prelude.{
  ℕ, suc, ◌-◌, ◌≤◌, ◌≡◌, ◌≢◌, sym, ◌∙◌, false, List, [], ◌∷◌, ◌++◌, append_assoc, length,
  length-append, lt→ltb, ◌==◌, ==_iff, Bool-cases, inl, inr, arith,
}
use blaze_pk_rs.Tag.{TdfType}
use blaze_pk_rs.Reader.{Reader, ok, ◌>>=◌, peek, retreat, read_byte}
use blaze_pk_rs.Reader.Bind.{bind_ok}
use blaze_pk_rs.Reader.Reads.{
  Reads, between, Reads-pure, Reads-bind, read_byte-Reads, peek-between, advance-between,
}
use blaze_pk_rs.Reader.Skip.{skip_group_2, skip_tagged, skip_group_loop}
use blaze_pk_rs.Format.Tokens.{Starts}

pub not_eq : (a b : ℕ) → a ≢ b → (a == b) ≡ false
not_eq a b h = elim (Bool-cases (a == b)) [ inl e ↦ absurd (h ((==_iff a b).0 e)) | inr e ↦ e ]

module _ (go : TdfType → Reader (Unit {0})) (fuel : ℕ) where
  pub loop_end : Reads (skip_group_loop go (suc fuel)) (0 ∷ []) tt
  unfolding skip_group_loop
  loop_end = record {
    run = λ front back fits.
        rw
          (lt→ltb (length front) (length (front ++ 0 ∷ back))
            (omega (arith, length-append front (0 ∷ back))))
          (bind_ok peek _ (peek-between front 0 back) ∙ advance-between front (0 ∷ []) back fits);
  }

  pub loop_more :
      (b : ℕ) (bs : List ℕ)
      → 128 ≤ b
      → Reads (skip_tagged go >>= λ _. skip_group_loop go fuel) (b ∷ bs) tt
      → Reads (skip_group_loop go (suc fuel)) (b ∷ bs) tt
  unfolding skip_group_loop
  loop_more b bs high h = record {
    run = λ front back fits.
        rw
          (lt→ltb (length front) (length (front ++ b ∷ (bs ++ back)))
            (omega (arith, length-append front (b ∷ (bs ++ back)))))
          (bind_ok peek _ (peek-between front b (bs ++ back))
            ∙ rw (not_eq b 0 (λ e. omega (arith, e))) (h.run front back fits));
  }

-- A byte that is read and put back.
retreat-between :
    (front : List ℕ) (b : ℕ) (back : List ℕ)
    → retreat (between (front ++ b ∷ []) back) ≡ ok tt (between front (b ∷ back))
unfolding retreat
retreat-between front b back =
    rw (lt→ltb 0 (length (front ++ b ∷ [])) (omega (arith, length-append front (b ∷ []))))
      (λ i. ok tt (record { buffer = append_assoc front (b ∷ []) back i; cursor = back_one i }))
  where
    back_one : length (front ++ b ∷ []) - 1 ≡ length front
    back_one = omega (arith, length-append front (b ∷ []))

pub not_two :
    (m : Unit {0} → Reader (Unit {0})) (b : ℕ) (bs : List ℕ)
    → b ≢ 2
    → Reads (m tt) (b ∷ bs) tt
    → Reads (skip_group_2 >>= m) (b ∷ bs) tt
unfolding skip_group_2
not_two m b bs h hm = record {
  run = λ front back fits.
      let peeked : skip_group_2 (between front (b ∷ (bs ++ back)))
          ≡ ok tt (between front (b ∷ (bs ++ back))) =
        bind_ok read_byte _ ((read_byte-Reads b).run front (bs ++ back) fits)
        ∙ rw (not_eq b 2 h) (retreat-between front b (bs ++ back)) in
      bind_ok skip_group_2 m peeked ∙ hm.run front back fits;
}

pub two : Reads skip_group_2 (2 ∷ []) tt
unfolding skip_group_2
two = Reads-bind read_byte _ (read_byte-Reads 2) (Reads-pure tt)

pub loop_fuel :
    (go : TdfType → Reader (Unit {0})) (xs : List ℕ)
    → ((fuel : ℕ) → length xs ≤ fuel → Reads (skip_group_loop go (suc fuel)) xs tt)
    → Reads (λ r. skip_group_loop go (suc (length r.buffer - r.cursor)) r) xs tt
loop_fuel go xs h = record {
  run = λ front back fits.
      (h (length (front ++ (xs ++ back)) - length front)
          (omega (arith, length-append front (xs ++ back), length-append xs back))).run
        front back fits;
}

-- The same for bytes that begin with a high one.
pub loop_Starts :
    (go : TdfType → Reader (Unit {0})) (fuel : ℕ) {xs : List ℕ}
    → Starts xs
    → Reads (skip_tagged go >>= λ _. skip_group_loop go fuel) xs tt
    → Reads (skip_group_loop go (suc fuel)) xs tt
loop_Starts go fuel s h =
    subst (λ xs. Reads (skip_group_loop go (suc fuel)) xs tt) (sym s.eq)
      (loop_more go fuel s.first s.rest s.high
        (subst (λ xs. Reads (skip_tagged go >>= λ _. skip_group_loop go fuel) xs tt) s.eq h))

pub not_two_Starts :
    (m : Unit {0} → Reader (Unit {0})) {xs : List ℕ}
    → Starts xs
    → Reads (m tt) xs tt
    → Reads (skip_group_2 >>= m) xs tt
not_two_Starts m s h =
    subst (λ xs. Reads (skip_group_2 >>= m) xs tt) (sym s.eq)
      (not_two m s.first s.rest (λ e. omega (arith, e, s.high))
        (subst (λ xs. Reads (m tt) xs tt) s.eq h))

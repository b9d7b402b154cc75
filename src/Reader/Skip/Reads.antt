-- ===== src/Reader/Skip/Reads.antt =====
-- `skip_type` takes exactly the bytes that it may take at some depth of nesting.
use blaze_pk_rs.Prelude.{ℕ, suc, ◌-◌, ◌≤◌, List, ◌++◌, length, length-append, arith}
use blaze_pk_rs.Tag.{TdfType}
use blaze_pk_rs.Reader.Reads.{Reads}
use blaze_pk_rs.Reader.Skip.{skip_nested, skip_type}

pub skip_type-Reads :
    (ty : TdfType) (xs : List ℕ)
    → ((depth : ℕ) → length xs ≤ depth → Reads (skip_nested (suc depth) ty) xs tt)
    → Reads (skip_type ty) xs tt
unfolding skip_type
skip_type-Reads ty xs h = record {
  run = λ front back fits.
      (h (length (front ++ (xs ++ back)) - length front)
          (omega (arith, length-append front (xs ++ back), length-append xs back))).run
        front back fits;
}

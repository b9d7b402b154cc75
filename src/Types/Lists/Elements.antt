-- ===== src/Types/Lists/Elements.antt =====
-- The elements of a list: encoded, decoded and skipped one after another.
use mathlib.Core.Path.{subst}
use blaze_pk_rs.Prelude.{
  ℕ, suc, ◌*◌, ◌^◌, ◌<◌, ◌≤◌, refl, List, [], ◌∷◌, ◌++◌, append-nil, length, length-append, All,
  lt→ltb, arith,
}
use blaze_pk_rs.Tag.{TdfType}
use blaze_pk_rs.Tag.Code.{ty_eq_iff}
use blaze_pk_rs.Reader.{Reader, ◌>>=◌, pure}
use blaze_pk_rs.Reader.Reads.{Reads, Reads-pure, Reads-bind}
use blaze_pk_rs.Reader.Skip.{repeat, skip_nested}
use blaze_pk_rs.Reader.Seek.{expect_type}
use blaze_pk_rs.Writer.Writes.{Writes, Writes-nothing, Writes-then}
use blaze_pk_rs.Codec.{Codec, IsLawful}
use blaze_pk_rs.Types.Lists.{with_capacity, encode_each, decode_each}

-- Two reads, and what is made of their values.
pub Reads-pair :
    {A B D : Type 0} (m : Reader A) (k : A → Reader B) (f : A → B → D) {xs ys : List ℕ} {a : A}
    {b : B}
    → Reads m xs a
    → Reads (k a) ys b
    → Reads (m >>= λ x. k x >>= λ y. pure (f x y)) (xs ++ ys) (f a b)
Reads-pair m k f {xs} {ys} {a} {b} hm hk =
    Reads-bind m (λ x. k x >>= λ y. pure (f x y)) hm
      (subst (λ zs. Reads (k a >>= λ y. pure (f a y)) zs (f a b)) (append-nil ys)
        (Reads-bind (k a) (λ y. pure (f a y)) hk (Reads-pure (f a b))))

pub expect_type-Reads : (ty : TdfType) → Reads (expect_type ty ty) [] tt
unfolding expect_type
expect_type-Reads ty = rw ((ty_eq_iff ty ty).1 refl) (Reads-pure tt)

pub with_capacity-Reads : (size n : ℕ) → n * size < 2 ^ 63 → Reads (with_capacity size n) [] tt
unfolding with_capacity
with_capacity-Reads size n h = rw (lt→ltb (n * size) (2 ^ 63) h) (Reads-pure tt)

pub record Elements {C : Type 0} (c : Codec C) (values : List C) : Type 0 where
  pub bytes : List ℕ
  pub writes : Writes (encode_each c values) bytes
  pub reads : Reads (decode_each c (length values)) bytes values
  pub skips :
      (depth : ℕ)
      → length bytes ≤ depth
      → Reads (repeat (length values) (skip_nested (suc depth) c.value_type)) bytes tt

pub elements :
    {C : Type 0} {c : Codec C} {Fits : C → Type 0}
    → IsLawful c Fits
    → (values : List C) → All Fits values
    → Elements c values
unfolding encode_each decode_each repeat
elements h [] fits = record {
  bytes = [];
  writes = Writes-nothing;
  reads = Reads-pure [];
  skips = λ depth d. Reads-pure tt;
}
elements {c = c} h (value ∷ values) (fit, fits) =
    let l = h.law value fit in
    let rest = elements h values fits in
    record {
      bytes = l.bytes ++ rest.bytes;
      writes = Writes-then l.writes rest.writes;
      reads =
          Reads-pair c.decode (λ _. decode_each c (length values)) (λ x xs. x ∷ xs) l.reads
            rest.reads;
      skips = λ depth d.
          Reads-bind (skip_nested (suc depth) c.value_type) _
            (l.skips depth (omega (arith, length-append l.bytes rest.bytes)))
            (rest.skips depth (omega (arith, length-append l.bytes rest.bytes)));
    }

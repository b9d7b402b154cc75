-- ===== src/Prelude/Classes.antt =====
-- Interfaces of keys: a Boolean equality, and a total order.
use mathlib.Core.Path.{◌≡◌, sym, ◌∙◌}
use mathlib.Core.Logic.{◌↔◌, inl, inr}
use mathlib.Core.Bool.{Bool, true, false}
use Prim.Native.Nat.{ℕ}
use blaze_pk_rs.Prelude.Tests.{◌==◌, ==_iff, leb, Bool-cases}
use native.Mathlib.Omega.{arith}

pub record Eq {ℓ} (A : Type ℓ) : Type ℓ where
  pub eq : A → A → Bool
  pub eq_iff : (a b : A) → (eq a b ≡ true) ↔ (a ≡ b)

-- `le a b` is `a.cmp(b) != Greater`.
pub record Ord {ℓ} (A : Type ℓ) : Type ℓ where
  pub le : A → A → Bool
  pub le_total : (a b : A) → le a b ≡ false → le b a ≡ true
  pub le_trans : (a b c : A) → le a b ≡ true → le b c ≡ true → le a c ≡ true
  pub le_antisym : (a b : A) → le a b ≡ true → le b a ≡ true → a ≡ b

instance abbrev pub nat_eq : Eq ℕ
nat_eq = record { eq = ◌==◌; eq_iff = ==_iff }

pub nat_total : (a b : ℕ) → leb a b ≡ false → leb b a ≡ true
nat_total a b h = ground arith

pub nat_trans : (a b c : ℕ) → leb a b ≡ true → leb b c ≡ true → leb a c ≡ true
nat_trans a b c h g = ground arith

pub nat_antisym : (a b : ℕ) → leb a b ≡ true → leb b a ≡ true → a ≡ b
nat_antisym a b h g = ground arith

abbrev pub nat_ord : Ord ℕ
nat_ord = record {
  le = leb;
  le_total = λ a b h. nat_total a b h;
  le_trans = λ a b c h g. nat_trans a b c h g;
  le_antisym = λ a b h g. nat_antisym a b h g;
}

-- What is equal to one of two different keys is not equal to the other.
module _ {ℓ} {K : Type ℓ} ⦃e : Eq K⦄ where
  pub apart : (x y key : K) → e.eq x y ≡ false → e.eq x key ≡ true → e.eq y key ≡ false
  apart x y key differs hit = elim (Bool-cases (e.eq y key)) [
    | inl same ↦
        let alike : x ≡ y = (e.eq_iff x key).0 hit ∙ sym ((e.eq_iff y key).0 same) in
        absurd (cc ((e.eq_iff x y).1 alike, differs))
    | inr other ↦ other
  ]

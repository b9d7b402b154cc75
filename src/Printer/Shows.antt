-- ===== src/Printer/Shows.antt =====
-- What it means that a method reads exactly the bytes `xs` and appends exactly the text `t`.
use mathlib.Core.Path.{subst}
use blaze_pk_rs.Prelude.{
  ℕ, suc, ◌-◌, ◌<◌, ◌≤◌, ◌≡◌, sym, ap, ◌∙◌, List, [], ◌++◌, append_assoc, append-nil, length,
  length-append, arith,
}
use blaze_pk_rs.Text.{Text}
use blaze_pk_rs.Reader.{Reader}
use blaze_pk_rs.Reader.Reads.{Reads, between, slice_limit}
use blaze_pk_rs.Printer.{Printer, done, push, ◌▸◌, read, either_way}

pub record Shows (p : Printer) (xs : List ℕ) (t : Text) : Type 0 where
  pub run :
      (front back : List ℕ) (out : Text)
      → length (front ++ (xs ++ back)) < slice_limit
      → p (between front (xs ++ back)) out ≡ done (between (front ++ xs) back) (out ++ t)

pub Shows-push : (t : Text) → Shows (push t) [] t
unfolding push
Shows-push t = record {
  run = λ front back out h. ap (λ f. done (between f back) (out ++ t)) (sym (append-nil front));
}

-- The bytes of two parts, in one buffer.
module _ (front xs ys back : List ℕ) where
  regroup :
      length (front ++ ((xs ++ ys) ++ back)) < slice_limit
      → length (front ++ (xs ++ (ys ++ back))) < slice_limit
  regroup h = rw append_assoc at h

  advance_front :
      length (front ++ (xs ++ (ys ++ back))) < slice_limit
      → length ((front ++ xs) ++ (ys ++ back)) < slice_limit
  advance_front h = rw append_assoc h

pub Shows-then :
    {p q : Printer} {xs ys : List ℕ} {t u : Text}
    → Shows p xs t
    → Shows q ys u
    → Shows (p ▸ q) (xs ++ ys) (t ++ u)
unfolding ◌▸◌
Shows-then {p} {q} {xs} {ys} {t} {u} hp hq = record {
  run = λ front back out h.
      let whole = regroup front xs ys back h in
      rw (append_assoc xs ys back) (
        rw (hp.run front (ys ++ back) out whole, ◌▸◌)
          (hq.run (front ++ xs) back (out ++ t) (advance_front front xs ys back whole)
            ∙ (λ i. done (between (append_assoc front xs ys i) back) (append_assoc out t u i))));
}

pub Shows-read :
    {A : Type 0} {m : Reader A} {xs ys : List ℕ} {a : A} {t : Text} (f : A → Printer)
    → Reads m xs a
    → Shows (f a) ys t
    → Shows (read m f) (xs ++ ys) t
unfolding read
Shows-read {m} {xs} {ys} {a} {t} f hm hf = record {
  run = λ front back out h.
      let whole = regroup front xs ys back h in
      rw (append_assoc xs ys back) (
        rw (hm.run front (ys ++ back) whole, read)
          (hf.run (front ++ xs) back out (advance_front front xs ys back whole)
            ∙ ap (λ f. done (between f back) (out ++ t)) (append_assoc front xs ys)));
}

pub Shows-either :
    {p : Printer} {xs : List ℕ} {t : Text} (good bad : Text)
    → Shows p xs t
    → Shows (either_way p good bad) xs (t ++ good)
unfolding either_way
Shows-either {xs} {t} good bad h = record {
  run = λ front back out fits.
      rw (h.run front back out fits, either_way)
        (ap (λ o. done (between (front ++ xs) back) o) (append_assoc out t good));
}

-- Where one of the parts reads nothing.
pub push_then :
    {q : Printer} {xs : List ℕ} {u : Text} (t : Text)
    → Shows q xs u
    → Shows (push t ▸ q) xs (t ++ u)
push_then t h = Shows-then (Shows-push t) h

pub then_last :
    {p q : Printer} {xs : List ℕ} {t u : Text}
    → Shows p xs t
    → Shows q [] u
    → Shows (p ▸ q) xs (t ++ u)
then_last {p} {q} {xs} {t} {u} hp hq =
    subst (λ ys. Shows (p ▸ q) ys (t ++ u)) (append-nil xs) (Shows-then hp hq)

pub read_last :
    {A : Type 0} {m : Reader A} {xs : List ℕ} {a : A} {t : Text} (f : A → Printer)
    → Reads m xs a
    → Shows (f a) [] t
    → Shows (read m f) xs t
read_last {m} {xs} {t} f hm hf =
    subst (λ ys. Shows (read m f) ys t) (append-nil xs) (Shows-read f hm hf)

-- A method whose fuel is one more than the number of bytes that are left.
pub Shows-fuel :
    (p : ℕ → Printer) (xs : List ℕ) (t : Text)
    → ((fuel : ℕ) → length xs ≤ fuel → Shows (p (suc fuel)) xs t)
    → Shows (λ r. p (suc (length r.buffer - r.cursor)) r) xs t
Shows-fuel p xs t h = record {
  run = λ front back out fits.
      (h (length (front ++ (xs ++ back)) - length front)
          (omega (arith, length-append front (xs ++ back), length-append xs back))).run
        front back out fits;
}

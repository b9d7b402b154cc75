-- ===== src/Format/Rows.antt =====
-- The parts that texts of values are made of: what is read for them, and what stands between them.
use mathlib.Core.Path.{subst}
use blaze_pk_rs.Prelude.{
  ℕ, suc, ◌+◌, ◌-◌, ◌≡◌, sym, List, [], ◌∷◌, ◌++◌, append-nil, length, lt→ltb, le→not_ltb, arith,
}
use blaze_pk_rs.Text.{Text, Formats, codes, decimal, upper_hex}
use blaze_pk_rs.Reader.{read_byte_4, read_slice}
use blaze_pk_rs.Reader.VarInt.{read_usize}
use blaze_pk_rs.Reader.Reads.{
  Reads, between, Reads-pure, Reads-bind, read_slice-Reads, read_byte_4-Reads,
}
use blaze_pk_rs.Types.Text.{read_blob, read_string, pop, from_utf8_lossy}
use blaze_pk_rs.Types.Numbers.{read_f32, from_be_bytes}
use blaze_pk_rs.Printer.{Printer, done, push, ◌▸◌, read, for_each}
use blaze_pk_rs.Printer.Shows.{
  Shows, Shows-push, Shows-then, Shows-read, push_then, then_last, read_last,
}
use blaze_pk_rs.Reader.Stringify.{
  unless_last, blob_bytes, stringify_var_int, stringify_string, stringify_blob,
  stringify_var_int_list, stringify_pair, stringify_triple, stringify_float,
}
use blaze_pk_rs.Format.{Number, Numbers, no_numbers, number, separator, blob_text, numbers_text}
use blaze_pk_rs.Format.Tokens.{Number-reads}

pub unless_last-Shows {ℓ} :
    {A : Type ℓ} (i n : ℕ) (text : Text) (rest : List A)
    → i + suc (length rest) ≡ n
    → Shows (unless_last i n text) [] (separator text rest)
unfolding unless_last
unless_last-Shows i n text [] e = rw (le→not_ltb i (n - 1) (omega arith)) (Shows-push [])
unless_last-Shows i n text (_ ∷ _) e = rw (lt→ltb i (n - 1) (omega arith)) (Shows-push text)

pub for_none-Shows : (i : ℕ) (body : ℕ → Printer) → Shows (for_each 0 i body) [] []
unfolding for_each
for_none-Shows i body = record {
  run = λ front back out h.
      λ j. done (between (sym (append-nil front) j) back) (sym (append-nil out) j);
}

pub for_next-Shows :
    (left i : ℕ) (body : ℕ → Printer) {xs ys : List ℕ} {t u : Text}
    → Shows (body i) xs t
    → Shows (for_each left (i + 1) body) ys u
    → Shows (for_each (suc left) i body) (xs ++ ys) (t ++ u)
unfolding for_each
for_next-Shows left i body h rest = Shows-then h rest

blob_bytes-Shows :
    (n i : ℕ) (xs : List ℕ) → i + length xs ≡ n → Shows (blob_bytes n i xs) [] (blob_text xs)
unfolding blob_bytes
blob_bytes-Shows n i [] e = Shows-push []
blob_bytes-Shows n i (x ∷ xs) e = push_then (upper_hex x) (
    Shows-then (unless_last-Shows i n (codes ", ") xs e)
      (blob_bytes-Shows n (i + 1) xs (omega arith)))

read_blob-Number :
    {n : ℕ} {ns : List ℕ} (xs : List ℕ)
    → Number n ns
    → n ≡ length xs
    → Reads read_blob (ns ++ xs) xs
unfolding read_blob
read_blob-Number xs n e =
    Reads-bind read_usize _ (Number-reads n)
      (subst (λ k. Reads (read_slice k) xs xs) (sym e) (read_slice-Reads xs))

read_string-Number :
    {n : ℕ} {ns : List ℕ} (xs : List ℕ)
    → Number n ns
    → n ≡ length xs
    → Reads read_string (ns ++ xs) (pop (from_utf8_lossy xs))
unfolding read_string
read_string-Number {ns} xs n e =
    subst (λ ys. Reads read_string ys (pop (from_utf8_lossy xs))) (append-nil (ns ++ xs))
      (Reads-bind read_blob _ (read_blob-Number xs n e) (Reads-pure (pop (from_utf8_lossy xs))))

pub var_int-Shows : {v : ℕ} {xs : List ℕ} → Number v xs → Shows stringify_var_int xs (decimal v)
unfolding stringify_var_int
var_int-Shows {v} n = read_last _ (Number-reads n) (Shows-push (decimal v))

pub string-Shows :
    {n : ℕ} {ns : List ℕ} (xs : List ℕ)
    → Number n ns
    → n ≡ length xs
    → Shows stringify_string (ns ++ xs) (codes "\"" ++ (pop (from_utf8_lossy xs) ++ codes "\""))
unfolding stringify_string
string-Shows xs n e =
    read_last _ (read_string-Number xs n e)
      (push_then (codes "\"") (push_then (pop (from_utf8_lossy xs)) (Shows-push (codes "\""))))

pub blob-Shows :
    {n : ℕ} {ns : List ℕ} (xs : List ℕ)
    → Number n ns
    → n ≡ length xs
    → Shows stringify_blob (ns ++ xs) (codes "Blob [" ++ (blob_text xs ++ codes "]"))
unfolding stringify_blob
blob-Shows xs n e = read_last _ (read_blob-Number xs n e) (
    push_then (codes "Blob [")
      (then_last (blob_bytes-Shows (length xs) 0 xs (omega arith)) (Shows-push (codes "]"))))

abbrev number_item : ℕ → ℕ → Printer
number_item n i = read read_usize λ value. push (decimal value) ▸ unless_last i n (codes ", ")

numbers_each :
    (n i : ℕ) {vs xs : List ℕ}
    → Numbers vs xs
    → i + length vs ≡ n
    → Shows (for_each (length vs) i (number_item n)) xs (numbers_text vs)
numbers_each n i no_numbers e = for_none-Shows i (number_item n)
numbers_each n i (number {v} {vs} m ms) e =
    for_next-Shows (length vs) i (number_item n)
      (read_last _ (Number-reads m)
        (push_then (decimal v) (unless_last-Shows i n (codes ", ") vs e)))
      (numbers_each n (i + 1) ms (omega arith))

pub var_int_list-Shows :
    {n : ℕ} {ns vs xs : List ℕ}
    → Number n ns
    → n ≡ length vs
    → Numbers vs xs
    → Shows stringify_var_int_list (ns ++ xs) (codes "VarList [" ++ (numbers_text vs ++ codes "]"))
unfolding stringify_var_int_list
var_int_list-Shows {n} {vs} {xs} m e ms = Shows-read _ (Number-reads m) (
    push_then (codes "VarList [") (
      then_last
        (subst (λ k. Shows (for_each k 0 (number_item n)) xs (numbers_text vs)) (sym e)
          (numbers_each n 0 ms (omega (arith, e))))
        (Shows-push (codes "]"))))

pub pair-Shows :
    {a b : ℕ} {xs ys : List ℕ}
    → Number a xs
    → Number b ys
    → Shows stringify_pair
        (xs ++ ys)
        (codes "(" ++ (decimal a ++ (codes ", " ++ (decimal b ++ codes ")"))))
unfolding stringify_pair
pair-Shows a b = Shows-read _ (Number-reads a) (read_last _ (Number-reads b) (Shows-push _))

pub triple-Shows :
    {a b c : ℕ} {xs ys zs : List ℕ}
    → Number a xs
    → Number b ys
    → Number c zs
    → Shows stringify_triple (xs ++ (ys ++ zs)) (
        codes "("
        ++ (decimal a ++ (codes ", " ++ (decimal b ++ (codes ", " ++ (decimal c ++ codes ")"))))))
unfolding stringify_triple
triple-Shows a b c =
    Shows-read _ (Number-reads a)
      (Shows-read _ (Number-reads b) (read_last _ (Number-reads c) (Shows-push _)))

read_f32-Reads : (a b c d : ℕ) → Reads read_f32 (a ∷ b ∷ c ∷ d ∷ []) (from_be_bytes (a, b, c, d))
unfolding read_f32
read_f32-Reads a b c d =
    Reads-bind read_byte_4 _ (read_byte_4-Reads a b c d) (Reads-pure (from_be_bytes (a, b, c, d)))

pub float-Shows :
    (f : Formats) (a b c d : ℕ)
    → Shows (stringify_float f) (a ∷ b ∷ c ∷ d ∷ []) (f.f32_to_string (from_be_bytes (a, b, c, d)))
unfolding stringify_float
float-Shows f a b c d =
    read_last _ (read_f32-Reads a b c d) (Shows-push (f.f32_to_string (from_be_bytes (a, b, c, d))))

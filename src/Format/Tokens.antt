-- ===== src/Format/Tokens.antt =====
-- The numbers of the format are read and skipped, and the names of fields begin with a high byte.
use blaze_pk_rs.Prelude.{ℕ, ◌≤◌, ◌≡◌, ap, List, ◌∷◌, ◌++◌, length, arith}
use blaze_pk_rs.Tag.{TdfType}
use blaze_pk_rs.Tag.Code.{to_u8}
use blaze_pk_rs.Reader.Reads.{Reads, Reads-pure, Reads-bind}
use blaze_pk_rs.Reader.VarInt.{read_usize, skip_var_int}
use blaze_pk_rs.Reader.Skip.{repeat}
use blaze_pk_rs.VarInt.Decode.{impl_decode_var-Reads}
use blaze_pk_rs.VarInt.Skip.{skip_var_int-Reads}
use blaze_pk_rs.Writer.Tagged.{pack}
use blaze_pk_rs.TagFormat.Pack.{pack_lem}
use blaze_pk_rs.Format.{Number, Numbers, no_numbers, number, IsFieldName}

pub Number-reads : {v : ℕ} {xs : List ℕ} → Number v xs → Reads read_usize xs v
unfolding read_usize
Number-reads n = impl_decode_var-Reads 64 (omega arith) n.fits n.brief n.code

pub Number-skips : {v : ℕ} {xs : List ℕ} → Number v xs → Reads skip_var_int xs tt
Number-skips n = skip_var_int-Reads n.code

pub Numbers-skips : {vs xs : List ℕ} → Numbers vs xs → Reads (repeat (length vs) skip_var_int) xs tt
unfolding repeat
Numbers-skips no_numbers = Reads-pure tt
Numbers-skips (number n ns) = Reads-bind skip_var_int _ (Number-skips n) (Numbers-skips ns)

pub record Starts (xs : List ℕ) : Type 0 where
  pub first : ℕ
  pub rest : List ℕ
  pub eq : xs ≡ first ∷ rest
  pub high : 128 ≤ first

pub pack-Starts : (name : List ℕ) (ty : TdfType) → IsFieldName name → Starts (pack name (to_u8 ty))
pack-Starts name ty h = record {
  first = _;
  rest = _;
  eq = pack_lem name (to_u8 ty) h.bytes;
  high = omega (arith, h.letter);
}

pub Starts-append : {xs : List ℕ} (ys : List ℕ) → Starts xs → Starts (xs ++ ys)
Starts-append ys s = record {
  first = s.first;
  rest = s.rest ++ ys;
  eq = ap (λ zs. zs ++ ys) s.eq;
  high = s.high;
}

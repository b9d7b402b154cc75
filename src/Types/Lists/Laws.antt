-- ===== src/Types/Lists/Laws.antt =====
-- What is encoded as a list, a blob, a pair, a triple or a union is decoded to itself, and skipped.
use mathlib.Core.Path.{subst}
use blaze_pk_rs.Prelude.{
  ℕ, zero, suc, ◌*◌, ◌^◌, ◌<◌, ◌≤◌, sym, List, ◌∷◌, ◌++◌, append_assoc, length, length-append, All,
  arith,
}
use blaze_pk_rs.Tag.{TdfType}
use blaze_pk_rs.Tag.Code.{to_u8}
use blaze_pk_rs.TagFormat.RoundTrip.{read_type-Reads}
use blaze_pk_rs.Reader.{◌>>=◌, pure}
use blaze_pk_rs.Reader.VarInt.{read_usize, skip_var_int}
use blaze_pk_rs.Reader.Tagged.{read_type}
use blaze_pk_rs.Reader.Reads.{Reads, Reads-bind, read_slice-Reads, skip_slice-Reads}
use blaze_pk_rs.Reader.Skip.{
  repeat, skip_nested, skip_by_type, skip_list, skip_var_int_list, skip_blob,
}
use blaze_pk_rs.Reader.Seek.{expect_type}
use blaze_pk_rs.Writer.Writes.{Writes-then, write_type-Writes, write_slice-Writes}
use blaze_pk_rs.VarInt.Skip.{skip_var_int-Reads}
use blaze_pk_rs.VarInt.RoundTrip.{write_usize-IntTrips}
use blaze_pk_rs.Codec.{Codec, IsLawful, Lawful}
use blaze_pk_rs.Types.Numbers.Laws.{IsVarInt, VarInt→IsLawful}
use blaze_pk_rs.Types.Lists.{
  with_capacity, vec_codec, var_int_list_codec, blob_codec, pair_codec, triple_codec,
}
use blaze_pk_rs.Types.Lists.Elements.{Reads-pair, expect_type-Reads, with_capacity-Reads, elements}

-- The vectors that a decoder can make room for.
pub record FitsVec {C : Type 0} (c : Codec C) (Fits : C → Type 0) (values : List C) : Type 0 where
  pub each : All Fits values
  pub count : length values < 2 ^ 64
  pub room : length values * c.size_of < 2 ^ 63

skip_vec :
    (n : ℕ) (ty : TdfType) (depth : ℕ) {xs ys : List ℕ}
    → Reads read_usize xs n
    → ((d : ℕ) → length ys ≤ d → Reads (repeat n (skip_nested (suc d) ty)) ys tt)
    → length ((to_u8 ty ∷ xs) ++ ys) ≤ depth
    → Reads (skip_nested (suc depth) TdfType.list) ((to_u8 ty ∷ xs) ++ ys) tt
unfolding skip_nested skip_by_type skip_list
skip_vec n ty zero hx hy h = absurd (omega arith)
skip_vec n ty (suc d) {xs} {ys} hx hy h =
    Reads-bind read_type _ (read_type-Reads ty)
      (Reads-bind read_usize _ hx (hy d (omega (arith, length-append xs ys))))

module _ {C : Type 0} {c : Codec C} {Fits : C → Type 0} where
  pub vec-IsLawful : IsLawful c Fits → IsLawful (vec_codec c) (FitsVec c Fits)
  unfolding vec_codec skip_nested skip_by_type skip_list
  vec-IsLawful h = record {
    law = λ values fits.
        let n = write_usize-IntTrips (length values) fits.count in
        let es = elements h values fits.each in
        record {
          bytes = (to_u8 c.value_type ∷ n.bytes) ++ es.bytes;
          writes = Writes-then (Writes-then (write_type-Writes c.value_type) n.writes) es.writes;
          reads = Reads-bind read_type _ (read_type-Reads c.value_type) (
              Reads-bind (expect_type c.value_type c.value_type) _ (expect_type-Reads c.value_type)
                (Reads-bind read_usize _ n.reads (
                  Reads-bind (with_capacity c.size_of (length values)) _
                    (with_capacity-Reads c.size_of (length values) fits.room) es.reads)));
          skips = λ depth d. skip_vec (length values) c.value_type depth n.reads es.skips d;
        };
  }

  pub var_int_list-IsLawful : IsVarInt c Fits → IsLawful (var_int_list_codec c) (FitsVec c Fits)
  unfolding var_int_list_codec skip_nested skip_by_type skip_var_int_list
  var_int_list-IsLawful h = record {
    law = λ values fits.
        let n = write_usize-IntTrips (length values) fits.count in
        let es = elements (VarInt→IsLawful h) values fits.each in
        record {
          bytes = n.bytes ++ es.bytes;
          writes = Writes-then n.writes es.writes;
          reads = Reads-bind read_usize _ n.reads (
              Reads-bind (with_capacity c.size_of (length values)) _
                (with_capacity-Reads c.size_of (length values) fits.room) es.reads);
          skips = λ depth d. Reads-bind read_usize _ n.reads (
              subst (λ ty. Reads (repeat (length values) (skip_nested (suc depth) ty)) es.bytes tt)
                h.is_var_int (es.skips depth (omega (arith, length-append n.bytes es.bytes))));
        };
  }

pub blob-IsLawful : IsLawful blob_codec (λ bytes. length bytes < 2 ^ 63)
unfolding blob_codec skip_nested skip_by_type skip_blob
blob-IsLawful = record {
  law = λ bytes fits.
      let n = write_usize-IntTrips (length bytes) (omega arith) in
      record {
        bytes = n.bytes ++ bytes;
        writes = Writes-then n.writes (write_slice-Writes bytes);
        reads = Reads-bind read_usize _ n.reads (read_slice-Reads bytes);
        skips = λ depth d. Reads-bind read_usize _ n.reads (skip_slice-Reads bytes);
      };
}

module _ {A B : Type 0} {a : Codec A} {b : Codec B} {FitsA : A → Type 0} {FitsB : B → Type 0} where
  pub pair-IsLawful :
      (size : ℕ)
      → IsVarInt a FitsA
      → IsVarInt b FitsB
      → IsLawful (pair_codec a b size) (λ (x, y). FitsA x × FitsB y)
  unfolding pair_codec skip_nested skip_by_type
  pair-IsLawful size ha hb = record {
    law = λ (x, y) (fx, fy).
        let lx = ha.law x fx in
        let ly = hb.law y fy in
        record {
          bytes = lx.bytes ++ ly.bytes;
          writes = Writes-then lx.writes ly.writes;
          reads = Reads-pair a.decode (λ _. b.decode) (λ x y. (x, y)) lx.reads ly.reads;
          skips = λ depth d.
              Reads-bind skip_var_int _ (skip_var_int-Reads lx.encodes)
                (skip_var_int-Reads ly.encodes);
        };
  }

  pub triple-IsLawful :
      {D : Type 0} {c : Codec D} {FitsC : D → Type 0} (size : ℕ)
      → IsVarInt a FitsA
      → IsVarInt b FitsB
      → IsVarInt c FitsC
      → IsLawful (triple_codec a b c size) (λ (x, y, z). FitsA x × FitsB y × FitsC z)
  unfolding triple_codec skip_nested skip_by_type
  triple-IsLawful {D} {c} size ha hb hc = record {
    law = λ (x, y, z) (fx, fy, fz).
        let lx = ha.law x fx in
        let ly = hb.law y fy in
        let lz = hc.law z fz in
        record {
          bytes = (lx.bytes ++ ly.bytes) ++ lz.bytes;
          writes = Writes-then (Writes-then lx.writes ly.writes) lz.writes;
          reads =
              subst
                (λ xs.
                  Reads {A = A × B × D}
                    (a.decode >>= λ x. b.decode >>= λ y. c.decode >>= λ z. pure (x, y, z)) xs
                    (x, y, z))
                (sym (append_assoc lx.bytes ly.bytes lz.bytes))
                (Reads-bind a.decode _ lx.reads
                  (Reads-pair b.decode (λ _. c.decode) (λ y z. (x, y, z)) ly.reads lz.reads));
          skips = λ depth d.
              Reads-bind (skip_var_int >>= λ _. skip_var_int) _
                (Reads-bind skip_var_int _ (skip_var_int-Reads lx.encodes)
                  (skip_var_int-Reads ly.encodes))
                (skip_var_int-Reads lz.encodes);
        };
  }

module _ {C : Type 0} {c : Codec C} {Fits : C → Type 0} where
  -- If the values of a type are encoded, decoded to themselves and skipped, then so are vectors of
  -- them, of fewer than 2 ^ 64 elements that take less than 2 ^ 63 bytes of memory.
  pub vec-Lawful :
      IsLawful c Fits → (values : List C) → FitsVec c Fits values → Lawful (vec_codec c) values
  vec-Lawful h values fits = (vec-IsLawful h).law values fits

  -- If values of a type are written as variable length integers, decoded to themselves and skipped,
  -- then lists of them are encoded, decoded to themselves and skipped, where there are fewer than 2
  -- ^ 64 of them and a vector has room for them.
  pub var_int_list-Lawful :
      IsVarInt c Fits
      → (values : List C) → FitsVec c Fits values
      → Lawful (var_int_list_codec c) values
  var_int_list-Lawful h values fits = (var_int_list-IsLawful h).law values fits

-- Every blob of less than 2 ^ 63 bytes is encoded, decoded to itself and skipped.
pub blob-Lawful : (bytes : List ℕ) → length bytes < 2 ^ 63 → Lawful blob_codec bytes
blob-Lawful bytes fits = blob-IsLawful.law bytes fits

module _ {A B : Type 0} {a : Codec A} {b : Codec B} {FitsA : A → Type 0} {FitsB : B → Type 0} where
  -- If the values of two types are written as variable length integers, decoded to themselves and
  -- skipped, then pairs of them are encoded, decoded to themselves and skipped.
  pub pair-Lawful :
      (size : ℕ) (x : A) (y : B)
      → IsVarInt a FitsA
      → IsVarInt b FitsB
      → FitsA x
      → FitsB y
      → Lawful (pair_codec a b size) (x, y)
  pair-Lawful size x y ha hb fx fy = (pair-IsLawful size ha hb).law (x, y) (fx, fy)

  -- If the values of three types are written as variable length integers, decoded to themselves and
  -- skipped, then triples of them are encoded, decoded to themselves and skipped.
  pub triple-Lawful :
      {D : Type 0} {c : Codec D} {FitsC : D → Type 0} (size : ℕ) (x : A) (y : B) (z : D)
      → IsVarInt a FitsA
      → IsVarInt b FitsB
      → IsVarInt c FitsC
      → FitsA x
      → FitsB y
      → FitsC z
      → Lawful (triple_codec a b c size) (x, y, z)
  triple-Lawful size x y z ha hb hc fx fy fz =
      (triple-IsLawful size ha hb hc).law (x, y, z) (fx, fy, fz)

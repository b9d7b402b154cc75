-- ===== src/Format/Skips.antt =====
-- src/reader.rs: what the methods skip that `skip_type` calls, part by part.
use mathlib.Core.Path.{subst}
use blaze_pk_rs.Prelude.{
  ℕ, suc, ◌-◌, ◌<◌, ◌≤◌, ◌≡◌, ◌≢◌, sym, List, [], ◌∷◌, ◌++◌, append_assoc, length, length-append,
  All, arith,
}
use blaze_pk_rs.Tag.{TdfType}
use blaze_pk_rs.Tag.Code.{to_u8}
use blaze_pk_rs.Text.{Formats}
use blaze_pk_rs.Types.{union_unset}
use blaze_pk_rs.TagFormat.RoundTrip.{read_tag-Reads, read_type-Reads}
use blaze_pk_rs.Writer.Tagged.{pack}
use blaze_pk_rs.Reader.{Reader, ◌>>=◌, ◌>>◌, advance, read_byte, expect_length}
use blaze_pk_rs.Reader.VarInt.{read_usize, skip_var_int}
use blaze_pk_rs.Reader.Tagged.{read_type, read_tag}
use blaze_pk_rs.Reader.Reads.{Reads, Reads-pure, Reads-bind, read_byte-Reads, skip_slice-Reads}
use blaze_pk_rs.Reader.Skip.{
  repeat, skip_blob, skip_group_2, skip_var_int_list, skip_tagged, skip_group_loop, skip_group,
  skip_list, skip_map, skip_union, skip_nested,
}
use blaze_pk_rs.Format.{Layout, Number, IsFieldName, Fields, no_fields, field}
use blaze_pk_rs.Format.Tokens.{Number-reads, Starts-append, pack-Starts}
use blaze_pk_rs.Format.Groups.{not_eq, not_two, two, loop_fuel, loop_Starts, not_two_Starts}

pub sized_skips :
    {n : ℕ} {ns : List ℕ} (xs : List ℕ)
    → Number n ns
    → n ≡ length xs
    → Reads skip_blob (ns ++ xs) tt
unfolding skip_blob
sized_skips xs n e =
    Reads-bind read_usize _ (Number-reads n)
      (subst (λ k. Reads (expect_length k >>= λ _. advance k) xs tt) (sym e) (skip_slice-Reads xs))

pub numbers_skip :
    {n : ℕ} {ns xs : List ℕ} (vs : List ℕ)
    → Number n ns
    → n ≡ length vs
    → Reads (repeat (length vs) skip_var_int) xs tt
    → Reads skip_var_int_list (ns ++ xs) tt
unfolding skip_var_int_list
numbers_skip {xs} vs n e h =
    Reads-bind read_usize _ (Number-reads n)
      (subst (λ k. Reads (repeat k skip_var_int) xs tt) (sym e) h)

-- The types with values inside, where those are skipped.
module _ (depth : ℕ) where
  abbrev go : TdfType → Reader (Unit {0})
  go = skip_nested depth

  pub group_2_skips :
      (xs : List ℕ)
      → ((fuel : ℕ) → length xs ≤ fuel → Reads (skip_group_loop go (suc fuel)) (xs ++ 0 ∷ []) tt)
      → Reads (skip_group go) (2 ∷ (xs ++ 0 ∷ [])) tt
  unfolding skip_group
  group_2_skips xs h =
      Reads-bind skip_group_2 _ two
        (loop_fuel go (xs ++ 0 ∷ []) λ fuel g. h fuel (omega (arith, length-append xs (0 ∷ []))))

  pub group_skips :
      {f : Formats} {lines : Layout} (xs : List ℕ)
      → ((fuel : ℕ) → length xs ≤ fuel → Reads (skip_group_loop go (suc fuel)) (xs ++ 0 ∷ []) tt)
      → Fields f xs lines
      → Reads (skip_group go) (xs ++ 0 ∷ []) tt
  unfolding skip_group
  group_skips xs h fs =
      first_byte fs
        (loop_fuel go (xs ++ 0 ∷ []) λ fuel g. h fuel (omega (arith, length-append xs (0 ∷ []))))
    where
      first_byte :
          {f : Formats} {lines : Layout} {ys : List ℕ}
          → Fields f ys lines
          → Reads (λ r. skip_group_loop go (suc (length r.buffer - r.cursor)) r) (ys ++ 0 ∷ []) tt
          → Reads
              (skip_group_2 >>= λ _. λ r. skip_group_loop go (suc (length r.buffer - r.cursor)) r)
              (ys ++ 0 ∷ [])
              tt
      first_byte no_fields inside =
          not_two (λ _. λ r. skip_group_loop go (suc (length r.buffer - r.cursor)) r) 0 []
            (λ e. omega (arith, e)) inside
      first_byte (field {xs} {ys} name ty letter v rest) inside =
          not_two_Starts (λ _. λ r. skip_group_loop go (suc (length r.buffer - r.cursor)) r)
            (Starts-append (0 ∷ [])
              (Starts-append ys (Starts-append xs (pack-Starts name ty letter))))
            inside

  pub list_skips :
      {n : ℕ} {ns xs : List ℕ} (ts : List Layout) (ty : TdfType)
      → Number n ns
      → n ≡ length ts
      → Reads (repeat (length ts) (go ty)) xs tt
      → Reads (skip_list go) (to_u8 ty ∷ (ns ++ xs)) tt
  unfolding skip_list
  list_skips {xs} ts ty n e h = Reads-bind read_type _ (read_type-Reads ty) (
      Reads-bind read_usize _ (Number-reads n)
        (subst (λ k. Reads (repeat k (go ty)) xs tt) (sym e) h))

  pub map_skips :
      {n : ℕ} {ns xs : List ℕ} (ts : List (Layout × Layout)) (key_ty value_ty : TdfType)
      → Number n ns
      → n ≡ length ts
      → Reads (repeat (length ts) (go key_ty >> go value_ty)) xs tt
      → Reads (skip_map go) (to_u8 key_ty ∷ to_u8 value_ty ∷ (ns ++ xs)) tt
  unfolding skip_map
  map_skips {xs} ts key_ty value_ty n e h = Reads-bind read_type _ (read_type-Reads key_ty) (
      Reads-bind read_type _ (read_type-Reads value_ty) (
        Reads-bind read_usize _ (Number-reads n)
          (subst (λ k. Reads (repeat k (go key_ty >> go value_ty)) xs tt) (sym e) h)))

  pub union_none_skips : Reads (skip_union go) (union_unset ∷ []) tt
  unfolding skip_union
  union_none_skips = Reads-bind read_byte _ (read_byte-Reads union_unset) (Reads-pure tt)

  pub tagged_skips :
      {xs : List ℕ} (name : List ℕ) (ty : TdfType)
      → All (λ b. b < 256) name
      → Reads (go ty) xs tt
      → Reads (skip_tagged go) (pack name (to_u8 ty) ++ xs) tt
  unfolding skip_tagged
  tagged_skips name ty bytes h = Reads-bind read_tag _ (read_tag-Reads name ty bytes) h

  pub union_some_skips :
      {xs : List ℕ} (key : ℕ) (name : List ℕ) (ty : TdfType)
      → key ≢ union_unset
      → All (λ b. b < 256) name
      → Reads (go ty) xs tt
      → Reads (skip_union go) (key ∷ (pack name (to_u8 ty) ++ xs)) tt
  unfolding skip_union
  union_some_skips key name ty set bytes h =
      Reads-bind read_byte _ (read_byte-Reads key)
        (rw (not_eq key union_unset set) (tagged_skips name ty bytes h))

-- A field in the loop over those of a group.
pub field_skips :
    (depth fuel : ℕ) {xs : List ℕ} (ys name : List ℕ) (ty : TdfType)
    → IsFieldName name
    → Reads (skip_nested (suc depth) ty) xs tt
    → Reads (skip_group_loop (skip_nested (suc depth)) (suc fuel)) (ys ++ 0 ∷ []) tt
    → Reads
        (skip_group_loop (skip_nested (suc depth)) (suc (suc fuel)))
        (((pack name (to_u8 ty) ++ xs) ++ ys) ++ 0 ∷ [])
        tt
field_skips depth fuel {xs} ys name ty letter h rest =
    loop_Starts (skip_nested (suc depth)) (suc fuel)
      (Starts-append (0 ∷ []) (Starts-append ys (Starts-append xs (pack-Starts name ty letter))))
      (subst
        (λ bytes.
          Reads
            (skip_tagged (skip_nested (suc depth)) >>= λ _.
              skip_group_loop (skip_nested (suc depth)) (suc fuel))
            bytes tt)
        (sym (append_assoc (pack name (to_u8 ty) ++ xs) ys (0 ∷ [])))
        (Reads-bind (skip_tagged (skip_nested (suc depth))) _
          (tagged_skips (suc depth) name ty letter.bytes h) rest))

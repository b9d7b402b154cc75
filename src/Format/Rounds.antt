-- ===== src/Format/Rounds.antt =====
-- The methods that make texts of values with other values inside, where those have theirs, and the
-- rounds of the loop over the fields of a group.
use mathlib.Core.Path.{subst}
use blaze_pk_rs.Prelude.{
  ℕ, suc, ◌+◌, ◌<◌, ◌≤◌, ◌≡◌, ◌≢◌, sym, Bool, true, false, List, [], ◌∷◌, ◌++◌, length,
  length-append, All, lt→ltb, arith, if◌then◌else◌,
}
use blaze_pk_rs.Tag.{TdfType, fmt}
use blaze_pk_rs.Tag.Code.{to_u8}
use blaze_pk_rs.Text.{Text, Formats, codes}
use blaze_pk_rs.Types.{union_unset}
use blaze_pk_rs.TagFormat.{visible_tag}
use blaze_pk_rs.TagFormat.RoundTrip.{read_tag-Reads, read_type-Reads}
use blaze_pk_rs.Writer.Tagged.{pack}
use blaze_pk_rs.Reader.{advance}
use blaze_pk_rs.Reader.Reads.{Reads, peek-between, advance-between, read_byte-Reads}
use blaze_pk_rs.Printer.{Printer, ◌▸◌, read, for_each}
use blaze_pk_rs.Printer.Shows.{
  Shows, Shows-push, Shows-then, Shows-read, Shows-either, Shows-fuel, push_then, then_last,
  read_last,
}
use blaze_pk_rs.Reader.Stringify.{
  indentation, stringify_tag, group_end, group_byte, stringify_group_loop, stringify_group,
  list_item, stringify_list, map_item, stringify_map, stringify_union,
}
use blaze_pk_rs.Format.{
  Layout, Number, separator, items_text, list_text, item_row, pair_row, pairs_text, map_text,
  group_text, field_text, union_text,
}
use blaze_pk_rs.Format.Tokens.{Number-reads, Starts}
use blaze_pk_rs.Format.Groups.{not_eq}
use blaze_pk_rs.Format.Rows.{unless_last-Shows}

abbrev pub mark : Bool → Text
mark two = if two then codes " (2)" else []

advance_1-Reads : (b : ℕ) → Reads (advance 1) (b ∷ []) tt
advance_1-Reads b = record { run = λ front back fits. advance-between front (b ∷ []) back fits }

module _ (f : Formats) where
  module _ (go : ℕ → TdfType → Printer) (i : ℕ) where
    group_end-Shows :
        (two : Bool) → Shows (group_end f go i two) [] (indentation i ++ (codes "}" ++ mark two))
    unfolding group_end
    group_end-Shows two = push_then (indentation i) (push_then (codes "}") (Shows-push (mark two)))

    -- The rounds of the loop over the fields of a group.
    module _ (fuel : ℕ) (two : Bool) where
      abbrev pub more : Bool → Printer
      more two' = stringify_tag f go (i + 1) ▸ stringify_group_loop f go i fuel two'

      round :
          (b : ℕ) {bs : List ℕ} {t : Text}
          → Shows (group_byte f go i two more b) (b ∷ bs) t
          → Shows (stringify_group_loop f go i (suc fuel) two) (b ∷ bs) t
      unfolding stringify_group_loop read
      round b {bs} h = record {
        run = λ front back out fits.
            rw
              (lt→ltb (length front) (length (front ++ b ∷ (bs ++ back)))
                (omega (arith, length-append front (b ∷ (bs ++ back)))))
              (rw (peek-between front b (bs ++ back), read) (h.run front back out fits));
      }

      pub end_round :
          Shows
            (stringify_group_loop f go i (suc fuel) two)
            (0 ∷ [])
            (indentation i ++ (codes "}" ++ mark two))
      end_round =
          round 0 (unfold group_byte in Shows-read _ (advance_1-Reads 0) (group_end-Shows two))

      pub two_round :
          {xs : List ℕ} {t : Text}
          → Shows (more true) xs t
          → Shows (stringify_group_loop f go i (suc fuel) two) (2 ∷ xs) t
      two_round h = round 2 (unfold group_byte in Shows-read _ (advance_1-Reads 2) h)

      pub field_round :
          {xs : List ℕ} {t : Text}
          → Starts xs
          → Shows (more two) xs t
          → Shows (stringify_group_loop f go i (suc fuel) two) xs t
      unfolding group_byte
      field_round {xs} {t} s h =
          subst (λ ys. Shows (stringify_group_loop f go i (suc fuel) two) ys t) (sym s.eq)
            (round s.first (
              rw (not_eq s.first 0 (λ e. omega (arith, e, s.high))) (
                rw (not_eq s.first 2 (λ e. omega (arith, e, s.high)))
                  (subst (λ ys. Shows (more two) ys t) s.eq h))))

    -- A field, before what is made of the next one.
    pub tag-Shows :
        {xs : List ℕ} (text : Layout) (name : List ℕ) (ty : TdfType)
        → All (λ b. b < 256) name
        → Shows (go i ty) xs (text i)
        → Shows (stringify_tag f go i) (pack name (to_u8 ty) ++ xs) (field_text name text i)
    unfolding stringify_tag
    tag-Shows text name ty bytes h = Shows-read _ (read_tag-Reads name ty bytes) (
        push_then (indentation i) (
          push_then (codes "\"" ++ (fmt (visible_tag name) ++ codes "\": "))
            (Shows-either (codes ",\n") (codes "...") h)))

    pub list_item-Shows :
        {xs : List ℕ} (text : Layout) (ty : TdfType) (size j : ℕ) (rest : List Layout)
        → Shows (go (i + 1) ty) xs (text (i + 1))
        → j + suc (length rest) ≡ size
        → Shows (list_item f go i ty size j) xs (item_row ty i text (separator (codes ", ") rest))
    unfolding list_item
    list_item-Shows text ty size j rest h e =
        push_then _
          (then_last h (Shows-then (unless_last-Shows j size (codes ", ") rest e) (Shows-push _)))

    pub list-Shows :
        {n : ℕ} {ns xs : List ℕ} (ts : List Layout) (ty : TdfType)
        → Number n ns
        → n ≡ length ts
        → Shows (for_each (length ts) 0 (list_item f go i ty (length ts))) xs (items_text ty i ts)
        → Shows (stringify_list f go i) (to_u8 ty ∷ (ns ++ xs)) (list_text ty ts i)
    unfolding stringify_list
    list-Shows {n} {xs} ts ty num e h = Shows-read _ (read_type-Reads ty) (
        Shows-read _ (Number-reads num) (
          push_then (codes "[") (
            push_then _ (
              then_last
                (subst (λ k. Shows (for_each k 0 (list_item f go i ty k)) xs (items_text ty i ts))
                  (sym e) h)
                (push_then _ (Shows-push (codes "]")))))))

    pub map_item-Shows :
        {xs ys : List ℕ} (k v : Layout) (key_ty value_ty : TdfType) (size j : ℕ)
        (rest : List (Layout × Layout))
        → Shows (go (i + 1) key_ty) xs (k (i + 1))
        → Shows (go (i + 1) value_ty) ys (v (i + 1))
        → j + suc (length rest) ≡ size
        → Shows
            (map_item f go i key_ty value_ty size j)
            (xs ++ ys)
            (pair_row i k v (separator (codes ",") rest))
    unfolding map_item
    map_item-Shows k v key_ty value_ty size j rest hk hv e = push_then (indentation (i + 1)) (
        Shows-then hk (
          push_then (codes ": ") (
            then_last hv (
              Shows-then (unless_last-Shows j size (codes ",") rest e) (Shows-push (codes "\n"))))))

    pub map-Shows :
        {n : ℕ} {ns xs : List ℕ} (ts : List (Layout × Layout)) (key_ty value_ty : TdfType)
        → Number n ns
        → n ≡ length ts
        → Shows
            (for_each (length ts) 0 (map_item f go i key_ty value_ty (length ts)))
            xs
            (pairs_text i ts)
        → Shows
            (stringify_map f go i)
            (to_u8 key_ty ∷ to_u8 value_ty ∷ (ns ++ xs))
            (map_text key_ty value_ty ts i)
    unfolding stringify_map
    map-Shows {xs} ts key_ty value_ty num e h = Shows-read _ (read_type-Reads key_ty) (
        Shows-read _ (read_type-Reads value_ty) (
          Shows-read _ (Number-reads num) (
            push_then _ (
              push_then (codes "{\n") (
                then_last
                  (subst
                    (λ k.
                      Shows (for_each k 0 (map_item f go i key_ty value_ty k)) xs (pairs_text i ts))
                    (sym e) h)
                  (push_then (indentation i) (Shows-push (codes "}"))))))))

    pub union_none-Shows : Shows (stringify_union f go i) (union_unset ∷ []) (codes "Union(Unset)")
    unfolding stringify_union
    union_none-Shows = read_last _ (read_byte-Reads union_unset) (Shows-push (codes "Union(Unset)"))

    pub union_some-Shows :
        {xs : List ℕ} (text : Layout) (key : ℕ) (name : List ℕ) (ty : TdfType)
        → key ≢ union_unset
        → All (λ b. b < 256) name
        → Shows (go (i + 1) ty) xs (text (i + 1))
        → Shows
            (stringify_union f go i)
            (key ∷ (pack name (to_u8 ty) ++ xs))
            (union_text name key text i)
    unfolding stringify_union
    union_some-Shows text key name ty set bytes h = Shows-read _ (read_byte-Reads key) (
        rw (not_eq key union_unset set) (
          Shows-read _ (read_tag-Reads name ty bytes)
            (push_then _ (then_last h (Shows-push (codes ")"))))))

    pub group-Shows :
        (lines : Layout) (xs : List ℕ) (two : Bool)
        → ((fuel : ℕ)
            → length xs ≤ fuel
            → Shows
                (stringify_group_loop f go i (suc fuel) false)
                xs
                (lines (i + 1) ++ (indentation i ++ (codes "}" ++ mark two))))
        → Shows (stringify_group f go i) xs (group_text lines (mark two) i)
    unfolding stringify_group
    group-Shows lines xs two h =
        push_then (codes "{\n") (Shows-fuel (λ fuel. stringify_group_loop f go i fuel false) xs _ h)

-- ===== src/Format.antt =====
-- The format of values, of fields and of messages, between src/writer.rs and src/reader.rs, with the
-- text that stands for each: which bytes are a value of a type, described apart from the methods
-- that write, skip and print them.
pub mod Tokens
pub mod Groups
pub mod Skips
pub mod Skip
pub mod Rows
pub mod Rounds
pub mod Show
pub mod Message
pub mod Written
pub mod Calls
use blaze_pk_rs.Prelude.{
  ℕ, ◌+◌, ◌*◌, ◌/◌, ◌%◌, ◌^◌, ◌<◌, ◌≡◌, ◌≢◌, List, [], ◌∷◌, ◌++◌, if◌then◌else◌, length, get_or,
  All,
}
use blaze_pk_rs.Tag.{Tag, TdfType, fmt}
use blaze_pk_rs.Tag.Code.{to_u8}
use blaze_pk_rs.TagFormat.{visible_tag}
use blaze_pk_rs.Writer.Tagged.{pack}
use blaze_pk_rs.VarInt.{Encodes}
use blaze_pk_rs.Text.{Text, Formats, codes, decimal, upper_hex}
use blaze_pk_rs.Text.Debug.{type_debug}
use blaze_pk_rs.Reader.Stringify.{indentation, expands}
use blaze_pk_rs.Types.{union_unset}
use blaze_pk_rs.Types.Text.{from_utf8_lossy, pop}
use blaze_pk_rs.Types.Numbers.{from_be_bytes}

-- The bytes of a `usize`, of which there are no more than the decoder takes.
pub record Number (v : ℕ) (xs : List ℕ) : Type 0 where
  pub fits : v < 2 ^ 64
  pub brief : 7 * length xs < 72
  pub code : Encodes v xs

-- The bytes of some numbers, one after another.
pub data Numbers : List ℕ → List ℕ → Type 0 where
  no_numbers : Numbers [] []
  number : {v : ℕ} {vs xs ys : List ℕ} → Number v xs → Numbers vs ys → Numbers (v ∷ vs) (xs ++ ys)

-- The names of fields: bytes, the first of which is a letter.
pub record IsFieldName (name : List ℕ) : Type 0 where
  pub bytes : All (λ b. b < 256) name
  pub letter : get_or name 0 0 / 64 % 2 ≡ 1

-- What stands between a part and those behind it, if there are any.
abbrev pub separator {ℓ} : {A : Type ℓ} → Text → List A → Text
separator text [] = []
separator text (_ ∷ _) = text

abbrev pub blob_text : List ℕ → Text
blob_text [] = []
blob_text (b ∷ bs) = upper_hex b ++ (separator (codes ", ") bs ++ blob_text bs)

abbrev pub numbers_text : List ℕ → Text
numbers_text [] = []
numbers_text (v ∷ vs) = (decimal v ++ separator (codes ", ") vs) ++ numbers_text vs

-- The text of a value depends on how far it is indented.
abbrev pub Layout : Type 0
Layout = ℕ → Text

abbrev pub item_row : TdfType → ℕ → Layout → Text → Text
item_row ty i t sep =
    (if expands ty then indentation (i + 1) else [])
    ++ (t (i + 1) ++ (sep ++ (if expands ty then codes "\n" else [])))

abbrev pub items_text : TdfType → ℕ → List Layout → Text
items_text ty i [] = []
items_text ty i (t ∷ ts) = item_row ty i t (separator (codes ", ") ts) ++ items_text ty i ts

abbrev pub list_text : TdfType → List Layout → Layout
list_text ty ts i =
    codes "["
    ++ ((if expands ty then codes "\n" else [])
        ++ (items_text ty i ts ++ ((if expands ty then indentation i else []) ++ codes "]")))

abbrev pub pair_row : ℕ → Layout → Layout → Text → Text
pair_row i k v sep =
    indentation (i + 1) ++ (k (i + 1) ++ (codes ": " ++ (v (i + 1) ++ (sep ++ codes "\n"))))

abbrev pub pairs_text : ℕ → List (Layout × Layout) → Text
pairs_text i [] = []
pairs_text i ((k, v) ∷ ts) = pair_row i k v (separator (codes ",") ts) ++ pairs_text i ts

abbrev pub map_text : TdfType → TdfType → List (Layout × Layout) → Layout
map_text key_ty value_ty ts i =
    (codes "Map<" ++ (type_debug key_ty ++ (codes ", " ++ (type_debug value_ty ++ codes "> "))))
    ++ (codes "{\n" ++ (pairs_text i ts ++ (indentation i ++ codes "}")))

abbrev pub group_text : Layout → Text → Layout
group_text lines mark i = codes "{\n" ++ (lines (i + 1) ++ (indentation i ++ (codes "}" ++ mark)))

abbrev pub field_text : List ℕ → Layout → Layout
field_text name text i =
    indentation i
    ++ ((codes "\"" ++ (fmt (visible_tag name) ++ codes "\": ")) ++ (text i ++ codes ",\n"))

abbrev pub union_text : List ℕ → ℕ → Layout → Layout
union_text name key text i =
    (codes "Union(\"" ++ (fmt (visible_tag name) ++ (codes "\", " ++ (decimal key ++ codes ", "))))
    ++ (text (i + 1) ++ codes ")")

module _ (f : Formats) where
  mutual
    -- The bytes of a value of a type, and its text.
    pub data Value : TdfType → List ℕ → Layout → Type 0 where
      var_int : {v : ℕ} {xs : List ℕ} → Number v xs → Value TdfType.var_int xs (λ i. decimal v)
      string :
          {n : ℕ} {ns : List ℕ} (xs : List ℕ)
          → Number n ns
          → n ≡ length xs
          → Value TdfType.string
              (ns ++ xs)
              (λ i. codes "\"" ++ (pop (from_utf8_lossy xs) ++ codes "\""))
      blob :
          {n : ℕ} {ns : List ℕ} (xs : List ℕ)
          → Number n ns
          → n ≡ length xs
          → Value TdfType.blob (ns ++ xs) (λ i. codes "Blob [" ++ (blob_text xs ++ codes "]"))
      group :
          {xs : List ℕ} {lines : Layout}
          → Fields xs lines
          → Value TdfType.group (xs ++ 0 ∷ []) (group_text lines [])
      -- A group that begins with a two, and has a field.
      group_2 :
          {xs : List ℕ} {lines : Layout}
          → Fields xs lines
          → 0 < length xs
          → Value TdfType.group (2 ∷ (xs ++ 0 ∷ [])) (group_text lines (codes " (2)"))
      list :
          {n : ℕ} {ns xs : List ℕ} {ts : List Layout} (ty : TdfType)
          → Number n ns
          → n ≡ length ts
          → Items ty xs ts
          → Value TdfType.list (to_u8 ty ∷ (ns ++ xs)) (list_text ty ts)
      map :
          {n : ℕ} {ns xs : List ℕ} {ts : List (Layout × Layout)} (key_ty value_ty : TdfType)
          → Number n ns
          → n ≡ length ts
          → Pairs key_ty value_ty xs ts
          → Value TdfType.map
              (to_u8 key_ty ∷ to_u8 value_ty ∷ (ns ++ xs))
              (map_text key_ty value_ty ts)
      union_none : Value TdfType.union (union_unset ∷ []) (λ i. codes "Union(Unset)")
      union_some :
          {xs : List ℕ} {text : Layout} (key : ℕ) (name : List ℕ) (ty : TdfType)
          → key ≢ union_unset
          → All (λ b. b < 256) name
          → Value ty xs text
          → Value TdfType.union (key ∷ (pack name (to_u8 ty) ++ xs)) (union_text name key text)
      var_int_list :
          {n : ℕ} {ns vs xs : List ℕ}
          → Number n ns
          → n ≡ length vs
          → Numbers vs xs
          → Value TdfType.var_int_list
              (ns ++ xs)
              (λ i. codes "VarList [" ++ (numbers_text vs ++ codes "]"))
      pair :
          {a b : ℕ} {xs ys : List ℕ}
          → Number a xs
          → Number b ys
          → Value TdfType.pair
              (xs ++ ys)
              (λ i. codes "(" ++ (decimal a ++ (codes ", " ++ (decimal b ++ codes ")"))))
      triple :
          {a b c : ℕ} {xs ys zs : List ℕ}
          → Number a xs
          → Number b ys
          → Number c zs
          → Value TdfType.triple (xs ++ (ys ++ zs)) (λ i.
            codes "("
            ++ (decimal a
                ++ (codes ", " ++ (decimal b ++ (codes ", " ++ (decimal c ++ codes ")"))))))
      float :
          (a b c d : ℕ)
          → Value TdfType.float
              (a ∷ b ∷ c ∷ d ∷ [])
              (λ i. f.f32_to_string (from_be_bytes (a, b, c, d)))

    -- Values of one type.
    pub data Items : TdfType → List ℕ → List Layout → Type 0 where
      no_items : {ty : TdfType} → Items ty [] []
      item :
          {ty : TdfType} {xs ys : List ℕ} {t : Layout} {ts : List Layout}
          → Value ty xs t
          → Items ty ys ts
          → Items ty (xs ++ ys) (t ∷ ts)

    -- Keys and values.
    pub data Pairs : TdfType → TdfType → List ℕ → List (Layout × Layout) → Type 0 where
      no_pairs : {key_ty value_ty : TdfType} → Pairs key_ty value_ty [] []
      entry :
          {key_ty value_ty : TdfType} {xs ys zs : List ℕ} {k v : Layout}
          {ts : List (Layout × Layout)}
          → Value key_ty xs k
          → Value value_ty ys v
          → Pairs key_ty value_ty zs ts
          → Pairs key_ty value_ty ((xs ++ ys) ++ zs) ((k, v) ∷ ts)

    -- Values behind tags.
    pub data Fields : List ℕ → Layout → Type 0 where
      no_fields : Fields [] (λ i. [])
      field :
          {xs ys : List ℕ} {text lines : Layout} (name : List ℕ) (ty : TdfType)
          → IsFieldName name
          → Value ty xs text
          → Fields ys lines
          → Fields ((pack name (to_u8 ty) ++ xs) ++ ys) (λ i. field_text name text i ++ lines i)

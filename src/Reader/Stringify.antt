-- ===== src/Reader/Stringify.antt =====
-- src/reader.rs: `stringify`, `stringify_tag` and `stringify_type`. `go` is `stringify_type` for the
-- values inside; as that of `skip_type`, its recursion takes fuel.
pub mod Parts
pub mod Safety
pub mod Ends
pub mod Rounds
use blaze_pk_rs.Prelude.{
  ℕ, zero, suc, ◌+◌, ◌-◌, Bool, true, false, List, [], ◌∷◌, ◌++◌, ltb, ◌==◌, if◌then◌else◌, length,
}
use blaze_pk_rs.Error.{DecodeError}
use blaze_pk_rs.Tag.{TdfType, Tagged, fmt}
use blaze_pk_rs.Text.{Text, Formats, codes, repeat, decimal, upper_hex}
use blaze_pk_rs.Text.Debug.{type_debug, error_debug}
use blaze_pk_rs.Reader.{TdfReader, ok, err, panic, stuck, peek, advance, len, read_byte}
use blaze_pk_rs.Reader.VarInt.{read_usize}
use blaze_pk_rs.Reader.Tagged.{read_type, read_tag}
use blaze_pk_rs.Printer.{
  Printer, Printed, done, failed, panicked, ran_out, push, ◌▸◌, read, either_way, for_each,
}
use blaze_pk_rs.Types.{union_unset}
use blaze_pk_rs.Types.Text.{read_blob, read_string}
use blaze_pk_rs.Types.Numbers.{read_f32}

unfoldable pub indentation : ℕ → Text
unfolding repeat
indentation indent = repeat (codes "  ") indent

-- `matches!(value_type, TdfType::Map | TdfType::Group)`
unfoldable pub expands : TdfType → Bool
expands TdfType.map = true
expands TdfType.group = true
expands _ = false

unfoldable pub stringify_var_int : Printer
unfolding push read decimal
stringify_var_int = read read_usize λ value. push (decimal value)

unfoldable pub stringify_string : Printer
unfolding push ◌▸◌ read
stringify_string = read read_string λ value. push (codes "\"") ▸ push value ▸ push (codes "\"")

-- `if i < length - 1 { out.push_str(text) }`
unfoldable pub unless_last : ℕ → ℕ → Text → Printer
unfolding push
unless_last i length text = if ltb i (length - 1) then push text else push []

-- The bytes from index `i` on.
unfoldable pub blob_bytes : ℕ → ℕ → List ℕ → Printer
unfolding push ◌▸◌ upper_hex unless_last
blob_bytes length i [] = push []
blob_bytes length i (byte ∷ rest) =
    push (upper_hex byte) ▸ unless_last i length (codes ", ") ▸ blob_bytes length (i + 1) rest

unfoldable pub stringify_blob : Printer
unfolding push ◌▸◌ read blob_bytes
stringify_blob =
    read read_blob
      λ value. push (codes "Blob [") ▸ blob_bytes (length value) 0 value ▸ push (codes "]")

unfoldable pub stringify_var_int_list : Printer
unfolding push ◌▸◌ read for_each unless_last decimal
stringify_var_int_list = read read_usize λ length.
    push (codes "VarList [")
    ▸ for_each length 0
        (λ i. read read_usize λ value. push (decimal value) ▸ unless_last i length (codes ", "))
    ▸ push (codes "]")

unfoldable pub stringify_pair : Printer
unfolding push read decimal
stringify_pair = read read_usize λ a.
    read read_usize λ b. push (codes "(" ++ (decimal a ++ (codes ", " ++ (decimal b ++ codes ")"))))

unfoldable pub stringify_triple : Printer
unfolding push read decimal
stringify_triple = read read_usize λ a. read read_usize λ b. read read_usize λ c. push (
    codes "("
    ++ (decimal a ++ (codes ", " ++ (decimal b ++ (codes ", " ++ (decimal c ++ codes ")"))))))

module _ (f : Formats) where
  unfoldable pub stringify_float : Printer
  unfolding push read
  stringify_float = read read_f32 λ value. push (f.f32_to_string value)

  module _ (go : ℕ → TdfType → Printer) where
    unfoldable pub stringify_tag : ℕ → Printer
    unfolding push ◌▸◌ read either_way indentation
    stringify_tag indent = read read_tag λ tag.
        push (indentation indent)
        ▸ push (codes "\"" ++ (fmt tag.tag ++ codes "\": "))
        ▸ either_way (go indent tag.ty) (codes ",\n") (codes "...")

    unfoldable pub group_end : ℕ → Bool → Printer
    unfolding push ◌▸◌ indentation
    group_end indent is_two =
        push (indentation indent) ▸ push (codes "}") ▸ push (if is_two then codes " (2)" else [])

    -- What is made of the next byte of a group; `more` is the field and what follows it.
    unfoldable pub group_byte : ℕ → Bool → (Bool → Printer) → ℕ → Printer
    unfolding read group_end
    group_byte indent is_two more byte =
        if byte == 0
        then (read (advance 1) λ _. group_end indent is_two)
        else if byte == 2
        then (read (advance 1) λ _. more true)
        else more is_two

    unfoldable pub stringify_group_loop : ℕ → ℕ → Bool → Printer
    unfolding ◌▸◌ read stringify_tag group_byte
    stringify_group_loop indent zero is_two r out = ran_out
    stringify_group_loop indent (suc fuel) is_two r out =
        let more =
          λ (two : Bool). stringify_tag (indent + 1) ▸ stringify_group_loop indent fuel two in
        if ltb r.cursor (length r.buffer)
        then read peek (group_byte indent is_two more) r out
        else group_end indent is_two r out

    -- A round takes a byte at least.
    unfoldable pub stringify_group : ℕ → Printer
    unfolding push ◌▸◌ stringify_group_loop
    stringify_group indent = push (codes "{\n") ▸ λ r.
        stringify_group_loop indent (suc (length r.buffer - r.cursor)) false r

    unfoldable pub list_item : ℕ → TdfType → ℕ → ℕ → Printer
    unfolding push ◌▸◌ unless_last indentation expands
    list_item indent value_type length i =
        push (if expands value_type then indentation (indent + 1) else [])
        ▸ go (indent + 1) value_type
        ▸ unless_last i length (codes ", ")
        ▸ push (if expands value_type then codes "\n" else [])

    unfoldable pub stringify_list : ℕ → Printer
    unfolding push ◌▸◌ read for_each list_item indentation expands
    stringify_list indent = read read_type λ value_type. read read_usize λ length.
        push (codes "[")
        ▸ push (if expands value_type then codes "\n" else [])
        ▸ for_each length 0 (list_item indent value_type length)
        ▸ push (if expands value_type then indentation indent else [])
        ▸ push (codes "]")

    unfoldable pub map_item : ℕ → TdfType → TdfType → ℕ → ℕ → Printer
    unfolding push ◌▸◌ unless_last indentation
    map_item indent key_type value_type length i =
        push (indentation (indent + 1))
        ▸ go (indent + 1) key_type
        ▸ push (codes ": ")
        ▸ go (indent + 1) value_type
        ▸ unless_last i length (codes ",")
        ▸ push (codes "\n")

    unfoldable pub stringify_map : ℕ → Printer
    unfolding push ◌▸◌ read for_each map_item indentation type_debug
    stringify_map indent = read read_type λ key_type. read read_type λ value_type.
        read read_usize λ length.
          push (
            codes "Map<"
            ++ (type_debug key_type ++ (codes ", " ++ (type_debug value_type ++ codes "> "))))
          ▸ push (codes "{\n")
          ▸ for_each length 0 (map_item indent key_type value_type length)
          ▸ push (indentation indent)
          ▸ push (codes "}")

    unfoldable pub stringify_union : ℕ → Printer
    unfolding push ◌▸◌ read decimal
    stringify_union indent = read read_byte λ ty.
        if ty == union_unset
        then push (codes "Union(Unset)")
        else (read read_tag λ tag.
            push (codes "Union(\"" ++ (fmt tag.tag ++ (codes "\", " ++ (decimal ty ++ codes ", "))))
            ▸ go (indent + 1) tag.ty
            ▸ push (codes ")"))

    unfoldable pub stringify_by_type : ℕ → TdfType → Printer
    unfolding stringify_var_int stringify_string stringify_blob stringify_group stringify_list
        stringify_map stringify_union stringify_var_int_list stringify_pair stringify_triple
        stringify_float
    stringify_by_type indent TdfType.var_int = stringify_var_int
    stringify_by_type indent TdfType.string = stringify_string
    stringify_by_type indent TdfType.blob = stringify_blob
    stringify_by_type indent TdfType.group = stringify_group indent
    stringify_by_type indent TdfType.list = stringify_list indent
    stringify_by_type indent TdfType.map = stringify_map indent
    stringify_by_type indent TdfType.union = stringify_union indent
    stringify_by_type indent TdfType.var_int_list = stringify_var_int_list
    stringify_by_type indent TdfType.pair = stringify_pair
    stringify_by_type indent TdfType.triple = stringify_triple
    stringify_by_type indent TdfType.float = stringify_float

  -- `stringify_type` to a depth of nesting.
  unfoldable pub stringify_nested : ℕ → ℕ → TdfType → Printer
  unfolding stringify_by_type
  stringify_nested zero indent ty r out = ran_out
  stringify_nested (suc depth) indent ty r out =
      stringify_by_type (λ indent' inner. stringify_nested depth indent' inner) indent ty r out

  -- A level of nesting takes a byte at least, so there are no more levels than bytes left.
  unfoldable pub stringify_type : ℕ → TdfType → Printer
  unfolding stringify_nested
  stringify_type indent ty r out =
      stringify_nested (suc (length r.buffer - r.cursor)) indent ty r out

  -- What `stringify` makes of the end of a field: `more` is what follows it.
  unfoldable pub field_end : Printer → Printed → Printed
  unfolding push read decimal error_debug
  field_end more (done s out) = more s out
  field_end more (failed e s out) =
      read len
        (λ remaining.
          push (
            codes "... remaining "
            ++ (decimal remaining ++ (codes ", cause: " ++ error_debug f e))))
        s out
  field_end more panicked = panicked
  field_end more ran_out = ran_out

  unfoldable pub stringify_loop : ℕ → Printer
  unfolding field_end stringify_tag stringify_type
  stringify_loop zero r out = ran_out
  stringify_loop (suc fuel) r out =
      let round = field_end (stringify_loop fuel) (stringify_tag stringify_type 1 r out) in
      if ltb r.cursor (length r.buffer) then round else done r out

  -- A field takes four bytes at least.
  unfoldable pub stringify : Printer
  unfolding stringify_loop
  stringify r out = stringify_loop (suc (length r.buffer - r.cursor)) r out

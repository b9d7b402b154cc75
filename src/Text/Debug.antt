-- ===== src/Text/Debug.antt =====
-- src/error.rs, src/tag.rs, src/packet.rs: the derived `Debug` of errors, tags and types, and the
-- `Display` of errors.
use Prim.Native.String.{String}
use blaze_pk_rs.Prelude.{◌++◌}
use blaze_pk_rs.Tag.{Tag, TdfType, fmt}
use blaze_pk_rs.PacketType.{PacketType}
use blaze_pk_rs.Error.{
  DecodeError, missing_tag, invalid_tag_type, invalid_type, unknown_type, unexpected_eof, other,
}
use blaze_pk_rs.Text.{Text, codes, Formats, decimal}

unfoldable pub type_debug : TdfType → Text
type_debug TdfType.var_int = codes "VarInt"
type_debug TdfType.string = codes "String"
type_debug TdfType.blob = codes "Blob"
type_debug TdfType.group = codes "Group"
type_debug TdfType.list = codes "List"
type_debug TdfType.map = codes "Map"
type_debug TdfType.union = codes "Union"
type_debug TdfType.var_int_list = codes "VarIntList"
type_debug TdfType.pair = codes "Pair"
type_debug TdfType.triple = codes "Triple"
type_debug TdfType.float = codes "Float"

unfoldable pub packet_type_debug : PacketType → Text
packet_type_debug PacketType.request = codes "Request"
packet_type_debug PacketType.response = codes "Response"
packet_type_debug PacketType.notify = codes "Notify"
packet_type_debug PacketType.error = codes "Error"

-- A tuple struct around an array.
unfoldable pub tag_debug : Tag → Text
unfolding decimal
tag_debug t =
    codes "Tag(["
    ++ (decimal t.at0
        ++ (codes ", "
            ++ (decimal t.at1
                ++ (codes ", "
                    ++ (decimal t.at2 ++ (codes ", " ++ (decimal t.at3 ++ codes "])")))))))

abbrev field : String → Text → Text
field name value = codes name ++ (codes ": " ++ value)

-- `{:?}` of an error.
unfoldable pub error_debug : Formats → DecodeError → Text
unfolding type_debug tag_debug decimal
error_debug f (missing_tag tag ty) =
    codes "MissingTag { "
    ++ (field "tag" (tag_debug tag) ++ (codes ", " ++ (field "ty" (type_debug ty) ++ codes " }")))
error_debug f (invalid_tag_type tag expected actual) =
    codes "InvalidTagType { "
    ++ (field "tag" (tag_debug tag)
        ++ (codes ", "
            ++ (field "expected" (type_debug expected)
                ++ (codes ", " ++ (field "actual" (type_debug actual) ++ codes " }")))))
error_debug f (invalid_type expected actual) =
    codes "InvalidType { "
    ++ (field "expected" (type_debug expected)
        ++ (codes ", " ++ (field "actual" (type_debug actual) ++ codes " }")))
error_debug f (unknown_type ty) = codes "UnknownType { " ++ (field "ty" (decimal ty) ++ codes " }")
error_debug f (unexpected_eof cursor wanted remaining) =
    codes "UnexpectedEof { "
    ++ (field "cursor" (decimal cursor)
        ++ (codes ", "
            ++ (field "wanted" (decimal wanted)
                ++ (codes ", " ++ (field "remaining" (decimal remaining) ++ codes " }")))))
error_debug f (other err) = codes "Other(" ++ (f.debug_str err ++ codes ")")

-- `{}` of an error.
unfoldable pub error_display : DecodeError → Text
unfolding type_debug fmt decimal
error_display (missing_tag tag ty) =
    codes "Missing tag '" ++ (fmt tag ++ (codes "' (type: " ++ (type_debug ty ++ codes ")")))
error_display (invalid_tag_type tag expected actual) =
    codes "Invalid tag type for '"
    ++ (fmt tag
        ++ (codes "' (expected: "
            ++ (type_debug expected ++ (codes ", got: " ++ (type_debug actual ++ codes ")")))))
error_display (invalid_type expected actual) =
    codes "Unexpected tag type (expected: "
    ++ (type_debug expected ++ (codes ", got: " ++ (type_debug actual ++ codes ")")))
error_display (unknown_type ty) = codes "Unknown tag type: " ++ decimal ty
error_display (unexpected_eof cursor wanted remaining) =
    codes "Unexpected end of file (cursor: "
    ++ (decimal cursor
        ++ (codes ", wanted: "
            ++ (decimal wanted ++ (codes ", remaining: " ++ (decimal remaining ++ codes ")")))))
error_display (other err) = codes err

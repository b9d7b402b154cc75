-- ===== src/Lib.antt =====
-- The packet system of Blaze, as the crate blaze_pk implements it: a binary format of tagged
-- values, its reader and writer, and packets of such values in a stream of bytes.
--
-- Parts, the code that they model, and the modules that model them:
--   * Tag, Tag.Code (src/tag.rs): tags, the types of tagged values, and their codes.
--   * Error (src/error.rs): the errors of decoding.
--   * Reader (src/reader.rs): `TdfReader`, a buffer with a cursor. A method is a function from a
--     reader to an outcome: a value or an error with the reader as it is left, or a panic. Below
--     it VarInt (`impl_decode_var` and the reads of integers), Tagged (`read_type`, `read_tag`),
--     Skip (`skip_type` and the methods that it calls) and Seek (`until_tag`, `try_until_tag`,
--     `tag`, `try_tag`, `until_list`, `until_map`). Reads and Keeps are the two ways in which
--     reads are specified: the bytes that a read takes for a value, and what every read keeps.
--   * Writer (src/writer.rs): `TdfWriter`, a buffer that grows at its end, with VarInt, Tagged and
--     Values below it.
--   * VarInt, TagFormat: the formats of integers and of tags, described apart from both reader
--     and writer.
--   * Codec (src/codec.rs): `Encodable`, `Decodable` and `ValueType` as a record of operations,
--     with the law that an implementation obeys: what is encoded is decoded to the same value in
--     any buffer, and is skipped by a reader that knows its type alone.
--   * Types (src/types.rs): the implementations, and `TdfMap` with its operations.
--     Types.Text has strings, Types.Map.Views the iterators of maps, `get_mut` and the texts of
--     maps, and Types.Tagged the tags of writer.rs with slices, maps and tuples.
--   * PacketType, Packet (src/packet.rs): headers, packets, `PacketCodec`, and below them Requests:
--     what handlers take from requests and how what they return becomes a response.
--     Packet.Arrivals has the bytes of a stream arrive in pieces, with calls of the decoder between
--     them, Packet.Message takes a message from its encoder to its receiver, and Packet.Debug is
--     `PacketDebug`.
--   * Text: texts as lists of characters, the numbers in them, and below it Debug: the derived
--     `Debug` of types, tags and errors, and `Display` of errors (src/error.rs). The text of an f32
--     and the quoting of strings by `{:?}`, which the standard library makes, are parameters.
--   * Printer, Reader.Stringify (src/reader.rs): the methods that add to a `String` while they read,
--     `stringify`, `stringify_tag` and `stringify_type`.
--   * Format: the format of whole values as a grammar of bytes with the text of each value, which
--     is described apart from `skip_type`, `stringify` and the writer, and Format.Calls: the calls
--     of the writer that make messages of it.
--   * Serialize (src/serialize.rs): the implementations for Serde, over any serializer.
--   * Components (blaze-pk-derive/src/lib.rs): the implementations of `PacketComponents` and
--     `PacketComponent` that the derive macros generate, and Components.Input: how they read their
--     input, over the crates `syn` and `darling` as a record of operations.
--   * Router (src/router.rs): routes from components to handlers, and the futures of responses. A
--     future is a machine over the state that it borrows, which each poll moves on; those of
--     handlers are any futures. Router.Outcomes describes all that `handle` can come to.
--   * Buffer: the crate `bytes`, which the repository uses and does not contain, as a record of
--     operations and of what their documentation says; Buffer.Vectors shows that lists of bytes
--     are such buffers.
--
-- Numbers are natural numbers with the wrap-around of each width written out. A `usize` has 64
-- bits. Arithmetic that overflows panics, as it does where overflow checks are on. An `f32` is its
-- bit pattern. The memory that a vector asks for is given, up to the limit of `isize::MAX` bytes,
-- past which `with_capacity` panics. No slice has 2 ^ 63 bytes or more.
--
-- Loops of the reader take fuel: one unit for each byte that is left, and one more, since each
-- round takes a byte at least; `skip_type` takes a unit for each level of nesting, each of which
-- takes a byte. The loop of `impl_decode_var` panics before it has made as many rounds as its type
-- has bits. Running out of fuel is an outcome of its own.
--
-- Strings are lists of Unicode scalar values; their encoding in UTF-8 and `String::from_utf8_lossy`
-- are written out as the standard library documents them.
--
-- `stringify` has the fuel of `skip_type`: a unit for each byte that is left, and one more, for its
-- rounds and for the levels of nesting.
--
-- Not modelled: the tokens that the derive macros quote (what they are compiled to is), the derived
-- `Debug` of lists, unions and blobs, the constructors of an empty `VarIntList`, and the module
-- declarations of src/lib.rs.
pub mod Prelude
pub mod Text
pub mod Printer
pub mod Tag
pub mod Error
pub mod Reader
pub mod Writer
pub mod VarInt
pub mod Types
pub mod Codec
pub mod Buffer
pub mod PacketType
pub mod Packet
pub mod TagFormat
pub mod Format
pub mod Components
pub mod Router
pub mod Serialize
pub mod Runs

-- ===== src/Runs/Packets.antt =====
-- Runs of the codec of streams in src/packet.rs, over buffers that are lists of bytes.
use blaze_pk_rs.Prelude.{
  ℕ, zero, suc, ◌<◌, ◌≡◌, ◌≢◌, refl, List, [], ◌∷◌, ◌++◌, some, none, length, arith, take, drop,
  All,
}
use blaze_pk_rs.Buffer.Vectors.{vectors}
use blaze_pk_rs.PacketType.{type_code}
use blaze_pk_rs.Packet.{request, notify}
use blaze_pk_rs.Packet.Wire.{read_length}
use blaze_pk_rs.Packet.Body.{Packet, codec_decode, codec_encode}
use blaze_pk_rs.Packet.Header.{write}
use blaze_pk_rs.Packet.Stream.{
  Decoded, DecodesAll, encode_all, codec_decode-encode_all, packet_bytes, IsShort,
}
use blaze_pk_rs.Packet.Partial.{codec_decode-part, codec_decode-long}
use blaze_pk_rs.Packet.Arrivals.{
  Framed, Reach, begin, arrive, wait, Kept, Calls, arrivals_in_order, arrivals_all_returned,
}
use blaze_pk_rs.Packet.Next.{Same}
use blaze_pk_rs.Packet.Total.{codec_decode-total}

abbrev ping : Packet vectors
ping = record { header = request 7 9 2; contents = 0x86 ∷ 0xeb ∷ 0xee ∷ 0 ∷ 5 ∷ [] }

abbrev update : Packet vectors
update = record { header = notify 0x7802 1; contents = [] }

abbrev two_packets : List (Packet vectors)
two_packets = ping ∷ update ∷ []

two_packets-IsShort : All (IsShort vectors) two_packets
two_packets-IsShort = (omega arith, (omega arith, tt))

abbrev stream : List ℕ
stream = encode_all vectors two_packets [] ++ 0 ∷ 1 ∷ []

two_packets_example :
    (left : List ℕ) × DecodesAll vectors stream two_packets left × (left ≡ 0 ∷ 1 ∷ [])
two_packets_example =
    codec_decode-encode_all vectors two_packets [] stream (0 ∷ 1 ∷ []) two_packets-IsShort refl refl

abbrev part : List ℕ
part = 0 ∷ 5 ∷ 0 ∷ 9 ∷ 0 ∷ 2 ∷ 0 ∷ 0 ∷ 0 ∷ 0 ∷ 0 ∷ 7 ∷ 0x86 ∷ 0xeb ∷ []

part_example : codec_decode vectors part ≡ some (none, part)
unfolding request type_code
part_example = codec_decode-part vectors ping part 0xee (0 ∷ 5 ∷ []) (omega arith) refl

total_example : codec_decode vectors part ≢ none
total_example = codec_decode-total vectors part

unfoldable zeros : ℕ → List ℕ
zeros zero = []
zeros (suc n) = 0 ∷ zeros n

length-zeros : (n : ℕ) → length (zeros n) ≡ n
unfolding zeros
length-zeros zero = refl
length-zeros (suc n) = omega (arith, length-zeros n)

-- 65540 bytes, of which the header makes five.
abbrev large : Packet vectors
large = record { header = request 7 9 2; contents = zeros 65540 }

large_example :
    (read_length (length (zeros 65540)) < length (zeros 65540))
    × Decoded vectors
        (packet_bytes vectors large)
        (request 7 9 2)
        (take (read_length (length (zeros 65540))) (zeros 65540))
        (drop (read_length (length (zeros 65540))) (zeros 65540))
large_example =
    codec_decode-long vectors large (packet_bytes vectors large) (omega (arith, length-zeros 65540))
      (omega (arith, length-zeros 65540)) refl

-- The bytes of two packets, cut inside the first one.
abbrev bytes : List ℕ
bytes = encode_all vectors two_packets []

abbrev waiting : Framed vectors
waiting = record { buffer = take 5 bytes; packets = [] }

abbrev arrived_all : Framed vectors
arrived_all = record { buffer = bytes; packets = [] }

cut_wait : codec_decode vectors (take 5 bytes) ≡ some (none, take 5 bytes)
unfolding request notify type_code encode_all codec_encode write
cut_wait =
    codec_decode-part vectors ping (take 5 bytes) 2
      (0 ∷ 0 ∷ 0 ∷ 0 ∷ 0 ∷ 7 ∷ 0x86 ∷ 0xeb ∷ 0xee ∷ 0 ∷ 5 ∷ []) (omega arith) refl

two_pieces : Reach vectors [] bytes arrived_all
unfolding encode_all codec_encode write
two_pieces = arrive (drop 5 bytes) (wait (take 5 bytes) (arrive (take 5 bytes) begin) cut_wait)

in_order_example : Kept vectors two_packets (drop 5 bytes) waiting
unfolding encode_all codec_encode write
in_order_example =
    arrivals_in_order vectors two_packets [] (drop 5 bytes) two_packets-IsShort refl refl
      (wait (take 5 bytes) (arrive (take 5 bytes) begin) cut_wait) refl

all_returned_example :
    (t : Framed vectors) × Calls vectors arrived_all t
    × Same vectors t.packets two_packets
    × (t.buffer ≡ [])
all_returned_example =
    arrivals_all_returned vectors two_packets [] two_packets-IsShort refl refl two_pieces refl

-- ===== src/Packet/Requests.antt =====
-- src/packet.rs: what a handler takes from a request, and how what it returns becomes a response.
use blaze_pk_rs.Prelude.{ℕ, ◌≡◌, refl, List, [], Option, none, some}
use blaze_pk_rs.Buffer.{Buffers}
use blaze_pk_rs.Reader.{Run, ok, err, panic, stuck}
use blaze_pk_rs.Codec.{Codec, encode_bytes}
use blaze_pk_rs.PacketType.{PacketType}
use blaze_pk_rs.Packet.{PacketHeader, with_type, response as header_response}
use blaze_pk_rs.Packet.Body.{Packet, response, response_empty, decode}

pub data Either (A B : Type 0) : Type 0 where
  ok_value : A → Either A B
  err_value : B → Either A B

module _ (api : Buffers) where
  open api use {Bytes, as_slice, from_vec, from_vec_lem, empty_lem}

  -- `from_request` of a type that can be decoded. The reader is dropped with the outcome.
  unfoldable pub from_request : {D : Type 0} → Codec D → Packet api → Run D
  from_request c req = decode api c req

  -- `Request<T>`
  pub record Request (T : Type 0) : Type 0 where
    pub req : T
    pub header : PacketHeader

  -- `from_request` of `Request<T>`, from that of `T`.
  unfoldable pub from_request_with_header :
      {T : Type 0} → (Packet api → Run T) → Packet api → Run (Request T)
  from_request_with_header inner req = elim (inner req) [
    | ok value r ↦ ok (record { req = value; header = req.header }) r
    | err e r ↦ err e r
    | panic ↦ panic
    | stuck ↦ stuck
  ]

  -- `Request::response`, whose result is passed on as it is.
  unfoldable pub request_response : {T E : Type 0} → Codec E → Request T → E → Packet api
  request_response c self res = record {
    header = header_response self.header;
    contents = from_vec (encode_bytes c res);
  }

  abbrev pub IntoResponse : Type 0 → Type 0
  IntoResponse T = T → Packet api → Packet api

  -- `Response`
  unfoldable pub into_response_ready : IntoResponse (Packet api)
  into_response_ready self req = self

  -- `PacketBody`, and its conversion from what can be encoded.
  unfoldable pub into_response_body : IntoResponse Bytes
  into_response_body self req = record { header = header_response req.header; contents = self }

  unfoldable pub packet_body : {T : Type 0} → Codec T → T → Bytes
  packet_body c value = from_vec (encode_bytes c value)

  unfoldable pub into_response_unit : IntoResponse (Unit {0})
  into_response_unit self req = response_empty api req

  unfoldable pub into_response_encodable : {E : Type 0} → Codec E → IntoResponse E
  into_response_encodable c self req = response api c req self

  unfoldable pub into_response_result :
      {S E : Type 0} → IntoResponse S → IntoResponse E → IntoResponse (Either S E)
  into_response_result s e (ok_value value) req = s value req
  into_response_result s e (err_value value) req = e value req

  unfoldable pub into_response_option : {S : Type 0} → IntoResponse S → IntoResponse (Option S)
  into_response_option s (some value) req = s value req
  into_response_option s none req = response_empty api req

  -- The types that are turned into responses. `ready_reply` is that of `Response`, which holds a
  -- packet that the handler has made itself, as `Request::response` does.
  pub data Reply : Type 0 → Type 1 where
    ready_reply : Reply (Packet api)
    unit_reply : Reply (Unit {0})
    body_reply : Reply Bytes
    encodable_reply : {E : Type 0} → Codec E → Reply E
    result_reply : {S E : Type 0} → Reply S → Reply E → Reply (Either S E)
    option_reply : {S : Type 0} → Reply S → Reply (Option S)

  unfoldable pub into_response : {T : Type 0} → Reply T → IntoResponse T
  unfolding into_response_ready into_response_unit into_response_body into_response_encodable
      into_response_result into_response_option
  into_response ready_reply = into_response_ready
  into_response unit_reply = into_response_unit
  into_response body_reply = into_response_body
  into_response (encodable_reply c) = into_response_encodable c
  into_response (result_reply s e) = into_response_result (into_response s) (into_response e)
  into_response (option_reply s) = into_response_option (into_response s)

  -- A packet with the component, command, error and id of a request, as a response, and with these
  -- contents.
  abbrev pub Holds : PacketHeader → List ℕ → Packet api → Type 0
  Holds header contents packet =
      (packet.header ≡ record header { ty = PacketType.response })
      × (as_slice packet.contents ≡ contents)

  -- The packet that a value is answered with: a response that was made is passed on as it is, and
  -- anything else is answered by a packet with the bytes that the value is encoded to. `()` and `None`
  -- are answered without contents.
  abbrev pub Answers : {T : Type 0} → PacketHeader → Reply T → T → Packet api → Type 0
  Answers header ready_reply made packet = packet ≡ made
  Answers header unit_reply value packet = Holds header [] packet
  Answers header body_reply body packet = Holds header (as_slice body) packet
  Answers header (encodable_reply c) value packet = Holds header (encode_bytes c value) packet
  Answers header (result_reply s e) (ok_value value) packet = Answers header s value packet
  Answers header (result_reply s e) (err_value value) packet = Answers header e value packet
  Answers header (option_reply s) (some value) packet = Answers header s value packet
  Answers header (option_reply s) none packet = Holds header [] packet

  pub into_response-Answers :
      {T : Type 0} (r : Reply T) (value : T) (req : Packet api)
      → Answers req.header r value (into_response r value req)
  unfolding into_response response response_empty header_response with_type
  into_response-Answers ready_reply value req = refl
  into_response-Answers unit_reply value req = (refl, empty_lem)
  into_response-Answers body_reply value req = (refl, refl)
  into_response-Answers (encodable_reply c) value req = (refl, from_vec_lem (encode_bytes c value))
  into_response-Answers (result_reply s e) (ok_value value) req = into_response-Answers s value req
  into_response-Answers (result_reply s e) (err_value value) req = into_response-Answers e value req
  into_response-Answers (option_reply s) (some value) req = into_response-Answers s value req
  into_response-Answers (option_reply s) none req = (refl, empty_lem)

-- ===== src/Runs/Routes.antt =====
-- Runs of the router, with components that are the numbers of headers.
use blaze_pk_rs.Prelude.{ℕ, zero, suc, ◌+◌, ◌≡◌, refl, [], ◌∷◌, Option, some, none, if◌then◌else◌}
use blaze_pk_rs.Prelude.Classes.{nat_eq}
use blaze_pk_rs.Buffer.Vectors.{vectors}
use blaze_pk_rs.Error.{unexpected_eof}
use blaze_pk_rs.Reader.{Run, ok, err}
use blaze_pk_rs.Packet.{PacketHeader, request}
use blaze_pk_rs.Packet.Body.{Packet}
use blaze_pk_rs.Packet.Requests.{Reply, encodable_reply, option_reply, into_response, Answers}
use blaze_pk_rs.Router.{
  ready, pending, Future, run, handled, Handler, Route, handler_route, new, route, handle,
}
use blaze_pk_rs.Router.Laws.{handle-route, handle-responds}
use blaze_pk_rs.Router.Outcomes.{Registration, a_route, no_routes, Outcome, handle-Outcome}
use blaze_pk_rs.Types.Numbers.{u16_codec}

abbrev from_header : PacketHeader → Option ℕ
from_header header = some header.component

abbrev packet : Packet vectors
packet = record { header = request 7 9 2; contents = 5 ∷ [] }

-- It is ready at the second poll, and counts the polls in the state.
abbrev second_poll : ℕ → Future ℕ (Option ℕ)
second_poll req = record {
  Machine = ℕ;
  start = 1;
  poll = λ state machine. elim machine [
    | zero ↦ (state + req, 0, ready (some 300))
    | suc left ↦ (state + req, left, pending)
  ];
}

abbrev handler : Handler vectors ℕ ℕ (Option ℕ)
handler state req = (state, second_poll req)

abbrev first_byte : Packet vectors → Run ℕ
first_byte p = elim p.contents [
  | [] ↦ err (unexpected_eof 0 1 0) (record { buffer = p.contents; cursor = 0 })
  | b ∷ rest ↦ ok b (record { buffer = p.contents; cursor = 1 })
]

abbrev reply : Reply vectors (Option ℕ)
reply = option_reply (encodable_reply u16_codec)

abbrev routed : Route vectors ℕ
routed = handler_route vectors ℕ first_byte (into_response vectors reply) handler

route_example :
    handle vectors ℕ from_header
      (route vectors ℕ from_header 9 routed (new vectors ℕ from_header))
      0
      packet
    ≡ routed 0 packet
unfolding request
route_example = handle-route vectors ℕ from_header 9 routed (new vectors ℕ from_header) 0 packet

responds_example :
    (answer : Future ℕ (Packet vectors)) × (reply_packet : Packet vectors) × (handle vectors ℕ
        from_header
        (route vectors ℕ from_header 9 routed (new vectors ℕ from_header))
        0
        packet
      ≡ handled 0 answer)
    × (run answer 2 0 ≡ (10, ready reply_packet))
    × Answers vectors packet.header reply (some 300) reply_packet
unfolding request run
responds_example =
    handle-responds vectors ℕ from_header 9 first_byte reply handler (new vectors ℕ from_header) 0 0
      10 packet 5 (record { buffer = 5 ∷ []; cursor = 1 }) (second_poll 5) 2 (some 300) refl refl
      refl refl

abbrev empty_packet : Packet vectors
empty_packet = record { header = request 7 9 2; contents = [] }

abbrev registration : Registration vectors ℕ
registration = record {
  Req = ℕ;
  Res = Option ℕ;
  from_request = first_byte;
  into = into_response vectors reply;
  handler = handler;
}

abbrev one_route : ℕ → Option (Registration vectors ℕ)
one_route c = if nat_eq.eq 9 c then some registration else none

-- A packet that has no first byte.
outcome_example : Outcome vectors ℕ from_header one_route 0 empty_packet (
    handle vectors ℕ from_header
      (route vectors ℕ from_header 9 routed (new vectors ℕ from_header))
      0
      empty_packet)
outcome_example =
    handle-Outcome vectors ℕ from_header 0 empty_packet (a_route 9 registration no_routes)

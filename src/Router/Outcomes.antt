-- ===== src/Router/Outcomes.antt =====
-- What `handle` may come to, with a router that was made by calls of `route`.
use blaze_pk_rs.Prelude.{◌≡◌, refl, ◌∙◌, Option, none, some, inl, inr, Bool-cases, if◌then◌else◌}
use blaze_pk_rs.Prelude.Classes.{Eq}
use blaze_pk_rs.Buffer.{Buffers}
use blaze_pk_rs.Error.{DecodeError}
use blaze_pk_rs.Reader.{TdfReader, Run, ok, err, panic, stuck}
use blaze_pk_rs.Packet.{PacketHeader}
use blaze_pk_rs.Packet.Body.{Packet}
use blaze_pk_rs.Packet.Requests.{IntoResponse}
use blaze_pk_rs.Router.{
  Future, handler_future, missing_handler, decoding, Handled, handled, failed, panicked, ran_out,
  Handler, Route, handler_route, Router, new, get_route, route, dispatch, find_route, handle,
}
use blaze_pk_rs.Router.Laws.{get_route-insert_route}

module _ (api : Buffers) (S : Type 0) where
  -- What is given to a call of `route` besides the component.
  pub record Registration : Type 1 where
    pub Req : Type 0
    pub Res : Type 0
    pub from_request : Packet api → Run Req
    pub into : IntoResponse api Res
    pub handler : Handler api S Req Res

  -- The route that a registration is kept as.
  abbrev pub kept_as : Registration → Route api S
  kept_as r = handler_route api S r.from_request r.into r.handler

  module _ {C : Type 0} ⦃eqs : Eq C⦄ (from_header : PacketHeader → Option C) where
    -- A router made by calls of `route`; `latest` is, for each component, the registration of the
    -- last of these calls for it.
    pub data Built : (C → Option Registration) → Router api S from_header → Type 1 where
      no_routes : Built (λ c. none) (new api S from_header)
      a_route :
          {latest : C → Option Registration} {self : Router api S from_header} (component : C)
          (r : Registration)
          → Built latest self
          → Built
              (λ c. if eqs.eq component c then some r else latest c)
              (route api S from_header component (kept_as r) self)

    -- What becomes of a packet in the state `state`, for a component whose last registration is `r`.
    pub data Served (r : Registration) (state : S) (packet : Packet api)
        : Handled api S → Type 1 where
      answered :
          {reader : TdfReader} {state' : S} (req : r.Req) (fut : Future S r.Res)
          → r.from_request packet ≡ ok req reader
          → r.handler state req ≡ (state', fut)
          → Served r state packet (handled state' (handler_future api S r.into packet fut))
      undecodable :
          {d : DecodeError} {reader : TdfReader}
          → r.from_request packet ≡ err d reader
          → Served r state packet (failed state (decoding d))
      decoder_panics : r.from_request packet ≡ panic → Served r state packet panicked
      decoder_stuck : r.from_request packet ≡ stuck → Served r state packet ran_out

    pub data Outcome (latest : C → Option Registration) (state : S) (packet : Packet api)
        : Handled api S → Type 1 where
      no_component :
          from_header packet.header ≡ none
          → Outcome latest state packet (failed state (missing_handler packet))
      no_handler :
          {c : C}
          → from_header packet.header ≡ some c
          → latest c ≡ none
          → Outcome latest state packet (failed state (missing_handler packet))
      served :
          {c : C} {h : Handled api S} (r : Registration)
          → from_header packet.header ≡ some c
          → latest c ≡ some r
          → Served r state packet h
          → Outcome latest state packet h

    route_of : Option Registration → Option (Route api S)
    route_of (some r) = some (kept_as r)
    route_of none = none

    get_route-Built :
        {latest : C → Option Registration} {self : Router api S from_header} (c : C)
        → Built latest self
        → get_route api S from_header c self.routes ≡ route_of (latest c)
    unfolding get_route route new route_of
    get_route-Built c no_routes = refl
    get_route-Built c (a_route {self} component r built) =
        get_route-insert_route api S from_header component c (kept_as r) self.routes
        ∙ elim (Bool-cases (eqs.eq component c)) [
          | inl hit ↦ rw hit refl
          | inr miss ↦ rw miss (get_route-Built c built)
        ]

    handler_route-Served :
        (r : Registration) (state : S) (packet : Packet api) (x : Run r.Req)
        → r.from_request packet ≡ x
        → Served r state packet (kept_as r state packet)
    unfolding handler_route
    handler_route-Served r state packet (ok req reader) e =
        rw (e, handler_route) (answered req (r.handler state req).1 e refl)
    handler_route-Served r state packet (err d reader) e = rw (e, handler_route) (undecodable e)
    handler_route-Served r state packet panic e = rw (e, handler_route) (decoder_panics e)
    handler_route-Served r state packet stuck e = rw (e, handler_route) (decoder_stuck e)

    -- A router was made by calls of `route`. It reports a packet as one without a handler, and hands
    -- it back, exactly if its header is of no component or there was no call for its component. Else
    -- the last of these calls counts: if the packet cannot be decoded, the error of the decoder is
    -- reported. In all of these cases the state is as it was, and no handler is called. Otherwise the
    -- handler is called with what was decoded, if the decoder does not panic, and its future is
    -- wrapped.
    pub handle-Outcome :
        {latest : C → Option Registration} {self : Router api S from_header} (state : S)
        (packet : Packet api)
        → Built latest self
        → Outcome latest state packet (handle api S from_header self state packet)
    unfolding handle find_route dispatch route_of
    handle-Outcome {latest} {self} state packet built = go (from_header packet.header) refl
      where
        go :
            (target : Option C)
            → from_header packet.header ≡ target
            → Outcome latest state packet
                (dispatch api S from_header (find_route api S from_header self target) state packet)
        go none e = no_component e
        go (some c) e = rw (get_route-Built c built) (at (latest c) refl)
          where
            at :
                (o : Option Registration)
                → latest c ≡ o
                → Outcome latest state packet (dispatch api S from_header (route_of o) state packet)
            at none g = no_handler e g
            at (some r) g =
                served r e g (handler_route-Served r state packet (r.from_request packet) refl)

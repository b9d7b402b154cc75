-- ===== src/Router/Laws.antt =====
-- What the router does with requests, and what becomes of the futures of its handlers.
use blaze_pk_rs.Prelude.{
  ℕ, zero, suc, ◌≡◌, refl, ap, ◌∙◌, List, [], ◌∷◌, Option, none, some, Bool, true, false,
  if◌then◌else◌, inl, inr, Bool-cases,
}
use blaze_pk_rs.Prelude.Classes.{Eq, apart}
use blaze_pk_rs.Buffer.{Buffers}
use blaze_pk_rs.Reader.{TdfReader, Run, ok}
use blaze_pk_rs.Packet.{PacketHeader}
use blaze_pk_rs.Packet.Body.{Packet}
use blaze_pk_rs.Packet.Requests.{IntoResponse, Reply, into_response, Answers, into_response-Answers}
use blaze_pk_rs.Router.{
  Poll, ready, pending, Future, map_poll, run_machine, run, handler_future, handled, Handler, Route,
  handler_route, Router, insert_route, get_route, route, dispatch, find_route, handle,
}

module _ (api : Buffers) (S : Type 0) where
  -- A response in place of the result.
  abbrev pub respond :
      {Res : Type 0} → IntoResponse api Res → Packet api → S × Poll Res → S × Poll (Packet api)
  respond into packet (state, res) = (state, map_poll (λ value. into value packet) res)

  answer :
      {Res : Type 0} (into : IntoResponse api Res) (packet : Packet api) (res : Poll Res)
      (state : S) (x : S × Poll (Packet api)) (y : S × Poll Res)
      → x ≡ respond into packet y
      → (elim (map_poll (λ value. into value packet) res) as (λ _. S × Poll (Packet api)) [
        | ready a ↦ (state, ready a)
        | pending ↦ x
      ])
        ≡ respond into packet
            (elim res as (λ _. S × Poll Res) [ ready a ↦ (state, ready a) | pending ↦ y ])
  answer into packet (ready a) state x y e = refl
  answer into packet pending state x y e = e

  run_machine-handler_future :
      {Res : Type 0} (into : IntoResponse api Res) (packet : Packet api) (fut : Future S Res)
      (polls : ℕ) (state : S) (machine : fut.Machine)
      → run_machine (handler_future api S into packet fut) polls state machine
        ≡ respond into packet (run_machine fut polls state machine)
  unfolding run_machine
  run_machine-handler_future into packet fut zero state machine = refl
  run_machine-handler_future into packet fut (suc polls) state machine =
      let (state', machine', res) = fut.poll state machine in
      answer into packet res state'
        (run_machine (handler_future api S into packet fut) polls state' machine')
        (run_machine fut polls state' machine')
        (run_machine-handler_future into packet fut polls state' machine')

  -- Polled as often as may be, the future that `handle` returns does to the state what the handler's
  -- own future does, is ready exactly when that is, and then has its result, turned into a response
  -- to the request.
  pub run-handler_future :
      {Res : Type 0} (into : IntoResponse api Res) (packet : Packet api) (fut : Future S Res)
      (polls : ℕ) (state : S)
      → run (handler_future api S into packet fut) polls state
        ≡ respond into packet (run fut polls state)
  unfolding run
  run-handler_future into packet fut polls state =
      run_machine-handler_future into packet fut polls state fut.start

  module _ {C : Type 0} ⦃eqs : Eq C⦄ (from_header : PacketHeader → Option C) where
    pub get_route-insert_route :
        (component c : C) (r : Route api S) (routes : List (C × Route api S))
        → get_route api S from_header c (insert_route api S from_header component r routes)
          ≡ (if eqs.eq component c then some r else get_route api S from_header c routes)
    unfolding get_route insert_route
    get_route-insert_route component c r [] = refl
    get_route-insert_route component c r ((k, old) ∷ rest) =
        elim (Bool-cases (eqs.eq k component)) [
          | inl same ↦
              let alike : eqs.eq k c ≡ eqs.eq component c =
                ap (λ x. eqs.eq x c) ((eqs.eq_iff k component).0 same) in
              rw same (elim (Bool-cases (eqs.eq component c)) [
                | inl hit ↦ rw (alike, hit) refl
                | inr miss ↦ rw (alike, miss) refl
              ])
          | inr differs ↦ rw differs (elim (Bool-cases (eqs.eq k c)) [
            | inl hit ↦ rw (hit, apart k component c differs hit) refl
            | inr miss ↦ rw miss (get_route-insert_route component c r rest)
          ])
        ]

    -- Whether a packet is for a component.
    abbrev pub is_for : C → Option C → Bool
    is_for component (some target) = eqs.eq component target
    is_for component none = false

    find_route-route :
        (component : C) (r : Route api S) (self : Router api S from_header) (target : Option C)
        → find_route api S from_header (route api S from_header component r self) target
          ≡ (if is_for component target then some r else find_route api S from_header self target)
    unfolding find_route route
    find_route-route component r self (some target) =
        get_route-insert_route component target r self.routes
    find_route-route component r self none = refl

    -- After a route is set for a component, packets for that component are handled by that route, and
    -- all others as they were before, also those whose header is of no component.
    pub handle-route :
        (component : C) (r : Route api S) (self : Router api S from_header) (state : S)
        (packet : Packet api)
        → handle api S from_header (route api S from_header component r self) state packet ≡ (
            if is_for component (from_header packet.header)
            then r state packet
            else handle api S from_header self state packet)
    unfolding handle dispatch
    handle-route component r self state packet =
        ap (λ o. dispatch api S from_header o state packet)
          (find_route-route component r self (from_header packet.header))
        ∙ elim (Bool-cases (is_for component (from_header packet.header))) [
          | inl hit ↦ rw hit refl
          | inr miss ↦ rw miss refl
        ]

    handle-hit :
        (component target : C) (r : Route api S) (self : Router api S from_header) (state : S)
        (packet : Packet api)
        → from_header packet.header ≡ some target
        → component ≡ target
        → handle api S from_header (route api S from_header component r self) state packet
          ≡ r state packet
    handle-hit component target r self state packet e same =
        let hit : is_for component (from_header packet.header) ≡ true =
          ap (is_for component) e ∙ (eqs.eq_iff component target).1 same in
        handle-route component r self state packet ∙ rw hit refl

    -- A packet for a component is decoded, given to the handler that was set for that component, and
    -- answered: if the handler's future is ready with a value after some polls, then the future that
    -- `handle` returns is ready after these polls, in the same state, with the packet that answers
    -- the value: the response itself, if the value is one that the handler has made, and else a packet
    -- with the request's component, command, error and id, as a response, whose contents are the bytes
    -- that the value is encoded to, or none for `()` and `None`.
    pub handle-responds :
        {Req Res : Type 0} (component : C) (from_request : Packet api → Run Req)
        (reply : Reply api Res) (handler : Handler api S Req Res) (self : Router api S from_header)
        (state state' state'' : S) (packet : Packet api) (req : Req) (reader : TdfReader)
        (fut : Future S Res) (polls : ℕ) (value : Res)
        → from_header packet.header ≡ some component
        → from_request packet ≡ ok req reader
        → handler state req ≡ (state', fut)
        → run fut polls state' ≡ (state'', ready value)
        → (answer : Future S (Packet api)) × (response : Packet api) × (handle api S from_header
              (route api S from_header component
                (handler_route api S from_request (into_response api reply) handler)
                self)
              state
              packet
            ≡ handled state' answer)
          × (run answer polls state' ≡ (state'', ready response))
          × Answers api packet.header reply value response
    unfolding handler_route
    handle-responds component from_request reply handler self state state' state'' packet req reader
          fut polls value target decoded called ran =
        let into = into_response api reply in
        (
          handler_future api S into packet fut,
          into value packet,
          handle-hit component component (handler_route api S from_request into handler) self state
                packet target refl
              ∙ rw (decoded, handler_route) (rw called refl),
          run-handler_future into packet fut polls state' ∙ ap (respond into packet) ran,
          into_response-Answers api reply value packet,
        )

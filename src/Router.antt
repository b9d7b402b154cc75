-- ===== src/Router.antt =====
-- src/router.rs: routes from components to handlers, and the futures of their responses.
pub mod Laws
pub mod Outcomes
use blaze_pk_rs.Prelude.{ℕ, zero, suc, List, [], ◌∷◌, Option, none, some, if◌then◌else◌}
use blaze_pk_rs.Prelude.Classes.{Eq}
use blaze_pk_rs.Buffer.{Buffers}
use blaze_pk_rs.Error.{DecodeError}
use blaze_pk_rs.Reader.{Run, ok, err, panic, stuck}
use blaze_pk_rs.Packet.{PacketHeader}
use blaze_pk_rs.Packet.Body.{Packet}
use blaze_pk_rs.Packet.Requests.{IntoResponse}

pub data Poll (A : Type 0) : Type 0 where
  ready : A → Poll A
  pending : Poll A

-- A future over a state of type `S` that it borrows: a machine that each poll moves on.
pub record Future (S A : Type 0) : Type 1 where
  pub Machine : Type 0
  pub start : Machine
  pub poll : S → Machine → S × Machine × Poll A

abbrev pub map_poll : {A B : Type 0} → (A → B) → Poll A → Poll B
map_poll f (ready a) = ready (f a)
map_poll f pending = pending

-- What an executor does: it polls until the future is ready, `polls` times at most.
unfoldable pub run_machine : {S A : Type 0} → (fut : Future S A) → ℕ → S → fut.Machine → S × Poll A
run_machine fut zero state machine = (state, pending)
run_machine fut (suc polls) state machine =
    let (state', machine', answer) = fut.poll state machine in
    let later = run_machine fut polls state' machine' in
    elim answer [ ready a ↦ (state', ready a) | pending ↦ later ]

unfoldable pub run : {S A : Type 0} → Future S A → ℕ → S → S × Poll A
unfolding run_machine
run fut polls state = run_machine fut polls state fut.start

module _ (api : Buffers) (S : Type 0) where
  -- `HandlerFuture::poll`
  abbrev pub poll_handler :
      {Res : Type 0}
      → IntoResponse api Res
      → Packet api
      → (fut : Future S Res) → S
      → fut.Machine
      → S × fut.Machine × Poll (Packet api)
  poll_handler into packet fut state machine =
      let (state', machine', res) = fut.poll state machine in
      (state', machine', map_poll (λ value. into value packet) res)

  abbrev pub handler_future :
      {Res : Type 0} → IntoResponse api Res → Packet api → Future S Res → Future S (Packet api)
  handler_future into packet fut = record {
    Machine = fut.Machine;
    start = fut.start;
    poll = poll_handler into packet fut;
  }

  pub data HandleError : Type 0 where
    missing_handler : Packet api → HandleError
    decoding : DecodeError → HandleError

  -- What `handle` does: it returns a future or an error, with the state as it is then; or the decoder
  -- panics. `ran_out` is no outcome of the program.
  pub data Handled : Type 1 where
    handled : S → Future S (Packet api) → Handled
    failed : S → HandleError → Handled
    panicked : Handled
    ran_out : Handled

  -- `Handler::handle`: what a call of the handler does to the state, and its future.
  abbrev pub Handler : Type 0 → Type 0 → Type 1
  Handler Req Res = S → Req → S × Future S Res

  -- The four implementations for functions.
  unfoldable pub handle_format_a :
      {Req Res : Type 0} → (S → Req → S × Future S Res) → Handler Req Res
  handle_format_a fun state req = fun state req

  unfoldable pub handle_format_b : {Req Res : Type 0} → (Req → Future S Res) → Handler Req Res
  handle_format_b fun state req = (state, fun req)

  unfoldable pub handle_format_a_unit :
      {Res : Type 0} → (S → S × Future S Res) → Handler (Unit {0}) Res
  handle_format_a_unit fun state _ = fun state

  unfoldable pub handle_format_b_unit :
      {Res : Type 0} → (Unit {0} → Future S Res) → Handler (Unit {0}) Res
  handle_format_b_unit fun state _ = (state, fun tt)

  abbrev pub Route : Type 1
  Route = S → Packet api → Handled

  -- `HandlerRoute::handle`
  unfoldable pub handler_route :
      {Req Res : Type 0} → (Packet api → Run Req) → IntoResponse api Res → Handler Req Res → Route
  handler_route from_request into handler state packet = elim (from_request packet) [
    | ok req _ ↦
        let (state', fut) = handler state req in handled state' (handler_future into packet fut)
    | err e _ ↦ failed state (decoding e)
    | panic ↦ panicked
    | stuck ↦ ran_out
  ]

  -- The table of routes; `from_header` is that of `PacketComponents`.
  module _ {C : Type 0} ⦃e : Eq C⦄ (from_header : PacketHeader → Option C) where
    pub record Router : Type 1 where
      pub routes : List (C × Route)

    unfoldable pub new : Router
    new = record { routes = [] }

    -- `HashMap::insert`, which replaces the value of a key that is there.
    unfoldable pub insert_route : C → Route → List (C × Route) → List (C × Route)
    insert_route component r [] = (component, r) ∷ []
    insert_route component r ((c, old) ∷ rest) =
        let later = insert_route component r rest in
        if e.eq c component then (c, r) ∷ rest else (c, old) ∷ later

    unfoldable pub get_route : C → List (C × Route) → Option Route
    get_route component [] = none
    get_route component ((c, r) ∷ rest) =
        let later = get_route component rest in if e.eq c component then some r else later

    unfoldable pub route : C → Route → Router → Router
    unfolding insert_route
    route component r self = record { routes = insert_route component r self.routes }

    unfoldable pub dispatch : Option Route → S → Packet api → Handled
    dispatch (some r) state packet = r state packet
    dispatch none state packet = failed state (missing_handler packet)

    unfoldable pub find_route : Router → Option C → Option Route
    unfolding get_route
    find_route self (some target) = get_route target self.routes
    find_route self none = none

    unfoldable pub handle : Router → S → Packet api → Handled
    unfolding dispatch find_route
    handle self state packet = dispatch (find_route self (from_header packet.header)) state packet

-- ===== src/Tests/Bridge.antt =====
-- Runs of the bridge: its dispatch, its clients and its server.
use eloquence.Base.{
  ℕ, ◌≡◌, ◌≢◌, refl, true, List, [], ◌∷◌, some, arith, be32, if◌then◌else◌, ◌&&◌, ◌==◌,
}
use eloquence.Wire.Function
use eloquence.Wire.Function.{msg_handshake, msg_rpc_request, fn_id}
use eloquence.Handle.{htype_eci, hmap_get, hmap_init, hmap_add, claim}
use eloquence.Bridge.Client.{
  Client, CbState, new_client, get_cb_state, find_by_entry, alloc_cb_state, zero_cb_state,
}
use eloquence.Bridge.Client.Invariant.{IsValid, HasIds, new_client-IsValid}
use eloquence.Bridge.Client.Owner.{find_by_entry-hmap_get}
use eloquence.Wire.Header.{rpc_decode_request_header}
use eloquence.Wire.Decode.{check_remaining}
use eloquence.Wire.Function.{function_of_id}
use eloquence.Bridge.Dispatch.Lifecycle
use eloquence.Bridge.Dispatch.{dispatch_rpc, replied, switch, run_update, serve, handler}
use eloquence.Bridge.Dispatch.Invariant.{dispatch_rpc-IsValid}
use eloquence.Bridge.Dispatch.Request.{request_bytes}
use eloquence.Bridge.Dispatch.Lifecycle.{adopt, delete_step, new_step}
use eloquence.Bridge.Dispatch.Routes.{adopt_routes, delete_routes}
use eloquence.Bridge.Server.{Event, accepted, arrived, run, start}
use eloquence.Bridge.Server.Invariant.{ServerOk, run_start-ServerOk}
use eloquence.Tests.Sample.{small_engine, small_outside}

abbrev new_request : List ℕ
new_request = request_bytes 1 (fn_id Function.eci_new) []

abbrev fresh : Client
fresh = new_client 3 1

fresh-HasIds : HasIds fresh
unfolding new_client
fresh-HasIds = record { eci = omega arith; dict = omega arith; filter = omega arith }

-- The client after its first `eciNew`.
abbrev one_handle : Client
one_handle = (dispatch_rpc small_outside new_request fresh 0).1

one_handle-IsValid : IsValid one_handle
one_handle-IsValid =
    dispatch_rpc-IsValid small_outside new_request fresh 0 (new_client-IsValid 3 1) fresh-HasIds

dispatch_rpc-IsValid_example : IsValid (dispatch_rpc small_outside new_request fresh 0).1
dispatch_rpc-IsValid_example =
    dispatch_rpc-IsValid small_outside new_request fresh 0 (new_client-IsValid 3 1) fresh-HasIds

abbrev one_state : CbState
one_state = record zero_cb_state { eci_handle_id = 1; cb_fd = 4_294_967_295 }

one_state-found :
    find_by_entry one_handle.handles.eci.entries one_handle.cb_states 70_000 ≡ some one_state
unfolding dispatch_rpc replied switch rpc_decode_request_header check_remaining function_of_id serve
    handler run_update Lifecycle.new new_step adopt hmap_add claim new_client hmap_init
    find_by_entry get_cb_state alloc_cb_state
one_state-found = refl

find_by_entry-hmap_get_example : hmap_get one_handle.handles htype_eci 1 ≡ 70_000
find_by_entry-hmap_get_example =
    find_by_entry-hmap_get one_handle 70_000 one_state one_handle-IsValid (ground arith)
      one_state-found

adopted-ne_zero : (adopt small_engine 70_000 fresh 0).0.retval ≢ 0
unfolding adopt hmap_add claim new_client hmap_init
adopted-ne_zero = ground arith

adopt_routes_example : hmap_get (adopt small_engine 70_000 fresh 0).1.handles htype_eci 1 ≡ (
    if true && ((adopt small_engine 70_000 fresh 0).0.retval == 1)
    then 70_000
    else hmap_get fresh.handles htype_eci 1)
adopt_routes_example =
    adopt_routes small_engine 70_000 fresh 0 htype_eci 1 (new_client-IsValid 3 1) adopted-ne_zero

delete_routes_example :
    hmap_get (delete_step small_engine (λ p e. e) 1 one_handle 1).1.handles htype_eci 1
    ≡ (if true && (1 == 1) then 0 else hmap_get one_handle.handles htype_eci 1)
delete_routes_example =
    delete_routes small_engine (λ p e. e) 1 one_handle 1 htype_eci 1 one_handle-IsValid

-- Two clients connect, and the second one asks for an engine.
abbrev two_clients : List Event
two_clients =
    accepted (some (record { msg_type = msg_handshake; payload = be32 0 })) 3
    ∷ accepted (some (record { msg_type = msg_handshake; payload = be32 0 })) 4
    ∷ arrived 2 (some (record { msg_type = msg_rpc_request; payload = new_request })) true
    ∷ []

run_start-ServerOk_example : ServerOk 3 (run small_outside two_clients (start 0))
run_start-ServerOk_example = run_start-ServerOk small_outside two_clients 0 (omega arith)

-- ===== src/Tests/Lifetimes.antt =====
-- Connections from their first sight to their end, and their callbacks (Status.antt, Api.antt,
-- Runloop.antt).
use msgbox.Prelude.{ℕ, ◌≡◌, refl, List, [], ◌∷◌, ◌++◌, none, some, codes, arith}
use msgbox.Types.{
  Event, MsgData, msg_message, msg_error, msg_connection_lost, msg_listening_ended, address_of_conn,
  no_data, msg_udp,
}
use msgbox.State.{State, PendingCall, sys_close, set_conn, free_nothing, free_conn, initial_state}
use msgbox.State.Callbacks.{msg_new_data}
use msgbox.Status.{remote_address_seen, local_disconnect}
use msgbox.Status.Seen.{ready_call, remote_address_seen_once}
use msgbox.Status.Disconnect.{end_call, local_disconnect-closes, local_disconnect-keeps}
use msgbox.Api.{msg_unlisten}
use msgbox.Api.Closing.{msg_unlisten-closes_twice}
use msgbox.State.{fail, err_would_block}
use msgbox.Wire.{encode_header}
use msgbox.Receive.Piece.{arrived}
use msgbox.Runloop.Reading.{Reads, read_all-Reads}
use msgbox.Runloop.{read_all, Handler, run_callbacks, before_call}
use msgbox.Runloop.Deferred.{run_callbacks-defers}
use msgbox.Runloop.Errors.{before_call-stale}
use msgbox.Tests.Fixtures.{arrays_and_maps, system, connected, tcp_conn, peer, accepts}
use msgbox.Types.{Address, msg_tcp}
use msgbox.Address.{address_as_str}
use msgbox.Address.Key.{IsAddress}
use msgbox.State.{Answer, done}
use msgbox.Open.{msg_listen, msg_connect}
use msgbox.Open.Ends.{ListenEnd, ConnectEnd}
use msgbox.Open.Listening.{msg_listen-ListenEnd}
use msgbox.Open.Connecting.{msg_connect-ConnectEnd}

abbrev fresh : State
fresh = set_conn 0 tcp_conn (initial_state [])

remote_address_seen_once_example :
    let s' = (remote_address_seen 0 fresh).1 in
    (s'.immediate_callbacks ≡ ready_call 0 peer ∷ []) × (remote_address_seen 0 s' ≡ (0, s'))
remote_address_seen_once_example = remote_address_seen_once 0 fresh refl

local_disconnect-closes_example :
    let s' = local_disconnect 0 msg_connection_lost (connected []) in
    (s'.immediate_callbacks ≡ end_call 0 msg_connection_lost (free_conn 0) ∷ [])
    × (s'.removals ≡ 0 ∷ [])
    × (s'.calls ≡ sys_close 3 ∷ [])
    × (s'.conn_status peer ≡ none)
local_disconnect-closes_example = local_disconnect-closes 0 msg_connection_lost (connected []) refl

local_disconnect-keeps_example :
    let s' = local_disconnect 1 msg_connection_lost (connected []) in
    (s'.immediate_callbacks ≡ end_call 1 msg_connection_lost free_nothing ∷ [])
    × (s'.removals ≡ [])
    × (s'.calls ≡ [])
    × (s'.conn_status (address_of_conn ((connected []).conn_at 1)) ≡ none)
local_disconnect-keeps_example = local_disconnect-keeps 1 msg_connection_lost (connected []) refl

msg_unlisten-closes_twice_example :
    let s' = msg_unlisten (some 1) (connected (accepts 0 ∷ [])) in
    (s'.immediate_callbacks ≡ end_call 1 msg_listening_ended (free_conn 1) ∷ [])
    × (s'.calls ≡ sys_close 4 ∷ sys_close 4 ∷ [])
msg_unlisten-closes_twice_example =
    msg_unlisten-closes_twice 1 _ [] (connected (accepts 0 ∷ [])) refl refl

before_call-stale_example :
    let call : PendingCall = record {
      conn = 1;
      event = msg_error;
      payload = msg_new_data (codes "bind failed");
      to_free = free_nothing;
    } in
    address_of_conn ((before_call call (connected [])).1.conn_at 1)
    ≡ record { ip = 5; port = 6; protocol_type = msg_udp }
before_call-stale_example =
    before_call-stale 1 (codes "bind failed") free_nothing (connected []) refl

abbrev calling : ℕ → Event → PendingCall
calling p event = record { conn = p; event = event; payload = no_data; to_free = free_nothing }

-- A callback that schedules one more call for each message.
abbrev out : ℕ → Event → MsgData → List PendingCall
out p event d = elim event [ msg_message ↦ calling p msg_connection_lost ∷ [] | _ ↦ [] ]

abbrev user : Handler
user callback p event d s = record s {
  immediate_callbacks = s.immediate_callbacks ++ out p event d;
}

abbrev two_pending : State
two_pending = record (connected []) {
  immediate_callbacks = calling 0 msg_message ∷ calling 1 msg_error ∷ [];
}

run_callbacks-defers_example :
    (run_callbacks user two_pending).immediate_callbacks ≡ calling 0 msg_connection_lost ∷ []
run_callbacks-defers_example =
    run_callbacks-defers user out two_pending (λ callback p event d s. refl)

-- The header and the byte of a message, and then a call that would block.
abbrev waiting : State
waiting = connected (
    arrived (encode_header (record { message_type = 0; reply_id = 0; num_bytes = 1 }))
    ∷ arrived (encode_header (record { message_type = 0; reply_id = 0; num_bytes = 1 }))
    ∷ arrived (104 ∷ [])
    ∷ fail err_would_block
    ∷ [])

read_all-Reads_example : Reads 0 waiting (read_all 5 0 waiting)
read_all-Reads_example = read_all-Reads 0 waiting

abbrev remote : Address
remote = record { ip = 2130706433; port = 2345; protocol_type = msg_tcp }

abbrev remote_IsAddress : IsAddress remote
remote_IsAddress = record {
  ip_width = omega arith;
  port_width = omega arith;
  protocol_width = omega arith;
}

abbrev gives : ℕ → Answer
gives n = record { value = n; bytes = []; ip = 0; port = 0; revents = [] }

msg_listen-ListenEnd_example :
    ListenEnd remote 9 8 fresh
      (msg_listen (address_as_str remote) 9 (record fresh {
        script =
            done (gives 8)
            ∷ done (gives 0)
            ∷ done (gives 0)
            ∷ done (gives 0)
            ∷ done (gives 0)
            ∷ done (gives 0)
            ∷ [];
      }))
      (done (gives 0))
      (done (gives 0))
msg_listen-ListenEnd_example =
    msg_listen-ListenEnd remote 9 (gives 8) (gives 0) (gives 0) (gives 0) (done (gives 0))
      (done (gives 0)) [] fresh remote_IsAddress refl

msg_connect-ConnectEnd_example :
    ConnectEnd remote 7 9 8 fresh
      (msg_connect (address_as_str remote) 9 7 (record fresh {
        script =
            done (gives 8) ∷ done (gives 0) ∷ done (gives 0) ∷ done (gives 0) ∷ done (gives 0) ∷ [];
      }))
      (done (gives 0))
msg_connect-ConnectEnd_example =
    msg_connect-ConnectEnd remote 7 9 (gives 8) (gives 0) (gives 0) (gives 0) (done (gives 0)) []
      fresh remote_IsAddress refl refl

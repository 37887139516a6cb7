-- ===== src/State/Callbacks.antt =====
-- Scheduling of callbacks and allocation (msgbox/msgbox.c: send_callback, send_callback_error,
-- send_callback_os_error; msg_new_data).
use msgbox.Prelude.{ℕ, ◌+◌, List, [], ◌∷◌, ◌++◌, some, none, codes, length}
use msgbox.Cstructs.{Cstructs}
use msgbox.Types.{Event, msg_error, MsgData, unset, Conn}
use msgbox.Libc.{Libc, snprintf}
use msgbox.State.{State, ToFree, PendingCall, set_conn}

-- The text and its closing 0.
unfoldable pub msg_new_data : List ℕ → MsgData
msg_new_data str = record {
  num_bytes = length str + 1;
  buffer = some (record {
    reply_context = none;
    remote_address = none;
    header = unset;
    bytes = str ++ 0 ∷ [];
  });
}

-- malloc of a msg_Conn. An address is not given out twice: the memory of a conn that was freed is
-- never that of a new one.
unfoldable pub alloc_conn : Conn → State → ℕ × State
alloc_conn c s = (s.next_conn, set_conn s.next_conn c (record s { next_conn = s.next_conn + 1 }))

module _ ⦃cs : Cstructs⦄ where
  unfoldable pub send_callback : ℕ → Event → MsgData → ToFree → State → State
  send_callback conn event payload to_free s =
      let call : PendingCall = record {
        conn = conn;
        event = event;
        payload = payload;
        to_free = to_free;
      } in
      record s { immediate_callbacks = cs.add_item s.immediate_callbacks call }

  unfoldable pub send_callback_error : ℕ → List ℕ → ToFree → State → State
  unfolding send_callback msg_new_data
  send_callback_error conn msg to_free s = send_callback conn msg_error (msg_new_data msg) to_free s

  module _ ⦃os : Libc⦄ where
    unfoldable pub send_callback_os_error : ℕ → List ℕ → ToFree → State → State
    unfolding send_callback_error
    send_callback_os_error conn msg to_free s =
        send_callback_error conn (snprintf 1024 (msg ++ (codes ": " ++ os.strerror s.errno)))
          to_free s

-- ===== src/Api.antt =====
-- The calls on a connection (msgbox/msgbox.c: msg_unlisten, msg_disconnect, msg_send, msg_get).
pub mod Sending
pub mod Requests
pub mod Closing
pub mod Answers
pub mod Moves
use msgbox.Prelude.{
  ℕ, ◌+◌, ◌%◌, Bool, true, false, List, [], ◌++◌, Option, none, some, ◌==◌, not, if◌then◌else◌,
  codes,
}
use msgbox.Cstructs.{Cstructs}
use msgbox.Types.{
  Conn, address_of_conn, MsgData, new_data_space, msg_connection_closed, msg_listening_ended,
  msg_type_one_way, msg_type_request, msg_type_reply, msg_type_close,
}
use msgbox.Libc.{Libc, snprintf}
use msgbox.Wire.{set_header}
use msgbox.Address.{address_as_str}
use msgbox.State.{
  State, ConnStatus, free_nothing, Answer, Response, done, fail, syscall, sys_close, set_conn,
  set_status, err_bad_sock,
}
use msgbox.State.Callbacks.{send_callback_error, send_callback_os_error}
use msgbox.Status.{status_of_conn, local_disconnect, reply_key}
use msgbox.Timeouts.{add_timeout}
use msgbox.Send.{send_data}

-- uint32_t of a size_t.
abbrev pub to_uint32 : ℕ → ℕ
to_uint32 n = n % 4294967296

module _ ⦃cs : Cstructs⦄ ⦃os : Libc⦄ where
  report_failed : ℕ → Option (List ℕ) × State → State
  unfolding send_callback_os_error
  report_failed p (none, s) = s
  report_failed p (some name, s) = send_callback_os_error p name free_nothing s

  listening_closed : ℕ → Response × State → State
  unfolding send_callback_os_error local_disconnect
  listening_closed p (done a, s) = local_disconnect p msg_listening_ended s
  listening_closed p (fail e, s) =
      let s1 = send_callback_os_error p (codes "close") free_nothing s in
      if e == err_bad_sock then s1 else local_disconnect p msg_listening_ended s1

  -- `none` is a NULL connection, for which a line is printed.
  unfoldable pub msg_unlisten : Option ℕ → State → State
  unfolding listening_closed syscall send_callback_error
  msg_unlisten none s = s
  msg_unlisten (some p) s =
      let c = s.conn_at p in
      if not c.for_listening
      then send_callback_error p (codes "msg_unlisten called on non-listening connection")
          free_nothing s
      else listening_closed p
          (syscall (sys_close c.socket) (set_conn p (record c { for_listening = false }) s))

  unfoldable pub msg_disconnect : ℕ → State → State
  unfolding report_failed
  msg_disconnect p s =
      let d = set_header (new_data_space 0) msg_type_close 0 0 in
      local_disconnect p msg_connection_closed (report_failed p (send_data p d s))

  unfoldable pub msg_send : ℕ → MsgData → State → State
  unfolding report_failed
  msg_send p d s =
      let c = s.conn_at p in
      let msg_type = if c.reply_id == 0 then msg_type_one_way else msg_type_reply in
      report_failed p (send_data p (set_header d msg_type c.reply_id (to_uint32 d.num_bytes)) s)

  request_sent : ℕ → ℕ → ℕ → Option (List ℕ) × State → State
  unfolding send_callback_os_error add_timeout
  request_sent p st reply_id (some name, s) = send_callback_os_error p name free_nothing s
  request_sent p st reply_id (none, s) = add_timeout p st reply_id s

  -- next_reply_id is a uint16_t.
  abbrev pub take_reply_id : ℕ → ConnStatus → ConnStatus
  take_reply_id reply_context status = record status {
    next_reply_id = (status.next_reply_id + 1) % 65536;
    reply_contexts = cs.map_set reply_key status.reply_contexts status.next_reply_id reply_context;
  }

  get_known : ℕ → MsgData → ℕ → ℕ → State → State
  unfolding request_sent
  get_known p d reply_context st s =
      let reply_id = (s.status_at st).next_reply_id in
      request_sent p st reply_id (
        send_data p (set_header d msg_type_request reply_id (to_uint32 d.num_bytes))
          (set_status st (take_reply_id reply_context (s.status_at st)) s))

  unfoldable pub msg_get : ℕ → MsgData → ℕ → State → State
  unfolding get_known send_callback_error
  msg_get p d reply_context s = elim (status_of_conn p s) [
    | none ↦
        send_callback_error p
          (snprintf 1024
            (codes "No known connection with " ++ address_as_str (address_of_conn (s.conn_at p))))
          free_nothing s
    | some st ↦ get_known p d reply_context st s
  ]

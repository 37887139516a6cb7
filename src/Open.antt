-- ===== src/Open.antt =====
-- Opening sockets (msgbox/msgbox.c: setup_sockaddr, open_socket, msg_listen, msg_connect).
pub mod Moves
pub mod Made
pub mod Called
pub mod Ends
pub mod Listening
pub mod Connecting
use msgbox.Prelude.{
  ℕ, ◌-◌, Bool, true, false, List, Option, none, some, ◌==◌, ◌&&◌, ◌||◌, not, if◌then◌else◌, codes,
  length,
}
use msgbox.Cstructs.{Cstructs}
use msgbox.Types.{Conn, new_connection, no_context, no_data, msg_listening, msg_tcp}
use msgbox.Libc.{Libc}
use msgbox.Address.Parse.{parse_address_str}
use msgbox.State.{
  State, free_nothing, free_conn, Response, done, fail, Call, syscall, sys_socket, sys_setsockopt,
  sys_bind, sys_connect, sys_listen, set_conn, err_in_progress, err_would_block,
}
use msgbox.State.Callbacks.{send_callback, send_callback_error, send_callback_os_error, alloc_conn}
use msgbox.Poll.{add_to_poll_fds, remove_last_polling_conn, set_conn_to_poll_mode, mode_write}
use msgbox.Status.{remote_address_seen}
use msgbox.Receive.{make_non_blocking}

module _ ⦃cs : Cstructs⦄ ⦃os : Libc⦄ where
  socket_made : ℕ → Response × State → Bool × State
  unfolding add_to_poll_fds send_callback_os_error
  socket_made p (fail e, s) = (false, send_callback_os_error p (codes "socket") (free_conn p) s)
  socket_made p (done a, s) =
      let c = record (s.conn_at p) { socket = a.value; index = length s.conns } in
      let s1 = set_conn p c s in
      (true, add_to_poll_fds a.value (record s1 { conns = cs.add_item s1.conns p }))

  address_parsed : ℕ → Option (List ℕ) × Conn → State → Bool × State
  unfolding socket_made syscall send_callback_error
  address_parsed p (some msg, c) s =
      (false, send_callback_error p msg (free_conn p) (set_conn p c s))
  address_parsed p (none, c) s =
      socket_made p (syscall (sys_socket c.protocol_type) (set_conn p c s))

  -- The sockaddr is read off the conn where it is used.
  unfoldable pub setup_sockaddr : List ℕ → ℕ → State → Bool × State
  unfolding address_parsed
  setup_sockaddr address p s = address_parsed p (parse_address_str address (s.conn_at p)) s

  -- An error after the socket is made: the last conn is dropped from the arrays.
  unfoldable pub open_failed : ℕ → List ℕ → State → State
  unfolding remove_last_polling_conn send_callback_os_error
  open_failed p name s = remove_last_polling_conn (send_callback_os_error p name (free_conn p) s)

  pub listened : ℕ → Response × State → State
  unfolding open_failed send_callback
  listened p (fail e, s) = open_failed p (codes "listen") s
  listened p (done a, s) = send_callback p msg_listening no_data free_nothing s

  address_opened : ℕ → Response × State → State
  unfolding listened set_conn_to_poll_mode syscall remote_address_seen
  address_opened p (fail e, s) =
      let c = s.conn_at p in
      let in_progress = e == err_in_progress || e == err_would_block in
      if not c.for_listening && (c.protocol_type == msg_tcp && in_progress)
      then set_conn_to_poll_mode (length s.conns - 1) mode_write s
      else open_failed p (if c.for_listening then codes "bind" else codes "connect") s
  address_opened p (done a, s) =
      let c = s.conn_at p in
      if c.for_listening
      then (if c.protocol_type == msg_tcp
          then listened p (syscall (sys_listen c.socket) s)
          else send_callback p msg_listening no_data free_nothing s)
      else (remote_address_seen p s).1

  -- bind or connect.
  pub open_address : ℕ → State → State
  unfolding address_opened
  open_address p s =
      let c = s.conn_at p in
      let call : Call =
        if c.for_listening
        then sys_bind c.socket c.remote_ip c.remote_port
        else sys_connect c.socket c.remote_ip c.remote_port in
      address_opened p (syscall call s)

  -- SO_REUSEADDR on tcp; its result is not looked at.
  reuse_address : ℕ → State → State
  unfolding syscall
  reuse_address p s =
      let c = s.conn_at p in
      if c.protocol_type == msg_tcp then (syscall (sys_setsockopt c.socket) s).1 else s

  pub non_blocking_made : ℕ → Option (List ℕ) × State → State
  unfolding open_failed reuse_address open_address
  non_blocking_made p (some failing_fn, s) = open_failed p failing_fn s
  non_blocking_made p (none, s) = open_address p (reuse_address p s)

  sockaddr_set : ℕ → Bool × State → State
  unfolding non_blocking_made make_non_blocking
  sockaddr_set p (false, s) = s
  sockaddr_set p (true, s) = non_blocking_made p (make_non_blocking (s.conn_at p).socket s)

  conn_allocated : List ℕ → ℕ × State → State
  unfolding sockaddr_set setup_sockaddr
  conn_allocated address (p, s) = sockaddr_set p (setup_sockaddr address p s)

  unfoldable pub open_socket : List ℕ → ℕ → ℕ → Bool → State → State
  unfolding conn_allocated alloc_conn
  open_socket address conn_context callback for_listening s = conn_allocated address (
      alloc_conn (record (new_connection conn_context callback) { for_listening = for_listening })
        s)

  unfoldable pub msg_listen : List ℕ → ℕ → State → State
  unfolding open_socket
  msg_listen address callback s = open_socket address no_context callback true s

  unfoldable pub msg_connect : List ℕ → ℕ → ℕ → State → State
  unfolding open_socket
  msg_connect address callback conn_context s = open_socket address conn_context callback false s

-- ===== src/Receive.antt =====
-- Reading from a socket (msgbox/msgbox.c: make_non_blocking, avoid_sigpipe, read_header,
-- continue_recv, read_from_socket; the linux versions).
pub mod Piece
pub mod Reassembly
pub mod Heading
pub mod Begin
pub mod Body
pub mod Progress
pub mod Accept
pub mod Moves
pub mod Replies
pub mod Peek
pub mod Datagram
use msgbox.Prelude.{
  ℕ, zero, suc, ◌+◌, ◌-◌, Bool, true, false, List, [], ◌∷◌, ◌++◌, Option, none, some, ◌==◌, ltb,
  ◌||◌, ◌&&◌, if◌then◌else◌, codes, length, take, drop, upd,
}
use msgbox.Cstructs.{Cstructs}
use msgbox.Types.{
  Address, Conn, address_of_conn, new_connection, Event, msg_message, msg_request, msg_reply,
  msg_connection_closed, msg_connection_lost, Header, header_len, HeaderSlot, unset, wire, host,
  Buffer, MsgData, no_data, msg_tcp, msg_udp, msg_type_one_way, msg_type_request, msg_type_reply,
  msg_type_close,
}
use msgbox.Libc.{Libc}
use msgbox.Wire.{decode_header}
use msgbox.State.{
  State, ConnStatus, ToFree, free_nothing, free_bytes, Answer, Response, done, fail, Call, syscall,
  sys_recv, sys_peek, sys_recvfrom, sys_accept, sys_fcntl, set_conn, set_status, err_would_block,
  err_conn_reset,
}
use msgbox.State.Callbacks.{send_callback, send_callback_error, send_callback_os_error, alloc_conn}
use msgbox.Poll.{add_to_poll_fds}
use msgbox.Status.{
  remote_address_seen, local_disconnect, new_conn_status_buffer, delete_conn_status_buffer,
}
use msgbox.Timeouts.{remove_timeout, unset_context}

abbrev pub flags_set : Response × State → Option (List ℕ) × State
flags_set (fail e, s) = (some (codes "fcntl"), s)
flags_set (done a, s) = (none, s)

abbrev pub set_flags : ℕ → Response × State → Option (List ℕ) × State
set_flags sock (fail e, s) = (some (codes "fcntl"), s)
set_flags sock (done a, s) = flags_set (syscall (sys_fcntl sock) s)

-- The name of the failing call, `none` for success.
unfoldable pub make_non_blocking : ℕ → State → Option (List ℕ) × State
unfolding syscall
make_non_blocking sock s = set_flags sock (syscall (sys_fcntl sock) s)

-- The linux version has nothing to do and returns 0.
abbrev pub avoid_sigpipe : ℕ → ℕ
avoid_sigpipe sock = 0

-- The results 1, 0, -1 and -2 of continue_recv.
pub data RecvResult : Type 0 where
  complete pending failed interrupted : RecvResult

-- A recv into memory that holds something.
abbrev pub overwrite : List ℕ → List ℕ → List ℕ
overwrite new old = new ++ drop (length new) old

-- The second recv of read_header takes the bytes that the first one only looked at.
abbrev consumed : List ℕ → Response × State → List ℕ × State
consumed peeked (fail e, s) = (peeked, s)
consumed peeked (done a, s) = (overwrite (take header_len a.bytes) peeked, s)

abbrev consume_header : Conn → List ℕ → State → List ℕ × State
consume_header c peeked s =
    if c.protocol_type == msg_tcp
    then consumed peeked (syscall (sys_recv c.socket header_len) s)
    else (peeked, s)

abbrev pub append_bytes : List ℕ → Buffer → Buffer
append_bytes bytes b = record b { bytes = b.bytes ++ bytes }

abbrev pub map_buffer : (Buffer → Buffer) → MsgData → MsgData
map_buffer f d = record d { buffer = elim d.buffer [ none ↦ none | some b ↦ some (f b) ] }

-- The status after a recv of these bytes into waiting_buffer.
abbrev pub receive_bytes : List ℕ → ConnStatus → ConnStatus
receive_bytes bytes status = record status {
  total_buffer = map_buffer (append_bytes bytes) status.total_buffer;
  waiting_num_bytes = status.waiting_num_bytes - length bytes;
}

-- The header that new_conn_status_buffer has put before the payload.
abbrev pub held_header : MsgData → Header
held_header d = elim d.buffer [
  | none ↦ decode_header []
  | some b ↦ elim b.header [ unset ↦ decode_header [] | wire bs ↦ decode_header bs | host h ↦ h ]
]

module _ ⦃cs : Cstructs⦄ ⦃os : Libc⦄ where
  finish_header : ℕ → List ℕ × State → Option Header × State
  finish_header p (bytes, s) =
      let h = decode_header bytes in
      (some h, set_conn p (record (s.conn_at p) { reply_id = h.reply_id }) s)

  -- The branches after the first recv; `none` is the result false.
  header_peeked : ℕ → Response × State → Option Header × State
  unfolding finish_header
  header_peeked p (done a, s) =
      let bytes = take header_len a.bytes in
      if ltb 0 (length bytes) && ltb (length bytes) header_len
      then (none, s)
      else if length bytes == 0
      then (none, local_disconnect p msg_connection_lost s)
      else finish_header p (consume_header (s.conn_at p) bytes s)
  header_peeked p (fail e, s) =
      if e == err_conn_reset
      then (none, local_disconnect p msg_connection_lost s)
      else if e == err_would_block
      then (none, s)
      else (none, send_callback_os_error p (codes "recv") free_nothing s)

  unfoldable pub read_header : ℕ → State → Option Header × State
  unfolding header_peeked
  read_header p s = header_peeked p (syscall (sys_peek (s.conn_at p).socket header_len) s)

  -- The bytes of a recv into waiting_buffer; none is the end of the stream.
  unfoldable pub bytes_received : ℕ → ℕ → List ℕ → State → RecvResult × State
  bytes_received p st bytes s =
      if length bytes == 0 then (interrupted, local_disconnect p msg_connection_lost s) else (
        if (s.status_at st).waiting_num_bytes - length bytes == 0 then complete else pending,
        set_status st (receive_bytes bytes (s.status_at st)) s,
      )

  body_received : ℕ → ℕ → Response × State → RecvResult × State
  body_received p st (done a, s) =
      bytes_received p st (take (s.status_at st).waiting_num_bytes a.bytes) s
  body_received p st (fail e, s) =
      if e == err_conn_reset
      then (interrupted, local_disconnect p msg_connection_lost s)
      else (if e == err_would_block then pending else failed, s)

  unfoldable pub continue_recv : ℕ → ℕ → State → RecvResult × State
  unfolding body_received
  continue_recv p st s =
      body_received p st
        (syscall (sys_recv (s.conn_at p).socket (s.status_at st).waiting_num_bytes) s)

  -- The event of a message type, and what `event` holds where no case assigns it.
  unfoldable pub event_of : ℕ → Event
  event_of t =
      if t == msg_type_one_way
      then msg_message
      else if t == msg_type_request
      then msg_request
      else if t == msg_type_reply
      then msg_reply
      else os.stale_event

  abbrev pub with_context : ℕ → Buffer → Buffer
  with_context context b = record b { reply_context = some context }

  -- The metadata of a udp message gets the context too.
  abbrev pub reply_data : Conn → ℕ → MsgData → MsgData
  reply_data c context d =
      if c.protocol_type == msg_udp then map_buffer (with_context context) d else d

  -- A reply whose id is known.
  unfoldable pub reply_found : ℕ → Event → MsgData → ℕ → ℕ → ℕ → State → State
  unfolding remove_timeout send_callback
  reply_found p event d st reply_id context s =
      let s1 = remove_timeout st reply_id s in
      let s2 = set_status st (unset_context reply_id (s1.status_at st)) s1 in
      let c = s2.conn_at p in
      send_callback p event (reply_data c context d) free_nothing
        (set_conn p (record c { reply_context = context; reply_id = 0 }) s2)

  -- The end of read_from_socket, from the look-up of the reply context on. The Boolean is the
  -- result of read_from_socket: whether it may be called again at once.
  unfoldable pub deliver : ℕ → Event → MsgData → ℕ → Header → State → Bool × State
  unfolding reply_found
  deliver p event d st h s =
      if h.message_type == msg_type_reply
      then (elim ((s.status_at st).reply_contexts h.reply_id) [
        | none ↦ (false, send_callback_error p (codes "Unrecognized reply_id") (free_bytes d) s)
        | some context ↦ (true, reply_found p event d st h.reply_id context s)
      ])
      else (
        true,
        send_callback p event d free_nothing
            (set_conn p (record (s.conn_at p) { reply_context = 0 }) s),
      )

  -- The switch on the message type; `none` is the return of the close case.
  unfoldable pub switch_type : ℕ → Header → State → Option Event × State
  unfolding event_of
  switch_type p h s =
      if h.message_type == msg_type_one_way
      then (some msg_message, set_conn p (record (s.conn_at p) { reply_id = 0 }) s)
      else if h.message_type == msg_type_close
      then (none, local_disconnect p msg_connection_closed s)
      else (some (event_of h.message_type), s)

  unfoldable pub tcp_switched : ℕ → MsgData → ℕ → Header → Option Event × State → Bool × State
  tcp_switched p d st h (none, s) = (false, s)
  tcp_switched p d st h (some event, s) = deliver p event d st h s

  body_read : ℕ → ℕ → Header → RecvResult × State → Bool × State
  unfolding tcp_switched delete_conn_status_buffer
  body_read p st h (interrupted, s) = (false, s)
  body_read p st h (failed, s) =
      (false, delete_conn_status_buffer st (send_callback_os_error p (codes "recv") free_nothing s))
  body_read p st h (pending, s) = (false, s)
  body_read p st h (complete, s) =
      let d = (s.status_at st).total_buffer in
      tcp_switched p d st h (switch_type p h (delete_conn_status_buffer st s))

  unfoldable pub read_body : ℕ → ℕ → Header → State → Bool × State
  unfolding body_read
  read_body p st h s = body_read p st h (continue_recv p st s)

  tcp_header_read : ℕ → ℕ → Option Header × State → Bool × State
  unfolding read_body new_conn_status_buffer
  tcp_header_read p st (none, s) = (false, s)
  tcp_header_read p st (some h, s) =
      if h.message_type == msg_type_close
      then (false, local_disconnect p msg_connection_closed s)
      else read_body p st h (new_conn_status_buffer st h s)

  -- Begin a new recv, or continue the one whose buffer waits.
  tcp_seen : ℕ → ℕ × State → Bool × State
  unfolding tcp_header_read
  tcp_seen p (st, s) =
      if (s.status_at st).waiting_num_bytes == 0
      then tcp_header_read p st (read_header p s)
      else read_body p st (held_header (s.status_at st).total_buffer) s

  unfoldable pub read_tcp : ℕ → State → Bool × State
  unfolding tcp_seen
  read_tcp p s = tcp_seen p (remote_address_seen p s)

  -- The rest of accept's branch, on a new conn.
  add_accepted : ℕ → ℕ × State → State
  add_accepted new_sock (q, s) =
      (remote_address_seen q
        (add_to_poll_fds new_sock (record s { conns = cs.add_item s.conns q }))).1

  made_non_blocking : ℕ → Answer → Option (List ℕ) × State → State
  unfolding add_accepted alloc_conn add_to_poll_fds
  made_non_blocking p a (some failing_fn, s) = send_callback_os_error p failing_fn free_nothing s
  made_non_blocking p a (none, s) =
      let c = s.conn_at p in
      let new_conn : Conn = record (new_connection c.conn_context c.callback) {
        socket = a.value;
        remote_ip = a.ip;
        remote_port = a.port;
        protocol_type = c.protocol_type;
        index = length s.conns;
      } in
      add_accepted a.value (alloc_conn new_conn s)

  accepted : ℕ → Response × State → State
  unfolding made_non_blocking
  accepted p (fail e, s) =
      if e == err_would_block then s else send_callback_os_error p (codes "accept") free_nothing s
  accepted p (done a, s) =
      if avoid_sigpipe a.value == 0
      then made_non_blocking p a (make_non_blocking a.value s)
      else send_callback_os_error p (codes "setsockopt") free_nothing s

  -- A listening tcp socket has a new incoming connection.
  unfoldable pub accept_connection : ℕ → State → State
  unfolding accepted
  accept_connection p s = accepted p (syscall (sys_accept (s.conn_at p).socket) s)

  -- The data of a udp message. Of a datagram shorter than the header says, the rest of the payload
  -- stays unwritten.
  abbrev pub udp_data : Header → List ℕ → Address → MsgData
  udp_data h bytes a = record {
    num_bytes = h.num_bytes;
    buffer = some (record {
      reply_context = some 0;
      remote_address = some a;
      header = wire (take header_len bytes);
      bytes = drop header_len bytes;
    });
  }

  -- With the sender's address in the conn.
  udp_seen : ℕ → Event → Header → List ℕ → ℕ × State → Bool × State
  udp_seen p event h bytes (st, s) =
      deliver p event (udp_data h bytes (address_of_conn (s.conn_at p))) st h s

  udp_received : ℕ → Event → Header → Response × State → Bool × State
  unfolding udp_seen
  udp_received p event h (fail e, s) =
      (false, send_callback_os_error p (codes "recvfrom") free_nothing s)
  udp_received p event h (done a, s) =
      udp_seen p event h (take (h.num_bytes + header_len) a.bytes) (
        remote_address_seen p
          (set_conn p (record (s.conn_at p) { remote_ip = a.ip; remote_port = a.port }) s))

  udp_switched : ℕ → Header → Option Event × State → Bool × State
  unfolding udp_received
  udp_switched p h (none, s) = (false, s)
  udp_switched p h (some event, s) =
      udp_received p event h
        (syscall (sys_recvfrom (s.conn_at p).socket (h.num_bytes + header_len)) s)

  pub udp_header_read : ℕ → Option Header × State → Bool × State
  unfolding udp_switched
  udp_header_read p (none, s) = (false, s)
  udp_header_read p (some h, s) = udp_switched p h (switch_type p h s)

  unfoldable pub read_udp : ℕ → State → Bool × State
  unfolding udp_header_read
  read_udp p s = udp_header_read p (read_header p s)

  unfoldable pub read_from_socket : ℕ → State → Bool × State
  read_from_socket p s =
      let c = s.conn_at p in
      if c.protocol_type == msg_tcp
      then if c.for_listening then (false, accept_connection p s) else read_tcp p s
      else read_udp p s

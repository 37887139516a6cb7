-- ===== src/Status.antt =====
-- The connection status map and the end of a connection (msgbox/msgbox.c: new_conn_status,
-- new_conn_status_buffer, delete_conn_status_buffer, delete_conn_status, status_of_conn,
-- remote_address_seen, local_disconnect).
pub mod Seen
pub mod Disconnect
use msgbox.Prelude.{
  ℕ, ◌+◌, ◌%◌, Bool, true, false, List, [], Option, none, some, ◌==◌, ◌&&◌, if◌then◌else◌,
}
use msgbox.Cstructs.{Cstructs, MapKey}
use msgbox.Types.{
  Address, Conn, address_of_conn, Event, msg_connection_ready, Header, HeaderSlot, unset, wire,
  host, Buffer, MsgData, no_data, new_data_space, msg_udp,
}
use msgbox.Address.{address_key}
use msgbox.State.{
  State, ConnStatus, ToFree, free_nothing, free_conn, set_status, syscall, sys_close,
}
use msgbox.State.Callbacks.{send_callback}

-- reply_id_hash and reply_id_eq. The hash is an int, as its 32-bit pattern.
abbrev pub reply_key : MapKey ℕ
reply_key = record { hash = λ k. k % 4294967296; eq = λ k j. k % 65536 == j % 65536 }

abbrev no_contexts : ℕ → Option ℕ
no_contexts k = none

-- calloc, then the fields that are set.
unfoldable pub new_conn_status : ℕ → Address → ConnStatus
new_conn_status now address = record {
  last_seen_at = now;
  reply_contexts = no_contexts;
  contexts_freed = false;
  conn_context = 0;
  next_reply_id = 1;
  remote_address = address;
  total_buffer = no_data;
  waiting_num_bytes = 0;
}

abbrev pub hold_header : Header → Buffer → Buffer
hold_header h b = record b { header = host h }

-- The buffer for a message, with its header in host order before the payload.
abbrev pub message_buffer : Header → MsgData
message_buffer h = record {
  num_bytes = h.num_bytes;
  buffer =
      some (record { reply_context = none; remote_address = none; header = host h; bytes = [] });
}

unfoldable pub new_conn_status_buffer : ℕ → Header → State → State
new_conn_status_buffer st h s =
    set_status st
      (record (s.status_at st) { total_buffer = message_buffer h; waiting_num_bytes = h.num_bytes })
      s

-- Also the two assignments that read_from_socket makes when a message is complete.
unfoldable pub delete_conn_status_buffer : ℕ → State → State
delete_conn_status_buffer st s =
    set_status st (record (s.status_at st) { total_buffer = no_data; waiting_num_bytes = 0 }) s

-- The value releaser of conn_status: the map of contexts is freed, the object is not.
unfoldable pub delete_conn_status : ℕ → State → State
delete_conn_status st s = set_status st (record (s.status_at st) { contexts_freed = true }) s

unfoldable pub status_of_conn : ℕ → State → Option ℕ
status_of_conn p s = s.conn_status (address_of_conn (s.conn_at p))

-- The data of a msg_connection_ready callback: an empty payload and the address.
abbrev pub ready_data : Address → MsgData
ready_data a = record {
  num_bytes = 0;
  buffer =
      some (record { reply_context = none; remote_address = some a; header = unset; bytes = [] });
}

-- A listening udp conn lives until an unlisten call.
abbrev pub is_listening_udp : Conn → Bool
is_listening_udp c = c.for_listening && c.protocol_type == msg_udp

module _ ⦃cs : Cstructs⦄ where
  -- malloc of a ConnStatus, and its entry in the map.
  unfoldable pub add_status : ConnStatus → Address → State → State
  add_status status a s = record s {
    status_at = msgbox.Prelude.upd s.status_at s.next_status status;
    next_status = s.next_status + 1;
    conn_status = cs.map_set address_key s.conn_status a s.next_status;
  }

  -- A new remote address gets a status and a msg_connection_ready callback.
  unfoldable pub first_seen : ℕ → State → State
  unfolding new_conn_status add_status send_callback
  first_seen p s =
      let a = address_of_conn (s.conn_at p) in
      let status : ConnStatus = record (new_conn_status 0 a) {
        conn_context = (s.conn_at p).conn_context;
      } in
      send_callback p msg_connection_ready (ready_data a) free_nothing (add_status status a s)

  unfoldable pub remote_address_seen : ℕ → State → ℕ × State
  unfolding status_of_conn first_seen
  remote_address_seen p s = elim (status_of_conn p s) [
    | some st ↦ (st, s)
    | none ↦ (s.next_status, first_seen p s)
  ]

  -- map__unset on conn_status, whose value releaser runs on the status.
  unfoldable pub unset_status : Address → State → State
  unfolding delete_conn_status
  unset_status a s = elim (s.conn_status a) [
    | none ↦ s
    | some st ↦
        delete_conn_status st (record s { conn_status = cs.map_unset address_key s.conn_status a })
  ]

  unfoldable pub close_and_remove : ℕ → State → State
  close_and_remove p s =
      let (_, s1) = syscall (sys_close (s.conn_at p).socket) s in
      record s1 { removals = cs.add_item s1.removals (s1.conn_at p).index }

  -- From the computation of is_listening_udp on.
  unfoldable pub end_conn : Bool → ℕ → Event → State → State
  end_conn is_listening p event s =
      let to_free : ToFree = if is_listening then free_nothing else free_conn p in
      let s1 = send_callback p event no_data to_free s in
      if is_listening then s1 else close_and_remove p s1

  unfoldable pub local_disconnect : ℕ → Event → State → State
  local_disconnect p event s =
      let c = s.conn_at p in
      end_conn (is_listening_udp c) p event (unset_status (address_of_conn c) s)

-- ===== src/Types.antt =====
-- The data of msgbox/msgbox.h and of the head of msgbox/msgbox.c: events, addresses, headers,
-- message buffers and connections. Pointers to user contexts, callbacks and memory are numbers,
-- with 0 for NULL.
use msgbox.Prelude.{ℕ, Bool, false, List, [], Option, none, some}

abbrev pub no_context : ℕ
no_context = 0

-- SOCK_STREAM and SOCK_DGRAM.
abbrev pub msg_tcp : ℕ
msg_tcp = 1

abbrev pub msg_udp : ℕ
msg_udp = 2

pub data Event : Type 0 where
  msg_message msg_request msg_reply msg_listening msg_listening_ended : Event
  msg_connection_ready msg_connection_closed msg_connection_lost msg_error : Event

abbrev pub msg_type_one_way : ℕ
msg_type_one_way = 0

abbrev pub msg_type_request : ℕ
msg_type_request = 1

abbrev pub msg_type_reply : ℕ
msg_type_reply = 2

abbrev pub msg_type_heartbeat : ℕ
msg_type_heartbeat = 3

abbrev pub msg_type_close : ℕ
msg_type_close = 4

pub record Header : Type 0 where
  pub message_type : ℕ
  pub reply_id : ℕ
  pub num_bytes : ℕ

abbrev pub header_len : ℕ
header_len = 8

pub record Address : Type 0 where
  pub ip : ℕ
  pub port : ℕ
  pub protocol_type : ℕ

-- The eight bytes before the payload: not written, as sent (network order), or as
-- new_conn_status_buffer leaves them (host order).
pub data HeaderSlot : Type 0 where
  unset : HeaderSlot
  wire : List ℕ → HeaderSlot
  host : Header → HeaderSlot

-- What a msg_Data points into: the metadata preamble and the payload. `none` in the preamble is
-- memory that nothing has written since malloc; `bytes` is the part of the payload written so far.
pub record Buffer : Type 0 where
  pub reply_context : Option ℕ
  pub remote_address : Option Address
  pub header : HeaderSlot
  pub bytes : List ℕ

-- `none` is the NULL pointer.
pub record MsgData : Type 0 where
  pub num_bytes : ℕ
  pub buffer : Option Buffer

abbrev pub no_data : MsgData
no_data = record { num_bytes = 0; buffer = none }

pub record Conn : Type 0 where
  pub conn_context : ℕ
  pub reply_context : ℕ
  pub callback : ℕ
  pub remote_ip : ℕ
  pub remote_port : ℕ
  pub protocol_type : ℕ
  pub socket : ℕ
  pub for_listening : Bool
  pub reply_id : ℕ
  pub index : ℕ

-- The memset of new_connection.
abbrev pub new_connection : ℕ → ℕ → Conn
new_connection conn_context callback = record {
  conn_context = conn_context;
  reply_context = 0;
  callback = callback;
  remote_ip = 0;
  remote_port = 0;
  protocol_type = 0;
  socket = 0;
  for_listening = false;
  reply_id = 0;
  index = 0;
}

-- address_of_conn reads the three fields of the conn that lie as an Address in memory.
abbrev pub address_of_conn : Conn → Address
address_of_conn c = record {
  ip = c.remote_ip;
  port = c.remote_port;
  protocol_type = c.protocol_type;
}

-- A write through that pointer.
abbrev pub set_address : Conn → Address → Conn
set_address c a = record c {
  remote_ip = a.ip;
  remote_port = a.port;
  protocol_type = a.protocol_type;
}

-- msg_new_data_space: nothing of the block is written.
abbrev pub new_data_space : ℕ → MsgData
new_data_space n = record {
  num_bytes = n;
  buffer =
      some (record { reply_context = none; remote_address = none; header = unset; bytes = [] });
}

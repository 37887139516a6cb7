-- ===== src/State.antt =====
-- The state of the library (the static variables of msgbox/msgbox.c and the objects that they
-- point to) and the system calls.
--
-- Objects are reached through pointers, which are numbers: `conn_at` and `status_at` are the
-- memories of msg_Conn and ConnStatus objects, filled in the order of allocation.
--
-- The operating system is the list `script` of the answers that it will give, one for each system
-- call; a call past its end fails with EIO. `calls` is the history of the calls, newest first, and
-- `stream` is, for each socket, what the system has accepted to send.
pub mod Callbacks
pub mod Frame
use msgbox.Prelude.{ℕ, ◌+◌, Bool, true, false, List, [], ◌∷◌, Option, none, some, upd}
use msgbox.Types.{Address, Conn, new_connection, Event, MsgData, no_data}

-- poll's event masks.
abbrev pub pollin : ℕ
pollin = 1

abbrev pub pollout : ℕ
pollout = 4

abbrev pub pollerr : ℕ
pollerr = 8

abbrev pub pollhup : ℕ
pollhup = 16

abbrev pub pollnval : ℕ
pollnval = 32

pub record PollFd : Type 0 where
  pub fd : ℕ
  pub events : ℕ
  pub revents : ℕ

-- `contexts_freed` says that map__delete has been called on reply_contexts. waiting_buffer is the
-- suffix of total_buffer that is still to be written, so its length determines it.
pub record ConnStatus : Type 0 where
  pub last_seen_at : ℕ
  pub reply_contexts : ℕ → Option ℕ
  pub contexts_freed : Bool
  pub conn_context : ℕ
  pub next_reply_id : ℕ
  pub remote_address : Address
  pub total_buffer : MsgData
  pub waiting_num_bytes : ℕ

-- What make_call frees when the callback has returned, besides the data.
pub data ToFree : Type 0 where
  free_nothing : ToFree
  free_conn : ℕ → ToFree
  free_bytes : MsgData → ToFree

pub record PendingCall : Type 0 where
  pub conn : ℕ
  pub event : Event
  pub payload : MsgData
  pub to_free : ToFree

-- `at` is in microseconds; the source keeps seconds in a double.
pub record Timeout : Type 0 where
  pub at : ℕ
  pub conn : ℕ
  pub status : ℕ
  pub reply_id : ℕ

-- What a successful call returns: its value, bytes received, the peer, and the masks of poll.
pub record Answer : Type 0 where
  pub value : ℕ
  pub bytes : List ℕ
  pub ip : ℕ
  pub port : ℕ
  pub revents : List ℕ

-- `fail` is the result -1 with an errno.
pub data Response : Type 0 where
  done : Answer → Response
  fail : ℕ → Response

pub data Call : Type 0 where
  sys_socket : ℕ → Call
  sys_fcntl sys_setsockopt sys_getsockopt sys_listen sys_accept sys_close : ℕ → Call
  sys_bind sys_connect : ℕ → ℕ → ℕ → Call
  sys_send : ℕ → List ℕ → Call
  sys_sendto : ℕ → ℕ → ℕ → List ℕ → Call
  sys_recv sys_peek sys_recvfrom : ℕ → ℕ → Call
  sys_poll : ℕ → Option ℕ → Call

-- `fault` is set where the loop over timeouts uses a freed map, a missing pair or a freed conn,
-- where a connection is removed at an index behind the items, and where a program reads past the
-- end of a payload. Other uses of a conn that was freed are not recorded: its fields stay as they
-- were. `memory` holds the static variables of the program that uses the library.
pub record State : Type 0 where
  pub conn_at : ℕ → Conn
  pub next_conn : ℕ
  pub freed_conns : List ℕ
  pub status_at : ℕ → ConnStatus
  pub next_status : ℕ
  pub conns : List ℕ
  pub poll_fds : List PollFd
  pub removals : List ℕ
  pub immediate_callbacks : List PendingCall
  pub timeouts : List Timeout
  pub conn_status : Address → Option ℕ
  pub now : ℕ
  pub errno : ℕ
  pub script : List Response
  pub calls : List Call
  pub stream : ℕ → List ℕ
  pub fault : Bool
  pub memory : ℕ → ℕ

-- Linux's numbers.
abbrev pub err_intr : ℕ
err_intr = 4

abbrev pub err_io : ℕ
err_io = 5

abbrev pub err_bad_sock : ℕ
err_bad_sock = 9

abbrev pub err_would_block : ℕ
err_would_block = 11

abbrev pub err_conn_reset : ℕ
err_conn_reset = 104

abbrev pub err_timed_out : ℕ
err_timed_out = 110

abbrev pub err_conn_refused : ℕ
err_conn_refused = 111

abbrev pub err_in_progress : ℕ
err_in_progress = 115

abbrev pub record_call : Call → List Response → State → State
record_call call rest s = record s { script = rest; calls = call ∷ s.calls }

abbrev pub answer_with : Call → List Response → State → Response × State
answer_with call [] s = (fail err_io, record (record_call call [] s) { errno = err_io })
answer_with call (done a ∷ rest) s = (done a, record_call call rest s)
answer_with call (fail e ∷ rest) s = (fail e, record (record_call call rest s) { errno = e })

-- One system call: the next answer of the script, errno set if it fails.
unfoldable pub syscall : Call → State → Response × State
syscall call s = answer_with call s.script s

abbrev pub set_conn : ℕ → Conn → State → State
set_conn p c s = record s { conn_at = upd s.conn_at p c }

abbrev pub set_status : ℕ → ConnStatus → State → State
set_status p st s = record s { status_at = upd s.status_at p st }

-- What stands at an address of the two memories before its allocation.
abbrev pub no_conn : Conn
no_conn = new_connection 0 0

abbrev pub no_status : ConnStatus
no_status = record {
  last_seen_at = 0;
  reply_contexts = λ k. none;
  contexts_freed = false;
  conn_context = 0;
  next_reply_id = 0;
  remote_address = record { ip = 0; port = 0; protocol_type = 0 };
  total_buffer = no_data;
  waiting_num_bytes = 0;
}

-- The state that init_if_needed leaves, with the answers to come.
abbrev pub initial_state : List Response → State
initial_state script = record {
  conn_at = λ p. no_conn;
  next_conn = 0;
  freed_conns = [];
  status_at = λ st. no_status;
  next_status = 0;
  conns = [];
  poll_fds = [];
  removals = [];
  immediate_callbacks = [];
  timeouts = [];
  conn_status = λ a. none;
  now = 0;
  errno = 0;
  script = script;
  calls = [];
  stream = λ socket. [];
  fault = false;
  memory = λ variable. 0;
}

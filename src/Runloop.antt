-- ===== src/Runloop.antt =====
-- The run loop (msgbox/msgbox.c: make_call, msg_runloop; init_if_needed as the first state).
--
-- The user's callbacks are a parameter: what a callback does to the state, given the callback, the
-- connection, the event and the data.
pub mod Deferred
pub mod Reading
pub mod Calls
pub mod Moves
pub mod Errors
use msgbox.Prelude.{
  ℕ, zero, suc, ◌+◌, Bool, true, false, List, [], ◌∷◌, Option, none, some, ◌==◌, ◌&&◌, ◌||◌, ltb,
  if◌then◌else◌, codes, length, get_elem?,
}
use msgbox.Cstructs.{Cstructs}
use msgbox.Types.{
  Address, Conn, set_address, Event, Buffer, MsgData, msg_udp, no_data, new_connection,
}
use msgbox.Libc.{Libc}
use msgbox.State.{
  State, ConnStatus, PendingCall, ToFree, free_nothing, free_conn, free_bytes, PollFd, Answer,
  Response, done, fail, syscall, sys_getsockopt, set_conn, set_status, err_conn_refused,
  err_timed_out,
}
use msgbox.State.Callbacks.{send_callback_os_error}
use msgbox.Poll.{
  PollMode, poll_fds_mode, mode_read, set_conn_to_poll_mode, check_poll_fds, clear_removals,
}
use msgbox.Status.{status_of_conn, remote_address_seen}
use msgbox.Timeouts.{check_timeouts}
use msgbox.Receive.{read_from_socket}

abbrev pub Handler : Type 0
Handler = ℕ → ℕ → Event → MsgData → State → State

abbrev pub or_stale : {A : Type 0} → Option A → A → A
or_stale none d = d
or_stale (some x) d = x

-- The conn_context of the status goes to the conn.
restore_context : ℕ → Option ℕ → State → Option ℕ × State
restore_context p none s = (none, s)
restore_context p (some st) s =
    (some st, set_conn p (record (s.conn_at p) { conn_context = (s.status_at st).conn_context }) s)

save_context : ℕ → Option ℕ → State → State
save_context p none s = s
save_context p (some st) s =
    let c = s.conn_at p in
    if c.protocol_type == msg_udp
    then set_status st (record (s.status_at st) { conn_context = c.conn_context }) s
    else s

abbrev pub free_after : ToFree → State → State
free_after free_nothing s = s
free_after (free_conn q) s = record s { freed_conns = q ∷ s.freed_conns }
free_after (free_bytes d) s = s

call_ready : Handler → PendingCall → Option ℕ × State → State
unfolding save_context
call_ready user call (status, s) =
    let s1 = user (s.conn_at call.conn).callback call.conn call.event call.payload s in
    free_after call.to_free (save_context call.conn status s1)

module _ ⦃os : Libc⦄ where
  -- The metadata of the data goes to the conn.
  abbrev pub conn_from : Buffer → Conn → Conn
  conn_from b c =
      set_address (record c { reply_context = or_stale b.reply_context os.stale_context })
        (or_stale b.remote_address os.stale_address)

  restore_metadata : ℕ → Option Buffer → State → Option ℕ × State
  unfolding restore_context status_of_conn
  restore_metadata p none s = (none, s)
  restore_metadata p (some b) s =
      let s1 = set_conn p (conn_from b (s.conn_at p)) s in
      restore_context p (status_of_conn p s1) s1

  -- The status, in the udp case.
  unfoldable pub before_call : PendingCall → State → Option ℕ × State
  unfolding restore_metadata
  before_call call s =
      if (s.conn_at call.conn).protocol_type == msg_udp
      then restore_metadata call.conn call.payload.buffer s
      else (none, s)

  unfoldable pub make_call : Handler → PendingCall → State → State
  unfolding before_call call_ready
  make_call user call s = call_ready user call (before_call call s)

  -- The loop over the saved callbacks.
  unfoldable pub make_calls : Handler → List PendingCall → State → State
  make_calls user [] s = s
  make_calls user (call ∷ rest) s = make_calls user rest (make_call user call s)

  -- The calls that the callbacks schedule go to the new array.
  unfoldable pub run_callbacks : Handler → State → State
  unfolding make_calls
  run_callbacks user s =
      make_calls user s.immediate_callbacks (record s { immediate_callbacks = [] })

module _ ⦃cs : Cstructs⦄ ⦃os : Libc⦄ where
  -- `while (read_from_socket (…));`
  unfoldable pub read_all : ℕ → ℕ → State → State
  read_all zero p s = s
  read_all (suc fuel) p s =
      let (again, s1) = read_from_socket p s in
      let rest = read_all fuel p s1 in if again then rest else s1

  read_if : PollMode → ℕ → State → State
  unfolding read_all
  read_if mode p s = if mode.read then read_all (suc (length s.script)) p s else s

  -- The connect has completed.
  write_if : PollMode → ℕ → ℕ → State → State
  unfolding remote_address_seen set_conn_to_poll_mode
  write_if mode i p s =
      if mode.write then set_conn_to_poll_mode i mode_read (remote_address_seen p s).1 else s

  -- Nothing writes `error` if getsockopt fails.
  socket_error : Response × State → ℕ × State
  socket_error (fail e, s) = (os.stale_int, s)
  socket_error (done a, s) = (a.value, s)

  error_read : PollMode → ℕ → ℕ → ℕ × State → State
  unfolding read_if write_if send_callback_os_error
  error_read mode i p (error, s) =
      if error == err_conn_refused || error == err_timed_out
      then send_callback_os_error p (codes "connect") (free_conn p)
          (record s { removals = cs.add_item s.removals (s.conn_at p).index; errno = error })
      else read_if mode p (write_if mode i p s)

  -- The body of the loop over conns.
  unfoldable pub handle_ready : ℕ → ℕ → PollMode → State → State
  unfolding error_read socket_error syscall
  handle_ready i p mode s =
      if mode.err
      then error_read mode i p (socket_error (syscall (sys_getsockopt (s.conn_at p).socket) s))
      else read_if mode p (write_if mode i p s)

  abbrev pub revents_at : ℕ → State → ℕ
  revents_at i s = elim (get_elem? s.poll_fds i) [ none ↦ 0 | some f ↦ f.revents ]

  -- The loop sees the connections that are accepted on the way.
  unfoldable pub handle_all : ℕ → ℕ → State → State
  handle_all zero i s = s
  handle_all (suc fuel) i s = elim (get_elem? s.conns i) [
    | none ↦ s
    | some p ↦ handle_all fuel (suc i) (handle_ready i p (poll_fds_mode (revents_at i s)) s)
  ]

  -- An error of poll is only printed. Each accepted connection has used up an answer.
  polled : Option ℕ × State → State
  unfolding handle_all clear_removals
  polled (none, s) = s
  polled (some ret, s) =
      if ltb 0 ret then clear_removals (handle_all (length s.conns + length s.script) 0 s) else s

  unfoldable pub poll_sockets : Option ℕ → State → State
  unfolding polled check_poll_fds
  poll_sockets timeout_in_ms s =
      if length s.conns == 0 then s else polled (check_poll_fds timeout_in_ms s)

  abbrev pub no_delay : Option ℕ → State → Option ℕ
  no_delay timeout_in_ms s = if length s.immediate_callbacks == 0 then timeout_in_ms else some 0

  unfoldable pub msg_runloop : Handler → Option ℕ → State → State
  unfolding poll_sockets clear_removals run_callbacks
  msg_runloop user timeout_in_ms s =
      run_callbacks user
        (check_timeouts (poll_sockets (no_delay timeout_in_ms s) (clear_removals s)))

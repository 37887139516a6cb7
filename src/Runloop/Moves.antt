-- ===== src/Runloop/Moves.antt =====
-- The parts of msg_runloop as elementary changes.
use msgbox.Prelude.{
  ℕ, zero, suc, refl, List, [], ◌∷◌, Option, none, some, ◌==◌, ltb, ◌||◌, length, get_elem?,
  Bool-cases, Option-cases, inl, inr, codes,
}
use msgbox.Cstructs.{Cstructs}
use msgbox.Types.{Event, MsgData}
use msgbox.Libc.{Libc}
use msgbox.State.{
  State, Timeout, free_conn, Response, done, fail, syscall, sys_poll, sys_getsockopt, set_conn,
  set_status, err_conn_refused, err_timed_out,
}
use msgbox.Moves.{Closed}
use msgbox.Moves.Status.{
  syscall-Closed, send_callback-Closed, send_callback_os_error-Closed, remote_address_seen-Closed,
}
use msgbox.Poll.{PollMode, mode_read, remove_conns, clear_removals, check_poll_fds}
use msgbox.Poll.{polled as poll_answer}
use msgbox.Timeouts.Order.{expire_on}
use msgbox.Timeouts.{unset_context, context_or_null, expire_first, expire, check_timeouts}
use msgbox.Receive.{read_from_socket}
use msgbox.Receive.Moves.{read_from_socket-Closed}
use msgbox.Runloop.{
  Handler, read_all, read_if, write_if, socket_error, error_read, handle_ready, handle_all, polled,
  poll_sockets, no_delay, msg_runloop,
}
use msgbox.Runloop.Calls.{run_callbacks-Closed}

module _ ⦃cs : Cstructs⦄ ⦃os : Libc⦄ {P : State → Type 0} (k : Closed P) where
  remove_conns-Closed : (removals : List ℕ) (s : State) → P s → P (remove_conns removals s)
  unfolding remove_conns
  remove_conns-Closed [] s h = h
  remove_conns-Closed (i ∷ rest) s h = remove_conns-Closed rest _ (k.removed i s h)

  pub clear_removals-Closed : (s : State) → P s → P (clear_removals s)
  unfolding clear_removals
  clear_removals-Closed s h =
      let s1 : State = remove_conns s.removals s in
      k.noted s1 s1.immediate_callbacks [] s1.conn_status s1.freed_conns s1.errno s1.stream s1.fault
        (remove_conns-Closed s.removals s h)

  read_all-Closed : (fuel p : ℕ) (s : State) → P s → P (read_all fuel p s)
  unfolding read_all
  read_all-Closed zero p s h = h
  read_all-Closed (suc fuel) p s h = elim (Bool-cases (read_from_socket p s).0) [
    | inl again ↦ rw again (read_all-Closed fuel p _ (read_from_socket-Closed k p s h))
    | inr last ↦ rw last (read_from_socket-Closed k p s h)
  ]

  read_if-Closed : (m : PollMode) (p : ℕ) (s : State) → P s → P (read_if m p s)
  unfolding read_if
  read_if-Closed m p s h = elim (Bool-cases m.read) [
    | inl e ↦ rw e (read_all-Closed (suc (length s.script)) p s h)
    | inr e ↦ rw e h
  ]

  write_if-Closed : (m : PollMode) (i p : ℕ) (s : State) → P s → P (write_if m i p s)
  unfolding write_if
  write_if-Closed m i p s h = elim (Bool-cases m.write) [
    | inl e ↦ rw e (k.mode i mode_read _ (remote_address_seen-Closed k p s h))
    | inr e ↦ rw e h
  ]

  socket_error-Closed : (r : Response × State) → P r.1 → P (socket_error r).1
  unfolding socket_error
  socket_error-Closed (done a, s) h = h
  socket_error-Closed (fail e, s) h = h

  error_read-Closed : (m : PollMode) (i p : ℕ) (r : ℕ × State) → P r.1 → P (error_read m i p r)
  unfolding error_read
  error_read-Closed m i p (error, s) h =
      elim (Bool-cases (error == err_conn_refused || error == err_timed_out)) [
        | inl gone ↦ rw gone (
            send_callback_os_error-Closed k p (codes "connect") (free_conn p) _ (
              k.noted s s.immediate_callbacks _ s.conn_status s.freed_conns error s.stream s.fault
                h))
        | inr other ↦ rw other (read_if-Closed m p _ (write_if-Closed m i p s h))
      ]

  pub handle_ready-Closed : (i p : ℕ) (m : PollMode) (s : State) → P s → P (handle_ready i p m s)
  unfolding handle_ready
  handle_ready-Closed i p m s h = elim (Bool-cases m.err) [
    | inl e ↦
        (let call = sys_getsockopt (s.conn_at p).socket in
          rw e (
            error_read-Closed m i p (socket_error (syscall call s))
              (socket_error-Closed (syscall call s) (syscall-Closed k call s h))))
    | inr e ↦ rw e (read_if-Closed m p _ (write_if-Closed m i p s h))
  ]

  handle_all-Closed : (fuel i : ℕ) (s : State) → P s → P (handle_all fuel i s)
  unfolding handle_all
  handle_all-Closed zero i s h = h
  handle_all-Closed (suc fuel) i s h = elim (Option-cases (get_elem? s.conns i)) [
    | inl e ↦ rw (handle_all, e) h
    | inr (p, e) ↦
        rw (handle_all, e) (handle_all-Closed fuel (suc i) _ (handle_ready-Closed i p _ s h))
  ]

  poll_result-Closed : (r : Option ℕ × State) → P r.1 → P (polled r)
  unfolding polled
  poll_result-Closed (none, s) h = h
  poll_result-Closed (some ret, s) h = elim (Bool-cases (ltb 0 ret)) [
    | inl e ↦ rw e (clear_removals-Closed _ (handle_all-Closed _ 0 s h))
    | inr e ↦ rw e h
  ]

  poll_answer-Closed : (r : Response × State) → P r.1 → P (poll_answer r).1
  poll_answer-Closed (fail e, s) h = h
  poll_answer-Closed (done a, s) h = k.polled a.revents s h

  pub poll_sockets-Closed : (timeout : Option ℕ) (s : State) → P s → P (poll_sockets timeout s)
  unfolding poll_sockets check_poll_fds
  poll_sockets-Closed timeout s h = elim (Bool-cases (length s.conns == 0)) [
    | inl e ↦ rw e h
    | inr e ↦
        (let call = sys_poll (length s.poll_fds) timeout in
          rw e (
            poll_result-Closed (poll_answer (syscall call s))
              (poll_answer-Closed (syscall call s) (syscall-Closed k call s h))))
  ]

  expire_first-Closed : (t : Timeout) (s : State) → P s → P (expire_first t s)
  unfolding expire_first
  expire_first-Closed t s h =
      let context = context_or_null ((s.status_at t.status).reply_contexts t.reply_id) in
      let c = record (s.conn_at t.conn) { reply_context = context } in
      let s0 : State = set_conn t.conn c s in
      let s1 : State = set_status t.status (unset_context t.reply_id (s.status_at t.status)) s0 in
      let s2 : State = record s1 { timeouts = cs.remove_item s.timeouts 0 } in
      send_callback-Closed k t.conn _ _ _ _ (
        k.noted s2 s.immediate_callbacks s.removals s.conn_status s.freed_conns s.errno s.stream _ (
          k.no_timeout 0 s1 (
            k.status t.status _ s0 (λ x. record { fills = x.fills; next = x.next })
              (k.conn t.conn c s (record { index = refl; socket = refl }) h))))

  expire_on-Closed :
      (fuel time_now : ℕ) (s : State) (ts : List Timeout)
      → P s
      → ((t : Timeout) → P (expire fuel time_now (expire_first t s)))
      → P (expire_on fuel time_now s ts)
  expire_on-Closed fuel time_now s [] h later = h
  expire_on-Closed fuel time_now s (t ∷ ts) h later = elim (Bool-cases (ltb time_now t.at)) [
    | inl e ↦ rw e h
    | inr e ↦ rw e (later t)
  ]

  expire-Closed : (fuel time_now : ℕ) (s : State) → P s → P (expire fuel time_now s)
  unfolding expire
  expire-Closed zero time_now s h = h
  expire-Closed (suc fuel) time_now s h =
      expire_on-Closed fuel time_now s s.timeouts h
        (λ t. expire-Closed fuel time_now (expire_first t s) (expire_first-Closed t s h))

  pub check_timeouts-Closed : (s : State) → P s → P (check_timeouts s)
  unfolding check_timeouts
  check_timeouts-Closed s h = expire-Closed (length s.timeouts) s.now s h

  module _ (user : Handler)
      (kept : (callback p : ℕ) (event : Event) (d : MsgData) (s : State)
        → P s
        → P (user callback p event d s)) where
    -- What the elementary changes and the callbacks keep, a turn of the run loop keeps.
    pub msg_runloop-Closed : (timeout : Option ℕ) (s : State) → P s → P (msg_runloop user timeout s)
    unfolding msg_runloop
    msg_runloop-Closed timeout s h = run_callbacks-Closed k user kept _ (
        check_timeouts-Closed _
          (poll_sockets-Closed (no_delay timeout s) _ (clear_removals-Closed s h)))

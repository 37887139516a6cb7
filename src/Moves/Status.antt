-- ===== src/Moves/Status.antt =====
-- Scheduling a callback, first sight and end of a connection, and forgetting a timeout, as
-- elementary changes.
use msgbox.Prelude.{ℕ, refl, Bool, true, false, List, arith, Option-cases, inl, inr}
use msgbox.Cstructs.{Cstructs}
use msgbox.Types.{Address, address_of_conn, Event, Header, MsgData, no_data}
use msgbox.Libc.{Libc}
use msgbox.State.{State, ToFree, Call, syscall, sys_close}
use msgbox.State.Callbacks.{send_callback, send_callback_error, send_callback_os_error}
use msgbox.Status.{
  new_conn_status, first_seen, remote_address_seen, status_of_conn, unset_status,
  delete_conn_status, close_and_remove, end_conn, local_disconnect, is_listening_udp,
  new_conn_status_buffer, delete_conn_status_buffer,
}
use msgbox.Timeouts.{remove_timeout, timeout_index}
use msgbox.Moves.{Closed, IsStatus}

pub new_conn_status-IsStatus : (now : ℕ) (a : Address) → IsStatus (new_conn_status now a)
unfolding new_conn_status
new_conn_status-IsStatus now a = record { fills = (refl, refl); next = omega arith }

module _ ⦃cs : Cstructs⦄ {P : State → Type 0} (k : Closed P) where
  pub syscall-Closed : (call : Call) (s : State) → P s → P (syscall call s).1
  unfolding syscall
  syscall-Closed call s h = k.called call s.script s refl h

  pub send_callback-Closed :
      (p : ℕ) (event : Event) (d : MsgData) (to_free : ToFree) (s : State)
      → P s
      → P (send_callback p event d to_free s)
  unfolding send_callback
  send_callback-Closed p event d to_free s h =
      k.noted s _ s.removals s.conn_status s.freed_conns s.errno s.stream s.fault h

  pub send_callback_error-Closed :
      (p : ℕ) (msg : List ℕ) (to_free : ToFree) (s : State)
      → P s
      → P (send_callback_error p msg to_free s)
  unfolding send_callback_error
  send_callback_error-Closed p msg to_free s h = send_callback-Closed p _ _ to_free s h

  unset_status-Closed : (a : Address) (s : State) → P s → P (unset_status a s)
  unfolding unset_status delete_conn_status
  unset_status-Closed a s h = elim (Option-cases (s.conn_status a)) [
    | inl e ↦ rw (unset_status, e) h
    | inr (st, e) ↦
        rw (unset_status, e)
          (k.status st _ _ (λ x. record { fills = x.fills; next = x.next })
            (k.noted s s.immediate_callbacks s.removals _ s.freed_conns s.errno s.stream s.fault h))
  ]

  close_and_remove-Closed : (p : ℕ) (s : State) → P s → P (close_and_remove p s)
  unfolding close_and_remove
  close_and_remove-Closed p s h =
      let s1 : State = (syscall (sys_close (s.conn_at p).socket) s).1 in
      k.noted s1 s1.immediate_callbacks _ s1.conn_status s1.freed_conns s1.errno s1.stream s1.fault
        (syscall-Closed _ s h)

  end_conn-Closed :
      (listening : Bool) (p : ℕ) (event : Event) (s : State)
      → P s
      → P (end_conn listening p event s)
  unfolding end_conn
  end_conn-Closed true p event s h = send_callback-Closed p event _ _ s h
  end_conn-Closed false p event s h =
      close_and_remove-Closed p _ (send_callback-Closed p event _ _ s h)

  pub local_disconnect-Closed :
      (p : ℕ) (event : Event) (s : State) → P s → P (local_disconnect p event s)
  unfolding local_disconnect
  local_disconnect-Closed p event s h =
      end_conn-Closed (is_listening_udp (s.conn_at p)) p event _
        (unset_status-Closed (address_of_conn (s.conn_at p)) s h)

  first_seen-Closed : (p : ℕ) (s : State) → P s → P (first_seen p s)
  unfolding first_seen
  first_seen-Closed p s h =
      let a = address_of_conn (s.conn_at p) in
      let fit = new_conn_status-IsStatus 0 a in
      send_callback-Closed p _ _ _ _
        (k.new_status _ a s (record { fills = fit.fills; next = fit.next }) h)

  pub remote_address_seen-Closed : (p : ℕ) (s : State) → P s → P (remote_address_seen p s).1
  unfolding remote_address_seen
  remote_address_seen-Closed p s h = elim (Option-cases (status_of_conn p s)) [
    | inl e ↦ rw (remote_address_seen, e) (first_seen-Closed p s h)
    | inr (st, e) ↦ rw (remote_address_seen, e) h
  ]

  pub new_conn_status_buffer-Closed :
      (st : ℕ) (header : Header) (s : State) → P s → P (new_conn_status_buffer st header s)
  unfolding new_conn_status_buffer
  new_conn_status_buffer-Closed st header s h =
      k.status st _ s (λ x. record { fills = omega arith; next = x.next }) h

  pub delete_conn_status_buffer-Closed :
      (st : ℕ) (s : State) → P s → P (delete_conn_status_buffer st s)
  unfolding delete_conn_status_buffer
  delete_conn_status_buffer-Closed st s h =
      k.status st (record (s.status_at st) { total_buffer = no_data; waiting_num_bytes = 0 }) s
        (λ x. record { fills = (refl, refl); next = x.next }) h

  pub remove_timeout-Closed : (st reply_id : ℕ) (s : State) → P s → P (remove_timeout st reply_id s)
  unfolding remove_timeout
  remove_timeout-Closed st reply_id s h =
      elim (Option-cases (timeout_index st reply_id s.timeouts)) [
        | inl e ↦ rw (remove_timeout, e) h
        | inr (i, e) ↦ rw (remove_timeout, e) (k.no_timeout i s h)
      ]

  module _ ⦃os : Libc⦄ where
    pub send_callback_os_error-Closed :
        (p : ℕ) (name : List ℕ) (to_free : ToFree) (s : State)
        → P s
        → P (send_callback_os_error p name to_free s)
    unfolding send_callback_os_error
    send_callback_os_error-Closed p name to_free s h = send_callback_error-Closed p _ to_free s h

-- ===== src/Api/Moves.antt =====
-- The calls on a connection as elementary changes.
use msgbox.Prelude.{
  ℕ, zero, suc, refl, false, List, [], ◌∷◌, ◌++◌, Option, none, some, ◌==◌, length, Bool-cases,
  Option-cases, inl, inr, codes, arith,
}
use msgbox.Cstructs.{Cstructs}
use msgbox.Types.{
  address_of_conn, MsgData, new_data_space, msg_tcp, msg_type_close, msg_type_request,
  msg_listening_ended, msg_connection_closed,
}
use msgbox.Libc.{Libc, snprintf}
use msgbox.Address.{address_as_str}
use msgbox.Wire.{set_header}
use msgbox.State.{
  State, Response, done, fail, syscall, sys_send, sys_sendto, sys_close, set_conn, set_status,
  free_nothing, err_bad_sock,
}
use msgbox.Status.{status_of_conn}
use msgbox.Send.{send_some, send_loop, send_all, send_data, name_if_failed, message_bytes}
use msgbox.Send.Complete.{after}
use msgbox.Moves.{Closed, IsStatus}
use msgbox.Moves.Status.{
  syscall-Closed, send_callback_error-Closed, send_callback_os_error-Closed,
  local_disconnect-Closed,
}
use msgbox.Api.{
  report_failed, listening_closed, msg_unlisten, msg_disconnect, msg_send, request_sent, get_known,
  take_reply_id, msg_get, to_uint32,
}

module _ ⦃cs : Cstructs⦄ ⦃os : Libc⦄ {P : State → Type 0} (k : Closed P) where
  send_some-Closed :
      (socket : ℕ) (bytes : List ℕ) (r : Response × State) → P r.1 → P (send_some socket bytes r).1
  unfolding send_some
  send_some-Closed socket bytes (done a, s) h =
      k.noted s s.immediate_callbacks s.removals s.conn_status s.freed_conns s.errno _ s.fault h
  send_some-Closed socket bytes (fail e, s) h = h

  after-Closed :
      (fuel socket : ℕ) (r : Option (List ℕ) × State)
      → P r.1
      → ((bytes : List ℕ) → P (send_loop fuel socket bytes r.1).1)
      → P (after fuel socket r).1
  after-Closed fuel socket (none, s) h later = h
  after-Closed fuel socket (some rest, s) h later = later rest

  send_loop-Closed :
      (fuel socket : ℕ) (bytes : List ℕ) (s : State) → P s → P (send_loop fuel socket bytes s).1
  unfolding send_loop
  send_loop-Closed zero socket bytes s h = h
  send_loop-Closed (suc fuel) socket [] s h = h
  send_loop-Closed (suc fuel) socket (b ∷ bs) s h =
      let call = sys_send socket (b ∷ bs) in
      let r = send_some socket (b ∷ bs) (syscall call s) in
      let h1 : P r.1 =
        send_some-Closed socket (b ∷ bs) (syscall call s) (syscall-Closed k call s h) in
      after-Closed fuel socket r h1 (λ bytes. send_loop-Closed fuel socket bytes r.1 h1)

  name_if_failed-Closed :
      (name : List ℕ) (r : Response × State) → P r.1 → P (name_if_failed name r).1
  name_if_failed-Closed name (done a, s) h = h
  name_if_failed-Closed name (fail e, s) h = h

  send_data-Closed : (p : ℕ) (d : MsgData) (s : State) → P s → P (send_data p d s).1
  unfolding send_data send_all
  send_data-Closed p d s h =
      let c = s.conn_at p in
      elim (Bool-cases (c.protocol_type == msg_tcp)) [
        | inl tcp ↦
            rw tcp (send_loop-Closed (suc (suc (length s.script))) c.socket (message_bytes d) s h)
        | inr udp ↦ elim (Bool-cases c.for_listening) [
          | inl server ↦
              (let call = sys_sendto c.socket c.remote_ip c.remote_port (message_bytes d) in
                rw (udp, server)
                  (name_if_failed-Closed (codes "sendto") (syscall call s)
                    (syscall-Closed k call s h)))
          | inr client ↦
              (let call = sys_send c.socket (message_bytes d) in
                rw (udp, client)
                  (name_if_failed-Closed (codes "send") (syscall call s)
                    (syscall-Closed k call s h)))
        ]
      ]

  report_failed-Closed : (p : ℕ) (r : Option (List ℕ) × State) → P r.1 → P (report_failed p r)
  unfolding report_failed
  report_failed-Closed p (none, s) h = h
  report_failed-Closed p (some name, s) h = send_callback_os_error-Closed k p name _ s h

  pub msg_send-Closed : (p : ℕ) (d : MsgData) (s : State) → P s → P (msg_send p d s)
  unfolding msg_send
  msg_send-Closed p d s h = report_failed-Closed p (send_data p _ s) (send_data-Closed p _ s h)

  pub msg_disconnect-Closed : (p : ℕ) (s : State) → P s → P (msg_disconnect p s)
  unfolding msg_disconnect
  msg_disconnect-Closed p s h =
      let d = set_header (new_data_space 0) msg_type_close 0 0 in
      local_disconnect-Closed k p msg_connection_closed _
        (report_failed-Closed p (send_data p d s) (send_data-Closed p d s h))

  listening_closed-Closed : (p : ℕ) (r : Response × State) → P r.1 → P (listening_closed p r)
  unfolding listening_closed
  listening_closed-Closed p (done a, s) h = local_disconnect-Closed k p msg_listening_ended s h
  listening_closed-Closed p (fail e, s) h =
      let h1 = send_callback_os_error-Closed k p (codes "close") free_nothing s h in
      elim (Bool-cases (e == err_bad_sock)) [
        | inl bad ↦ rw bad h1
        | inr other ↦ rw other (local_disconnect-Closed k p msg_listening_ended _ h1)
      ]

  pub msg_unlisten-Closed : (conn : Option ℕ) (s : State) → P s → P (msg_unlisten conn s)
  unfolding msg_unlisten
  msg_unlisten-Closed none s h = h
  msg_unlisten-Closed (some p) s h =
      let c = s.conn_at p in
      let s1 = set_conn p (record c { for_listening = false }) s in
      let call = sys_close c.socket in
      elim (Bool-cases c.for_listening) [
        | inr client ↦ rw client (
            send_callback_error-Closed k p (codes "msg_unlisten called on non-listening connection")
              free_nothing s h)
        | inl server ↦ rw server (
            listening_closed-Closed p (syscall call s1)
              (syscall-Closed k call s1 (k.conn p _ s (record { index = refl; socket = refl }) h)))
      ]

  request_sent-Closed :
      (p st reply_id : ℕ) (r : Option (List ℕ) × State) → P r.1 → P (request_sent p st reply_id r)
  unfolding request_sent
  request_sent-Closed p st reply_id (none, s) h = k.timeout p st reply_id s h
  request_sent-Closed p st reply_id (some name, s) h = send_callback_os_error-Closed k p name _ s h

  get_known-Closed :
      (p : ℕ) (d : MsgData) (context st : ℕ) (s : State) → P s → P (get_known p d context st s)
  unfolding get_known
  get_known-Closed p d context st s h =
      let x = s.status_at st in
      let s1 = set_status st (take_reply_id context x) s in
      let d1 = set_header d msg_type_request x.next_reply_id (to_uint32 d.num_bytes) in
      request_sent-Closed p st x.next_reply_id (send_data p d1 s1) (
        send_data-Closed p d1 s1
          (k.status st _ s (λ (y : IsStatus x). record { fills = y.fills; next = omega arith }) h))

  pub msg_get-Closed :
      (p : ℕ) (d : MsgData) (context : ℕ) (s : State) → P s → P (msg_get p d context s)
  unfolding msg_get
  msg_get-Closed p d context s h = elim (Option-cases (status_of_conn p s)) [
    | inl e ↦
        rw (msg_get, e)
          (send_callback_error-Closed k p
            (snprintf 1024
              (codes "No known connection with " ++ address_as_str (address_of_conn (s.conn_at p))))
            free_nothing s h)
    | inr (st, e) ↦ rw (msg_get, e) (get_known-Closed p d context st s h)
  ]

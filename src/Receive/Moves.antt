-- ===== src/Receive/Moves.antt =====
-- read_from_socket as elementary changes.
use msgbox.Prelude.{
  ℕ, ◌+◌, ◌-◌, ◌≤◌, ◌<◌, ◌≡◌, refl, List, Option, none, some, ◌==◌, ltb, ◌&&◌, length, take,
  length-take, length-append, arith, Bool-cases, Option-cases, inl, inr,
}
use msgbox.Cstructs.{Cstructs}
use msgbox.Types.{
  Buffer, Conn, Event, Header, MsgData, header_len, msg_tcp, msg_type_reply, msg_type_one_way,
  msg_type_close, msg_connection_lost, msg_connection_closed,
}
use msgbox.Libc.{Libc}
use msgbox.State.{
  State, sys_peek, sys_recv, sys_recvfrom, Response, done, fail, syscall, set_conn, err_would_block,
  err_conn_reset,
}
use msgbox.Status.{remote_address_seen}
use msgbox.Timeouts.{remove_timeout, unset_context}
use msgbox.Receive.{
  consumed, consume_header, finish_header, header_peeked, read_header, append_bytes, map_buffer,
  bytes_received, body_received, continue_recv, RecvResult, complete, pending, failed, interrupted,
  reply_found, deliver, switch_type, tcp_switched, body_read, read_body, tcp_header_read, tcp_seen,
  read_tcp, udp_seen, udp_received, udp_switched, udp_header_read, read_udp, read_from_socket,
}
use msgbox.Moves.{Closed, Fills, IsStatus}
use msgbox.Moves.Status.{
  syscall-Closed, send_callback-Closed, send_callback_error-Closed, send_callback_os_error-Closed,
  local_disconnect-Closed, remote_address_seen-Closed, new_conn_status_buffer-Closed,
  delete_conn_status_buffer-Closed, remove_timeout-Closed,
}
use msgbox.Receive.Accept.{accept_connection-Closed}

Fills-append_bytes :
    (bytes : List ℕ) (buffer : Option Buffer) (waiting num_bytes : ℕ)
    → length bytes ≤ waiting
    → 0 < length bytes
    → Fills buffer waiting num_bytes
    → Fills
        (map_buffer (append_bytes bytes) (record { num_bytes = num_bytes; buffer = buffer })).buffer
        (waiting - length bytes)
        num_bytes
Fills-append_bytes bytes none waiting num_bytes short more f = absurd (omega (arith, f.0))
Fills-append_bytes bytes (some b) waiting num_bytes short more f =
    omega (arith, length-append b.bytes bytes)

module _ ⦃cs : Cstructs⦄ ⦃os : Libc⦄ {P : State → Type 0} (k : Closed P) where
  conn-Closed :
      (p : ℕ) (c : Conn) (s : State)
      → c.index ≡ (s.conn_at p).index
      → c.socket ≡ (s.conn_at p).socket
      → P s
      → P (set_conn p c s)
  conn-Closed p c s ei es h = k.conn p c s (record { index = ei; socket = es }) h

  consumed-Closed : (peeked : List ℕ) (r : Response × State) → P r.1 → P (consumed peeked r).1
  consumed-Closed peeked (done a, s) h = h
  consumed-Closed peeked (fail e, s) h = h

  consume_header-Closed :
      (c : Conn) (peeked : List ℕ) (s : State) → P s → P (consume_header c peeked s).1
  consume_header-Closed c peeked s h = elim (Bool-cases (c.protocol_type == msg_tcp)) [
    | inl tcp ↦ rw tcp (
        let call = sys_recv c.socket header_len in
        consumed-Closed peeked (syscall call s) (syscall-Closed k call s h))
    | inr udp ↦ rw udp h
  ]

  header_peeked-Closed : (p : ℕ) (r : Response × State) → P r.1 → P (header_peeked p r).1
  unfolding header_peeked finish_header
  header_peeked-Closed p (done a, s) h =
      let bytes = take header_len a.bytes in
      elim (Bool-cases (ltb 0 (length bytes) && ltb (length bytes) header_len)) [
        | inl part ↦ rw part h
        | inr not_part ↦ elim (Bool-cases (length bytes == 0)) [
          | inl ended ↦ rw (not_part, ended) (local_disconnect-Closed k p msg_connection_lost s h)
          | inr whole ↦
              rw (not_part, whole)
                (conn-Closed p _ _ refl refl (consume_header-Closed (s.conn_at p) bytes s h))
        ]
      ]
  header_peeked-Closed p (fail e, s) h = elim (Bool-cases (e == err_conn_reset)) [
    | inl reset ↦ rw reset (local_disconnect-Closed k p msg_connection_lost s h)
    | inr other ↦ elim (Bool-cases (e == err_would_block)) [
      | inl block ↦ rw (other, block) h
      | inr bad ↦ rw (other, bad) (send_callback_os_error-Closed k p _ _ s h)
    ]
  ]

  read_header-Closed : (p : ℕ) (s : State) → P s → P (read_header p s).1
  unfolding read_header
  read_header-Closed p s h =
      let call = sys_peek (s.conn_at p).socket header_len in
      header_peeked-Closed p (syscall call s) (syscall-Closed k call s h)

  bytes_received-Closed :
      (p st : ℕ) (bytes : List ℕ) (s : State)
      → length bytes ≤ (s.status_at st).waiting_num_bytes
      → P s
      → P (bytes_received p st bytes s).1
  unfolding bytes_received
  bytes_received-Closed p st bytes s short h = elim (Bool-cases (length bytes == 0)) [
    | inl none_left ↦ rw none_left (local_disconnect-Closed k p msg_connection_lost s h)
    | inr more ↦ rw more (
        k.status st _ s
          (λ (x : IsStatus (s.status_at st)). record {
            fills =
                Fills-append_bytes bytes (s.status_at st).total_buffer.buffer
                  (s.status_at st).waiting_num_bytes (s.status_at st).total_buffer.num_bytes short
                  (ground arith) x.fills;
            next = x.next;
          })
          h)
  ]

  body_received-Closed : (p st : ℕ) (r : Response × State) → P r.1 → P (body_received p st r).1
  unfolding body_received
  body_received-Closed p st (done a, s) h =
      bytes_received-Closed p st _ s
        (omega (arith, length-take (s.status_at st).waiting_num_bytes a.bytes)) h
  body_received-Closed p st (fail e, s) h = elim (Bool-cases (e == err_conn_reset)) [
    | inl reset ↦ rw reset (local_disconnect-Closed k p msg_connection_lost s h)
    | inr other ↦ rw other h
  ]

  continue_recv-Closed : (p st : ℕ) (s : State) → P s → P (continue_recv p st s).1
  unfolding continue_recv
  continue_recv-Closed p st s h =
      let call = sys_recv (s.conn_at p).socket (s.status_at st).waiting_num_bytes in
      body_received-Closed p st (syscall call s) (syscall-Closed k call s h)

  reply_found-Closed :
      (p : ℕ) (event : Event) (d : MsgData) (st reply_id context : ℕ) (s : State)
      → P s
      → P (reply_found p event d st reply_id context s)
  unfolding reply_found
  reply_found-Closed p event d st reply_id context s h =
      let s1 = remove_timeout st reply_id s in
      send_callback-Closed k p event _ _ _ (
        conn-Closed p _ _ refl refl (
          k.status st (unset_context reply_id (s1.status_at st)) s1
            (λ x. record { fills = x.fills; next = x.next })
            (remove_timeout-Closed k st reply_id s h)))

  deliver-Closed :
      (p : ℕ) (event : Event) (d : MsgData) (st : ℕ) (header : Header) (s : State)
      → P s
      → P (deliver p event d st header s).1
  unfolding deliver
  deliver-Closed p event d st header s h =
      elim (Bool-cases (header.message_type == msg_type_reply)) [
        | inr e ↦ rw e (send_callback-Closed k p event d _ _ (conn-Closed p _ s refl refl h))
        | inl e ↦ elim (Option-cases ((s.status_at st).reply_contexts header.reply_id)) [
          | inl unknown ↦ rw (e, unknown) (send_callback_error-Closed k p _ _ s h)
          | inr (context, known) ↦
              rw (e, known) (reply_found-Closed p event d st header.reply_id context s h)
        ]
      ]

  switch_type-Closed : (p : ℕ) (header : Header) (s : State) → P s → P (switch_type p header s).1
  unfolding switch_type
  switch_type-Closed p header s h = elim (Bool-cases (header.message_type == msg_type_one_way)) [
    | inl e ↦ rw e (conn-Closed p _ s refl refl h)
    | inr e ↦ elim (Bool-cases (header.message_type == msg_type_close)) [
      | inl c ↦ rw (e, c) (local_disconnect-Closed k p msg_connection_closed s h)
      | inr c ↦ rw (e, c) h
    ]
  ]

  tcp_switched-Closed :
      (p : ℕ) (d : MsgData) (st : ℕ) (header : Header) (r : Option Event × State)
      → P r.1
      → P (tcp_switched p d st header r).1
  unfolding tcp_switched
  tcp_switched-Closed p d st header (none, s) h = h
  tcp_switched-Closed p d st header (some event, s) h = deliver-Closed p event d st header s h

  body_read-Closed :
      (p st : ℕ) (header : Header) (r : RecvResult × State) → P r.1 → P (body_read p st header r).1
  unfolding body_read
  body_read-Closed p st header (interrupted, s) h = h
  body_read-Closed p st header (failed, s) h =
      delete_conn_status_buffer-Closed k st _ (send_callback_os_error-Closed k p _ _ s h)
  body_read-Closed p st header (pending, s) h = h
  body_read-Closed p st header (complete, s) h =
      tcp_switched-Closed p _ st header _
        (switch_type-Closed p header _ (delete_conn_status_buffer-Closed k st s h))

  read_body-Closed : (p st : ℕ) (header : Header) (s : State) → P s → P (read_body p st header s).1
  unfolding read_body
  read_body-Closed p st header s h =
      body_read-Closed p st header (continue_recv p st s) (continue_recv-Closed p st s h)

  tcp_header_read-Closed :
      (p st : ℕ) (r : Option Header × State) → P r.1 → P (tcp_header_read p st r).1
  unfolding tcp_header_read
  tcp_header_read-Closed p st (none, s) h = h
  tcp_header_read-Closed p st (some header, s) h =
      elim (Bool-cases (header.message_type == msg_type_close)) [
        | inl c ↦ rw c (local_disconnect-Closed k p msg_connection_closed s h)
        | inr o ↦
            rw o (read_body-Closed p st header _ (new_conn_status_buffer-Closed k st header s h))
      ]

  tcp_seen-Closed : (p : ℕ) (r : ℕ × State) → P r.1 → P (tcp_seen p r).1
  unfolding tcp_seen
  tcp_seen-Closed p (st, s) h = elim (Bool-cases ((s.status_at st).waiting_num_bytes == 0)) [
    | inl start ↦
        rw start (tcp_header_read-Closed p st (read_header p s) (read_header-Closed p s h))
    | inr more ↦ rw more (read_body-Closed p st _ s h)
  ]

  udp_seen-Closed :
      (p : ℕ) (event : Event) (header : Header) (bytes : List ℕ) (r : ℕ × State)
      → P r.1
      → P (udp_seen p event header bytes r).1
  unfolding udp_seen
  udp_seen-Closed p event header bytes (st, s) h = deliver-Closed p event _ st header s h

  udp_received-Closed :
      (p : ℕ) (event : Event) (header : Header) (r : Response × State)
      → P r.1
      → P (udp_received p event header r).1
  unfolding udp_received
  udp_received-Closed p event header (fail e, s) h = send_callback_os_error-Closed k p _ _ s h
  udp_received-Closed p event header (done a, s) h =
      let s1 = set_conn p (record (s.conn_at p) { remote_ip = a.ip; remote_port = a.port }) s in
      udp_seen-Closed p event header _ (remote_address_seen p s1)
        (remote_address_seen-Closed k p s1 (conn-Closed p _ s refl refl h))

  udp_switched-Closed :
      (p : ℕ) (header : Header) (r : Option Event × State) → P r.1 → P (udp_switched p header r).1
  unfolding udp_switched
  udp_switched-Closed p header (none, s) h = h
  udp_switched-Closed p header (some event, s) h =
      let call = sys_recvfrom (s.conn_at p).socket (header.num_bytes + header_len) in
      udp_received-Closed p event header (syscall call s) (syscall-Closed k call s h)

  udp_header_read-Closed : (p : ℕ) (r : Option Header × State) → P r.1 → P (udp_header_read p r).1
  unfolding udp_header_read
  udp_header_read-Closed p (none, s) h = h
  udp_header_read-Closed p (some header, s) h =
      udp_switched-Closed p header (switch_type p header s) (switch_type-Closed p header s h)

  pub read_from_socket-Closed : (p : ℕ) (s : State) → P s → P (read_from_socket p s).1
  unfolding read_from_socket read_tcp read_udp
  read_from_socket-Closed p s h = elim (Bool-cases ((s.conn_at p).protocol_type == msg_tcp)) [
    | inr udp ↦ rw udp (udp_header_read-Closed p (read_header p s) (read_header-Closed p s h))
    | inl tcp ↦ elim (Bool-cases (s.conn_at p).for_listening) [
      | inl listening ↦ rw (tcp, listening) (accept_connection-Closed k p s h)
      | inr connected ↦
          rw (tcp, connected)
            (tcp_seen-Closed p (remote_address_seen p s) (remote_address_seen-Closed k p s h))
    ]
  ]

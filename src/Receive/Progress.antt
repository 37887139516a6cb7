-- ===== src/Receive/Progress.antt =====
-- What read_from_socket takes from the script and schedules before it asks to be called again.
use msgbox.Prelude.{
  ℕ, ◌≤◌, ◌<◌, ◌≡◌, refl, sym, ap, ◌∙◌, append_assoc, append-nil, ◌++◌, List, [], ◌∷◌, Option, none,
  some, ◌==◌, length, take, ltb, ◌&&◌, arith, Bool-cases, inl, inr,
}
use msgbox.Cstructs.{Cstructs}
use msgbox.Types.{Conn, msg_tcp, Event, Header, msg_type_close, header_len}
use msgbox.Libc.{Libc}
use msgbox.State.{
  State, Response, done, fail, syscall, Call, answer_with, record_call, err_conn_reset,
  err_would_block, PendingCall,
}
use msgbox.Status.{remote_address_seen, new_conn_status_buffer}
use msgbox.Receive.{
  switch_type, read_header, header_peeked, finish_header, tcp_header_read, tcp_seen, read_tcp,
  udp_seen, udp_received, udp_switched, udp_header_read, read_udp, consumed, consume_header,
  read_from_socket,
}
use msgbox.Receive.Body.{
  from_peer, Took, TookSome, Extends, remote_address_seen-script, remote_address_seen-Extends,
  deliver-Took, switch_type-Took, read_body-Took,
}

module _ ⦃cs : Cstructs⦄ ⦃os : Libc⦄ where
  consumed-script :
      (peeked : List ℕ) (call : Call) (script : List Response) (s : State)
      → length (consumed peeked (answer_with call script s)).1.script ≤ length script
  consumed-script peeked call [] s = omega arith
  consumed-script peeked call (done a ∷ rest) s = omega arith
  consumed-script peeked call (fail e ∷ rest) s = omega arith

  consume_header-script :
      (c : Conn) (peeked : List ℕ) (s : State)
      → length (consume_header c peeked s).1.script ≤ length s.script
  unfolding syscall
  consume_header-script c peeked s = elim (Bool-cases (c.protocol_type == msg_tcp)) [
    | inl tcp ↦ rw tcp (consumed-script peeked _ s.script s)
    | inr udp ↦ rw udp (omega arith)
  ]

  consumed-callbacks :
      (peeked : List ℕ) (call : Call) (script : List Response) (s : State)
      → (consumed peeked (answer_with call script s)).1.immediate_callbacks ≡ s.immediate_callbacks
  consumed-callbacks peeked call [] s = refl
  consumed-callbacks peeked call (done a ∷ rest) s = refl
  consumed-callbacks peeked call (fail e ∷ rest) s = refl

  consume_header-callbacks :
      (c : Conn) (peeked : List ℕ) (s : State)
      → (consume_header c peeked s).1.immediate_callbacks ≡ s.immediate_callbacks
  unfolding syscall
  consume_header-callbacks c peeked s = elim (Bool-cases (c.protocol_type == msg_tcp)) [
    | inl tcp ↦ rw tcp (consumed-callbacks peeked _ s.script s)
    | inr udp ↦ rw udp refl
  ]

  header_peeked-Took :
      (n p : ℕ) (call : Call) (script : List Response) (base : List PendingCall) (s : State)
      → length script ≤ n
      → Extends base s
      → TookSome n base (header_peeked p (answer_with call script s))
  unfolding header_peeked finish_header
  header_peeked-Took n p call [] base s h x = tt
  header_peeked-Took n p call (done a ∷ rest) base s h x =
      let s1 = record_call call rest s in
      let bytes = take header_len a.bytes in
      elim (Bool-cases (ltb 0 (length bytes) && ltb (length bytes) header_len)) [
        | inl part ↦ rw part tt
        | inr not_part ↦ elim (Bool-cases (length bytes == 0)) [
          | inl ended ↦ rw (not_part, ended) tt
          | inr whole ↦
              rw (not_part, whole)
                (
                  omega (arith, consume_header-script (s1.conn_at p) bytes s1),
                  (x.0, consume_header-callbacks (s1.conn_at p) bytes s1 ∙ x.1),
                )
        ]
      ]
  header_peeked-Took n p call (fail e ∷ rest) base s h x = elim (Bool-cases (e == err_conn_reset)) [
    | inl reset ↦ rw reset tt
    | inr other ↦ elim (Bool-cases (e == err_would_block)) [
      | inl block ↦ rw (other, block) tt
      | inr bad ↦ rw (other, bad) tt
    ]
  ]

  read_header-Took :
      (n p : ℕ) (base : List PendingCall) (s : State)
      → length s.script ≤ n
      → Extends base s
      → TookSome n base (read_header p s)
  unfolding read_header syscall
  read_header-Took n p base s h x = header_peeked-Took n p _ s.script base s h x

  tcp_header_read-Took :
      (n p st : ℕ) (base : List PendingCall) (r : Option Header × State)
      → TookSome n base r
      → Took n p base (tcp_header_read p st r)
  unfolding tcp_header_read new_conn_status_buffer
  tcp_header_read-Took n p st base (none, s) t = tt
  tcp_header_read-Took n p st base (some h, s) (less, x) =
      elim (Bool-cases (h.message_type == msg_type_close)) [
        | inl c ↦ rw c tt
        | inr o ↦
            rw o (read_body-Took n p st h base (new_conn_status_buffer st h s) (omega arith) x)
      ]

  tcp_seen-Took :
      (n p : ℕ) (base : List PendingCall) (r : ℕ × State)
      → length r.1.script ≤ n
      → Extends base r.1
      → Took n p base (tcp_seen p r)
  unfolding tcp_seen
  tcp_seen-Took n p base (st, s) h x = elim (Bool-cases ((s.status_at st).waiting_num_bytes == 0)) [
    | inl start ↦
        rw start
          (tcp_header_read-Took n p st base (read_header p s) (read_header-Took n p base s h x))
    | inr more ↦ rw more (read_body-Took n p st _ base s h x)
  ]

  udp_seen-Took :
      (n p : ℕ) (event : Event) (h : Header) (bytes : List ℕ) (base : List PendingCall)
      (r : ℕ × State)
      → length r.1.script < n
      → Extends base r.1
      → Took n p base (udp_seen p event h bytes r)
  unfolding udp_seen
  udp_seen-Took n p event h bytes base (st, s) less x = deliver-Took n p event _ st h base s less x

  udp_received-Took :
      (n p : ℕ) (event : Event) (h : Header) (call : Call) (script : List Response)
      (base : List PendingCall) (s : State)
      → length script < n
      → Extends base s
      → Took n p base (udp_received p event h (answer_with call script s))
  unfolding udp_received
  udp_received-Took n p event h call [] base s less x = tt
  udp_received-Took n p event h call (fail e ∷ rest) base s less x = tt
  udp_received-Took n p event h call (done a ∷ rest) base s less (xs, e) =
      let s1 = from_peer p a (record_call call rest s) in
      let (ys, seen) = remote_address_seen-Extends p s1 in
      udp_seen-Took n p event h _ base (remote_address_seen p s1)
        (omega (arith, ap length (remote_address_seen-script p s1)))
        (xs ++ ys, seen ∙ ap (λ (zs : List PendingCall). zs ++ ys) e ∙ append_assoc base xs ys)

  udp_switched-Took :
      (n p : ℕ) (h : Header) (base : List PendingCall) (r : Option Event × State)
      → TookSome n base r
      → Took n p base (udp_switched p h r)
  unfolding udp_switched syscall
  udp_switched-Took n p h base (none, s) t = tt
  udp_switched-Took n p h base (some event, s) (less, x) =
      udp_received-Took n p event h _ s.script base s less x

  udp_header_read-Took :
      (n p : ℕ) (base : List PendingCall) (r : Option Header × State)
      → TookSome n base r
      → Took n p base (udp_header_read p r)
  unfolding udp_header_read
  udp_header_read-Took n p base (none, s) t = tt
  udp_header_read-Took n p base (some h, s) (less, x) =
      udp_switched-Took n p h base (switch_type p h s) (switch_type-Took n p h base s less x)

  -- If a read may be repeated at once, it has taken an answer from the script and has scheduled a
  -- callback for the conn.
  pub read_from_socket-Took :
      (p : ℕ) (s : State) → Took (length s.script) p s.immediate_callbacks (read_from_socket p s)
  unfolding read_from_socket read_tcp read_udp
  read_from_socket-Took p s = elim (Bool-cases ((s.conn_at p).protocol_type == msg_tcp)) [
    | inr udp ↦ rw udp (
        udp_header_read-Took (length s.script) p s.immediate_callbacks (read_header p s) (
          read_header-Took (length s.script) p s.immediate_callbacks s (omega arith)
            ([], sym (append-nil s.immediate_callbacks))))
    | inl tcp ↦ elim (Bool-cases (s.conn_at p).for_listening) [
      | inl listening ↦ rw (tcp, listening) tt
      | inr connected ↦
          rw (tcp, connected)
            (tcp_seen-Took (length s.script) p s.immediate_callbacks (remote_address_seen p s)
              (omega (arith, ap length (remote_address_seen-script p s)))
              (remote_address_seen-Extends p s))
    ]
  ]

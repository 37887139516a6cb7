-- ===== src/Receive/Datagram.antt =====
-- A udp message: its header is looked at, and then the whole datagram is taken.
use msgbox.Prelude.{
  ℕ, ◌+◌, ◌<◌, ◌≡◌, refl, ap, ◌∙◌, Bool, true, false, List, [], ◌∷◌, ◌++◌, Option, some, ◌==◌,
  length, take, take_all, length-append, arith, upd_self,
}
use msgbox.Cstructs.{Cstructs}
use msgbox.Types.{Address, Conn, address_of_conn, Event, Header, MsgData, msg_udp, header_len}
use msgbox.Libc.{Libc}
use msgbox.Wire.{encode_header}
use msgbox.Wire.RoundTrip.{length-encode_header}
use msgbox.State.{
  State, PendingCall, free_nothing, Response, done, syscall, answer_with, sys_recvfrom, set_conn,
  record_call,
}
use msgbox.State.Callbacks.{send_callback}
use msgbox.Status.{remote_address_seen}
use msgbox.Receive.{
  read_from_socket, udp_header_read, udp_switched, udp_received, udp_seen, udp_data, deliver,
}
use msgbox.Receive.Piece.{announced, remote_address_seen-known}
use msgbox.Receive.Peek.{
  Switched, datagram, datagram_comes, looked_at, owed, read_from_socket-udp, read_header-udp,
  switch_type-Switched, udp_address, udp_payload,
}

module _ ⦃cs : Cstructs⦄ ⦃os : Libc⦄ where
  -- The end of read_from_socket for a datagram.
  abbrev from_peer : ℕ → ℕ → ℕ → State → State
  from_peer p ip port s = set_conn p (record (s.conn_at p) { remote_ip = ip; remote_port = port }) s

  deliver-open :
      (p st : ℕ) (event : Event) (d : MsgData) (h : Header) (s : State)
      → h.message_type < 2
      → let r = deliver p event d st h s in
        (r.0 ≡ true)
        × (r.1.immediate_callbacks
            ≡ s.immediate_callbacks
              ++ (record { conn = p; event = event; payload = d; to_free = free_nothing }) ∷ [])
        × (r.1.conn_at p ≡ record (s.conn_at p) { reply_context = 0 })
  unfolding deliver send_callback
  deliver-open p st event d h s plain =
      let not_reply : (h.message_type == 2) ≡ false = ground arith in
      rw (deliver, not_reply)
        (refl, cs.add_item_lem s.immediate_callbacks _, upd_self s.conn_at p _)

  udp_data-datagram :
      (h : Header) (payload : List ℕ) (a : Address)
      → h.num_bytes ≡ length payload
      → udp_data h (take (h.num_bytes + header_len) (encode_header h ++ payload)) a
        ≡ udp_payload h payload a
  unfolding encode_header
  udp_data-datagram h payload a size =
      ap (λ (bytes : List ℕ). udp_data h bytes a)
        (take_all (h.num_bytes + header_len) (encode_header h ++ payload)
          (omega (arith, length-append (encode_header h) payload, length-encode_header h)))

  udp_switched_done :
      (p : ℕ) (h : Header) (payload : List ℕ) (ip port : ℕ) (s s' : State)
      → Switched p h (looked_at p h (done (datagram h payload ip port)) s) s'
      → udp_switched p h (some (announced h), s')
        ≡ udp_seen p
            (announced h)
            h
            (take (h.num_bytes + header_len) (encode_header h ++ payload))
            (remote_address_seen p (
              from_peer p ip port (
                record_call (sys_recvfrom (s'.conn_at p).socket (h.num_bytes + header_len)) [] s')))
  unfolding udp_switched udp_received syscall
  udp_switched_done p h payload ip port s s' w =
      ap
        (λ (script : List Response).
          udp_received p (announced h) h
            (answer_with (sys_recvfrom (s'.conn_at p).socket (h.num_bytes + header_len)) script s'))
        w.script

  -- A udp datagram with a one-way message or a request, from a peer with a known status, whose
  -- header announces the length of its payload, is read at once: one callback, msg_request
  -- for a request and msg_message for the other, with the whole payload and the peer's address is
  -- scheduled, and the conn has that address, no reply context, and owes a reply only to a
  -- request.
  pub read_datagram :
      (p st : ℕ) (h : Header) (payload : List ℕ) (ip port : ℕ) (s : State)
      → (s.conn_at p).protocol_type ≡ msg_udp
      → s.conn_status (udp_address ip port) ≡ some st
      → h.message_type < 2
      → h.reply_id < 65536
      → h.num_bytes < 4294967296
      → h.num_bytes ≡ length payload
      → let r = read_from_socket p (datagram_comes h payload ip port s) in
        (r.0 ≡ true)
        × (r.1.immediate_callbacks
            ≡ s.immediate_callbacks
              ++ (record {
                conn = p;
                event = announced h;
                payload = udp_payload h payload (udp_address ip port);
                to_free = free_nothing;
              })
                ∷ [])
        × (r.1.conn_at p ≡ record (s.conn_at p) {
          remote_ip = ip;
          remote_port = port;
          reply_id = owed h;
          reply_context = 0;
        })
  unfolding udp_header_read udp_seen
  read_datagram p st h payload ip port s udp known plain w2 w3 size =
      let next = done (datagram h payload ip port) in
      let s1 : State = looked_at p h next s in
      let own1 : s1.conn_at p ≡ record (s.conn_at p) { reply_id = h.reply_id } =
        upd_self s.conn_at p _ in
      let (s2, switched, w) =
        switch_type-Switched p h s1 plain (ap (λ (c : Conn). c.reply_id) own1) in
      let s3 : State =
        from_peer p ip port
          (record_call (sys_recvfrom (s2.conn_at p).socket (h.num_bytes + header_len)) [] s2) in
      let own3 : s3.conn_at p
          ≡ record (s.conn_at p) { remote_ip = ip; remote_port = port; reply_id = owed h } =
        upd_self s2.conn_at p _
        ∙ ap (λ (c : Conn). record c { remote_ip = ip; remote_port = port })
            (w.own ∙ ap (λ (c : Conn). record c { reply_id = owed h }) own1) in
      let address : address_of_conn (s3.conn_at p) ≡ udp_address ip port =
        ap address_of_conn own3
        ∙ ap (λ (n : ℕ). record { ip = ip; port = port; protocol_type = n }) udp in
      let seen : remote_address_seen p s3 ≡ (st, s3) = remote_address_seen-known p st s3 (
        ap (λ (f : Address → Option ℕ). f (address_of_conn (s3.conn_at p))) w.conn_status
        ∙ ap s.conn_status address
        ∙ known) in
      let event = announced h in
      let d = udp_payload h payload (udp_address ip port) in
      let path : read_from_socket p (datagram_comes h payload ip port s)
          ≡ deliver p event d st h s3 =
        read_from_socket-udp p (datagram_comes h payload ip port s) udp
        ∙ ap (udp_header_read p) (read_header-udp p h next s udp (omega arith) w2 w3)
        ∙ ap (udp_switched p h) switched
        ∙ udp_switched_done p h payload ip port s s2 w
        ∙ ap (udp_seen p event h (take (h.num_bytes + header_len) (encode_header h ++ payload)))
            seen
        ∙ ap (λ (d : MsgData). deliver p event d st h s3)
            (udp_data-datagram h payload (address_of_conn (s3.conn_at p)) size
              ∙ ap (udp_payload h payload) address) in
      let (goes_on, calls, conn) = deliver-open p st event d h s3 plain in
      (
        ap (λ (r : Bool × State). r.0) path ∙ goes_on,
        ap (λ (r : Bool × State). r.1.immediate_callbacks) path
            ∙ calls
            ∙ ap
                (λ (xs : List PendingCall).
                  xs
                  ++ (record { conn = p; event = event; payload = d; to_free = free_nothing }) ∷ [])
                w.immediate_callbacks,
        ap (λ (r : Bool × State). r.1.conn_at p) path
            ∙ conn
            ∙ ap (λ (c : Conn). record c { reply_context = 0 }) own3,
      )

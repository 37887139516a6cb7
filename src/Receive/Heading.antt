-- ===== src/Receive/Heading.antt =====
-- The header of a tcp message, from its first bytes to the look at its type.
use msgbox.Prelude.{
  ℕ, ◌<◌, ◌≡◌, ◌≢◌, refl, ap, ◌∙◌, false, List, [], ◌∷◌, some, ◌==◌, length, drop, arith,
  append-nil,
}
use msgbox.Cstructs.{Cstructs}
use msgbox.Types.{
  Conn, address_of_conn, Header, msg_tcp, msg_type_close, msg_connection_closed, header_len,
}
use msgbox.Libc.{Libc}
use msgbox.Wire.{encode_header}
use msgbox.Wire.RoundTrip.{decode-encode_header_self}
use msgbox.State.{State, Response, syscall, sys_recv, sys_peek, set_conn, record_call}
use msgbox.Status.{remote_address_seen, local_disconnect, new_conn_status_buffer}
use msgbox.Receive.{
  read_header, finish_header, overwrite, consume_header, consumed, read_body, read_tcp,
  read_from_socket, tcp_header_read, tcp_seen,
}
use msgbox.Receive.Piece.{arrived, remote_address_seen-known}

-- A tcp connection between two messages.
pub record Idle (p st : ℕ) (s : State) : Type 0 where
  pub tcp : (s.conn_at p).protocol_type ≡ msg_tcp
  pub connected : (s.conn_at p).for_listening ≡ false
  pub known : s.conn_status (address_of_conn (s.conn_at p)) ≡ some st
  pub ready : (s.status_at st).waiting_num_bytes ≡ 0

-- The header can be looked at and then taken; after it come these answers.
abbrev pub begin : List ℕ → List Response → State → State
begin hdr rest s = record s { script = arrived hdr ∷ arrived hdr ∷ rest }

drop_all : (xs : List ℕ) → drop (length xs) xs ≡ []
drop_all [] = refl
drop_all (x ∷ xs) = drop_all xs

overwrite_self : (xs : List ℕ) → overwrite xs xs ≡ xs
overwrite_self xs = rw (drop_all xs) (append-nil xs)

-- After the two calls.
abbrev pub header_taken : ℕ → List Response → Header → State → State
header_taken p rest h s =
    let c = s.conn_at p in
    record (set_conn p (record c { reply_id = h.reply_id }) s) {
      script = rest;
      calls = sys_recv c.socket header_len ∷ sys_peek c.socket header_len ∷ s.calls;
    }

-- After the first of them.
abbrev peeked : ℕ → List ℕ → List Response → State → State
peeked p hdr rest s = record_call (sys_peek (s.conn_at p).socket header_len) rest (begin hdr rest s)

module _ ⦃cs : Cstructs⦄ ⦃os : Libc⦄ where
  consume_header-tcp :
      (c : Conn) (bytes : List ℕ) (s : State)
      → c.protocol_type ≡ msg_tcp
      → consume_header c bytes s ≡ consumed bytes (syscall (sys_recv c.socket header_len) s)
  consume_header-tcp c bytes s e = ground arith

  read_header-begin :
      (p : ℕ) (h : Header) (rest : List Response) (s : State)
      → (s.conn_at p).protocol_type ≡ msg_tcp
      → h.message_type < 65536
      → h.reply_id < 65536
      → h.num_bytes < 4294967296
      → read_header p (begin (encode_header h) rest s) ≡ (some h, header_taken p rest h s)
  unfolding read_header syscall encode_header
  read_header-begin p h rest s tcp w1 w2 w3 =
      ap (finish_header p) (
        consume_header-tcp (s.conn_at p) (encode_header h)
          (peeked p (encode_header h) (arrived (encode_header h) ∷ rest) s) tcp)
      ∙ ap (λ (x : Header). (some x, header_taken p rest x s))
          (decode-encode_header_self h w1 w2 w3)

  read_from_socket-tcp :
      (p : ℕ) (s : State)
      → (s.conn_at p).protocol_type ≡ msg_tcp
      → (s.conn_at p).for_listening ≡ false
      → read_from_socket p s ≡ tcp_seen p (remote_address_seen p s)
  unfolding read_from_socket read_tcp
  read_from_socket-tcp p s e f = rw (read_from_socket, e, f)

  tcp_seen-idle :
      (p st : ℕ) (s : State)
      → (s.status_at st).waiting_num_bytes ≡ 0
      → tcp_seen p (st, s) ≡ tcp_header_read p st (read_header p s)
  unfolding tcp_seen
  tcp_seen-idle p st s e = rw (tcp_seen, e)

  tcp_header_read-open :
      (p st : ℕ) (h : Header) (s : State)
      → h.message_type ≢ msg_type_close
      → tcp_header_read p st (some h, s) ≡ read_body p st h (new_conn_status_buffer st h s)
  unfolding tcp_header_read
  tcp_header_read-open p st h s ne =
      let other : (h.message_type == msg_type_close) ≡ false = ground arith in
      rw (tcp_header_read, other)

  tcp_header_read-close :
      (p st : ℕ) (h : Header) (s : State)
      → h.message_type ≡ msg_type_close
      → tcp_header_read p st (some h, s) ≡ (false, local_disconnect p msg_connection_closed s)
  unfolding tcp_header_read
  tcp_header_read-close p st h s e = rw (tcp_header_read, e)

  -- A header between two messages is read.
  read_from_socket-open :
      (p st : ℕ) (h : Header) (rest : List Response) (s : State)
      → Idle p st s
      → h.message_type < 65536
      → h.reply_id < 65536
      → h.num_bytes < 4294967296
      → read_from_socket p (begin (encode_header h) rest s)
        ≡ tcp_header_read p st (some h, header_taken p rest h s)
  read_from_socket-open p st h rest s idle w1 w2 w3 =
      let s1 = begin (encode_header h) rest s in
      read_from_socket-tcp p s1 idle.tcp idle.connected
      ∙ ap (tcp_seen p) (remote_address_seen-known p st s1 idle.known)
      ∙ tcp_seen-idle p st s1 idle.ready
      ∙ ap (tcp_header_read p st) (read_header-begin p h rest s idle.tcp w1 w2 w3)

  -- A header between two messages: the buffer is made and recv is called for the payload.
  pub read_from_socket-begin :
      (p st : ℕ) (h : Header) (rest : List Response) (s : State)
      → Idle p st s
      → h.message_type < 65536
      → h.reply_id < 65536
      → h.num_bytes < 4294967296
      → h.message_type ≢ msg_type_close
      → read_from_socket p (begin (encode_header h) rest s)
        ≡ read_body p st h (new_conn_status_buffer st h (header_taken p rest h s))
  read_from_socket-begin p st h rest s idle w1 w2 w3 ne =
      read_from_socket-open p st h rest s idle w1 w2 w3
      ∙ tcp_header_read-open p st h (header_taken p rest h s) ne

  -- A close message between two messages: the connection ends at once.
  pub read_from_socket-close :
      (p st : ℕ) (h : Header) (rest : List Response) (s : State)
      → Idle p st s
      → h.message_type ≡ msg_type_close
      → h.reply_id < 65536
      → h.num_bytes < 4294967296
      → read_from_socket p (begin (encode_header h) rest s)
        ≡ (false, local_disconnect p msg_connection_closed (header_taken p rest h s))
  read_from_socket-close p st h rest s idle close w2 w3 =
      read_from_socket-open p st h rest s idle (omega arith) w2 w3
      ∙ tcp_header_read-close p st h (header_taken p rest h s) close

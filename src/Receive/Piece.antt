-- ===== src/Receive/Piece.antt =====
-- One piece of a tcp message that is under way.
use msgbox.Prelude.{
  ℕ, ◌-◌, ◌≤◌, ◌<◌, ◌≡◌, ap, ◌∙◌, Bool, false, List, [], ◌∷◌, ◌++◌, none, some, ◌==◌, if◌then◌else◌,
  length, arith, take_all,
}
use msgbox.Cstructs.{Cstructs}
use msgbox.Types.{
  Event, msg_request, msg_message, msg_type_request, address_of_conn, Header, host, MsgData,
  msg_tcp,
}
use msgbox.Libc.{Libc}
use msgbox.State.{State, Response, done, syscall, sys_recv, set_status, record_call}
use msgbox.Status.{remote_address_seen, status_of_conn}
use msgbox.Receive.{
  complete, pending, continue_recv, bytes_received, receive_bytes, read_body, body_read, read_tcp,
  read_from_socket,
}

-- What a recv gives when these bytes have arrived.
abbrev pub arrived : List ℕ → Response
arrived bytes =
    done (record { value = length bytes; bytes = bytes; ip = 0; port = 0; revents = [] })

abbrev pub arrive : List ℕ → State → State
arrive bytes s = record s { script = arrived bytes ∷ [] }

-- The total_buffer of a message with this header, once these bytes are in it.
abbrev pub partial : Header → List ℕ → MsgData
partial h got = record {
  num_bytes = h.num_bytes;
  buffer =
      some (record { reply_context = none; remote_address = none; header = host h; bytes = got });
}

-- The event that a message announces that is no reply: a request, or a one-way message.
abbrev pub announced : Header → Event
announced h = if h.message_type == msg_type_request then msg_request else msg_message

-- A tcp connection in the middle of a message: `got` has come, `left` bytes are missing.
pub record Awaits (p st : ℕ) (h : Header) (got : List ℕ) (left : ℕ) (s : State) : Type 0 where
  pub tcp : (s.conn_at p).protocol_type ≡ msg_tcp
  pub connected : (s.conn_at p).for_listening ≡ false
  pub known : s.conn_status (address_of_conn (s.conn_at p)) ≡ some st
  pub holds : (s.status_at st).total_buffer ≡ partial h got
  pub waits : (s.status_at st).waiting_num_bytes ≡ left

abbrev pub concat : List (List ℕ) → List ℕ
concat [] = []
concat (xs ∷ xss) = xs ++ concat xss

abbrev pub NonEmpty : List (List ℕ) → Type 0
NonEmpty [] = Unit {0}
NonEmpty (xs ∷ xss) = (0 < length xs) × NonEmpty xss

module _ ⦃cs : Cstructs⦄ ⦃os : Libc⦄ where
  pub remote_address_seen-known :
      (p st : ℕ) (s : State)
      → s.conn_status (address_of_conn (s.conn_at p)) ≡ some st
      → remote_address_seen p s ≡ (st, s)
  unfolding remote_address_seen status_of_conn
  remote_address_seen-known p st s e = rw (e, remote_address_seen)

  -- While a message is under way, reading goes on with it.
  pub read_from_socket-Awaits :
      (p st left : ℕ) (h : Header) (got : List ℕ) (s : State)
      → Awaits p st h got left s
      → 0 < left
      → read_from_socket p s ≡ read_body p st h s
  unfolding read_from_socket read_tcp
  read_from_socket-Awaits p st left h got s a more =
      let waiting : (left == 0) ≡ false = ground arith in
      rw (a.tcp, a.connected, remote_address_seen-known p st s a.known, a.waits, waiting, a.holds)

  abbrev pub received : ℕ → ℕ → List ℕ → State → State
  received p st bytes s =
      set_status st (receive_bytes bytes (s.status_at st))
        (record_call (sys_recv (s.conn_at p).socket (s.status_at st).waiting_num_bytes) [] s)

  continue_recv-arrive :
      (p st : ℕ) (bytes : List ℕ) (s : State)
      → length bytes ≤ (s.status_at st).waiting_num_bytes
      → continue_recv p st (arrive bytes s)
        ≡ bytes_received p st bytes
            (record_call (sys_recv (s.conn_at p).socket (s.status_at st).waiting_num_bytes) [] s)
  unfolding continue_recv syscall
  continue_recv-arrive p st bytes s h =
      ap
        (λ bs.
          bytes_received p st bs
            (record_call (sys_recv (s.conn_at p).socket (s.status_at st).waiting_num_bytes) [] s))
        (take_all (s.status_at st).waiting_num_bytes bytes h)

  bytes_received-some :
      (p st : ℕ) (bytes : List ℕ) (s : State)
      → 0 < length bytes
      → bytes_received p st bytes s ≡ (
        if (s.status_at st).waiting_num_bytes - length bytes == 0 then complete else pending,
        set_status st (receive_bytes bytes (s.status_at st)) s,
      )
  unfolding bytes_received
  bytes_received-some p st bytes s h =
      let more : (length bytes == 0) ≡ false = ground arith in rw more

  -- The result and the state after a piece that does not end the stream.
  pub continue_recv-some :
      (p st : ℕ) (bytes : List ℕ) (s : State)
      → 0 < length bytes
      → length bytes ≤ (s.status_at st).waiting_num_bytes
      → continue_recv p st (arrive bytes s) ≡ (
        if (s.status_at st).waiting_num_bytes - length bytes == 0 then complete else pending,
        received p st bytes s,
      )
  continue_recv-some p st bytes s h k =
      continue_recv-arrive p st bytes s k ∙ bytes_received-some p st bytes _ h

  pub Awaits-arrive :
      (p st left : ℕ) (h : Header) (got piece : List ℕ) (s : State)
      → Awaits p st h got left s
      → Awaits p st h got left (arrive piece s)
  Awaits-arrive p st left h got piece s a = record {
    tcp = a.tcp;
    connected = a.connected;
    known = a.known;
    holds = a.holds;
    waits = a.waits;
  }

  -- A piece that does not complete the message.
  pub read_from_socket-pending :
      (p st left : ℕ) (h : Header) (got piece : List ℕ) (s : State)
      → Awaits p st h got left s
      → 0 < length piece
      → length piece < left
      → read_from_socket p (arrive piece s) ≡ (false, received p st piece s)
  unfolding read_body body_read
  read_from_socket-pending p st left h got piece s a nonempty short =
      let w : (s.status_at st).waiting_num_bytes ≡ left = a.waits in
      let more : ((s.status_at st).waiting_num_bytes - length piece == 0) ≡ false = ground arith in
      read_from_socket-Awaits p st left h got (arrive piece s)
        (Awaits-arrive p st left h got piece s a) (omega arith)
      ∙ ap (body_read p st h) (
          continue_recv-some p st piece s nonempty (omega arith)
          ∙ ap (λ (b : Bool). (if b then complete else pending, received p st piece s)) more)

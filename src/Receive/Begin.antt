-- ===== src/Receive/Begin.antt =====
-- The start of a tcp message: its header, and what follows when no payload is announced.
use msgbox.Prelude.{
  ℕ, ◌<◌, ◌≡◌, ◌≢◌, refl, ap, ◌∙◌, Bool, false, List, [], ◌∷◌, ◌++◌, ◌==◌, ◌&&◌, length, take,
  arith, upd_self,
}
use msgbox.Cstructs.{Cstructs}
use msgbox.Types.{Conn, address_of_conn, Header, msg_type_close, msg_connection_lost}
use msgbox.Libc.{Libc}
use msgbox.Wire.{encode_header}
use msgbox.State.{
  State, ConnStatus, PendingCall, free_conn, Answer, Response, done, fail, syscall, answer_with,
  sys_recv, record_call, err_would_block,
}
use msgbox.Status.{local_disconnect, message_buffer, new_conn_status_buffer, is_listening_udp}
use msgbox.Status.Disconnect.{end_call, local_disconnect-closes}
use msgbox.Receive.{
  continue_recv, body_received, bytes_received, read_body, body_read, read_from_socket, interrupted,
}
use msgbox.Receive.Piece.{Awaits, concat, NonEmpty}
use msgbox.Receive.Reassembly.{feed, feed-Awaits, message_call}
use msgbox.Receive.Heading.{begin, Idle, read_from_socket-begin, header_taken}

-- The state s1 after a header alone has come in the state s.
pub record Begun (p st : ℕ) (h : Header) (s s1 : State) : Type 0 where
  pub awaits : Awaits p st h [] h.num_bytes s1
  pub own : s1.conn_at p ≡ record (s.conn_at p) { reply_id = h.reply_id }
  pub immediate_callbacks : s1.immediate_callbacks ≡ s.immediate_callbacks
  pub timeouts : s1.timeouts ≡ s.timeouts
  pub stream : s1.stream ≡ s.stream
  pub contexts : (s1.status_at st).reply_contexts ≡ (s.status_at st).reply_contexts

module _ ⦃cs : Cstructs⦄ ⦃os : Libc⦄ where
  -- A message of one byte or more, of which only the header has come.
  pub read_from_socket-header :
      (p st : ℕ) (h : Header) (s : State)
      → Idle p st s
      → h.message_type < 65536
      → h.reply_id < 65536
      → h.num_bytes < 4294967296
      → h.message_type ≢ msg_type_close
      → Begun p st h s
          (read_from_socket p (begin (encode_header h) (fail err_would_block ∷ []) s)).1
  unfolding read_body body_read continue_recv syscall new_conn_status_buffer
  read_from_socket-header p st h s idle w1 w2 w3 open' =
      let s1 : State = header_taken p (fail err_would_block ∷ []) h s in
      let own : s1.conn_at p ≡ record (s.conn_at p) { reply_id = h.reply_id } =
        upd_self s.conn_at p _ in
      let buffer : (new_conn_status_buffer st h s1).status_at st ≡ record (s.status_at st) {
        total_buffer = message_buffer h;
        waiting_num_bytes = h.num_bytes;
      } =
        upd_self s.status_at st _ in
      rw (read_from_socket-begin p st h (fail err_would_block ∷ []) s idle w1 w2 w3 open') (record {
        awaits = record {
          tcp = ap (λ (c : Conn). c.protocol_type) own ∙ idle.tcp;
          connected = ap (λ (c : Conn). c.for_listening) own ∙ idle.connected;
          known = ap (λ (c : Conn). s.conn_status (address_of_conn c)) own ∙ idle.known;
          holds = ap (λ (x : ConnStatus). x.total_buffer) buffer;
          waits = ap (λ (x : ConnStatus). x.waiting_num_bytes) buffer;
        };
        own = own;
        immediate_callbacks = refl;
        timeouts = refl;
        stream = refl;
        contexts = ap (λ (x : ConnStatus). x.reply_contexts) buffer;
      })

  -- A one-way tcp message or a tcp request of at least one byte is received between two messages:
  -- first its header with nothing behind it, then the payload, in pieces that are not empty, each
  -- read as it comes. This schedules one callback, msg_request for a request and msg_message for
  -- the other, with the whole payload, for every header within the field widths and every way to
  -- cut the payload, and the connection is then ready for the next message.
  pub read_message :
      (p st : ℕ) (h : Header) (pieces : List (List ℕ)) (s : State)
      → Idle p st s
      → h.message_type < 2
      → h.reply_id < 65536
      → h.num_bytes < 4294967296
      → 0 < h.num_bytes
      → NonEmpty pieces
      → length (concat pieces) ≡ h.num_bytes
      → let s1 = (read_from_socket p (begin (encode_header h) (fail err_would_block ∷ []) s)).1 in
        ((feed p pieces s1).immediate_callbacks
          ≡ s.immediate_callbacks ++ message_call p h (concat pieces) ∷ [])
        × (((feed p pieces s1).status_at st).waiting_num_bytes ≡ 0)
  read_message p st h pieces s idle plain w2 w3 more ne whole =
      let b = read_from_socket-header p st h s idle (omega arith) w2 w3 (omega arith) in
      let (calls, ready) =
        feed-Awaits p st h.num_bytes h [] pieces _ b.awaits more ne whole plain in
      (
        calls
            ∙ ap (λ (xs : List PendingCall). xs ++ message_call p h (concat pieces) ∷ [])
                b.immediate_callbacks,
        ready,
      )

  continue_recv-nothing :
      (p st : ℕ) (a : Answer) (rest : List Response) (s : State)
      → (s.status_at st).waiting_num_bytes ≡ 0
      → s.script ≡ done a ∷ rest
      → continue_recv p st s ≡ (
        interrupted,
        local_disconnect p msg_connection_lost
            (record_call (sys_recv (s.conn_at p).socket (s.status_at st).waiting_num_bytes) rest s),
      )
  unfolding continue_recv syscall bytes_received
  continue_recv-nothing p st a rest s e script =
      ap
        (λ (r : List Response).
          body_received p st
            (answer_with (sys_recv (s.conn_at p).socket (s.status_at st).waiting_num_bytes) r s))
        script
      ∙ ap
          (λ (n : ℕ).
            bytes_received p st (take n a.bytes) (
              record_call (sys_recv (s.conn_at p).socket (s.status_at st).waiting_num_bytes) rest
                s))
          e

  -- A tcp message with an empty payload that is no close message, received between two messages, is
  -- not delivered if the recv of no bytes that follows its header succeeds: the result 0 is taken
  -- for the end of the stream, and the one callback scheduled is msg_connection_lost.
  pub read_empty_message :
      (p st : ℕ) (h : Header) (a : Answer) (rest : List Response) (s : State)
      → Idle p st s
      → h.message_type < 65536
      → h.reply_id < 65536
      → h.num_bytes ≡ 0
      → h.message_type ≢ msg_type_close
      → let r = read_from_socket p (begin (encode_header h) (done a ∷ rest) s) in
        (r.0 ≡ false)
        × (r.1.immediate_callbacks
            ≡ s.immediate_callbacks ++ end_call p msg_connection_lost (free_conn p) ∷ [])
  unfolding read_body body_read new_conn_status_buffer
  read_empty_message p st h a rest s idle w1 w2 empty nc =
      let s1 : State = new_conn_status_buffer st h (header_taken p (done a ∷ rest) h s) in
      let none_left : (s1.status_at st).waiting_num_bytes ≡ 0 =
        ap (λ (x : ConnStatus). x.waiting_num_bytes) (upd_self s.status_at st _) ∙ empty in
      let path =
        read_from_socket-begin p st h (done a ∷ rest) s idle w1 w2 (omega arith) nc
        ∙ ap (body_read p st h) (continue_recv-nothing p st a rest s1 none_left refl) in
      let s2 : State =
        record_call (sys_recv (s1.conn_at p).socket (s1.status_at st).waiting_num_bytes) rest s1 in
      let own : s2.conn_at p ≡ record (s.conn_at p) { reply_id = h.reply_id } =
        upd_self s.conn_at p _ in
      let stream : is_listening_udp (s2.conn_at p) ≡ false =
        ap is_listening_udp own
        ∙ ap (λ (b : Bool). b && (s.conn_at p).protocol_type == 2) idle.connected in
      (
        ap (λ (r : Bool × State). r.0) path,
        ap (λ (r : Bool × State). r.1.immediate_callbacks) path
            ∙ (local_disconnect-closes p msg_connection_lost s2 stream).0,
      )

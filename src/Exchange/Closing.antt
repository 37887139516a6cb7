-- ===== src/Exchange/Closing.antt =====
-- A disconnect at one end, and what the other end makes of it.
use msgbox.Prelude.{ℕ, ◌≤◌, ◌≡◌, refl, ap, ◌∙◌, Bool, false, List, [], ◌∷◌, ◌++◌, arith, upd_self}
use msgbox.Cstructs.{Cstructs}
use msgbox.Types.{Conn, msg_tcp, msg_connection_closed}
use msgbox.Libc.{Libc}
use msgbox.State.{State, PendingCall, Response, free_conn, sys_close, sys_peek, sys_recv}
use msgbox.Status.{local_disconnect, is_listening_udp}
use msgbox.Status.Disconnect.{end_call, local_disconnect-closes, local_disconnect-stream}
use msgbox.Receive.{read_from_socket}
use msgbox.Receive.Heading.{Idle, begin, header_taken, read_from_socket-close}
use msgbox.Send.Complete.{room}
use msgbox.Api.{msg_disconnect}
use msgbox.Api.Closing.{close_header, msg_disconnect-Sent}
use msgbox.Exchange.{Arrival, Arrival-split}

tcp-is_listening_udp : (c : Conn) → c.protocol_type ≡ msg_tcp → is_listening_udp c ≡ false
tcp-is_listening_udp c tcp = ground arith

module _ ⦃cs : Cstructs⦄ ⦃os : Libc⦄ where
  -- The one callback of an end.
  ends :
      (p : ℕ) (xs : List PendingCall) (s : State)
      → (s.conn_at p).protocol_type ≡ msg_tcp
      → s.immediate_callbacks ≡ xs
      → (local_disconnect p msg_connection_closed s).immediate_callbacks
        ≡ xs ++ end_call p msg_connection_closed (free_conn p) ∷ []
  ends p xs s tcp same =
      (local_disconnect-closes p msg_connection_closed s (tcp-is_listening_udp (s.conn_at p) tcp)).0
      ∙ ap (λ ys. ys ++ end_call p msg_connection_closed (free_conn p) ∷ []) same

  -- Disconnecting a tcp connection with room on the stream schedules one msg_connection_closed at
  -- this end, and when the bytes arrive at a peer between two messages, its next read schedules
  -- one msg_connection_closed there, calls close on the peer's socket, and is not to be repeated;
  -- after each callback its conn is freed.
  pub msg_disconnect-heard :
      (p q st : ℕ) (hdr : List ℕ) (rest : List Response) (s r : State)
      → (s.conn_at p).protocol_type ≡ msg_tcp
      → 8 ≤ room s.script
      → Idle q st r
      → Arrival
          (s.stream (s.conn_at p).socket)
          ((msg_disconnect p s).stream (s.conn_at p).socket)
          hdr
          []
      → let heard = read_from_socket q (begin hdr rest r) in
        ((msg_disconnect p s).immediate_callbacks
          ≡ s.immediate_callbacks ++ end_call p msg_connection_closed (free_conn p) ∷ [])
        × (heard.0 ≡ false)
        × (heard.1.immediate_callbacks
            ≡ r.immediate_callbacks ++ end_call q msg_connection_closed (free_conn q) ∷ [])
        × (heard.1.calls
            ≡ sys_close (r.conn_at q).socket
              ∷ sys_recv (r.conn_at q).socket 8
              ∷ sys_peek (r.conn_at q).socket 8
              ∷ r.calls)
  msg_disconnect-heard p q st hdr rest s r tcp fits idle arrival =
      let (s1, sent, ended) = msg_disconnect-Sent p s tcp fits in
      let (first, _) = Arrival-split _ _ hdr [] [] close_header arrival (
        ap (λ (u : State). u.stream (s.conn_at p).socket) ended
        ∙ ap (λ (f : ℕ → List ℕ). f (s.conn_at p).socket)
            (local_disconnect-stream p msg_connection_closed s1)
        ∙ sent.stream) in
      let taken = header_taken q rest close_header r in
      let path =
        ap (λ bytes. read_from_socket q (begin bytes rest r)) first
        ∙ read_from_socket-close q st close_header rest r idle refl (omega arith) (omega arith) in
      let own : taken.conn_at q ≡ record (r.conn_at q) { reply_id = 0 } = upd_self r.conn_at q _ in
      let still : (taken.conn_at q).protocol_type ≡ msg_tcp =
        ap (λ (c : Conn). c.protocol_type) own ∙ idle.tcp in
      let (calls, _, closed, _) =
        local_disconnect-closes q msg_connection_closed taken
          (tcp-is_listening_udp (taken.conn_at q) still) in
      (
        ap (λ (u : State). u.immediate_callbacks) ended
            ∙ ends p s.immediate_callbacks s1
                (ap (λ f. (f p).protocol_type) sent.kept.conn_at ∙ tcp)
                sent.kept.immediate_callbacks,
        ap (λ (x : Bool × State). x.0) path,
        ap (λ (x : Bool × State). x.1.immediate_callbacks) path ∙ calls,
        ap (λ (x : Bool × State). x.1.calls) path
            ∙ closed
            ∙ ap (λ (c : Conn). sys_close c.socket ∷ taken.calls) own,
      )

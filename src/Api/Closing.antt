-- ===== src/Api/Closing.antt =====
-- How msg_unlisten and msg_disconnect end a connection.
use msgbox.Prelude.{
  ℕ, ◌≤◌, refl, none, arith, ◌≡◌, ap, ◌∙◌, true, false, List, [], ◌∷◌, ◌++◌, some, upd_self,
}
use msgbox.Cstructs.{Cstructs}
use msgbox.Types.{
  Conn, Header, unset, new_data_space, msg_tcp, msg_type_close, msg_connection_closed,
  msg_listening_ended,
}
use msgbox.Wire.{encode_header}
use msgbox.Send.Complete.{room}
use msgbox.Api.Sending.{IsMessage, header_for, Sent, send_data-Sent}
use msgbox.Libc.{Libc}
use msgbox.State.{
  State, Answer, Response, done, syscall, sys_close, set_conn, answer_with, record_call, free_conn,
}
use msgbox.Status.{local_disconnect, is_listening_udp}
use msgbox.Status.Disconnect.{end_call, local_disconnect-closes}
use msgbox.Api.{msg_unlisten, listening_closed, msg_disconnect, report_failed}

nothing-IsMessage : IsMessage (new_data_space 0) []
nothing-IsMessage = record {
  size = refl;
  fits = omega arith;
  buffer = record { reply_context = none; remote_address = none; header = unset; bytes = [] };
  holds = refl;
  written = refl;
}

-- What msg_disconnect sends.
abbrev pub close_header : Header
close_header = header_for msg_type_close 0 []

module _ ⦃cs : Cstructs⦄ ⦃os : Libc⦄ where
  -- After the close of msg_unlisten.
  abbrev unlistened : ℕ → List Response → State → State
  unlistened p rest s =
      record_call (sys_close (s.conn_at p).socket) rest
        (set_conn p (record (s.conn_at p) { for_listening = false }) s)

  msg_unlisten-closed :
      (p : ℕ) (a : Answer) (rest : List Response) (s : State)
      → (s.conn_at p).for_listening ≡ true
      → s.script ≡ done a ∷ rest
      → msg_unlisten (some p) s ≡ local_disconnect p msg_listening_ended (unlistened p rest s)
  unfolding msg_unlisten listening_closed syscall
  msg_unlisten-closed p a rest s e script = rw e (
      ap
        (λ (r : List Response). listening_closed p (
          answer_with (sys_close (s.conn_at p).socket) r
            (set_conn p (record (s.conn_at p) { for_listening = false }) s)))
        script)

  -- Ending a tcp or udp listener whose close succeeds sends one msg_listening_ended, after which the
  -- conn is freed, and calls close on its socket twice.
  pub msg_unlisten-closes_twice :
      (p : ℕ) (a : Answer) (rest : List Response) (s : State)
      → (s.conn_at p).for_listening ≡ true
      → s.script ≡ done a ∷ rest
      → let s' = msg_unlisten (some p) s in
        let close = sys_close (s.conn_at p).socket in
        (s'.immediate_callbacks
          ≡ s.immediate_callbacks ++ end_call p msg_listening_ended (free_conn p) ∷ [])
        × (s'.calls ≡ close ∷ close ∷ s.calls)
  msg_unlisten-closes_twice p a rest s e script =
      let s1 = unlistened p rest s in
      let own : s1.conn_at p ≡ record (s.conn_at p) { for_listening = false } =
        upd_self s.conn_at p _ in
      let not_listening : is_listening_udp (s1.conn_at p) ≡ false = ap is_listening_udp own in
      let (calls, _, closed, _) = local_disconnect-closes p msg_listening_ended s1 not_listening in
      rw (msg_unlisten-closed p a rest s e script)
        (calls, closed ∙ ap (λ (c : Conn). sys_close c.socket ∷ s1.calls) own)

  -- A close message goes out, and then the connection ends.
  pub msg_disconnect-Sent :
      (p : ℕ) (s : State)
      → (s.conn_at p).protocol_type ≡ msg_tcp
      → 8 ≤ room s.script
      → (s1 : State) × Sent p (encode_header close_header ++ []) s s1
        × (msg_disconnect p s ≡ local_disconnect p msg_connection_closed s1)
  unfolding msg_disconnect report_failed
  msg_disconnect-Sent p s tcp fits =
      let (s1, e, sent) =
        send_data-Sent p msg_type_close 0 (new_data_space 0) [] s tcp nothing-IsMessage fits in
      (s1, sent, rw e refl)

-- ===== src/Open/Listening.antt =====
-- What becomes of the tcp conn of msg_listen, by the answers of bind and listen.
use msgbox.Prelude.{ℕ, ◌≡◌, refl, sym, ap, ◌∙◌, true, List, [], ◌∷◌, codes, subst}
use msgbox.Cstructs.{Cstructs}
use msgbox.Types.{Address, Conn, no_context, msg_tcp}
use msgbox.Libc.{Libc}
use msgbox.Address.{address_as_str}
use msgbox.Address.Key.{IsAddress}
use msgbox.State.{syscall, State, pollin, Response, Answer, done, fail, sys_bind, sys_listen}
use msgbox.State.Callbacks.{send_callback}
use msgbox.Open.{open_address, msg_listen, listened}
use msgbox.Open.Made.{new_conn, ready_to_open, own-ready_to_open, open_socket-ready}
use msgbox.Open.Ends.{listening_call, Refused, Placed, ListenEnd, open_failed-Refused}
use msgbox.Open.Called.{listened_on, bind_fail}

module _ ⦃cs : Cstructs⦄ ⦃os : Libc⦄ where
  bind-ListenEnd :
      (a : Address) (callback sock : ℕ) (b l : Response) (script : List Response) (s : State)
      → a.protocol_type ≡ msg_tcp
      → ListenEnd a callback sock s
          (open_address s.next_conn
            (ready_to_open a no_context callback true sock (b ∷ l ∷ script) s))
          b
          l
  unfolding listened syscall send_callback
  bind-ListenEnd a callback sock (fail e) l script s tcp =
      let u = ready_to_open a no_context callback true sock [] s in
      let own = own-ready_to_open a no_context callback true sock [] s in
      subst (Refused (codes "bind") e s)
        (sym (
          bind_fail s.next_conn (l ∷ script) u (ap (λ (c : Conn). c.protocol_type) own ∙ tcp) e
            (ap (λ (c : Conn). c.for_listening) own)))
        (open_failed-Refused (codes "bind") _ s _ refl refl refl)
  bind-ListenEnd a callback sock (done b) (fail e) script s tcp =
      let u = ready_to_open a no_context callback true sock [] s in
      let own = own-ready_to_open a no_context callback true sock [] s in
      subst (Refused (codes "listen") e s)
        (sym (
          listened_on s.next_conn (fail e ∷ script) u (ap (λ (c : Conn). c.protocol_type) own ∙ tcp)
            b (ap (λ (c : Conn). c.for_listening) own)))
        (open_failed-Refused (codes "listen") _ s _ refl refl refl)
  bind-ListenEnd a callback sock (done b) (done l) script s tcp =
      let u = ready_to_open a no_context callback true sock [] s in
      let own = own-ready_to_open a no_context callback true sock [] s in
      subst
        (λ s'.
          Placed a (new_conn no_context callback true) sock pollin (listening_call s.next_conn ∷ [])
            (sys_listen sock ∷ sys_bind sock a.ip a.port ∷ []) s s')
        (sym (
          listened_on s.next_conn (done l ∷ script) u (ap (λ (c : Conn). c.protocol_type) own ∙ tcp)
            b (ap (λ (c : Conn). c.for_listening) own)))
        (record {
          conns = cs.add_item_lem _ _;
          poll_fds = cs.add_item_lem _ _;
          callbacks = cs.add_item_lem _ _;
          own = own;
          calls =
              ap
                (λ (c : Conn).
                  sys_listen c.socket ∷ sys_bind c.socket c.remote_ip c.remote_port ∷ u.calls)
                own;
        })

  -- A program listens at the text of a tcp address within its field widths, and socket, the two
  -- calls of fcntl and setsockopt succeed. By the answers of bind and listen: if both succeed, the
  -- new conn, with the address and the socket, is put at the end of conns and its descriptor,
  -- polled for reading, at the end of poll_fds, one msg_listening is scheduled, and the calls made
  -- are socket, fcntl twice, setsockopt, bind and listen, in this order and with that socket and
  -- address; if one of the two fails, one msg_error with its name and the text of its error is
  -- scheduled, after which the conn is freed, and both arrays are as before.
  pub msg_listen-ListenEnd :
      (a : Address) (callback : ℕ) (x f1 f2 o : Answer) (b l : Response) (script : List Response)
      (s : State)
      → IsAddress a
      → a.protocol_type ≡ msg_tcp
      → ListenEnd a callback x.value s
          (msg_listen
            (address_as_str a)
            callback
            (record s { script = done x ∷ done f1 ∷ done f2 ∷ done o ∷ b ∷ l ∷ script }))
          b
          l
  unfolding msg_listen
  msg_listen-ListenEnd a callback x f1 f2 o b l script s w tcp =
      subst (λ s'. ListenEnd a callback x.value s s' b l)
        (sym (open_socket-ready a no_context callback true x f1 f2 o (b ∷ l ∷ script) s w tcp))
        (bind-ListenEnd a callback x.value b l script s tcp)

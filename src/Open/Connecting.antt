-- ===== src/Open/Connecting.antt =====
-- What becomes of the tcp conn of msg_connect, by the answer of connect.
use msgbox.Prelude.{
  ℕ, ◌-◌, ◌≡◌, refl, sym, ap, ◌∙◌, false, List, [], ◌∷◌, ◌++◌, codes, inl, zero, suc, append-nil,
  ap₂, Bool-cases, subst, Option-cases, inr, get_elem?, length-append, arith, ◌||◌, ◌==◌, length,
}
use msgbox.Cstructs.{Cstructs}
use msgbox.Types.{address_of_conn, Address, Conn, msg_tcp}
use msgbox.Libc.{Libc}
use msgbox.Address.{address_as_str}
use msgbox.Address.Key.{IsAddress}
use msgbox.State.{
  err_in_progress, err_would_block, State, PollFd, pollin, pollout, PendingCall, Response, Answer,
  done, fail, Call, sys_connect,
}
use msgbox.State.Callbacks.{send_callback}
use msgbox.Status.{remote_address_seen, first_seen, add_status}
use msgbox.Status.Seen.{ready_call, remote_address_seen-new, remote_address_seen-old}
use msgbox.Poll.{set_conn_to_poll_mode, modify_at, with_events}
use msgbox.Open.{open_address, msg_connect}
use msgbox.Open.Made.{new_conn, ready_to_open, own-ready_to_open, open_socket-ready}
use msgbox.Open.Ends.{first_ready, Refused, Placed, ConnectEnd, open_failed-Refused}
use msgbox.Open.Called.{connect_done, connect_in_progress, connect_fail}

modify_at-cons :
    (g : PollFd → PollFd) (x : PollFd) (xs : List PollFd) (i : ℕ)
    → modify_at g (x ∷ xs) (suc i) ≡ x ∷ modify_at g xs i
modify_at-cons g x xs i = elim (Option-cases (get_elem? xs i)) [
  | inl e ↦ rw (e, modify_at)
  | inr (y, e) ↦ rw (e, modify_at)
]

modify_at-last :
    (g : PollFd → PollFd) (xs : List PollFd) (x : PollFd) (n : ℕ)
    → n ≡ length xs
    → modify_at g (xs ++ x ∷ []) n ≡ xs ++ g x ∷ []
modify_at-last g [] x zero e = refl
modify_at-last g [] x (suc n) e = absurd (omega arith)
modify_at-last g (y ∷ ys) x zero e = absurd (omega arith)
modify_at-last g (y ∷ ys) x (suc n) e =
    modify_at-cons g y (ys ++ x ∷ []) n ∙ ap (λ zs. y ∷ zs) (modify_at-last g ys x n (omega arith))

module _ ⦃cs : Cstructs⦄ ⦃os : Libc⦄ where
  first_seen-Placed :
      (a : Address) (c : Conn) (sock : ℕ) (asked : List Call) (s u : State)
      → Placed a c sock pollin [] asked s u
      → Placed a c sock pollin (ready_call s.next_conn a ∷ []) asked s (first_seen s.next_conn u)
  unfolding first_seen add_status send_callback
  first_seen-Placed a c sock asked s u w = record {
    conns = w.conns;
    poll_fds = w.poll_fds;
    callbacks =
        cs.add_item_lem _ _
        ∙ ap
            (λ (xs : List PendingCall).
              xs ++ ready_call s.next_conn (address_of_conn (u.conn_at s.next_conn)) ∷ [])
            (w.callbacks ∙ append-nil s.immediate_callbacks)
        ∙ ap
            (λ (d : Conn). s.immediate_callbacks ++ ready_call s.next_conn (address_of_conn d) ∷ [])
            w.own;
    own = w.own;
    calls = w.calls;
  }

  remote_address_seen-Placed :
      (a : Address) (c : Conn) (sock : ℕ) (asked : List Call) (s u : State)
      → Placed a c sock pollin [] asked s u
      → u.conn_status ≡ s.conn_status
      → Placed a c sock pollin
          (first_ready s.next_conn a (s.conn_status a))
          asked
          s
          (remote_address_seen s.next_conn u).1
  remote_address_seen-Placed a c sock asked s u w same =
      let at_a : u.conn_status (address_of_conn (u.conn_at s.next_conn)) ≡ s.conn_status a =
        ap (λ (d : Conn). u.conn_status (address_of_conn d)) w.own ∙ ap (λ f. f a) same in
      elim (Option-cases (s.conn_status a)) [
        | inr (st, known) ↦ rw known (
            subst (Placed a c sock pollin [] asked s)
              (ap (λ (r : ℕ × State). r.1)
                (sym (remote_address_seen-old s.next_conn st u (at_a ∙ known))))
              w)
        | inl new ↦ rw new (
            subst (Placed a c sock pollin (ready_call s.next_conn a ∷ []) asked s)
              (ap (λ (r : ℕ × State). r.1)
                (sym (remote_address_seen-new s.next_conn u (at_a ∙ new))))
              (first_seen-Placed a c sock asked s u w))
      ]

  connect-ConnectEnd :
      (a : Address) (context callback sock : ℕ) (b : Response) (script : List Response) (s : State)
      → a.protocol_type ≡ msg_tcp
      → length s.conns ≡ length s.poll_fds
      → ConnectEnd a context callback sock s
          (open_address s.next_conn (ready_to_open a context callback false sock (b ∷ script) s))
          b
  unfolding set_conn_to_poll_mode
  connect-ConnectEnd a context callback sock (done b) script s tcp matched =
      let u = ready_to_open a context callback false sock [] s in
      let own = own-ready_to_open a context callback false sock [] s in
      let call = sys_connect sock a.ip a.port in
      subst
        (Placed a (new_conn context callback false) sock pollin
          (first_ready s.next_conn a (s.conn_status a)) (call ∷ []) s)
        (sym (
          connect_done s.next_conn script u (ap (λ (c : Conn). c.protocol_type) own ∙ tcp) b
            (ap (λ (c : Conn). c.for_listening) own)))
        (remote_address_seen-Placed a (new_conn context callback false) sock (call ∷ []) s _
          (record {
            conns = cs.add_item_lem _ _;
            poll_fds = cs.add_item_lem _ _;
            callbacks = sym (append-nil _);
            own = own;
            calls = ap (λ (c : Conn). sys_connect c.socket c.remote_ip c.remote_port ∷ u.calls) own;
          })
          refl)
  connect-ConnectEnd a context callback sock (fail e) script s tcp matched =
      let u = ready_to_open a context callback false sock [] s in
      let own = own-ready_to_open a context callback false sock [] s in
      let still = ap (λ (c : Conn). c.protocol_type) own ∙ tcp in
      let connecting = ap (λ (c : Conn). c.for_listening) own in
      elim (Bool-cases (e == err_in_progress || e == err_would_block)) [
        | inr ended ↦ rw ended (
            subst (Refused (codes "connect") e s)
              (sym (connect_fail s.next_conn script u still e connecting ended))
              (open_failed-Refused (codes "connect") _ s _ refl refl refl))
        | inl going ↦ rw going (
            subst
              (Placed a (new_conn context callback false) sock pollout []
                (sys_connect sock a.ip a.port ∷ []) s)
              (sym (connect_in_progress s.next_conn script u still e connecting going))
              (record {
                conns = cs.add_item_lem _ _;
                poll_fds =
                    ap₂ (λ fds n. modify_at (with_events pollout) fds (n - 1)) (cs.add_item_lem _ _)
                      (ap length (cs.add_item_lem _ _))
                    ∙ modify_at-last (with_events pollout) s.poll_fds _ _
                        (omega (arith, length-append s.conns (s.next_conn ∷ []), matched));
                callbacks = sym (append-nil _);
                own = own;
                calls =
                    ap (λ (c : Conn). sys_connect c.socket c.remote_ip c.remote_port ∷ u.calls) own;
              }))
      ]

  -- A program connects to the text of a tcp address within its field widths, conns and poll_fds are
  -- equally long, and socket, the two calls of fcntl and setsockopt succeed. By the answer of
  -- connect: if it succeeds, the new conn and its descriptor, polled for reading, are put at the
  -- end of the arrays, and one msg_connection_ready is scheduled if the address has no status, and
  -- no callback if it has one; if it is in progress, they are put there with the descriptor polled
  -- for writing and no callback; if it fails otherwise, one msg_error with connect and the text of
  -- the error is scheduled, after which the conn is freed, and both arrays are as before.
  pub msg_connect-ConnectEnd :
      (a : Address) (context callback : ℕ) (x f1 f2 o : Answer) (b : Response)
      (script : List Response) (s : State)
      → IsAddress a
      → a.protocol_type ≡ msg_tcp
      → length s.conns ≡ length s.poll_fds
      → ConnectEnd a context callback x.value s
          (msg_connect
            (address_as_str a)
            callback
            context
            (record s { script = done x ∷ done f1 ∷ done f2 ∷ done o ∷ b ∷ script }))
          b
  unfolding msg_connect
  msg_connect-ConnectEnd a context callback x f1 f2 o b script s w tcp matched =
      subst (λ s'. ConnectEnd a context callback x.value s s' b)
        (sym (open_socket-ready a context callback false x f1 f2 o (b ∷ script) s w tcp))
        (connect-ConnectEnd a context callback x.value b script s tcp matched)

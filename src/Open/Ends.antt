-- ===== src/Open/Ends.antt =====
-- The ends of msg_listen and msg_connect for the new conn.
use msgbox.Prelude.{
  ℕ, ◌-◌, ◌≡◌, ap, ◌∙◌, true, false, List, [], ◌∷◌, ◌++◌, Option, none, some, codes, remove_at,
  remove_at-last, length-append, arith, Bool, ◌||◌, ◌==◌, length,
}
use msgbox.Cstructs.{Cstructs}
use msgbox.Types.{Address, Conn, set_address, no_context, no_data, msg_error, msg_listening}
use msgbox.Libc.{Libc, snprintf}
use msgbox.State.{
  err_in_progress, err_would_block, State, PollFd, pollin, pollout, PendingCall, Response, done,
  fail, Call, free_conn, free_nothing, sys_socket, sys_fcntl, sys_setsockopt, sys_bind, sys_listen,
  sys_connect,
}
use msgbox.State.Callbacks.{
  send_callback, send_callback_error, send_callback_os_error, msg_new_data,
}
use msgbox.Status.Seen.{ready_call}
use msgbox.Poll.{remove_last_polling_conn}
use msgbox.Open.{open_failed}
use msgbox.Open.Made.{placed, new_conn}

abbrev pub error_call : ℕ → List ℕ → PendingCall
error_call p text = record {
  conn = p;
  event = msg_error;
  payload = msg_new_data text;
  to_free = free_conn p;
}

abbrev pub listening_call : ℕ → PendingCall
listening_call p = record {
  conn = p;
  event = msg_listening;
  payload = no_data;
  to_free = free_nothing;
}

-- Only an address without a status gets a msg_connection_ready.
abbrev pub first_ready : ℕ → Address → Option ℕ → List PendingCall
first_ready p a none = ready_call p a ∷ []
first_ready p a (some st) = []

remove_last :
    {A : Type 0} (xs ys : List A) (x : A) → ys ≡ xs ++ x ∷ [] → remove_at ys (length ys - 1) ≡ xs
remove_last xs ys x e =
    ap (λ zs. remove_at zs (length zs - 1)) e
    ∙ ap (remove_at (xs ++ x ∷ [])) (omega (arith, length-append xs (x ∷ [])))
    ∙ remove_at-last xs x

module _ ⦃cs : Cstructs⦄ ⦃os : Libc⦄ where
  -- Refused with one error, after which the conn is freed, and the arrays as before.
  pub record Refused (name : List ℕ) (e : ℕ) (s s' : State) : Type 0 where
    pub conns : s'.conns ≡ s.conns
    pub poll_fds : s'.poll_fds ≡ s.poll_fds
    pub callbacks :
        s'.immediate_callbacks
        ≡ s.immediate_callbacks
          ++ error_call s.next_conn (snprintf 1024 (name ++ (codes ": " ++ os.strerror e))) ∷ []

  -- The conn stands at the end of the arrays, with the address and the socket, and these callbacks
  -- are scheduled.
  pub record Placed (a : Address) (c : Conn) (sock events : ℕ) (scheduled : List PendingCall)
      (asked : List Call) (s s' : State) : Type 0 where
    pub conns : s'.conns ≡ s.conns ++ s.next_conn ∷ []
    pub poll_fds :
        s'.poll_fds ≡ s.poll_fds ++ (record { fd = sock; events = events; revents = 0 }) ∷ []
    pub callbacks : s'.immediate_callbacks ≡ s.immediate_callbacks ++ scheduled
    pub own : s'.conn_at s.next_conn ≡ placed (set_address c a) sock s
    pub calls :
        s'.calls
        ≡ asked
          ++ (sys_setsockopt sock
              ∷ sys_fcntl sock
              ∷ sys_fcntl sock
              ∷ sys_socket a.protocol_type
              ∷ s.calls)

  -- By the answers of bind and listen.
  abbrev pub ListenEnd : Address → ℕ → ℕ → State → State → Response → Response → Type 0
  ListenEnd a callback sock s s' (done b) (done l) =
      Placed a (new_conn no_context callback true) sock pollin (listening_call s.next_conn ∷ [])
        (sys_listen sock ∷ sys_bind sock a.ip a.port ∷ []) s s'
  ListenEnd a callback sock s s' (done b) (fail e) = Refused (codes "listen") e s s'
  ListenEnd a callback sock s s' (fail e) l = Refused (codes "bind") e s s'

  -- By whether an error of connect says that it is in progress.
  abbrev pub ConnectFailed : Address → ℕ → ℕ → ℕ → ℕ → State → State → Bool → Type 0
  ConnectFailed a context callback sock e s s' true =
      Placed a (new_conn context callback false) sock pollout [] (sys_connect sock a.ip a.port ∷ [])
        s s'
  ConnectFailed a context callback sock e s s' false = Refused (codes "connect") e s s'

  -- By the answer of connect.
  abbrev pub ConnectEnd : Address → ℕ → ℕ → ℕ → State → State → Response → Type 0
  ConnectEnd a context callback sock s s' (done b) =
      Placed a (new_conn context callback false) sock pollin
        (first_ready s.next_conn a (s.conn_status a)) (sys_connect sock a.ip a.port ∷ []) s s'
  ConnectEnd a context callback sock s s' (fail e) =
      ConnectFailed a context callback sock e s s' (e == err_in_progress || e == err_would_block)

  pub open_failed-Refused :
      (name : List ℕ) (fd : PollFd) (s u : State)
      → u.conns ≡ cs.add_item s.conns s.next_conn
      → u.poll_fds ≡ cs.add_item s.poll_fds fd
      → u.immediate_callbacks ≡ s.immediate_callbacks
      → Refused name u.errno s (open_failed s.next_conn name u)
  unfolding open_failed remove_last_polling_conn send_callback_os_error send_callback_error
      send_callback
  open_failed-Refused name fd s u ec ep ei =
      let text = snprintf 1024 (name ++ (codes ": " ++ os.strerror u.errno)) in
      record {
        conns =
            cs.remove_item_lem _ _
            ∙ remove_last s.conns u.conns s.next_conn (ec ∙ cs.add_item_lem _ _);
        poll_fds =
            cs.remove_item_lem _ _
            ∙ remove_last s.poll_fds u.poll_fds fd (ep ∙ cs.add_item_lem _ _);
        callbacks =
            cs.add_item_lem _ _
            ∙ ap (λ (xs : List PendingCall). xs ++ error_call s.next_conn text ∷ []) ei;
      }

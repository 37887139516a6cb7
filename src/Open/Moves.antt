-- ===== src/Open/Moves.antt =====
-- The invariant of the state when a socket is opened.
use msgbox.Prelude.{
  ℕ, ◌-◌, ◌<◌, ◌≡◌, sym, ap, ◌∙◌, Bool, true, false, List, [], ◌∷◌, Option, none, some, ◌==◌, ◌&&◌,
  ◌||◌, not, codes, length, get_elem?, get_elem?-remove_at_last, arith, upd, upd_self, upd_ne,
  Bool-cases, inl, inr, if◌then◌else◌,
}
use msgbox.Cstructs.{Cstructs}
use msgbox.Types.{Conn, no_data, msg_listening, msg_tcp, new_connection}
use msgbox.Libc.{Libc}
use msgbox.Address.Parse.{parse_address_str}
use msgbox.State.{
  State, pollin, free_conn, free_nothing, Response, done, fail, Call, syscall, answer_with,
  record_call, sys_socket, sys_setsockopt, sys_bind, sys_connect, sys_listen, err_in_progress,
  err_would_block, set_conn,
}
use msgbox.State.Callbacks.{alloc_conn, send_callback_os_error}
use msgbox.Poll.{add_to_poll_fds, remove_last_polling_conn, mode_write}
use msgbox.Poll.Arrays.{Matched-remove_last}
use msgbox.Receive.{make_non_blocking}
use msgbox.Receive.Accept.{make_non_blocking-Closed}
use msgbox.Moves.Status.{
  syscall-Closed, send_callback-Closed, send_callback_error-Closed, send_callback_os_error-Closed,
  remote_address_seen-Closed,
}
use msgbox.Invariant.{IsSound}
use msgbox.Invariant.Moves.{IsSound-Closed, append_conn-IsSound, alloc_conn-IsSound}
use msgbox.Open.{
  open_failed, listened, address_opened, open_address, reuse_address, non_blocking_made,
  sockaddr_set, conn_allocated, socket_made, address_parsed, setup_sockaddr, open_socket,
}

-- A conn behind all that are in conns.
abbrev IsNew : ℕ → State → Type 0
IsNew p s = (i q : ℕ) → get_elem? s.conns i ≡ some q → q < p

set_conn_new-IsSound :
    (p : ℕ) (c : Conn) (s : State) → IsNew p s → IsSound s → IsSound (set_conn p c s)
set_conn_new-IsSound p c s new w =
    let old : (i q : ℕ) → get_elem? s.conns i ≡ some q → upd s.conn_at p c q ≡ s.conn_at q =
      λ i q at. upd_ne s.conn_at p c q (λ e. absurd (omega (arith, new i q at))) in
    record {
      matched = record {
        same_length = w.matched.same_length;
        indexed = λ i q at. ap (λ (x : Conn). x.index) (old i q at) ∙ w.matched.indexed i q at;
        polled = λ i q f at_c at_f.
            w.matched.polled i q f at_c at_f ∙ sym (ap (λ (x : Conn). x.socket) (old i q at_c));
      };
      allocated = w.allocated;
      status = w.status;
      ordered = w.ordered;
    }

module _ ⦃cs : Cstructs⦄ where
  remove_last_polling_conn-IsSound : (s : State) → IsSound s → IsSound (remove_last_polling_conn s)
  unfolding remove_last_polling_conn
  remove_last_polling_conn-IsSound s w =
      rw
        (
          cs.remove_item_lem s.conns (length s.conns - 1),
          cs.remove_item_lem s.poll_fds (length s.poll_fds - 1),
        )
        (record {
          matched = Matched-remove_last s.conn_at s.conns s.poll_fds w.matched;
          allocated = λ i p at. w.allocated i p (get_elem?-remove_at_last s.conns i at);
          status = w.status;
          ordered = w.ordered;
        })

module _ ⦃cs : Cstructs⦄ ⦃os : Libc⦄ where
  open_failed-IsSound :
      (p : ℕ) (name : List ℕ) (s : State) → IsSound s → IsSound (open_failed p name s)
  unfolding open_failed
  open_failed-IsSound p name s w =
      remove_last_polling_conn-IsSound (send_callback_os_error p name (free_conn p) s)
        (send_callback_os_error-Closed IsSound-Closed p name (free_conn p) s w)

  listened-IsSound : (p : ℕ) (r : Response × State) → IsSound r.1 → IsSound (listened p r)
  unfolding listened
  listened-IsSound p (fail e, s) w = open_failed-IsSound p (codes "listen") s w
  listened-IsSound p (done a, s) w =
      send_callback-Closed IsSound-Closed p msg_listening no_data free_nothing s w

  address_opened-IsSound :
      (p : ℕ) (r : Response × State) → IsSound r.1 → IsSound (address_opened p r)
  unfolding address_opened
  address_opened-IsSound p (done a, s) w =
      let c = s.conn_at p in
      let call = sys_listen c.socket in
      elim (Bool-cases c.for_listening) [
        | inr ours ↦ rw ours (remote_address_seen-Closed IsSound-Closed p s w)
        | inl server ↦ elim (Bool-cases (c.protocol_type == msg_tcp)) [
          | inl tcp ↦
              rw (server, tcp)
                (listened-IsSound p (syscall call s) (syscall-Closed IsSound-Closed call s w))
          | inr udp ↦
              rw (server, udp)
                (send_callback-Closed IsSound-Closed p msg_listening no_data free_nothing s w)
        ]
      ]
  address_opened-IsSound p (fail e, s) w =
      let c = s.conn_at p in
      elim (Bool-cases (
        not c.for_listening
        && (c.protocol_type == msg_tcp && (e == err_in_progress || e == err_would_block)))) [
          | inl waits ↦ rw waits (IsSound-Closed.mode (length s.conns - 1) mode_write s w)
          | inr bad ↦ rw bad (
              open_failed-IsSound p (if c.for_listening then codes "bind" else codes "connect") s w)
        ]

  open_address-IsSound : (p : ℕ) (s : State) → IsSound s → IsSound (open_address p s)
  unfolding open_address
  open_address-IsSound p s w =
      let c = s.conn_at p in
      let call : Call =
        if c.for_listening
        then sys_bind c.socket c.remote_ip c.remote_port
        else sys_connect c.socket c.remote_ip c.remote_port in
      address_opened-IsSound p (syscall call s) (syscall-Closed IsSound-Closed call s w)

  reuse_address-IsSound : (p : ℕ) (s : State) → IsSound s → IsSound (reuse_address p s)
  unfolding reuse_address
  reuse_address-IsSound p s w = elim (Bool-cases ((s.conn_at p).protocol_type == msg_tcp)) [
    | inl tcp ↦ rw tcp (syscall-Closed IsSound-Closed (sys_setsockopt (s.conn_at p).socket) s w)
    | inr udp ↦ rw udp w
  ]

  non_blocking_made-IsSound :
      (p : ℕ) (r : Option (List ℕ) × State) → IsSound r.1 → IsSound (non_blocking_made p r)
  unfolding non_blocking_made
  non_blocking_made-IsSound p (some name, s) w = open_failed-IsSound p name s w
  non_blocking_made-IsSound p (none, s) w =
      open_address-IsSound p (reuse_address p s) (reuse_address-IsSound p s w)

  sockaddr_set-IsSound : (p : ℕ) (r : Bool × State) → IsSound r.1 → IsSound (sockaddr_set p r)
  unfolding sockaddr_set
  sockaddr_set-IsSound p (false, s) w = w
  sockaddr_set-IsSound p (true, s) w =
      let socket = (s.conn_at p).socket in
      non_blocking_made-IsSound p (make_non_blocking socket s)
        (make_non_blocking-Closed {Q = IsSound} (syscall-Closed IsSound-Closed) socket s w)

  socket_made-IsSound :
      (p : ℕ) (call : Call) (script : List Response) (s : State)
      → IsNew p s
      → p < s.next_conn
      → IsSound s
      → IsSound (socket_made p (answer_with call script s)).1
  unfolding socket_made add_to_poll_fds
  socket_made-IsSound p call [] s new short w =
      send_callback_os_error-Closed IsSound-Closed p (codes "socket") (free_conn p)
        (answer_with call [] s).1 w
  socket_made-IsSound p call (fail e ∷ rest) s new short w =
      send_callback_os_error-Closed IsSound-Closed p (codes "socket") (free_conn p)
        (answer_with call (fail e ∷ rest) s).1 w
  socket_made-IsSound p call (done a ∷ rest) s new short w =
      let c : Conn = record (s.conn_at p) { socket = a.value; index = length s.conns } in
      let s1 = record_call call rest s in
      let own : upd s.conn_at p c p ≡ c = upd_self s.conn_at p c in
      append_conn-IsSound p (record { fd = a.value; events = pollin; revents = 0 })
        (set_conn p c s1) (ap (λ (x : Conn). x.index) own) (sym (ap (λ (x : Conn). x.socket) own))
        short (set_conn_new-IsSound p c s1 new w)

  address_parsed-IsSound :
      (p : ℕ) (r : Option (List ℕ) × Conn) (s : State)
      → IsNew p s
      → p < s.next_conn
      → IsSound s
      → IsSound (address_parsed p r s).1
  unfolding address_parsed syscall
  address_parsed-IsSound p (some msg, c) s new short w =
      send_callback_error-Closed IsSound-Closed p msg (free_conn p) (set_conn p c s)
        (set_conn_new-IsSound p c s new w)
  address_parsed-IsSound p (none, c) s new short w =
      socket_made-IsSound p (sys_socket c.protocol_type) s.script (set_conn p c s) new short
        (set_conn_new-IsSound p c s new w)

  pub open_socket-IsSound :
      (address : List ℕ) (conn_context callback : ℕ) (for_listening : Bool) (s : State)
      → IsSound s
      → IsSound (open_socket address conn_context callback for_listening s)
  unfolding open_socket conn_allocated alloc_conn setup_sockaddr
  open_socket-IsSound address conn_context callback for_listening s w =
      let c : Conn = record (new_connection conn_context callback) {
        for_listening = for_listening;
      } in
      let p = s.next_conn in
      let t : State = (alloc_conn c s).1 in
      sockaddr_set-IsSound p (setup_sockaddr address p t) (
        address_parsed-IsSound p (parse_address_str address (t.conn_at p)) t w.allocated
          (omega arith) (alloc_conn-IsSound c s w))

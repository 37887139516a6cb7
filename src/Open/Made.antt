-- ===== src/Open/Made.antt =====
-- A tcp conn on its way through open_socket, up to bind or connect, when every call succeeds.
use msgbox.Prelude.{
  ℕ, ◌≡◌, refl, ap, ◌∙◌, true, List, ◌∷◌, none, inl, upd_self, upd, Bool, ◌+◌, length,
}
use msgbox.Cstructs.{Cstructs}
use msgbox.Types.{Address, Conn, set_address, new_connection, msg_tcp}
use msgbox.Libc.{Libc}
use msgbox.Address.{address_as_str}
use msgbox.Address.Key.{IsAddress}
use msgbox.Address.Print.{parse_address_str-address_as_str}
use msgbox.State.{
  syscall, State, pollin, Response, Answer, done, Call, sys_socket, sys_fcntl, sys_setsockopt,
}
use msgbox.Address.Parse.{parse_address_str}
use msgbox.State.Callbacks.{alloc_conn}
use msgbox.Poll.{add_to_poll_fds}
use msgbox.Receive.{make_non_blocking}
use msgbox.Open.{
  open_socket, open_address, reuse_address, address_parsed, sockaddr_set, setup_sockaddr,
}

module _ ⦃cs : Cstructs⦄ ⦃os : Libc⦄ where
  abbrev pub placed : Conn → ℕ → State → Conn
  placed c sock t = record c { socket = sock; index = length t.conns }

  -- The conn p has a socket and its places in the arrays.
  abbrev with_socket : ℕ → Conn → ℕ → List Response → State → State
  with_socket p c sock script t = record t {
    script = script;
    conn_at = upd (upd t.conn_at p c) p (placed c sock t);
    conns = cs.add_item t.conns p;
    poll_fds = cs.add_item t.poll_fds (record { fd = sock; events = pollin; revents = 0 });
    calls = sys_socket c.protocol_type ∷ t.calls;
  }

  address_parsed-done :
      (p : ℕ) (c : Conn) (x : Answer) (script : List Response) (t : State)
      → address_parsed p (none, c) (record t { script = done x ∷ script })
        ≡ (true, with_socket p c x.value script t)
  unfolding address_parsed syscall add_to_poll_fds
  address_parsed-done p c x script t = rw (upd_self t.conn_at p c) refl

  sockaddr_set-done :
      (p : ℕ) (f1 f2 : Answer) (script : List Response) (u : State)
      → let k = (u.conn_at p).socket in
        sockaddr_set p (true, record u { script = done f1 ∷ done f2 ∷ script })
        ≡ open_address p (
            reuse_address p
              (record u { script = script; calls = sys_fcntl k ∷ sys_fcntl k ∷ u.calls }))
  unfolding sockaddr_set make_non_blocking syscall
  sockaddr_set-done p f1 f2 script u = refl

  abbrev pub new_conn : ℕ → ℕ → Bool → Conn
  new_conn context callback for_listening = record (new_connection context callback) {
    for_listening = for_listening;
  }

  abbrev allocated : Conn → State → State
  allocated c s = record s { conn_at = upd s.conn_at s.next_conn c; next_conn = s.next_conn + 1 }

  -- The state before bind or connect.
  abbrev pub opened : Address → ℕ → ℕ → Bool → ℕ → List Response → State → State
  opened a context callback for_listening sock script s =
      let c = new_conn context callback for_listening in
      let u = with_socket s.next_conn (set_address c a) sock script (allocated c s) in
      record u { calls = sys_fcntl sock ∷ sys_fcntl sock ∷ u.calls }

  -- The call of socket and both calls of fcntl succeed.
  open_socket-done :
      (a : Address) (context callback : ℕ) (b : Bool) (x f1 f2 : Answer) (script : List Response)
      (s : State)
      → IsAddress a
      → a.protocol_type ≡ msg_tcp
      → open_socket
          (address_as_str a)
          context
          callback
          b
          (record s { script = done x ∷ done f1 ∷ done f2 ∷ script })
        ≡ open_address s.next_conn
            (reuse_address s.next_conn (opened a context callback b x.value script s))
  unfolding open_socket setup_sockaddr alloc_conn
  open_socket-done a context callback b x f1 f2 script s w tcp =
      let p = s.next_conn in
      let c0 = new_conn context callback b in
      let c1 = set_address c0 a in
      let t = allocated c0 s in
      let given = done x ∷ done f1 ∷ done f2 ∷ script in
      let u = with_socket p c1 x.value (done f1 ∷ done f2 ∷ script) t in
      ap
        (λ (c : Conn).
          sockaddr_set p (
            address_parsed p (parse_address_str (address_as_str a) c)
              (record t { script = given })))
        (upd_self s.conn_at p c0)
      ∙ ap (λ r. sockaddr_set p (address_parsed p r (record t { script = given })))
          (parse_address_str-address_as_str a c0 w (inl tcp))
      ∙ ap (sockaddr_set p) (address_parsed-done p c1 x (done f1 ∷ done f2 ∷ script) t)
      ∙ sockaddr_set-done p f1 f2 script u
      ∙ ap
          (λ (c : Conn). open_address p (
            reuse_address p (record u {
              script = script;
              calls = sys_fcntl c.socket ∷ sys_fcntl c.socket ∷ u.calls;
            })))
          (upd_self (upd t.conn_at p c1) p (placed c1 x.value t))

  reuse_address-done :
      (p : ℕ) (o : Answer) (script : List Response) (u : State)
      → (u.conn_at p).protocol_type ≡ msg_tcp
      → reuse_address p (record u { script = done o ∷ script })
        ≡ record u { script = script; calls = sys_setsockopt (u.conn_at p).socket ∷ u.calls }
  unfolding reuse_address syscall
  reuse_address-done p o script u tcp = rw tcp refl

  -- After one more call and its answer.
  abbrev pub called : Call → ℕ → List Response → State → State
  called call e script u = record u { script = script; errno = e; calls = call ∷ u.calls }

  -- The state before bind or connect, behind setsockopt.
  abbrev pub ready_to_open : Address → ℕ → ℕ → Bool → ℕ → List Response → State → State
  ready_to_open a context callback b sock script s =
      called (sys_setsockopt sock) s.errno script (opened a context callback b sock script s)

  pub own-ready_to_open :
      (a : Address) (context callback : ℕ) (b : Bool) (sock : ℕ) (script : List Response)
      (s : State)
      → (ready_to_open a context callback b sock script s).conn_at s.next_conn
        ≡ placed (set_address (new_conn context callback b) a) sock s
  own-ready_to_open a context callback b sock script s =
      let p = s.next_conn in
      let c0 = new_conn context callback b in
      let c1 = set_address c0 a in upd_self (upd (upd s.conn_at p c0) p c1) p (placed c1 sock s)

  pub open_socket-ready :
      (a : Address) (context callback : ℕ) (b : Bool) (x f1 f2 o : Answer) (script : List Response)
      (s : State)
      → IsAddress a
      → a.protocol_type ≡ msg_tcp
      → open_socket
          (address_as_str a)
          context
          callback
          b
          (record s { script = done x ∷ done f1 ∷ done f2 ∷ done o ∷ script })
        ≡ open_address s.next_conn (ready_to_open a context callback b x.value script s)
  open_socket-ready a context callback b x f1 f2 o script s w tcp =
      let p = s.next_conn in
      let u = opened a context callback b x.value script s in
      let own = own-ready_to_open a context callback b x.value script s in
      open_socket-done a context callback b x f1 f2 (done o ∷ script) s w tcp
      ∙ ap (open_address p)
          (reuse_address-done p o script u (ap (λ (c : Conn). c.protocol_type) own ∙ tcp))
      ∙ ap (λ (c : Conn). open_address p (called (sys_setsockopt c.socket) s.errno script u)) own

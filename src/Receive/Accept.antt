-- ===== src/Receive/Accept.antt =====
-- A new incoming connection, made of the elementary changes.
use msgbox.Prelude.{
  ℕ, ◌<◌, ◌≡◌, refl, sym, ap, List, [], ◌∷◌, Option, none, some, ◌==◌, length, arith, Bool-cases,
  inl, inr, upd_self,
}
use msgbox.Cstructs.{Cstructs}
use msgbox.Types.{Conn, new_connection}
use msgbox.Libc.{Libc}
use msgbox.State.{
  State, sys_accept, Answer, Response, done, fail, Call, syscall, answer_with, record_call, PollFd,
  pollin, err_would_block,
}
use msgbox.State.Callbacks.{alloc_conn}
use msgbox.Poll.{add_to_poll_fds}
use msgbox.Receive.{
  set_flags, flags_set, make_non_blocking, add_accepted, made_non_blocking, accepted,
  accept_connection,
}
use msgbox.Moves.{Closed, append_conn}
use msgbox.Moves.Status.{send_callback_os_error-Closed, remote_address_seen-Closed}

-- fcntl, twice at most.
module _ {Q : State → Type 0}
    (called : (call : Call) (s : State) → Q s → Q (syscall call s).1) where
  flags_set-Closed : (r : Response × State) → Q r.1 → Q (flags_set r).1
  flags_set-Closed (done a, s) q = q
  flags_set-Closed (fail e, s) q = q

  set_flags-Closed : (sock : ℕ) (r : Response × State) → Q r.1 → Q (set_flags sock r).1
  set_flags-Closed sock (fail e, s) q = q
  set_flags-Closed sock (done a, s) q = flags_set-Closed _ (called _ s q)

  pub make_non_blocking-Closed : (sock : ℕ) (s : State) → Q s → Q (make_non_blocking sock s).1
  unfolding make_non_blocking
  make_non_blocking-Closed sock s q = set_flags-Closed sock _ (called _ s q)

module _ ⦃cs : Cstructs⦄ ⦃os : Libc⦄ {P : State → Type 0} (k : Closed P) where
  -- What is so while the new socket is prepared: the conns are those before the call of accept,
  -- which has used an answer.
  abbrev SinceAccept : State → State → Type 0
  SinceAccept s t = P t × ((t.conns ≡ s.conns) × (length t.script < length s.script))

  syscall-SinceAccept :
      (s : State) (call : Call) (t : State) → SinceAccept s t → SinceAccept s (syscall call t).1
  unfolding syscall
  syscall-SinceAccept s call t (h, (e, less)) =
      (k.called call t.script t refl h, answer_with-since call t.script t refl (e, less))
    where
      answer_with-since :
          (call : Call) (script : List Response) (t : State)
          → script ≡ t.script
          → (t.conns ≡ s.conns) × (length t.script < length s.script)
          → ((answer_with call script t).1.conns ≡ s.conns)
            × (length (answer_with call script t).1.script < length s.script)
      answer_with-since call [] t same (e, less) = (e, omega arith)
      answer_with-since call (done a ∷ rest) t same (e, less) = (e, omega (arith, ap length same))
      answer_with-since call (fail x ∷ rest) t same (e, less) = (e, omega (arith, ap length same))

  made_non_blocking-Closed :
      (p : ℕ) (a : Answer) (s : State) (r : Option (List ℕ) × State)
      → P s
      → SinceAccept s r.1
      → P (made_non_blocking p a r)
  unfolding made_non_blocking add_accepted alloc_conn add_to_poll_fds
  made_non_blocking-Closed p a s (some failing_fn, t) before (h, _) =
      send_callback_os_error-Closed k p failing_fn _ t h
  made_non_blocking-Closed p a s (none, t) before (h, (same, less)) =
      let c = t.conn_at p in
      let new_conn : Conn = record (new_connection c.conn_context c.callback) {
        socket = a.value;
        remote_ip = a.ip;
        remote_port = a.port;
        protocol_type = c.protocol_type;
        index = length t.conns;
      } in
      let q = t.next_conn in
      let t1 : State = (alloc_conn new_conn t).1 in
      let own : t1.conn_at q ≡ new_conn = upd_self t.conn_at q new_conn in
      let fd : PollFd = record { fd = a.value; events = pollin; revents = 0 } in
      remote_address_seen-Closed k q (append_conn q fd t1) (
        k.appended q fd s t1 same less (ap (λ (x : Conn). x.index) own)
          (sym (ap (λ (x : Conn). x.socket) own)) (omega arith) before (k.allocated new_conn t h))

  accepted-Closed :
      (p : ℕ) (call : Call) (script : List Response) (s : State)
      → script ≡ s.script
      → P s
      → P (accepted p (answer_with call script s))
  unfolding accepted
  accepted-Closed p call [] s same h =
      send_callback_os_error-Closed k p _ _ _ (k.called call [] s same h)
  accepted-Closed p call (fail e ∷ rest) s same h = elim (Bool-cases (e == err_would_block)) [
    | inl block ↦ rw block (k.called call (fail e ∷ rest) s same h)
    | inr bad ↦
        rw bad (send_callback_os_error-Closed k p _ _ _ (k.called call (fail e ∷ rest) s same h))
  ]
  accepted-Closed p call (done a ∷ rest) s same h =
      let s1 = record_call call rest s in
      made_non_blocking-Closed p a s (make_non_blocking a.value s1) h (
        make_non_blocking-Closed {Q = SinceAccept s} (syscall-SinceAccept s) a.value s1
          (k.called call (done a ∷ rest) s same h, (refl, omega (arith, ap length same))))

  pub accept_connection-Closed : (p : ℕ) (s : State) → P s → P (accept_connection p s)
  unfolding accept_connection syscall
  accept_connection-Closed p s h =
      accepted-Closed p (sys_accept (s.conn_at p).socket) s.script s refl h

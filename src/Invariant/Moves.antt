-- ===== src/Invariant/Moves.antt =====
-- The invariant under each elementary change.
use msgbox.Prelude.{
  ℕ, ◌+◌, ◌<◌, ◌≡◌, sym, ap, ◌∙◌, subst, List, [], ◌∷◌, some, length, get_elem?, arith, upd,
  upd_either, upd_ne, get_elem?-append_one, inl, inr,
}
use msgbox.Cstructs.{Cstructs}
use msgbox.Types.{Address, Conn}
use msgbox.State.{
  State, ConnStatus, PollFd, Call, Response, done, fail, answer_with, set_conn, set_status,
}
use msgbox.State.Callbacks.{alloc_conn}
use msgbox.Status.{add_status}
use msgbox.Timeouts.{add_timeout, udp_timeout}
use msgbox.Timeouts.Order.{Ordered, add_timeout-IsOrdered, Sorted-remove_at, UpTo-remove_at}
use msgbox.Poll.{PollMode, set_conn_to_poll_mode, remove_conn_at}
use msgbox.Poll.Arrays.{
  SamePlace, remove_conn_at-Removed, Matched-upd, Matched-append, set_conn_to_poll_mode-IsMatched,
  write_revents-Matched,
}
use msgbox.Poll.Invariant.{remove_conn_at-IsMatched, remove_and_fill-from}
use msgbox.Moves.{Closed, IsStatus, append_conn}
use msgbox.Invariant.{IsSound}

set_conn-IsSound :
    (p : ℕ) (c : Conn) (s : State)
    → SamePlace (s.conn_at p) c
    → IsSound s
    → IsSound (set_conn p c s)
set_conn-IsSound p c s e w = record {
  matched = Matched-upd s.conn_at p c s.conns s.poll_fds e w.matched;
  allocated = w.allocated;
  status = w.status;
  ordered = w.ordered;
}

set_status-IsSound :
    (st : ℕ) (x : ConnStatus) (s : State)
    → (IsStatus (s.status_at st) → IsStatus x)
    → IsSound s
    → IsSound (set_status st x s)
set_status-IsSound st x s keeps w = record {
  matched = w.matched;
  allocated = w.allocated;
  status = λ q. upd_either IsStatus s.status_at st x q (keeps (w.status st)) (w.status q);
  ordered = w.ordered;
}

remove_conn_at-IsSound : (i : ℕ) (s : State) → IsSound s → IsSound (remove_conn_at i s)
remove_conn_at-IsSound i s w =
    let r = remove_conn_at-Removed i s in
    record {
      matched = remove_conn_at-IsMatched i s w.matched;
      allocated = λ j p at.
          let (k, old) =
            remove_and_fill-from s.conns i j (ap (λ xs. get_elem? xs j) (sym r.conns) ∙ at) in
          rw (r.next_conn) (w.allocated k p old);
      status = λ st. rw (r.status_at) (w.status st);
      ordered = rw (r.now, r.timeouts) (w.ordered);
    }

set_conn_to_poll_mode-IsSound :
    (i : ℕ) (m : PollMode) (s : State) → IsSound s → IsSound (set_conn_to_poll_mode i m s)
unfolding set_conn_to_poll_mode
set_conn_to_poll_mode-IsSound i m s w = record {
  matched = set_conn_to_poll_mode-IsMatched i m s w.matched;
  allocated = w.allocated;
  status = w.status;
  ordered = w.ordered;
}

module _ ⦃cs : Cstructs⦄ where
  add_status-IsSound :
      (x : ConnStatus) (a : Address) (s : State)
      → IsStatus x
      → IsSound s
      → IsSound (add_status x a s)
  unfolding add_status
  add_status-IsSound x a s fit w = record {
    matched = w.matched;
    allocated = w.allocated;
    status = λ q. upd_either IsStatus s.status_at s.next_status x q fit (w.status q);
    ordered = w.ordered;
  }

  add_timeout-IsSound :
      (p st reply_id : ℕ) (s : State) → IsSound s → IsSound (add_timeout p st reply_id s)
  unfolding add_timeout
  add_timeout-IsSound p st reply_id s w = record {
    matched = w.matched;
    allocated = w.allocated;
    status = w.status;
    ordered = add_timeout-IsOrdered p st reply_id s w.ordered;
  }

  remove_item-IsSound :
      (i : ℕ) (s : State)
      → IsSound s
      → IsSound (record s { timeouts = cs.remove_item s.timeouts i })
  remove_item-IsSound i s w = record {
    matched = w.matched;
    allocated = w.allocated;
    status = w.status;
    ordered = subst (Ordered s.now) (sym (cs.remove_item_lem s.timeouts i)) (record {
      sorted = Sorted-remove_at 0 i s.timeouts w.ordered.sorted;
      near = UpTo-remove_at (s.now + udp_timeout) i s.timeouts w.ordered.near;
    });
  }

  pub alloc_conn-IsSound : (c : Conn) (s : State) → IsSound s → IsSound (alloc_conn c s).1
  unfolding alloc_conn
  alloc_conn-IsSound c s w =
      let old : (i p : ℕ)
          → get_elem? s.conns i ≡ some p
          → upd s.conn_at s.next_conn c p ≡ s.conn_at p =
        λ i p at.
          upd_ne s.conn_at s.next_conn c p (λ e. absurd (omega (arith, w.allocated i p at))) in
      record {
        matched = record {
          same_length = w.matched.same_length;
          indexed = λ i p at. ap (λ (x : Conn). x.index) (old i p at) ∙ w.matched.indexed i p at;
          polled = λ i p f at_c at_f.
              w.matched.polled i p f at_c at_f ∙ sym (ap (λ (x : Conn). x.socket) (old i p at_c));
        };
        allocated = λ i p at. omega (arith, w.allocated i p at);
        status = w.status;
        ordered = w.ordered;
      }

  pub append_conn-IsSound :
      (p : ℕ) (fd : PollFd) (t : State)
      → (t.conn_at p).index ≡ length t.conns
      → fd.fd ≡ (t.conn_at p).socket
      → p < t.next_conn
      → IsSound t
      → IsSound (append_conn p fd t)
  append_conn-IsSound p fd t index socket short w =
      rw (cs.add_item_lem t.conns p, cs.add_item_lem t.poll_fds fd)
        (record {
          matched = Matched-append t.conn_at p fd t.conns t.poll_fds index socket w.matched;
          allocated = λ i q at. elim (get_elem?-append_one t.conns p i at) [
            | inl old ↦ w.allocated i q old
            | inr (_, own) ↦ omega arith
          ];
          status = w.status;
          ordered = w.ordered;
        })

  answer_with-IsSound :
      (call : Call) (script : List Response) (s : State)
      → IsSound s
      → IsSound (answer_with call script s).1
  answer_with-IsSound call [] s w = w
  answer_with-IsSound call (done a ∷ rest) s w = w
  answer_with-IsSound call (fail e ∷ rest) s w = w

  pub IsSound-Closed : Closed IsSound
  IsSound-Closed = record {
    called = λ call script s same w. answer_with-IsSound call script s w;
    noted = λ s calls removals known freed errno stream fault w. w;
    conn = set_conn-IsSound;
    status = set_status-IsSound;
    new_status = add_status-IsSound;
    timeout = add_timeout-IsSound;
    no_timeout = remove_item-IsSound;
    mode = set_conn_to_poll_mode-IsSound;
    polled = λ revents s w. record {
      matched = write_revents-Matched s.conn_at s.conns s.poll_fds revents w.matched;
      allocated = w.allocated;
      status = w.status;
      ordered = w.ordered;
    };
    removed = remove_conn_at-IsSound;
    allocated = alloc_conn-IsSound;
    appended = λ p fd s t same less index socket short before w.
        append_conn-IsSound p fd t index socket short w;
  }

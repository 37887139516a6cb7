-- ===== src/Tests/Arrays.antt =====
-- The arrays of connections and of timeouts (Poll.antt, Timeouts.antt).
use msgbox.Prelude.{
  ℕ, zero, suc, ◌≡◌, refl, true, List, [], ◌∷◌, ◌++◌, some, get_elem?, arith, subst, some_inj, sym,
  ap, ◌∙◌,
}
use mathlib.Core.List.{Perm}
use msgbox.Types.{msg_connection_lost}
use msgbox.State.{State, Timeout, PollFd}
use msgbox.Poll.{remove_conn_at, clear_removals}
use msgbox.Poll.Removals.{items_at, clear_removals-perm, clear_removals_rising}
use msgbox.Poll.Invariant.{IsMatched, remove_conn_at-IsMatched}
use msgbox.Timeouts.{check_timeouts, expire_first}
use msgbox.Timeouts.Order.{IsOrdered, check_timeouts-due, call_conns}
use msgbox.Timeouts.Expiry.{expire_first-address, timeout_call, check_timeouts-local_disconnect}
use msgbox.Status.{local_disconnect}
use msgbox.Tests.Fixtures.{arrays_and_maps, system, connected}

abbrev four : List ℕ
four = 10 ∷ 11 ∷ 12 ∷ 13 ∷ []

abbrev leaving : List ℕ → State
leaving removals = record (connected []) { conns = four; removals = removals }

clear_removals-perm_example :
    Perm four (items_at four (2 ∷ 0 ∷ []) ++ (clear_removals (leaving (2 ∷ 0 ∷ []))).conns)
clear_removals-perm_example =
    clear_removals-perm (leaving (2 ∷ 0 ∷ [])) (omega arith, (omega arith, tt))

-- Connections 11 and 13 end in one round; 11 and 12 leave the array.
clear_removals_rising_example :
    Perm four (11 ∷ 12 ∷ (clear_removals (leaving (1 ∷ 3 ∷ []))).conns)
    × (get_elem? (clear_removals (leaving (1 ∷ 3 ∷ []))).conns 1 ≡ some 13)
clear_removals_rising_example =
    clear_removals_rising (leaving (1 ∷ 3 ∷ [])) 1 11 12 (omega arith) refl refl refl

indexed : (i p : ℕ) → get_elem? (0 ∷ 1 ∷ []) i ≡ some p → ((connected []).conn_at p).index ≡ i
indexed zero p e = subst (λ (q : ℕ). ((connected []).conn_at q).index ≡ 0) (some_inj e) refl
indexed (suc zero) p e = subst (λ (q : ℕ). ((connected []).conn_at q).index ≡ 1) (some_inj e) refl
indexed (suc (suc i)) p e = cc

polled :
    (i p : ℕ) (f : PollFd)
    → get_elem? (0 ∷ 1 ∷ []) i ≡ some p
    → get_elem? (connected []).poll_fds i ≡ some f
    → f.fd ≡ ((connected []).conn_at p).socket
polled zero p f e h =
    ap (λ (g : PollFd). g.fd) (sym (some_inj h))
    ∙ subst (λ (q : ℕ). 3 ≡ ((connected []).conn_at q).socket) (some_inj e) refl
polled (suc zero) p f e h =
    ap (λ (g : PollFd). g.fd) (sym (some_inj h))
    ∙ subst (λ (q : ℕ). 4 ≡ ((connected []).conn_at q).socket) (some_inj e) refl
polled (suc (suc i)) p f e h = cc

connected-IsMatched : IsMatched (connected [])
connected-IsMatched = record { same_length = refl; indexed = indexed; polled = polled }

remove_conn_at-IsMatched_example : IsMatched (remove_conn_at 0 (connected []))
remove_conn_at-IsMatched_example = remove_conn_at-IsMatched 0 (connected []) connected-IsMatched

abbrev asked : ℕ → ℕ → Timeout
asked at reply_id = record { at = at; conn = 0; status = 0; reply_id = reply_id }

-- At time 50, with requests 4 and 5 due and 6 not.
abbrev waiting : State
waiting = record (connected []) { now = 50; timeouts = asked 30 4 ∷ asked 40 5 ∷ asked 60 6 ∷ [] }

waiting-IsOrdered : IsOrdered waiting
waiting-IsOrdered = record {
  sorted = (omega arith, (omega arith, (omega arith, tt)));
  near = (omega arith, (omega arith, (omega arith, tt)));
}

check_timeouts-due_example :
    ((check_timeouts waiting).timeouts ≡ asked 60 6 ∷ [])
    × (call_conns (check_timeouts waiting).immediate_callbacks ≡ 0 ∷ 0 ∷ [])
check_timeouts-due_example = check_timeouts-due waiting waiting-IsOrdered

abbrev of_other : Timeout
of_other = record { at = 40; conn = 1; status = 8; reply_id = 0 }

abbrev two_statuses : State
two_statuses = record (connected []) { now = 50; timeouts = asked 30 4 ∷ of_other ∷ [] }

expire_first-address_example :
    (expire_first (asked 30 4) two_statuses).immediate_callbacks
    ≡ timeout_call (asked 30 4) (two_statuses.status_at 8).remote_address two_statuses ∷ []
expire_first-address_example = expire_first-address (asked 30 4) of_other [] two_statuses refl

check_timeouts-local_disconnect_example :
    (check_timeouts (record (local_disconnect 0 msg_connection_lost waiting) { now = 99 })).fault
    ≡ true
check_timeouts-local_disconnect_example =
    check_timeouts-local_disconnect 0 0 99 msg_connection_lost (asked 30 4)
      (asked 40 5 ∷ asked 60 6 ∷ []) waiting refl refl refl (omega arith)

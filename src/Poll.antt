-- ===== src/Poll.antt =====
-- The polled connections: the arrays conns and poll_fds, which are matched by index
-- (msgbox/msgbox.c: add_to_poll_fds, set_conn_to_poll_mode, poll_fds_mode, check_poll_fds,
-- array__remove_and_fill, array__remove_last, remove_conn_at and the removal loops of msg_runloop;
-- the mac/linux versions).
pub mod Fill
pub mod Removals
pub mod Invariant
pub mod Arrays
use msgbox.Prelude.{
  ℕ, ◌+◌, ◌-◌, Bool, true, false, List, [], ◌∷◌, Option, none, some, ◌==◌, ltb, leb, ◌||◌,
  if◌then◌else◌, not, get_elem?, set, take, length, bit_and,
}
use msgbox.Cstructs.{Cstructs}
use msgbox.State.{
  State, PollFd, pollin, pollout, pollerr, pollhup, pollnval, set_conn, Response, done, fail,
  Answer, syscall, sys_poll,
}

-- The bits of a PollMode.
pub record PollMode : Type 0 where
  pub read : Bool
  pub write : Bool
  pub err : Bool

module _ ⦃cs : Cstructs⦄ where
  unfoldable pub add_to_poll_fds : ℕ → State → State
  add_to_poll_fds new_sock s =
      let new_poll_fd : PollFd = record { fd = new_sock; events = pollin; revents = 0 } in
      record s { poll_fds = cs.add_item s.poll_fds new_poll_fd }

  -- array__remove_last, on both arrays.
  unfoldable pub remove_last_polling_conn : State → State
  remove_last_polling_conn s = record s {
    conns = cs.remove_item s.conns (length s.conns - 1);
    poll_fds = cs.remove_item s.poll_fds (length s.poll_fds - 1);
  }

abbrev pub with_events : ℕ → PollFd → PollFd
with_events events f = record f { events = events }

abbrev pub modify_at : {A : Type 0} → (A → A) → List A → ℕ → List A
modify_at f xs i = elim (get_elem? xs i) [ none ↦ xs | some x ↦ set xs i (f x) ]

unfoldable pub set_conn_to_poll_mode : ℕ → PollMode → State → State
set_conn_to_poll_mode index mode s = record s {
  poll_fds = modify_at (with_events (if mode.read then pollin else pollout)) s.poll_fds index;
}

abbrev pub mode_read : PollMode
mode_read = record { read = true; write = false; err = false }

abbrev pub mode_write : PollMode
mode_write = record { read = false; write = true; err = false }

abbrev pub has_bits : ℕ → ℕ → Bool
has_bits revents mask = not (bit_and revents mask == 0)

unfoldable pub poll_fds_mode : ℕ → PollMode
poll_fds_mode revents = record {
  read = has_bits revents pollin;
  write = has_bits revents pollout;
  err = has_bits revents (pollerr + pollnval + pollhup);
}

-- What poll writes into the array.
pub write_revents : List PollFd → List ℕ → List PollFd
write_revents [] rs = []
write_revents (f ∷ fs) [] = f ∷ fs
write_revents (f ∷ fs) (r ∷ rs) = record f { revents = r } ∷ write_revents fs rs

abbrev pub polled : Response × State → Option ℕ × State
polled (fail e, s) = (none, s)
polled (done a, s) = (some a.value, record s { poll_fds = write_revents s.poll_fds a.revents })

-- The number of ready descriptors, `none` for -1. The timeout `none` is the -1 that blocks.
unfoldable pub check_poll_fds : Option ℕ → State → Option ℕ × State
unfolding syscall write_revents
check_poll_fds timeout_in_ms s = polled (syscall (sys_poll (length s.poll_fds) timeout_in_ms) s)

-- array[index] = array[count - 1]; count--. At an index from count on, which its caller records as a
-- fault, the copy goes to memory behind the items; an empty array is left as it is.
unfoldable pub remove_and_fill : {A : Type 0} → List A → ℕ → List A
remove_and_fill xs index = elim (get_elem? xs (length xs - 1)) [
  | none ↦ xs
  | some last ↦ take (length xs - 1) (set xs index last)
]

abbrev pub set_index : ℕ → Option ℕ → State → State
set_index index none s = s
set_index index (some p) s = set_conn p (record (s.conn_at p) { index = index }) s

unfoldable pub remove_conn_at : ℕ → State → State
unfolding remove_and_fill
remove_conn_at index s =
    let conns' = remove_and_fill s.conns index in
    let s1 : State = set_index index (get_elem? conns' index) (record s { conns = conns' }) in
    record s1 {
      poll_fds = remove_and_fill s1.poll_fds index;
      fault = s1.fault || leb (length s.conns) index;
    }

-- The loop over removals.
unfoldable pub remove_conns : List ℕ → State → State
remove_conns [] s = s
remove_conns (index ∷ rest) s = remove_conns rest (remove_conn_at index s)

-- The loop, then array__clear.
unfoldable pub clear_removals : State → State
unfolding remove_conns
clear_removals s = record (remove_conns s.removals s) { removals = [] }

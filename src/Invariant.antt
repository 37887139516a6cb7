-- ===== src/Invariant.antt =====
-- What holds of the state of the library between any two calls.
pub mod Moves
pub mod Reach
use msgbox.Prelude.{ℕ, ◌<◌, ◌≡◌, List, some, get_elem?}
use msgbox.Types.{Conn}
use msgbox.State.{State, ConnStatus, PollFd, Timeout}
use msgbox.Poll.Invariant.{Matched}
use msgbox.Timeouts.Order.{Ordered}
use msgbox.Moves.{IsStatus}

-- The arrays conns and poll_fds are matched and hold only conns that have been allocated, every
-- status has its buffers and its next reply id within bounds, and the timeouts are in order.
pub record Sound (mem : ℕ → Conn) (next_conn : ℕ) (conns : List ℕ) (fds : List PollFd)
    (statuses : ℕ → ConnStatus) (timeouts : List Timeout) (time_now : ℕ) : Type 0 where
  pub matched : Matched mem conns fds
  pub allocated : (i p : ℕ) → get_elem? conns i ≡ some p → p < next_conn
  pub status : (st : ℕ) → IsStatus (statuses st)
  pub ordered : Ordered time_now timeouts

abbrev pub IsSound : State → Type 0
IsSound s = Sound s.conn_at s.next_conn s.conns s.poll_fds s.status_at s.timeouts s.now

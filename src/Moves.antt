-- ===== src/Moves.antt =====
-- The elementary changes that the functions of msgbox/msgbox.c make to the state. Whatever holds of
-- a state and is kept by each of these is kept by every function; the modules below show this for
-- the functions that read, disconnect, time out and poll.
pub mod Status
use msgbox.Prelude.{ℕ, ◌+◌, ◌<◌, ◌≤◌, ◌≡◌, Bool, List, [], ◌∷◌, Option, none, some, length, take}
use msgbox.Cstructs.{Cstructs}
use msgbox.Types.{Address, Conn, MsgData, Buffer}
use msgbox.State.{
  State, ConnStatus, PollFd, PendingCall, Call, Response, answer_with, set_conn, set_status,
}
use msgbox.Timeouts.{add_timeout}
use msgbox.Status.{add_status}
use msgbox.State.Callbacks.{alloc_conn}
use msgbox.Poll.Arrays.{SamePlace}
use msgbox.Poll.{set_conn_to_poll_mode, PollMode, write_revents, remove_conn_at}

-- What has been written of a message and what it waits for make it up; NULL waits for nothing.
abbrev pub Fills : Option Buffer → ℕ → ℕ → Type 0
Fills none waiting num_bytes = (waiting ≡ 0) × (num_bytes ≡ 0)
Fills (some b) waiting num_bytes = length b.bytes + waiting ≡ num_bytes

-- The bytes that a recv may still write end where total_buffer ends, and the next reply id fits
-- its width.
pub record IsStatus (x : ConnStatus) : Type 0 where
  pub fills : Fills x.total_buffer.buffer x.waiting_num_bytes x.total_buffer.num_bytes
  pub next : x.next_reply_id < 65536

module _ ⦃cs : Cstructs⦄ where
  -- A conn and its descriptor at the end of the arrays.
  abbrev pub append_conn : ℕ → PollFd → State → State
  append_conn p fd s = record s {
    conns = cs.add_item s.conns p;
    poll_fds = cs.add_item s.poll_fds fd;
  }

  pub record Closed (P : State → Type 0) : Type 0 where
    pub called :
        (call : Call) (script : List Response) (s : State)
        → script ≡ s.script
        → P s
        → P (answer_with call script s).1
    -- The fields that only record: what is scheduled, marked, known and has been sent.
    pub noted :
        (s : State) (calls : List PendingCall) (removals : List ℕ) (known : Address → Option ℕ)
        (freed : List ℕ) (errno : ℕ) (stream : ℕ → List ℕ) (fault : Bool)
        → P s
        → P (record s {
          immediate_callbacks = calls;
          removals = removals;
          conn_status = known;
          freed_conns = freed;
          errno = errno;
          stream = stream;
          fault = fault;
        })
    pub conn : (p : ℕ) (c : Conn) (s : State) → SamePlace (s.conn_at p) c → P s → P (set_conn p c s)
    pub status :
        (st : ℕ) (x : ConnStatus) (s : State)
        → (IsStatus (s.status_at st) → IsStatus x)
        → P s
        → P (set_status st x s)
    pub new_status :
        (x : ConnStatus) (a : Address) (s : State) → IsStatus x → P s → P (add_status x a s)
    pub timeout : (p st reply_id : ℕ) (s : State) → P s → P (add_timeout p st reply_id s)
    pub no_timeout :
        (i : ℕ) (s : State) → P s → P (record s { timeouts = cs.remove_item s.timeouts i })
    pub mode : (i : ℕ) (m : PollMode) (s : State) → P s → P (set_conn_to_poll_mode i m s)
    pub polled :
        (revents : List ℕ) (s : State)
        → P s
        → P (record s { poll_fds = write_revents s.poll_fds revents })
    pub removed : (i : ℕ) (s : State) → P s → P (remove_conn_at i s)
    pub allocated : (c : Conn) (s : State) → P s → P (alloc_conn c s).1
    -- Since the state s, at least one answer of the system has been used.
    pub appended :
        (p : ℕ) (fd : PollFd) (s t : State)
        → t.conns ≡ s.conns
        → length t.script < length s.script
        → (t.conn_at p).index ≡ length t.conns
        → fd.fd ≡ (t.conn_at p).socket
        → p < t.next_conn
        → P s
        → P t
        → P (append_conn p fd t)

-- ===== src/State/Frame.antt =====
-- What a system call leaves alone.
use msgbox.Prelude.{ℕ, ◌≡◌, refl, ◌∙◌, List, [], ◌∷◌}
use msgbox.State.{State, Call, Response, done, fail, answer_with, syscall}

-- A state that differs at most in errno and the script, and by one call in the history.
pub record Called (call : Call) (s s' : State) : Type 0 where
  pub calls : s'.calls ≡ call ∷ s.calls
  pub conn_at : s'.conn_at ≡ s.conn_at
  pub conns : s'.conns ≡ s.conns
  pub poll_fds : s'.poll_fds ≡ s.poll_fds
  pub removals : s'.removals ≡ s.removals
  pub immediate_callbacks : s'.immediate_callbacks ≡ s.immediate_callbacks
  pub conn_status : s'.conn_status ≡ s.conn_status
  pub status_at : s'.status_at ≡ s.status_at
  pub timeouts : s'.timeouts ≡ s.timeouts
  pub stream : s'.stream ≡ s.stream

abbrev called :
    (call : Call) (s : State) (rest : List Response) (e : ℕ)
    → Called call s (record s { calls = call ∷ s.calls; script = rest; errno = e })
called call s rest e = record {
  calls = refl;
  conn_at = refl;
  conns = refl;
  poll_fds = refl;
  removals = refl;
  immediate_callbacks = refl;
  conn_status = refl;
  status_at = refl;
  timeouts = refl;
  stream = refl;
}

answer_with-Called :
    (call : Call) (script : List Response) (s : State) → Called call s (answer_with call script s).1
answer_with-Called call [] s = called call s [] 5
answer_with-Called call (done a ∷ rest) s = called call s rest s.errno
answer_with-Called call (fail e ∷ rest) s = called call s rest e

pub syscall-Called : (call : Call) (s : State) → Called call s (syscall call s).1
unfolding syscall
syscall-Called call s = answer_with-Called call s.script s

-- A state in which all that the library keeps is as before: everything but the script, errno, the
-- streams and the history of system calls.
pub record Kept (s s' : State) : Type 0 where
  pub conn_at : s'.conn_at ≡ s.conn_at
  pub conns : s'.conns ≡ s.conns
  pub status_at : s'.status_at ≡ s.status_at
  pub conn_status : s'.conn_status ≡ s.conn_status
  pub immediate_callbacks : s'.immediate_callbacks ≡ s.immediate_callbacks
  pub timeouts : s'.timeouts ≡ s.timeouts
  pub now : s'.now ≡ s.now
  pub poll_fds : s'.poll_fds ≡ s.poll_fds
  pub removals : s'.removals ≡ s.removals
  pub freed_conns : s'.freed_conns ≡ s.freed_conns
  pub next_conn : s'.next_conn ≡ s.next_conn
  pub next_status : s'.next_status ≡ s.next_status
  pub fault : s'.fault ≡ s.fault
  pub memory : s'.memory ≡ s.memory

-- The script and errno aside, and the history of calls.
abbrev pub kept :
    (s : State) (calls : List Call) (rest : List Response) (e : ℕ)
    → Kept s (record s { calls = calls; script = rest; errno = e })
kept s calls rest e = record {
  conn_at = refl;
  conns = refl;
  status_at = refl;
  conn_status = refl;
  immediate_callbacks = refl;
  timeouts = refl;
  now = refl;
  poll_fds = refl;
  removals = refl;
  freed_conns = refl;
  next_conn = refl;
  next_status = refl;
  fault = refl;
  memory = refl;
}

pub Kept_refl : (s : State) → Kept s s
Kept_refl s = kept s s.calls s.script s.errno

pub Kept_trans : (a b c : State) → Kept a b → Kept b c → Kept a c
Kept_trans a b c p q = record {
  conn_at = q.conn_at ∙ p.conn_at;
  conns = q.conns ∙ p.conns;
  status_at = q.status_at ∙ p.status_at;
  conn_status = q.conn_status ∙ p.conn_status;
  immediate_callbacks = q.immediate_callbacks ∙ p.immediate_callbacks;
  timeouts = q.timeouts ∙ p.timeouts;
  now = q.now ∙ p.now;
  poll_fds = q.poll_fds ∙ p.poll_fds;
  removals = q.removals ∙ p.removals;
  freed_conns = q.freed_conns ∙ p.freed_conns;
  next_conn = q.next_conn ∙ p.next_conn;
  next_status = q.next_status ∙ p.next_status;
  fault = q.fault ∙ p.fault;
  memory = q.memory ∙ p.memory;
}

pub answer_with-Kept :
    (call : Call) (script : List Response) (s : State) → Kept s (answer_with call script s).1
answer_with-Kept call [] s = kept s (call ∷ s.calls) [] 5
answer_with-Kept call (done a ∷ rest) s = kept s (call ∷ s.calls) rest s.errno
answer_with-Kept call (fail e ∷ rest) s = kept s (call ∷ s.calls) rest e

pub syscall-Kept : (call : Call) (s : State) → Kept s (syscall call s).1
unfolding syscall
syscall-Kept call s = answer_with-Kept call s.script s

-- ===== src/Invariant/Reach.antt =====
-- The runs of a program that uses the library: its calls, the turns of the run loop, and what the
-- callbacks do in them.
use msgbox.Prelude.{ℕ, ◌≤◌, ◌+◌, refl, true, List, Option, arith}
use msgbox.Cstructs.{Cstructs}
use msgbox.Types.{Conn, Event, MsgData}
use msgbox.Libc.{Libc}
use msgbox.State.{State, Response, set_conn, initial_state}
use msgbox.Timeouts.{udp_timeout}
use msgbox.Timeouts.Order.{UpTo-mono}
use msgbox.Poll.Arrays.{SamePlace}
use msgbox.Open.{msg_listen, msg_connect}
use msgbox.Open.Moves.{open_socket-IsSound}
use msgbox.Api.{msg_unlisten, msg_disconnect, msg_send, msg_get}
use msgbox.Api.Moves.{msg_unlisten-Closed, msg_disconnect-Closed, msg_send-Closed, msg_get-Closed}
use msgbox.Runloop.{Handler, msg_runloop}
use msgbox.Runloop.Moves.{msg_runloop-Closed}
use msgbox.Invariant.{IsSound}
use msgbox.Invariant.Moves.{IsSound-Closed}

module _ ⦃cs : Cstructs⦄ ⦃os : Libc⦄ where
  -- A call of the library, a write to the fields of a conn that are the user's or to the program's
  -- own variables, or a fault of its own; time passes, and the system has other answers.
  pub data Act : State → State → Type 0 where
    listen_at :
        (address : List ℕ) (callback : ℕ) (s : State) → Act s (msg_listen address callback s)
    connect_to :
        (address : List ℕ) (callback context : ℕ) (s : State)
        → Act s (msg_connect address callback context s)
    unlisten : (conn : Option ℕ) (s : State) → Act s (msg_unlisten conn s)
    disconnect : (p : ℕ) (s : State) → Act s (msg_disconnect p s)
    send : (p : ℕ) (d : MsgData) (s : State) → Act s (msg_send p d s)
    get : (p : ℕ) (d : MsgData) (context : ℕ) (s : State) → Act s (msg_get p d context s)
    write_conn : (p : ℕ) (c : Conn) (s : State) → SamePlace (s.conn_at p) c → Act s (set_conn p c s)
    later : (time : ℕ) (s : State) → s.now ≤ time → Act s (record s { now = time })
    write_variable : (memory : ℕ → ℕ) (s : State) → Act s (record s { memory = memory })
    report_fault : (s : State) → Act s (record s { fault = true })
    answers : (script : List Response) (s : State) → Act s (record s { script = script })

  pub data Acts : State → State → Type 0 where
    none_more : {s : State} → Acts s s
    one_more : {s t u : State} → Acts s t → Act t u → Acts s u

  pub data Step : State → State → Type 0 where
    act : {s t : State} → Act s t → Step s t
    turn :
        (user : Handler) (timeout : Option ℕ) (s : State)
        → ((callback p : ℕ) (event : Event) (d : MsgData) (t : State)
            → Acts t (user callback p event d t))
        → Step s (msg_runloop user timeout s)

  pub data Reach : State → Type 0 where
    start : (script : List Response) → Reach (initial_state script)
    next : {s t : State} → Reach s → Step s t → Reach t

  initial_state-IsSound : (script : List Response) → IsSound (initial_state script)
  initial_state-IsSound script = record {
    matched = record {
      same_length = refl;
      indexed = λ i p at. absurd cc;
      polled = λ i p f at_c at_f. absurd cc;
    };
    allocated = λ i p at. absurd cc;
    status = λ st. record { fills = (refl, refl); next = omega arith };
    ordered = record { sorted = tt; near = tt };
  }

  later-IsSound :
      (time : ℕ) (s : State) → s.now ≤ time → IsSound s → IsSound (record s { now = time })
  later-IsSound time s h w = record {
    matched = w.matched;
    allocated = w.allocated;
    status = w.status;
    ordered = record {
      sorted = w.ordered.sorted;
      near =
          UpTo-mono (s.now + udp_timeout) (time + udp_timeout) s.timeouts (omega arith)
            w.ordered.near;
    };
  }

  Act-IsSound : {s t : State} → Act s t → IsSound s → IsSound t
  unfolding msg_listen msg_connect
  Act-IsSound (listen_at address callback s) w = open_socket-IsSound address _ callback _ s w
  Act-IsSound (connect_to address callback context s) w =
      open_socket-IsSound address context callback _ s w
  Act-IsSound (unlisten conn s) w = msg_unlisten-Closed IsSound-Closed conn s w
  Act-IsSound (disconnect p s) w = msg_disconnect-Closed IsSound-Closed p s w
  Act-IsSound (send p d s) w = msg_send-Closed IsSound-Closed p d s w
  Act-IsSound (get p d context s) w = msg_get-Closed IsSound-Closed p d context s w
  Act-IsSound (write_conn p c s same) w = IsSound-Closed.conn p c s same w
  Act-IsSound (later time s h) w = later-IsSound time s h w
  Act-IsSound (write_variable memory s) w = w
  Act-IsSound (report_fault s) w = w
  Act-IsSound (answers script s) w = w

  Acts-IsSound : {s t : State} → Acts s t → IsSound s → IsSound t
  Acts-IsSound none_more w = w
  Acts-IsSound (one_more before a) w = Act-IsSound a (Acts-IsSound before w)

  pub Step-IsSound : {s t : State} → Step s t → IsSound s → IsSound t
  Step-IsSound (act a) w = Act-IsSound a w
  Step-IsSound (turn user timeout s acts) w =
      msg_runloop-Closed IsSound-Closed user
        (λ callback p event d t h. Acts-IsSound (acts callback p event d t) h) timeout s w

  -- In every state that a program reaches, from the initial one, by calls of the library, by turns
  -- of the run loop whose callbacks make such calls, and while time passes and the system answers
  -- as it likes, if the memory of a conn that was freed is never that of a new one: conns and
  -- poll_fds are matched, and conns holds only conns that have been allocated, freed or not; in
  -- each status, what is written of a message and what it waits for make up its buffer, and the
  -- next reply id is below 65536; and the timeouts are soonest first and at most one second ahead.
  pub Reach-IsSound : {s : State} → Reach s → IsSound s
  Reach-IsSound (start script) = initial_state-IsSound script
  Reach-IsSound (next before step) = Step-IsSound step (Reach-IsSound before)

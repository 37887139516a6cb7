-- ===== src/Timeouts.antt =====
-- Replies that do not come (msgbox/msgbox.c: add_timeout, remove_timeout, and the loop over
-- timeouts in msg_runloop). Times are microseconds.
pub mod Order
pub mod Expiry
pub mod Lookup
use msgbox.Prelude.{
  ℕ, zero, suc, ◌+◌, Bool, true, false, List, [], ◌∷◌, ◌++◌, Option, none, some, ◌==◌, ltb, ◌&&◌,
  ◌||◌, if◌then◌else◌, codes, length, get_or, upd,
}
use msgbox.Cstructs.{Cstructs}
use msgbox.Types.{Conn, Buffer, MsgData, unset, msg_error, msg_tcp, Address}
use msgbox.Status.{reply_key}
use msgbox.State.{State, ConnStatus, Timeout, free_nothing, set_status, set_conn}
use msgbox.State.Callbacks.{send_callback}

-- udp_timeout_sec
abbrev pub udp_timeout : ℕ
udp_timeout = 1000000

-- The index of the first timeout of a status and reply id.
unfoldable pub timeout_index : ℕ → ℕ → List Timeout → Option ℕ
timeout_index st reply_id [] = none
timeout_index st reply_id (t ∷ ts) =
    if (t.status == st) && (t.reply_id == reply_id)
    then some 0
    else elim (timeout_index st reply_id ts) [ none ↦ none | some i ↦ some (suc i) ]

-- Whether a number occurs in a list.
unfoldable pub mem_b : List ℕ → ℕ → Bool
mem_b [] x = false
mem_b (y ∷ ys) x = if y == x then true else mem_b ys x

-- The data of a timeout's callback.
abbrev pub timeout_data : List ℕ → ℕ → Address → MsgData
timeout_data msg context address = record {
  num_bytes = length msg + 1;
  buffer = some (record {
    reply_context = some context;
    remote_address = some address;
    header = unset;
    bytes = msg ++ 0 ∷ [];
  });
}

abbrev pub timeout_message : Conn → List ℕ
timeout_message c =
    if c.protocol_type == msg_tcp then codes "tcp get timed out" else codes "udp get timed out"

-- The value of a pair that may be NULL.
abbrev pub context_or_null : Option ℕ → ℕ
context_or_null none = 0
context_or_null (some x) = x

abbrev pub is_none : Option ℕ → Bool
is_none none = true
is_none (some x) = false

module _ ⦃cs : Cstructs⦄ where
  unfoldable pub add_timeout : ℕ → ℕ → ℕ → State → State
  add_timeout conn status reply_id s =
      let t : Timeout = record {
        at = s.now + udp_timeout;
        conn = conn;
        status = status;
        reply_id = reply_id;
      } in
      record s { timeouts = cs.add_item s.timeouts t }

  unfoldable pub remove_timeout : ℕ → ℕ → State → State
  remove_timeout st reply_id s = elim (timeout_index st reply_id s.timeouts) [
    | none ↦ s
    | some i ↦ record s { timeouts = cs.remove_item s.timeouts i }
  ]

  abbrev pub unset_context : ℕ → ConnStatus → ConnStatus
  unset_context reply_id status = record status {
    reply_contexts = cs.map_unset reply_key status.reply_contexts reply_id;
  }

  -- The body of the loop for the first timeout, t. `fault` is set where it reads the freed map of
  -- contexts, a NULL pair or a freed conn. After array__remove_item the pointer `timeout` shows the
  -- item that moved into the first slot, or t itself if none did.
  unfoldable pub expire_first : Timeout → State → State
  unfolding send_callback mem_b
  expire_first t s =
      let status = s.status_at t.status in
      let pair = status.reply_contexts t.reply_id in
      let bad = status.contexts_freed || (is_none pair || mem_b s.freed_conns t.conn) in
      let context = context_or_null pair in
      let s1 =
        set_status t.status (unset_context t.reply_id status)
          (set_conn t.conn (record (s.conn_at t.conn) { reply_context = context }) s) in
      let ts = cs.remove_item s.timeouts 0 in
      let moved = get_or ts 0 t in
      let payload =
        timeout_data (timeout_message (s.conn_at t.conn)) context
          (s1.status_at moved.status).remote_address in
      send_callback t.conn msg_error payload free_nothing
        (record s1 { timeouts = ts; fault = s.fault || bad })

  -- The loop always looks at index 0, since it steps back after each removal.
  unfoldable pub expire : ℕ → ℕ → State → State
  expire zero time_now s = s
  expire (suc fuel) time_now s = elim s.timeouts [
    | [] ↦ s
    | t ∷ _ ↦
        (let rest = expire fuel time_now (expire_first t s) in
          if ltb time_now t.at then s else rest)
  ]

  -- Each round removes one timeout, so their number is enough fuel.
  unfoldable pub check_timeouts : State → State
  unfolding expire expire_first
  check_timeouts s = expire (length s.timeouts) s.now s

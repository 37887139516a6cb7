-- ===== src/Receive/Body.antt =====
-- What the reading of a payload takes from the script, and what it schedules.
use msgbox.Prelude.{
  ℕ, ◌≤◌, ◌<◌, ◌≡◌, refl, sym, ap, ◌∙◌, append_assoc, append-nil, ◌++◌, Bool, true, false, List, [],
  ◌∷◌, Option, none, some, ◌==◌, ◌-◌, length, arith, Bool-cases, Option-cases, inl, inr,
}
use msgbox.Cstructs.{Cstructs}
use msgbox.Types.{Event, MsgData, Header, msg_type_reply, msg_type_one_way, msg_type_close}
use msgbox.Libc.{Libc}
use msgbox.State.{
  State, Response, done, fail, syscall, Call, answer_with, record_call, err_conn_reset,
  err_would_block, set_conn, Answer, PendingCall,
}
use msgbox.State.Callbacks.{send_callback}
use msgbox.Status.{
  status_of_conn, remote_address_seen, first_seen, add_status, delete_conn_status_buffer,
}
use msgbox.Timeouts.{remove_timeout, timeout_index}
use msgbox.Receive.{
  deliver, reply_found, switch_type, RecvResult, complete, pending, failed, interrupted,
  continue_recv, bytes_received, body_received, read_body, body_read, tcp_switched,
}

-- Callbacks may have come to those there were.
abbrev pub Extends : List PendingCall → State → Type 0
Extends base s = (xs : List PendingCall) × (s.immediate_callbacks ≡ base ++ xs)

-- The last of the callbacks that have come is for the conn p.
pub record Delivered (p : ℕ) (base : List PendingCall) (s : State) : Type 0 where
  pub before : List PendingCall
  pub call : PendingCall
  pub callbacks : s.immediate_callbacks ≡ base ++ (before ++ call ∷ [])
  pub for_conn : call.conn ≡ p

-- After a read that may be repeated, fewer than n answers are left and a callback is scheduled.
abbrev pub Took : ℕ → ℕ → List PendingCall → Bool × State → Type 0
Took n p base (true, s) = (length s.script < n) × Delivered p base s
Took n p base (false, s) = Unit {0}

-- After a step that goes on.
abbrev pub TookSome : {A : Type 0} → ℕ → List PendingCall → Option A × State → Type 0
TookSome n base (some x, s) = (length s.script < n) × Extends base s
TookSome n base (none, s) = Unit {0}

-- After a message is complete.
abbrev TookAll : ℕ → List PendingCall → RecvResult × State → Type 0
TookAll n base (complete, s) = (length s.script < n) × Extends base s
TookAll n base (pending, s) = Unit {0}
TookAll n base (failed, s) = Unit {0}
TookAll n base (interrupted, s) = Unit {0}

-- The sender's address is in the conn.
abbrev pub from_peer : ℕ → Answer → State → State
from_peer p a s = set_conn p (record (s.conn_at p) { remote_ip = a.ip; remote_port = a.port }) s

module _ ⦃cs : Cstructs⦄ ⦃os : Libc⦄ where
  remove_timeout-script :
      (st reply_id : ℕ) (s : State) → (remove_timeout st reply_id s).script ≡ s.script
  unfolding remove_timeout
  remove_timeout-script st reply_id s = elim (Option-cases (timeout_index st reply_id s.timeouts)) [
    | inl e ↦ rw (remove_timeout, e) refl
    | inr (i, e) ↦ rw (remove_timeout, e) refl
  ]

  reply_found-script :
      (p : ℕ) (event : Event) (d : MsgData) (st reply_id context : ℕ) (s : State)
      → (reply_found p event d st reply_id context s).script ≡ s.script
  unfolding reply_found send_callback
  reply_found-script p event d st reply_id context s = remove_timeout-script st reply_id s

  remove_timeout-callbacks :
      (st reply_id : ℕ) (s : State)
      → (remove_timeout st reply_id s).immediate_callbacks ≡ s.immediate_callbacks
  unfolding remove_timeout
  remove_timeout-callbacks st reply_id s =
      elim (Option-cases (timeout_index st reply_id s.timeouts)) [
        | inl e ↦ rw (remove_timeout, e) refl
        | inr (i, e) ↦ rw (remove_timeout, e) refl
      ]

  -- One callback more, at the end.
  delivered :
      (p : ℕ) (base : List PendingCall) (call : PendingCall) (xs : List PendingCall) (s s' : State)
      → Extends base s
      → xs ≡ s.immediate_callbacks
      → call.conn ≡ p
      → s'.immediate_callbacks ≡ cs.add_item xs call
      → Delivered p base s'
  delivered p base call xs s s' (before, e) same own added = record {
    before = before;
    call = call;
    callbacks =
        added
        ∙ cs.add_item_lem xs call
        ∙ ap (λ (ys : List PendingCall). ys ++ call ∷ []) (same ∙ e)
        ∙ append_assoc base before (call ∷ []);
    for_conn = own;
  }

  reply_found-Delivered :
      (p : ℕ) (event : Event) (d : MsgData) (st reply_id context : ℕ) (base : List PendingCall)
      (s : State)
      → Extends base s
      → Delivered p base (reply_found p event d st reply_id context s)
  unfolding reply_found send_callback
  reply_found-Delivered p event d st reply_id context base s x =
      delivered p base _ _ s _ x (remove_timeout-callbacks st reply_id s) refl refl

  pub deliver-Took :
      (n p : ℕ) (event : Event) (d : MsgData) (st : ℕ) (h : Header) (base : List PendingCall)
      (s : State)
      → length s.script < n
      → Extends base s
      → Took n p base (deliver p event d st h s)
  unfolding deliver send_callback
  deliver-Took n p event d st h base s less x =
      elim (Bool-cases (h.message_type == msg_type_reply)) [
        | inr e ↦ rw e (less, delivered p base _ _ s _ x refl refl refl)
        | inl e ↦ elim (Option-cases ((s.status_at st).reply_contexts h.reply_id)) [
          | inl unknown ↦ rw (e, unknown) tt
          | inr (context, known) ↦
              rw (e, known)
                (
                  omega (arith, ap length (reply_found-script p event d st h.reply_id context s)),
                  reply_found-Delivered p event d st h.reply_id context base s x,
                )
        ]
      ]

  pub remote_address_seen-script :
      (p : ℕ) (s : State) → (remote_address_seen p s).1.script ≡ s.script
  unfolding remote_address_seen first_seen add_status send_callback
  remote_address_seen-script p s = elim (Option-cases (status_of_conn p s)) [
    | inl new ↦ rw (remote_address_seen, new) refl
    | inr (st, known) ↦ rw (remote_address_seen, known) refl
  ]

  pub remote_address_seen-Extends :
      (p : ℕ) (s : State) → Extends s.immediate_callbacks (remote_address_seen p s).1
  unfolding remote_address_seen first_seen add_status send_callback
  remote_address_seen-Extends p s = elim (Option-cases (status_of_conn p s)) [
    | inl new ↦ rw (remote_address_seen, new) (_, cs.add_item_lem _ _)
    | inr (st, known) ↦ rw (remote_address_seen, known) ([], sym (append-nil s.immediate_callbacks))
  ]

  pub switch_type-Took :
      (n p : ℕ) (h : Header) (base : List PendingCall) (s : State)
      → length s.script < n
      → Extends base s
      → TookSome n base (switch_type p h s)
  unfolding switch_type
  switch_type-Took n p h base s less x = elim (Bool-cases (h.message_type == msg_type_one_way)) [
    | inl e ↦ rw e (less, x)
    | inr e ↦ elim (Bool-cases (h.message_type == msg_type_close)) [
      | inl c ↦ rw (e, c) tt
      | inr c ↦ rw (e, c) (less, x)
    ]
  ]

  tcp_switched-Took :
      (n p : ℕ) (d : MsgData) (st : ℕ) (h : Header) (base : List PendingCall)
      (r : Option Event × State)
      → TookSome n base r
      → Took n p base (tcp_switched p d st h r)
  unfolding tcp_switched
  tcp_switched-Took n p d st h base (none, s) t = tt
  tcp_switched-Took n p d st h base (some event, s) (less, x) =
      deliver-Took n p event d st h base s less x

  body_read-Took :
      (n p st : ℕ) (h : Header) (base : List PendingCall) (r : RecvResult × State)
      → TookAll n base r
      → Took n p base (body_read p st h r)
  unfolding body_read delete_conn_status_buffer
  body_read-Took n p st h base (interrupted, s) t = tt
  body_read-Took n p st h base (failed, s) t = tt
  body_read-Took n p st h base (pending, s) t = tt
  body_read-Took n p st h base (complete, s) (less, x) =
      tcp_switched-Took n p _ st h base (switch_type p h (delete_conn_status_buffer st s))
        (switch_type-Took n p h base (delete_conn_status_buffer st s) less x)

  bytes_received-Took :
      (n p st : ℕ) (bytes : List ℕ) (base : List PendingCall) (s : State)
      → length s.script < n
      → Extends base s
      → TookAll n base (bytes_received p st bytes s)
  unfolding bytes_received
  bytes_received-Took n p st bytes base s less x = elim (Bool-cases (length bytes == 0)) [
    | inl e ↦ rw e tt
    | inr e ↦ elim (Bool-cases ((s.status_at st).waiting_num_bytes - length bytes == 0)) [
      | inl whole ↦ rw (e, whole) (less, x)
      | inr part ↦ rw (e, part) tt
    ]
  ]

  body_received-Took :
      (n p st : ℕ) (call : Call) (script : List Response) (base : List PendingCall) (s : State)
      → length script ≤ n
      → Extends base s
      → TookAll n base (body_received p st (answer_with call script s))
  unfolding body_received
  body_received-Took n p st call [] base s h x = tt
  body_received-Took n p st call (done a ∷ rest) base s h x =
      bytes_received-Took n p st _ base (record_call call rest s) h x
  body_received-Took n p st call (fail e ∷ rest) base s h x =
      elim (Bool-cases (e == err_conn_reset)) [
        | inl reset ↦ rw reset tt
        | inr other ↦ elim (Bool-cases (e == err_would_block)) [
          | inl block ↦ rw (other, block) tt
          | inr bad ↦ rw (other, bad) tt
        ]
      ]

  pub read_body-Took :
      (n p st : ℕ) (h : Header) (base : List PendingCall) (s : State)
      → length s.script ≤ n
      → Extends base s
      → Took n p base (read_body p st h s)
  unfolding read_body continue_recv syscall
  read_body-Took n p st h base s less x =
      body_read-Took n p st h base (continue_recv p st s)
        (body_received-Took n p st _ s.script base s less x)

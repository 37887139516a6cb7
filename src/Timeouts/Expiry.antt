-- ===== src/Timeouts/Expiry.antt =====
-- What the error of a timeout carries, and a timeout that outlives its connection.
use msgbox.Prelude.{
  ℕ, zero, suc, ◌≤◌, ◌≡◌, refl, ap, ◌∙◌, Bool, true, false, List, [], ◌∷◌, ◌++◌, some, length,
  remove_at, arith, ltb, if◌then◌else◌, Bool-cases, inl, inr, get_or, upd, ◌||◌,
}
use msgbox.Cstructs.{Cstructs}
use msgbox.Types.{Address, Event, msg_error, address_of_conn}
use msgbox.Status.{local_disconnect}
use msgbox.Status.Disconnect.{local_disconnect-frees}
use msgbox.Timeouts.Order.{expire_on, expire-suc}
use msgbox.State.{State, Timeout, PendingCall, ConnStatus, free_nothing}
use msgbox.State.Callbacks.{send_callback}
use msgbox.Timeouts.{
  expire_first, expire, check_timeouts, timeout_data, timeout_message, context_or_null,
  unset_context,
}

-- The callback of a timeout, with this address.
abbrev pub timeout_call : Timeout → Address → State → PendingCall
timeout_call t address s = record {
  conn = t.conn;
  event = msg_error;
  payload =
      timeout_data (timeout_message (s.conn_at t.conn))
        (context_or_null ((s.status_at t.status).reply_contexts t.reply_id)) address;
  to_free = free_nothing;
}

upd-remote_address :
    (mem : ℕ → ConnStatus) (p q : ℕ) (st : ConnStatus)
    → st.remote_address ≡ (mem p).remote_address
    → (upd mem p st q).remote_address ≡ (mem q).remote_address
upd-remote_address mem p q st e = ground arith

or_true_left : (a b : Bool) → a ≡ true → (a || b) ≡ true
or_true_left a b h = ground arith

or_true_right : (a b : Bool) → b ≡ true → (a || b) ≡ true
or_true_right a b h = ground arith

module _ ⦃cs : Cstructs⦄ where
  expire_first-moved :
      (t moved : Timeout) (ts : List Timeout) (s : State)
      → s.timeouts ≡ t ∷ ts
      → get_or ts 0 t ≡ moved
      → (expire_first t s).immediate_callbacks
        ≡ s.immediate_callbacks ++ timeout_call t (s.status_at moved.status).remote_address s ∷ []
  unfolding expire_first send_callback
  expire_first-moved t moved ts s e m =
      let address_of = λ (u : Timeout).
        (upd s.status_at t.status (unset_context t.reply_id (s.status_at t.status))
          u.status).remote_address in
      let slot : get_or (cs.remove_item s.timeouts 0) 0 t ≡ moved =
        ap (λ (xs : List Timeout). get_or xs 0 t)
          (cs.remove_item_lem s.timeouts 0 ∙ ap (λ (xs : List Timeout). remove_at xs 0) e)
        ∙ m in
      cs.add_item_lem s.immediate_callbacks _
      ∙ ap (λ (a : Address). s.immediate_callbacks ++ timeout_call t a s ∷ [])
          (ap address_of slot ∙ upd-remote_address s.status_at t.status moved.status _ refl)

  -- If a second timeout stands behind the first when the first is reported, the error for the first
  -- carries the remote address of the second one's status.
  pub expire_first-address :
      (t u : Timeout) (ts : List Timeout) (s : State)
      → s.timeouts ≡ t ∷ u ∷ ts
      → (expire_first t s).immediate_callbacks
        ≡ s.immediate_callbacks ++ timeout_call t (s.status_at u.status).remote_address s ∷ []
  expire_first-address t u ts s e = expire_first-moved t u (u ∷ ts) s e refl

  -- A fault stays.
  expire_first-fault : (t : Timeout) (s : State) → s.fault ≡ true → (expire_first t s).fault ≡ true
  unfolding expire_first send_callback
  expire_first-fault t s f = or_true_left s.fault _ f

  expire_on-fault :
      (fuel time_now : ℕ) (ts : List Timeout) (s : State)
      → ((s1 : State) → s1.fault ≡ true → (expire fuel time_now s1).fault ≡ true)
      → s.fault ≡ true
      → (expire_on fuel time_now s ts).fault ≡ true
  expire_on-fault fuel time_now [] s ih f = f
  expire_on-fault fuel time_now (t ∷ ts) s ih f = elim (Bool-cases (ltb time_now t.at)) [
    | inl late ↦ rw late f
    | inr due ↦ rw due (ih (expire_first t s) (expire_first-fault t s f))
  ]

  expire-fault :
      (fuel time_now : ℕ) (s : State) → s.fault ≡ true → (expire fuel time_now s).fault ≡ true
  unfolding expire
  expire-fault zero time_now s f = f
  expire-fault (suc fuel) time_now s f =
      rw (expire-suc fuel time_now s.timeouts s refl)
        (expire_on-fault fuel time_now s.timeouts s (λ s1 f1. expire-fault fuel time_now s1 f1) f)

  -- Reporting a timeout whose status has been given up reads freed memory.
  expire_first-freed :
      (t : Timeout) (s : State)
      → (s.status_at t.status).contexts_freed ≡ true
      → (expire_first t s).fault ≡ true
  unfolding expire_first send_callback
  expire_first-freed t s f = or_true_right s.fault _ (or_true_left _ _ f)

  check_timeouts-freed :
      (t : Timeout) (ts : List Timeout) (s : State)
      → s.timeouts ≡ t ∷ ts
      → t.at ≤ s.now
      → (s.status_at t.status).contexts_freed ≡ true
      → (check_timeouts s).fault ≡ true
  unfolding check_timeouts
  check_timeouts-freed t ts s e h f =
      let due : ltb s.now t.at ≡ false = ground arith in
      let rounds : length s.timeouts ≡ suc (length ts) = ap length e in
      ap (λ (n : ℕ). (expire n s.now s).fault) rounds
      ∙ ap (λ (r : State). r.fault) (expire-suc (length ts) s.now (t ∷ ts) s e)
      ∙ ap (λ (b : Bool). (if b then s else expire (length ts) s.now (expire_first t s)).fault) due
      ∙ expire-fault (length ts) s.now (expire_first t s) (expire_first-freed t s f)

  -- If a connection ends while the first timeout belongs to a request on it, then that timeout
  -- stays, and at any later time when it is due the run loop reads the map of reply contexts that
  -- was freed with the status.
  pub check_timeouts-local_disconnect :
      (p st later : ℕ) (event : Event) (t : Timeout) (ts : List Timeout) (s : State)
      → s.conn_status (address_of_conn (s.conn_at p)) ≡ some st
      → s.timeouts ≡ t ∷ ts
      → t.status ≡ st
      → t.at ≤ later
      → (check_timeouts (record (local_disconnect p event s) { now = later })).fault ≡ true
  check_timeouts-local_disconnect p st later event t ts s known e own h =
      let (freed, kept) = local_disconnect-frees p st event s known in
      check_timeouts-freed t ts (record (local_disconnect p event s) { now = later }) (kept ∙ e) h
        (ap (λ (q : ℕ). ((local_disconnect p event s).status_at q).contexts_freed) own ∙ freed)

-- ===== src/Runloop/Deferred.antt =====
-- The order in which callbacks run.
use msgbox.Prelude.{
  ℕ, ◌≡◌, refl, sym, ap, ◌∙◌, Option, none, some, List, [], ◌∷◌, ◌++◌, arith, append_assoc,
  append-nil,
}
use msgbox.Types.{Event, MsgData, Buffer, msg_tcp}
use msgbox.Libc.{Libc}
use msgbox.State.{State, PendingCall, ToFree, free_nothing, free_conn, free_bytes, set_conn}
use msgbox.Status.{status_of_conn}
use msgbox.Runloop.{
  Handler, make_call, make_calls, run_callbacks, before_call, call_ready, save_context, free_after,
  restore_metadata, restore_context, conn_from,
}

-- What a callback schedules, if it only depends on how it is called.
abbrev pub Schedules : Handler → (ℕ → Event → MsgData → List PendingCall) → Type 0
Schedules user out =
    (callback p : ℕ) (event : Event) (d : MsgData) (s : State)
    → (user callback p event d s).immediate_callbacks ≡ s.immediate_callbacks ++ out p event d

abbrev pub flat_out : (ℕ → Event → MsgData → List PendingCall) → List PendingCall → List PendingCall
flat_out out [] = []
flat_out out (c ∷ calls) = out c.conn c.event c.payload ++ flat_out out calls

free_after-calls :
    (f : ToFree) (s : State) → (free_after f s).immediate_callbacks ≡ s.immediate_callbacks
free_after-calls free_nothing s = refl
free_after-calls (free_conn p) s = refl
free_after-calls (free_bytes d) s = refl

save_context-calls :
    (p : ℕ) (o : Option ℕ) (s : State)
    → (save_context p o s).immediate_callbacks ≡ s.immediate_callbacks
unfolding save_context
save_context-calls p none s = refl
save_context-calls p (some st) s = ground arith

restore_context-calls :
    (p : ℕ) (o : Option ℕ) (s : State)
    → (restore_context p o s).1.immediate_callbacks ≡ s.immediate_callbacks
unfolding restore_context
restore_context-calls p none s = refl
restore_context-calls p (some st) s = refl

module _ ⦃os : Libc⦄ where
  restore_metadata-calls :
      (p : ℕ) (o : Option Buffer) (s : State)
      → (restore_metadata p o s).1.immediate_callbacks ≡ s.immediate_callbacks
  unfolding restore_metadata
  restore_metadata-calls p none s = refl
  restore_metadata-calls p (some b) s =
      let s1 = set_conn p (conn_from b (s.conn_at p)) s in
      restore_context-calls p (status_of_conn p s1) s1

  before_call-calls :
      (c : PendingCall) (s : State)
      → (before_call c s).1.immediate_callbacks ≡ s.immediate_callbacks
  unfolding before_call
  before_call-calls c s = ground (arith, restore_metadata-calls c.conn c.payload.buffer s)

  make_call-calls :
      (user : Handler) (out : ℕ → Event → MsgData → List PendingCall) (c : PendingCall) (s : State)
      → Schedules user out
      → (make_call user c s).immediate_callbacks
        ≡ s.immediate_callbacks ++ out c.conn c.event c.payload
  unfolding make_call call_ready
  make_call-calls user out c s h =
      let r = before_call c s in
      let callback = (r.1.conn_at c.conn).callback in
      let s1 = user callback c.conn c.event c.payload r.1 in
      free_after-calls c.to_free (save_context c.conn r.0 s1)
      ∙ save_context-calls c.conn r.0 s1
      ∙ h callback c.conn c.event c.payload r.1
      ∙ ap (λ (xs : List PendingCall). xs ++ out c.conn c.event c.payload) (before_call-calls c s)

  make_calls-calls :
      (user : Handler) (out : ℕ → Event → MsgData → List PendingCall) (calls : List PendingCall)
      (s : State)
      → Schedules user out
      → (make_calls user calls s).immediate_callbacks ≡ s.immediate_callbacks ++ flat_out out calls
  unfolding make_calls
  make_calls-calls user out [] s h = sym (append-nil s.immediate_callbacks)
  make_calls-calls user out (c ∷ calls) s h =
      make_calls-calls user out calls (make_call user c s) h
      ∙ ap (λ (xs : List PendingCall). xs ++ flat_out out calls) (make_call-calls user out c s h)
      ∙ append_assoc s.immediate_callbacks (out c.conn c.event c.payload) (flat_out out calls)

  -- The last step of the run loop makes each pending call once and in order, and none of the calls
  -- that the callbacks schedule meanwhile: afterwards these are pending, in the order of the calls
  -- that scheduled them. This is stated for callbacks that only add to the pending calls, what they
  -- add being given by the connection, event and data.
  pub run_callbacks-defers :
      (user : Handler) (out : ℕ → Event → MsgData → List PendingCall) (s : State)
      → Schedules user out
      → (run_callbacks user s).immediate_callbacks ≡ flat_out out s.immediate_callbacks
  unfolding run_callbacks
  run_callbacks-defers user out s h =
      make_calls-calls user out s.immediate_callbacks (record s { immediate_callbacks = [] }) h

  -- The callback of a tcp conn runs on the state as it is.
  pub make_call-tcp :
      (user : Handler) (call : PendingCall) (s : State)
      → (s.conn_at call.conn).protocol_type ≡ msg_tcp
      → make_call user call s
        ≡ free_after call.to_free
            (user (s.conn_at call.conn).callback call.conn call.event call.payload s)
  unfolding make_call before_call call_ready save_context
  make_call-tcp user call s tcp = rw tcp refl

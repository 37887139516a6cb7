-- ===== src/Runloop/Calls.antt =====
-- The callbacks, made of the elementary changes and of what the user's functions do.
use msgbox.Prelude.{ℕ, refl, List, [], ◌∷◌, Option, none, some, ◌==◌, Bool-cases, inl, inr}
use msgbox.Cstructs.{Cstructs}
use msgbox.Types.{Event, MsgData, Buffer, msg_udp}
use msgbox.Libc.{Libc}
use msgbox.State.{State, PendingCall, ToFree, free_nothing, free_conn, free_bytes, set_conn}
use msgbox.Moves.{Closed}
use msgbox.Status.{status_of_conn}
use msgbox.Runloop.{
  Handler, conn_from, restore_context, restore_metadata, before_call, save_context, free_after,
  call_ready, make_call, make_calls, run_callbacks,
}

module _ ⦃cs : Cstructs⦄ ⦃os : Libc⦄ {P : State → Type 0} (k : Closed P) where
  restore_context-Closed :
      (p : ℕ) (status : Option ℕ) (s : State) → P s → P (restore_context p status s).1
  unfolding restore_context
  restore_context-Closed p none s h = h
  restore_context-Closed p (some st) s h = k.conn p _ s (record { index = refl; socket = refl }) h

  restore_metadata-Closed :
      (p : ℕ) (buffer : Option Buffer) (s : State) → P s → P (restore_metadata p buffer s).1
  unfolding restore_metadata
  restore_metadata-Closed p none s h = h
  restore_metadata-Closed p (some b) s h =
      let s1 = set_conn p (conn_from b (s.conn_at p)) s in
      restore_context-Closed p (status_of_conn p s1) s1
        (k.conn p _ s (record { index = refl; socket = refl }) h)

  before_call-Closed : (call : PendingCall) (s : State) → P s → P (before_call call s).1
  unfolding before_call
  before_call-Closed call s h = elim (Bool-cases ((s.conn_at call.conn).protocol_type == msg_udp)) [
    | inl e ↦ rw e (restore_metadata-Closed call.conn call.payload.buffer s h)
    | inr e ↦ rw e h
  ]

  save_context-Closed : (p : ℕ) (status : Option ℕ) (s : State) → P s → P (save_context p status s)
  unfolding save_context
  save_context-Closed p none s h = h
  save_context-Closed p (some st) s h = elim (Bool-cases ((s.conn_at p).protocol_type == msg_udp)) [
    | inl e ↦ rw e (k.status st _ s (λ x. record { fills = x.fills; next = x.next }) h)
    | inr e ↦ rw e h
  ]

  free_after-Closed : (to_free : ToFree) (s : State) → P s → P (free_after to_free s)
  free_after-Closed free_nothing s h = h
  free_after-Closed (free_conn q) s h =
      k.noted s s.immediate_callbacks s.removals s.conn_status _ s.errno s.stream s.fault h
  free_after-Closed (free_bytes d) s h = h

  -- What a callback brings about holds after its call.
  pub make_call-after :
      (user : Handler) (call : PendingCall) (s : State)
      → ((callback : ℕ) (t : State) → P (user callback call.conn call.event call.payload t))
      → P (make_call user call s)
  unfolding make_call call_ready
  make_call-after user call s brings =
      let (status, t) = before_call call s in
      free_after-Closed call.to_free _
        (save_context-Closed call.conn status _ (brings (t.conn_at call.conn).callback t))

  module _ (user : Handler)
      (kept : (callback p : ℕ) (event : Event) (d : MsgData) (s : State)
        → P s
        → P (user callback p event d s)) where
    call_ready-Closed :
        (call : PendingCall) (r : Option ℕ × State) → P r.1 → P (call_ready user call r)
    unfolding call_ready
    call_ready-Closed call (status, s) h = free_after-Closed call.to_free _ (
        save_context-Closed call.conn status _
          (kept (s.conn_at call.conn).callback call.conn call.event call.payload s h))

    pub make_calls-Closed :
        (calls : List PendingCall) (s : State) → P s → P (make_calls user calls s)
    unfolding make_calls make_call
    make_calls-Closed [] s h = h
    make_calls-Closed (call ∷ rest) s h =
        make_calls-Closed rest _
          (call_ready-Closed call (before_call call s) (before_call-Closed call s h))

    pub run_callbacks-Closed : (s : State) → P s → P (run_callbacks user s)
    unfolding run_callbacks
    run_callbacks-Closed s h =
        make_calls-Closed s.immediate_callbacks (record s { immediate_callbacks = [] })
          (k.noted s [] s.removals s.conn_status s.freed_conns s.errno s.stream s.fault h)

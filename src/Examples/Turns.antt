-- ===== src/Examples/Turns.antt =====
-- How the loops of the two programs end: a turn of the run loop in which the callback for the last
-- event runs sets `done`.
use msgbox.Prelude.{
  ℕ, zero, suc, ◌≡◌, refl, ap, ◌∙◌, subst, sym, true, false, List, [], ◌∷◌, ◌++◌, Option, some,
  ◌==◌, Option-cases, inl, inr,
}
use msgbox.Cstructs.{Cstructs}
use msgbox.Types.{
  Event, msg_message, msg_request, msg_reply, msg_listening, msg_listening_ended,
  msg_connection_ready, msg_connection_closed, msg_connection_lost, msg_error, MsgData,
}
use msgbox.Libc.{Libc}
use msgbox.State.{State, PendingCall, Call, Response, done, fail, answer_with}
use msgbox.State.Callbacks.{alloc_conn}
use msgbox.Status.{add_status}
use msgbox.Moves.{Closed}
use msgbox.Timeouts.{check_timeouts, add_timeout}
use msgbox.Poll.{clear_removals, set_conn_to_poll_mode}
use msgbox.Poll.Arrays.{remove_conn_at-memory}
use msgbox.Api.Moves.{msg_send-Closed, msg_get-Closed}
use msgbox.Runloop.{
  Handler, make_call, make_calls, run_callbacks, poll_sockets, no_delay, msg_runloop,
}
use msgbox.Runloop.Calls.{make_call-after, make_calls-Closed}
use msgbox.Examples.{msg_as_str, is_done, run_until_done, timeout_in_ms}
use msgbox.Examples.EchoServer
use msgbox.Examples.EchoClient

abbrev Done : State → Type 0
Done s = is_done s ≡ true

answer_with-Done :
    (call : Call) (script : List Response) (s : State) → Done s → Done (answer_with call script s).1
answer_with-Done call [] s h = h
answer_with-Done call (done a ∷ rest) s h = h
answer_with-Done call (fail e ∷ rest) s h = h

module _ ⦃cs : Cstructs⦄ ⦃os : Libc⦄ where
  -- The library does not write to the program's variables.
  Done-Closed : Closed Done
  unfolding add_status add_timeout set_conn_to_poll_mode alloc_conn
  Done-Closed = record {
    called = λ call script s same h. answer_with-Done call script s h;
    noted = λ s calls removals known freed errno stream fault h. h;
    conn = λ p c s same h. h;
    status = λ st x s is h. h;
    new_status = λ x a s is h. h;
    timeout = λ p st reply_id s h. h;
    no_timeout = λ i s h. h;
    mode = λ i m s h. h;
    polled = λ revents s h. h;
    removed = λ i s h. ap (λ (f : ℕ → ℕ). f 0 == 1) (remove_conn_at-memory i s) ∙ h;
    allocated = λ c s h. h;
    appended = λ p fd s t e1 l e2 e3 lt h h'. h';
  }

  -- What the library does in a turn before it makes the callbacks.
  abbrev pub before_callbacks : Option ℕ → State → State
  before_callbacks timeout s = check_timeouts (poll_sockets (no_delay timeout s) (clear_removals s))

  module _ (user : Handler) (last : Event)
      (kept : (callback p : ℕ) (event : Event) (d : MsgData) (s : State)
        → Done s
        → Done (user callback p event d s))
      (stops : (callback p : ℕ) (d : MsgData) (s : State) → Done (user callback p last d s)) where
    make_calls-stops :
        (before after : List PendingCall) (call : PendingCall) (s : State)
        → call.event ≡ last
        → Done (make_calls user (before ++ call ∷ after) s)
    unfolding make_calls
    make_calls-stops [] after call s e =
        make_calls-Closed Done-Closed user kept after (make_call user call s) (
          make_call-after Done-Closed user call s (λ callback t.
            subst (λ (event : Event). Done (user callback call.conn event call.payload t)) (sym e)
              (stops callback call.conn call.payload t)))
    make_calls-stops (first ∷ before) after call s e =
        make_calls-stops before after call (make_call user first s) e

    msg_runloop-stops :
        (before after : List PendingCall) (call : PendingCall) (timeout : Option ℕ) (s : State)
        → (before_callbacks timeout s).immediate_callbacks ≡ before ++ call ∷ after
        → call.event ≡ last
        → Done (msg_runloop user timeout s)
    unfolding msg_runloop run_callbacks
    msg_runloop-stops before after call timeout s pending e =
        let s1 = before_callbacks timeout s in
        subst (λ calls. Done (make_calls user calls (record s1 { immediate_callbacks = [] })))
          (sym pending)
          (make_calls-stops before after call (record s1 { immediate_callbacks = [] }) e)

    run_until_done-now : (fuel : ℕ) (s : State) → Done s → run_until_done fuel user s ≡ some s
    unfolding run_until_done
    run_until_done-now zero s h = rw h
    run_until_done-now (suc fuel) s h = rw h

    run_until_done-stops :
        (fuel : ℕ) (before after : List PendingCall) (call : PendingCall) (s : State)
        → is_done s ≡ false
        → (before_callbacks timeout_in_ms s).immediate_callbacks ≡ before ++ call ∷ after
        → call.event ≡ last
        → run_until_done (suc fuel) user s ≡ some (msg_runloop user timeout_in_ms s)
    unfolding run_until_done
    run_until_done-stops fuel before after call s running pending e = rw running (
        run_until_done-now fuel (msg_runloop user timeout_in_ms s)
          (msg_runloop-stops before after call timeout_in_ms s pending e))

  echo-Done : (p : ℕ) (d : MsgData) (s : State) → Done s → Done (EchoServer.echo p d s)
  unfolding EchoServer.echo
  echo-Done p d s h = elim (Option-cases (msg_as_str d)) [
    | inl e ↦ rw (EchoServer.echo, e) h
    | inr (text, e) ↦ rw (EchoServer.echo, e) (msg_send-Closed Done-Closed p _ s h)
  ]

  server-kept :
      (callback p : ℕ) (event : Event) (d : MsgData) (s : State)
      → Done s
      → Done (EchoServer.update_handler callback p event d s)
  unfolding EchoServer.update
  server-kept callback p msg_message d s h = echo-Done p d s h
  server-kept callback p msg_request d s h = echo-Done p d s h
  server-kept callback p msg_reply d s h = h
  server-kept callback p msg_listening d s h = h
  server-kept callback p msg_listening_ended d s h = h
  server-kept callback p msg_connection_ready d s h = h
  server-kept callback p msg_connection_closed d s h = refl
  server-kept callback p msg_connection_lost d s h = h
  server-kept callback p msg_error d s h = h

  client-kept :
      (callback p : ℕ) (event : Event) (d : MsgData) (s : State)
      → Done s
      → Done (EchoClient.update_handler callback p event d s)
  unfolding EchoClient.update
  client-kept callback p msg_message d s h = msg_get-Closed Done-Closed p _ _ s h
  client-kept callback p msg_request d s h = h
  client-kept callback p msg_reply d s h = refl
  client-kept callback p msg_listening d s h = h
  client-kept callback p msg_listening_ended d s h = h
  client-kept callback p msg_connection_ready d s h = msg_send-Closed Done-Closed p _ s h
  client-kept callback p msg_connection_closed d s h = h
  client-kept callback p msg_connection_lost d s h = h
  client-kept callback p msg_error d s h = h

  client-stops :
      (fuel : ℕ) (before after : List PendingCall) (call : PendingCall) (s : State)
      → is_done s ≡ false
      → (before_callbacks timeout_in_ms s).immediate_callbacks ≡ before ++ call ∷ after
      → call.event ≡ msg_reply
      → run_until_done (suc fuel) EchoClient.update_handler s
        ≡ some (msg_runloop EchoClient.update_handler timeout_in_ms s)
  unfolding EchoClient.update
  client-stops fuel before after call s running pending e =
      run_until_done-stops EchoClient.update_handler msg_reply client-kept (λ callback p d t. refl)
        fuel before after call s running pending e

  server-stops :
      (fuel : ℕ) (before after : List PendingCall) (call : PendingCall) (s : State)
      → is_done s ≡ false
      → (before_callbacks timeout_in_ms s).immediate_callbacks ≡ before ++ call ∷ after
      → call.event ≡ msg_connection_closed
      → run_until_done (suc fuel) EchoServer.update_handler s
        ≡ some (msg_runloop EchoServer.update_handler timeout_in_ms s)
  unfolding EchoServer.update
  server-stops fuel before after call s running pending e =
      run_until_done-stops EchoServer.update_handler msg_connection_closed server-kept
        (λ callback p d t. refl) fuel before after call s running pending e

  -- The loops of both programs end: a turn in which, when the callbacks begin, a msg_reply is
  -- pending in the client, or a msg_connection_closed in the server, is the last one. This holds
  -- whatever other callbacks are pending before and after it, and for every bound on the turns but
  -- zero.
  pub run_until_done-ends :
      (fuel : ℕ) (before after before' after' : List PendingCall) (reply closed : PendingCall)
      (s r : State)
      → is_done s ≡ false
      → (before_callbacks timeout_in_ms s).immediate_callbacks ≡ before ++ reply ∷ after
      → reply.event ≡ msg_reply
      → is_done r ≡ false
      → (before_callbacks timeout_in_ms r).immediate_callbacks ≡ before' ++ closed ∷ after'
      → closed.event ≡ msg_connection_closed
      → (run_until_done (suc fuel) EchoClient.update_handler s
          ≡ some (msg_runloop EchoClient.update_handler timeout_in_ms s))
        × (run_until_done (suc fuel) EchoServer.update_handler r
            ≡ some (msg_runloop EchoServer.update_handler timeout_in_ms r))
  run_until_done-ends fuel before after before' after' reply closed s r running at e running' at'
        e' =
      (
        client-stops fuel before after reply s running at e,
        server-stops fuel before' after' closed r running' at' e',
      )

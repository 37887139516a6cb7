-- ===== src/Tests/Programs.antt =====
-- Runs of programs (Invariant/Reach.antt, Examples.antt).
use msgbox.Prelude.{◌≡◌, refl, [], ◌∷◌, ◌++◌, some, codes}
use msgbox.Types.{Event, msg_reply, msg_connection_closed, no_data}
use msgbox.State.{State, PendingCall, initial_state, free_nothing}
use msgbox.Poll.{clear_removals}
use msgbox.Timeouts.{check_timeouts}
use msgbox.Api.{msg_send}
use msgbox.Open.{msg_listen}
use msgbox.Runloop.{Handler, poll_sockets, msg_runloop}
use msgbox.Invariant.{IsSound}
use msgbox.Invariant.Reach.{
  start, next, act, turn, listen_at, send, none_more, one_more, Reach-IsSound,
}
use msgbox.Examples.{run_until_done, timeout_in_ms}
use msgbox.Examples.EchoServer
use msgbox.Examples.EchoClient
use msgbox.Examples.Turns.{before_callbacks, run_until_done-ends}
use msgbox.Tests.Fixtures.{arrays_and_maps, system, accepts, hello}

-- Every callback sends a greeting.
abbrev greet : Handler
greet callback conn event d s = msg_send conn hello s

abbrev opening : State
opening = initial_state (accepts 8 ∷ accepts 0 ∷ accepts 0 ∷ accepts 0 ∷ [])

Reach-IsSound_example :
    IsSound (msg_runloop greet (some 10) (msg_listen (codes "tcp://*:2345") 9 opening))
Reach-IsSound_example = Reach-IsSound (
    next
      (next (start (accepts 8 ∷ accepts 0 ∷ accepts 0 ∷ accepts 0 ∷ []))
        (act (listen_at (codes "tcp://*:2345") 9 opening)))
      (turn greet (some 10) (msg_listen (codes "tcp://*:2345") 9 opening)
        (λ callback p event d t. one_more none_more (send p hello t))))

abbrev call_of : Event → PendingCall
call_of event = record { conn = 0; event = event; payload = no_data; to_free = free_nothing }

abbrev about_to : Event → State
about_to event = record (initial_state []) { immediate_callbacks = call_of event ∷ [] }

about_to-pending :
    (event : Event)
    → (before_callbacks timeout_in_ms (about_to event)).immediate_callbacks
      ≡ [] ++ call_of event ∷ []
unfolding poll_sockets clear_removals check_timeouts
about_to-pending event = refl

run_until_done-ends_example :
    (run_until_done 3 EchoClient.update_handler (about_to msg_reply)
      ≡ some (msg_runloop EchoClient.update_handler timeout_in_ms (about_to msg_reply)))
    × (run_until_done 3 EchoServer.update_handler (about_to msg_connection_closed)
        ≡ some
            (msg_runloop EchoServer.update_handler timeout_in_ms (about_to msg_connection_closed)))
run_until_done-ends_example =
    run_until_done-ends 2 [] [] [] [] (call_of msg_reply) (call_of msg_connection_closed)
      (about_to msg_reply) (about_to msg_connection_closed) refl (about_to-pending msg_reply) refl
      refl (about_to-pending msg_connection_closed) refl

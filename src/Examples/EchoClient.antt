-- ===== src/Examples/EchoClient.antt =====
-- The echo client (examples/echo_client.c: update, main).
use msgbox.Prelude.{ℕ, List, [], ◌∷◌, Option, none, some, if◌then◌else◌, codes}
use msgbox.Cstructs.{Cstructs}
use msgbox.Types.{
  no_context, Event, msg_message, msg_request, msg_reply, msg_listening, msg_listening_ended,
  msg_connection_ready, msg_connection_closed, msg_connection_lost, msg_error, MsgData,
}
use msgbox.Libc.{Libc}
use msgbox.State.{State}
use msgbox.State.Callbacks.{msg_new_data}
use msgbox.Api.{msg_send, msg_get, msg_disconnect}
use msgbox.Open.{msg_connect}
use msgbox.Runloop.{Handler}
use msgbox.Examples.{set_variable, done_variable, is_protocol, address_text, run_until_done}

-- The function update, and the text "reply context", as pointers.
abbrev update_pointer : ℕ
update_pointer = 1

abbrev pub reply_context_pointer : ℕ
reply_context_pointer = 2

module _ ⦃cs : Cstructs⦄ ⦃os : Libc⦄ where
  unfoldable pub update : ℕ → Event → MsgData → State → State
  unfolding msg_new_data
  update conn msg_message d s =
      msg_get conn (msg_new_data (codes "request-reply message")) reply_context_pointer s
  update conn msg_request d s = s
  update conn msg_reply d s = set_variable done_variable 1 (msg_disconnect conn s)
  update conn msg_listening d s = s
  update conn msg_listening_ended d s = s
  update conn msg_connection_ready d s = msg_send conn (msg_new_data (codes "one-way message")) s
  update conn msg_connection_closed d s = s
  update conn msg_connection_lost d s = s
  update conn msg_error d s = s

  abbrev pub update_handler : Handler
  update_handler callback conn event d s = update conn event d s

  abbrev pub finish : Option State → Option (ℕ × State)
  finish none = none
  finish (some s) = some (0, s)

  unfoldable pub connect : ℕ → List ℕ → State → Option (ℕ × State)
  connect fuel protocol s = finish (
      run_until_done fuel update_handler
        (msg_connect (address_text protocol (codes "127.0.0.1")) update_pointer no_context s))

  -- The arguments without the program's name, and the exit code; the fuel bounds the turns.
  unfoldable pub main : ℕ → List (List ℕ) → State → Option (ℕ × State)
  unfolding connect
  main fuel [] s = some (2, s)
  main fuel (protocol ∷ []) s =
      if is_protocol protocol then connect fuel protocol s else some (2, s)
  main fuel (protocol ∷ next ∷ more) s = some (2, s)

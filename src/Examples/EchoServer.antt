-- ===== src/Examples/EchoServer.antt =====
-- The echo server (examples/echo_server.c: update, main).
use msgbox.Prelude.{
  ℕ, ◌+◌, ◌-◌, List, [], ◌∷◌, ◌++◌, Option, none, some, ◌==◌, true, if◌then◌else◌, codes, length,
}
use msgbox.Cstructs.{Cstructs}
use msgbox.Types.{
  Event, msg_message, msg_request, msg_reply, msg_listening, msg_listening_ended,
  msg_connection_ready, msg_connection_closed, msg_connection_lost, msg_error, MsgData,
}
use msgbox.Libc.{Libc}
use msgbox.State.{State}
use msgbox.Api.{msg_send, msg_unlisten}
use msgbox.Open.{msg_listen}
use msgbox.Runloop.{Handler, msg_runloop}
use msgbox.Examples.{
  set_variable, done_variable, msg_as_str, sprintf_data, is_protocol, address_text, timeout_in_ms,
  run_until_done,
}

-- `static msg_Conn *listening_conn`
abbrev pub listening_variable : ℕ
listening_variable = 1

abbrev listening_conn : State → Option ℕ
listening_conn s = let c = s.memory listening_variable in if c == 0 then none else some (c - 1)

-- The function update as a pointer.
abbrev update_pointer : ℕ
update_pointer = 1

module _ ⦃cs : Cstructs⦄ ⦃os : Libc⦄ where
  -- Reply to <msg> with echo:<msg>. A message that is no C string is read past its end.
  unfoldable pub echo : ℕ → MsgData → State → State
  unfolding msg_as_str
  echo conn d s = elim (msg_as_str d) [
    | none ↦ record s { fault = true }
    | some text ↦
        msg_send conn (sprintf_data (d.num_bytes + length (codes "echo:")) (codes "echo:" ++ text))
          s
  ]

  unfoldable pub update : ℕ → Event → MsgData → State → State
  unfolding echo
  update conn msg_message d s = echo conn d s
  update conn msg_request d s = echo conn d s
  update conn msg_reply d s = s
  update conn msg_listening d s = set_variable listening_variable (conn + 1) s
  update conn msg_listening_ended d s = s
  update conn msg_connection_ready d s = s
  update conn msg_connection_closed d s = set_variable done_variable 1 s
  update conn msg_connection_lost d s = s
  update conn msg_error d s = s

  abbrev pub update_handler : Handler
  update_handler callback conn event d s = update conn event d s

  -- From the end of the loop on. The exit code is 0.
  unfoldable pub finish : Option State → Option (ℕ × State)
  finish none = none
  finish (some s) =
      some (0, msg_runloop update_handler timeout_in_ms (msg_unlisten (listening_conn s) s))

  unfoldable pub serve : ℕ → List ℕ → State → Option (ℕ × State)
  unfolding finish
  serve fuel protocol s = finish (
      run_until_done fuel update_handler
        (msg_listen (address_text protocol (codes "*")) update_pointer s))

  -- The arguments without the program's name, and the exit code; the fuel bounds the turns.
  unfoldable pub main : ℕ → List (List ℕ) → State → Option (ℕ × State)
  unfolding serve
  main fuel [] s = some (2, s)
  main fuel (protocol ∷ []) s = if is_protocol protocol then serve fuel protocol s else some (2, s)
  main fuel (protocol ∷ next ∷ more) s = some (2, s)

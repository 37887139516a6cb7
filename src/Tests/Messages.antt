-- ===== src/Tests/Messages.antt =====
-- Messages on a tcp connection (Receive.antt, Send.antt, Api.antt).
use msgbox.Prelude.{
  ℕ, ◌+◌, ◌≤◌, ◌≡◌, refl, true, false, List, [], ◌∷◌, ◌++◌, none, some, length, arith,
}
use msgbox.Types.{Header, unset, msg_connection_lost}
use msgbox.Wire.{encode_header}
use msgbox.State.{
  State, Response, done, fail, Answer, set_status, set_conn, free_conn, err_would_block,
}
use msgbox.Receive.{read_from_socket}
use msgbox.Receive.Piece.{Awaits, partial}
use msgbox.Receive.Reassembly.{feed, message_call}
use msgbox.Receive.Heading.{Idle, begin}
use msgbox.Receive.Begin.{read_message, read_empty_message}
use msgbox.Status.{status_of_conn}
use msgbox.Status.Disconnect.{end_call}
use msgbox.Send.{send_all, message_bytes}
use msgbox.Send.Complete.{Outcome, send_all-Outcome, send_all-true, room}
use msgbox.Types.{msg_reply}
use msgbox.Receive.{deliver}
use msgbox.Receive.Replies.{Replied}
use msgbox.Api.Answers.{msg_get-Replied}
use msgbox.Timeouts.{timeout_index}
use msgbox.Timeouts.Lookup.{timeout_index-nil}
use msgbox.Api.{msg_send, msg_get}
use msgbox.Api.Sending.{IsMessage, header_for, Sent}
use msgbox.Api.Requests.{Requested, msg_send-Sent, msg_get-Requested}
use msgbox.Tests.Fixtures.{arrays_and_maps, system, connected, tcp_conn, accepts, hello}

connected-Idle : (script : List Response) → Idle 0 0 (connected script)
connected-Idle script = record { tcp = refl; connected = refl; known = refl; ready = refl }

abbrev greeting : Header
greeting = record { message_type = 0; reply_id = 0; num_bytes = 3 }

abbrev pieces : List (List ℕ)
pieces = (104 ∷ []) ∷ (105 ∷ 33 ∷ []) ∷ []

read_message_example :
    let s1 =
      (read_from_socket 0
        (begin (encode_header greeting) (fail err_would_block ∷ []) (connected []))).1 in
    ((feed 0 pieces s1).immediate_callbacks ≡ message_call 0 greeting (104 ∷ 105 ∷ 33 ∷ []) ∷ [])
    × (((feed 0 pieces s1).status_at 0).waiting_num_bytes ≡ 0)
read_message_example =
    read_message 0 0 greeting pieces (connected []) (connected-Idle []) (omega arith) (omega arith)
      (omega arith) (omega arith) (omega arith, (omega arith, tt)) refl

abbrev nothing : Answer
nothing = record { value = 0; bytes = []; ip = 0; port = 0; revents = [] }

abbrev empty : Header
empty = record { message_type = 0; reply_id = 0; num_bytes = 0 }

read_empty_message_example :
    let r = read_from_socket 0 (begin (encode_header empty) (done nothing ∷ []) (connected [])) in
    (r.0 ≡ false) × (r.1.immediate_callbacks ≡ end_call 0 msg_connection_lost (free_conn 0) ∷ [])
read_empty_message_example =
    read_empty_message 0 0 empty nothing [] (connected []) (connected-Idle []) (omega arith)
      (omega arith) refl (omega arith)

-- One byte of the greeting has come.
abbrev midway : State
midway =
    set_status 0
      (record ((connected []).status_at 0) {
        total_buffer = partial greeting (104 ∷ []);
        waiting_num_bytes = 2;
      })
      (connected [])

midway-Awaits : Awaits 0 0 greeting (104 ∷ []) 2 midway
midway-Awaits = record { tcp = refl; connected = refl; known = refl; holds = refl; waits = refl }

-- Room for a header and three bytes, in two parts, with a call between them that would block.
abbrev two_parts : List Response
two_parts = accepts 4 ∷ fail err_would_block ∷ accepts 7 ∷ []

abbrev framed : ℕ → ℕ → List ℕ
framed msg_type reply_id =
    encode_header (header_for msg_type reply_id (104 ∷ 105 ∷ 33 ∷ [])) ++ 104 ∷ 105 ∷ 33 ∷ []

send_all-Outcome_example :
    Outcome 3 (message_bytes hello) (connected two_parts) (send_all 3 hello (connected two_parts))
send_all-Outcome_example = send_all-Outcome 3 hello (connected two_parts)

room-two_parts : length (message_bytes hello) ≤ room two_parts
unfolding room
room-two_parts = omega arith

room-framed : 8 + 3 ≤ room two_parts
unfolding room
room-framed = omega arith

known_peer : status_of_conn 0 (connected two_parts) ≡ some 0
unfolding status_of_conn
known_peer = refl

send_all-true_example : (send_all 3 hello (connected two_parts)).0 ≡ true
send_all-true_example = send_all-true 3 hello (connected two_parts) room-two_parts

hello-IsMessage : IsMessage hello (104 ∷ 105 ∷ 33 ∷ [])
hello-IsMessage = record {
  size = refl;
  fits = omega arith;
  buffer = record {
    reply_context = none;
    remote_address = none;
    header = unset;
    bytes = 104 ∷ 105 ∷ 33 ∷ [];
  };
  holds = refl;
  written = refl;
}

-- While the reply to request 5 is owed.
abbrev asked : State
asked = set_conn 0 (record tcp_conn { reply_id = 5 }) (connected two_parts)

msg_send-Sent_example : Sent 0 (framed 2 5) asked (msg_send 0 hello asked)
msg_send-Sent_example =
    msg_send-Sent 0 hello (104 ∷ 105 ∷ 33 ∷ []) asked refl hello-IsMessage room-framed

msg_get-Requested_example :
    Requested 0 0 0 77 (framed 1 0) (connected two_parts) (msg_get 0 hello 77 (connected two_parts))
msg_get-Requested_example =
    msg_get-Requested 0 0 hello 77 (104 ∷ 105 ∷ 33 ∷ []) (connected two_parts) refl known_peer
      hello-IsMessage room-framed

no_timeout : timeout_index 0 0 [] ≡ none
no_timeout = timeout_index-nil 0 0

abbrev reply : Header
reply = record { message_type = 2; reply_id = 0; num_bytes = 3 }

msg_get-Replied_example :
    let s' = msg_get 0 hello 77 (connected two_parts) in
    let r = deliver 0 msg_reply hello 0 reply s' in (r.0 ≡ true) × Replied 0 0 0 77 hello [] s' r.1
msg_get-Replied_example =
    msg_get-Replied 0 0 hello 77 (104 ∷ 105 ∷ 33 ∷ []) hello reply (connected two_parts) refl
      known_peer hello-IsMessage room-framed no_timeout refl refl

-- ===== src/Tests/Tables.antt =====
-- The table of outstanding requests, and a datagram (Outstanding.antt, Receive/Datagram.antt).
use msgbox.Prelude.{
  ℕ, ◌≤◌, ◌≡◌, refl, true, List, [], ◌∷◌, Option, none, some, ◌==◌, ◌&&◌, if◌then◌else◌, arith,
}
use msgbox.Types.{Header, unset, msg_reply, msg_request}
use msgbox.State.{State, ConnStatus, no_status, free_nothing, Response}
use msgbox.Status.{status_of_conn}
use msgbox.Timeouts.{check_timeouts}
use msgbox.Receive.{deliver, read_from_socket}
use msgbox.Receive.Peek.{datagram_comes, udp_payload, udp_address}
use msgbox.Receive.Datagram.{read_datagram}
use msgbox.Send.Complete.{room}
use msgbox.Api.{msg_get}
use msgbox.Api.Sending.{IsMessage}
use msgbox.Outstanding.{Request, Holds, lookup, answered}
use msgbox.Outstanding.Steps.{request, wait_on, msg_get-Holds, deliver-Holds, check_timeouts-Holds}
use msgbox.Tests.Fixtures.{arrays_and_maps, system, connected, accepts, hello, listener}

abbrev open_stream : List Response
open_stream = accepts 4 ∷ accepts 60 ∷ []

room-open_stream : 30 ≤ room open_stream
unfolding room
room-open_stream = omega arith

-- The next id of every status is 5.
abbrev fresh_status : ConnStatus
fresh_status = record no_status { next_reply_id = 5 }

abbrev nothing_asked : State
nothing_asked = record (connected open_stream) { status_at = λ st. fresh_status }

nothing_asked-Holds : Holds [] nothing_asked
unfolding lookup
nothing_asked-Holds = record { timeouts = refl; contexts = λ st id narrow. refl; distinct = tt }

nothing_else : lookup 0 5 [] ≡ none
unfolding lookup
nothing_else = refl

known_peer : status_of_conn 0 nothing_asked ≡ some 0
unfolding status_of_conn
known_peer = refl

hello-IsMessage : IsMessage hello (104 ∷ 105 ∷ 33 ∷ [])
hello-IsMessage = record {
  size = refl;
  fits = omega arith;
  buffer = record {
    reply_context = none;
    remote_address = none;
    header = unset;
    bytes = 104 ∷ 105 ∷ 33 ∷ [];
  };
  holds = refl;
  written = refl;
}

msg_get-Holds_example : Holds (request 0 0 0 5 77 ∷ []) (msg_get 0 hello 77 nothing_asked)
msg_get-Holds_example =
    msg_get-Holds 0 0 hello 77 (104 ∷ 105 ∷ 33 ∷ []) [] nothing_asked nothing_asked-Holds refl
      known_peer (omega arith) nothing_else hello-IsMessage (omega (arith, room-open_stream))

-- Requests 4 and 5 of status 0, with the contexts 76 and 77; the first is due.
abbrev two_requests : List Request
two_requests = request 0 0 0 4 76 ∷ request 1500000 0 0 5 77 ∷ []

abbrev two_contexts : ℕ → ℕ → Option ℕ
two_contexts st id =
    if (0 == st) && (4 == id) then some 76 else if (0 == st) && (5 == id) then some 77 else none

abbrev two_asked : State
two_asked = record (connected []) {
  now = 2000000;
  timeouts =
      record { at = 1000000; conn = 0; status = 0; reply_id = 4 }
      ∷ record { at = 2500000; conn = 0; status = 0; reply_id = 5 }
      ∷ [];
  status_at = λ st. record no_status { reply_contexts = λ id. two_contexts st id };
}

two_asked-Holds : Holds two_requests two_asked
unfolding lookup
two_asked-Holds = record {
  timeouts = refl;
  contexts = λ st id narrow. refl;
  distinct = (omega arith, refl, (omega arith, refl, tt));
}

check_timeouts-Holds_example : Holds (wait_on 2000000 two_requests) (check_timeouts two_asked)
check_timeouts-Holds_example = check_timeouts-Holds two_requests two_asked two_asked-Holds

abbrev reply_to_five : Header
reply_to_five = record { message_type = 2; reply_id = 5; num_bytes = 3 }

asked_five : lookup 0 5 two_requests ≡ some 77
unfolding lookup
asked_five = refl

deliver-Holds_example :
    Holds (answered 0 5 two_requests) (deliver 0 msg_reply hello 0 reply_to_five two_asked).1
deliver-Holds_example =
    deliver-Holds 0 0 77 msg_reply hello reply_to_five two_requests two_asked two_asked-Holds refl
      (omega arith) asked_five

-- A request of three bytes, from a known peer to the listening conn.
abbrev request_header : Header
request_header = record { message_type = 1; reply_id = 5; num_bytes = 3 }

abbrev known : State
known = record (connected []) { conn_status = λ a. some 0 }

read_datagram_example :
    let payload : List ℕ = 104 ∷ 105 ∷ 33 ∷ [] in
    let r = read_from_socket 1 (datagram_comes request_header payload 1 80 known) in
    (r.0 ≡ true)
    × (r.1.immediate_callbacks
        ≡ (record {
          conn = 1;
          event = msg_request;
          payload = udp_payload request_header payload (udp_address 1 80);
          to_free = free_nothing;
        })
          ∷ [])
    × (r.1.conn_at 1
        ≡ record listener { remote_ip = 1; remote_port = 80; reply_id = 5; reply_context = 0 })
read_datagram_example =
    read_datagram 1 0 request_header (104 ∷ 105 ∷ 33 ∷ []) 1 80 known refl refl (omega arith)
      (omega arith) (omega arith) refl

-- ===== src/Tests/Peers.antt =====
-- Two programs at the ends of a tcp stream (Exchange.antt, Examples/Echo.antt).
use msgbox.Prelude.{ℕ, ◌≤◌, ◌≡◌, refl, ap, ◌∙◌, false, List, [], ◌∷◌, ◌++◌, none, some, arith}
use msgbox.Types.{MsgData, unset, msg_connection_closed, msg_request}
use msgbox.Wire.{encode_header}
use msgbox.Wire.RoundTrip.{length-encode_header}
use msgbox.State.{
  State, Response, set_status, fail, err_would_block, free_conn, sys_close, sys_recv, sys_peek,
}
use msgbox.Status.{status_of_conn}
use msgbox.Status.Disconnect.{end_call, local_disconnect-stream}
use msgbox.Timeouts.Lookup.{timeout_index-nil}
use msgbox.Receive.{read_from_socket}
use msgbox.Receive.Heading.{Idle, begin}
use msgbox.Receive.Piece.{partial}
use msgbox.Receive.Reassembly.{message_call}
use msgbox.Receive.Replies.{Replied}
use msgbox.Send.Complete.{room}
use msgbox.Api.{msg_get, msg_send, msg_disconnect}
use msgbox.Api.Closing.{close_header, msg_disconnect-Sent}
use msgbox.Api.Sending.{IsMessage, header_for, Sent}
use msgbox.Api.Requests.{msg_send-Sent, msg_get-Requested}
use msgbox.Runloop.{Handler}
use msgbox.Exchange.{Arrival, receive}
use msgbox.Exchange.Delivery.{msg_send-delivered}
use msgbox.Exchange.Request.{Asked, request-Asked, answer-stream}
use msgbox.Exchange.Answer.{served, run_callbacks-answer, msg_get-answered}
use msgbox.Exchange.Unknown.{Unrecognized, receive-Unrecognized, msg_send-unrecognized}
use msgbox.Exchange.Closing.{msg_disconnect-heard}
use msgbox.Examples.Echo.{
  echo_of, echo_data, echo_data-IsMessage, serve_callbacks, run_callbacks-echo, msg_get-echoed,
}
use msgbox.Tests.Fixtures.{arrays_and_maps, system, connected, accepts}

-- Room for many bytes, with a call in between that would block.
abbrev open_stream : List Response
open_stream = accepts 4 ∷ fail err_would_block ∷ accepts 60 ∷ []

room-open_stream : 30 ≤ room open_stream
unfolding room
room-open_stream = omega arith

-- A conn whose next request has the id 5.
abbrev calling : State
calling =
    set_status 0 (record ((connected open_stream).status_at 0) { next_reply_id = 5 })
      (connected open_stream)

calling-Idle : Idle 0 0 calling
calling-Idle = record { tcp = refl; connected = refl; known = refl; ready = refl }

abbrev waiting : State
waiting = connected []

waiting-Idle : Idle 0 0 waiting
waiting-Idle = record { tcp = refl; connected = refl; known = refl; ready = refl }

-- The C string "hi" as a message.
abbrev hi : List ℕ
hi = 104 ∷ 105 ∷ 0 ∷ []

abbrev hi_data : MsgData
hi_data = record {
  num_bytes = 3;
  buffer =
      some (record { reply_context = none; remote_address = none; header = unset; bytes = hi });
}

hi_data-IsMessage : IsMessage hi_data hi
hi_data-IsMessage = record {
  size = refl;
  fits = omega arith;
  buffer = record { reply_context = none; remote_address = none; header = unset; bytes = hi };
  holds = refl;
  written = refl;
}

abbrev hi_pieces : List (List ℕ)
hi_pieces = (104 ∷ []) ∷ (105 ∷ 0 ∷ []) ∷ []

abbrev hdr_for : ℕ → ℕ → List ℕ → List ℕ
hdr_for msg_type reply_id payload = encode_header (header_for msg_type reply_id payload)

hi-Arrival :
    (msg_type reply_id : ℕ) (old new : List ℕ)
    → new ≡ old ++ (hdr_for msg_type reply_id hi ++ hi)
    → Arrival old new (hdr_for msg_type reply_id hi) hi_pieces
hi-Arrival msg_type reply_id old new gained = record {
  header = length-encode_header (header_for msg_type reply_id hi);
  nonempty = (omega arith, (omega arith, tt));
  gained = gained;
}

msg_send-delivered_example :
    (receive 0 (hdr_for 0 0 hi) hi_pieces waiting).immediate_callbacks
    ≡ message_call 0 (header_for 0 0 hi) hi ∷ []
msg_send-delivered_example =
    msg_send-delivered 0 0 0 hi_data (hdr_for 0 0 hi) hi hi_pieces calling waiting refl refl
      hi_data-IsMessage (omega arith) (omega (arith, room-open_stream)) waiting-Idle
      (hi-Arrival 0 0 _ _
        (msg_send-Sent 0 hi_data hi calling refl hi_data-IsMessage
          (omega (arith, room-open_stream))).stream)

known_peer : status_of_conn 0 calling ≡ some 0
unfolding status_of_conn
known_peer = refl

-- The request reaches the server.
there :
    Arrival (calling.stream 3) ((msg_get 0 hi_data 77 calling).stream 3) (hdr_for 1 5 hi) hi_pieces
there =
    hi-Arrival 1 5 _ _
      (msg_get-Requested 0 0 hi_data 77 hi calling refl known_peer hi_data-IsMessage
        (omega (arith, room-open_stream))).stream

abbrev server : State
server = receive 0 (hdr_for 1 5 hi) hi_pieces waiting

server-Asked : Asked 0 5 hi waiting server
server-Asked =
    request-Asked 0 0 5 _ _ (hdr_for 1 5 hi) hi hi_pieces waiting waiting-Idle there there.gained
      (omega arith) (omega arith) (omega arith)

-- A callback that answers each request with the same message.
abbrev polite : Handler
polite callback conn event d s = elim event [ msg_request ↦ msg_send conn hi_data s | _ ↦ s ]

back :
    Arrival
      (waiting.stream 3)
      ((served polite open_stream server).stream 3)
      (hdr_for 2 5 hi)
      hi_pieces
back = hi-Arrival 2 5 _ _ (
    ap (λ (u : State). u.stream 3)
      (run_callbacks-answer polite 0 5 hi_data hi open_stream server (λ callback t. refl)
        (ap (λ c. c.protocol_type) server-Asked.owes) server-Asked.callbacks)
    ∙ answer-stream 0 5 hi_data hi open_stream waiting (record server { immediate_callbacks = [] })
        server-Asked.owes server-Asked.stream refl (omega arith) hi_data-IsMessage
        (omega (arith, room-open_stream)))

msg_get-answered_example :
    Asked 0 5 hi waiting server
    × Replied 0 0 5 77
        (partial (header_for 2 5 hi) hi)
        []
        (msg_get 0 hi_data 77 calling)
        (receive 0 (hdr_for 2 5 hi) hi_pieces (msg_get 0 hi_data 77 calling))
msg_get-answered_example =
    msg_get-answered polite 0 0 0 0 hi_data hi_data 77 hi hi (hdr_for 1 5 hi) (hdr_for 2 5 hi)
      hi_pieces hi_pieces open_stream calling waiting calling-Idle (omega arith) (omega arith)
      (timeout_index-nil 0 5) hi_data-IsMessage (omega arith) (omega (arith, room-open_stream))
      waiting-Idle refl (λ callback t. refl) hi_data-IsMessage (omega arith)
      (omega (arith, room-open_stream)) there back

-- The echo of the request, of eight bytes, in one piece.
abbrev echoed : List ℕ
echoed = echo_of (104 ∷ 105 ∷ [])

echo_back :
    Arrival
      (waiting.stream 3)
      ((serve_callbacks open_stream server).stream 3)
      (hdr_for 2 5 echoed)
      (echoed ∷ [])
echo_back = record {
  header = length-encode_header (header_for 2 5 echoed);
  nonempty = (omega arith, tt);
  gained =
      ap (λ (u : State). u.stream 3)
        (run_callbacks-echo 0 5 (104 ∷ 105 ∷ []) open_stream server
          (ap (λ c. c.protocol_type) server-Asked.owes) refl server-Asked.callbacks)
      ∙ answer-stream 0 5 (echo_data (104 ∷ 105 ∷ [])) echoed open_stream waiting
          (record server { immediate_callbacks = [] }) server-Asked.owes server-Asked.stream refl
          (omega arith) (echo_data-IsMessage (104 ∷ 105 ∷ []) (omega arith))
          (omega (arith, room-open_stream));
}

msg_get-echoed_example :
    Replied 0 0 5 77
      (partial (header_for 2 5 echoed) echoed)
      []
      (msg_get 0 hi_data 77 calling)
      (receive 0 (hdr_for 2 5 echoed) (echoed ∷ []) (msg_get 0 hi_data 77 calling))
msg_get-echoed_example =
    msg_get-echoed 0 0 0 0 hi_data 77 (104 ∷ 105 ∷ []) (hdr_for 1 5 hi) (hdr_for 2 5 echoed)
      hi_pieces (echoed ∷ []) open_stream calling waiting calling-Idle (omega arith) (omega arith)
      (timeout_index-nil 0 5) refl (omega arith) hi_data-IsMessage (omega (arith, room-open_stream))
      waiting-Idle refl (omega (arith, room-open_stream)) there echo_back

-- The close message of a disconnect.
abbrev close_bytes : List ℕ
close_bytes = encode_header close_header

closing : Arrival (calling.stream 3) ((msg_disconnect 0 calling).stream 3) close_bytes []
closing =
    let (s1, sent, ended) = msg_disconnect-Sent 0 calling refl (omega (arith, room-open_stream)) in
    record {
      header = length-encode_header close_header;
      nonempty = tt;
      gained =
          ap (λ (u : State). u.stream 3) ended
          ∙ ap (λ (f : ℕ → List ℕ). f 3) (local_disconnect-stream 0 msg_connection_closed s1)
          ∙ sent.stream;
    }

msg_disconnect-heard_example :
    let heard = read_from_socket 0 (begin close_bytes [] waiting) in
    ((msg_disconnect 0 calling).immediate_callbacks
      ≡ end_call 0 msg_connection_closed (free_conn 0) ∷ [])
    × (heard.0 ≡ false)
    × (heard.1.immediate_callbacks ≡ end_call 0 msg_connection_closed (free_conn 0) ∷ [])
    × (heard.1.calls ≡ sys_close 3 ∷ sys_recv 3 8 ∷ sys_peek 3 8 ∷ [])
msg_disconnect-heard_example =
    msg_disconnect-heard 0 0 0 close_bytes [] calling waiting refl (omega (arith, room-open_stream))
      waiting-Idle closing

-- The reply to request 5, when the request has timed out.
late : Arrival [] (hdr_for 2 5 hi ++ hi) (hdr_for 2 5 hi) hi_pieces
late = hi-Arrival 2 5 _ _ refl

receive-Unrecognized_example :
    Unrecognized 0 5
      (partial (header_for 2 5 hi) hi)
      waiting
      (receive 0 (hdr_for 2 5 hi) hi_pieces waiting)
receive-Unrecognized_example =
    receive-Unrecognized 0 0 5 [] _ (hdr_for 2 5 hi) hi hi_pieces waiting waiting-Idle late refl
      (omega arith) (omega arith) (omega arith) refl

msg_send-unrecognized_example :
    let s' : State = record (receive 0 (hdr_for 2 5 hi) hi_pieces waiting) {
      script = open_stream;
    } in
    Sent 0 (hdr_for 2 5 hi ++ hi) s' (msg_send 0 hi_data s')
msg_send-unrecognized_example =
    msg_send-unrecognized 0 0 5 [] _ (hdr_for 2 5 hi) hi hi_pieces hi_data hi open_stream waiting
      waiting-Idle late refl (omega arith) (omega arith) (omega arith) (omega arith) refl
      hi_data-IsMessage (omega (arith, room-open_stream))

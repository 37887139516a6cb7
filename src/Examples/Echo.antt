-- ===== src/Examples/Echo.antt =====
-- The echo server answers: its callback alone, and a request from its sending to its reply.
use mathlib.Core.Option
use msgbox.Prelude.{
  ℕ, ◌+◌, ◌≤◌, ◌<◌, ◌≡◌, ◌≢◌, refl, sym, ap, ◌∙◌, Bool-cases, false, List, [], ◌∷◌, ◌++◌, none,
  some, inl, inr, ◌==◌, length, length-append, arith, codes,
}
use msgbox.Cstructs.{Cstructs}
use msgbox.Types.{Conn, MsgData, unset, msg_tcp, msg_type_request, msg_type_reply}
use msgbox.Libc.{Libc, contains}
use msgbox.State.{State, Response, PendingCall}
use msgbox.Timeouts.{timeout_index}
use msgbox.Receive.{event_of}
use msgbox.Receive.Piece.{partial}
use msgbox.Receive.Reassembly.{message_call}
use msgbox.Receive.Replies.{Replied}
use msgbox.Receive.Heading.{Idle}
use msgbox.Send.Complete.{room}
use msgbox.Api.{msg_send, msg_get}
use msgbox.Api.Sending.{IsMessage, header_for}
use msgbox.Api.Requests.{msg_get-Requested}
use msgbox.Status.{status_of_conn}
use msgbox.Exchange.{Arrival, receive}
use msgbox.Exchange.Request.{request-Asked, answer-stream}
use msgbox.Exchange.Answer.{reply-Replied}
use msgbox.Runloop.{make_call, make_calls, run_callbacks}
use msgbox.Runloop.Deferred.{make_call-tcp}
use msgbox.Examples.{c_str, msg_as_str, sprintf_data}
use msgbox.Examples.EchoServer.{echo, update, update_handler}

c_str-append : (text : List ℕ) → contains text 0 ≡ false → c_str (text ++ 0 ∷ []) ≡ some text
unfolding c_str
c_str-append [] h = refl
c_str-append (c ∷ text) h = elim (Bool-cases (c == 0)) [
  | inl e ↦ absurd (ground arith)
  | inr e ↦ rw e (ap (Option.map (λ (cs : List ℕ). c ∷ cs)) (c_str-append text (ground arith)))
]

-- A C string as a payload.
abbrev pub terminated : List ℕ → List ℕ
terminated text = text ++ 0 ∷ []

-- The echo of this text as a payload.
abbrev pub echo_of : List ℕ → List ℕ
echo_of text = terminated (codes "echo:" ++ text)

length-echo_of : (text : List ℕ) → length (echo_of text) ≡ length (terminated text) + 5
length-echo_of text =
    omega (arith, length-append (codes "echo:" ++ text) (0 ∷ []), length-append text (0 ∷ []))

abbrev pub echo_data : List ℕ → MsgData
echo_data text = sprintf_data (length (terminated text) + 5) (codes "echo:" ++ text)

pub echo_data-IsMessage :
    (text : List ℕ)
    → length (terminated text) + 5 < 4294967296
    → IsMessage (echo_data text) (echo_of text)
echo_data-IsMessage text small = record {
  size = sym (length-echo_of text);
  fits = omega (arith, length-echo_of text);
  buffer = record {
    reply_context = none;
    remote_address = none;
    header = unset;
    bytes = echo_of text;
  };
  holds = refl;
  written = refl;
}

module _ ⦃cs : Cstructs⦄ ⦃os : Libc⦄ where
  abbrev pub request_call : ℕ → ℕ → List ℕ → PendingCall
  request_call q reply_id payload =
      message_call q (header_for msg_type_request reply_id payload) payload

  echo-text :
      (conn : ℕ) (d : MsgData) (text : List ℕ) (s : State)
      → msg_as_str d ≡ some text
      → echo conn d s
        ≡ msg_send conn
            (sprintf_data (d.num_bytes + length (codes "echo:")) (codes "echo:" ++ text))
            s
  unfolding echo
  echo-text conn d text s e = rw (echo, e) refl

  make_call-echo :
      (q reply_id : ℕ) (text : List ℕ) (s : State)
      → (s.conn_at q).protocol_type ≡ msg_tcp
      → contains text 0 ≡ false
      → make_call update_handler (request_call q reply_id (terminated text)) s
        ≡ msg_send q (echo_data text) s
  unfolding event_of update msg_as_str
  make_call-echo q reply_id text s tcp plain =
      make_call-tcp update_handler (request_call q reply_id (terminated text)) s tcp
      ∙ echo-text q
          (partial (header_for msg_type_request reply_id (terminated text)) (terminated text)) text
          s (c_str-append text plain)

  -- All callbacks of the server, with other answers of the system.
  abbrev pub serve_callbacks : List Response → State → State
  serve_callbacks script s = run_callbacks update_handler (record s { script = script })

  pub run_callbacks-echo :
      (q reply_id : ℕ) (text : List ℕ) (script : List Response) (s : State)
      → (s.conn_at q).protocol_type ≡ msg_tcp
      → contains text 0 ≡ false
      → s.immediate_callbacks ≡ request_call q reply_id (terminated text) ∷ []
      → serve_callbacks script s
        ≡ msg_send q (echo_data text) (record s { script = script; immediate_callbacks = [] })
  unfolding run_callbacks make_calls
  run_callbacks-echo q reply_id text script s tcp plain pending =
      ap
        (λ (calls : List PendingCall).
          make_calls update_handler calls (record s { script = script; immediate_callbacks = [] }))
        pending
      ∙ make_call-echo q reply_id text (record s { script = script; immediate_callbacks = [] }) tcp
          plain

  -- The echo server echoes. A client between two messages calls msg_get with a C string; its bytes
  -- arrive at an echo server between two messages that has no pending callbacks, which then makes
  -- its callbacks; the bytes that these send arrive at the client. Then the client gets one
  -- msg_reply callback with echo: and the string, and with the context that it gave, and its
  -- timeouts are as before. The id is below 65536 and not 0, no other timeout is for it, the echo
  -- fits 32 bits, both streams have room, and bytes arrive as first the header alone and then the
  -- payload in any pieces that are not empty.
  pub msg_get-echoed :
      (p q st stq : ℕ) (d : MsgData) (context : ℕ) (text hdr hdr' : List ℕ)
      (pieces pieces' : List (List ℕ)) (script : List Response) (s r : State)
      → Idle p st s
      → (s.status_at st).next_reply_id < 65536
      → (s.status_at st).next_reply_id ≢ 0
      → timeout_index st (s.status_at st).next_reply_id s.timeouts ≡ none
      → contains text 0 ≡ false
      → length (terminated text) + 5 < 4294967296
      → IsMessage d (terminated text)
      → 8 + length (terminated text) ≤ room s.script
      → Idle q stq r
      → r.immediate_callbacks ≡ []
      → 8 + (length (terminated text) + 5) ≤ room script
      → Arrival
          (s.stream (s.conn_at p).socket)
          ((msg_get p d context s).stream (s.conn_at p).socket)
          hdr
          pieces
      → Arrival
          (r.stream (r.conn_at q).socket)
          ((serve_callbacks script (receive q hdr pieces r)).stream (r.conn_at q).socket)
          hdr'
          pieces'
      → let reply_id = (s.status_at st).next_reply_id in
        let client = msg_get p d context s in
        Replied p st reply_id context
          (partial (header_for msg_type_reply reply_id (echo_of text)) (echo_of text))
          s.timeouts
          client
          (receive p hdr' pieces' client)
  unfolding status_of_conn
  msg_get-echoed p q st stq d context text hdr hdr' pieces pieces' script s r idle id ne fresh plain
        small m fits idle' empty fits' there back =
      let reply_id = (s.status_at st).next_reply_id in
      let payload = terminated text in
      let m' = echo_data-IsMessage text small in
      let requested = msg_get-Requested p st d context payload s idle.tcp idle.known m fits in
      let asked =
        request-Asked q stq reply_id _ _ hdr payload pieces r idle' there requested.stream id m.fits
          (omega (arith, length-append text (0 ∷ []))) in
      let server = receive q hdr pieces r in
      let still : (server.conn_at q).protocol_type ≡ msg_tcp =
        ap (λ (c : Conn). c.protocol_type) asked.owes ∙ idle'.tcp in
      let served =
        run_callbacks-echo q reply_id text script server still plain
          (asked.callbacks ∙ ap (λ xs. xs ++ request_call q reply_id payload ∷ []) empty) in
      reply-Replied p st reply_id context _ _ _ hdr' (echo_of text) pieces' s
        (msg_get p d context s) idle fresh requested back
        (ap (λ (u : State). u.stream (r.conn_at q).socket) served
          ∙ answer-stream q reply_id (echo_data text) (echo_of text) script r
              (record server { immediate_callbacks = [] }) asked.owes asked.stream idle'.tcp ne m'
              (omega (arith, length-echo_of text)))
        id m'.fits (omega (arith, length-echo_of text))

-- ===== src/Exchange/Answer.antt =====
-- A request, the answer to it, and the reply at the client that asked.
use msgbox.Prelude.{
  ℕ, ◌+◌, ◌≤◌, ◌<◌, ◌≡◌, ◌≢◌, refl, sym, ap, subst, ◌∙◌, Bool, List, [], ◌∷◌, ◌++◌, Option, none,
  length, arith, remove_at, remove_at-last,
}
use msgbox.Cstructs.{Cstructs}
use msgbox.Types.{
  Conn, Header, MsgData, msg_tcp, msg_reply, msg_request, msg_type_reply, msg_type_request,
  address_of_conn,
}
use msgbox.Libc.{Libc}
use msgbox.Wire.{encode_header}
use msgbox.State.{State, Response, Timeout, PendingCall}
use msgbox.Status.{status_of_conn}
use msgbox.Timeouts.{timeout_index}
use msgbox.Timeouts.Lookup.{timeout_index-last}
use msgbox.Receive.{deliver, event_of, switch_type, tcp_switched}
use msgbox.Receive.Piece.{partial}
use msgbox.Receive.Reassembly.{switched, message_call}
use msgbox.Receive.Replies.{Replied, reply_call, deliver-Replied}
use msgbox.Receive.Heading.{Idle}
use msgbox.Send.Complete.{room}
use msgbox.Api.{msg_send, msg_get}
use msgbox.Api.Answers.{asked_at}
use msgbox.Api.Sending.{IsMessage, header_for}
use msgbox.Api.Requests.{Requested, msg_get-Requested}
use msgbox.Exchange.{Arrival, receive, receive-Read, Read}
use msgbox.Runloop.{Handler, make_calls, run_callbacks}
use msgbox.Runloop.Deferred.{make_call-tcp}
use msgbox.Exchange.Request.{Asked, request-Asked, answer-stream}

module _ ⦃cs : Cstructs⦄ ⦃os : Libc⦄ where
  pub switched-reply :
      (p st reply_id : ℕ) (payload : List ℕ) (t : State)
      → let h = header_for msg_type_reply reply_id payload in
        switched p st h payload t ≡ deliver p msg_reply (partial h payload) st h t
  unfolding tcp_switched switch_type event_of
  switched-reply p st reply_id payload t = refl

  Requested-Idle :
      (p st reply_id context : ℕ) (bytes : List ℕ) (s s' : State)
      → Idle p st s
      → Requested p st reply_id context bytes s s'
      → Idle p st s'
  Requested-Idle p st reply_id context bytes s s' idle q =
      let own : s'.conn_at p ≡ s.conn_at p = ap (λ (f : ℕ → Conn). f p) q.conn_at in
      record {
        tcp = ap (λ (c : Conn). c.protocol_type) own ∙ idle.tcp;
        connected = ap (λ (c : Conn). c.for_listening) own ∙ idle.connected;
        known =
            ap (λ (c : Conn). s'.conn_status (address_of_conn c)) own
            ∙ ap (λ f. f (address_of_conn (s.conn_at p))) q.conn_status
            ∙ idle.known;
        ready = q.waiting ∙ idle.ready;
      }

  -- Look at a reply in a state t that still has the context and the timeout of the request.
  deliver-Requested :
      (p st reply_id context : ℕ) (bytes payload : List ℕ) (s s' t : State)
      → (s.conn_at p).protocol_type ≡ msg_tcp
      → timeout_index st reply_id s.timeouts ≡ none
      → Requested p st reply_id context bytes s s'
      → Read p st (header_for msg_type_reply reply_id payload) s' t
      → let h = header_for msg_type_reply reply_id payload in
        Replied p st reply_id context
          (partial h payload)
          s.timeouts
          s'
          (deliver p msg_reply (partial h payload) st h t).1
  deliver-Requested p st reply_id context bytes payload s s' t tcp fresh q read =
      let h : Header = header_for msg_type_reply reply_id payload in
      let own : Timeout = asked_at s.now p st reply_id in
      let timeouts : t.timeouts ≡ s.timeouts ++ own ∷ [] = read.timeouts ∙ q.timeouts in
      let still : (t.conn_at p).protocol_type ≡ msg_tcp =
        ap (λ (c : Conn). c.protocol_type) read.own
        ∙ ap (λ (f : ℕ → Conn). (f p).protocol_type) q.conn_at
        ∙ tcp in
      let (_, replied) =
        deliver-Replied p st context (length s.timeouts) (partial h payload) h t still refl
          (ap (λ (f : ℕ → Option ℕ). f reply_id) read.contexts ∙ q.stored)
          (ap (timeout_index st reply_id) timeouts ∙ timeout_index-last s.timeouts own fresh) in
      record {
        callbacks =
            replied.callbacks
            ∙ ap (λ xs. xs ++ reply_call p (partial h payload) ∷ []) read.immediate_callbacks;
        given = replied.given;
        owes = replied.owes;
        used = replied.used;
        timeouts =
            replied.timeouts
            ∙ ap (λ ts. remove_at ts (length s.timeouts)) timeouts
            ∙ remove_at-last s.timeouts own;
      }

  -- The reply on the stream of a server, read by the client that asked.
  pub reply-Replied :
      (p st reply_id context : ℕ) (bytes old new hdr payload : List ℕ) (pieces : List (List ℕ))
      (s s' : State)
      → Idle p st s
      → timeout_index st reply_id s.timeouts ≡ none
      → Requested p st reply_id context bytes s s'
      → Arrival old new hdr pieces
      → new ≡ old ++ (encode_header (header_for msg_type_reply reply_id payload) ++ payload)
      → reply_id < 65536
      → length payload < 4294967296
      → 0 < length payload
      → Replied p st reply_id context
          (partial (header_for msg_type_reply reply_id payload) payload)
          s.timeouts
          s'
          (receive p hdr pieces s')
  reply-Replied p st reply_id context bytes old new hdr payload pieces s s' idle fresh q arrival
        sent w2 w3 more =
      let h : Header = header_for msg_type_reply reply_id payload in
      let (t, path, read) =
        receive-Read p st h old new hdr payload pieces s'
          (Requested-Idle p st reply_id context bytes s s' idle q) arrival sent (omega arith) w2
          refl w3 more in
      subst (Replied p st reply_id context (partial h payload) s.timeouts s')
        (sym (path ∙ ap (λ (r : Bool × State). r.1) (switched-reply p st reply_id payload t)))
        (deliver-Requested p st reply_id context bytes payload s s' t idle.tcp fresh q read)

  -- All callbacks of the server are made, with other answers of the system.
  abbrev pub served : Handler → List Response → State → State
  served user script s = run_callbacks user (record s { script = script })

  -- The one pending callback of a request is made and answers.
  pub run_callbacks-answer :
      (user : Handler) (q reply_id : ℕ) (answer : MsgData) (payload : List ℕ)
      (script : List Response) (s : State)
      → let h = header_for msg_type_request reply_id payload in
        ((callback : ℕ) (t : State)
          → user callback q msg_request (partial h payload) t ≡ msg_send q answer t)
        → (s.conn_at q).protocol_type ≡ msg_tcp
        → s.immediate_callbacks ≡ message_call q h payload ∷ []
        → served user script s
          ≡ msg_send q answer (record s { script = script; immediate_callbacks = [] })
  unfolding run_callbacks make_calls
  run_callbacks-answer user q reply_id answer payload script s answers tcp pending =
      let h = header_for msg_type_request reply_id payload in
      let t : State = record s { script = script; immediate_callbacks = [] } in
      ap (λ (calls : List PendingCall). make_calls user calls t) pending
      ∙ make_call-tcp user (message_call q h payload) t tcp
      ∙ answers (s.conn_at q).callback t

  -- A request and its answer over two tcp connections. The client, between two messages, calls
  -- msg_get; its bytes arrive at the server, which is between two messages and has no pending
  -- callbacks. The server then makes its callbacks, and the user's callback, when it gets
  -- msg_request with the whole payload, calls msg_send with the answer; these bytes arrive at the
  -- client, each time first the header alone and then the payload in any pieces that are not empty.
  -- Then the server has got one msg_request callback with the whole payload and owes the reply
  -- under the client's id, and the client gets one msg_reply callback with the whole answer and the
  -- context that it gave, the context is used up, and its timeouts are as before. The id is below
  -- 65536 and not 0, no other timeout is for it, both payloads have at least one byte, and both
  -- streams have room.
  pub msg_get-answered :
      (user : Handler) (p q st stq : ℕ) (d answer : MsgData) (context : ℕ) (payload reply : List ℕ)
      (hdr hdr' : List ℕ) (pieces pieces' : List (List ℕ)) (script : List Response) (s r : State)
      → Idle p st s
      → (s.status_at st).next_reply_id < 65536
      → (s.status_at st).next_reply_id ≢ 0
      → timeout_index st (s.status_at st).next_reply_id s.timeouts ≡ none
      → IsMessage d payload
      → 0 < length payload
      → 8 + length payload ≤ room s.script
      → Idle q stq r
      → r.immediate_callbacks ≡ []
      → let reply_id = (s.status_at st).next_reply_id in
        ((callback : ℕ) (t : State)
          → user callback q msg_request
              (partial (header_for msg_type_request reply_id payload) payload)
              t
            ≡ msg_send q answer t)
        → IsMessage answer reply
        → 0 < length reply
        → 8 + length reply ≤ room script
        → Arrival
            (s.stream (s.conn_at p).socket)
            ((msg_get p d context s).stream (s.conn_at p).socket)
            hdr
            pieces
        → Arrival
            (r.stream (r.conn_at q).socket)
            ((served user script (receive q hdr pieces r)).stream (r.conn_at q).socket)
            hdr'
            pieces'
        → let client = msg_get p d context s in
          Asked q reply_id payload r (receive q hdr pieces r)
          × Replied p st reply_id context
              (partial (header_for msg_type_reply reply_id reply) reply)
              s.timeouts
              client
              (receive p hdr' pieces' client)
  unfolding status_of_conn
  msg_get-answered user p q st stq d answer context payload reply hdr hdr' pieces pieces' script s r
        idle id ne fresh m more fits idle' empty answers m' more' fits' there back =
      let reply_id = (s.status_at st).next_reply_id in
      let requested = msg_get-Requested p st d context payload s idle.tcp idle.known m fits in
      let asked =
        request-Asked q stq reply_id _ _ hdr payload pieces r idle' there requested.stream id m.fits
          more in
      let server : State = receive q hdr pieces r in
      let still : (server.conn_at q).protocol_type ≡ msg_tcp =
        ap (λ (c : Conn). c.protocol_type) asked.owes ∙ idle'.tcp in
      let h : Header = header_for msg_type_request reply_id payload in
      let made =
        run_callbacks-answer user q reply_id answer payload script server answers still
          (asked.callbacks ∙ ap (λ xs. xs ++ message_call q h payload ∷ []) empty) in
      (
        asked,
        reply-Replied p st reply_id context _ _ _ hdr' reply pieces' s (msg_get p d context s) idle
            fresh requested back
            (ap (λ (u : State). u.stream (r.conn_at q).socket) made
              ∙ answer-stream q reply_id answer reply script r
                  (record server { immediate_callbacks = [] }) asked.owes asked.stream idle'.tcp ne
                  m' fits')
            id m'.fits more',
      )

-- ===== src/Exchange/Unknown.antt =====
-- A reply that no request waits for, as after its timeout (msgbox/msgbox.c: read_from_socket).
use msgbox.Prelude.{
  ℕ, ◌+◌, ◌≤◌, ◌<◌, ◌≡◌, ◌≢◌, refl, ap, ◌∙◌, Bool, List, [], ◌∷◌, ◌++◌, Option, none, ◌==◌, length,
  arith, codes, false, subst, sym,
}
use msgbox.Cstructs.{Cstructs}
use msgbox.Types.{Conn, Header, MsgData, msg_error, msg_reply, msg_type_reply}
use msgbox.Libc.{Libc}
use msgbox.Wire.{encode_header}
use msgbox.State.{State, Response, PendingCall, free_bytes}
use msgbox.State.Callbacks.{msg_new_data, send_callback_error, send_callback}
use msgbox.Receive.{deliver}
use msgbox.Receive.Piece.{partial}
use msgbox.Receive.Heading.{Idle}
use msgbox.Send.Complete.{room}
use msgbox.Api.{msg_send}
use msgbox.Api.Sending.{IsMessage, header_for, Sent}
use msgbox.Api.Requests.{answer_type, msg_send-Sent}
use msgbox.Exchange.{Arrival, receive, receive-Read, Read}
use msgbox.Exchange.Answer.{switched-reply}

abbrev pub unrecognized_call : ℕ → MsgData → PendingCall
unrecognized_call p d = record {
  conn = p;
  event = msg_error;
  payload = msg_new_data (codes "Unrecognized reply_id");
  to_free = free_bytes d;
}

module _ ⦃cs : Cstructs⦄ ⦃os : Libc⦄ where
  -- The state s' after a reply with these data that was not expected in the state s.
  pub record Unrecognized (p reply_id : ℕ) (d : MsgData) (s s' : State) : Type 0 where
    pub callbacks : s'.immediate_callbacks ≡ s.immediate_callbacks ++ unrecognized_call p d ∷ []
    pub timeouts : s'.timeouts ≡ s.timeouts
    pub own : s'.conn_at p ≡ record (s.conn_at p) { reply_id = reply_id }
    pub stream : s'.stream ≡ s.stream

  deliver-Unrecognized :
      (p st : ℕ) (h : Header) (d : MsgData) (s t : State)
      → h.message_type ≡ msg_type_reply
      → (s.status_at st).reply_contexts h.reply_id ≡ none
      → Read p st h s t
      → Unrecognized p h.reply_id d s (deliver p msg_reply d st h t).1
  unfolding deliver send_callback_error send_callback
  deliver-Unrecognized p st h d s t reply unknown read =
      let gone : (t.status_at st).reply_contexts h.reply_id ≡ none =
        ap (λ (f : ℕ → Option ℕ). f h.reply_id) read.contexts ∙ unknown in
      rw (reply, gone)
        (record {
          callbacks =
              cs.add_item_lem _ _
              ∙ ap (λ (xs : List PendingCall). xs ++ unrecognized_call p d ∷ [])
                  read.immediate_callbacks;
          timeouts = read.timeouts;
          own = read.own;
          stream = read.stream;
        })

  -- A whole reply of at least one byte arrives on a tcp connection between two messages, first the
  -- header alone and then the payload in any pieces that are not empty, and no context is stored
  -- under its id, since no request had it or the request has timed out. Then the reads after these
  -- schedule one callback, msg_error with the text Unrecognized reply_id, and no msg_reply; the
  -- timeouts and the stream are as before. The conn keeps the id of the reply as the one of a
  -- request to answer.
  pub receive-Unrecognized :
      (p st reply_id : ℕ) (old new hdr payload : List ℕ) (pieces : List (List ℕ)) (s : State)
      → Idle p st s
      → Arrival old new hdr pieces
      → new ≡ old ++ (encode_header (header_for msg_type_reply reply_id payload) ++ payload)
      → reply_id < 65536
      → length payload < 4294967296
      → 0 < length payload
      → (s.status_at st).reply_contexts reply_id ≡ none
      → Unrecognized p reply_id
          (partial (header_for msg_type_reply reply_id payload) payload)
          s
          (receive p hdr pieces s)
  receive-Unrecognized p st reply_id old new hdr payload pieces s idle arrival sent w2 w3 more
        unknown =
      let h : Header = header_for msg_type_reply reply_id payload in
      let (t, path, read) =
        receive-Read p st h old new hdr payload pieces s idle arrival sent (omega arith) w2 refl w3
          more in
      subst (Unrecognized p reply_id (partial h payload) s)
        (sym (path ∙ ap (λ (r : Bool × State). r.1) (switched-reply p st reply_id payload t)))
        (deliver-Unrecognized p st h (partial h payload) s t refl unknown read)

  -- If such a reply, with an id other than 0, has come on a tcp connection, then the next message
  -- that msg_send puts on its stream, with room for it, goes out as a reply to that id and not as a
  -- one-way message.
  pub msg_send-unrecognized :
      (p st reply_id : ℕ) (old new hdr payload : List ℕ) (pieces : List (List ℕ)) (d : MsgData)
      (text : List ℕ) (script : List Response) (s : State)
      → Idle p st s
      → Arrival old new hdr pieces
      → new ≡ old ++ (encode_header (header_for msg_type_reply reply_id payload) ++ payload)
      → reply_id < 65536
      → reply_id ≢ 0
      → length payload < 4294967296
      → 0 < length payload
      → (s.status_at st).reply_contexts reply_id ≡ none
      → IsMessage d text
      → 8 + length text ≤ room script
      → let s' : State = record (receive p hdr pieces s) { script = script } in
        Sent p
          (encode_header (header_for msg_type_reply reply_id text) ++ text)
          s'
          (msg_send p d s')
  msg_send-unrecognized p st reply_id old new hdr payload pieces d text script s idle arrival sent
        w2 ne w3 more unknown m fits =
      let u =
        receive-Unrecognized p st reply_id old new hdr payload pieces s idle arrival sent w2 w3 more
          unknown in
      let s' : State = record (receive p hdr pieces s) { script = script } in
      let owes : (s'.conn_at p).reply_id ≡ reply_id = ap (λ (c : Conn). c.reply_id) u.own in
      let is_reply : answer_type reply_id ≡ msg_type_reply =
        let other : (reply_id == 0) ≡ false = ground arith in rw other in
      subst (λ (h : Header). Sent p (encode_header h ++ text) s' (msg_send p d s'))
        (ap (λ (id : ℕ). header_for (answer_type id) id text) owes
          ∙ ap (λ (n : ℕ). header_for n reply_id text) is_reply)
        (msg_send-Sent p d text s' (ap (λ (c : Conn). c.protocol_type) u.own ∙ idle.tcp) m fits)

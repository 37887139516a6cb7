-- ===== src/Exchange/Request.antt =====
-- A request at the server, and the answer that its callback sends.
use msgbox.Prelude.{
  ℕ, ◌+◌, ◌≤◌, ◌<◌, ◌≡◌, ◌≢◌, refl, sym, ap, ◌∙◌, false, List, [], ◌∷◌, ◌++◌, ◌==◌, length, arith,
  upd_self,
}
use msgbox.Cstructs.{Cstructs}
use msgbox.Types.{Conn, MsgData, msg_tcp, msg_type_request, msg_type_reply}
use msgbox.Libc.{Libc}
use msgbox.Wire.{encode_header}
use msgbox.State.{State, Response}
use msgbox.State.Callbacks.{send_callback}
use msgbox.Receive.{deliver, switch_type, tcp_switched}
use msgbox.Receive.Reassembly.{message_call, switched}
use msgbox.Receive.Heading.{Idle}
use msgbox.Send.Complete.{room}
use msgbox.Api.{msg_send}
use msgbox.Api.Sending.{IsMessage, header_for}
use msgbox.Api.Requests.{answer_type, msg_send-Sent}
use msgbox.Exchange.{Arrival, receive, receive-Read}
use msgbox.Exchange.Delivery.{switched-delivers}

module _ ⦃cs : Cstructs⦄ ⦃os : Libc⦄ where
  -- The state r' of a server that was in the state r when a request came.
  pub record Asked (q reply_id : ℕ) (payload : List ℕ) (r r' : State) : Type 0 where
    pub callbacks :
        r'.immediate_callbacks
        ≡ r.immediate_callbacks
          ++ message_call q (header_for msg_type_request reply_id payload) payload ∷ []
    pub owes : r'.conn_at q ≡ record (r.conn_at q) { reply_id = reply_id; reply_context = 0 }
    pub stream : r'.stream ≡ r.stream

  switched-request :
      (q st reply_id : ℕ) (payload : List ℕ) (t : State)
      → let u = (switched q st (header_for msg_type_request reply_id payload) payload t).1 in
        (u.conn_at q ≡ record (t.conn_at q) { reply_context = 0 }) × (u.stream ≡ t.stream)
  unfolding tcp_switched switch_type deliver send_callback
  switched-request q st reply_id payload t = (upd_self t.conn_at q _, refl)

  -- A request on the stream of a client, read by its peer.
  pub request-Asked :
      (q st reply_id : ℕ) (old new hdr payload : List ℕ) (pieces : List (List ℕ)) (r : State)
      → Idle q st r
      → Arrival old new hdr pieces
      → new ≡ old ++ (encode_header (header_for msg_type_request reply_id payload) ++ payload)
      → reply_id < 65536
      → length payload < 4294967296
      → 0 < length payload
      → Asked q reply_id payload r (receive q hdr pieces r)
  request-Asked q st reply_id old new hdr payload pieces r idle arrival sent w2 w3 more =
      let h = header_for msg_type_request reply_id payload in
      let (t, path, read) =
        receive-Read q st h old new hdr payload pieces r idle arrival sent (omega arith) w2 refl w3
          more in
      let (own, stream) = switched-request q st reply_id payload t in
      record {
        callbacks =
            ap (λ (u : State). u.immediate_callbacks) path
            ∙ switched-delivers q st h payload r.immediate_callbacks t (omega arith)
                read.immediate_callbacks;
        owes =
            ap (λ (u : State). u.conn_at q) path
            ∙ own
            ∙ ap (λ (c : Conn). record c { reply_context = 0 }) read.own;
        stream = ap (λ (u : State). u.stream) path ∙ stream ∙ read.stream;
      }

  -- The callback's answer to a request that was read.
  pub answer-stream :
      (q reply_id : ℕ) (d : MsgData) (payload : List ℕ) (script : List Response) (r r' : State)
      → r'.conn_at q ≡ record (r.conn_at q) { reply_id = reply_id; reply_context = 0 }
      → r'.stream ≡ r.stream
      → (r.conn_at q).protocol_type ≡ msg_tcp
      → reply_id ≢ 0
      → IsMessage d payload
      → 8 + length payload ≤ room script
      → (msg_send q d (record r' { script = script })).stream (r.conn_at q).socket
        ≡ r.stream (r.conn_at q).socket
          ++ (encode_header (header_for msg_type_reply reply_id payload) ++ payload)
  answer-stream q reply_id d payload script r r' owed same tcp ne m fits =
      let s : State = record r' { script = script } in
      let socket : (r'.conn_at q).socket ≡ (r.conn_at q).socket =
        ap (λ (c : Conn). c.socket) owed in
      let owes : (r'.conn_at q).reply_id ≡ reply_id = ap (λ (c : Conn). c.reply_id) owed in
      let is_reply : answer_type reply_id ≡ msg_type_reply =
        let other : (reply_id == 0) ≡ false = ground arith in rw other in
      let sent =
        msg_send-Sent q d payload s (ap (λ (c : Conn). c.protocol_type) owed ∙ tcp) m fits in
      ap (λ (n : ℕ). (msg_send q d s).stream n) (sym socket)
      ∙ sent.stream
      ∙ ap
          (λ (id : ℕ).
            r'.stream (r'.conn_at q).socket
            ++ (encode_header (header_for (answer_type id) id payload) ++ payload))
          owes
      ∙ ap
          (λ (n : ℕ).
            r'.stream (r'.conn_at q).socket
            ++ (encode_header (header_for n reply_id payload) ++ payload))
          is_reply
      ∙ ap
          (λ (bytes : List ℕ).
            bytes ++ (encode_header (header_for msg_type_reply reply_id payload) ++ payload))
          (ap (λ (n : ℕ). r'.stream n) socket
            ∙ ap (λ (f : ℕ → List ℕ). f (r.conn_at q).socket) same)

-- ===== src/Exchange/Delivery.antt =====
-- A one-way message and the end of a connection, from the one end to the other.
use msgbox.Prelude.{ℕ, ◌+◌, ◌≤◌, ◌<◌, ◌≡◌, refl, ap, ◌∙◌, List, [], ◌∷◌, ◌++◌, length, arith}
use msgbox.Cstructs.{Cstructs}
use msgbox.Types.{Header, MsgData, msg_tcp, msg_type_one_way}
use msgbox.Libc.{Libc}
use msgbox.Wire.{encode_header}
use msgbox.State.{State, PendingCall}
use msgbox.Receive.Piece.{partial}
use msgbox.Receive.Reassembly.{message_call, switched, switched-calls}
use msgbox.Receive.Heading.{Idle}
use msgbox.Send.Complete.{room}
use msgbox.Api.{msg_send}
use msgbox.Api.Sending.{IsMessage, header_for}
use msgbox.Api.Requests.{answer_type, msg_send-Sent}
use msgbox.Exchange.{Arrival, receive, receive-Read}

module _ ⦃cs : Cstructs⦄ ⦃os : Libc⦄ where
  pub switched-delivers :
      (p st : ℕ) (h : Header) (payload : List ℕ) (xs : List PendingCall) (t : State)
      → h.message_type < 2
      → t.immediate_callbacks ≡ xs
      → (switched p st h payload t).1.immediate_callbacks ≡ xs ++ message_call p h payload ∷ []
  switched-delivers p st h payload xs t plain same =
      let (_, calls, _) = switched-calls p st (partial h payload) h t plain in
      calls
      ∙ cs.add_item_lem t.immediate_callbacks _
      ∙ ap (λ (ys : List PendingCall). ys ++ message_call p h payload ∷ []) same

  -- A message of at least one byte, sent on a tcp connection with room on the stream and outside
  -- of a request, is delivered: if what the stream has gained arrives at a peer between two
  -- messages, first the header alone and then the payload in any pieces that are not empty, then
  -- reading after each of these schedules at the peer one callback, msg_message with the whole
  -- payload.
  pub msg_send-delivered :
      (p q st : ℕ) (d : MsgData) (hdr payload : List ℕ) (pieces : List (List ℕ)) (s r : State)
      → (s.conn_at p).protocol_type ≡ msg_tcp
      → (s.conn_at p).reply_id ≡ 0
      → IsMessage d payload
      → 0 < length payload
      → 8 + length payload ≤ room s.script
      → Idle q st r
      → Arrival
          (s.stream (s.conn_at p).socket)
          ((msg_send p d s).stream (s.conn_at p).socket)
          hdr
          pieces
      → (receive q hdr pieces r).immediate_callbacks
        ≡ r.immediate_callbacks
          ++ message_call q (header_for msg_type_one_way 0 payload) payload ∷ []
  msg_send-delivered p q st d hdr payload pieces s r tcp free m more fits idle arrival =
      let h = header_for msg_type_one_way 0 payload in
      let sent = msg_send-Sent p d payload s tcp m fits in
      let (t, path, read) =
        receive-Read q st h _ _ hdr payload pieces r idle arrival
          (sent.stream
            ∙ ap
                (λ id.
                  s.stream (s.conn_at p).socket
                  ++ (encode_header (header_for (answer_type id) id payload) ++ payload))
                free)
          (omega arith) (omega arith) refl m.fits more in
      ap (λ (u : State). u.immediate_callbacks) path
      ∙ switched-delivers q st h payload r.immediate_callbacks t (omega arith)
          read.immediate_callbacks

-- ===== src/Api/Answers.antt =====
-- A request and the reply to it.
use msgbox.Prelude.{
  ℕ, ◌+◌, ◌≤◌, ◌≡◌, ap, ◌∙◌, subst, true, List, none, some, length, remove_at, remove_at-last,
}
use msgbox.Cstructs.{Cstructs}
use msgbox.Types.{Header, MsgData, msg_reply, msg_type_reply, msg_tcp}
use msgbox.Libc.{Libc}
use msgbox.State.{State, Timeout}
use msgbox.Status.{status_of_conn}
use msgbox.Timeouts.Lookup.{timeout_index-last}
use msgbox.Timeouts.{timeout_index, udp_timeout}
use msgbox.Receive.{deliver}
use msgbox.Receive.Replies.{Replied, deliver-Replied}
use msgbox.Send.Complete.{room}
use msgbox.Api.{msg_get}
use msgbox.Api.Sending.{IsMessage}
use msgbox.Api.Requests.{Requested, msg_get-Requested}

abbrev pub asked_at : ℕ → ℕ → ℕ → ℕ → Timeout
asked_at time conn status reply_id = record {
  at = time + udp_timeout;
  conn = conn;
  status = status;
  reply_id = reply_id;
}

module _ ⦃cs : Cstructs⦄ ⦃os : Libc⦄ where
  Requested-Replied :
      (p st reply_id context : ℕ) (bytes : List ℕ) (d : MsgData) (h : Header) (s s' : State)
      → (s.conn_at p).protocol_type ≡ msg_tcp
      → timeout_index st reply_id s.timeouts ≡ none
      → h.message_type ≡ msg_type_reply
      → h.reply_id ≡ reply_id
      → Requested p st reply_id context bytes s s'
      → let r = deliver p msg_reply d st h s' in
        (r.0 ≡ true) × Replied p st reply_id context d s.timeouts s' r.1
  Requested-Replied p st reply_id context bytes d h s s' tcp fresh reply own q =
      let t : Timeout = asked_at s.now p st reply_id in
      let still : (s'.conn_at p).protocol_type ≡ msg_tcp =
        ap (λ f. (f p).protocol_type) q.conn_at ∙ tcp in
      let waits : timeout_index st h.reply_id s'.timeouts ≡ some (length s.timeouts) =
        rw (own, q.timeouts) (timeout_index-last s.timeouts t fresh) in
      let (goes_on, replied) =
        deliver-Replied p st context (length s.timeouts) d h s' still reply (rw own q.stored)
          waits in
      (
        goes_on,
        subst
            (λ (left : List Timeout).
              Replied p st reply_id context d left s' (deliver p msg_reply d st h s').1)
            (ap (λ (ts : List Timeout). remove_at ts (length s.timeouts)) q.timeouts
              ∙ remove_at-last s.timeouts t)
            (subst
              (λ (id : ℕ).
                Replied p st id context d (remove_at s'.timeouts (length s.timeouts)) s'
                  (deliver p msg_reply d st h s').1)
              own replied),
      )

  -- A request on a tcp connection with a known status and room on the stream, then the reply to it:
  -- the one callback is msg_reply with the reply's data, the conn holds the reply context that the
  -- request was given, and the list of timeouts is what it was before the request. No other
  -- timeout may be for the same status and id.
  pub msg_get-Replied :
      (p st : ℕ) (d : MsgData) (context : ℕ) (payload : List ℕ) (reply : MsgData) (h : Header)
      (s : State)
      → (s.conn_at p).protocol_type ≡ msg_tcp
      → status_of_conn p s ≡ some st
      → IsMessage d payload
      → 8 + length payload ≤ room s.script
      → timeout_index st (s.status_at st).next_reply_id s.timeouts ≡ none
      → h.message_type ≡ msg_type_reply
      → h.reply_id ≡ (s.status_at st).next_reply_id
      → let s' = msg_get p d context s in
        let r = deliver p msg_reply reply st h s' in
        (r.0 ≡ true) × Replied p st (s.status_at st).next_reply_id context reply s.timeouts s' r.1
  msg_get-Replied p st d context payload reply h s tcp known m room_left fresh is_reply own =
      let reply_id = (s.status_at st).next_reply_id in
      Requested-Replied p st reply_id context _ reply h s (msg_get p d context s) tcp fresh is_reply
        own (msg_get-Requested p st d context payload s tcp known m room_left)

-- ===== src/Api/Requests.antt =====
-- What msg_send and msg_get put on a tcp stream, and what msg_get remembers.
use msgbox.Prelude.{
  ℕ, ◌+◌, ◌%◌, ◌≤◌, ◌≡◌, refl, sym, ap, subst, ◌∙◌, List, [], ◌∷◌, ◌++◌, none, some, ◌==◌,
  if◌then◌else◌, length, upd, upd_self, ==_refl,
}
use msgbox.Cstructs.{Cstructs}
use msgbox.Types.{msg_tcp, MsgData, msg_tcp, msg_type_one_way, msg_type_request, msg_type_reply}
use msgbox.Libc.{Libc}
use msgbox.Wire.{encode_header, set_header}
use msgbox.State.{State, ConnStatus, set_status}
use msgbox.Status.{status_of_conn, reply_key}
use msgbox.Timeouts.{add_timeout, udp_timeout}
use msgbox.Send.{send_data}
use msgbox.Send.Complete.{room}
use msgbox.Api.{msg_send, msg_get, get_known, request_sent, report_failed, take_reply_id, to_uint32}
use msgbox.Api.Sending.{send_data-Sent, IsMessage, Sent, header_for}

-- The type of a message that answers the request with this id, 0 for none.
abbrev pub answer_type : ℕ → ℕ
answer_type reply_id = if reply_id == 0 then msg_type_one_way else msg_type_reply

module _ ⦃cs : Cstructs⦄ ⦃os : Libc⦄ where
  -- A message sent on a tcp connection with room for it goes on the stream as a header and the
  -- payload. The header says one way outside of a request, and inside one it says reply and names
  -- the request. All that the library keeps stays as it is: the arrays, the
  -- statuses, the conns, the timeouts, the pending callbacks and what is freed.
  pub msg_send-Sent :
      (p : ℕ) (d : MsgData) (payload : List ℕ) (s : State)
      → (s.conn_at p).protocol_type ≡ msg_tcp
      → IsMessage d payload
      → 8 + length payload ≤ room s.script
      → let reply_id = (s.conn_at p).reply_id in
        Sent p
          (encode_header (header_for (answer_type reply_id) reply_id payload) ++ payload)
          s
          (msg_send p d s)
  unfolding msg_send report_failed
  msg_send-Sent p d payload s tcp m h =
      let reply_id = (s.conn_at p).reply_id in
      let (s', e, sent) = send_data-Sent p (answer_type reply_id) reply_id d payload s tcp m h in
      rw e sent

  take_reply_id-find :
      (context : ℕ) (x : ConnStatus)
      → (take_reply_id context x).reply_contexts x.next_reply_id ≡ some context
  take_reply_id-find context x =
      cs.map_set_lem reply_key x.reply_contexts x.next_reply_id context x.next_reply_id (λ e. refl)
      ∙ rw (==_refl (x.next_reply_id % 65536)) refl

  add_timeout-last :
      (p st reply_id : ℕ) (s : State)
      → (add_timeout p st reply_id s).timeouts
        ≡ s.timeouts
          ++ (record { at = s.now + udp_timeout; conn = p; status = st; reply_id = reply_id } ∷ [])
  unfolding add_timeout
  add_timeout-last p st reply_id s = cs.add_item_lem s.timeouts _

  -- A request with its status, its id, its reply context and its bytes on the stream. No callback
  -- is scheduled.
  pub record Requested (p st reply_id context : ℕ) (bytes : List ℕ) (s s' : State) : Type 0 where
    pub stream : s'.stream (s.conn_at p).socket ≡ s.stream (s.conn_at p).socket ++ bytes
    pub conn_at : s'.conn_at ≡ s.conn_at
    pub conn_status : s'.conn_status ≡ s.conn_status
    pub status_at : s'.status_at ≡ upd s.status_at st (take_reply_id context (s.status_at st))
    pub waiting : (s'.status_at st).waiting_num_bytes ≡ (s.status_at st).waiting_num_bytes
    pub callbacks : s'.immediate_callbacks ≡ s.immediate_callbacks
    pub stored : (s'.status_at st).reply_contexts reply_id ≡ some context
    pub next : (s'.status_at st).next_reply_id ≡ (reply_id + 1) % 65536
    pub timeouts :
        s'.timeouts
        ≡ s.timeouts
          ++ (record { at = s.now + udp_timeout; conn = p; status = st; reply_id = reply_id } ∷ [])

  add_timeout-Requested :
      (p st context : ℕ) (bytes : List ℕ) (s s1 : State)
      → let x = s.status_at st in
        Sent p bytes (set_status st (take_reply_id context x) s) s1
        → Requested p st x.next_reply_id context bytes s (add_timeout p st x.next_reply_id s1)
  unfolding add_timeout
  add_timeout-Requested p st context bytes s s1 sent =
      let x : ConnStatus = s.status_at st in
      let taken : ConnStatus = take_reply_id context x in
      let at_st : s1.status_at st ≡ taken =
        ap (λ f. f st) sent.kept.status_at ∙ upd_self s.status_at st taken in
      record {
        stream = sent.stream;
        conn_at = sent.kept.conn_at;
        conn_status = sent.kept.conn_status;
        status_at = sent.kept.status_at;
        waiting = ap (λ y. y.waiting_num_bytes) at_st;
        callbacks = sent.kept.immediate_callbacks;
        stored = ap (λ y. y.reply_contexts x.next_reply_id) at_st ∙ take_reply_id-find context x;
        next = ap (λ y. y.next_reply_id) at_st;
        timeouts =
            add_timeout-last p st x.next_reply_id s1
            ∙ rw sent.kept.timeouts (rw sent.kept.now refl);
      }

  msg_get-known :
      (p st : ℕ) (d : MsgData) (context : ℕ) (s : State)
      → status_of_conn p s ≡ some st
      → msg_get p d context s ≡ get_known p d context st s
  unfolding msg_get
  msg_get-known p st d context s known = rw (msg_get, known) refl

  get_known-sent :
      (p st : ℕ) (d : MsgData) (context : ℕ) (s s1 : State)
      → let x = s.status_at st in
        send_data p
            (set_header d msg_type_request x.next_reply_id (to_uint32 d.num_bytes))
            (set_status st (take_reply_id context x) s)
          ≡ (none, s1)
        → get_known p d context st s ≡ add_timeout p st x.next_reply_id s1
  unfolding get_known request_sent
  get_known-sent p st d context s s1 e = rw e refl

  -- A request on a tcp connection with a known status and with room for it: the header that goes
  -- out names the next reply id, the reply context is stored under it, and a timeout one second
  -- from now is the last of the list. The next id is one more, modulo 65536.
  pub msg_get-Requested :
      (p st : ℕ) (d : MsgData) (context : ℕ) (payload : List ℕ) (s : State)
      → (s.conn_at p).protocol_type ≡ msg_tcp
      → status_of_conn p s ≡ some st
      → IsMessage d payload
      → 8 + length payload ≤ room s.script
      → let reply_id = (s.status_at st).next_reply_id in
        Requested p st reply_id context
          (encode_header (header_for msg_type_request reply_id payload) ++ payload)
          s
          (msg_get p d context s)
  msg_get-Requested p st d context payload s tcp known m h =
      let x : ConnStatus = s.status_at st in
      let (s1, e, sent) =
        send_data-Sent p msg_type_request x.next_reply_id d payload
          (set_status st (take_reply_id context x) s) tcp m h in
      subst
        (Requested p st x.next_reply_id context
          (encode_header (header_for msg_type_request x.next_reply_id payload) ++ payload) s)
        (sym (msg_get-known p st d context s known ∙ get_known-sent p st d context s s1 e))
        (add_timeout-Requested p st context
          (encode_header (header_for msg_type_request x.next_reply_id payload) ++ payload) s s1
          sent)

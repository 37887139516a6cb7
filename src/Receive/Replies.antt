-- ===== src/Receive/Replies.antt =====
-- The reply branch at the end of read_from_socket.
use msgbox.Prelude.{
  ℕ, ◌≡◌, refl, sym, ap, subst, remove_at, ◌∙◌, true, List, [], ◌∷◌, ◌++◌, none, some, ==_refl,
  upd_self, ◌%◌,
}
use msgbox.Cstructs.{Cstructs}
use msgbox.Types.{Conn, msg_reply, MsgData, Header, msg_type_reply, msg_tcp}
use msgbox.Libc.{Libc}
use msgbox.State.{State, Timeout, ConnStatus, PendingCall, free_nothing, set_conn, set_status}
use msgbox.State.Callbacks.{send_callback}
use msgbox.Status.{reply_key}
use msgbox.Timeouts.{remove_timeout, timeout_index, unset_context}
use msgbox.Receive.{deliver, reply_found, reply_data}

abbrev pub reply_call : ℕ → MsgData → PendingCall
reply_call p d = record { conn = p; event = msg_reply; payload = d; to_free = free_nothing }

-- One callback for a reply; the context is in the conn and no longer in the status, the conn owes
-- no reply, and these timeouts are left.
pub record Replied (p st reply_id context : ℕ) (d : MsgData) (left : List Timeout) (s s' : State)
    : Type 0 where
  pub callbacks : s'.immediate_callbacks ≡ s.immediate_callbacks ++ reply_call p d ∷ []
  pub given : (s'.conn_at p).reply_context ≡ context
  pub owes : (s'.conn_at p).reply_id ≡ 0
  pub used : (s'.status_at st).reply_contexts reply_id ≡ none
  pub timeouts : s'.timeouts ≡ left

module _ ⦃cs : Cstructs⦄ ⦃os : Libc⦄ where
  unset_context-find :
      (reply_id : ℕ) (x : ConnStatus) → (unset_context reply_id x).reply_contexts reply_id ≡ none
  unset_context-find reply_id x =
      cs.map_unset_lem reply_key x.reply_contexts reply_id reply_id (λ e. refl)
      ∙ rw (==_refl (reply_id % 65536)) refl

  -- The rest of reply_found, after remove_timeout.
  abbrev answer : ℕ → MsgData → ℕ → ℕ → ℕ → State → State
  answer p d st reply_id context s1 =
      let s2 = set_status st (unset_context reply_id (s1.status_at st)) s1 in
      let c = s2.conn_at p in
      send_callback p msg_reply (reply_data c context d) free_nothing
        (set_conn p (record c { reply_context = context; reply_id = 0 }) s2)

  answer-Replied :
      (p st reply_id context : ℕ) (d : MsgData) (left : List Timeout) (s : State)
      → (s.conn_at p).protocol_type ≡ msg_tcp
      → Replied p st reply_id context d left s
          (answer p d st reply_id context (record s { timeouts = left }))
  unfolding send_callback
  answer-Replied p st reply_id context d left s tcp = record {
    callbacks = cs.add_item_lem _ _ ∙ rw tcp refl;
    given = ap (λ (c : Conn). c.reply_context) (upd_self s.conn_at p _);
    owes = ap (λ (c : Conn). c.reply_id) (upd_self s.conn_at p _);
    used =
        ap (λ (x : ConnStatus). x.reply_contexts reply_id) (upd_self s.status_at st _)
        ∙ unset_context-find reply_id (s.status_at st);
    timeouts = refl;
  }

  remove_timeout-some :
      (st reply_id i : ℕ) (s : State)
      → timeout_index st reply_id s.timeouts ≡ some i
      → remove_timeout st reply_id s ≡ record s { timeouts = remove_at s.timeouts i }
  unfolding remove_timeout
  remove_timeout-some st reply_id i s e =
      rw (remove_timeout, e)
        (ap (λ (ts : List Timeout). record s { timeouts = ts }) (cs.remove_item_lem s.timeouts i))

  -- A reply on a tcp connection to a request whose context is stored and whose timeout stands at i:
  -- one callback for it, with the context in the conn; the context and the timeout are used up.
  pub deliver-Replied :
      (p st context i : ℕ) (d : MsgData) (h : Header) (s : State)
      → (s.conn_at p).protocol_type ≡ msg_tcp
      → h.message_type ≡ msg_type_reply
      → (s.status_at st).reply_contexts h.reply_id ≡ some context
      → timeout_index st h.reply_id s.timeouts ≡ some i
      → let r = deliver p msg_reply d st h s in
        (r.0 ≡ true) × Replied p st h.reply_id context d (remove_at s.timeouts i) s r.1
  unfolding deliver reply_found
  deliver-Replied p st context i d h s tcp reply known at =
      rw (reply, known)
        (
          refl,
          subst
              (λ (s1 : State).
                Replied p st h.reply_id context d (remove_at s.timeouts i) s
                  (answer p d st h.reply_id context s1))
              (sym (remove_timeout-some st h.reply_id i s at))
              (answer-Replied p st h.reply_id context d (remove_at s.timeouts i) s tcp),
        )

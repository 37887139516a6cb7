-- ===== src/Outstanding/Steps.antt =====
-- The table under a request, under a reply and under the loop over timeouts.
use msgbox.Prelude.{
  ℕ, zero, suc, ◌+◌, ◌≤◌, ◌<◌, ◌≡◌, refl, sym, ap, ap₂, subst, ◌∙◌, Bool, Bool-cases, true, false,
  List, [], ◌∷◌, ◌++◌, Option, none, some, inl, inr, ◌==◌, ◌&&◌, ltb, if◌then◌else◌, length, map,
  map-append, remove_at, arith, ==_refl,
}
use msgbox.Cstructs.{Cstructs}
use msgbox.Types.{Header, Event, MsgData, msg_tcp, msg_type_reply}
use msgbox.Libc.{Libc}
use msgbox.State.{State, ConnStatus, Timeout}
use msgbox.State.Callbacks.{send_callback}
use msgbox.Status.{status_of_conn}
use msgbox.Timeouts.{
  udp_timeout, remove_timeout, expire, expire_first, check_timeouts, timeout_index,
}
use msgbox.Timeouts.Order.{expire-suc}
use msgbox.Receive.{deliver, reply_found}
use msgbox.Send.Complete.{room}
use msgbox.Api.{msg_get}
use msgbox.Api.Sending.{IsMessage}
use msgbox.Api.Requests.{msg_get-Requested}
use msgbox.Outstanding.{
  Request, timeout_of, lookup, answered, Holds, lookup-append, lookup-answered,
  timeout_index-lookup, Distinct-append, Distinct-answered,
}
use msgbox.Outstanding.Contexts.{contexts_set, contexts_unset}

length-timeouts : (table : List Request) → length (map timeout_of table) ≡ length table
length-timeouts [] = refl
length-timeouts (r ∷ rs) = omega (arith, length-timeouts rs)

abbrev pub request : ℕ → ℕ → ℕ → ℕ → ℕ → Request
request time p st reply_id context = record {
  at = time + udp_timeout;
  conn = p;
  status = st;
  reply_id = reply_id;
  context = context;
}

-- The requests that are not due are left.
abbrev pub wait_on : ℕ → List Request → List Request
wait_on time_now [] = []
wait_on time_now (r ∷ rs) =
    let rest = wait_on time_now rs in if ltb time_now r.at then r ∷ rs else rest

module _ ⦃cs : Cstructs⦄ where
  -- The table without a request, and the state without its timeout and its context.
  unset-Holds :
      (st reply_id : ℕ) (table : List Request) (s s' : State)
      → Holds table s
      → reply_id < 65536
      → s'.timeouts ≡ map timeout_of (answered st reply_id table)
      → s'.status_at
        ≡ msgbox.Prelude.upd s.status_at st
            (msgbox.Timeouts.unset_context reply_id (s.status_at st))
      → Holds (answered st reply_id table) s'
  unset-Holds st reply_id table s s' h w timeouts statuses = record {
    timeouts = timeouts;
    contexts = λ q id narrow.
        ap (λ (f : ℕ → ConnStatus). (f q).reply_contexts id) statuses
        ∙ contexts_unset s.status_at st reply_id q id w narrow
        ∙ ap (λ (o : Option ℕ). if (st == q) && (reply_id == id) then none else o)
            (h.contexts q id narrow)
        ∙ sym (lookup-answered q id st reply_id table h.distinct);
    distinct = Distinct-answered st reply_id table h.distinct;
  }

  expire_first-Holds :
      (r : Request) (table : List Request) (s : State)
      → Holds (r ∷ table) s
      → Holds table (expire_first (timeout_of r) s)
  unfolding expire_first send_callback answered
  expire_first-Holds r table s h =
      let own : answered r.status r.reply_id (r ∷ table) ≡ table =
        rw (==_refl r.status, ==_refl r.reply_id) refl in
      subst (λ left. Holds left (expire_first (timeout_of r) s)) own
        (unset-Holds r.status r.reply_id (r ∷ table) s _ h h.distinct.0
          (cs.remove_item_lem s.timeouts 0
            ∙ ap (λ ts. remove_at ts 0) h.timeouts
            ∙ ap (map timeout_of) (sym own))
          refl)

  expire-Holds :
      (fuel time_now : ℕ) (table : List Request) (s : State)
      → Holds table s
      → length table ≤ fuel
      → Holds (wait_on time_now table) (expire fuel time_now s)
  unfolding expire
  expire-Holds zero time_now [] s h enough = h
  expire-Holds zero time_now (r ∷ rs) s h enough = absurd (omega arith)
  expire-Holds (suc fuel) time_now [] s h enough =
      subst (Holds []) (sym (expire-suc fuel time_now [] s h.timeouts)) h
  expire-Holds (suc fuel) time_now (r ∷ rs) s h enough =
      subst (Holds (wait_on time_now (r ∷ rs)))
        (sym (expire-suc fuel time_now (timeout_of r ∷ map timeout_of rs) s h.timeouts))
        (elim (Bool-cases (ltb time_now r.at)) [
          | inl late ↦ rw late h
          | inr now' ↦ rw now' (
              expire-Holds fuel time_now rs (expire_first (timeout_of r) s)
                (expire_first-Holds r rs s h) (omega arith))
        ])

  -- If a table of requests holds in a state, then after the loop over timeouts the table without
  -- its requests up to the first that is not due holds.
  pub check_timeouts-Holds :
      (table : List Request) (s : State)
      → Holds table s
      → Holds (wait_on s.now table) (check_timeouts s)
  unfolding check_timeouts
  check_timeouts-Holds table s h =
      expire-Holds (length s.timeouts) s.now table s h
        (omega (arith, length-timeouts table, ap length h.timeouts))

  module _ ⦃os : Libc⦄ where
    -- If a table of requests holds in a state, then after msg_get on a tcp connection with a known
    -- status and room on the stream the table with the new request at its end holds. The status's
    -- next id is below 65536 and not in the table for this status.
    pub msg_get-Holds :
        (p st : ℕ) (d : MsgData) (context : ℕ) (payload : List ℕ) (table : List Request) (s : State)
        → Holds table s
        → (s.conn_at p).protocol_type ≡ msg_tcp
        → status_of_conn p s ≡ some st
        → (s.status_at st).next_reply_id < 65536
        → lookup st (s.status_at st).next_reply_id table ≡ none
        → IsMessage d payload
        → 8 + length payload ≤ room s.script
        → Holds
            (table ++ request s.now p st (s.status_at st).next_reply_id context ∷ [])
            (msg_get p d context s)
    msg_get-Holds p st d context payload table s h tcp known w fresh m fits =
        let id = (s.status_at st).next_reply_id in
        let r : Request = request s.now p st id context in
        let q = msg_get-Requested p st d context payload s tcp known m fits in
        record {
          timeouts =
              q.timeouts
              ∙ ap (λ ts. ts ++ timeout_of r ∷ []) h.timeouts
              ∙ sym (map-append timeout_of table (r ∷ []));
          contexts = λ st' id' narrow.
              ap (λ (f : ℕ → ConnStatus). (f st').reply_contexts id') q.status_at
              ∙ contexts_set s.status_at st context st' id' w narrow
              ∙ ap (λ (o : Option ℕ). if (st == st') && (id == id') then some context else o)
                  (h.contexts st' id' narrow)
              ∙ sym (lookup-append st' id' table r fresh);
          distinct = Distinct-append table r h.distinct w fresh;
        }

    remove_timeout-some :
        (st reply_id i : ℕ) (s : State)
        → timeout_index st reply_id s.timeouts ≡ some i
        → remove_timeout st reply_id s ≡ record s { timeouts = remove_at s.timeouts i }
    unfolding remove_timeout
    remove_timeout-some st reply_id i s e =
        rw (remove_timeout, e)
          (ap (λ (ts : List Timeout). record s { timeouts = ts }) (cs.remove_item_lem s.timeouts i))

    -- If a table of requests holds in a state, then after the delivery of a reply to one of its
    -- requests the table without that request holds.
    pub deliver-Holds :
        (p st context : ℕ) (event : Event) (d : MsgData) (h : Header) (table : List Request)
        (s : State)
        → Holds table s
        → h.message_type ≡ msg_type_reply
        → h.reply_id < 65536
        → lookup st h.reply_id table ≡ some context
        → Holds (answered st h.reply_id table) (deliver p event d st h s).1
    unfolding deliver reply_found send_callback
    deliver-Holds p st context event d h table s holds reply w known =
        let (i, at, left) = timeout_index-lookup st h.reply_id context table known in
        let found : timeout_index st h.reply_id s.timeouts ≡ some i =
          ap (timeout_index st h.reply_id) holds.timeouts ∙ at in
        let removed = remove_timeout-some st h.reply_id i s found in
        rw (reply, holds.contexts st h.reply_id w ∙ known)
          (unset-Holds st h.reply_id table s _ holds w
            (ap (λ (t : State). t.timeouts) removed
              ∙ ap (λ ts. remove_at ts i) holds.timeouts
              ∙ left)
            (ap
              (λ (t : State).
                msgbox.Prelude.upd t.status_at st
                  (msgbox.Timeouts.unset_context h.reply_id (t.status_at st)))
              removed))

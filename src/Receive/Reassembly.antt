-- ===== src/Receive/Reassembly.antt =====
-- A tcp message that arrives in pieces.
use msgbox.Prelude.{
  ℕ, ◌+◌, ◌-◌, ◌<◌, ◌≡◌, refl, ap, ◌∙◌, Bool, true, List, [], ◌∷◌, ◌++◌, ◌==◌, if◌then◌else◌,
  length, arith, append_assoc, append-nil, length-append, upd_self,
}
use msgbox.Cstructs.{Cstructs}
use msgbox.Types.{Header, MsgData}
use msgbox.Libc.{Libc}
use msgbox.State.{State, ConnStatus, PendingCall, free_nothing}
use msgbox.State.Callbacks.{send_callback}
use msgbox.Status.{delete_conn_status_buffer}
use msgbox.Receive.{
  complete, pending, read_body, body_read, tcp_switched, read_from_socket, event_of, deliver,
  switch_type,
}
use msgbox.Receive.Piece.{
  announced, arrive, concat, read_from_socket-pending, read_from_socket-Awaits, NonEmpty,
  Awaits-arrive, received, Awaits, continue_recv-some, partial,
}

-- What the callback of a whole message gets.
abbrev pub message_call : ℕ → Header → List ℕ → PendingCall
message_call p h payload = record {
  conn = p;
  event = announced h;
  payload = partial h payload;
  to_free = free_nothing;
}

module _ ⦃cs : Cstructs⦄ ⦃os : Libc⦄ where
  pub switched-calls :
      (p st : ℕ) (d : MsgData) (h : Header) (s : State)
      → h.message_type < 2
      → let r = tcp_switched p d st h (switch_type p h s) in
        (r.0 ≡ true)
        × (r.1.immediate_callbacks
            ≡ cs.add_item s.immediate_callbacks
                (record { conn = p; event = announced h; payload = d; to_free = free_nothing }))
        × (r.1.status_at ≡ s.status_at)
  unfolding tcp_switched switch_type event_of deliver send_callback
  switched-calls p st d h s plain = ground arith

  Awaits-received :
      (p st left : ℕ) (h : Header) (got piece : List ℕ) (s : State)
      → Awaits p st h got left s
      → Awaits p st h (got ++ piece) (left - length piece) (received p st piece s)
  Awaits-received p st left h got piece s a = record {
    tcp = a.tcp;
    connected = a.connected;
    known = a.known;
    holds = rw (upd_self s.status_at st) (rw a.holds);
    waits = rw (upd_self s.status_at st) (rw a.waits);
  }

  -- The state t in which the type of a whole message is looked at, against the state s before its
  -- last bytes came: the status waits for nothing, and only its buffers have changed.
  pub record Whole (st : ℕ) (s t : State) : Type 0 where
    pub conn_at : t.conn_at ≡ s.conn_at
    pub immediate_callbacks : t.immediate_callbacks ≡ s.immediate_callbacks
    pub timeouts : t.timeouts ≡ s.timeouts
    pub stream : t.stream ≡ s.stream
    pub contexts : (t.status_at st).reply_contexts ≡ (s.status_at st).reply_contexts
    pub ready : (t.status_at st).waiting_num_bytes ≡ 0

  abbrev pub switched : ℕ → ℕ → Header → List ℕ → State → Bool × State
  switched p st h payload t = tcp_switched p (partial h payload) st h (switch_type p h t)

  -- The piece that completes the message.
  read_from_socket_complete :
      (p st left : ℕ) (h : Header) (got piece : List ℕ) (s : State)
      → Awaits p st h got left s
      → 0 < length piece
      → length piece ≡ left
      → (t : State) × (read_from_socket p (arrive piece s) ≡ switched p st h (got ++ piece) t)
        × Whole st s t
  unfolding read_body body_read delete_conn_status_buffer
  read_from_socket_complete p st left h got piece s a nonempty whole =
      let s1 = received p st piece s in
      let t : State = delete_conn_status_buffer st s1 in
      let done' : ((s.status_at st).waiting_num_bytes - length piece == 0) ≡ true =
        ground (arith, a.waits) in
      let path : read_from_socket p (arrive piece s) ≡ body_read p st h (complete, s1) =
        read_from_socket-Awaits p st left h got (arrive piece s)
          (Awaits-arrive p st left h got piece s a) (omega arith)
        ∙ ap (body_read p st h) (
            continue_recv-some p st piece s nonempty (omega (arith, a.waits))
            ∙ ap (λ (b : Bool). (if b then complete else pending, s1)) done') in
      (
        t,
        path
            ∙ ap (λ (d : MsgData). tcp_switched p d st h (switch_type p h t))
                (Awaits-received p st left h got piece s a).holds,
        record {
          conn_at = refl;
          immediate_callbacks = refl;
          timeouts = refl;
          stream = refl;
          contexts = rw (upd_self s1.status_at st, upd_self s.status_at st) refl;
          ready = rw (upd_self s1.status_at st);
        },
      )

  -- Reading once after each piece.
  abbrev pub feed : ℕ → List (List ℕ) → State → State
  feed p [] s = s
  feed p (piece ∷ pieces) s = feed p pieces (read_from_socket p (arrive piece s)).1

  Whole-received :
      (p st : ℕ) (piece : List ℕ) (s t : State) → Whole st (received p st piece s) t → Whole st s t
  Whole-received p st piece s t w = record {
    conn_at = w.conn_at;
    immediate_callbacks = w.immediate_callbacks;
    timeouts = w.timeouts;
    stream = w.stream;
    contexts = w.contexts ∙ ap (λ (x : ConnStatus). x.reply_contexts) (upd_self s.status_at st _);
    ready = w.ready;
  }

  -- However the rest of a message is cut into pieces that are not empty, the reads after them end
  -- with the look at its type, with the whole payload.
  pub feed-Whole :
      (p st left : ℕ) (h : Header) (got : List ℕ) (pieces : List (List ℕ)) (s : State)
      → Awaits p st h got left s
      → 0 < left
      → NonEmpty pieces
      → length (concat pieces) ≡ left
      → (t : State) × (feed p pieces s ≡ (switched p st h (got ++ concat pieces) t).1)
        × Whole st s t
  feed-Whole p st left h got [] s a more ne whole = absurd (omega arith)
  feed-Whole p st left h got (piece ∷ []) s a more ne whole =
      let (t, path, w) =
        read_from_socket_complete p st left h got piece s a ne.0
          (omega (arith, ap length (append-nil piece))) in
      rw (append-nil piece) (t, ap (λ (r : Bool × State). r.1) path, w)
  feed-Whole p st left h got (piece ∷ next ∷ pieces) s a more ne whole =
      let rest : List (List ℕ) = next ∷ pieces in
      let split : length (concat (piece ∷ rest)) ≡ length piece + length (concat rest) =
        length-append piece (concat rest) in
      let behind : 0 < length (concat rest) =
        omega (arith, ne.1.0, length-append next (concat pieces)) in
      let (t, path, w) =
        feed-Whole p st (left - length piece) h (got ++ piece) (next ∷ pieces)
          (received p st piece s) (Awaits-received p st left h got piece s a) (omega arith) ne.1
          (omega arith) in
      let step : feed p (piece ∷ rest) s ≡ feed p rest (received p st piece s) =
        ap (λ (r : Bool × State). feed p rest r.1)
          (read_from_socket-pending p st left h got piece s a ne.0 (omega arith)) in
      (
        t,
        step
            ∙ path
            ∙ ap (λ (bs : List ℕ). (switched p st h bs t).1) (append_assoc got piece (concat rest)),
        Whole-received p st piece s t w,
      )

  -- However the payload of a message is cut into pieces that are not empty, reading once after each
  -- piece schedules one callback, msg_message or msg_request, with the whole payload in
  -- order, and leaves the status ready for the next message. This holds of one-way
  -- messages and of requests.
  pub feed-Awaits :
      (p st left : ℕ) (h : Header) (got : List ℕ) (pieces : List (List ℕ)) (s : State)
      → Awaits p st h got left s
      → 0 < left
      → NonEmpty pieces
      → length (concat pieces) ≡ left
      → h.message_type < 2
      → ((feed p pieces s).immediate_callbacks
          ≡ s.immediate_callbacks ++ message_call p h (got ++ concat pieces) ∷ [])
        × (((feed p pieces s).status_at st).waiting_num_bytes ≡ 0)
  feed-Awaits p st left h got pieces s a more ne whole plain =
      let (t, path, w) = feed-Whole p st left h got pieces s a more ne whole in
      let (_, calls, kept) = switched-calls p st (partial h (got ++ concat pieces)) h t plain in
      (
        ap (λ (u : State). u.immediate_callbacks) path
            ∙ calls
            ∙ cs.add_item_lem t.immediate_callbacks _
            ∙ ap (λ (xs : List PendingCall). xs ++ message_call p h (got ++ concat pieces) ∷ [])
                w.immediate_callbacks,
        ap (λ (u : State). (u.status_at st).waiting_num_bytes) path
            ∙ ap (λ (f : ℕ → ConnStatus). (f st).waiting_num_bytes) kept
            ∙ w.ready,
      )

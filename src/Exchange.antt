-- ===== src/Exchange.antt =====
-- Two programs at the ends of a tcp stream: what one puts on its stream with msg_send, msg_get or
-- msg_disconnect is what the other reads with read_from_socket (msgbox/msgbox.c).
--
-- The network is the assumption that the bytes arrive complete and in order: the header alone
-- first, and then the payload in any pieces that are not empty.
pub mod Delivery
pub mod Request
pub mod Answer
pub mod Closing
pub mod Unknown
use msgbox.Prelude.{
  ℕ, ◌+◌, ◌≤◌, ◌<◌, ◌≡◌, refl, sym, ap, ◌∙◌, Bool, List, [], ◌∷◌, ◌++◌, length, take, take-append,
  length-append, arith,
}
use mathlib.Core.List.{append_cancel_left}
use msgbox.Cstructs.{Cstructs}
use msgbox.Types.{Conn, Header, msg_type_close}
use msgbox.Libc.{Libc}
use msgbox.Wire.{encode_header}
use msgbox.Wire.RoundTrip.{length-encode_header}
use msgbox.State.{State, fail, err_would_block}
use msgbox.Receive.{read_from_socket}
use msgbox.Receive.Piece.{concat, NonEmpty}
use msgbox.Receive.Reassembly.{feed, feed-Whole, switched}
use msgbox.Receive.Heading.{Idle, begin}
use msgbox.Receive.Begin.{read_from_socket-header}

-- What a stream has gained arrives as a header and as a payload in pieces.
pub record Arrival (old new hdr : List ℕ) (pieces : List (List ℕ)) : Type 0 where
  pub header : length hdr ≡ 8
  pub nonempty : NonEmpty pieces
  pub gained : new ≡ old ++ (hdr ++ concat pieces)

-- A message with this header has come, cut between the header and the payload.
split :
    (hdr rest payload : List ℕ) (h : Header)
    → length hdr ≡ 8
    → hdr ++ rest ≡ encode_header h ++ payload
    → (hdr ≡ encode_header h) × (rest ≡ payload)
split hdr rest payload h e same =
    let first : hdr ≡ encode_header h =
      sym (take-append 8 hdr rest e)
      ∙ ap (take 8) same
      ∙ take-append 8 (encode_header h) payload (length-encode_header h) in
    (
      first,
      append_cancel_left (encode_header h) rest payload (ap (λ xs. xs ++ rest) (sym first) ∙ same),
    )

pub Arrival-split :
    (old new hdr payload : List ℕ) (pieces : List (List ℕ)) (h : Header)
    → Arrival old new hdr pieces
    → new ≡ old ++ (encode_header h ++ payload)
    → (hdr ≡ encode_header h) × (concat pieces ≡ payload)
Arrival-split old new hdr payload pieces h a sent = split hdr (concat pieces) payload h a.header (
    append_cancel_left old (hdr ++ concat pieces) (encode_header h ++ payload)
      (sym a.gained ∙ sent))

-- The state t in which the type of a message is looked at, when its header and payload have come
-- in the state s.
pub record Read (p st : ℕ) (h : Header) (s t : State) : Type 0 where
  pub own : t.conn_at p ≡ record (s.conn_at p) { reply_id = h.reply_id }
  pub immediate_callbacks : t.immediate_callbacks ≡ s.immediate_callbacks
  pub timeouts : t.timeouts ≡ s.timeouts
  pub stream : t.stream ≡ s.stream
  pub contexts : (t.status_at st).reply_contexts ≡ (s.status_at st).reply_contexts

module _ ⦃cs : Cstructs⦄ ⦃os : Libc⦄ where
  -- Reading after the header, and then after each piece.
  abbrev pub receive : ℕ → List ℕ → List (List ℕ) → State → State
  receive p hdr pieces s =
      feed p pieces (read_from_socket p (begin hdr (fail err_would_block ∷ []) s)).1

  pub receive-Read :
      (p st : ℕ) (h : Header) (old new hdr payload : List ℕ) (pieces : List (List ℕ)) (s : State)
      → Idle p st s
      → Arrival old new hdr pieces
      → new ≡ old ++ (encode_header h ++ payload)
      → h.message_type < msg_type_close
      → h.reply_id < 65536
      → h.num_bytes ≡ length payload
      → h.num_bytes < 4294967296
      → 0 < length payload
      → (t : State) × (receive p hdr pieces s ≡ (switched p st h payload t).1) × Read p st h s t
  receive-Read p st h old new hdr payload pieces s idle arrival sent w1 w2 size w3 more =
      let (first, rest) = Arrival-split old new hdr payload pieces h arrival sent in
      let b = read_from_socket-header p st h s idle (omega arith) w2 w3 (omega arith) in
      let (t, path, w) =
        feed-Whole p st h.num_bytes h [] pieces _ b.awaits (omega arith) arrival.nonempty
          (ap length rest ∙ sym size) in
      (
        t,
        ap (λ hdr. receive p hdr pieces s) first
            ∙ path
            ∙ ap (λ (bs : List ℕ). (switched p st h bs t).1) rest,
        record {
          own = ap (λ (f : ℕ → Conn). f p) w.conn_at ∙ b.own;
          immediate_callbacks = w.immediate_callbacks ∙ b.immediate_callbacks;
          timeouts = w.timeouts ∙ b.timeouts;
          stream = w.stream ∙ b.stream;
          contexts = w.contexts ∙ b.contexts;
        },
      )

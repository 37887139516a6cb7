-- ===== src/Receive/Peek.antt =====
-- The look at the header of a datagram, and the switch on its type.
use msgbox.Prelude.{
  ℕ, ◌+◌, ◌<◌, ◌≡◌, ◌⊎◌, refl, ap, ◌∙◌, Bool-cases, List, [], ◌∷◌, ◌++◌, some, inl, inr, ◌==◌,
  if◌then◌else◌, length, arith, upd_self,
}
use msgbox.Cstructs.{Cstructs}
use msgbox.Types.{Address, Conn, Header, wire, MsgData, msg_udp, msg_type_one_way, header_len}
use msgbox.Libc.{Libc}
use msgbox.Wire.{encode_header}
use msgbox.Wire.RoundTrip.{decode-encode_header_self}
use msgbox.State.{State, Answer, Response, done, syscall, sys_peek, set_conn, record_call}
use msgbox.Receive.{
  read_header, finish_header, consume_header, read_udp, read_from_socket, udp_header_read,
  switch_type, event_of,
}
use msgbox.Receive.Piece.{announced, arrived}

-- A datagram, which the header is looked at in and which is then taken.
abbrev pub datagram : Header → List ℕ → ℕ → ℕ → Answer
datagram h payload ip port = record {
  value = 8 + length payload;
  bytes = encode_header h ++ payload;
  ip = ip;
  port = port;
  revents = [];
}

abbrev pub datagram_comes : Header → List ℕ → ℕ → ℕ → State → State
datagram_comes h payload ip port s = record s {
  script = arrived (encode_header h) ∷ done (datagram h payload ip port) ∷ [];
}

abbrev pub udp_address : ℕ → ℕ → Address
udp_address ip port = record { ip = ip; port = port; protocol_type = msg_udp }

-- The id that an answer will carry.
abbrev pub owed : Header → ℕ
owed h = if h.message_type == msg_type_one_way then 0 else h.reply_id

-- What the callback of a datagram gets.
abbrev pub udp_payload : Header → List ℕ → Address → MsgData
udp_payload h payload a = record {
  num_bytes = h.num_bytes;
  buffer = some (record {
    reply_context = some 0;
    remote_address = some a;
    header = wire (encode_header h);
    bytes = payload;
  });
}

below_two : (n : ℕ) → n < 2 → (n ≡ 0) ⊎ (n ≡ 1)
below_two n h = elim (Bool-cases (n == 0)) [
  | inl e ↦ inl (ground arith)
  | inr e ↦ inr (ground arith)
]

module _ ⦃cs : Cstructs⦄ ⦃os : Libc⦄ where
  -- The header is in the conn, and the datagram is still to come.
  abbrev pub looked_at : ℕ → Header → Response → State → State
  looked_at p h next s =
      let c = s.conn_at p in
      record (set_conn p (record c { reply_id = h.reply_id }) s) {
        script = next ∷ [];
        calls = sys_peek c.socket header_len ∷ s.calls;
      }

  consume_header-udp :
      (c : Conn) (bytes : List ℕ) (s : State)
      → c.protocol_type ≡ msg_udp
      → consume_header c bytes s ≡ (bytes, s)
  consume_header-udp c bytes s e = ground arith

  pub read_header-udp :
      (p : ℕ) (h : Header) (next : Response) (s : State)
      → (s.conn_at p).protocol_type ≡ msg_udp
      → h.message_type < 65536
      → h.reply_id < 65536
      → h.num_bytes < 4294967296
      → read_header p (record s { script = arrived (encode_header h) ∷ next ∷ [] })
        ≡ (some h, looked_at p h next s)
  unfolding read_header syscall encode_header
  read_header-udp p h next s udp w1 w2 w3 =
      ap (finish_header p) (
        consume_header-udp (s.conn_at p) (encode_header h)
          (record_call (sys_peek (s.conn_at p).socket header_len) (next ∷ []) s) udp)
      ∙ ap (λ (x : Header). (some x, looked_at p x next s)) (decode-encode_header_self h w1 w2 w3)

  pub read_from_socket-udp :
      (p : ℕ) (s : State)
      → (s.conn_at p).protocol_type ≡ msg_udp
      → read_from_socket p s ≡ udp_header_read p (read_header p s)
  unfolding read_from_socket read_udp
  read_from_socket-udp p s udp = rw (read_from_socket, udp)

  pub record Switched (p : ℕ) (h : Header) (s s' : State) : Type 0 where
    pub own : s'.conn_at p ≡ record (s.conn_at p) { reply_id = owed h }
    pub script : s'.script ≡ s.script
    pub immediate_callbacks : s'.immediate_callbacks ≡ s.immediate_callbacks
    pub conn_status : s'.conn_status ≡ s.conn_status

  pub switch_type-Switched :
      (p : ℕ) (h : Header) (s : State)
      → h.message_type < 2
      → (s.conn_at p).reply_id ≡ h.reply_id
      → (s' : State) × (switch_type p h s ≡ (some (announced h), s')) × Switched p h s s'
  unfolding switch_type event_of
  switch_type-Switched p h s plain own = elim (below_two h.message_type plain) [
    | inl e ↦
        rw (e, switch_type)
          (
            set_conn p (record (s.conn_at p) { reply_id = 0 }) s,
            refl,
            record {
              own = upd_self s.conn_at p _;
              script = refl;
              immediate_callbacks = refl;
              conn_status = refl;
            },
          )
    | inr e ↦
        rw (e, switch_type)
          (
            s,
            refl,
            record {
              own = ap (λ (id : ℕ). record (s.conn_at p) { reply_id = id }) own;
              script = refl;
              immediate_callbacks = refl;
              conn_status = refl;
            },
          )
  ]

-- ===== src/Api/Sending.antt =====
-- A whole message on a tcp stream.
use msgbox.Prelude.{
  ℕ, ◌+◌, ◌≤◌, ◌<◌, ◌≡◌, refl, ap, ◌∙◌, Bool, true, false, List, ◌++◌, Option, none, some, length,
  length-append, take, take_all, arith, codes,
}
use msgbox.Types.{Header, msg_tcp, Buffer, MsgData, msg_tcp}
use msgbox.Wire.{encode_header, set_header}
use msgbox.Wire.RoundTrip.{length-encode_header}
use msgbox.State.{State}
use msgbox.State.Frame.{Kept}
use msgbox.Send.{send_all, send_data, message_bytes, name_if_false}
use msgbox.Send.Complete.{Outcome, send_all-Outcome, send_all-true, room}
use msgbox.Send.Frame.{send_all-Kept}
use msgbox.Api.{to_uint32}

-- A message whose payload is written to its end, of a size that the header can hold.
pub record IsMessage (d : MsgData) (payload : List ℕ) : Type 0 where
  pub size : d.num_bytes ≡ length payload
  pub fits : length payload < 4294967296
  pub buffer : Buffer
  pub holds : d.buffer ≡ some buffer
  pub written : buffer.bytes ≡ payload

abbrev pub header_for : ℕ → ℕ → List ℕ → Header
header_for msg_type reply_id payload = record {
  message_type = msg_type;
  reply_id = reply_id;
  num_bytes = length payload;
}

take-framed :
    (n : ℕ) (h : Header) (bytes payload : List ℕ)
    → n ≡ length payload
    → bytes ≡ payload
    → take (n + 8) (encode_header h ++ bytes) ≡ encode_header h ++ payload
take-framed n h bytes payload size e =
    take_all (n + 8) (encode_header h ++ bytes)
      (omega (arith, length-append (encode_header h) bytes, length-encode_header h, ap length e))
    ∙ ap (◌++◌ (encode_header h)) e

to_uint32-size :
    (n : ℕ) (payload : List ℕ)
    → n ≡ length payload
    → length payload < 4294967296
    → to_uint32 n ≡ length payload
to_uint32-size n payload e h = ground arith

message_bytes-set_header :
    (d : MsgData) (msg_type reply_id : ℕ) (payload : List ℕ)
    → IsMessage d payload
    → message_bytes (set_header d msg_type reply_id (to_uint32 d.num_bytes))
      ≡ encode_header (header_for msg_type reply_id payload) ++ payload
unfolding set_header
message_bytes-set_header d msg_type reply_id payload m =
    let h : ℕ → Header =
      λ n. record { message_type = msg_type; reply_id = reply_id; num_bytes = n } in
    rw m.holds (
      take-framed d.num_bytes (h (to_uint32 d.num_bytes)) m.buffer.bytes payload m.size m.written
      ∙ ap (λ n. encode_header (h n) ++ payload) (to_uint32-size d.num_bytes payload m.size m.fits))

-- What a send on a tcp connection does when the system makes room.
pub record Sent (p : ℕ) (bytes : List ℕ) (s s' : State) : Type 0 where
  pub stream : s'.stream (s.conn_at p).socket ≡ s.stream (s.conn_at p).socket ++ bytes
  pub kept : Kept s s'

Outcome-true :
    (socket : ℕ) (bytes : List ℕ) (s : State) (r : Bool × State)
    → r.0 ≡ true
    → Outcome socket bytes s r
    → r.1.stream socket ≡ s.stream socket ++ bytes
Outcome-true socket bytes s (true, s') e o = o
Outcome-true socket bytes s (false, s') e o = absurd cc

send_all-Sent :
    (p : ℕ) (d : MsgData) (bytes : List ℕ) (s : State)
    → message_bytes d ≡ bytes
    → length bytes ≤ room s.script
    → ((send_all (s.conn_at p).socket d s).0 ≡ true)
      × Sent p bytes s (send_all (s.conn_at p).socket d s).1
send_all-Sent p d bytes s e h =
    let socket = (s.conn_at p).socket in
    let ok = send_all-true socket d s (omega (arith, ap length e)) in
    (
      ok,
      record {
        stream =
            Outcome-true socket (message_bytes d) s (send_all socket d s) ok
              (send_all-Outcome socket d s)
            ∙ ap (◌++◌ (s.stream socket)) e;
        kept = send_all-Kept socket d s;
      },
    )

abbrev sent_name : Bool × State → Option (List ℕ) × State
sent_name r = name_if_false (codes "send") r

send_data-tcp :
    (p : ℕ) (d : MsgData) (s : State)
    → (s.conn_at p).protocol_type ≡ msg_tcp
    → send_data p d s ≡ sent_name (send_all (s.conn_at p).socket d s)
unfolding send_data
send_data-tcp p d s tcp = rw tcp refl

sent_name-true : (r : Bool × State) → r.0 ≡ true → sent_name r ≡ (none, r.1)
sent_name-true (b, s) e = rw e refl

-- A complete message, with its header, sent on a tcp connection with room for it.
pub send_data-Sent :
    (p msg_type reply_id : ℕ) (d : MsgData) (payload : List ℕ) (s : State)
    → (s.conn_at p).protocol_type ≡ msg_tcp
    → IsMessage d payload
    → 8 + length payload ≤ room s.script
    → (s' : State) × (send_data p (set_header d msg_type reply_id (to_uint32 d.num_bytes)) s
        ≡ (none, s'))
      × Sent p (encode_header (header_for msg_type reply_id payload) ++ payload) s s'
send_data-Sent p msg_type reply_id d payload s tcp m h =
    let h1 : Header = header_for msg_type reply_id payload in
    let d1 : MsgData = set_header d msg_type reply_id (to_uint32 d.num_bytes) in
    let r : Bool × State = send_all (s.conn_at p).socket d1 s in
    let (ok, sent) =
      send_all-Sent p d1 (encode_header h1 ++ payload) s
        (message_bytes-set_header d msg_type reply_id payload m)
        (omega (arith, length-append (encode_header h1) payload, length-encode_header h1)) in
    (r.1, send_data-tcp p d1 s tcp ∙ sent_name-true r ok, sent)

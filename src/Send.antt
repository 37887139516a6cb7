-- ===== src/Send.antt =====
-- Sending a message (msgbox/msgbox.c: send_all, send_data).
pub mod Complete
pub mod Frame
use msgbox.Prelude.{
  ℕ, zero, suc, ◌+◌, Bool, true, false, List, [], ◌∷◌, ◌++◌, Option, none, some, ◌==◌,
  if◌then◌else◌, codes, length, take, drop, upd,
}
use msgbox.Types.{Conn, Header, HeaderSlot, unset, wire, host, header_len, Buffer, MsgData, msg_tcp}
use msgbox.Wire.{encode_header}
use msgbox.State.{
  State, Answer, Response, done, fail, syscall, sys_send, sys_sendto, err_would_block,
}

abbrev pub slot_bytes : HeaderSlot → List ℕ
slot_bytes unset = []
slot_bytes (wire bs) = bs
slot_bytes (host h) = encode_header h

-- The bytes from bytes - header_len on.
abbrev pub message_bytes : MsgData → List ℕ
message_bytes d = elim d.buffer [
  | none ↦ []
  | some b ↦ take (d.num_bytes + header_len) (slot_bytes b.header ++ b.bytes)
]

-- The system has taken these bytes.
abbrev pub accept_bytes : ℕ → List ℕ → State → State
accept_bytes socket bytes s = record s { stream = upd s.stream socket (s.stream socket ++ bytes) }

-- One round of the loop: what is left to send, `none` after an error.
unfoldable pub send_some : ℕ → List ℕ → Response × State → Option (List ℕ) × State
send_some socket bytes (fail e, s) = (if e == err_would_block then some bytes else none, s)
send_some socket bytes (done a, s) =
    (some (drop a.value bytes), accept_bytes socket (take a.value bytes) s)

-- The loop of send_all. `true` is the result 0.
unfoldable pub send_loop : ℕ → ℕ → List ℕ → State → Bool × State
send_loop zero socket bytes s = (false, s)
send_loop (suc fuel) socket [] s = (true, s)
send_loop (suc fuel) socket (b ∷ bs) s =
    let (left, s1) = send_some socket (b ∷ bs) (syscall (sys_send socket (b ∷ bs)) s) in
    elim left [ none ↦ (false, s1) | some rest ↦ send_loop fuel socket rest s1 ]

-- Each round takes an answer from the script and fails at its end, so the length of the script,
-- with one round for the failure and one for the test, is enough fuel.
unfoldable pub send_all : ℕ → MsgData → State → Bool × State
unfolding send_loop send_some syscall
send_all socket d s = send_loop (suc (suc (length s.script))) socket (message_bytes d) s

abbrev pub name_if_failed : List ℕ → Response × State → Option (List ℕ) × State
name_if_failed name (fail e, s) = (some name, s)
name_if_failed name (done a, s) = (none, s)

abbrev pub name_if_false : List ℕ → Bool × State → Option (List ℕ) × State
name_if_false name (b, s) = (if b then none else some name, s)

-- `none` is no_error, otherwise the name of the failing system call.
unfoldable pub send_data : ℕ → MsgData → State → Option (List ℕ) × State
unfolding send_all syscall
send_data p d s =
    let c = s.conn_at p in
    if c.protocol_type == msg_tcp
    then name_if_false (codes "send") (send_all c.socket d s)
    else if c.for_listening
    then name_if_failed (codes "sendto")
        (syscall (sys_sendto c.socket c.remote_ip c.remote_port (message_bytes d)) s)
    else name_if_failed (codes "send") (syscall (sys_send c.socket (message_bytes d)) s)

-- ===== src/Examples.antt =====
-- What the two example programs share (examples/echo_server.c, examples/echo_client.c): their
-- arguments, the loop of main, and C strings in a message.
--
-- A pointer to a conn in a static variable is the conn's number plus one, 0 for NULL. Printing is
-- left out.
pub mod EchoServer
pub mod EchoClient
pub mod Turns
pub mod Echo
use mathlib.Core.Option
use msgbox.Prelude.{
  ℕ, zero, suc, Bool, true, false, List, [], ◌∷◌, ◌++◌, Option, none, some, ◌==◌, ◌||◌,
  if◌then◌else◌, codes, get_or, upd,
}
use msgbox.Cstructs.{Cstructs}
use msgbox.Types.{MsgData, unset}
use msgbox.Libc.{Libc, snprintf, str_eq}
use msgbox.Libc.Decimal.{decimal}
use msgbox.State.{State}
use msgbox.Runloop.{Handler, msg_runloop}

-- `static int done`
abbrev pub done_variable : ℕ
done_variable = 0

abbrev pub is_done : State → Bool
is_done s = s.memory done_variable == 1

abbrev pub set_variable : ℕ → ℕ → State → State
set_variable variable value s = record s { memory = upd s.memory variable value }

-- The string that starts at these bytes, `none` when they have no 0.
pub c_str : List ℕ → Option (List ℕ)
c_str [] = none
c_str (c ∷ cs) =
    let rest = Option.map (λ (text : List ℕ). c ∷ text) (c_str cs) in
    if c == 0 then some [] else rest

-- msg_as_str, and the reading of the string.
unfoldable pub msg_as_str : MsgData → Option (List ℕ)
unfolding c_str
msg_as_str d = elim d.buffer [ none ↦ none | some b ↦ c_str b.bytes ]

-- The data of msg_new_data_space once sprintf has written this text and its 0.
abbrev pub sprintf_data : ℕ → List ℕ → MsgData
sprintf_data n text = record {
  num_bytes = n;
  buffer = some (record {
    reply_context = none;
    remote_address = none;
    header = unset;
    bytes = text ++ 0 ∷ [];
  });
}

-- Both programs want one argument, udp or tcp.
unfoldable pub is_protocol : List ℕ → Bool
is_protocol text = str_eq text (codes "udp") || str_eq text (codes "tcp")

abbrev pub port_of : List ℕ → ℕ
port_of protocol = if get_or protocol 0 0 == b't' then 2345 else 2468

unfoldable pub address_text : List ℕ → List ℕ → List ℕ
address_text protocol host =
    snprintf 128 (protocol ++ (codes "://" ++ (host ++ (codes ":" ++ decimal (port_of protocol)))))

abbrev pub timeout_in_ms : Option ℕ
timeout_in_ms = some 10

module _ ⦃cs : Cstructs⦄ ⦃os : Libc⦄ where
  -- `while (!done) msg_runloop(timeout_in_ms);` with a bound on the turns; `none` is a program that
  -- is still running.
  unfoldable pub run_until_done : ℕ → Handler → State → Option State
  run_until_done zero user s = if is_done s then some s else none
  run_until_done (suc fuel) user s =
      let rest = run_until_done fuel user (msg_runloop user timeout_in_ms s) in
      if is_done s then some s else rest

-- ===== src/Tests/Fixtures.antt =====
-- The states and parameters of the tests: one tcp connection, a udp listener, and two libraries.
use msgbox.Prelude.{
  ℕ, ◌+◌, ◌*◌, ◌/◌, ◌%◌, ◌<◌, ◌≡◌, true, false, List, [], ◌∷◌, Option, none, some, ◌==◌,
  if◌then◌else◌, length, arith, codes,
}
use msgbox.Cstructs.{Cstructs, list_cstructs}
use msgbox.Types.{Conn, new_connection, Address, msg_error, MsgData, unset, msg_tcp, msg_udp}
use msgbox.Libc.{Libc, contains}
use msgbox.State.{State, initial_state, Response, done, pollin}

instance abbrev pub arrays_and_maps : Cstructs
arrays_and_maps = list_cstructs

-- One letter for each four bits stands for the dotted decimals.
abbrev nibble : ℕ → ℕ → ℕ
nibble ip place = 65 + ip / place % 16

abbrev letters : ℕ → List ℕ
letters ip =
    nibble ip 268435456
    ∷ nibble ip 16777216
    ∷ nibble ip 1048576
    ∷ nibble ip 65536
    ∷ nibble ip 4096
    ∷ nibble ip 256
    ∷ nibble ip 16
    ∷ nibble ip 1
    ∷ []

abbrev from_letters : ℕ → List ℕ → ℕ
from_letters n [] = n
from_letters n (c ∷ cs) = from_letters (n * 16 + (Prim.Native.Nat.◌-◌ c 65)) cs

abbrev from_text : List ℕ → Option ℕ
from_text text = if length text == 8 then some (from_letters 0 text) else none

pub letters_no_colon : (ip : ℕ) → contains (letters ip) 58 ≡ false
letters_no_colon ip = ground arith

pub from_text-letters : (ip : ℕ) → ip < 4294967296 → from_text (letters ip) ≡ some ip
from_text-letters ip h = ground arith

instance abbrev pub system : Libc
system = record {
  strerror = λ e. codes "failed";
  inet_pton = λ text. from_text text;
  inet_ntoa = λ ip. letters ip;
  stale_address = record { ip = 5; port = 6; protocol_type = msg_udp };
  stale_context = 0;
  stale_event = msg_error;
  stale_int = 0;
  ntoa_short = λ ip h. omega arith;
  ntoa_long = λ ip h. omega arith;
  ntoa_no_colon = λ ip h. letters_no_colon ip;
  pton-ntoa = λ ip h. from_text-letters ip h;
}

abbrev pub tcp_conn : Conn
tcp_conn = record (new_connection 7 9) {
  remote_ip = 1;
  remote_port = 80;
  protocol_type = msg_tcp;
  socket = 3;
}

abbrev pub listener : Conn
listener = record (new_connection 7 9) {
  remote_port = 90;
  protocol_type = msg_udp;
  socket = 4;
  for_listening = true;
  index = 1;
}

abbrev pub peer : Address
peer = record { ip = 1; port = 80; protocol_type = msg_tcp }

abbrev pub accepts : ℕ → Response
accepts n = done (record { value = n; bytes = []; ip = 0; port = 0; revents = [] })

abbrev two_conns : ℕ → Conn
two_conns p = if p == 0 then tcp_conn else listener

abbrev known_peer : Address → Option ℕ
known_peer a = if a.port == 80 then some 0 else none

-- Conn 0 is connected to the peer, whose status is 0; conn 1 listens on udp.
abbrev pub connected : List Response → State
connected script = record (initial_state script) {
  conn_at = λ p. two_conns p;
  next_conn = 2;
  next_status = 1;
  conns = 0 ∷ 1 ∷ [];
  poll_fds =
      record { fd = 3; events = pollin; revents = 0 }
      ∷ record { fd = 4; events = pollin; revents = 0 }
      ∷ [];
  conn_status = λ a. known_peer a;
}

-- A message of three bytes.
abbrev pub hello : MsgData
hello = record {
  num_bytes = 3;
  buffer = some (record {
    reply_context = none;
    remote_address = none;
    header = unset;
    bytes = 104 ∷ 105 ∷ 33 ∷ [];
  });
}

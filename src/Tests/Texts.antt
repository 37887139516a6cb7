-- ===== src/Tests/Texts.antt =====
-- Addresses and headers (Address.antt, Wire.antt).
use msgbox.Prelude.{◌≡◌, refl, true, inr, ◌++◌, none, codes, arith}
use msgbox.Types.{Address, Header, set_address, msg_tcp, msg_udp}
use msgbox.Libc.Decimal.{decimal}
use msgbox.Wire.{encode_header, decode_header}
use msgbox.Wire.RoundTrip.{decode-encode_header}
use msgbox.Address.{address_as_str, address_eq}
use msgbox.Address.Key.{IsAddress}
use msgbox.Address.Parse.{parse_address_str}
use msgbox.Address.Print.{parse_address_str-address_as_str, parse_address_str-wraps}
use msgbox.Tests.Fixtures.{arrays_and_maps, system, tcp_conn}

abbrev request : Header
request = record { message_type = 1; reply_id = 65535; num_bytes = 70000 }

abbrev too_wide : Header
too_wide = record { message_type = 1; reply_id = 65536; num_bytes = 4294967299 }

decode-encode_header_example :
    decode_header (encode_header too_wide)
    ≡ record { message_type = 1; reply_id = 0; num_bytes = 3 }
decode-encode_header_example = decode-encode_header too_wide

abbrev local : Address
local = record { ip = 2130706433; port = 2345; protocol_type = msg_udp }

abbrev local_IsAddress : IsAddress local
local_IsAddress = record {
  ip_width = omega arith;
  port_width = omega arith;
  protocol_width = omega arith;
}

parse_address_str-address_as_str_example :
    parse_address_str (address_as_str local) tcp_conn ≡ (none, set_address tcp_conn local)
parse_address_str-address_as_str_example =
    parse_address_str-address_as_str local tcp_conn local_IsAddress (inr refl)

-- Port 65616 is taken for port 80.
parse_address_str-wraps_example :
    parse_address_str
      (codes "tcp://" ++ (system.inet_ntoa 9 ++ (codes ":" ++ decimal 65616)))
      tcp_conn
    ≡ (none, set_address tcp_conn (record { ip = 9; port = 80; protocol_type = msg_tcp }))
parse_address_str-wraps_example =
    parse_address_str-wraps 9 65616 tcp_conn (omega arith) (omega arith)

address_eq-local : address_eq local local ≡ true
unfolding address_eq
address_eq-local = refl

-- ===== src/Wire.antt =====
-- The wire format of a header (msgbox/msgbox.c: Header, set_header, the conversions at the end of
-- read_header). htons and htonl put the most significant byte first in memory.
pub mod RoundTrip
use mathlib.Core.Option
use msgbox.Prelude.{ℕ, ◌+◌, ◌*◌, ◌/◌, ◌%◌, List, [], ◌∷◌, ◌++◌, get_or}
use msgbox.Types.{Header, HeaderSlot, wire, Buffer, MsgData}

-- A uint16_t in network order.
abbrev pub htons : ℕ → List ℕ
htons n = (n / 256 % 256) ∷ (n % 256) ∷ []

-- A uint32_t in network order.
abbrev pub htonl : ℕ → List ℕ
htonl n = (n / 16777216 % 256) ∷ (n / 65536 % 256) ∷ (n / 256 % 256) ∷ (n % 256) ∷ []

unfoldable pub encode_header : Header → List ℕ
encode_header h = htons h.message_type ++ htons h.reply_id ++ htonl h.num_bytes

abbrev pub ntohs : List ℕ → ℕ → ℕ
ntohs bs i = get_or bs i 0 * 256 + get_or bs (i + 1) 0

abbrev pub ntohl : List ℕ → ℕ → ℕ
ntohl bs i = ntohs bs i * 65536 + ntohs bs (i + 2)

-- The three ntoh conversions of read_header.
unfoldable pub decode_header : List ℕ → Header
decode_header bs = record {
  message_type = ntohs bs 0;
  reply_id = ntohs bs 2;
  num_bytes = ntohl bs 4;
}

-- A write just before the payload.
abbrev pub write_header : HeaderSlot → Buffer → Buffer
write_header h b = record b { header = h }

-- A NULL `bytes` is the caller's error; nothing is written then.
unfoldable pub set_header : MsgData → ℕ → ℕ → ℕ → MsgData
unfolding encode_header
set_header d msg_type reply_id num_bytes =
    let h : Header = record {
      message_type = msg_type;
      reply_id = reply_id;
      num_bytes = num_bytes;
    } in
    record d { buffer = Option.map (write_header (wire (encode_header h))) d.buffer }

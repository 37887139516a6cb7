-- ===== src/Wire/RoundTrip.antt =====
-- What the receiver reads from the header that the sender wrote.
use msgbox.Prelude.{◌<◌, ◌%◌, ◌≡◌, length, arith}
use msgbox.Types.{Header}
use msgbox.Wire.{encode_header, decode_header}

-- The encoding has the length of the struct.
pub length-encode_header : (h : Header) → length (encode_header h) ≡ 8
unfolding encode_header
length-encode_header h = omega arith

-- Decoding an encoded header gives each field reduced to its width: 16, 16 and 32 bits.
pub decode-encode_header :
    (h : Header)
    → decode_header (encode_header h) ≡ record {
      message_type = h.message_type % 65536;
      reply_id = h.reply_id % 65536;
      num_bytes = h.num_bytes % 4294967296;
    }
unfolding encode_header decode_header
decode-encode_header h = ground arith

-- Fields that fit their widths come back unchanged.
pub decode-encode_header_self :
    (h : Header)
    → h.message_type < 65536
    → h.reply_id < 65536
    → h.num_bytes < 4294967296
    → decode_header (encode_header h) ≡ h
unfolding encode_header decode_header
decode-encode_header_self h p q r = ground arith

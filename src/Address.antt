-- ===== src/Address.antt =====
-- Remote addresses as keys of the connection status map, and as text (msgbox/msgbox.c:
-- address_as_str, address_hash, address_eq, parse_address_str).
pub mod Parse
pub mod Key
pub mod Print
use msgbox.Prelude.{
  ℕ, ◌+◌, ◌*◌, ◌/◌, ◌%◌, ◌<◌, List, [], ◌∷◌, ◌++◌, Bool, ltb, ◌==◌, if◌then◌else◌, codes,
}
use msgbox.Types.{Address, msg_udp}
use msgbox.Libc.{Libc, snprintf, str_eq}
use msgbox.Libc.Decimal.{decimal}
use msgbox.Cstructs.{MapKey}

-- The eight bytes of the struct, on a little-endian machine.
unfoldable pub address_bytes : Address → List ℕ
address_bytes a =
    (a.ip % 256)
    ∷ (a.ip / 256 % 256)
    ∷ (a.ip / 65536 % 256)
    ∷ (a.ip / 16777216 % 256)
    ∷ (a.port % 256)
    ∷ (a.port / 256 % 256)
    ∷ (a.protocol_type % 256)
    ∷ (a.protocol_type / 256 % 256)
    ∷ []

-- A char is signed; the int is kept as its 32-bit pattern.
abbrev pub sign_extend : ℕ → ℕ
sign_extend b = if ltb b 128 then b else b + 4294967040

pub hash_bytes : ℕ → List ℕ → ℕ
hash_bytes hash [] = hash
hash_bytes hash (b ∷ bs) = hash_bytes ((hash * 234 % 4294967296 + sign_extend b) % 4294967296) bs

unfoldable pub address_hash : Address → ℕ
unfolding hash_bytes address_bytes
address_hash a = hash_bytes 0 (address_bytes a)

unfoldable pub address_eq : Address → Address → Bool
unfolding address_bytes str_eq
address_eq a b = str_eq (address_bytes a) (address_bytes b)

-- The functions that init_if_needed gives to the map conn_status.
abbrev pub address_key : MapKey Address
address_key = record { hash = address_hash; eq = address_eq }

module _ ⦃os : Libc⦄ where
  unfoldable pub address_as_str : Address → List ℕ
  address_as_str a = snprintf 32 (
      (if a.protocol_type == msg_udp then codes "udp" else codes "tcp")
      ++ (codes "://" ++ (os.inet_ntoa a.ip ++ (codes ":" ++ decimal a.port))))

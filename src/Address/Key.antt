-- ===== src/Address/Key.antt =====
-- The keys of the status map: address_hash and address_eq of msgbox/msgbox.c.
use msgbox.Prelude.{◌<◌, ◌≡◌, true, ap, arith}
use msgbox.Types.{Address}
use msgbox.Libc.{str_eq-eq, str_eq_refl}
use msgbox.Cstructs.{Agree}
use msgbox.Address.{address_bytes, address_hash, address_eq, hash_bytes, address_key}

-- The fields fit their widths in the struct.
pub record IsAddress (a : Address) : Type 0 where
  pub ip_width : a.ip < 4294967296
  pub port_width : a.port < 65536
  pub protocol_width : a.protocol_type < 65536

-- Equal addresses hash alike, whatever their bytes.
pub address_key-Agree : (a b : Address) → Agree address_key a b
unfolding address_hash address_eq
address_key-Agree a b h = ap (hash_bytes 0) (str_eq-eq (address_bytes a) (address_bytes b) h)

pub address_bytes-injective :
    (a b : Address) → IsAddress a → IsAddress b → address_bytes a ≡ address_bytes b → a ≡ b
unfolding address_bytes
address_bytes-injective a b p q e = ground arith

-- Two addresses within their field widths that address_eq takes for equal are equal.
pub address_eq-eq : (a b : Address) → IsAddress a → IsAddress b → address_eq a b ≡ true → a ≡ b
unfolding address_eq
address_eq-eq a b p q h =
    address_bytes-injective a b p q (str_eq-eq (address_bytes a) (address_bytes b) h)

pub address_eq_refl : (a : Address) → address_eq a a ≡ true
unfolding address_eq
address_eq_refl a = str_eq_refl (address_bytes a)

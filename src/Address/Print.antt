-- ===== src/Address/Print.antt =====
-- Printing an address and parsing it again.
use msgbox.Prelude.{
  ℕ, ◌≤◌, ◌<◌, ◌%◌, ◌≡◌, refl, ap, ◌∙◌, ◌⊎◌, inl, inr, List, [], ◌∷◌, ◌++◌, none, some, false,
  arith, codes, length, length-append, take_all, append-nil, Bool-cases, ltb,
}
use native.Mathlib.Nat.{mod-eq_of_lt}
use msgbox.Types.{Address, Conn, msg_tcp, msg_udp, set_address}
use msgbox.Libc.{Libc, contains, str_eq, str_eq-eq, starts_with}
use msgbox.Libc.Decimal.{
  decimal, strtol, digits-nil, strtol-decimal, length-decimal_port, decimal-cons,
}
use msgbox.Address.Key.{IsAddress}
use msgbox.Address.{address_as_str}
use msgbox.Address.Parse.{
  find_colon, to_uint16, parse_port, parse_host, parse_ip, parse_after_prefix, parse_address_str,
}

-- The first colon is found.
pub find_colon-append :
    (before after : List ℕ)
    → contains before b':' ≡ false
    → find_colon (before ++ b':' ∷ after) ≡ some (before, after)
unfolding find_colon
find_colon-append [] after h = refl
find_colon-append (c ∷ cs) after h = ground (arith, find_colon-append cs after)

parse_port_ok :
    (address : List ℕ) (d : ℕ) (ds : List ℕ) (port : ℕ) (c : Conn)
    → strtol (d ∷ ds) ≡ record { negative = false; magnitude = port; end_ptr = [] }
    → parse_port address (d ∷ ds) c ≡ (none, record c { remote_port = port % 65536 })
unfolding parse_port
parse_port_ok address d ds port c read =
    rw (parse_port, read) (ap (λ (t : ℕ). (none, record c { remote_port = t })) (ap to_uint16 read))

-- A printed port is read back, reduced to the width of the field.
pub parse_port-decimal :
    (address : List ℕ) (port : ℕ) (c : Conn)
    → port < 10000000000
    → parse_port address (decimal port) c ≡ (none, record c { remote_port = port % 65536 })
parse_port-decimal address port c h =
    let (d, ds, e) = decimal-cons port in
    let read : strtol (decimal port ++ [])
        ≡ record { negative = false; magnitude = port; end_ptr = [] } =
      strtol-decimal port [] h (digits-nil port) in
    let read' : strtol (d ∷ ds) ≡ record { negative = false; magnitude = port; end_ptr = [] } =
      rw (append-nil, e) at read in
    rw e (parse_port_ok address d ds port c read')

module _ ⦃os : Libc⦄ where
  text : ℕ → ℕ → List ℕ
  text ip port = os.inet_ntoa ip ++ (b':' ∷ decimal port)

  length-text : (ip port : ℕ) → ip < 4294967296 → port < 65536 → length (text ip port) ≤ 21
  unfolding text
  length-text ip port p q = omega (
    arith,
    length-append (os.inet_ntoa ip) (b':' ∷ decimal port),
    os.ntoa_short ip p,
    length-decimal_port port q,
  )

  parse_ip-inet_ntoa : (ip : ℕ) → ip < 4294967296 → parse_ip (os.inet_ntoa ip) ≡ some ip
  parse_ip-inet_ntoa ip h = elim (Bool-cases (str_eq (os.inet_ntoa ip) (codes "*"))) [
    | inl star ↦
        absurd (
          omega
            (arith, os.ntoa_long ip h, ap length (str_eq-eq (os.inet_ntoa ip) (codes "*") star)))
    | inr other ↦ rw other (os.pton-ntoa ip h)
  ]

  parse_host_ok :
      (address : List ℕ) (ip port : ℕ) (c : Conn)
      → ip < 4294967296
      → port < 10000000000
      → parse_host address (os.inet_ntoa ip) (decimal port) c
        ≡ (none, record c { remote_ip = ip; remote_port = port % 65536 })
  parse_host_ok address ip port c p q =
      let short : ltb 15 (length (os.inet_ntoa ip)) ≡ false = ground (arith, os.ntoa_short ip p) in
      let long : ltb (length (os.inet_ntoa ip)) 1 ≡ false = ground (arith, os.ntoa_long ip p) in
      rw (parse_host, short, long, parse_ip-inet_ntoa ip p)
        (parse_port-decimal address port (record c { remote_ip = ip }) q)

  parse_after_prefix-text :
      (address : List ℕ) (ip port : ℕ) (c : Conn)
      → ip < 4294967296
      → port < 10000000000
      → parse_after_prefix address (text ip port) c
        ≡ (none, record c { remote_ip = ip; remote_port = port % 65536 })
  unfolding text
  parse_after_prefix-text address ip port c p q =
      rw
        (
          parse_after_prefix,
          find_colon-append (os.inet_ntoa ip) (decimal port) (os.ntoa_no_colon ip p),
        )
        (parse_host_ok address ip port c p q)

  parse_address_str_udp :
      (ip_start : List ℕ) (c : Conn)
      → parse_address_str (codes "udp://" ++ ip_start) c
        ≡ parse_after_prefix
            (codes "udp://" ++ ip_start)
            ip_start
            (record c { protocol_type = msg_udp })
  unfolding parse_address_str starts_with
  parse_address_str_udp ip_start c = refl

  parse_address_str_tcp :
      (ip_start : List ℕ) (c : Conn)
      → parse_address_str (codes "tcp://" ++ ip_start) c
        ≡ parse_after_prefix
            (codes "tcp://" ++ ip_start)
            ip_start
            (record c { protocol_type = msg_tcp })
  unfolding parse_address_str starts_with
  parse_address_str_tcp ip_start c = refl

  address_as_str_udp :
      (ip port : ℕ)
      → ip < 4294967296
      → port < 65536
      → address_as_str (record { ip = ip; port = port; protocol_type = msg_udp })
        ≡ codes "udp://" ++ text ip port
  unfolding address_as_str text
  address_as_str_udp ip port p q =
      take_all 31 (codes "udp://" ++ text ip port) (omega (arith, length-text ip port p q))

  address_as_str_tcp :
      (ip port : ℕ)
      → ip < 4294967296
      → port < 65536
      → address_as_str (record { ip = ip; port = port; protocol_type = msg_tcp })
        ≡ codes "tcp://" ++ text ip port
  unfolding address_as_str text
  address_as_str_tcp ip port p q =
      take_all 31 (codes "tcp://" ++ text ip port) (omega (arith, length-text ip port p q))

  port_short : {a : Address} → IsAddress a → a.port < 10000000000
  port_short w = omega arith

  -- The text that address_as_str prints for a tcp or udp address within its field widths is parsed
  -- without an error, and the conn then holds that address and is otherwise unchanged.
  pub parse_address_str-address_as_str :
      (a : Address) (c : Conn)
      → IsAddress a
      → (a.protocol_type ≡ msg_tcp) ⊎ (a.protocol_type ≡ msg_udp)
      → parse_address_str (address_as_str a) c ≡ (none, set_address c a)
  parse_address_str-address_as_str a c w (inl e) =
      rw (e, address_as_str_tcp a.ip a.port w.ip_width w.port_width, parse_address_str_tcp)
        (parse_after_prefix-text (codes "tcp://" ++ text a.ip a.port) a.ip a.port
            (record c { protocol_type = msg_tcp }) w.ip_width (port_short w)
          ∙ ap (λ (t : ℕ). (none, set_address c (record a { port = t; protocol_type = msg_tcp })))
              (mod-eq_of_lt w.port_width))
  parse_address_str-address_as_str a c w (inr e) =
      rw (e, address_as_str_udp a.ip a.port w.ip_width w.port_width, parse_address_str_udp)
        (parse_after_prefix-text (codes "udp://" ++ text a.ip a.port) a.ip a.port
            (record c { protocol_type = msg_udp }) w.ip_width (port_short w)
          ∙ ap (λ (t : ℕ). (none, set_address c (record a { port = t; protocol_type = msg_udp })))
              (mod-eq_of_lt w.port_width))

  -- A tcp address whose port is any decimal number below ten to the tenth is accepted, and the conn
  -- gets the number modulo 65536, so a port that is out of range becomes another port.
  pub parse_address_str-wraps :
      (ip port : ℕ) (c : Conn)
      → ip < 4294967296
      → port < 10000000000
      → parse_address_str (codes "tcp://" ++ (os.inet_ntoa ip ++ (codes ":" ++ decimal port))) c
        ≡ (none, set_address c (record { ip = ip; port = port % 65536; protocol_type = msg_tcp }))
  unfolding text
  parse_address_str-wraps ip port c p q = rw parse_address_str_tcp (
      parse_after_prefix-text (codes "tcp://" ++ text ip port) ip port
        (record c { protocol_type = msg_tcp }) p q)

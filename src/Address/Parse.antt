-- ===== src/Address/Parse.antt =====
-- parse_address_str of msgbox/msgbox.c.
use msgbox.Prelude.{
  ℕ, ◌-◌, ◌%◌, ◌+◌, List, [], ◌∷◌, ◌++◌, Option, none, some, Bool, true, ◌==◌, ltb, if◌then◌else◌,
  codes, length, ◌||◌,
}
use msgbox.Types.{Conn, msg_tcp, msg_udp}
use msgbox.Libc.{Libc, snprintf, str_eq, starts_with}
use msgbox.Libc.Decimal.{decimal, strtol, Parsed}

-- strchr (text, ':'): what stands before the colon and what stands after it.
unfoldable pub find_colon : List ℕ → Option (List ℕ × List ℕ)
find_colon [] = none
find_colon (c ∷ cs) =
    if c == b':'
    then some ([], cs)
    else elim (find_colon cs) [ none ↦ none | some (before, after) ↦ some (c ∷ before, after) ]

-- (uint16_t) (int) of a long.
abbrev pub to_uint16 : Parsed → ℕ
to_uint16 p = if p.negative then (65536 - p.magnitude % 65536) % 65536 else p.magnitude % 65536

-- The result is the error message, `none` for no_error, and the conn as it is left.
abbrev pub ParseResult : Type 0
ParseResult = Option (List ℕ) × Conn

abbrev fail_with : List ℕ → Conn → ParseResult
fail_with msg c = (some (snprintf 1024 msg), c)

-- The port, after the colon. The field is written before *end_ptr is looked at.
unfoldable pub parse_port : List ℕ → List ℕ → Conn → ParseResult
parse_port address [] c =
    fail_with (codes "Empty port string in address '" ++ address ++ codes "'") c
parse_port address (d ∷ ds) c =
    let p = strtol (d ∷ ds) in
    let c' : Conn = record c { remote_port = to_uint16 p } in
    elim p.end_ptr [
      | [] ↦ (none, c')
      | _ ∷ _ ↦ fail_with (codes "Invalid port string in address '" ++ address ++ codes "'") c'
    ]

abbrev pub any_ip : ℕ
any_ip = 0

module _ ⦃os : Libc⦄ where
  -- Step 3 of the ip substring: `*`, or what inet_pton takes.
  abbrev pub parse_ip : List ℕ → Option ℕ
  parse_ip ip_str = if str_eq ip_str (codes "*") then some any_ip else os.inet_pton ip_str

  abbrev pub parse_host : List ℕ → List ℕ → List ℕ → Conn → ParseResult
  parse_host address ip_str port_str c =
      if ltb 15 (length ip_str) || ltb (length ip_str) 1
      then fail_with
          (codes "Failing because ip length="
            ++ decimal (length ip_str)
            ++ codes "; expected to be 1-15 (in addresss '"
            ++ address
            ++ codes "')")
          c
      else (elim (parse_ip ip_str) [
        | none ↦ fail_with (codes "Couldn't parse ip string '" ++ ip_str ++ codes "'.") c
        | some ip ↦ parse_port address port_str (record c { remote_ip = ip })
      ])

  abbrev pub parse_after_prefix : List ℕ → List ℕ → Conn → ParseResult
  parse_after_prefix address ip_start c = elim (find_colon ip_start) [
    | none ↦
        fail_with (codes "Can't parse address '" ++ address ++ codes "'; missing colon after ip") c
    | some (ip_str, port_str) ↦ parse_host address ip_str port_str c
  ]

  unfoldable pub parse_address_str : List ℕ → Conn → ParseResult
  parse_address_str address c =
      let rest = msgbox.Prelude.drop 6 address in
      if starts_with address (codes "tcp://")
      then parse_after_prefix address rest (record c { protocol_type = msg_tcp })
      else if starts_with address (codes "udp://")
      then parse_after_prefix address rest (record c { protocol_type = msg_udp })
      else fail_with (codes "Failing due to unrecognized prefix: " ++ address) c

-- ===== src/Windows.antt =====
-- The Windows half of msgbox/msgbox.c: the names of winsock errors, and the layer over select that
-- stands in place of poll_fds and poll.
--
-- Winsock is a parameter: FD_SET, select and ioctlsocket. An fd_set is the list of its sockets.
pub mod Names
pub mod Arrays
pub mod Select
use msgbox.Prelude.{
  ℕ, ◌+◌, ◌-◌, ◌*◌, ◌/◌, ◌%◌, ◌≤◌, ◌<◌, ◌≡◌, Bool, true, false, List, [], ◌∷◌, ◌++◌, Option, none,
  some, ◌==◌, ◌&&◌, ◌||◌, not, leb, if◌then◌else◌, codes, length, get_elem?, set,
}
use msgbox.Cstructs.{Cstructs}
use msgbox.Libc.{snprintf}
use msgbox.Libc.Decimal.{decimal}
use msgbox.State.{State}
use msgbox.Poll.{PollMode, remove_and_fill}
use msgbox.Timeouts.{mem_b}

-- The errors from 10035 on.
abbrev pub err_strs : List (List ℕ)
err_strs =
    codes "WSAEWOULDBLOCK"
    ∷ codes "WSAEINPROGRESS"
    ∷ codes "WSAEALREADY"
    ∷ codes "WSAENOTSOCK"
    ∷ codes "WSAEDESTADDRREQ"
    ∷ codes "WSAEMSGSIZE"
    ∷ codes "WSAEPROTOTYPE"
    ∷ codes "WSAENOPROTOOPT"
    ∷ codes "WSAEPROTONOSUPPORT"
    ∷ codes "WSAESOCKTNOSUPPORT"
    ∷ codes "WSAEOPNOTSUPP"
    ∷ codes "WSAEPFNOSUPPORT"
    ∷ codes "WSAEAFNOSUPPORT"
    ∷ codes "WSAEADDRINUSE"
    ∷ codes "WSAEADDRNOTAVAIL"
    ∷ codes "WSAENETDOWN"
    ∷ codes "WSAENETUNREACH"
    ∷ codes "WSAENETRESET"
    ∷ codes "WSAECONNABORTED"
    ∷ codes "WSAECONNRESET"
    ∷ codes "WSAENOBUFS"
    ∷ codes "WSAEISCONN"
    ∷ codes "WSAENOTCONN"
    ∷ codes "WSAESHUTDOWN"
    ∷ codes "WSAETOOMANYREFS"
    ∷ codes "WSAETIMEDOUT"
    ∷ codes "WSAECONNREFUSED"
    ∷ codes "WSAELOOP"
    ∷ codes "WSAENAMETOOLONG"
    ∷ codes "WSAEHOSTDOWN"
    ∷ codes "WSAEHOSTUNREACH"
    ∷ codes "WSAENOTEMPTY"
    ∷ codes "WSAEPROCLIM"
    ∷ codes "WSAEUSERS"
    ∷ codes "WSAEDQUOT"
    ∷ codes "WSAESTALE"
    ∷ codes "WSAEREMOTE"
    ∷ []

-- The loop over unique_err_nums.
pub find_unique : ℕ → List (ℕ × List ℕ) → Option (List ℕ)
find_unique last_err [] = none
find_unique last_err ((num, text) ∷ rest) =
    let later = find_unique last_err rest in if last_err == num then some text else later

abbrev unique_errs : List (ℕ × List ℕ)
unique_errs =
    (10004, codes "WSAEINTR")
    ∷ (10009, codes "WSAEBADF")
    ∷ (10013, codes "WSAEACCES")
    ∷ (10014, codes "WSAEFAULT")
    ∷ (10022, codes "WSAEINVAL")
    ∷ (10024, codes "WSAEMFILE")
    ∷ []

-- `none` is a read outside of err_strs.
abbrev pub other_err : ℕ → Option (List ℕ)
other_err last_err =
    if leb 10035 last_err && leb last_err 10071
    then get_elem? err_strs (last_err - 10035)
    else some (snprintf 64 (codes "Unknown error code: " ++ decimal last_err))

unfoldable pub err_str : ℕ → Option (List ℕ)
unfolding find_unique
err_str last_err = elim (find_unique last_err unique_errs) [
  | some text ↦ some text
  | none ↦ other_err last_err
]

-- poll_fds_t
pub record PollFds : Type 0 where
  pub poll_modes : List PollMode
  pub read_fds : List ℕ
  pub write_fds : List ℕ
  pub except_fds : List ℕ

-- The sets that select leaves, and its result, `none` for SOCKET_ERROR.
pub record Selected : Type 0 where
  pub result : Option ℕ
  pub read : List ℕ
  pub write : List ℕ
  pub except : List ℕ

pub record Timeval : Type 0 where
  pub tv_sec : ℕ
  pub tv_usec : ℕ

-- FD_SET adds a socket to a set of fewer than 64; select leaves some of the sockets it was given.
pub record Winsock : Type 0 where
  pub fd_set : ℕ → List ℕ → List ℕ
  pub select : List ℕ → List ℕ → List ℕ → Option Timeval → Selected
  pub ioctlsocket : ℕ → Bool
  pub fd_set_lem :
      (sock : ℕ) (fds : List ℕ) (x : ℕ)
      → length fds < 64
      → mem_b (fd_set sock fds) x ≡ ((sock == x) || mem_b fds x)
  pub length-fd_set : (sock : ℕ) (fds : List ℕ) → length (fd_set sock fds) ≤ length fds + 1
  pub select-read :
      (read write except : List ℕ) (timeout : Option Timeval) (x : ℕ)
      → mem_b (select read write except timeout).read x ≡ true
      → mem_b read x ≡ true
  pub select-write :
      (read write except : List ℕ) (timeout : Option Timeval) (x : ℕ)
      → mem_b (select read write except timeout).write x ≡ true
      → mem_b write x ≡ true

-- On both arrays.
unfoldable pub remove_last_polling_conn : ⦃cs : Cstructs⦄ → State → PollFds → State × PollFds
remove_last_polling_conn ⦃cs⦄ s w = (
  record s { conns = cs.remove_item s.conns (length s.conns - 1) },
  record w { poll_modes = cs.remove_item w.poll_modes (length w.poll_modes - 1) },
)

unfoldable pub remove_from_poll_fds : ℕ → PollFds → PollFds
unfolding remove_and_fill
remove_from_poll_fds index w = record w { poll_modes = remove_and_fill w.poll_modes index }

unfoldable pub add_to_poll_fds : ⦃cs : Cstructs⦄ → ℕ → PollMode → PollFds → PollFds
add_to_poll_fds ⦃cs⦄ new_sock poll_mode w = record w {
  poll_modes = cs.add_item w.poll_modes poll_mode;
}

unfoldable pub set_conn_to_poll_mode : ℕ → PollMode → PollFds → PollFds
set_conn_to_poll_mode index poll_mode w = record w { poll_modes = set w.poll_modes index poll_mode }

-- poll_mode == poll_mode_read
abbrev pub is_read : PollMode → Bool
is_read m = m.read && not (m.write || m.err)

-- The time of select; -1, here `none`, blocks.
abbrev pub timeval : Option ℕ → Option Timeval
timeval none = none
timeval (some ms) = some (record { tv_sec = ms / 1000; tv_usec = ms % 1000 * 1000 })

module _ ⦃ws : Winsock⦄ where
  -- The name of the failing call, `none` for success.
  abbrev pub make_non_blocking : ℕ → Option (List ℕ)
  make_non_blocking sock = if ws.ioctlsocket sock then none else some (codes "ioctlsocket")

  abbrev pub set_fds : ℕ → PollMode → PollFds → PollFds
  set_fds socket m w = record w {
    except_fds = ws.fd_set socket w.except_fds;
    read_fds = if is_read m then ws.fd_set socket w.read_fds else w.read_fds;
    write_fds = if is_read m then w.write_fds else ws.fd_set socket w.write_fds;
  }

  -- The loop of check_poll_fds over the modes and the sockets of conns.
  unfoldable pub fill_fds : List PollMode → List ℕ → PollFds → PollFds
  fill_fds [] sockets w = w
  fill_fds (m ∷ ms) [] w = w
  fill_fds (m ∷ ms) (socket ∷ sockets) w = fill_fds ms sockets (set_fds socket m w)

  abbrev pub cleared : PollFds → PollFds
  cleared w = record w { read_fds = []; write_fds = []; except_fds = [] }

  abbrev pub sockets : State → List ℕ
  sockets s = msgbox.Prelude.map (λ p. (s.conn_at p).socket) s.conns

  abbrev pub selected : Selected → PollFds → Option ℕ × PollFds
  selected r w =
      (r.result, record w { read_fds = r.read; write_fds = r.write; except_fds = r.except })

  unfoldable pub check_poll_fds : Option ℕ → State → PollFds → Option ℕ × PollFds
  unfolding fill_fds
  check_poll_fds timeout_in_ms s w =
      let w1 = fill_fds w.poll_modes (sockets s) (cleared w) in
      selected (ws.select w1.read_fds w1.write_fds w1.except_fds (timeval timeout_in_ms)) w1

-- FD_ISSET on the three sets.
unfoldable pub poll_fds_mode : ℕ → PollFds → PollMode
unfolding mem_b
poll_fds_mode sock w = record {
  read = mem_b w.read_fds sock;
  write = mem_b w.write_fds sock;
  err = mem_b w.except_fds sock;
}

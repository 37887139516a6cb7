-- ===== src/Tests/Winsock.antt =====
-- The Windows half (Windows.antt).
use msgbox.Prelude.{
  ℕ, ◌≡◌, refl, Bool, true, false, List, [], ◌∷◌, some, ◌==◌, ◌||◌, if◌then◌else◌, arith,
}
use msgbox.Timeouts.{mem_b}
use msgbox.Poll.{mode_read, mode_write}
use msgbox.Windows.{PollFds, Winsock, err_str, check_poll_fds}
use msgbox.Windows.Names.{err_str-some}
use msgbox.Windows.Arrays.{
  PollOp, add, remove_last, remove_from, set_mode, reading, reading_modes, all_on_linux,
  all_on_windows, all_on_linux-all_on_windows,
}
use msgbox.Windows.Select.{Selects, check_poll_fds-Selects}
use msgbox.Tests.Fixtures.{arrays_and_maps, connected}

add_front : (sock : ℕ) (fds : List ℕ) (x : ℕ) → mem_b (sock ∷ fds) x ≡ ((sock == x) || mem_b fds x)
unfolding mem_b
add_front sock fds x = or_if (sock == x) (mem_b fds x)
  where
    or_if : (a b : Bool) → (if a then true else b) ≡ (a || b)
    or_if true b = refl
    or_if false b = refl

-- All that is asked for is ready.
instance abbrev all_ready : Winsock
all_ready = record {
  fd_set = λ sock fds. sock ∷ fds;
  select = λ read write except timeout. record {
    result = some 1;
    read = read;
    write = write;
    except = except;
  };
  ioctlsocket = λ sock. true;
  fd_set_lem = λ sock fds x h. add_front sock fds x;
  length-fd_set = λ sock fds. omega arith;
  select-read = λ read write except timeout x h. h;
  select-write = λ read write except timeout x h. h;
}

abbrev polls : PollFds
polls = record {
  poll_modes = mode_read ∷ mode_write ∷ [];
  read_fds = [];
  write_fds = [];
  except_fds = [];
}

abbrev both_read : PollFds
both_read = record polls { poll_modes = mode_read ∷ mode_read ∷ [] }

err_str-some_example : (text : List ℕ) × (err_str 10071 ≡ some text)
err_str-some_example = err_str-some 10071

abbrev ops : List PollOp
ops = add 5 ∷ set_mode 1 false ∷ remove_from 0 ∷ remove_last ∷ []

all_on_linux-all_on_windows_example :
    reading (all_on_linux ops (connected [])).poll_fds
    ≡ reading_modes (all_on_windows ops (connected [], both_read)).1.poll_modes
all_on_linux-all_on_windows_example =
    all_on_linux-all_on_windows ops (connected []) (connected [], both_read) refl

-- One socket is left over in the read set from the call before.
check_poll_fds-Selects_example :
    let w : PollFds = record polls { read_fds = 9 ∷ [] } in
    Selects (some 10) (connected []) w (check_poll_fds (some 10) (connected []) w)
check_poll_fds-Selects_example =
    check_poll_fds-Selects (some 10) (connected []) (record polls { read_fds = 9 ∷ [] })
      (omega arith)

-- ===== src/Windows/Select.antt =====
-- What check_poll_fds asks of select.
use msgbox.Prelude.{
  ℕ, ◌+◌, ◌*◌, ◌<◌, ◌≤◌, ◌≡◌, refl, ap, ◌∙◌, Bool, Bool-cases, true, false, List, [], ◌∷◌, inl, inr,
  ◌==◌, ◌||◌, not, if◌then◌else◌, length, arith, Option, none, some,
}
use msgbox.State.{State}
use msgbox.Timeouts.{mem_b}
use msgbox.Poll.{PollMode}
use msgbox.Windows.{
  PollFds, Winsock, Selected, Timeval, timeval, is_read, fill_fds, set_fds, cleared, sockets,
  check_poll_fds,
}

-- The sockets whose mode passes a test.
abbrev pub with_mode : (PollMode → Bool) → List PollMode → List ℕ → List ℕ
with_mode test [] socks = []
with_mode test (m ∷ ms) [] = []
with_mode test (m ∷ ms) (sock ∷ socks) =
    let rest = with_mode test ms socks in if test m then sock ∷ rest else rest

abbrev pub any_mode : PollMode → Bool
any_mode m = true

abbrev pub not_read : PollMode → Bool
not_read m = not (is_read m)

shuffle : (a b c : Bool) → (a || (b || c)) ≡ ((if b then true else a) || c)
shuffle true true c = refl
shuffle true false c = refl
shuffle false true c = refl
shuffle false false c = refl

or_false : (a : Bool) → (a || false) ≡ a
or_false true = refl
or_false false = refl

-- A time of select stands for so many milliseconds, and none blocks.
pub data IsTime : Option ℕ → Option Timeval → Type 0 where
  blocks : IsTime none none
  waits :
      (ms : ℕ) (t : Timeval)
      → t.tv_sec * 1000000 + t.tv_usec ≡ ms * 1000
      → t.tv_usec < 1000000
      → IsTime (some ms) (some t)

timeval-IsTime : (timeout_in_ms : Option ℕ) → IsTime timeout_in_ms (timeval timeout_in_ms)
timeval-IsTime none = blocks
timeval-IsTime (some ms) = waits ms _ (omega arith) (omega arith)

module _ ⦃ws : Winsock⦄ where
  -- The loop on one of the three sets.
  abbrev fill_one : (PollMode → Bool) → List PollMode → List ℕ → List ℕ → List ℕ
  fill_one test [] socks fds = fds
  fill_one test (m ∷ ms) [] fds = fds
  fill_one test (m ∷ ms) (sock ∷ socks) fds =
      fill_one test ms socks (if test m then ws.fd_set sock fds else fds)

  record Split (ms : List PollMode) (socks : List ℕ) (w w' : PollFds) : Type 0 where
    read : w'.read_fds ≡ fill_one is_read ms socks w.read_fds
    write : w'.write_fds ≡ fill_one not_read ms socks w.write_fds
    except : w'.except_fds ≡ fill_one any_mode ms socks w.except_fds

  fill_fds-Split :
      (ms : List PollMode) (socks : List ℕ) (w : PollFds) → Split ms socks w (fill_fds ms socks w)
  unfolding fill_fds
  fill_fds-Split [] socks w = record { read = refl; write = refl; except = refl }
  fill_fds-Split (m ∷ ms) [] w = record { read = refl; write = refl; except = refl }
  fill_fds-Split (m ∷ ms) (sock ∷ socks) w =
      let rest = fill_fds-Split ms socks (set_fds sock m w) in
      record {
        read = rest.read;
        write =
            rest.write
            ∙ ap (fill_one not_read ms socks)
                (swap (is_read m) w.write_fds (ws.fd_set sock w.write_fds));
        except = rest.except;
      }
    where
      swap : (b : Bool) (x y : List ℕ) → (if b then x else y) ≡ (if not b then y else x)
      swap true x y = refl
      swap false x y = refl

  fill_one-mem :
      (test : PollMode → Bool) (ms : List PollMode) (socks fds : List ℕ) (x : ℕ)
      → length ms + length fds ≤ 64
      → mem_b (fill_one test ms socks fds) x ≡ (mem_b (with_mode test ms socks) x || mem_b fds x)
  unfolding mem_b
  fill_one-mem test [] socks fds x room = refl
  fill_one-mem test (m ∷ ms) [] fds x room = refl
  fill_one-mem test (m ∷ ms) (sock ∷ socks) fds x room = elim (Bool-cases (test m)) [
    | inl e ↦ rw e (
        fill_one-mem test ms socks (ws.fd_set sock fds) x (omega (arith, ws.length-fd_set sock fds))
        ∙ ap (λ b. mem_b (with_mode test ms socks) x || b) (ws.fd_set_lem sock fds x (omega arith))
        ∙ shuffle (mem_b (with_mode test ms socks) x) (sock == x) (mem_b fds x))
    | inr e ↦ rw e (fill_one-mem test ms socks fds x (omega arith))
  ]

  fill_one-nil :
      (test : PollMode → Bool) (ms : List PollMode) (socks : List ℕ) (x : ℕ)
      → length ms ≤ 64
      → mem_b (fill_one test ms socks []) x ≡ mem_b (with_mode test ms socks) x
  unfolding mem_b
  fill_one-nil test ms socks x room =
      fill_one-mem test ms socks [] x (omega arith) ∙ or_false (mem_b (with_mode test ms socks) x)

  fill_fds-poll_modes :
      (ms : List PollMode) (socks : List ℕ) (w : PollFds)
      → (fill_fds ms socks w).poll_modes ≡ w.poll_modes
  unfolding fill_fds
  fill_fds-poll_modes [] socks w = refl
  fill_fds-poll_modes (m ∷ ms) [] w = refl
  fill_fds-poll_modes (m ∷ ms) (sock ∷ socks) w = fill_fds-poll_modes ms socks (set_fds sock m w)

  abbrev with_sets : Selected → List PollMode → PollFds
  with_sets r modes = record {
    poll_modes = modes;
    read_fds = r.read;
    write_fds = r.write;
    except_fds = r.except;
  }

  -- The result of check_poll_fds is that of select, asked for these sockets and this time, and the
  -- three sets are those that select leaves.
  pub record Selects (timeout_in_ms : Option ℕ) (s : State) (w : PollFds) (r : Option ℕ × PollFds)
      : Type 0 where
    pub read : List ℕ
    pub write : List ℕ
    pub except : List ℕ
    pub timeout : Option Timeval
    pub result : r.0 ≡ (ws.select read write except timeout).result
    pub left : r.1 ≡ record {
      poll_modes = w.poll_modes;
      read_fds = (ws.select read write except timeout).read;
      write_fds = (ws.select read write except timeout).write;
      except_fds = (ws.select read write except timeout).except;
    }
    pub time : IsTime timeout_in_ms timeout
    pub for_read : (x : ℕ) → mem_b read x ≡ mem_b (with_mode is_read w.poll_modes (sockets s)) x
    pub for_write : (x : ℕ) → mem_b write x ≡ mem_b (with_mode not_read w.poll_modes (sockets s)) x
    pub for_except :
        (x : ℕ) → mem_b except x ≡ mem_b (with_mode any_mode w.poll_modes (sockets s)) x

  -- With at most 64 poll modes, check_poll_fds calls select once, with the time-out that it was
  -- given, in seconds and microseconds, and for exactly these sockets: in the read set those of the
  -- connections in read mode, in the write set those in another mode, and in the except set all. It
  -- gives what select gives, keeps the three sets that select leaves, whatever they held before,
  -- and leaves the modes as they are.
  pub check_poll_fds-Selects :
      (timeout_in_ms : Option ℕ) (s : State) (w : PollFds)
      → length w.poll_modes ≤ 64
      → Selects timeout_in_ms s w (check_poll_fds timeout_in_ms s w)
  unfolding check_poll_fds
  check_poll_fds-Selects timeout_in_ms s w room =
      let asked : PollFds = fill_fds w.poll_modes (sockets s) (cleared w) in
      let split = fill_fds-Split w.poll_modes (sockets s) (cleared w) in
      let r = ws.select asked.read_fds asked.write_fds asked.except_fds (timeval timeout_in_ms) in
      record {
        read = asked.read_fds;
        write = asked.write_fds;
        except = asked.except_fds;
        timeout = timeval timeout_in_ms;
        result = refl;
        left = ap (with_sets r) (fill_fds-poll_modes w.poll_modes (sockets s) (cleared w));
        time = timeval-IsTime timeout_in_ms;
        for_read = λ x.
            ap (λ fds. mem_b fds x) split.read
            ∙ fill_one-nil is_read w.poll_modes (sockets s) x room;
        for_write = λ x.
            ap (λ fds. mem_b fds x) split.write
            ∙ fill_one-nil not_read w.poll_modes (sockets s) x room;
        for_except = λ x.
            ap (λ fds. mem_b fds x) split.except
            ∙ fill_one-nil any_mode w.poll_modes (sockets s) x room;
      }

-- ===== src/Runloop/Reading.antt =====
-- The loop `while (read_from_socket (…));` of msg_runloop.
use msgbox.Prelude.{ℕ, zero, suc, ◌<◌, ◌≡◌, refl, Bool, true, false, length, arith, if◌then◌else◌}
use msgbox.Cstructs.{Cstructs}
use msgbox.Libc.{Libc}
use msgbox.State.{State}
use msgbox.Receive.{read_from_socket}
use msgbox.Receive.Body.{Took, Delivered}
use msgbox.Receive.Progress.{read_from_socket-Took}
use msgbox.Runloop.{read_all}

module _ ⦃cs : Cstructs⦄ ⦃os : Libc⦄ where
  -- The loop, run from a state, ends in another one: a read that must not be repeated ends it, and
  -- each read that is repeated has scheduled a callback for the conn behind those there were.
  pub data Reads (p : ℕ) : State → State → Type 0 where
    last : {s s' : State} → read_from_socket p s ≡ (false, s') → Reads p s s'
    again :
        {s s1 s' : State}
        → read_from_socket p s ≡ (true, s1)
        → Delivered p s.immediate_callbacks s1
        → Reads p s1 s'
        → Reads p s s'

  abbrev read_step : ℕ → ℕ → Bool × State → State
  read_step fuel p (more, s1) = let rest = read_all fuel p s1 in if more then rest else s1

  read_step-Reads :
      (fuel p : ℕ) (s : State) (r : Bool × State)
      → read_from_socket p s ≡ r
      → Took (length s.script) p s.immediate_callbacks r
      → length s.script < suc fuel
      → ((s1 : State) → length s1.script < fuel → Reads p s1 (read_all fuel p s1))
      → Reads p s (read_step fuel p r)
  read_step-Reads fuel p s (true, s1) e (less, d) h ih = again e d (ih s1 (omega arith))
  read_step-Reads fuel p s (false, s1) e t h ih = last e

  fuel-Reads : (fuel p : ℕ) (s : State) → length s.script < fuel → Reads p s (read_all fuel p s)
  unfolding read_all
  fuel-Reads zero p s h = absurd (omega arith)
  fuel-Reads (suc fuel) p s h =
      read_step-Reads fuel p s (read_from_socket p s) refl (read_from_socket-Took p s) h
        (λ s1 k. fuel-Reads fuel p s1 k)

  -- For every connection and state, the loop over read_from_socket goes on only after a read that
  -- has scheduled a callback for the connection, behind the callbacks there were; so a read that
  -- finds nothing to deliver is the last. The loop ends, and read_all gives the state in which it
  -- ends, with one round more than there are answers.
  pub read_all-Reads : (p : ℕ) (s : State) → Reads p s (read_all (suc (length s.script)) p s)
  read_all-Reads p s = fuel-Reads (suc (length s.script)) p s (omega arith)

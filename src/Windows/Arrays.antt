-- ===== src/Windows/Arrays.antt =====
-- The poll modes of Windows and the event masks of linux under the same operations.
use msgbox.Prelude.{
  ℕ, zero, suc, ◌-◌, ◌≡◌, refl, sym, ap, ap₂, ◌∙◌, Bool, true, false, List, [], ◌∷◌, ◌++◌, Option,
  none, some, inl, inr, Option-cases, ◌==◌, if◌then◌else◌, map, map-append, length, get_elem?, set,
  take, remove_at, arith,
}
use msgbox.Cstructs.{Cstructs}
use msgbox.State.{State, PollFd, pollin, pollout}
use msgbox.Poll.{PollMode, mode_read, mode_write, remove_and_fill, modify_at, with_events}
use msgbox.Poll
use msgbox.Poll.Fill.{remove_and_fill_last}
use msgbox.Windows.{PollFds, is_read}
use msgbox.Windows

-- The operations on the polled connections; a new one is polled for reading by every caller, and
-- a mode is set to poll_mode_read (true) or poll_mode_write (false).
pub data PollOp : Type 0 where
  add : ℕ → PollOp
  remove_last : PollOp
  remove_from : ℕ → PollOp
  set_mode : ℕ → Bool → PollOp

remove_and_fill-none :
    {A : Type 0} (xs : List A) (i : ℕ)
    → get_elem? xs (length xs - 1) ≡ none
    → remove_and_fill xs i ≡ xs
unfolding remove_and_fill
remove_and_fill-none xs i e = rw (e, remove_and_fill)

module _ {A B : Type 0} (f : A → B) where
  length-map : (xs : List A) → length (map f xs) ≡ length xs
  length-map [] = refl
  length-map (x ∷ xs) = omega (arith, length-map xs)

  map-get :
      (xs : List A) (i : ℕ)
      → get_elem? (map f xs) i ≡ (elim (get_elem? xs i) [ none ↦ none | some x ↦ some (f x) ])
  map-get [] i = refl
  map-get (x ∷ xs) zero = refl
  map-get (x ∷ xs) (suc i) = map-get xs i

  map-set : (xs : List A) (i : ℕ) (x : A) → map f (set xs i x) ≡ set (map f xs) i (f x)
  map-set [] i y = refl
  map-set (x ∷ xs) zero y = refl
  map-set (x ∷ xs) (suc i) y = ap (λ zs. f x ∷ zs) (map-set xs i y)

  map-take : (n : ℕ) (xs : List A) → map f (take n xs) ≡ take n (map f xs)
  map-take zero xs = refl
  map-take (suc n) [] = refl
  map-take (suc n) (x ∷ xs) = ap (λ zs. f x ∷ zs) (map-take n xs)

  map-remove_at : (xs : List A) (i : ℕ) → map f (remove_at xs i) ≡ remove_at (map f xs) i
  map-remove_at [] i = refl
  map-remove_at (x ∷ xs) zero = refl
  map-remove_at (x ∷ xs) (suc i) = ap (λ zs. f x ∷ zs) (map-remove_at xs i)

  map-last :
      (xs : List A) (o : Option B)
      → (elim (get_elem? xs (length xs - 1)) [ none ↦ none | some x ↦ some (f x) ]) ≡ o
      → get_elem? (map f xs) (length (map f xs) - 1) ≡ o
  map-last xs o e =
      ap (λ n. get_elem? (map f xs) (n - 1)) (length-map xs) ∙ map-get xs (length xs - 1) ∙ e

  map-remove_and_fill :
      (xs : List A) (i : ℕ) → map f (remove_and_fill xs i) ≡ remove_and_fill (map f xs) i
  map-remove_and_fill xs i = elim (Option-cases (get_elem? xs (length xs - 1))) [
    | inl e ↦
        ap (map f) (remove_and_fill-none xs i e)
        ∙ sym (remove_and_fill-none (map f xs) i (map-last xs none (rw e refl)))
    | inr (x, e) ↦
        ap (map f) (remove_and_fill_last xs i x e)
        ∙ map-take (length xs - 1) (set xs i x)
        ∙ ap₂ (λ n ys. take (n - 1) ys) (sym (length-map xs)) (map-set xs i x)
        ∙ sym (remove_and_fill_last (map f xs) i (f x) (map-last xs (some (f x)) (rw e refl)))
  ]

-- Which connections are polled for reading, in order.
abbrev pub reading : List PollFd → List Bool
reading fds = map (λ (f : PollFd). f.events == pollin) fds

abbrev mode_of : Bool → PollMode
mode_of for_reading = if for_reading then mode_read else mode_write

abbrev pub reading_modes : List PollMode → List Bool
reading_modes modes = map is_read modes

module _ ⦃cs : Cstructs⦄ where
  abbrev pub on_linux : PollOp → State → State
  on_linux (add sock) s = Poll.add_to_poll_fds sock s
  on_linux remove_last s = Poll.remove_last_polling_conn s
  on_linux (remove_from i) s = record s { poll_fds = remove_and_fill s.poll_fds i }
  on_linux (set_mode i b) s = Poll.set_conn_to_poll_mode i (mode_of b) s

  abbrev pub on_windows : PollOp → State × PollFds → State × PollFds
  on_windows (add sock) (s, w) = (s, Windows.add_to_poll_fds sock mode_read w)
  on_windows remove_last (s, w) = Windows.remove_last_polling_conn s w
  on_windows (remove_from i) (s, w) = (s, Windows.remove_from_poll_fds i w)
  on_windows (set_mode i b) (s, w) = (s, Windows.set_conn_to_poll_mode i (mode_of b) w)

  abbrev pub all_on_linux : List PollOp → State → State
  all_on_linux [] s = s
  all_on_linux (op ∷ ops) s = all_on_linux ops (on_linux op s)

  abbrev pub all_on_windows : List PollOp → State × PollFds → State × PollFds
  all_on_windows [] r = r
  all_on_windows (op ∷ ops) r = all_on_windows ops (on_windows op r)

  modify_at-cons :
      (g : PollFd → PollFd) (x : PollFd) (xs : List PollFd) (i : ℕ)
      → modify_at g (x ∷ xs) (suc i) ≡ x ∷ modify_at g xs i
  modify_at-cons g x xs i = elim (Option-cases (get_elem? xs i)) [
    | inl e ↦ rw (e, modify_at)
    | inr (y, e) ↦ rw (e, modify_at)
  ]

  map-modify_at :
      (g : PollFd → PollFd) (b : Bool) (xs : List PollFd) (i : ℕ)
      → ((x : PollFd) → ((g x).events == pollin) ≡ b)
      → reading (modify_at g xs i) ≡ set (reading xs) i b
  map-modify_at g b [] i same = refl
  map-modify_at g b (x ∷ xs) zero same = ap (λ c. c ∷ reading xs) (same x)
  map-modify_at g b (x ∷ xs) (suc i) same =
      ap reading (modify_at-cons g x xs i)
      ∙ ap (λ (cs : List Bool). (x.events == pollin) ∷ cs) (map-modify_at g b xs i same)

  events-mode : (b : Bool) → ((if (mode_of b).read then pollin else pollout) == pollin) ≡ b
  events-mode true = refl
  events-mode false = refl

  is_read-mode_of : (b : Bool) → is_read (mode_of b) ≡ b
  is_read-mode_of true = refl
  is_read-mode_of false = refl

  step :
      (op : PollOp) (s : State) (r : State × PollFds)
      → reading s.poll_fds ≡ reading_modes r.1.poll_modes
      → reading (on_linux op s).poll_fds ≡ reading_modes (on_windows op r).1.poll_modes
  unfolding Poll.add_to_poll_fds Poll.remove_last_polling_conn Poll.set_conn_to_poll_mode
      Windows.add_to_poll_fds Windows.remove_last_polling_conn Windows.remove_from_poll_fds
      Windows.set_conn_to_poll_mode
  step (add sock) s (s', w) e =
      ap reading (cs.add_item_lem s.poll_fds _)
      ∙ map-append (λ (f : PollFd). f.events == pollin) s.poll_fds _
      ∙ ap (λ xs. xs ++ true ∷ []) e
      ∙ sym (map-append is_read w.poll_modes (mode_read ∷ []))
      ∙ ap reading_modes (sym (cs.add_item_lem w.poll_modes mode_read))
  step remove_last s (s', w) e =
      ap reading (cs.remove_item_lem s.poll_fds _)
      ∙ map-remove_at (λ (f : PollFd). f.events == pollin) s.poll_fds (length s.poll_fds - 1)
      ∙ ap₂ (λ xs n. remove_at xs (n - 1)) e
          (sym (length-map (λ (f : PollFd). f.events == pollin) s.poll_fds)
            ∙ ap length e
            ∙ length-map is_read w.poll_modes)
      ∙ sym (map-remove_at is_read w.poll_modes (length w.poll_modes - 1))
      ∙ ap reading_modes (sym (cs.remove_item_lem w.poll_modes _))
  step (remove_from i) s (s', w) e =
      map-remove_and_fill (λ (f : PollFd). f.events == pollin) s.poll_fds i
      ∙ ap (λ xs. remove_and_fill xs i) e
      ∙ sym (map-remove_and_fill is_read w.poll_modes i)
  step (set_mode i b) s (s', w) e =
      map-modify_at (with_events (if (mode_of b).read then pollin else pollout)) b s.poll_fds i
        (λ x. events-mode b)
      ∙ ap₂ (λ xs c. set xs i c) e (sym (is_read-mode_of b))
      ∙ sym (map-set is_read w.poll_modes i (mode_of b))

  -- Whatever sequence of operations on the polled connections is made, adding one, removing the
  -- last or one at an index, setting one to poll_mode_read or poll_mode_write, the linux array of
  -- event masks and the Windows array of poll modes agree afterwards on which connections, in
  -- order, are polled for reading (on linux POLLIN, on Windows a mode equal to poll_mode_read), if
  -- they agreed before.
  pub all_on_linux-all_on_windows :
      (ops : List PollOp) (s : State) (r : State × PollFds)
      → reading s.poll_fds ≡ reading_modes r.1.poll_modes
      → reading (all_on_linux ops s).poll_fds ≡ reading_modes (all_on_windows ops r).1.poll_modes
  all_on_linux-all_on_windows [] s r e = e
  all_on_linux-all_on_windows (op ∷ ops) s r e =
      all_on_linux-all_on_windows ops (on_linux op s) (on_windows op r) (step op s r e)

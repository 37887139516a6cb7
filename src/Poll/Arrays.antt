-- ===== src/Poll/Arrays.antt =====
-- Changes of the memory, of conns and of poll_fds that keep the arrays matched.
use msgbox.Prelude.{
  ℕ, zero, suc, ◌-◌, ◌≡◌, refl, sym, ap, ◌∙◌, subst, List, [], ◌∷◌, ◌++◌, Option, none, some,
  length, length-append, get_elem?, get_elem?-lt, get_elem?-append_one, remove_at,
  get_elem?-remove_at_last, length-remove_at_last, set, length-set, arith, upd, Option-cases, inl,
  inr, some_inj, if◌then◌else◌,
}
use msgbox.Types.{Conn}
use msgbox.State.{State, PollFd, pollin, pollout}
use msgbox.Poll.{
  remove_and_fill, set_index, remove_conn_at, PollMode, set_conn_to_poll_mode, modify_at,
  with_events, write_revents,
}
use msgbox.Poll.Invariant.{Matched, IsMatched}

-- The same in its place in conns and poll_fds.
pub record SamePlace (c c' : Conn) : Type 0 where
  pub index : c'.index ≡ c.index
  pub socket : c'.socket ≡ c.socket

-- A conn in another memory with the same place.
upd-SamePlace :
    (mem : ℕ → Conn) (p : ℕ) (c : Conn) (q : ℕ)
    → SamePlace (mem p) c
    → ((upd mem p c q).index ≡ (mem q).index) × ((upd mem p c q).socket ≡ (mem q).socket)
upd-SamePlace mem p c q e = (ground (arith, e.index, same.0), ground (arith, e.socket, same.1))
  where
    same : (p ≡ q → (mem p).index ≡ (mem q).index) × (p ≡ q → (mem p).socket ≡ (mem q).socket)
    same = (λ h. ap (λ t. (mem t).index) h, λ h. ap (λ t. (mem t).socket) h)

pub Matched-upd :
    (mem : ℕ → Conn) (p : ℕ) (c : Conn) (conns : List ℕ) (fds : List PollFd)
    → SamePlace (mem p) c
    → Matched mem conns fds
    → Matched (upd mem p c) conns fds
Matched-upd mem p c conns fds e m = record {
  same_length = m.same_length;
  indexed = λ i q at. (upd-SamePlace mem p c q e).0 ∙ m.indexed i q at;
  polled = λ i q f at_c at_f. m.polled i q f at_c at_f ∙ sym (upd-SamePlace mem p c q e).1;
}

-- Descriptors with the same sockets.
Matched-fds :
    (mem : ℕ → Conn) (conns : List ℕ) (fds fds' : List PollFd)
    → length fds' ≡ length fds
    → ((i : ℕ) (f' : PollFd)
        → get_elem? fds' i ≡ some f'
        → (f : PollFd) × (get_elem? fds i ≡ some f) × (f'.fd ≡ f.fd))
    → Matched mem conns fds
    → Matched mem conns fds'
Matched-fds mem conns fds fds' e from m = record {
  same_length = e ∙ m.same_length;
  indexed = m.indexed;
  polled = λ i p f' at_c at_f.
      let (f, at_old, same) = from i f' at_f in same ∙ m.polled i p f at_c at_old;
}

write_revents-from :
    (fds : List PollFd) (rs : List ℕ) (i : ℕ) (f' : PollFd)
    → get_elem? (write_revents fds rs) i ≡ some f'
    → (f : PollFd) × (get_elem? fds i ≡ some f) × (f'.fd ≡ f.fd)
unfolding write_revents
write_revents-from [] rs i f' e = absurd cc
write_revents-from (f ∷ fds) [] i f' e = (f', e, refl)
write_revents-from (f ∷ fds) (r ∷ rs) zero f' e =
    (f, refl, ap (λ (t : PollFd). t.fd) (sym (some_inj e)))
write_revents-from (f ∷ fds) (r ∷ rs) (suc i) f' e = write_revents-from fds rs i f' e

length-write_revents :
    (fds : List PollFd) (rs : List ℕ) → length (write_revents fds rs) ≡ length fds
unfolding write_revents
length-write_revents [] rs = refl
length-write_revents (f ∷ fds) [] = refl
length-write_revents (f ∷ fds) (r ∷ rs) = ap suc (length-write_revents fds rs)

set-from :
    (fds : List PollFd) (j : ℕ) (g : PollFd) (i : ℕ) (v f' : PollFd)
    → get_elem? fds j ≡ some g
    → v.fd ≡ g.fd
    → get_elem? (set fds j v) i ≡ some f'
    → (f : PollFd) × (get_elem? fds i ≡ some f) × (f'.fd ≡ f.fd)
set-from [] j g i v f' at_j same e = absurd cc
set-from (f ∷ fds) zero g zero v f' at_j same e = (
  f,
  refl,
  ap (λ (t : PollFd). t.fd) (sym (some_inj e))
      ∙ same
      ∙ ap (λ (t : PollFd). t.fd) (sym (some_inj at_j)),
)
set-from (f ∷ fds) zero g (suc i) v f' at_j same e = (f', e, refl)
set-from (f ∷ fds) (suc j) g zero v f' at_j same e = (f', e, refl)
set-from (f ∷ fds) (suc j) g (suc i) v f' at_j same e = set-from fds j g i v f' at_j same e

pub write_revents-Matched :
    (mem : ℕ → Conn) (conns : List ℕ) (fds : List PollFd) (rs : List ℕ)
    → Matched mem conns fds
    → Matched mem conns (write_revents fds rs)
write_revents-Matched mem conns fds rs m =
    Matched-fds mem conns fds (write_revents fds rs) (length-write_revents fds rs)
      (write_revents-from fds rs) m

modify_at-none :
    (g : PollFd → PollFd) (fds : List PollFd) (i : ℕ)
    → get_elem? fds i ≡ none
    → modify_at g fds i ≡ fds
modify_at-none g fds i e = rw (modify_at, e) refl

modify_at-some :
    (g : PollFd → PollFd) (fds : List PollFd) (i : ℕ) (f : PollFd)
    → get_elem? fds i ≡ some f
    → modify_at g fds i ≡ set fds i (g f)
modify_at-some g fds i f e = rw (modify_at, e) refl

pub set_conn_to_poll_mode-IsMatched :
    (i : ℕ) (m : PollMode) (s : State) → IsMatched s → IsMatched (set_conn_to_poll_mode i m s)
unfolding set_conn_to_poll_mode
set_conn_to_poll_mode-IsMatched i m s w =
    let g : PollFd → PollFd = with_events (if m.read then pollin else pollout) in
    elim (Option-cases (get_elem? s.poll_fds i)) [
      | inl e ↦ subst (Matched s.conn_at s.conns) (sym (modify_at-none g s.poll_fds i e)) w
      | inr (f, e) ↦ subst (Matched s.conn_at s.conns) (sym (modify_at-some g s.poll_fds i f e)) (
          Matched-fds s.conn_at s.conns s.poll_fds (set s.poll_fds i (g f))
            (length-set s.poll_fds i (g f))
            (λ j f' at_j. set-from s.poll_fds i f j (g f) f' e refl at_j) w)
    ]

-- A conn and its descriptor at the end.
pub Matched-append :
    (mem : ℕ → Conn) (p : ℕ) (fd : PollFd) (conns : List ℕ) (fds : List PollFd)
    → (mem p).index ≡ length conns
    → fd.fd ≡ (mem p).socket
    → Matched mem conns fds
    → Matched mem (conns ++ p ∷ []) (fds ++ fd ∷ [])
Matched-append mem p fd conns fds index socket m = record {
  same_length =
      omega (arith, length-append conns (p ∷ []), length-append fds (fd ∷ []), m.same_length);
  indexed = λ i q at. elim (get_elem?-append_one conns p i at) [
    | inl old ↦ m.indexed i q old
    | inr (last, own) ↦ ap (λ (t : ℕ). (mem t).index) own ∙ index ∙ sym last
  ];
  polled = λ i q f at_c at_f. elim (get_elem?-append_one conns p i at_c) [
    | inl old_c ↦ elim (get_elem?-append_one fds fd i at_f) [
      | inl old_f ↦ m.polled i q f old_c old_f
      | inr (last, _) ↦ absurd (omega (arith, m.same_length, get_elem?-lt conns i old_c))
    ]
    | inr (last_c, own) ↦ elim (get_elem?-append_one fds fd i at_f) [
      | inl old_f ↦ absurd (omega (arith, m.same_length, get_elem?-lt fds i old_f))
      | inr (_, own_f) ↦
          ap (λ (g : PollFd). g.fd) own_f ∙ socket ∙ ap (λ (t : ℕ). (mem t).socket) (sym own)
    ]
  ];
}

-- Without the last of both arrays.
pub Matched-remove_last :
    (mem : ℕ → Conn) (conns : List ℕ) (fds : List PollFd)
    → Matched mem conns fds
    → Matched mem (remove_at conns (length conns - 1)) (remove_at fds (length fds - 1))
Matched-remove_last mem conns fds m = record {
  same_length =
      omega (arith, length-remove_at_last conns, length-remove_at_last fds, m.same_length);
  indexed = λ i p at. m.indexed i p (get_elem?-remove_at_last conns i at);
  polled = λ i p f at_c at_f.
      m.polled i p f (get_elem?-remove_at_last conns i at_c) (get_elem?-remove_at_last fds i at_f);
}

-- What removing a connection leaves alone, and the conns that are left.
pub record Removed (i : ℕ) (s s' : State) : Type 0 where
  pub conns : s'.conns ≡ remove_and_fill s.conns i
  pub next_conn : s'.next_conn ≡ s.next_conn
  pub status_at : s'.status_at ≡ s.status_at
  pub timeouts : s'.timeouts ≡ s.timeouts
  pub now : s'.now ≡ s.now
  pub script : s'.script ≡ s.script

set_index-Removed :
    (i : ℕ) (o : Option ℕ) (s s1 : State) → Removed i s s1 → Removed i s (set_index i o s1)
set_index-Removed i none s s1 r = r
set_index-Removed i (some p) s s1 r = record {
  conns = r.conns;
  next_conn = r.next_conn;
  status_at = r.status_at;
  timeouts = r.timeouts;
  now = r.now;
  script = r.script;
}

pub remove_conn_at-Removed : (i : ℕ) (s : State) → Removed i s (remove_conn_at i s)
unfolding remove_conn_at
remove_conn_at-Removed i s =
    let conns' = remove_and_fill s.conns i in
    let r : Removed i s (record s { conns = conns' }) = record {
      conns = refl;
      next_conn = refl;
      status_at = refl;
      timeouts = refl;
      now = refl;
      script = refl;
    } in
    let r1 = set_index-Removed i (get_elem? conns' i) s (record s { conns = conns' }) r in
    record {
      conns = r1.conns;
      next_conn = r1.next_conn;
      status_at = r1.status_at;
      timeouts = r1.timeouts;
      now = r1.now;
      script = r1.script;
    }

set_index-memory : (i : ℕ) (o : Option ℕ) (s : State) → (set_index i o s).memory ≡ s.memory
set_index-memory i none s = refl
set_index-memory i (some p) s = refl

-- A removal does not write to the program's variables.
pub remove_conn_at-memory : (i : ℕ) (s : State) → (remove_conn_at i s).memory ≡ s.memory
unfolding remove_conn_at
remove_conn_at-memory i s =
    let conns' = remove_and_fill s.conns i in
    set_index-memory i (get_elem? conns' i) (record s { conns = conns' })

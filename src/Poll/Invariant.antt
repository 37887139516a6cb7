-- ===== src/Poll/Invariant.antt =====
-- The match of conns and poll_fds (remove_conn_at of msgbox/msgbox.c): each conn with its index,
-- and at that index the descriptor of its socket.
use msgbox.Prelude.{
  ℕ, suc, ◌-◌, ◌<◌, ◌≤◌, ◌≡◌, ◌≢◌, refl, sym, ap, ◌∙◌, List, some, get_elem?, length, arith, upd,
  get_elem?-some, get_elem?-none, get_elem?-lt, some_inj, ◌⊎◌, inl, inr,
}
use native.Mathlib.Decide.{dec_lt, ℕ_discrete}
use msgbox.Types.{Conn}
use msgbox.State.{State, PollFd}
use msgbox.Poll.{remove_and_fill, remove_conn_at}
use msgbox.Poll.Fill.{
  length-remove_and_fill, get_elem?-remove_and_fill_self, get_elem?-remove_and_fill_ne,
}

-- The statement over the two arrays and the memory of conns.
pub record Matched (mem : ℕ → Conn) (conns : List ℕ) (fds : List PollFd) : Type 0 where
  pub same_length : length fds ≡ length conns
  pub indexed : (i p : ℕ) → get_elem? conns i ≡ some p → (mem p).index ≡ i
  pub polled :
      (i p : ℕ) (f : PollFd)
      → get_elem? conns i ≡ some p
      → get_elem? fds i ≡ some f
      → f.fd ≡ (mem p).socket

abbrev pub IsMatched : State → Type 0
IsMatched s = Matched s.conn_at s.conns s.poll_fds

in_shortened :
    {A : Type 0} (xs : List A) (i j : ℕ) {x : A}
    → get_elem? (remove_and_fill xs i) j ≡ some x
    → j < length xs - 1
in_shortened xs i j e =
    omega (arith, get_elem?-lt (remove_and_fill xs i) j e, length-remove_and_fill xs i)

-- At which index an item of the shortened array stood before.
abbrev Source : ℕ → ℕ → ℕ → ℕ → Type 0
Source i n j k = ((j ≡ i) × (k ≡ n - 1)) ⊎ ((j ≢ i) × (k ≡ j))

source :
    {A B : Type 0} (xs : List A) (ys : List B) (i j : ℕ)
    → length ys ≡ length xs
    → j < length xs - 1
    → (k : ℕ) × (get_elem? (remove_and_fill xs i) j ≡ get_elem? xs k)
      × (get_elem? (remove_and_fill ys i) j ≡ get_elem? ys k)
      × Source i (length xs) j k
source xs ys i j l h = elim (ℕ_discrete j i) [
  | yes e ↦ (
    length xs - 1,
    ap (get_elem? (remove_and_fill xs i)) e ∙ get_elem?-remove_and_fill_self xs i (omega arith),
    ap (get_elem? (remove_and_fill ys i)) e
        ∙ get_elem?-remove_and_fill_self ys i (omega arith)
        ∙ ap (λ n. get_elem? ys (n - 1)) l,
    inl (e, refl),
  )
  | no ne ↦ (
    j,
    get_elem?-remove_and_fill_ne xs i j (λ e. ne (sym e)) h,
    get_elem?-remove_and_fill_ne ys i j (λ e. ne (sym e)) (omega arith),
    inr (ne, refl),
  )
]

pub remove_and_fill-from :
    {A : Type 0} (xs : List A) (i j : ℕ) {x : A}
    → get_elem? (remove_and_fill xs i) j ≡ some x
    → (k : ℕ) × (get_elem? xs k ≡ some x)
remove_and_fill-from xs i j e =
    let (k, from, _, _) = source xs xs i j refl (in_shortened xs i j e) in (k, sym from ∙ e)

-- Rewriting an index leaves the sockets alone.
upd-socket :
    (mem : ℕ → Conn) (q i p : ℕ)
    → (upd mem q (record (mem q) { index = i }) p).socket ≡ (mem p).socket
upd-socket mem q i p = ground arith

moved_index :
    (mem : ℕ → Conn) (n i last j k p : ℕ)
    → j < n - 1
    → Source i n j k
    → (k ≡ n - 1 → p ≡ last)
    → (mem p).index ≡ k
    → (mem last).index ≡ n - 1
    → (upd mem last (record (mem last) { index = i }) p).index ≡ j
moved_index mem n i last j k p h (inl (e, at_end)) same own own_last = ground (arith, same at_end)
moved_index mem n i last j k p h (inr (ne, stays)) same own own_last =
    ground (arith, λ (q : last ≡ p). ap (λ t. (mem t).index) q)

module _ (mem : ℕ → Conn) (conns : List ℕ) (fds : List PollFd) (m : Matched mem conns fds) where
  shortened_length : (i : ℕ) → length (remove_and_fill fds i) ≡ length (remove_and_fill conns i)
  shortened_length i =
      omega (arith, length-remove_and_fill fds i, length-remove_and_fill conns i, m.same_length)

  -- A conn and the descriptor beside it came from one place.
  shortened_polled :
      (i j p : ℕ) (f : PollFd)
      → get_elem? (remove_and_fill conns i) j ≡ some p
      → get_elem? (remove_and_fill fds i) j ≡ some f
      → f.fd ≡ (mem p).socket
  shortened_polled i j p f ep ef =
      let (k, from_c, from_f, _) = source conns fds i j m.same_length (in_shortened conns i j ep) in
      m.polled k p f (sym from_c ∙ ep) (sym from_f ∙ ef)

  shortened_indexed :
      (i j p : ℕ)
      → get_elem? (remove_and_fill conns i) j ≡ some p
      → (k : ℕ) × (get_elem? conns k ≡ some p) × ((mem p).index ≡ k) × Source i (length conns) j k
  shortened_indexed i j p e =
      let (k, from_c, _, s) = source conns fds i j m.same_length (in_shortened conns i j e) in
      (k, sym from_c ∙ e, m.indexed k p (sym from_c ∙ e), s)

  remove_last-Matched :
      (i : ℕ) → length conns ≤ suc i → Matched mem (remove_and_fill conns i) (remove_and_fill fds i)
  remove_last-Matched i h = record {
    same_length = shortened_length i;
    indexed = λ j p e.
        let (k, at_k, own, s) = shortened_indexed i j p e in
        let short : j < length conns - 1 = in_shortened conns i j e in ground arith;
    polled = shortened_polled i;
  }

  remove_inner-Matched :
      (i last : ℕ)
      → i < length conns - 1
      → get_elem? conns (length conns - 1) ≡ some last
      → Matched
          (upd mem last (record (mem last) { index = i }))
          (remove_and_fill conns i)
          (remove_and_fill fds i)
  remove_inner-Matched i last h at_last = record {
    same_length = shortened_length i;
    indexed = λ j p e.
        let (k, at_k, own, s) = shortened_indexed i j p e in
        moved_index mem (length conns) i last j k p (in_shortened conns i j e) s
          (λ q. some_inj (sym at_k ∙ ap (get_elem? conns) q ∙ at_last)) own
          (m.indexed (length conns - 1) last at_last);
    polled = λ j p f ep ef. shortened_polled i j p f ep ef ∙ sym (upd-socket mem last i p);
  }

-- If conns and poll_fds are matched (equal lengths, each conn with its own index, each descriptor
-- with the socket of its conn), they are matched after the removal at any index.
pub remove_conn_at-IsMatched : (i : ℕ) (s : State) → IsMatched s → IsMatched (remove_conn_at i s)
unfolding remove_conn_at
remove_conn_at-IsMatched i s m = elim (dec_lt i (length s.conns - 1)) [
  | yes inner ↦
      (let (last, at_last) = get_elem?-some s.conns (length s.conns - 1) (omega arith) in
        rw (get_elem?-remove_and_fill_self s.conns i inner, at_last)
          (remove_inner-Matched s.conn_at s.conns s.poll_fds m i last inner at_last))
  | no outer ↦
      rw
        (get_elem?-none (remove_and_fill s.conns i) i
          (omega (arith, length-remove_and_fill s.conns i)))
        (remove_last-Matched s.conn_at s.conns s.poll_fds m i (omega arith))
]

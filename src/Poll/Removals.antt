-- ===== src/Poll/Removals.antt =====
-- The loops over removals in msg_runloop: which connections go.
use mathlib.Core.List.{Perm}
use mathlib.Core.List.Perm
use msgbox.Prelude.{
  ℕ, suc, ◌-◌, ◌≤◌, ◌<◌, ◌≡◌, refl, sym, ap, ◌∙◌, subst, List, [], ◌∷◌, ◌++◌, Option, none, some,
  get_elem?, length, arith, get_elem?-some,
}
use msgbox.State.{State}
use msgbox.Poll.{remove_and_fill, remove_conn_at, remove_conns, clear_removals, set_index}
use msgbox.Poll.Fill.{
  length-remove_and_fill, get_elem?-remove_and_fill_self, get_elem?-remove_and_fill_ne,
  remove_and_fill-perm, remove_and_fill_outside,
}

module _ {A : Type 0} where
  -- The loop on the items alone.
  abbrev pub remove_all : List A → List ℕ → List A
  remove_all xs [] = xs
  remove_all xs (i ∷ is) = remove_all (remove_and_fill xs i) is

  -- The items that the indices name at the start of the loop.
  abbrev pub items_at : List A → List ℕ → List A
  items_at xs [] = []
  items_at xs (i ∷ is) = elim (get_elem? xs i) [
    | none ↦ items_at xs is
    | some x ↦ x ∷ items_at xs is
  ]

-- Falling, and below a bound.
abbrev pub Descending : ℕ → List ℕ → Type 0
Descending n [] = Unit {0}
Descending n (i ∷ is) = (i < n) × Descending i is

Descending-mono : (m n : ℕ) (is : List ℕ) → m ≤ n → Descending m is → Descending n is
Descending-mono m n [] h d = tt
Descending-mono m n (i ∷ is) h d = (omega arith, d.1)

set_index-conns : (i : ℕ) (o : Option ℕ) (s : State) → (set_index i o s).conns ≡ s.conns
set_index-conns i none s = refl
set_index-conns i (some p) s = refl

conns-remove_conn_at : (i : ℕ) (s : State) → (remove_conn_at i s).conns ≡ remove_and_fill s.conns i
unfolding remove_conn_at
conns-remove_conn_at i s = set_index-conns i (get_elem? (remove_and_fill s.conns i) i) _

conns-remove_conns : (is : List ℕ) (s : State) → (remove_conns is s).conns ≡ remove_all s.conns is
unfolding remove_conns
conns-remove_conns [] s = refl
conns-remove_conns (i ∷ is) s =
    conns-remove_conns is (remove_conn_at i s)
    ∙ ap (λ xs. remove_all xs is) (conns-remove_conn_at i s)

conns-clear_removals : (s : State) → (clear_removals s).conns ≡ remove_all s.conns s.removals
unfolding clear_removals
conns-clear_removals s = conns-remove_conns s.removals s

module _ {A : Type 0} where
  items_at_ext :
      (n : ℕ) (is : List ℕ) (xs ys : List A)
      → Descending n is
      → ((j : ℕ) → j < n → get_elem? ys j ≡ get_elem? xs j)
      → items_at ys is ≡ items_at xs is
  items_at_ext n [] xs ys d same = refl
  items_at_ext n (i ∷ is) xs ys d same =
      ground (arith, same i d.0, items_at_ext i is xs ys d.1 (λ j h. same j (omega arith)))

  items_at_cons :
      (xs : List A) (i : ℕ) (is : List ℕ) (x : A)
      → get_elem? xs i ≡ some x
      → items_at xs (i ∷ is) ≡ x ∷ items_at xs is
  items_at_cons xs i is x e = ground arith

  remove_all-perm :
      (is : List ℕ) (xs : List A)
      → Descending (length xs) is
      → Perm xs (items_at xs is ++ remove_all xs is)
  remove_all-perm [] xs d = Perm.refl xs
  remove_all-perm (i ∷ is) xs d =
      let (x, e) = get_elem?-some xs i d.0 in
      let ys : List A = remove_and_fill xs i in
      let below : Descending (length ys) is =
        Descending-mono i (length ys) is (omega (arith, length-remove_and_fill xs i)) d.1 in
      let same : items_at ys is ≡ items_at xs is =
        items_at_ext i is xs ys d.1
          (λ j h. get_elem?-remove_and_fill_ne xs i j (omega arith) (omega arith)) in
      let rest : Perm ys (items_at xs is ++ remove_all ys is) =
        subst (λ zs. Perm ys (zs ++ remove_all ys is)) same (remove_all-perm is ys below) in
      subst (λ zs. Perm xs (zs ++ remove_all ys is)) (sym (items_at_cons xs i is x e))
        (Perm.trans (remove_and_fill-perm xs i x e) (Perm.cons x rest))

-- If the indices in removals fall, exactly the connections that they name leave conns.
pub clear_removals-perm :
    (s : State)
    → Descending (length s.conns) s.removals
    → Perm s.conns (items_at s.conns s.removals ++ (clear_removals s).conns)
clear_removals-perm s d = rw (conns-clear_removals s) (remove_all-perm s.removals s.conns d)

module _ {A : Type 0} where
  -- Two indices that rise, the second of them the last one.
  remove_all_rising :
      (xs : List A) (i : ℕ) (a b : A)
      → suc (suc i) < length xs
      → get_elem? xs i ≡ some a
      → get_elem? xs (length xs - 2) ≡ some b
      → Perm xs (a ∷ b ∷ remove_all xs (i ∷ (length xs - 1) ∷ []))
        × (get_elem? (remove_all xs (i ∷ (length xs - 1) ∷ [])) i ≡ get_elem? xs (length xs - 1))
  remove_all_rising xs i a b h ea eb =
      let ys : List A = remove_and_fill xs i in
      let len : length ys ≡ length xs - 1 = length-remove_and_fill xs i in
      let last : length ys - 1 ≡ length xs - 2 = omega arith in
      let out : remove_and_fill ys (length xs - 1) ≡ remove_and_fill ys (length xs - 2) =
        remove_and_fill_outside ys (length xs - 1) (omega arith) ∙ ap (remove_and_fill ys) last in
      let at_b : get_elem? ys (length xs - 2) ≡ some b =
        get_elem?-remove_and_fill_ne xs i (length xs - 2) (omega arith) (omega arith) ∙ eb in
      rw out (
        Perm.trans (remove_and_fill-perm xs i a ea)
            (Perm.cons a (remove_and_fill-perm ys (length xs - 2) b at_b)),
        get_elem?-remove_and_fill_ne ys (length xs - 2) i (omega arith) (omega arith)
            ∙ get_elem?-remove_and_fill_self xs i (omega arith),
      )

-- If removals names a connection and after it the last one, with at least one between them, then
-- the last but one leaves conns in place of the last, which stays, at the first one's index.
pub clear_removals_rising :
    (s : State) (i p q : ℕ)
    → suc (suc i) < length s.conns
    → s.removals ≡ i ∷ (length s.conns - 1) ∷ []
    → get_elem? s.conns i ≡ some p
    → get_elem? s.conns (length s.conns - 2) ≡ some q
    → Perm s.conns (p ∷ q ∷ (clear_removals s).conns)
      × (get_elem? (clear_removals s).conns i ≡ get_elem? s.conns (length s.conns - 1))
clear_removals_rising s i p q h r ep eq =
    rw (conns-clear_removals s, r) (remove_all_rising s.conns i p q h ep eq)

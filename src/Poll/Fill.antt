-- ===== src/Poll/Fill.antt =====
-- What array__remove_and_fill does to the items.
use mathlib.Core.List.{Perm, perm_append_singleton}
use mathlib.Core.List.Perm
use msgbox.Prelude.{
  ℕ, zero, suc, ◌-◌, ◌≤◌, ◌<◌, ◌≡◌, ◌≢◌, refl, sym, ap, ◌∙◌, List, [], ◌∷◌, ◌++◌, some, get_elem?,
  set, take, length, arith, length-set, length-take, get_elem?-take, get_elem?-set_ne,
  get_elem?-set_self, get_elem?-some, get_elem?-lt,
}
use mathlib.Core.Path.{subst₂}
use native.Mathlib.Decide.{dec_lt}
use msgbox.Poll.{remove_and_fill}

module _ {A : Type 0} where
  pub remove_and_fill_last :
      (xs : List A) (i : ℕ) (last : A)
      → get_elem? xs (length xs - 1) ≡ some last
      → remove_and_fill xs i ≡ take (length xs - 1) (set xs i last)
  unfolding remove_and_fill
  remove_and_fill_last xs i last e = rw (e, remove_and_fill)

  pub length-remove_and_fill : (xs : List A) (i : ℕ) → length (remove_and_fill xs i) ≡ length xs - 1
  unfolding remove_and_fill
  length-remove_and_fill [] i = refl
  length-remove_and_fill (x ∷ xs) i =
      let (last, e) = get_elem?-some (x ∷ xs) (length (x ∷ xs) - 1) (omega arith) in
      rw (remove_and_fill_last (x ∷ xs) i last e) (
        omega (
          arith,
          length-take (length (x ∷ xs) - 1) (set (x ∷ xs) i last),
          length-set (x ∷ xs) i last,
        ))

  -- The slot takes the last item; the others stay in place.
  pub get_elem?-remove_and_fill_self :
      (xs : List A) (i : ℕ)
      → i < length xs - 1
      → get_elem? (remove_and_fill xs i) i ≡ get_elem? xs (length xs - 1)
  get_elem?-remove_and_fill_self xs i h =
      let (last, e) = get_elem?-some xs (length xs - 1) (omega arith) in
      rw (remove_and_fill_last xs i last e, e)
        (get_elem?-take (length xs - 1) (set xs i last) i h
          ∙ get_elem?-set_self xs i last (omega arith))

  pub get_elem?-remove_and_fill_ne :
      (xs : List A) (i j : ℕ)
      → i ≢ j
      → j < length xs - 1
      → get_elem? (remove_and_fill xs i) j ≡ get_elem? xs j
  get_elem?-remove_and_fill_ne xs i j ne h =
      let (last, e) = get_elem?-some xs (length xs - 1) (omega arith) in
      rw (remove_and_fill_last xs i last e)
        (get_elem?-take (length xs - 1) (set xs i last) j h ∙ get_elem?-set_ne xs i j last ne)

  -- The items before the last, and the last.
  init-last :
      (n : ℕ) (xs : List A) (last : A)
      → length xs ≡ suc n
      → get_elem? xs n ≡ some last
      → xs ≡ take n xs ++ last ∷ []
  init-last n [] last l e = cc
  init-last zero (x ∷ []) last l e = ground arith
  init-last zero (x ∷ y ∷ ys) last l e = absurd (omega arith)
  init-last (suc n) (x ∷ xs) last l e = ap (◌∷◌ x) (init-last n xs last (omega arith) e)

  take-set : (n : ℕ) (xs : List A) (i : ℕ) (v : A) → take n (set xs i v) ≡ set (take n xs) i v
  take-set zero xs i v = refl
  take-set (suc n) [] i v = refl
  take-set (suc n) (x ∷ xs) zero v = refl
  take-set (suc n) (x ∷ xs) (suc i) v = ap (◌∷◌ x) (take-set n xs i v)

  set_outside : (xs : List A) (i : ℕ) (v : A) → length xs ≤ i → set xs i v ≡ xs
  set_outside [] i v h = refl
  set_outside (x ∷ xs) zero v h = absurd (omega arith)
  set_outside (x ∷ xs) (suc i) v h = ap (◌∷◌ x) (set_outside xs i v (omega arith))

  set-perm :
      (xs : List A) (i : ℕ) (x v : A)
      → get_elem? xs i ≡ some x
      → Perm (xs ++ v ∷ []) (x ∷ set xs i v)
  set-perm [] i x v e = cc
  set-perm (y ∷ xs) zero x v e = Perm.cons' (ground arith) (perm_append_singleton v xs)
  set-perm (y ∷ xs) (suc i) x v e =
      Perm.trans (Perm.cons y (set-perm xs i x v e)) (Perm.swap x y (set xs i v))

  remove_and_fill-perm_at :
      (xs : List A) (i n : ℕ) (x last : A)
      → length xs ≡ suc n
      → get_elem? xs n ≡ some last
      → get_elem? xs i ≡ some x
      → Perm (take n xs ++ last ∷ []) (x ∷ set (take n xs) i last)
  remove_and_fill-perm_at xs i n x last l at_last e = elim (dec_lt i n) [
    | yes inner ↦ set-perm (take n xs) i x last (get_elem?-take n xs i inner ∙ e)
    | no outer ↦
        (let here : i ≡ n = omega (arith, get_elem?-lt xs i e) in
          let same : last ≡ x = cc (ap (get_elem? xs) here) in
          rw (set_outside (take n xs) i last (omega (arith, length-take n xs)), ← same)
            (perm_append_singleton last (take n xs)))
  ]

  -- One item goes, and no other.
  pub remove_and_fill-perm :
      (xs : List A) (i : ℕ) (x : A) → get_elem? xs i ≡ some x → Perm xs (x ∷ remove_and_fill xs i)
  remove_and_fill-perm xs i x e =
      let long : i < length xs = get_elem?-lt xs i e in
      let l : length xs ≡ suc (length xs - 1) = omega arith in
      let (last, at_last) = get_elem?-some xs (length xs - 1) (omega arith) in
      subst₂ Perm (sym (init-last (length xs - 1) xs last l at_last))
        (ap (◌∷◌ x)
          (sym (remove_and_fill_last xs i last at_last ∙ take-set (length xs - 1) xs i last)))
        (remove_and_fill-perm_at xs i (length xs - 1) x last l at_last e)

  -- An index from the count on drops the last item.
  pub remove_and_fill_outside :
      (xs : List A) (i : ℕ)
      → length xs ≤ i
      → remove_and_fill xs i ≡ remove_and_fill xs (length xs - 1)
  unfolding remove_and_fill
  remove_and_fill_outside [] i h = refl
  remove_and_fill_outside (x ∷ xs) i h =
      let ys : List A = x ∷ xs in
      let (last, e) = get_elem?-some ys (length ys - 1) (omega arith) in
      let prefix : length (take (length ys - 1) ys) ≤ length ys - 1 =
        omega (arith, length-take (length ys - 1) ys) in
      rw (remove_and_fill_last ys i last e, remove_and_fill_last ys (length ys - 1) last e)
        (take-set (length ys - 1) ys i last
          ∙ set_outside (take (length ys - 1) ys) i last (omega arith)
          ∙ sym (
              take-set (length ys - 1) ys (length ys - 1) last
              ∙ set_outside (take (length ys - 1) ys) (length ys - 1) last prefix))

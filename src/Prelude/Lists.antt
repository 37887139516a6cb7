-- ===== src/Prelude/Lists.antt =====
-- Lists measured and indexed by native numbers, under the library's names; the bytes of a text.
use Prim.Native.Nat.{ℕ, zero, suc, ◌+◌, ◌-◌, ◌<◌, ◌≤◌, min}
use Prim.Native.Char.{code}
use Prim.Native.String.{String}
use mathlib.Core.Path.{◌≡◌, refl, sym, ap, ◌∙◌}
use mathlib.Core.Logic.{◌≢◌, ◌⊎◌, inl, inr}
use mathlib.Core.List.{List, [], ◌∷◌, ◌++◌}
use mathlib.Core.Option.{Option, none, some}
use native.Mathlib.Omega.{arith}

module _ {ℓ} {A : Type ℓ} where
  abbrev pub length : List A → ℕ
  length [] = 0
  length (x ∷ xs) = suc (length xs)

  abbrev pub get_elem? : List A → ℕ → Option A
  get_elem? [] i = none
  get_elem? (x ∷ xs) zero = some x
  get_elem? (x ∷ xs) (suc i) = get_elem? xs i

  abbrev pub get_or : List A → ℕ → A → A
  get_or [] i d = d
  get_or (x ∷ xs) zero d = x
  get_or (x ∷ xs) (suc i) d = get_or xs i d

  -- A write out of bounds changes nothing.
  abbrev pub set : List A → ℕ → A → List A
  set [] i v = []
  set (x ∷ xs) zero v = v ∷ xs
  set (x ∷ xs) (suc i) v = x ∷ set xs i v

  abbrev pub take : ℕ → List A → List A
  take zero xs = []
  take (suc n) [] = []
  take (suc n) (x ∷ xs) = x ∷ take n xs

  abbrev pub drop : ℕ → List A → List A
  drop zero xs = xs
  drop (suc n) [] = []
  drop (suc n) (x ∷ xs) = drop n xs

  -- The list without the item at an index.
  abbrev pub remove_at : List A → ℕ → List A
  remove_at [] i = []
  remove_at (x ∷ xs) zero = xs
  remove_at (x ∷ xs) (suc i) = x ∷ remove_at xs i

  pub length-append : (xs ys : List A) → length (xs ++ ys) ≡ length xs + length ys
  length-append [] ys = omega arith
  length-append (x ∷ xs) ys = omega (arith, length-append xs ys)

  pub length-take : (n : ℕ) (xs : List A) → length (take n xs) ≡ min n (length xs)
  length-take zero xs = omega arith
  length-take (suc n) [] = omega arith
  length-take (suc n) (x ∷ xs) = omega (arith, length-take n xs)

  pub length-drop : (n : ℕ) (xs : List A) → length (drop n xs) ≡ length xs - n
  length-drop zero xs = omega arith
  length-drop (suc n) [] = omega arith
  length-drop (suc n) (x ∷ xs) = omega (arith, length-drop n xs)

  pub take-append-drop : (n : ℕ) (xs : List A) → take n xs ++ drop n xs ≡ xs
  take-append-drop zero xs = refl
  take-append-drop (suc n) [] = refl
  take-append-drop (suc n) (x ∷ xs) = ap (◌∷◌ x) (take-append-drop n xs)

  pub take_all : (n : ℕ) (xs : List A) → length xs ≤ n → take n xs ≡ xs
  take_all zero [] h = refl
  take_all zero (x ∷ xs) h = absurd (omega arith)
  take_all (suc n) [] h = refl
  take_all (suc n) (x ∷ xs) h = ap (◌∷◌ x) (take_all n xs (omega arith))

  pub take-append : (n : ℕ) (xs ys : List A) → length xs ≡ n → take n (xs ++ ys) ≡ xs
  take-append zero [] ys h = refl
  take-append zero (x ∷ xs) ys h = absurd (omega arith)
  take-append (suc n) [] ys h = absurd (omega arith)
  take-append (suc n) (x ∷ xs) ys h = ap (◌∷◌ x) (take-append n xs ys (omega arith))

  pub get_elem?-set_self :
      (xs : List A) (i : ℕ) (v : A) → i < length xs → get_elem? (set xs i v) i ≡ some v
  get_elem?-set_self [] i v h = absurd (omega arith)
  get_elem?-set_self (x ∷ xs) zero v h = refl
  get_elem?-set_self (x ∷ xs) (suc i) v h = get_elem?-set_self xs i v (omega arith)

  pub get_elem?-set_ne :
      (xs : List A) (i j : ℕ) (v : A) → i ≢ j → get_elem? (set xs i v) j ≡ get_elem? xs j
  get_elem?-set_ne [] i j v h = refl
  get_elem?-set_ne (x ∷ xs) zero zero v h = absurd (h refl)
  get_elem?-set_ne (x ∷ xs) zero (suc j) v h = refl
  get_elem?-set_ne (x ∷ xs) (suc i) zero v h = refl
  get_elem?-set_ne (x ∷ xs) (suc i) (suc j) v h = get_elem?-set_ne xs i j v (λ e. h (ap suc e))

  pub length-set : (xs : List A) (i : ℕ) (v : A) → length (set xs i v) ≡ length xs
  length-set [] i v = refl
  length-set (x ∷ xs) zero v = refl
  length-set (x ∷ xs) (suc i) v = ap suc (length-set xs i v)

  pub get_elem?-lt : (xs : List A) (i : ℕ) {v : A} → get_elem? xs i ≡ some v → i < length xs
  get_elem?-lt [] i h = cc
  get_elem?-lt (x ∷ xs) zero h = omega arith
  get_elem?-lt (x ∷ xs) (suc i) h = omega (arith, get_elem?-lt xs i h)

  pub get_elem?-some : (xs : List A) (i : ℕ) → i < length xs → (v : A) × (get_elem? xs i ≡ some v)
  get_elem?-some [] i h = absurd (omega arith)
  get_elem?-some (x ∷ xs) zero h = (x, refl)
  get_elem?-some (x ∷ xs) (suc i) h = get_elem?-some xs i (omega arith)

  pub get_elem?-none : (xs : List A) (i : ℕ) → length xs ≤ i → get_elem? xs i ≡ none
  get_elem?-none [] i h = refl
  get_elem?-none (x ∷ xs) zero h = absurd (omega arith)
  get_elem?-none (x ∷ xs) (suc i) h = get_elem?-none xs i (omega arith)

  pub get_elem?-take :
      (n : ℕ) (xs : List A) (i : ℕ) → i < n → get_elem? (take n xs) i ≡ get_elem? xs i
  get_elem?-take zero xs i h = absurd (omega arith)
  get_elem?-take (suc n) [] i h = refl
  get_elem?-take (suc n) (x ∷ xs) zero h = refl
  get_elem?-take (suc n) (x ∷ xs) (suc i) h = get_elem?-take n xs i (omega arith)

  pub get_elem?-remove_at_lt :
      (xs : List A) (j i : ℕ) → i < j → get_elem? (remove_at xs j) i ≡ get_elem? xs i
  get_elem?-remove_at_lt [] j i h = refl
  get_elem?-remove_at_lt (x ∷ xs) zero i h = absurd (omega arith)
  get_elem?-remove_at_lt (x ∷ xs) (suc j) zero h = refl
  get_elem?-remove_at_lt (x ∷ xs) (suc j) (suc i) h = get_elem?-remove_at_lt xs j i (omega arith)

  pub length-remove_at :
      (xs : List A) (j : ℕ) → j < length xs → length (remove_at xs j) ≡ length xs - 1
  length-remove_at [] j h = absurd (omega arith)
  length-remove_at (x ∷ xs) zero h = omega arith
  length-remove_at (x ∷ xs) (suc j) h = omega (arith, length-remove_at xs j (omega arith))

  pub length-remove_at_last : (xs : List A) → length (remove_at xs (length xs - 1)) ≡ length xs - 1
  length-remove_at_last [] = refl
  length-remove_at_last (x ∷ xs) = length-remove_at (x ∷ xs) (length (x ∷ xs) - 1) (omega arith)

  pub get_elem?-remove_at_last :
      (xs : List A) (i : ℕ) {v : A}
      → get_elem? (remove_at xs (length xs - 1)) i ≡ some v
      → get_elem? xs i ≡ some v
  get_elem?-remove_at_last xs i e =
      sym (
        get_elem?-remove_at_lt xs (length xs - 1) i (
          omega (arith, length-remove_at_last xs, get_elem?-lt (remove_at xs (length xs - 1)) i e)))
      ∙ e

  -- An item of a list with one more is an item of the list, or the one more.
  pub get_elem?-append_one :
      (xs : List A) (x : A) (i : ℕ) {v : A}
      → get_elem? (xs ++ x ∷ []) i ≡ some v
      → (get_elem? xs i ≡ some v) ⊎ ((i ≡ length xs) × (v ≡ x))
  get_elem?-append_one [] x zero e = inr (refl, cc)
  get_elem?-append_one [] x (suc i) e = absurd cc
  get_elem?-append_one (y ∷ xs) x zero e = inl e
  get_elem?-append_one (y ∷ xs) x (suc i) e = elim (get_elem?-append_one xs x i e) [
    | inl old ↦ inl old
    | inr (last, own) ↦ inr (ap suc last, own)
  ]

  pub remove_at-last : (xs : List A) (x : A) → remove_at (xs ++ x ∷ []) (length xs) ≡ xs
  remove_at-last [] x = refl
  remove_at-last (y ∷ xs) x = ap (◌∷◌ y) (remove_at-last xs x)

-- The code points of a text: its bytes, for the ASCII texts of the program.
abbrev pub codes : String → List ℕ
codes String.[] = []
codes (String.◌∷◌ c s) = code c ∷ codes s

-- A memory with one cell rewritten.
abbrev pub upd {ℓ} : {A : Type ℓ} → (ℕ → A) → ℕ → A → ℕ → A
upd f p v q = elim (Prim.Native.Nat.compare p q) [ Prim.Native.Nat.Ordering.eq ↦ v | _ ↦ f q ]

pub upd_self {ℓ} : {A : Type ℓ} (f : ℕ → A) (p : ℕ) (v : A) → upd f p v p ≡ v
upd_self f p v = ground arith

pub upd_ne {ℓ} : {A : Type ℓ} (f : ℕ → A) (p : ℕ) (v : A) (q : ℕ) → p ≢ q → upd f p v q ≡ f q
upd_ne f p v q ne = ground arith

-- What holds of the new value and of the old one holds of the cell.
pub upd_either {ℓ κ} :
    {A : Type ℓ} (Q : A → Type κ) (f : ℕ → A) (p : ℕ) (v : A) (q : ℕ)
    → Q v
    → Q (f q)
    → Q (upd f p v q)
upd_either Q f p v q new old =
    elim (Prim.Native.Nat.compare p q)
      as (λ o. Q (elim o [ Prim.Native.Nat.Ordering.eq ↦ v | _ ↦ f q ])) [
        | Prim.Native.Nat.Ordering.eq ↦ new
        | Prim.Native.Nat.Ordering.lt ↦ old
        | Prim.Native.Nat.Ordering.gt ↦ old
      ]

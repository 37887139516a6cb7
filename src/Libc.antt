-- ===== src/Libc.antt =====
-- What msgbox takes from the C library and the socket library: functions on texts as parameters
-- with their documented laws, strtol and the printf formats as definitions. Texts are lists of
-- bytes without the closing 0.
pub mod Decimal
use msgbox.Prelude.{
  ℕ, ◌≤◌, ◌<◌, ◌≡◌, refl, List, [], ◌∷◌, ◌++◌, Option, some, length, take, Bool, true, false, ◌==◌,
  if◌then◌else◌, ◌&&◌, arith,
}
use msgbox.Types.{Address, Event}

-- Whether a byte occurs in a text.
abbrev pub contains : List ℕ → ℕ → Bool
contains [] c = false
contains (x ∷ xs) c = if x == c then true else contains xs c

pub record Libc : Type 0 where
  pub strerror : ℕ → List ℕ
  -- inet_pton for AF_INET: `none` is any result but 1.
  pub inet_pton : List ℕ → Option ℕ
  pub inet_ntoa : ℕ → List ℕ
  -- What malloc and the stack happen to hold where the program reads before it writes.
  pub stale_address : Address
  pub stale_context : ℕ
  pub stale_event : Event
  pub stale_int : ℕ
  -- inet_ntoa writes dotted decimals, 7 to 15 characters, which inet_pton reads back.
  pub ntoa_short : (ip : ℕ) → ip < 4294967296 → length (inet_ntoa ip) ≤ 15
  pub ntoa_long : (ip : ℕ) → ip < 4294967296 → 7 ≤ length (inet_ntoa ip)
  pub ntoa_no_colon : (ip : ℕ) → ip < 4294967296 → contains (inet_ntoa ip) b':' ≡ false
  pub pton-ntoa : (ip : ℕ) → ip < 4294967296 → inet_pton (inet_ntoa ip) ≡ some ip

-- snprintf into a buffer of n bytes keeps n - 1 characters.
abbrev pub snprintf : ℕ → List ℕ → List ℕ
snprintf n text = take (Prim.Native.Nat.pred n) text

-- strcmp (a, b) == 0
unfoldable pub str_eq : List ℕ → List ℕ → Bool
str_eq [] [] = true
str_eq [] (y ∷ ys) = false
str_eq (x ∷ xs) [] = false
str_eq (x ∷ xs) (y ∷ ys) = (x == y) && str_eq xs ys

-- strncmp (text, prefix, strlen (prefix)) == 0
unfoldable pub starts_with : List ℕ → List ℕ → Bool
starts_with text [] = true
starts_with [] (p ∷ ps) = false
starts_with (c ∷ cs) (p ∷ ps) = (c == p) && starts_with cs ps

pub str_eq-eq : (xs ys : List ℕ) → str_eq xs ys ≡ true → xs ≡ ys
unfolding str_eq
str_eq-eq [] [] h = refl
str_eq-eq [] (y ∷ ys) h = cc
str_eq-eq (x ∷ xs) [] h = cc
str_eq-eq (x ∷ xs) (y ∷ ys) h = ground (arith, str_eq-eq xs ys)

pub str_eq_refl : (xs : List ℕ) → str_eq xs xs ≡ true
unfolding str_eq
str_eq_refl [] = refl
str_eq_refl (x ∷ xs) = ground (arith, str_eq_refl xs)

pub starts_with-append : (ps xs : List ℕ) → starts_with (ps ++ xs) ps ≡ true
unfolding starts_with
starts_with-append [] [] = refl
starts_with-append [] (x ∷ xs) = refl
starts_with-append (p ∷ ps) xs = ground (arith, starts_with-append ps xs)

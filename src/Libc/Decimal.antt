-- ===== src/Libc/Decimal.antt =====
-- The decimal conversions: printf's %d of a number that is not negative, and strtol in base ten.
use msgbox.Prelude.{
  ℕ, zero, suc, ◌+◌, ◌-◌, ◌*◌, ◌/◌, ◌%◌, ◌^◌, ◌≤◌, ◌<◌, List, [], ◌∷◌, ◌++◌, Bool, true, false,
  ◌&&◌, ◌||◌, ◌==◌, leb, ltb, if◌then◌else◌, ◌≡◌, refl, arith, append_assoc, min, ap, ◌∙◌, length,
  length-append,
}
use native.Mathlib.Decide.{dec_lt}
use native.Mathlib.Nat.{pow-suc}

-- The digits of n, which has at most as many as the fuel.
pub decimal_digits : ℕ → ℕ → List ℕ
decimal_digits zero n = []
decimal_digits (suc f) n =
    let more = decimal_digits f (n / 10) ++ (48 + n % 10) ∷ [] in
    if ltb n 10 then (48 + n) ∷ [] else more

-- An int has at most ten digits.
unfoldable pub decimal : ℕ → List ℕ
unfolding decimal_digits
decimal n = decimal_digits 10 n

abbrev pub is_digit : ℕ → Bool
is_digit c = leb 48 c && leb c 57

abbrev pub is_space : ℕ → Bool
is_space c = (c == 32) || (leb 9 c && leb c 13)

-- The digits at the head of a text: their value, and what follows them.
pub digits : ℕ → List ℕ → ℕ × List ℕ
digits acc [] = (acc, [])
digits acc (c ∷ cs) =
    let rest = digits (acc * 10 + (c - 48)) cs in if is_digit c then rest else (acc, c ∷ cs)

pub skip_spaces : List ℕ → List ℕ
skip_spaces [] = []
skip_spaces (c ∷ cs) = let rest = skip_spaces cs in if is_space c then rest else c ∷ cs

-- The result of strtol: a sign, a magnitude within the range of a 64-bit long, and the text from
-- *endptr on.
pub record Parsed : Type 0 where
  pub negative : Bool
  pub magnitude : ℕ
  pub end_ptr : List ℕ

abbrev clamp : Bool → ℕ → ℕ
clamp negative n = if negative then min n 9223372036854775808 else min n 9223372036854775807

-- From the first digit on; with no digit there, *endptr is the whole text.
strtol_digits : Bool → List ℕ → List ℕ → Parsed
strtol_digits negative whole [] = record { negative = false; magnitude = 0; end_ptr = whole }
strtol_digits negative whole (c ∷ cs) =
    if is_digit c
    then (let (n, rest) = digits 0 (c ∷ cs) in
        record { negative = negative; magnitude = clamp negative n; end_ptr = rest })
    else record { negative = false; magnitude = 0; end_ptr = whole }

strtol_sign : List ℕ → List ℕ → Parsed
strtol_sign whole [] = strtol_digits false whole []
strtol_sign whole (c ∷ cs) =
    if c == b'-'
    then strtol_digits true whole cs
    else if c == b'+'
    then strtol_digits false whole cs
    else strtol_digits false whole (c ∷ cs)

unfoldable pub strtol : List ℕ → Parsed
unfolding strtol_sign strtol_digits digits skip_spaces
strtol text = strtol_sign text (skip_spaces text)

pub digits-nil : (n : ℕ) → digits n [] ≡ (n, [])
unfolding digits
digits-nil n = refl

-- One printed digit.
digits-digit :
    (acc d m : ℕ) (rest : List ℕ)
    → d < 10
    → acc * 10 + d ≡ m
    → digits acc ((48 + d) ∷ rest) ≡ digits m rest
unfolding digits
digits-digit acc d m rest h e =
    let step : acc * 10 + (48 + d - 48) ≡ m = omega arith in
    ground (arith, ap (λ (t : ℕ). digits t rest) step)

decimal_digits_small : (f n : ℕ) → n < 10 → decimal_digits (suc f) n ≡ (48 + n) ∷ []
unfolding decimal_digits
decimal_digits_small f n h = ground arith

decimal_digits_large :
    (f n : ℕ) → 10 ≤ n → decimal_digits (suc f) n ≡ decimal_digits f (n / 10) ++ (48 + n % 10) ∷ []
unfolding decimal_digits
decimal_digits_large f n h = ground arith

tenth-lt-pow : (f n : ℕ) → n < 10 ^ suc f → n / 10 < 10 ^ f
tenth-lt-pow f n h = omega (arith, pow-suc 10 f)

-- Reading printed digits back.
pub digits-decimal_digits :
    (f n : ℕ) (rest : List ℕ)
    → n < 10 ^ suc f
    → digits 0 (decimal_digits (suc f) n ++ rest) ≡ digits n rest
digits-decimal_digits zero n rest h =
    rw (decimal_digits_small zero n h) (digits-digit 0 n n rest h (omega arith))
digits-decimal_digits (suc f) n rest h = elim (dec_lt n 10) [
  | yes small ↦
      rw (decimal_digits_small (suc f) n small) (digits-digit 0 n n rest small (omega arith))
  | no large ↦
      rw (decimal_digits_large (suc f) n (omega arith), append_assoc)
        (digits-decimal_digits f (n / 10) ((48 + n % 10) ∷ rest) (tenth-lt-pow (suc f) n h)
          ∙ digits-digit (n / 10) (n % 10) n rest (omega arith) (omega arith))
]

-- The first character printed is a digit.
decimal_digits-head :
    (f n : ℕ) → (d : ℕ) × (tail : List ℕ) × (decimal_digits (suc f) n ≡ (48 + d) ∷ tail) × (d < 10)
unfolding decimal_digits
decimal_digits-head zero n = elim (dec_lt n 10) [
  | yes small ↦ (n, [], decimal_digits_small zero n small, small)
  | no large ↦ (n % 10, [], decimal_digits_large zero n (omega arith), omega arith)
]
decimal_digits-head (suc f) n = elim (dec_lt n 10) [
  | yes small ↦ (n, [], decimal_digits_small (suc f) n small, small)
  | no large ↦
      (let (d, tail, e, h) = decimal_digits-head f (n / 10) in
        (
          d,
          tail ++ (48 + n % 10) ∷ [],
          decimal_digits_large (suc f) n (omega arith) ∙ ap (λ t. t ++ (48 + n % 10) ∷ []) e,
          h,
        ))
]

skip_spaces-digit :
    (d : ℕ) (text : List ℕ) → d < 10 → skip_spaces ((48 + d) ∷ text) ≡ (48 + d) ∷ text
unfolding skip_spaces
skip_spaces-digit d text h = ground arith

strtol_sign-digit :
    (d : ℕ) (whole text : List ℕ)
    → d < 10
    → strtol_sign whole ((48 + d) ∷ text) ≡ strtol_digits false whole ((48 + d) ∷ text)
unfolding strtol_sign
strtol_sign-digit d whole text h = ground arith

strtol_digits-digit :
    (d n : ℕ) (whole text rest : List ℕ)
    → d < 10
    → n < 10000000000
    → digits 0 ((48 + d) ∷ text) ≡ (n, rest)
    → strtol_digits false whole ((48 + d) ∷ text)
      ≡ record { negative = false; magnitude = n; end_ptr = rest }
unfolding strtol_digits
strtol_digits-digit d n whole text rest h b e = ground arith

strtol_digit :
    (d n : ℕ) (text rest : List ℕ)
    → d < 10
    → n < 10000000000
    → digits 0 ((48 + d) ∷ text) ≡ (n, rest)
    → strtol ((48 + d) ∷ text) ≡ record { negative = false; magnitude = n; end_ptr = rest }
unfolding strtol
strtol_digit d n text rest h b e =
    rw (skip_spaces-digit d text h)
      (strtol_sign-digit d _ text h ∙ strtol_digits-digit d n _ text rest h b e)

-- What strtol reads from printf's %d: the number and the text after it, if that begins with no
-- digit.
pub strtol-decimal :
    (n : ℕ) (rest : List ℕ)
    → n < 10000000000
    → digits n rest ≡ (n, rest)
    → strtol (decimal n ++ rest) ≡ record { negative = false; magnitude = n; end_ptr = rest }
unfolding decimal
strtol-decimal n rest h stop =
    let (d, tail, e, small) = decimal_digits-head 9 n in
    let read : digits 0 (decimal_digits 10 n ++ rest) ≡ (n, rest) =
      digits-decimal_digits 9 n rest h ∙ stop in
    rw e (strtol_digit d n (tail ++ rest) rest small h (rw e at read))

-- How many digits are printed.
length-decimal_digits : (f n k : ℕ) → n < 10 ^ suc k → length (decimal_digits f n) ≤ suc k
unfolding decimal_digits
length-decimal_digits zero n k h = omega arith
length-decimal_digits (suc f) n zero h = ground arith
length-decimal_digits (suc f) n (suc k) h = ground (
  arith,
  length-decimal_digits f (n / 10) k (tenth-lt-pow (suc k) n h),
  length-append (decimal_digits f (n / 10)) ((48 + n % 10) ∷ []),
)

-- A port has at most five digits.
pub length-decimal_port : (n : ℕ) → n < 65536 → length (decimal n) ≤ 5
unfolding decimal
length-decimal_port n h = length-decimal_digits 10 n 4 (omega arith)

pub decimal-cons : (n : ℕ) → (c : ℕ) × (cs : List ℕ) × (decimal n ≡ c ∷ cs)
unfolding decimal
decimal-cons n = let (d, tail, e, _) = decimal_digits-head 9 n in (48 + d, tail, e)

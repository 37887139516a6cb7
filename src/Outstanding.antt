-- ===== src/Outstanding.antt =====
-- The requests that wait for a reply, as one table: the abstract view of the timeouts and of the
-- maps reply_contexts, which msg_get, read_from_socket and the loop over timeouts keep together
-- (msgbox/msgbox.c).
pub mod Contexts
pub mod Steps
use msgbox.Prelude.{
  ℕ, suc, ◌<◌, ◌≡◌, refl, ap, ap₂, sym, ◌∙◌, Bool, Bool-cases, true, false, List, [], ◌∷◌, ◌++◌,
  Option, none, some, inl, inr, ◌==◌, ◌&&◌, if◌then◌else◌, map, remove_at, arith,
}
use msgbox.State.{State, Timeout}
use msgbox.Timeouts.{timeout_index}

-- A request that was sent and has neither been answered nor timed out.
pub record Request : Type 0 where
  pub at : ℕ
  pub conn : ℕ
  pub status : ℕ
  pub reply_id : ℕ
  pub context : ℕ

abbrev pub timeout_of : Request → Timeout
timeout_of r = record { at = r.at; conn = r.conn; status = r.status; reply_id = r.reply_id }

abbrev pub is_for : ℕ → ℕ → Request → Bool
is_for st reply_id r = (r.status == st) && (r.reply_id == reply_id)

-- The context of the request with this status and id.
unfoldable pub lookup : ℕ → ℕ → List Request → Option ℕ
lookup st reply_id [] = none
lookup st reply_id (r ∷ rs) = if is_for st reply_id r then some r.context else lookup st reply_id rs

-- The table without that request.
unfoldable pub answered : ℕ → ℕ → List Request → List Request
answered st reply_id [] = []
answered st reply_id (r ∷ rs) =
    let rest = answered st reply_id rs in if is_for st reply_id r then rs else r ∷ rest

-- No two requests of a status have the same id, and the ids have 16 bits.
abbrev pub Distinct : List Request → Type 0
Distinct [] = Unit {0}
Distinct (r ∷ rs) = (r.reply_id < 65536) × (lookup r.status r.reply_id rs ≡ none) × Distinct rs

-- The timeouts are those of the table in its order, and the maps hold its contexts and no other.
pub record Holds (table : List Request) (s : State) : Type 0 where
  pub timeouts : s.timeouts ≡ map timeout_of table
  pub contexts :
      (st reply_id : ℕ)
      → reply_id < 65536
      → (s.status_at st).reply_contexts reply_id ≡ lookup st reply_id table
  pub distinct : Distinct table

-- Two requests for the same status and id.
is_for-same :
    (st reply_id st' reply_id' : ℕ) (r : Request)
    → is_for st' reply_id' r ≡ true
    → is_for st reply_id r ≡ ((st' == st) && (reply_id' == reply_id))
is_for-same st reply_id st' reply_id' r own = ground arith

is_for-other :
    (st reply_id : ℕ) (x r : Request)
    → is_for r.status r.reply_id x ≡ false
    → is_for st reply_id x ≡ true
    → is_for st reply_id r ≡ false
is_for-other st reply_id x r other own = ground arith

lookup-none :
    (st reply_id : ℕ) (r : Request) (rs : List Request)
    → lookup st reply_id (r ∷ rs) ≡ none
    → (is_for st reply_id r ≡ false) × (lookup st reply_id rs ≡ none)
unfolding lookup
lookup-none st reply_id r rs e = elim (Bool-cases (is_for st reply_id r)) [
  | inl own ↦ absurd (ground arith)
  | inr other ↦ (other, ground arith)
]

lookup_self :
    (st reply_id : ℕ) (r : Request) (rs : List Request)
    → is_for st reply_id r ≡ true
    → lookup r.status r.reply_id rs ≡ none
    → lookup st reply_id rs ≡ none
lookup_self st reply_id r rs own e =
    let same : (r.status ≡ st) × (r.reply_id ≡ reply_id) = ground arith in
    ap₂ (λ a b. lookup a b rs) (sym same.0) (sym same.1) ∙ e

is_for-sym :
    (x r : Request) → is_for r.status r.reply_id x ≡ false → is_for x.status x.reply_id r ≡ false
is_for-sym x r e = ground arith

if-none : (b : Bool) (o : Option ℕ) → o ≡ none → (if b then none else o) ≡ none
if-none true o e = refl
if-none false o e = e

pub lookup-append :
    (st reply_id : ℕ) (table : List Request) (r : Request)
    → lookup r.status r.reply_id table ≡ none
    → lookup st reply_id (table ++ r ∷ [])
      ≡ (if is_for st reply_id r then some r.context else lookup st reply_id table)
unfolding lookup
lookup-append st reply_id [] r fresh = refl
lookup-append st reply_id (x ∷ xs) r fresh =
    let (other, later) = lookup-none r.status r.reply_id x xs fresh in
    elim (Bool-cases (is_for st reply_id x)) [
      | inl own ↦ rw (own, is_for-other st reply_id x r other own)
      | inr not_own ↦ rw not_own (lookup-append st reply_id xs r later)
    ]

pub lookup-answered :
    (st reply_id st' reply_id' : ℕ) (table : List Request)
    → Distinct table
    → lookup st reply_id (answered st' reply_id' table)
      ≡ (if (st' == st) && (reply_id' == reply_id) then none else lookup st reply_id table)
unfolding lookup answered
lookup-answered st reply_id st' reply_id' [] d = ground arith
lookup-answered st reply_id st' reply_id' (r ∷ rs) d = elim (Bool-cases (is_for st' reply_id' r)) [
  | inl own ↦
      rw (own, is_for-same st reply_id st' reply_id' r own)
        (elim (Bool-cases ((st' == st) && (reply_id' == reply_id))) [
          | inl same ↦ rw same (
              lookup_self st reply_id r rs (is_for-same st reply_id st' reply_id' r own ∙ same) d.1)
          | inr apart ↦ rw apart
        ])
  | inr other ↦
      (let rest = lookup-answered st reply_id st' reply_id' rs d.2 in
        rw other (elim (Bool-cases ((st' == st) && (reply_id' == reply_id))) [
          | inl same ↦
              (let not_own : is_for st reply_id r ≡ false = ground arith in
                rw (same, not_own)
                  (rest ∙ ap (λ (b : Bool). if b then none else lookup st reply_id rs) same))
          | inr apart ↦ rw apart (
              ap (λ (o : Option ℕ). if is_for st reply_id r then some r.context else o)
                (rest ∙ ap (λ (b : Bool). if b then none else lookup st reply_id rs) apart))
        ]))
]

-- Where remove_timeout finds the timeout of a request, and what it leaves.
pub timeout_index-lookup :
    (st reply_id context : ℕ) (table : List Request)
    → lookup st reply_id table ≡ some context
    → (i : ℕ) × (timeout_index st reply_id (map timeout_of table) ≡ some i)
      × (remove_at (map timeout_of table) i ≡ map timeout_of (answered st reply_id table))
unfolding lookup answered timeout_index
timeout_index-lookup st reply_id context [] e = absurd cc
timeout_index-lookup st reply_id context (r ∷ rs) e = elim (Bool-cases (is_for st reply_id r)) [
  | inl own ↦ rw own (0, refl, refl)
  | inr other ↦
      (let (i, at, left) = timeout_index-lookup st reply_id context rs (ground arith) in
        rw (other, at) (suc i, refl, ap (λ ts. timeout_of r ∷ ts) left))
]

pub Distinct-append :
    (table : List Request) (r : Request)
    → Distinct table
    → r.reply_id < 65536
    → lookup r.status r.reply_id table ≡ none
    → Distinct (table ++ r ∷ [])
Distinct-append [] r d w fresh = (w, fresh, tt)
Distinct-append (x ∷ xs) r d w fresh =
    let (other, later) = lookup-none r.status r.reply_id x xs fresh in
    (
      d.0,
      lookup-append x.status x.reply_id xs r later
          ∙ ap (λ (b : Bool). if b then some r.context else lookup x.status x.reply_id xs)
              (is_for-sym x r other)
          ∙ d.1,
      Distinct-append xs r d.2 w later,
    )

pub Distinct-answered :
    (st reply_id : ℕ) (table : List Request)
    → Distinct table
    → Distinct (answered st reply_id table)
unfolding answered
Distinct-answered st reply_id [] d = tt
Distinct-answered st reply_id (r ∷ rs) d = elim (Bool-cases (is_for st reply_id r)) [
  | inl own ↦ rw own d.2
  | inr other ↦ rw other (
    d.0,
    lookup-answered r.status r.reply_id st reply_id rs d.2 ∙ if-none _ _ d.1,
    Distinct-answered st reply_id rs d.2,
  )
]

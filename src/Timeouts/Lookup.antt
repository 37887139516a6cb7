-- ===== src/Timeouts/Lookup.antt =====
-- The search of remove_timeout for the timeout that was added last.
use msgbox.Prelude.{
  ℕ, suc, ◌≡◌, refl, ap, true, false, Bool, List, [], ◌∷◌, ◌++◌, Option, none, some, ◌==◌, ◌&&◌,
  ==_refl, length, if◌then◌else◌,
}
use msgbox.State.{Timeout}
use msgbox.Timeouts.{timeout_index}

abbrev behind : Option ℕ → Option ℕ
behind none = none
behind (some i) = some (suc i)

behind-none :
    (b : Bool) (o : Option ℕ) → (if b then some 0 else behind o) ≡ none → (b ≡ false) × (o ≡ none)
behind-none true o e = absurd cc
behind-none false none e = (refl, refl)
behind-none false (some i) e = absurd cc

pub timeout_index-last :
    (ts : List Timeout) (t : Timeout)
    → timeout_index t.status t.reply_id ts ≡ none
    → timeout_index t.status t.reply_id (ts ++ t ∷ []) ≡ some (length ts)
unfolding timeout_index
timeout_index-last [] t e = rw (==_refl t.status, ==_refl t.reply_id) refl
timeout_index-last (x ∷ ts) t e =
    let (other, later) =
      behind-none ((x.status == t.status) && (x.reply_id == t.reply_id))
        (timeout_index t.status t.reply_id ts) e in
    rw other (ap behind (timeout_index-last ts t later))

pub timeout_index-nil : (st reply_id : ℕ) → timeout_index st reply_id [] ≡ none
unfolding timeout_index
timeout_index-nil st reply_id = refl

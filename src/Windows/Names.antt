-- ===== src/Windows/Names.antt =====
-- The names of winsock errors.
use msgbox.Prelude.{
  ℕ, ◌-◌, ◌≡◌, refl, true, Bool-cases, Option-cases, List, some, inl, inr, leb, ◌&&◌, length,
  get_elem?-some, arith, ◌<◌,
}
use msgbox.Windows.{err_str, err_strs, other_err, find_unique, unique_errs}

in_range : (e : ℕ) → (leb 10035 e && leb e 10071) ≡ true → e - 10035 < length err_strs
in_range e h = ground arith

other_err-some : (last_err : ℕ) → (text : List ℕ) × (other_err last_err ≡ some text)
other_err-some e = elim (Bool-cases (leb 10035 e && leb e 10071)) [
  | inl h ↦ rw h (get_elem?-some err_strs (e - 10035) (in_range e h))
  | inr h ↦ rw h (_, refl)
]

-- For every error number err_str returns a text: it never reads outside of the array err_strs.
pub err_str-some : (last_err : ℕ) → (text : List ℕ) × (err_str last_err ≡ some text)
unfolding err_str
err_str-some e = elim (Option-cases (find_unique e unique_errs)) [
  | inl h ↦ rw (err_str, h) (other_err-some e)
  | inr (text, h) ↦ rw (err_str, h) (text, refl)
]

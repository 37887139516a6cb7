-- ===== src/Cstructs.antt =====
-- The interface of the vendored cstructs library (cstructs/array.h, cstructs/map.h), which
-- msgbox only calls. An array is seen as the list of its items and a map as the function from a
-- key to the value stored under it; the operations that change them are parameters, with what
-- their documentation promises.
use msgbox.Prelude.{
  ℕ, Bool, true, List, [], ◌∷◌, ◌++◌, Option, none, some, ◌≡◌, refl, if◌then◌else◌, remove_at,
}

-- The functions that map__new is given.
pub record MapKey (K : Type 0) : Type 0 where
  pub hash : K → ℕ
  pub eq : K → K → Bool

abbrev pub Map : Type 0 → Type 0 → Type 0
Map K V = K → Option V

-- Two keys that the map takes for one must hash alike, or it looks in the wrong bucket.
abbrev pub Agree : {K : Type 0} → MapKey K → K → K → Type 0
Agree key k j = key.eq k j ≡ true → key.hash k ≡ key.hash j

pub record Cstructs : Type 1 where
  -- array__add_item_val and array__new_val
  pub add_item : {A : Type 0} → List A → A → List A
  -- array__remove_item, at the index of the item
  pub remove_item : {A : Type 0} → List A → ℕ → List A
  pub map_set : {K V : Type 0} → MapKey K → Map K V → K → V → Map K V
  pub map_unset : {K V : Type 0} → MapKey K → Map K V → K → Map K V
  pub add_item_lem : {A : Type 0} (xs : List A) (x : A) → add_item xs x ≡ xs ++ x ∷ []
  pub remove_item_lem : {A : Type 0} (xs : List A) (i : ℕ) → remove_item xs i ≡ remove_at xs i
  pub map_set_lem :
      {K V : Type 0} (key : MapKey K) (m : Map K V) (k : K) (v : V) (j : K)
      → Agree key k j
      → map_set key m k v j ≡ (if key.eq k j then some v else m j)
  pub map_unset_lem :
      {K V : Type 0} (key : MapKey K) (m : Map K V) (k j : K)
      → Agree key k j
      → map_unset key m k j ≡ (if key.eq k j then none else m j)

abbrev append_one : {A : Type 0} → List A → A → List A
append_one xs x = xs ++ x ∷ []

abbrev set_at : {K V : Type 0} → MapKey K → Map K V → K → V → Map K V
set_at key m k v j = if key.eq k j then some v else m j

abbrev unset_at : {K V : Type 0} → MapKey K → Map K V → K → Map K V
unset_at key m k j = if key.eq k j then none else m j

-- Plain lists and functions meet the contract.
abbrev pub list_cstructs : Cstructs
list_cstructs = record {
  add_item = λ {A} xs x. append_one xs x;
  remove_item = λ {A} xs i. remove_at xs i;
  map_set = λ {K} {V} key m k v. set_at key m k v;
  map_unset = λ {K} {V} key m k. unset_at key m k;
  add_item_lem = λ {A} xs x. refl;
  remove_item_lem = λ {A} xs i. refl;
  map_set_lem = λ {K} {V} key m k v j a. refl;
  map_unset_lem = λ {K} {V} key m k j a. refl;
}

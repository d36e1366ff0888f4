-- ===== src/Prelude/Hash.antt =====
-- QHash: a map as a list of its entries, with one entry for a key.
use node_qml.Prelude.Tests.{if◌then◌else◌, Bool-cases}
use mathlib.Core.Path.{◌≡◌, refl, ◌∙◌}
use mathlib.Core.Logic.{◌↔◌, inl, inr}
use mathlib.Core.Bool.{Bool, true, false, not, ◌&&◌, ◌||◌}
use mathlib.Core.Option.{Option, none, some}
use mathlib.Core.List.{List, [], ◌∷◌}
use native.Mathlib.Omega.{arith}

module _ {ℓ κ} {K : Type ℓ} {V : Type κ} (eq : K → K → Bool) where
  -- QHash::value, and QHash::contains
  abbrev pub find : List (K × V) → K → Option V
  find [] j = none
  find ((k, v) ∷ t) j = let rest = find t j in if eq k j then some v else rest

  abbrev pub has_key : List (K × V) → K → Bool
  has_key [] j = false
  has_key ((k, v) ∷ t) j = eq k j || has_key t j

  -- QHash::remove
  abbrev pub remove : List (K × V) → K → List (K × V)
  remove [] j = []
  remove ((k, v) ∷ t) j = let rest = remove t j in if eq k j then rest else (k, v) ∷ rest

  -- hash[k] = v
  abbrev pub insert : List (K × V) → K → V → List (K × V)
  insert t k v = (k, v) ∷ remove t k

-- QHash::isEmpty
abbrev pub is_empty_hash {ℓ} : {A : Type ℓ} → List A → Bool
is_empty_hash [] = true
is_empty_hash (x ∷ t) = false

abbrev pub or_else {ℓ} : {A : Type ℓ} → Option A → Option A → Option A
or_else (some v) o = some v
or_else none o = o

pub or_else-none {ℓ} : {A : Type ℓ} (o : Option A) → or_else o none ≡ o
or_else-none none = refl
or_else-none (some v) = refl

module _ {ℓ κ} {K : Type ℓ} {V : Type κ} (eq : K → K → Bool) where
  -- The value that the last pair with a key has.
  abbrev pub last_value : List (K × V) → K → Option V
  last_value [] j = none
  last_value ((k, v) ∷ pairs) j =
      let rest = last_value pairs j in or_else rest (if eq k j then some v else none)

module _ {ℓ κ} {K : Type ℓ} {V : Type κ} (eq : K → K → Bool)
    (eq_iff : (a b : K) → (eq a b ≡ true) ↔ (a ≡ b)) where
  pub has_key-remove :
      (t : List (K × V)) (k j : K) → has_key eq (remove eq t k) j ≡ (not (eq k j) && has_key eq t j)
  has_key-remove [] k j = ground arith
  has_key-remove ((i, v) ∷ t) k j =
      ground (arith, has_key-remove t k j, eq_iff i k, eq_iff i j, eq_iff k j)

  pub has_key-insert :
      (t : List (K × V)) (k j : K) (v : V)
      → has_key eq (insert eq t k v) j ≡ (eq k j || has_key eq t j)
  has_key-insert t k j v = ground (arith, has_key-remove t k j)

  pub find-has_key :
      (t : List (K × V)) (j : K) (v : V) → find eq t j ≡ some v → has_key eq t j ≡ true
  find-has_key [] j v h = ground arith
  find-has_key ((k, w) ∷ t) j v h = ground (arith, find-has_key t j v)

  pub has_key-none : (t : List (K × V)) (j : K) → find eq t j ≡ none → has_key eq t j ≡ false
  has_key-none [] j h = refl
  has_key-none ((k, w) ∷ t) j h = ground (arith, has_key-none t j)

  pub find-insert : (t : List (K × V)) (k : K) (v : V) → find eq (insert eq t k v) k ≡ some v
  find-insert t k v = rw ((eq_iff k k).1 refl) refl

  pub find-remove :
      (t : List (K × V)) (k j : K)
      → find eq (remove eq t k) j ≡ (if eq k j then none else find eq t j)
  find-remove [] k j = ground arith
  find-remove ((i, v) ∷ t) k j =
      ground (arith, find-remove t k j, eq_iff i k, eq_iff i j, eq_iff k j)

  pub find-insert-any :
      (t : List (K × V)) (k j : K) (v : V)
      → find eq (insert eq t k v) j ≡ (if eq k j then some v else find eq t j)
  find-insert-any t k j v = ground (arith, find-remove t k j)

  -- A pair that is inserted before others is found where none of those has its key.
  pub or_else-insert :
      (o : Option V) (t : List (K × V)) (k : K) (v : V) (j : K)
      → or_else o (find eq (insert eq t k v) j)
        ≡ or_else (or_else o (if eq k j then some v else none)) (find eq t j)
  or_else-insert (some w) t k v j = refl
  or_else-insert none t k v j =
      find-insert-any t k j v ∙ elim (Bool-cases (eq k j)) [ inl e ↦ rw e refl | inr e ↦ rw e refl ]

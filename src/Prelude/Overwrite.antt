-- ===== src/Prelude/Overwrite.antt =====
-- A run of elements written over a list, as `memcpy` writes over an array.
use node_qml.Prelude.Lists.{length, get_or, take, drop, sub, get_or-sub, length-sub, get_or_ext}
use Prim.Native.Nat.{ℕ, zero, suc, ◌+◌, ◌≤◌, ◌<◌}
use mathlib.Core.Path.{◌≡◌, refl, ap, ◌∙◌}
use mathlib.Core.Logic.{◌⊎◌, inr}
use mathlib.Core.List.{List, [], ◌∷◌, ◌++◌}
use native.Mathlib.Omega.{arith}

module _ {ℓ} {A : Type ℓ} where
  -- What does not fit is dropped, so a caller checks the bound first.
  abbrev pub overwrite : ℕ → List A → List A → List A
  overwrite i ys [] = []
  overwrite zero [] (x ∷ xs) = x ∷ xs
  overwrite zero (y ∷ ys) (x ∷ xs) = y ∷ overwrite zero ys xs
  overwrite (suc i) ys (x ∷ xs) = x ∷ overwrite i ys xs

  pub length-overwrite : (i : ℕ) (ys xs : List A) → length (overwrite i ys xs) ≡ length xs
  length-overwrite i ys [] = refl
  length-overwrite zero [] (x ∷ xs) = refl
  length-overwrite zero (y ∷ ys) (x ∷ xs) = ap suc (length-overwrite zero ys xs)
  length-overwrite (suc i) ys (x ∷ xs) = ap suc (length-overwrite i ys xs)

  -- Inside the run the new elements, outside it the old.
  pub get_or-overwrite_in :
      (i j : ℕ) (d : A) (ys xs : List A)
      → j < length ys
      → i + length ys ≤ length xs
      → get_or (overwrite i ys xs) (i + j) d ≡ get_or ys j d
  get_or-overwrite_in i j d ys [] h k = absurd (omega arith)
  get_or-overwrite_in zero j d [] (x ∷ xs) h k = absurd (omega arith)
  get_or-overwrite_in zero zero d (y ∷ ys) (x ∷ xs) h k = refl
  get_or-overwrite_in zero (suc j) d (y ∷ ys) (x ∷ xs) h k =
      let e : 0 + suc j ≡ suc (0 + j) = omega arith in
      rw e (get_or-overwrite_in zero j d ys xs (omega arith) (omega arith))
  get_or-overwrite_in (suc i) j d ys (x ∷ xs) h k =
      let e : suc i + j ≡ suc (i + j) = omega arith in
      rw e (get_or-overwrite_in i j d ys xs h (omega arith))

  pub get_or-overwrite_out :
      (i j : ℕ) (d : A) (ys xs : List A)
      → (j < i) ⊎ (i + length ys ≤ j)
      → get_or (overwrite i ys xs) j d ≡ get_or xs j d
  get_or-overwrite_out i j d ys [] h = refl
  get_or-overwrite_out zero j d [] (x ∷ xs) h = refl
  get_or-overwrite_out zero zero d (y ∷ ys) (x ∷ xs) h = absurd (omega arith)
  get_or-overwrite_out zero (suc j) d (y ∷ ys) (x ∷ xs) h =
      get_or-overwrite_out zero j d ys xs (inr (omega arith))
  get_or-overwrite_out (suc i) zero d ys (x ∷ xs) h = refl
  get_or-overwrite_out (suc i) (suc j) d ys (x ∷ xs) h =
      get_or-overwrite_out i j d ys xs (omega arith)

  pub sub-overwrite_self :
      (i : ℕ) (ys xs : List A)
      → i + length ys ≤ length xs
      → sub i (length ys) (overwrite i ys xs) ≡ ys
  sub-overwrite_self i [] xs h = refl
  sub-overwrite_self i (y ∷ ys) xs h =
      get_or_ext y _ _ (length-sub i (suc (length ys)) (overwrite i (y ∷ ys) xs) fits) λ j p.
        get_or-sub i (suc (length ys)) j y (overwrite i (y ∷ ys) xs)
          (omega (arith, length-sub i (suc (length ys)) (overwrite i (y ∷ ys) xs) fits))
        ∙ get_or-overwrite_in i j y (y ∷ ys) xs
            (omega (arith, length-sub i (suc (length ys)) (overwrite i (y ∷ ys) xs) fits)) h
    where
      fits : i + suc (length ys) ≤ length (overwrite i (y ∷ ys) xs)
      fits = omega (arith, length-overwrite i (y ∷ ys) xs)

  pub drop-overwrite :
      (b i : ℕ) (ys xs : List A) → drop b (overwrite (b + i) ys xs) ≡ overwrite i ys (drop b xs)
  drop-overwrite zero i ys xs = let e : 0 + i ≡ i = omega arith in rw e
  drop-overwrite (suc b) i ys [] = refl
  drop-overwrite (suc b) i ys (x ∷ xs) =
      let e : suc b + i ≡ suc (b + i) = omega arith in rw e (drop-overwrite b i ys xs)

  pub take-overwrite :
      (n i : ℕ) (ys xs : List A)
      → i + length ys ≤ n
      → take n (overwrite i ys xs) ≡ overwrite i ys (take n xs)
  take-overwrite zero i ys [] h = refl
  take-overwrite zero zero [] (x ∷ xs) h = refl
  take-overwrite zero zero (y ∷ ys) (x ∷ xs) h = absurd (omega arith)
  take-overwrite zero (suc i) ys (x ∷ xs) h = absurd (omega arith)
  take-overwrite (suc n) i ys [] h = refl
  take-overwrite (suc n) zero [] (x ∷ xs) h = refl
  take-overwrite (suc n) zero (y ∷ ys) (x ∷ xs) h =
      ap (λ t. y ∷ t) (take-overwrite n zero ys xs (omega arith))
  take-overwrite (suc n) (suc i) ys (x ∷ xs) h =
      ap (λ t. x ∷ t) (take-overwrite n i ys xs (omega arith))

  -- A write inside a part of a list is a write to that part.
  pub sub-overwrite :
      (b i n : ℕ) (ys xs : List A)
      → i + length ys ≤ n
      → sub b n (overwrite (b + i) ys xs) ≡ overwrite i ys (sub b n xs)
  sub-overwrite b i n ys xs h = rw (drop-overwrite b i ys xs) (take-overwrite n i ys (drop b xs) h)

  pub overwrite_nil : (i : ℕ) (xs : List A) → overwrite i [] xs ≡ xs
  overwrite_nil i [] = refl
  overwrite_nil zero (x ∷ xs) = refl
  overwrite_nil (suc i) (x ∷ xs) = ap (λ t. x ∷ t) (overwrite_nil i xs)

  -- One element, and the rest behind it.
  pub overwrite_cons :
      (i : ℕ) (y : A) (ys xs : List A)
      → overwrite (i + 1) ys (overwrite i (y ∷ []) xs) ≡ overwrite i (y ∷ ys) xs
  overwrite_cons i y ys [] = refl
  overwrite_cons zero y ys (x ∷ xs) = ap (λ t. y ∷ overwrite 0 ys t) (overwrite_nil 0 xs)
  overwrite_cons (suc i) y ys (x ∷ xs) =
      let e : suc i + 1 ≡ suc (i + 1) = omega arith in
      rw e (ap (λ t. x ∷ t) (overwrite_cons i y ys xs))

  -- A run over a whole list.
  pub overwrite_all : (ys xs : List A) → length ys ≡ length xs → overwrite 0 ys xs ≡ ys
  overwrite_all [] [] e = refl
  overwrite_all (y ∷ ys) [] e = absurd (omega arith)
  overwrite_all [] (x ∷ xs) e = absurd (omega arith)
  overwrite_all (y ∷ ys) (x ∷ xs) e = ap (λ t. y ∷ t) (overwrite_all ys xs (omega arith))

  -- A second run right behind the first.
  pub overwrite-append :
      (i : ℕ) (ys zs xs : List A)
      → overwrite (i + length ys) zs (overwrite i ys xs) ≡ overwrite i (ys ++ zs) xs
  overwrite-append i ys zs [] = refl
  overwrite-append zero [] zs (x ∷ xs) = ap (λ t. overwrite 0 zs t) (overwrite_nil 0 (x ∷ xs))
  overwrite-append zero (y ∷ ys) zs (x ∷ xs) =
      let e : 0 + suc (length ys) ≡ suc (0 + length ys) = omega arith in
      rw e (ap (λ t. y ∷ t) (overwrite-append 0 ys zs xs))
  overwrite-append (suc i) ys zs (x ∷ xs) =
      let e : suc i + length ys ≡ suc (i + length ys) = omega arith in
      rw e (ap (λ t. x ∷ t) (overwrite-append i ys zs xs))

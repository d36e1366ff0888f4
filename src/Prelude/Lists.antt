-- ===== src/Prelude/Lists.antt =====
-- Lists measured and indexed by native numbers, under the library's names.
use Prim.Native.Nat.{ℕ, zero, suc, ◌+◌, ◌-◌, ◌≤◌, ◌<◌, min}
use mathlib.Core.Path.{◌≡◌, refl, ap, ap₂, ◌∙◌}
use mathlib.Core.List.{List, [], ◌∷◌, ◌++◌, map}
use native.Mathlib.Omega.{arith}

module _ {ℓ} {A : Type ℓ} where
  abbrev pub length : List A → ℕ
  length [] = 0
  length (x ∷ xs) = suc (length xs)

  abbrev pub get_or : List A → ℕ → A → A
  get_or [] i d = d
  get_or (x ∷ xs) zero d = x
  get_or (x ∷ xs) (suc i) d = get_or xs i d

  abbrev pub take : ℕ → List A → List A
  take zero xs = []
  take (suc n) [] = []
  take (suc n) (x ∷ xs) = x ∷ take n xs

  abbrev pub drop : ℕ → List A → List A
  drop zero xs = xs
  drop (suc n) [] = []
  drop (suc n) (x ∷ xs) = drop n xs

  abbrev pub replicate : ℕ → A → List A
  replicate zero a = []
  replicate (suc n) a = a ∷ replicate n a

  -- The `n` elements from index `i` on.
  abbrev pub sub : ℕ → ℕ → List A → List A
  sub i n xs = take n (drop i xs)

  abbrev pub All {κ} : (A → Type κ) → List A → Type κ
  All P [] = Unit
  All P (x ∷ xs) = P x × All P xs

module _ {ℓ} {A : Type ℓ} where
  pub length-append : (xs ys : List A) → length (xs ++ ys) ≡ length xs + length ys
  length-append [] ys = omega arith
  length-append (x ∷ xs) ys = omega (arith, length-append xs ys)

  pub length-take : (n : ℕ) (xs : List A) → length (take n xs) ≡ min n (length xs)
  length-take zero xs = omega arith
  length-take (suc n) [] = omega arith
  length-take (suc n) (x ∷ xs) = omega (arith, length-take n xs)

  pub length-drop : (n : ℕ) (xs : List A) → length (drop n xs) ≡ length xs - n
  length-drop zero xs = omega arith
  length-drop (suc n) [] = omega arith
  length-drop (suc n) (x ∷ xs) = omega (arith, length-drop n xs)

  pub length-replicate : (n : ℕ) (a : A) → length (replicate n a) ≡ n
  length-replicate zero a = refl
  length-replicate (suc n) a = ap suc (length-replicate n a)

  pub length-map {κ} : {B : Type κ} (xs : List A) (f : A → B) → length (map f xs) ≡ length xs
  length-map [] f = refl
  length-map (x ∷ xs) f = ap suc (length-map xs f)

  pub nil_of_length : (xs : List A) → length xs ≡ 0 → xs ≡ []
  nil_of_length [] e = refl
  nil_of_length (x ∷ xs) e = absurd (omega arith)

  pub take_all : (n : ℕ) (xs : List A) → length xs ≤ n → take n xs ≡ xs
  take_all zero [] h = refl
  take_all zero (x ∷ xs) h = absurd (omega arith)
  take_all (suc n) [] h = refl
  take_all (suc n) (x ∷ xs) h = ap (λ t. x ∷ t) (take_all n xs (omega arith))

  pub take-take : (n m : ℕ) (xs : List A) → n ≤ m → take n (take m xs) ≡ take n xs
  take-take zero m xs h = refl
  take-take (suc n) zero xs h = absurd (omega arith)
  take-take (suc n) (suc m) [] h = refl
  take-take (suc n) (suc m) (x ∷ xs) h = ap (λ t. x ∷ t) (take-take n m xs (omega arith))

  pub take-append : (xs ys : List A) → take (length xs) (xs ++ ys) ≡ xs
  take-append [] ys = refl
  take-append (x ∷ xs) ys = ap (λ t. x ∷ t) (take-append xs ys)

module _ {ℓ} {A : Type ℓ} where
  pub length-sub : (i n : ℕ) (xs : List A) → i + n ≤ length xs → length (sub i n xs) ≡ n
  length-sub i n xs h = omega (arith, length-take n (drop i xs), length-drop i xs)

  pub get_or-drop : (k i : ℕ) (d : A) (xs : List A) → get_or (drop k xs) i d ≡ get_or xs (k + i) d
  get_or-drop zero i d xs = let e : 0 + i ≡ i = omega arith in rw e
  get_or-drop (suc k) i d [] = refl
  get_or-drop (suc k) i d (x ∷ xs) =
      let e : suc k + i ≡ suc (k + i) = omega arith in rw e (get_or-drop k i d xs)

  pub get_or-take : (n i : ℕ) (d : A) (xs : List A) → i < n → get_or (take n xs) i d ≡ get_or xs i d
  get_or-take zero i d xs h = absurd (omega arith)
  get_or-take (suc n) i d [] h = refl
  get_or-take (suc n) zero d (x ∷ xs) h = refl
  get_or-take (suc n) (suc i) d (x ∷ xs) h = get_or-take n i d xs (omega arith)

  pub get_or-sub :
      (k n i : ℕ) (d : A) (xs : List A) → i < n → get_or (sub k n xs) i d ≡ get_or xs (k + i) d
  get_or-sub k n i d xs h = get_or-take n i d (drop k xs) h ∙ get_or-drop k i d xs

  pub get_or_ext :
      (d : A) (xs ys : List A)
      → length xs ≡ length ys
      → ((i : ℕ) → i < length xs → get_or xs i d ≡ get_or ys i d)
      → xs ≡ ys
  get_or_ext d [] [] e h = refl
  get_or_ext d [] (y ∷ ys) e h = absurd (omega arith)
  get_or_ext d (x ∷ xs) [] e h = absurd (omega arith)
  get_or_ext d (x ∷ xs) (y ∷ ys) e h =
      ap₂ ◌∷◌ (h 0 (omega arith))
        (get_or_ext d xs ys (omega arith) (λ i p. h (suc i) (omega arith)))

  pub drop-drop : (i j : ℕ) (xs : List A) → drop i (drop j xs) ≡ drop (i + j) xs
  drop-drop i zero xs = let e : i + 0 ≡ i = omega arith in rw e
  drop-drop zero (suc j) xs = let e : 0 + suc j ≡ suc j = omega arith in rw e
  drop-drop (suc i) (suc j) [] = let e : suc i + suc j ≡ suc (suc i + j) = omega arith in rw e
  drop-drop (suc i) (suc j) (x ∷ xs) =
      let e : suc i + suc j ≡ suc (suc i + j) = omega arith in rw e (drop-drop (suc i) j xs)

  pub take-drop-take :
      (i n m : ℕ) (xs : List A) → i + n ≤ m → take n (drop i (take m xs)) ≡ take n (drop i xs)
  take-drop-take zero n m xs h = take-take n m xs (omega arith)
  take-drop-take (suc i) n zero xs h = absurd (omega arith)
  take-drop-take (suc i) n (suc m) [] h = refl
  take-drop-take (suc i) n (suc m) (x ∷ xs) h = take-drop-take i n m xs (omega arith)

  -- A part of a part.
  pub sub-sub : (i n j m : ℕ) (xs : List A) → i + n ≤ m → sub i n (sub j m xs) ≡ sub (i + j) n xs
  sub-sub i n j m xs h = take-drop-take i n m (drop j xs) h ∙ ap (take n) (drop-drop i j xs)

module _ {ℓ} {A : Type ℓ} where
  pub drop_all : (n : ℕ) (xs : List A) → length xs ≤ n → drop n xs ≡ []
  drop_all zero [] h = refl
  drop_all (suc n) [] h = refl
  drop_all zero (x ∷ xs) h = absurd (omega arith)
  drop_all (suc n) (x ∷ xs) h = drop_all n xs (omega arith)

  pub drop_step :
      (i : ℕ) (xs : List A) (d : A) → i < length xs → drop i xs ≡ get_or xs i d ∷ drop (suc i) xs
  drop_step i [] d h = absurd (omega arith)
  drop_step zero (x ∷ xs) d h = refl
  drop_step (suc i) (x ∷ xs) d h = drop_step i xs d (omega arith)

  pub drop_tail : (i : ℕ) (xs ys : List A) (x : A) → drop i xs ≡ x ∷ ys → drop (suc i) xs ≡ ys
  drop_tail zero [] ys x h = absurd (ground arith)
  drop_tail zero (z ∷ xs) ys x h = ground arith
  drop_tail (suc i) [] ys x h = absurd (ground arith)
  drop_tail (suc i) (z ∷ xs) ys x h = drop_tail i xs ys x h

  pub take_snoc :
      (n : ℕ) (xs ys : List A) (x : A)
      → drop n xs ≡ x ∷ ys
      → take (suc n) xs ≡ take n xs ++ (x ∷ [])
  take_snoc zero [] ys x h = absurd (ground arith)
  take_snoc (suc n) [] ys x h = absurd (ground arith)
  take_snoc zero (z ∷ xs) ys x h = ground arith
  take_snoc (suc n) (z ∷ xs) ys x h = ap (λ t. z ∷ t) (take_snoc n xs ys x h)

  pub take-append-drop : (n : ℕ) (xs : List A) → xs ≡ take n xs ++ drop n xs
  take-append-drop zero xs = refl
  take-append-drop (suc n) [] = refl
  take-append-drop (suc n) (x ∷ xs) = ap (λ t. x ∷ t) (take-append-drop n xs)

  pub append_assoc : (xs ys zs : List A) → (xs ++ ys) ++ zs ≡ xs ++ (ys ++ zs)
  append_assoc [] ys zs = refl
  append_assoc (x ∷ xs) ys zs = ap (λ t. x ∷ t) (append_assoc xs ys zs)

  pub append-nil : (xs : List A) → xs ++ [] ≡ xs
  append-nil [] = refl
  append-nil (x ∷ xs) = ap (λ t. x ∷ t) (append-nil xs)

-- ===== src/Buffer/Compare/Order.antt =====
-- `compare` is the lexicographic order of the bytes that two Buffers show.
use node_qml.Prelude.{
  take-take, drop, ℕ, zero, suc, ◌+◌, ◌≤◌, min, ◌≡◌, refl, ◌↔◌, Bool, true, some, List, [], ◌∷◌,
  ltb, if◌then◌else◌, ℤ, pos, negsuc, ◌≤ℤ◌, arith, length, take, ap, ◌∙◌,
}
use node_qml.Memory.{Bytes, Heap, ok, bytes_at}
use node_qml.Slice.{Slice, read}
use node_qml.Host.{V4, argument}
use node_qml.Buffer.{view, Fits}
use node_qml.Buffer.View.{read_lem, length-view}
use node_qml.Buffer.Compare.{
  memcmp, compare_sizes, decide_by, is_zero, compare_slices, method_equals,
}

-- The order of a dictionary: the first difference decides, and a proper prefix comes first.
abbrev pub lex : Bytes → Bytes → ℤ
lex [] [] = pos 0
lex [] (y ∷ ys) = negsuc 0
lex (x ∷ xs) [] = pos 1
lex (x ∷ xs) (y ∷ ys) = if ltb x y then negsuc 0 else if ltb y x then pos 1 else lex xs ys

-- The opposite order.
abbrev pub flip : ℤ → ℤ
flip (pos zero) = pos 0
flip (pos (suc n)) = negsuc n
flip (negsuc n) = pos (suc n)

lex_sizes :
    (xs ys : Bytes) (n : ℕ)
    → min (length xs) (length ys) ≡ n
    → decide_by (memcmp (take n xs) (take n ys)) (compare_sizes (length xs) (length ys)) ≡ lex xs ys
lex_sizes [] [] zero e = ground arith
lex_sizes [] (y ∷ ys) zero e = ground arith
lex_sizes (x ∷ xs) [] zero e = ground arith
lex_sizes (x ∷ xs) (y ∷ ys) zero e = absurd (omega arith)
lex_sizes [] ys (suc n) e = absurd (omega arith)
lex_sizes (x ∷ xs) [] (suc n) e = absurd (omega arith)
lex_sizes (x ∷ xs) (y ∷ ys) (suc n) e = ground (arith, lex_sizes xs ys n)

pub lex-flip : (xs ys : Bytes) → lex ys xs ≡ flip (lex xs ys)
lex-flip [] [] = refl
lex-flip [] (y ∷ ys) = refl
lex-flip (x ∷ xs) [] = refl
lex-flip (x ∷ xs) (y ∷ ys) = ground (arith, lex-flip xs ys)

pub lex-eq : (xs ys : Bytes) → (lex xs ys ≡ pos 0) ↔ (xs ≡ ys)
lex-eq [] [] = (λ _. refl, λ _. refl)
lex-eq [] (y ∷ ys) = (λ e. cc, λ e. cc)
lex-eq (x ∷ xs) [] = (λ e. cc, λ e. cc)
lex-eq (x ∷ xs) (y ∷ ys) = (λ e. ground (arith, lex-eq xs ys), λ e. ground (arith, lex-eq xs ys))

lex_trans : (xs ys zs : Bytes) → lex xs ys ≤ℤ pos 0 → lex ys zs ≤ℤ pos 0 → lex xs zs ≤ℤ pos 0
lex_trans [] [] zs h k = k
lex_trans [] (y ∷ ys) [] h k = ground arith
lex_trans [] (y ∷ ys) (z ∷ zs) h k = ground arith
lex_trans (x ∷ xs) [] zs h k = ground arith
lex_trans (x ∷ xs) (y ∷ ys) [] h k = ground arith
lex_trans (x ∷ xs) (y ∷ ys) (z ∷ zs) h k = ground (arith, lex_trans xs ys zs)

lex_lengths :
    (xs ys : Bytes) (m n : ℕ)
    → length xs ≡ m
    → length ys ≡ n
    → decide_by (memcmp (take (min m n) xs) (take (min m n) ys)) (compare_sizes m n) ≡ lex xs ys
lex_lengths xs ys m n em en = rw (← em, ← en) (lex_sizes xs ys _ refl)

is_zero-eq : (n : ℤ) → is_zero n ≡ true → n ≡ pos 0
is_zero-eq (pos zero) e = refl
is_zero-eq (pos (suc n)) e = cc
is_zero-eq (negsuc n) e = cc

-- A read from the start of a Buffer is the start of what it shows.
pub read_front :
    (s : Slice) (n : ℕ) (h : Heap) → Fits h s → n ≤ s.size → read s 0 n h ≡ ok (take n (view h s)) h
read_front s n h fits inside =
    let e : s.begin + 0 ≡ s.begin = omega arith in
    rw
      (
        read_lem s 0 n h fits (omega arith),
        take-take n s.size (drop s.begin (bytes_at h s.array)) inside,
        e,
      )
      refl

-- `compare` of two Buffers is the lexicographic order of the bytes that they show, and reads nothing
-- out of bounds.
pub compare_slices-eq-lex :
    (a b : Slice) (h : Heap)
    → Fits h a
    → Fits h b
    → compare_slices a b h ≡ ok (lex (view h a) (view h b)) h
unfolding compare_slices
compare_slices-eq-lex a b h fa fb =
    rw
      (
        read_front a (min a.size b.size) h fa (omega arith),
        read_front b (min a.size b.size) h fb (omega arith),
      )
      (ap (λ t. ok t h)
        (lex_lengths (view h a) (view h b) a.size b.size (length-view h a fa) (length-view h b fb)))

-- Two Buffers are equal exactly when they show the same bytes.
method_equals-view :
    (v4 : V4) (a b : Slice) (args : List v4.Value) (h : Heap)
    → v4.as_buffer (argument v4 args 0) ≡ some b
    → Fits h a
    → Fits h b
    → (e : Bool) × (method_equals v4 (some a) args h ≡ ok e h)
      × ((e ≡ true) ↔ (view h a ≡ view h b))
unfolding method_equals
method_equals-view v4 a b args h other fa fb = (
  is_zero (lex (view h a) (view h b)),
  rw (other, compare_slices-eq-lex a b h fa fb) refl,
  (
    λ e. (lex-eq (view h a) (view h b)).0 (is_zero-eq (lex (view h a) (view h b)) e),
    λ e. ap is_zero ((lex-eq (view h a) (view h b)).1 e),
  ),
)

-- `a.compare(b)` and `b.compare(a)` are opposite, and the order is transitive: a Buffer that is not
-- after a second one, which is not after a third, is not after the third.
compare_order :
    (a b c : Slice) (h : Heap)
    → Fits h a
    → Fits h b
    → Fits h c
    → (x y z : ℤ) × (compare_slices a b h ≡ ok x h)
      × (compare_slices b a h ≡ ok (flip x) h)
      × (compare_slices b c h ≡ ok y h)
      × (compare_slices a c h ≡ ok z h)
      × (x ≤ℤ pos 0 → y ≤ℤ pos 0 → z ≤ℤ pos 0)
compare_order a b c h fa fb fc = (
  lex (view h a) (view h b),
  lex (view h b) (view h c),
  lex (view h a) (view h c),
  compare_slices-eq-lex a b h fa fb,
  compare_slices-eq-lex b a h fb fa ∙ ap (λ t. ok t h) (lex-flip (view h a) (view h b)),
  compare_slices-eq-lex b c h fb fc,
  compare_slices-eq-lex a c h fa fc,
  lex_trans (view h a) (view h b) (view h c),
)

-- ===== src/Slice/Refs.antt =====
-- The reference counts of src/nodeqml/util/qarraydataslice.h, against the slices that are alive.
use node_qml.Prelude.{
  ℕ, zero, suc, ◌+◌, ◌-◌, ◌<◌, ◌≡◌, refl, ◌≢◌, Option, none, some, List, [], ◌∷◌, arith, ◌==◌,
  if◌then◌else◌, Option-cases, inl, inr,
}
use node_qml.Memory.{ArrayData, Heap, ok, put_cell, bytes_at}
use node_qml.Slice.{Slice, null_slice, clear_data, set_data, copied_size, from_slice, destroy}

abbrev pub points_to : ℕ → Option ℕ → ℕ
points_to a none = 0
points_to a (some b) = if b == a then 1 else 0

-- How many of the living slices hold the array at address `a`.
abbrev pub uses : ℕ → List Slice → ℕ
uses a [] = 0
uses a (s ∷ alive) = points_to a s.array + uses a alive

abbrev pub refs_of : Option ArrayData → ℕ
refs_of none = 0
refs_of (some c) = c.ref

-- A cell in use has a reference left.
abbrev pub IsHeld : Option ArrayData → Type 0
IsHeld none = Unit
IsHeld (some c) = 0 < c.ref

-- The counts are the numbers of living slices, and nothing unused is kept.
pub record IsCounted (h : Heap) (alive : List Slice) : Type 0 where
  pub counted : (a : ℕ) → refs_of (h.cells a) ≡ uses a alive
  pub held : (a : ℕ) → IsHeld (h.cells a)

-- The heap after one reference to the array `c` at `a` was given up.
abbrev pub dropped : Heap → ℕ → ArrayData → Heap
dropped h a c =
    if c.ref == 1
    then put_cell (put_cell h a (some (record c { ref = c.ref - 1 }))) a none
    else put_cell h a (some (record c { ref = c.ref - 1 }))

pub clear_data_lem :
    (s : Slice) (a : ℕ) (c : ArrayData) (h : Heap)
    → s.array ≡ some a
    → h.cells a ≡ some c
    → clear_data s h ≡ ok null_slice (dropped h a c)
unfolding clear_data
clear_data_lem s a c h e k = ground arith

pub cell_of_use : (o : Option ArrayData) → 0 < refs_of o → (c : ArrayData) × (o ≡ some c)
cell_of_use none p = absurd (omega arith)
cell_of_use (some c) p = (c, refl)

pub dropped-IsCounted :
    (s : Slice) (alive : List Slice) (a : ℕ) (c : ArrayData) (h : Heap)
    → s.array ≡ some a
    → h.cells a ≡ some c
    → IsCounted h (s ∷ alive)
    → IsCounted (dropped h a c) alive
dropped-IsCounted s alive a c h e k w = record {
  counted = λ b. ground (arith, w.counted b, w.held b);
  held = λ b. ground (arith, w.counted b, w.held b);
}

-- The bytes of the arrays that stay in use are kept.
abbrev pub KeepsBytes : List Slice → Heap → Heap → Type 0
KeepsBytes alive h h' = (b : ℕ) → 0 < uses b alive → bytes_at h' (some b) ≡ bytes_at h (some b)

-- Clearing one of the living slices never faults.
pub clear_data-IsCounted :
    (s : Slice) (alive : List Slice) (h : Heap)
    → IsCounted h (s ∷ alive)
    → (t : Slice) × (h' : Heap) × (clear_data s h ≡ ok t h')
      × IsCounted h' alive
      × KeepsBytes alive h h'
unfolding clear_data
clear_data-IsCounted s alive h w = elim (Option-cases s.array) [
  | inl e ↦ (
    s,
    h,
    ground arith,
    record { counted = λ b. ground (arith, w.counted b); held = w.held },
    λ b p. refl,
  )
  | inr (a, e) ↦
      let (c, k) = cell_of_use (h.cells a) (ground (arith, w.counted a)) in
      (
        null_slice,
        dropped h a c,
        clear_data_lem s a c h e k,
        dropped-IsCounted s alive a c h e k w,
        λ b p. ground (arith, w.counted b),
      )
]

-- Destroying one of the living slices never faults, whatever its array. The counts stay right, the
-- bytes of every array that another slice holds stay, and every array that no slice holds is freed.
pub destroy-IsCounted :
    (s : Slice) (alive : List Slice) (h : Heap)
    → IsCounted h (s ∷ alive)
    → (h' : Heap) × (destroy s h ≡ ok tt h')
      × IsCounted h' alive
      × KeepsBytes alive h h'
      × ((b : ℕ) → uses b alive ≡ 0 → h'.cells b ≡ none)
unfolding destroy
destroy-IsCounted s alive h w =
    let (t, h', e, w', same) = clear_data-IsCounted s alive h w in
    (h', ground arith, w', same, λ b p. ground (arith, w'.counted b, w'.held b))

-- The heap after one more reference to the array `c` at `a` was taken.
abbrev pub taken : Heap → ℕ → ArrayData → Heap
taken h a c = put_cell h a (some (record c { ref = c.ref + 1 }))

abbrev pub whole_or : ℕ → Option ℕ → ℕ
whole_or n none = n
whole_or n (some m) = m

set_data_lem :
    (a offset : ℕ) (size : Option ℕ) (c : ArrayData) (h : Heap)
    → h.cells a ≡ some c
    → set_data null_slice a offset size h
      ≡ ok (record { array = some a; begin = offset; size = whole_or c.size size }) (taken h a c)
unfolding set_data
set_data_lem a offset none c h k = ground arith
set_data_lem a offset (some n) c h k = ground arith

pub taken-IsCounted :
    (t : Slice) (alive : List Slice) (a : ℕ) (c : ArrayData) (h : Heap)
    → t.array ≡ some a
    → h.cells a ≡ some c
    → IsCounted h alive
    → IsCounted (taken h a c) (t ∷ alive)
taken-IsCounted t alive a c h e k w = record {
  counted = λ b. ground (arith, w.counted b, w.held b);
  held = λ b. ground (arith, w.counted b, w.held b);
}

-- What a copy of a part of a slice is, where the copy takes a reference.
abbrev pub part : Slice → ℕ → ℕ → ℕ → Option ℕ → Slice
part s a whole offset size = record {
  array = some a;
  begin = offset + s.begin;
  size = whole_or whole (copied_size s size);
}

pub from_slice-some :
    (s : Slice) (offset : ℕ) (size : Option ℕ) (a : ℕ) (c : ArrayData) (h : Heap)
    → s.array ≡ some a
    → h.cells a ≡ some c
    → size ≢ some 0
    → from_slice s offset size h ≡ ok (part s a c.size offset size) (taken h a c)
unfolding from_slice
from_slice-some s offset none a c h e k ne =
    ground (arith, set_data_lem a (offset + s.begin) (copied_size s none) c h k)
from_slice-some s offset (some zero) a c h e k ne = absurd (ne refl)
from_slice-some s offset (some (suc n)) a c h e k ne =
    ground (arith, set_data_lem a (offset + s.begin) (some (suc n)) c h k)

-- Copying a part of a living slice never faults; the counts stay right with the copy among the
-- living slices, and no byte of any array changes.
pub from_slice-IsCounted :
    (s : Slice) (alive : List Slice) (offset : ℕ) (size : Option ℕ) (h : Heap)
    → IsCounted h (s ∷ alive)
    → (t : Slice) × (h' : Heap) × (from_slice s offset size h ≡ ok t h')
      × IsCounted h' (t ∷ s ∷ alive)
      × ((b : ℕ) → bytes_at h' (some b) ≡ bytes_at h (some b))
unfolding from_slice
from_slice-IsCounted s alive offset (some zero) h w = (
  null_slice,
  h,
  refl,
  record { counted = λ b. ground (arith, w.counted b); held = w.held },
  λ b. refl,
)
from_slice-IsCounted s alive offset size h w = elim (Option-cases s.array) [
  | inl e ↦ (
    null_slice,
    h,
    ground arith,
    record { counted = λ b. ground (arith, w.counted b); held = w.held },
    λ b. refl,
  )
  | inr (a, e) ↦
      let (c, k) = cell_of_use (h.cells a) (ground (arith, w.counted a)) in
      (
        part s a c.size offset size,
        taken h a c,
        from_slice-some s offset size a c h e k (λ p. cc),
        taken-IsCounted (part s a c.size offset size) (s ∷ alive) a c h refl k w,
        λ b. ground arith,
      )
]

-- The order of the living slices does not matter.
pub IsCounted-swap :
    (s t : Slice) (alive : List Slice) (h : Heap)
    → IsCounted h (s ∷ t ∷ alive)
    → IsCounted h (t ∷ s ∷ alive)
IsCounted-swap s t alive h w = record { counted = λ b. omega (arith, w.counted b); held = w.held }

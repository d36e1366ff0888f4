-- ===== src/Buffer/Alloc.antt =====
-- The constructors Buffer(size), Buffer(array) and allocateData of src/nodeqml/types/buffer.cpp.
use node_qml.Prelude.{
  ℕ, zero, suc, ◌+◌, ◌≤◌, ◌<◌, ◌≡◌, refl, ◌≢◌, ◌⊎◌, inl, inr, false, true, none, some, [], ◌∷◌,
  arith, length, ltb, ◌==◌, if◌then◌else◌, Bool-cases, overwrite, length-overwrite, ap,
}
use node_qml.Memory.{ArrayData, Heap, Outcome, ok, throw, fault, hang, put_cell}
use node_qml.Slice.{Slice, null_slice}
use node_qml.Host.{Machine, fresh_bytes}
use node_qml.Buffer.{Fits, max_length, too_large, out_of_memory, allocate_data, new_buffer}

pub length-fresh_bytes : (machine : Machine) (n : ℕ) → length (fresh_bytes machine n) ≡ n
length-fresh_bytes machine zero = refl
length-fresh_bytes machine (suc n) = ap suc (length-fresh_bytes machine n)

-- A new Buffer has no array, or the one that was the next to be allocated.
abbrev pub IsPlaced : Heap → Slice → Type 0
IsPlaced h s = (s.array ≡ none) ⊎ (s.array ≡ some h.next)

-- What an allocation of `n` bytes may come to. It never faults and never hangs.
abbrev pub Allocated : Machine → ℕ → Heap → Outcome Slice → Type 0
Allocated machine n h (ok s h') =
    (n ≤ max_length)
    × (s.size ≡ n)
    × Fits h' s
    × ((b : ℕ) → b ≢ h.next → h'.cells b ≡ h.cells b)
    × IsPlaced h s
Allocated machine n h (throw e h') =
    (h' ≡ h)
    × ((max_length < n) × (e ≡ too_large)
        ⊎ (n ≤ max_length) × (machine.can_allocate (n + 1) ≡ false) × (e ≡ out_of_memory))
Allocated machine n h fault = ⊥
Allocated machine n h hang = ⊥

-- The array of a new Buffer of `n` bytes: those that nothing set, and a zero after them.
abbrev pub new_array : Machine → ℕ → ℕ → ArrayData
new_array machine n refs = record {
  ref = refs;
  size = n;
  bytes = overwrite n (0 ∷ []) (fresh_bytes machine (n + 1));
}

abbrev pub after_allocate : Machine → ℕ → Heap → Heap
after_allocate machine n h = record {
  next = h.next + 1;
  cells = λ k.
      if k == h.next
      then some (record { ref = 1; size = 0; bytes = fresh_bytes machine (n + 1) })
      else h.cells k;
}

-- The heap with the array of a new Buffer in it.
abbrev pub with_array : Machine → ℕ → Heap → Heap
with_array machine n h =
    let a = h.next in
    let sized =
      put_cell (after_allocate machine n h) a
        (some (record { ref = 1; size = n; bytes = fresh_bytes machine (n + 1) })) in
    put_cell
      (put_cell (put_cell sized a (some (new_array machine n 1))) a (some (new_array machine n 2)))
      a (some (new_array machine n 1))

abbrev pub whole : ℕ → ℕ → Slice
whole a n = record { array = some a; begin = 0; size = n }

allocate_data_lem :
    (machine : Machine) (n : ℕ) (h : Heap)
    → machine.can_allocate (suc n + 1) ≡ true
    → allocate_data machine (suc n) h
      ≡ ok (some (whole h.next (suc n))) (with_array machine (suc n) h)
unfolding allocate_data
allocate_data_lem machine n h room = ground (arith, length-fresh_bytes machine (suc n + 1))

pub new_buffer_room :
    (machine : Machine) (n : ℕ) (h : Heap)
    → ltb max_length (suc n) ≡ false
    → machine.can_allocate (suc n + 1) ≡ true
    → new_buffer machine (suc n) h ≡ ok (whole h.next (suc n)) (with_array machine (suc n) h)
unfolding new_buffer
new_buffer_room machine n h small room = rw (small, allocate_data_lem machine n h room)

pub new_buffer_full :
    (machine : Machine) (n : ℕ) (h : Heap)
    → ltb max_length (suc n) ≡ false
    → machine.can_allocate (suc n + 1) ≡ false
    → new_buffer machine (suc n) h ≡ throw out_of_memory h
unfolding new_buffer
new_buffer_full machine n h small full = ground arith

pub new_buffer_large :
    (machine : Machine) (n : ℕ) (h : Heap)
    → ltb max_length (suc n) ≡ true
    → new_buffer machine (suc n) h ≡ throw too_large h
unfolding new_buffer
new_buffer_large machine n h large = ground arith

pub new_buffer_zero : (machine : Machine) (h : Heap) → new_buffer machine 0 h ≡ ok null_slice h
unfolding new_buffer
new_buffer_zero machine h = refl

-- Asking for `n` bytes: a Buffer of `n` bytes in bounds, on a new array or on none, with the arrays
-- that were there left alone; or, above the maximum or without memory, the RangeError and an unchanged heap.
pub new_buffer-Allocated :
    (machine : Machine) (n : ℕ) (h : Heap) → Allocated machine n h (new_buffer machine n h)
new_buffer-Allocated machine zero h =
    rw (new_buffer_zero machine h) (omega arith, refl, omega arith, λ b ne. refl, inl refl)
new_buffer-Allocated machine (suc n) h = elim (Bool-cases (ltb max_length (suc n))) [
  | inl large ↦ rw (new_buffer_large machine n h large) (refl, inl (ground arith, refl))
  | inr small ↦ elim (Bool-cases (machine.can_allocate (suc n + 1))) [
    | inl room ↦ rw (new_buffer_room machine n h small room) (
      ground arith,
      refl,
      ground (
        arith,
        length-overwrite (suc n) (0 ∷ []) (fresh_bytes machine (suc n + 1)),
        length-fresh_bytes machine (suc n + 1),
      ),
      λ b ne. ground arith,
      inr refl,
    )
    | inr full ↦ rw (new_buffer_full machine n h small full) (refl, inr (ground arith, full, refl))
  ]
]

-- ===== src/Slice/Assign.antt =====
-- The assignment of src/nodeqml/util/qarraydataslice.h: where it works, and where it faults.
use node_qml.Prelude.{ℕ, ◌≡◌, some, List, ◌∷◌, arith}
use node_qml.Memory.{ArrayData, Heap, ok, fault, ref_array}
use node_qml.Slice.{Slice, clear_data, set_data, assign}
use node_qml.Slice.Refs.{
  uses, IsCounted, KeepsBytes, cell_of_use, taken, taken-IsCounted, clear_data-IsCounted,
}

set_data_after :
    (t u : Slice) (a offset n : ℕ) (c : ArrayData) (h h1 : Heap)
    → clear_data t h ≡ ok u h1
    → h1.cells a ≡ some c
    → set_data t a offset (some n) h
      ≡ ok (record { array = some a; begin = offset; size = n }) (taken h1 a c)
unfolding set_data
set_data_after t u a offset n c h h1 e k = ground arith

-- Assigning from a living slice that holds an array, to another living slice: the target becomes
-- equal to the source, the counts stay right, and no byte changes in an array that stays in use.
assign-IsCounted :
    (t s : Slice) (alive : List Slice) (a : ℕ) (h : Heap)
    → s.array ≡ some a
    → IsCounted h (t ∷ s ∷ alive)
    → (h' : Heap) × (assign t s h ≡ ok s h')
      × IsCounted h' (s ∷ s ∷ alive)
      × KeepsBytes (s ∷ alive) h h'
unfolding assign
assign-IsCounted t s alive a h e w =
    let (u, h1, done, w1, same) = clear_data-IsCounted t (s ∷ alive) h w in
    let (c, k) = cell_of_use (h1.cells a) (ground (arith, w1.counted a)) in
    (
      taken h1 a c,
      ground (arith, set_data_after t u a s.begin s.size c h h1 done k),
      taken-IsCounted s (s ∷ alive) a c h1 e k w1,
      λ b p. ground (arith, same b p),
    )

-- Assigning a slice to itself faults when it is the only one that holds its array: the array is
-- freed before its count is raised again.
assign_self_faults :
    (s : Slice) (alive : List Slice) (a : ℕ) (h : Heap)
    → s.array ≡ some a
    → uses a alive ≡ 0
    → IsCounted h (s ∷ alive)
    → assign s s h ≡ fault
unfolding assign set_data clear_data ref_array
assign_self_faults s alive a h e alone w =
    let (c, k) = cell_of_use (h.cells a) (ground (arith, w.counted a)) in
    ground (arith, w.counted a)

-- ===== src/Tests/SliceTests.antt =====
-- Slices and their reference counts.
use node_qml.Prelude.{ℕ, zero, suc, ◌≡◌, refl, none, some, [], ◌∷◌, arith}
use node_qml.Memory.{Heap, ok}
use node_qml.Slice.{Slice, destroy}
use node_qml.Slice.Refs.{uses, IsCounted, KeepsBytes, destroy-IsCounted}
use node_qml.Tests.Hosts.{memory, whole, middle}

memory-IsCounted : IsCounted memory (whole ∷ middle ∷ [])
memory-IsCounted = record {
  counted = elim [ zero ↦ refl | suc k ↦ ground arith ];
  held = elim [ zero ↦ omega arith | suc k ↦ tt ];
}

destroy-IsCounted_example :
    (h' : Heap) × (destroy whole memory ≡ ok tt h')
    × IsCounted h' (middle ∷ [])
    × KeepsBytes (middle ∷ []) memory h'
    × ((b : ℕ) → uses b (middle ∷ []) ≡ 0 → h'.cells b ≡ none)
destroy-IsCounted_example = destroy-IsCounted whole (middle ∷ []) memory memory-IsCounted

-- The array held by one slice alone.
abbrev alone : Heap
alone = record {
  next = 1;
  cells = λ a. elim a [
    | zero ↦ some (record { ref = 1; size = 2; bytes = 7 ∷ 9 ∷ 0 ∷ [] })
    | suc k ↦ none
  ];
}

abbrev pair : Slice
pair = record { array = some 0; begin = 0; size = 2 }

alone-IsCounted : IsCounted alone (pair ∷ [])
alone-IsCounted = record {
  counted = elim [ zero ↦ refl | suc k ↦ ground arith ];
  held = elim [ zero ↦ omega arith | suc k ↦ tt ];
}

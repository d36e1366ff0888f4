-- ===== src/Buffer/Alive.antt =====
-- All slices that are alive at one time, those of Buffers and the temporary ones, over the heap of
-- src/nodeqml/util/qarraydataslice.h and src/nodeqml/types/buffer.cpp: when a heap and they agree.
pub mod Kept
pub mod Made
pub mod Copied
pub mod Steps
pub mod Makes
pub mod Methods
pub mod Stores
pub mod Ends
pub mod Calls
use node_qml.Prelude.{ℕ, ◌≤◌, ◌<◌, ◌+◌, Option, some, length, ◌≡◌, ◌⊎◌, none, List, All}
use node_qml.Memory.{ArrayData, Heap, bytes_at}
use node_qml.Slice.{Slice}
use node_qml.Slice.Refs.{IsCounted}
use node_qml.Buffer.{Fits}

-- What an array says of itself: its number of bytes, which the zero after them does not count to.
abbrev pub array_size : Option ArrayData → ℕ
array_size none = 0
array_size (some c) = c.size

abbrev pub size_at : Heap → Option ℕ → ℕ
size_at h none = 0
size_at h (some a) = array_size (h.cells a)

-- The bytes of a slice lie in its array. Those of a copy do, too: where a slice shows no byte, a copy
-- of it takes the size of the array.
abbrev pub IsGood : Heap → Slice → Type 0
IsGood h s = Fits h s × ((0 < s.size) ⊎ (s.begin + size_at h s.array ≤ length (bytes_at h s.array)))

-- The counts are the numbers of living slices, each of these is good, and nothing is allocated from
-- the next address on.
pub record IsSound (h : Heap) (alive : List Slice) : Type 0 where
  pub counts : IsCounted h alive
  pub good : All (IsGood h) alive
  pub free : (k : ℕ) → h.next ≤ k → h.cells k ≡ none

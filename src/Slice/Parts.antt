-- ===== src/Slice/Parts.antt =====
-- Copies of a part of a slice, and of a whole slice, of src/nodeqml/util/qarraydataslice.h: which
-- bytes they stand for.
use node_qml.Prelude.{
  ℕ, suc, ◌+◌, ◌≤◌, ◌≡◌, refl, Option, none, some, List, ◌∷◌, arith, length, Option-cases, inl, inr,
}
use node_qml.Memory.{ArrayData, Heap, ok, bytes_at}
use node_qml.Slice.{Slice, from_slice}
use node_qml.Slice.Refs.{IsCounted, cell_of_use, taken, taken-IsCounted, part, from_slice-some}

-- `t` holds the array of `s`, and its bytes from index `offset` on.
pub record IsPart (s t : Slice) (offset n : ℕ) : Type 0 where
  pub same_array : t.array ≡ s.array
  pub moved : t.begin ≡ offset + s.begin
  pub sized : t.size ≡ n

-- A copy under way: the new slice is a part of the old one, the counts are right, and no byte has
-- changed.
abbrev pub Shares : Slice → List Slice → ℕ → ℕ → Heap → Slice → Heap → Type 0
Shares s alive offset n h t h' =
    IsPart s t offset n
    × IsCounted h' (t ∷ s ∷ alive)
    × ((b : Option ℕ) → bytes_at h' b ≡ bytes_at h b)

-- A slice with room for some bytes has an array.
array_of :
    (s : Slice) (n : ℕ) (h : Heap)
    → s.begin + suc n ≤ length (bytes_at h s.array)
    → (a : ℕ) × (s.array ≡ some a)
array_of s n h room = elim (Option-cases s.array) [
  | inl e ↦ absurd (ground arith)
  | inr (a, e) ↦ (a, e)
]

pub bytes_at-taken :
    (a : ℕ) (c : ArrayData) (h : Heap)
    → h.cells a ≡ some c
    → (b : Option ℕ) → bytes_at (taken h a c) b ≡ bytes_at h b
bytes_at-taken a c h k none = refl
bytes_at-taken a c h k (some b) = ground arith

pub from_slice_part :
    (s : Slice) (alive : List Slice) (offset n : ℕ) (h : Heap)
    → IsCounted h (s ∷ alive)
    → s.begin + suc n ≤ length (bytes_at h s.array)
    → (t : Slice) × (h' : Heap) × (from_slice s offset (some (suc n)) h ≡ ok t h')
      × Shares s alive offset (suc n) h t h'
from_slice_part s alive offset n h w room =
    let (a, e) = array_of s n h room in
    let (c, k) = cell_of_use (h.cells a) (ground (arith, w.counted a)) in
    let t = part s a c.size offset (some (suc n)) in
    (
      t,
      taken h a c,
      from_slice-some s offset (some (suc n)) a c h e k (λ p. cc),
      (
        record { same_array = ground arith; moved = refl; sized = refl },
        taken-IsCounted t (s ∷ alive) a c h refl k w,
        bytes_at-taken a c h k,
      ),
    )

pub from_slice_whole :
    (s : Slice) (alive : List Slice) (n : ℕ) (h : Heap)
    → IsCounted h (s ∷ alive)
    → s.size ≡ suc n
    → s.begin + suc n ≤ length (bytes_at h s.array)
    → (t : Slice) × (h' : Heap) × (from_slice s 0 none h ≡ ok t h')
      × Shares s alive 0 (suc n) h t h'
from_slice_whole s alive n h w size room =
    let (a, e) = array_of s n h room in
    let (c, k) = cell_of_use (h.cells a) (ground (arith, w.counted a)) in
    let t = part s a c.size 0 none in
    (
      t,
      taken h a c,
      from_slice-some s 0 none a c h e k (λ p. cc),
      (
        record { same_array = ground arith; moved = refl; sized = ground arith },
        taken-IsCounted t (s ∷ alive) a c h refl k w,
        bytes_at-taken a c h k,
      ),
    )

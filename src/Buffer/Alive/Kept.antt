-- ===== src/Buffer/Alive/Kept.antt =====
-- What keeps the living slices of src/nodeqml/types/buffer.cpp sound.
use node_qml.Prelude.{
  ℕ, ◌+◌, ◌≤◌, ◌<◌, ◌≡◌, inl, inr, refl, ap, ◌∙◌, Option, none, some, List, [], ◌∷◌, All, arith,
  length, Option-cases, overwrite, length-overwrite,
}
use node_qml.Memory.{Bytes, Heap, bytes_at, bytes_of, set_bytes}
use node_qml.Slice.{Slice}
use node_qml.Slice.Refs.{uses, refs_of, IsHeld}
use node_qml.Buffer.View.{written}
use node_qml.Buffer.Alive.{array_size, size_at, IsGood, IsSound}

-- The arrays that living slices hold stay as long as they were, and of the size that they were.
abbrev pub KeepsLengths : List Slice → Heap → Heap → Type 0
KeepsLengths alive h h' =
    (b : ℕ)
    → 0 < uses b alive
    → (length (bytes_at h' (some b)) ≡ length (bytes_at h (some b)))
      × (size_at h' (some b) ≡ size_at h (some b))

pub same_cell :
    (h h' : Heap) (b : ℕ)
    → h'.cells b ≡ h.cells b
    → (length (bytes_at h' (some b)) ≡ length (bytes_at h (some b)))
      × (size_at h' (some b) ≡ size_at h (some b))
same_cell h h' b e = (ap (λ o. length (bytes_of o)) e, ap array_size e)

kept_length :
    (s : Slice) (alive : List Slice) (h h' : Heap)
    → KeepsLengths (s ∷ alive) h h'
    → (length (bytes_at h' s.array) ≡ length (bytes_at h s.array))
      × (size_at h' s.array ≡ size_at h s.array)
kept_length s alive h h' keeps = elim (Option-cases s.array) [
  | inl e ↦ rw e (refl, refl)
  | inr (a, e) ↦ rw e (keeps a (ground arith))
]

pub KeepsLengths-IsGood :
    (alive : List Slice) (h h' : Heap)
    → KeepsLengths alive h h'
    → All (IsGood h) alive
    → All (IsGood h') alive
KeepsLengths-IsGood [] h h' keeps good = tt
KeepsLengths-IsGood (s ∷ alive) h h' keeps ((fits, tight), good) =
    let (l, z) = kept_length s alive h h' keeps in
    (
      (omega (arith, l), ground (arith, l, z, tight)),
      KeepsLengths-IsGood alive h h' (λ b p. keeps b (omega arith)) good,
    )

-- Storing bytes through a slice.
stored-lengths :
    (array : Option ℕ) (bs : Bytes) (h : Heap) (b : ℕ)
    → length bs ≡ length (bytes_at h array)
    → (length (bytes_at (set_bytes h array bs) (some b)) ≡ length (bytes_at h (some b)))
      × (size_at (set_bytes h array bs) (some b) ≡ size_at h (some b))
stored-lengths none bs h b e = (refl, refl)
stored-lengths (some a) bs h b e = (ground arith, ground arith)

stored-refs :
    (array : Option ℕ) (bs : Bytes) (h : Heap) (b : ℕ)
    → refs_of ((set_bytes h array bs).cells b) ≡ refs_of (h.cells b)
stored-refs none bs h b = refl
stored-refs (some a) bs h b = ground arith

stored-held :
    (array : Option ℕ) (bs : Bytes) (h : Heap) (b : ℕ)
    → IsHeld (h.cells b)
    → IsHeld ((set_bytes h array bs).cells b)
stored-held none bs h b held = held
stored-held (some a) bs h b held = ground (arith, held)

stored-free :
    (array : Option ℕ) (bs : Bytes) (h : Heap)
    → ((k : ℕ) → h.next ≤ k → h.cells k ≡ none)
    → (k : ℕ) → (set_bytes h array bs).next ≤ k
    → (set_bytes h array bs).cells k ≡ none
stored-free none bs h free k p = free k p
stored-free (some a) bs h free k p = ground (arith, free k p)

pub written-IsSound :
    (s : Slice) (i : ℕ) (bs : Bytes) (alive : List Slice) (h : Heap)
    → IsSound h alive
    → IsSound (written h s i bs) alive
written-IsSound s i bs alive h sound =
    let xs = overwrite (s.begin + i) bs (bytes_at h s.array) in
    let l : length xs ≡ length (bytes_at h s.array) =
      length-overwrite (s.begin + i) bs (bytes_at h s.array) in
    record {
      counts = record {
        counted = λ b. stored-refs s.array xs h b ∙ sound.counts.counted b;
        held = λ b. stored-held s.array xs h b (sound.counts.held b);
      };
      good =
          KeepsLengths-IsGood alive h (set_bytes h s.array xs)
            (λ b p. stored-lengths s.array xs h b l) sound.good;
      free = stored-free s.array xs h sound.free;
    }

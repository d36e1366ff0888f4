-- ===== src/Buffer/Alive/Copied.antt =====
-- Copies, and the end, of a slice of src/nodeqml/util/qarraydataslice.h beside the slices that are
-- alive.
use node_qml.Prelude.{
  ℕ, zero, suc, ◌+◌, ◌≤◌, ◌<◌, ◌≡◌, ◌⊎◌, inl, inr, refl, sym, ap, ◌∙◌, subst, none, some, List, ◌∷◌,
  arith, length, Option-cases,
}
use node_qml.Memory.{ArrayData, Heap, ok, bytes_at}
use node_qml.Slice.{Slice, null_slice, clear_data, from_slice, destroy}
use node_qml.Slice.Refs.{
  cell_of_use, taken, taken-IsCounted, dropped, dropped-IsCounted, clear_data_lem, from_slice-some,
  part,
}
use node_qml.Buffer.{new_from_slice}
use node_qml.Buffer.Alive.{array_size, size_at, IsGood, IsSound}
use node_qml.Slice.Parts.{bytes_at-taken}
use node_qml.Buffer.Alive.Made.{null-IsSound}
use node_qml.Buffer.Alive.Kept.{KeepsLengths, KeepsLengths-IsGood}

taken-size :
    (a : ℕ) (c : ArrayData) (h : Heap) (b : ℕ)
    → h.cells a ≡ some c
    → size_at (taken h a c) (some b) ≡ size_at h (some b)
taken-size a c h b k = ground arith

taken-IsSound :
    (t : Slice) (alive : List Slice) (a : ℕ) (c : ArrayData) (h : Heap)
    → t.array ≡ some a
    → h.cells a ≡ some c
    → t.begin + t.size ≤ length (bytes_at h (some a))
    → (0 < t.size) ⊎ (t.begin + c.size ≤ length (bytes_at h (some a)))
    → IsSound h alive
    → IsSound (taken h a c) (t ∷ alive)
taken-IsSound t alive a c h e k fits tight sound =
    let same = bytes_at-taken a c h k in
    let whole : size_at (taken h a c) (some a) ≡ c.size = ground arith in
    record {
      counts = taken-IsCounted t alive a c h e k sound.counts;
      good = (
        (rw (e, same (some a)) fits, rw (e, whole, same (some a)) tight),
        KeepsLengths-IsGood alive h (taken h a c)
            (λ b used. (ap length (same (some b)), taken-size a c h b k)) sound.good,
      );
      free = λ j p. ground (arith, sound.free j);
    }

-- A good slice that shows a byte holds an array.
array_of : (s : Slice) (h : Heap) → IsGood h s → 0 < s.size → (a : ℕ) × (s.array ≡ some a)
array_of s h (fits, tight) some_byte = elim (Option-cases s.array) [
  | inl e ↦ absurd (let l : length (bytes_at h s.array) ≡ 0 = rw e refl in omega (arith, l, fits))
  | inr (a, e) ↦ (a, e)
]

cell_of :
    (s : Slice) (alive : List Slice) (a : ℕ) (h : Heap)
    → s.array ≡ some a
    → IsSound h (s ∷ alive)
    → (c : ArrayData) × (h.cells a ≡ some c)
cell_of s alive a h e sound = cell_of_use (h.cells a) (ground (arith, sound.counts.counted a))

pub copied-IsSound :
    (s t : Slice) (offset n : ℕ) (alive : List Slice) (h h' : Heap)
    → from_slice s offset (some n) h ≡ ok t h'
    → offset + n ≤ s.size
    → IsSound h (s ∷ alive)
    → IsSound h' (t ∷ s ∷ alive)
unfolding from_slice
copied-IsSound s t offset zero alive h h' e inside sound =
    let same : null_slice ≡ t = cc in
    let kept : h ≡ h' = cc in
    subst (λ u. IsSound h' (u ∷ s ∷ alive)) same
      (subst (λ g. IsSound g (null_slice ∷ s ∷ alive)) kept (null-IsSound (s ∷ alive) h sound))
copied-IsSound s t offset (suc n) alive h h' e inside sound =
    let (a, has) = array_of s h sound.good.0 (omega arith) in
    let (c, k) = cell_of s alive a h has sound in
    let made = from_slice-some s offset (some (suc n)) a c h has k (λ p. cc) in
    let new = part s a c.size offset (some (suc n)) in
    let done : ok new (taken h a c) ≡ ok t h' = sym made ∙ e in
    let same : new ≡ t = cc in
    let kept : taken h a c ≡ h' = cc in
    let fits : s.begin + s.size ≤ length (bytes_at h (some a)) = rw has at sound.good.0.0 in
    subst (λ u. IsSound h' (u ∷ s ∷ alive)) same
      (subst (λ g. IsSound g (new ∷ s ∷ alive)) kept
        (taken-IsSound new (s ∷ alive) a c h refl k (omega arith) (inl (omega arith)) sound))

-- A copy of all of a good slice is good.
shared_size :
    (s : Slice) (a : ℕ) (c : ArrayData) (h : Heap)
    → s.array ≡ some a
    → h.cells a ≡ some c
    → IsGood h s
    → ((part s a c.size 0 none).begin + (part s a c.size 0 none).size
        ≤ length (bytes_at h (some a)))
      × ((0 < (part s a c.size 0 none).size)
          ⊎ ((part s a c.size 0 none).begin + c.size ≤ length (bytes_at h (some a))))
shared_size s a c h has k (fits, tight) =
    let here : bytes_at h s.array ≡ bytes_at h (some a) = ap (bytes_at h) has in
    let sized : size_at h s.array ≡ c.size = ap (size_at h) has ∙ ap array_size k in
    (ground (arith, here, sized, tight), ground (arith, here, sized, tight))

pub shared-IsSound :
    (s t : Slice) (alive : List Slice) (h h' : Heap)
    → new_from_slice s h ≡ ok t h'
    → IsSound h (s ∷ alive)
    → IsSound h' (t ∷ s ∷ alive)
unfolding new_from_slice from_slice
shared-IsSound s t alive h h' e sound = elim (Option-cases s.array) [
  | inl no_array ↦
      let made : ok null_slice h ≡ ok t h' = rw no_array at e in
      let same : null_slice ≡ t = cc in
      let kept : h ≡ h' = cc in
      subst (λ u. IsSound h' (u ∷ s ∷ alive)) same
        (subst (λ g. IsSound g (null_slice ∷ s ∷ alive)) kept (null-IsSound (s ∷ alive) h sound))
  | inr (a, has) ↦
      let (c, k) = cell_of s alive a h has sound in
      let new = part s a c.size 0 none in
      let made = from_slice-some s 0 none a c h has k (λ p. cc) in
      let done : ok new (taken h a c) ≡ ok t h' = sym made ∙ e in
      let same : new ≡ t = cc in
      let kept : taken h a c ≡ h' = cc in
      let (fits, tight) = shared_size s a c h has k sound.good.0 in
      subst (λ u. IsSound h' (u ∷ s ∷ alive)) same
        (subst (λ g. IsSound g (new ∷ s ∷ alive)) kept
          (taken-IsSound new (s ∷ alive) a c h refl k fits tight sound))
]

dropped-lengths :
    (s : Slice) (alive : List Slice) (a : ℕ) (c : ArrayData) (h : Heap)
    → s.array ≡ some a
    → h.cells a ≡ some c
    → IsSound h (s ∷ alive)
    → KeepsLengths alive h (dropped h a c)
dropped-lengths s alive a c h e k sound b used =
    (ground (arith, sound.counts.counted b), ground (arith, sound.counts.counted b))

pub destroyed-IsSound :
    (s : Slice) (alive : List Slice) (h h' : Heap)
    → destroy s h ≡ ok tt h'
    → IsSound h (s ∷ alive)
    → IsSound h' alive
unfolding destroy clear_data
destroyed-IsSound s alive h h' e sound = elim (Option-cases s.array) [
  | inl no_array ↦
      let made : ok tt h ≡ ok tt h' = rw no_array at e in
      subst (λ g. IsSound g alive) (let kept : h ≡ h' = cc in kept)
        (record {
          counts = record {
            counted = λ b. ground (arith, sound.counts.counted b);
            held = sound.counts.held;
          };
          good = sound.good.1;
          free = sound.free;
        })
  | inr (a, has) ↦
      let (c, k) = cell_of s alive a h has sound in
      let done : ok tt (dropped h a c) ≡ ok tt h' = rw (clear_data_lem s a c h has k) at e in
      subst (λ g. IsSound g alive) (let kept : dropped h a c ≡ h' = cc in kept)
        (record {
          counts = dropped-IsCounted s alive a c h has k sound.counts;
          good =
              KeepsLengths-IsGood alive h (dropped h a c)
                (dropped-lengths s alive a c h has k sound) sound.good.1;
          free = λ j p. ground (arith, sound.free j);
        })
]

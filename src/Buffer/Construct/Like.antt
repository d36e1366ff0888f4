-- ===== src/Buffer/Construct/Like.antt =====
-- new Buffer(array-like) of src/nodeqml/types/buffer.cpp is new Buffer(array) of its elements.
use node_qml.Prelude.{
  ℕ, zero, suc, ◌+◌, ◌≤◌, ◌≡◌, refl, List, [], ◌∷◌, arith, length, leb, Bool-cases, inl, inr,
}
use node_qml.Memory.{Heap, Outcome, ok, throw, fault, hang, continue, ◌>>◌, pure}
use node_qml.Slice.{Slice, write}
use node_qml.Host.{V4, Machine, Text}
use node_qml.Buffer.{store_from, byte_of, bytes_of_values, new_buffer, new_from_array, put_indexed}
use node_qml.Buffer.Alloc.{Allocated, new_buffer-Allocated}
use node_qml.Buffer.Construct.{put_elements, construct_like}

module _ (v4 : V4) where
  -- `count` elements of an array-like object, from an index on.
  abbrev pub elements : v4.Value → ℕ → ℕ → List v4.Value
  elements v i zero = []
  elements v i (suc count) = v4.get_indexed v i ∷ elements v (i + 1) count

  pub length-elements : (v : v4.Value) (i count : ℕ) → length (elements v i count) ≡ count
  length-elements v i zero = refl
  length-elements v i (suc count) = omega (arith, length-elements v (i + 1) count)

  put_indexed_inside :
      (s : Slice) (i : ℕ) (x : v4.Value)
      → suc i ≤ s.size
      → put_indexed v4 s i x ≡ write s i (byte_of v4 x ∷ [])
  unfolding put_indexed
  put_indexed_inside s i x inside = elim (Bool-cases (leb s.size i)) [
    | inl past ↦ absurd (ground arith)
    | inr before ↦ rw before refl
  ]

module _ (v4 : V4) (machine : Machine) (text : Text) where
  put_elements-store_from :
      (s : Slice) (v : v4.Value) (i count : ℕ)
      → i + count ≤ s.size
      → put_elements v4 machine text s v i count
        ≡ store_from s i (bytes_of_values v4 (elements v4 v i count))
  unfolding put_elements store_from
  put_elements-store_from s v i zero inside = refl
  put_elements-store_from s v i (suc count) inside =
      rw
        (
          put_indexed_inside v4 s i (v4.get_indexed v i) (omega arith),
          put_elements-store_from s v (i + 1) count (omega arith),
        )
        refl

  like-after :
      (v : v4.Value) (n : ℕ) (h : Heap) (r : Outcome Slice)
      → Allocated machine n h r
      → continue r (λ s. put_elements v4 machine text s v 0 n >> pure s)
        ≡ continue r (λ s. store_from s 0 (bytes_of_values v4 (elements v4 v 0 n)) >> pure s)
  like-after v n h (ok s h1) (small, size, fits, others, place) =
      rw (put_elements-store_from s v 0 n (omega arith)) refl
  like-after v n h (throw e h1) made = refl
  like-after v n h fault made = refl
  like-after v n h hang made = refl

  -- Each element is read as it would be from an array, and none is left out or past the end.
  pub construct_like-new_from_array :
      (v : v4.Value) (h : Heap)
      → construct_like v4 machine text v h
        ≡ new_from_array v4 machine (elements v4 v 0 (v4.get_length v)) h
  unfolding new_from_array
  construct_like-new_from_array v h =
      let n = v4.get_length v in
      rw (length-elements v4 v 0 n)
        (like-after v n h (new_buffer machine n h) (new_buffer-Allocated machine n h))

-- ===== src/Buffer/Index.antt =====
-- Buffer::getIndexed and Buffer::putIndexed of src/nodeqml/types/buffer.cpp.
use node_qml.Prelude.{
  ℕ, zero, suc, ◌+◌, ◌<◌, ◌≡◌, refl, inl, inr, none, some, [], ◌∷◌, arith, length, get_or,
  overwrite, get_or-sub, leb, ◌==◌, if◌then◌else◌, Bool-cases,
}
use node_qml.Memory.{Bytes, Heap, ok, bytes_at}
use node_qml.Slice.{Slice}
use node_qml.Host.{V4}
use node_qml.Buffer.{view, Fits, byte_of, put_indexed, get_indexed}
use node_qml.Buffer.View.{length-view, written, write_lem, read_lem, view-written, Fits-written}

-- Reading an element: the byte that is shown there, and undefined past the end.
pub get_indexed_lem :
    (s : Slice) (j : ℕ) (h : Heap)
    → Fits h s
    → get_indexed s j h ≡ ok (if leb s.size j then none else some (get_or (view h s) j 0)) h
unfolding get_indexed
get_indexed_lem s j h fits = elim (Bool-cases (leb s.size j)) [
  | inl past ↦ rw past
  | inr inside ↦
      rw (inside, read_lem s j 1 h fits (ground arith))
        (ground (
          arith,
          get_or-sub (s.begin + j) 1 0 0 (bytes_at h s.array),
          get_or-sub s.begin s.size j 0 (bytes_at h s.array),
        ))
]

get_or-overwrite_one :
    (i j b : ℕ) (xs : Bytes)
    → i < length xs
    → get_or (overwrite i (b ∷ []) xs) j 0 ≡ (if i == j then b else get_or xs j 0)
get_or-overwrite_one i j b [] h = absurd (omega arith)
get_or-overwrite_one zero zero b (x ∷ xs) h = ground arith
get_or-overwrite_one zero (suc j) b (x ∷ []) h = ground arith
get_or-overwrite_one zero (suc j) b (x ∷ y ∷ xs) h = ground arith
get_or-overwrite_one (suc i) zero b (x ∷ xs) h = ground arith
get_or-overwrite_one (suc i) (suc j) b (x ∷ xs) h = ground (arith, get_or-overwrite_one i j b xs)

-- An element that was stored is read back as its low byte, every other element is unchanged, and a
-- store past the end changes nothing.
get_indexed-put_indexed :
    (v4 : V4) (s : Slice) (i : ℕ) (v : v4.Value) (h : Heap)
    → Fits h s
    → (h' : Heap) × (put_indexed v4 s i v h ≡ ok tt h')
      × Fits h' s
      × ((j : ℕ)
          → get_indexed s j h'
            ≡ ok
                (if leb s.size j
                  then none
                  else some (if i == j then byte_of v4 v else get_or (view h s) j 0))
                h')
unfolding put_indexed
get_indexed-put_indexed v4 s i v h fits = elim (Bool-cases (leb s.size i)) [
  | inl past ↦ (h, ground arith, fits, λ j. rw (get_indexed_lem s j h fits) (ground arith))
  | inr inside ↦
      let fits' : Fits (written h s i (byte_of v4 v ∷ [])) s =
        Fits-written s i (byte_of v4 v ∷ []) h fits in
      (
        written h s i (byte_of v4 v ∷ []),
        rw inside (write_lem s i (byte_of v4 v ∷ []) h fits (ground arith)),
        fits',
        λ j. rw (get_indexed_lem s j (written h s i (byte_of v4 v ∷ [])) fits') (
            rw
              (
                view-written s i (byte_of v4 v ∷ []) h (ground arith),
                get_or-overwrite_one i j (byte_of v4 v) (view h s)
                    (ground (arith, length-view h s fits)),
              )
              refl),
      )
]

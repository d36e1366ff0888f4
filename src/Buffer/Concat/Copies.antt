-- ===== src/Buffer/Concat/Copies.antt =====
-- Buffer.concat of src/nodeqml/types/buffer.cpp copies Buffers one behind the other.
use node_qml.Prelude.{
  ℕ, ◌+◌, ◌^◌, ◌≤◌, ◌<◌, ◌≡◌, refl, sym, ap, ◌∙◌, Option, some, List, [], ◌∷◌, ◌++◌, arith, length,
  sub, overwrite, take_all, overwrite_nil, overwrite-append,
}
use node_qml.Memory.{Bytes, Heap, ok, bytes_at, set_bytes}
use node_qml.Slice.{Slice}
use node_qml.Host.{V4}
use node_qml.Buffer.{view, Fits}
use node_qml.Buffer.View.{written, write_lem, view-written, Fits-written, length-view, read-view}
use node_qml.Buffer.Concat.{total_size, copy_element, copy_elements}

-- The bytes of Buffers, one behind the other, and how many they are.
abbrev pub views : Heap → List Slice → Bytes
views h [] = []
views h (b ∷ bs) = view h b ++ views h bs

abbrev pub sizes : List Slice → ℕ
sizes [] = 0
sizes (b ∷ bs) = b.size + sizes bs

-- The values are these Buffers.
pub data AreBuffers (v4 : V4) : List v4.Value → List Slice → Type 0 where
  no_buffers : AreBuffers v4 [] []
  a_buffer :
      (v : v4.Value) (b : Slice) (vs : List v4.Value) (bs : List Slice)
      → v4.as_buffer v ≡ some b
      → AreBuffers v4 vs bs
      → AreBuffers v4 (v ∷ vs) (b ∷ bs)

-- Buffers that lie in the bounds of their arrays, and on other arrays than one.
abbrev pub AreElsewhere : Heap → Option ℕ → List Slice → Type 0
AreElsewhere h array [] = Unit
AreElsewhere h array (b ∷ bs) =
    Fits h b
    × ((g : Heap) (xs : Bytes) → bytes_at (set_bytes g array xs) b.array ≡ bytes_at g b.array)
    × AreElsewhere h array bs

abbrev pub SameBytes : Heap → Heap → List Slice → Type 0
SameBytes h h' [] = Unit
SameBytes h h' (b ∷ bs) = (bytes_at h' b.array ≡ bytes_at h b.array) × SameBytes h h' bs

pub total_size_lem :
    (v4 : V4) (vs : List v4.Value) (bs : List Slice)
    → AreBuffers v4 vs bs
    → sizes bs < 2 ^ 64
    → total_size v4 vs ≡ some (sizes bs)
total_size_lem v4 _ _ no_buffers small = refl
total_size_lem v4 _ _ (a_buffer v b vs bs e rest) small =
    rw (e, total_size_lem v4 vs bs rest (omega arith)) (ap some (omega arith))

pub views-SameBytes : (h h' : Heap) (bs : List Slice) → SameBytes h h' bs → views h' bs ≡ views h bs
views-SameBytes h h' [] same = refl
views-SameBytes h h' (b ∷ bs) (e, rest) = rw (e, views-SameBytes h h' bs rest) refl

written-SameBytes :
    (h g : Heap) (array : Option ℕ) (xs : Bytes) (bs : List Slice)
    → AreElsewhere h array bs
    → SameBytes g (set_bytes g array xs) bs
written-SameBytes h g array xs [] apart = tt
written-SameBytes h g array xs (b ∷ bs) (fits, e, rest) =
    (e g xs, written-SameBytes h g array xs bs rest)

AreElsewhere-moved :
    (h h' : Heap) (array : Option ℕ) (bs : List Slice)
    → SameBytes h h' bs
    → AreElsewhere h array bs
    → AreElsewhere h' array bs
AreElsewhere-moved h h' array [] same apart = tt
AreElsewhere-moved h h' array (b ∷ bs) (e, same) (fits, ne, rest) =
    (rw e fits, ne, AreElsewhere-moved h h' array bs same rest)

copy_element_lem :
    (new : Slice) (pos : ℕ) (b : Slice) (h : Heap)
    → Fits h b
    → Fits h new
    → pos + b.size ≤ new.size
    → copy_element new pos (some b) h ≡ ok (pos + b.size) (written h new pos (view h b))
unfolding copy_element
copy_element_lem new pos b h fits_b fits room =
    let size_b : length (view h b) ≡ b.size = length-view h b fits_b in
    let all : sub 0 b.size (view h b) ≡ view h b = take_all b.size (view h b) (omega arith) in
    rw
      (
        read-view b 0 b.size h fits_b (omega arith),
        all,
        write_lem new pos (view h b) h fits (omega arith),
      )
      refl

module _ (v4 : V4) where
  -- The copies, where the new Buffer has room for them.
  pub copy_elements_lem :
      (new : Slice) (pos : ℕ) (vs : List v4.Value) (bs : List Slice) (h : Heap)
      → AreBuffers v4 vs bs
      → AreElsewhere h new.array bs
      → Fits h new
      → pos + sizes bs ≤ new.size
      → (h' : Heap) × (copy_elements v4 new pos vs h ≡ ok tt h')
        × Fits h' new
        × (view h' new ≡ overwrite pos (views h bs) (view h new))
  unfolding copy_elements copy_element
  copy_elements_lem new pos _ _ h no_buffers apart fits room =
      (h, refl, fits, sym (overwrite_nil pos (view h new)))
  copy_elements_lem new pos _ _ h (a_buffer v b vs bs e rest) (fits_b, ne, others) fits room =
      let h1 = written h new pos (view h b) in
      let size_b : length (view h b) ≡ b.size = length-view h b fits_b in
      let same =
        written-SameBytes h h new.array
          (overwrite (new.begin + pos) (view h b) (bytes_at h new.array)) bs others in
      let (h', done, fits', shown) =
        copy_elements_lem new (pos + b.size) vs bs h1 rest
          (AreElsewhere-moved h h1 new.array bs same others)
          (Fits-written new pos (view h b) h fits) (omega arith) in
      (
        h',
        rw (e, copy_element_lem new pos b h fits_b fits (omega arith)) done,
        fits',
        shown
            ∙ ap (λ xs. overwrite (pos + b.size) xs (view h1 new)) (views-SameBytes h h1 bs same)
            ∙ ap (λ xs. overwrite (pos + b.size) (views h bs) xs)
                (view-written new pos (view h b) h (omega arith))
            ∙ ap (λ n. overwrite (pos + n) (views h bs) (overwrite pos (view h b) (view h new)))
                (sym size_b)
            ∙ overwrite-append pos (view h b) (views h bs) (view h new),
      )

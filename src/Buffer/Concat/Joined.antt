-- ===== src/Buffer/Concat/Joined.antt =====
-- Buffer.concat of src/nodeqml/types/buffer.cpp joins Buffers: what its result is.
use node_qml.Prelude.{
  ℕ, ◌+◌, ◌^◌, ◌<◌, ◌≡◌, ◌≢◌, ◌⊎◌, inl, inr, refl, sym, ap, ◌∙◌, false, Option, none, some, List,
  [], ◌∷◌, arith, length, overwrite, overwrite_all, ap₂, length-append,
}
use node_qml.Memory.{Bytes, Heap, Outcome, ok, throw, fault, hang, bytes_at, set_bytes}
use node_qml.Memory.Laws.{bytes_at-set_bytes_ne}
use node_qml.Slice.{Slice}
use node_qml.Host.{V4, Machine}
use node_qml.Buffer.{view, Fits, max_length, too_large, out_of_memory, new_buffer}
use node_qml.Buffer.View.{length-view}
use node_qml.Buffer.Alloc.{Allocated, IsPlaced, new_buffer-Allocated}
use node_qml.Buffer.Concat.{concat_into, method_concat}
use node_qml.Buffer.Concat.Copies.{
  views, sizes, AreBuffers, AreElsewhere, SameBytes, total_size_lem, views-SameBytes,
  copy_elements_lem,
}

-- What Buffer.concat of Buffers may come to, where no length is given.
abbrev pub Joined : Machine → Heap → List Slice → Outcome Slice → Type 0
Joined machine h bs (ok s h') = (s.size ≡ sizes bs) × Fits h' s × (view h' s ≡ views h bs)
Joined machine h bs (throw e h') =
    ((max_length < sizes bs) × (e ≡ too_large))
    ⊎ ((machine.can_allocate (sizes bs + 1) ≡ false) × (e ≡ out_of_memory))
Joined machine h bs fault = ⊥
Joined machine h bs hang = ⊥

-- Buffers in the bounds of their arrays, none of which is the next to be allocated.
abbrev pub AreHeld : Heap → List Slice → Type 0
AreHeld h [] = Unit
AreHeld h (b ∷ bs) = Fits h b × b.array ≢ some h.next × AreHeld h bs

-- Storing in a new Buffer leaves an array that is not the next one alone.
set_elsewhere :
    (h g : Heap) (new : Slice) (o : Option ℕ) (xs : Bytes)
    → IsPlaced h new
    → o ≢ some h.next
    → bytes_at (set_bytes g new.array xs) o ≡ bytes_at g o
set_elsewhere h g new o xs (inl e) ne = rw e refl
set_elsewhere h g new none xs (inr e) ne = refl
set_elsewhere h g new (some k) xs (inr e) ne =
    rw e (bytes_at-set_bytes_ne h.next k xs g (λ p. ne (ap some (sym p))))

kept_elsewhere :
    (h h' : Heap) (o : Option ℕ)
    → ((b : ℕ) → b ≢ h.next → h'.cells b ≡ h.cells b)
    → o ≢ some h.next
    → bytes_at h' o ≡ bytes_at h o
kept_elsewhere h h' none others ne = refl
kept_elsewhere h h' (some k) others ne = rw (others k (λ p. ne (ap some p))) refl

AreHeld-AreElsewhere :
    (h h' : Heap) (new : Slice) (bs : List Slice)
    → ((b : ℕ) → b ≢ h.next → h'.cells b ≡ h.cells b)
    → IsPlaced h new
    → AreHeld h bs
    → AreElsewhere h' new.array bs × SameBytes h h' bs
AreHeld-AreElsewhere h h' new [] others place held = (tt, tt)
AreHeld-AreElsewhere h h' new (b ∷ bs) others place (fits, ne, held) =
    let (elsewhere, same) = AreHeld-AreElsewhere h h' new bs others place held in
    let kept = kept_elsewhere h h' b.array others ne in
    ((rw kept fits, λ g xs. set_elsewhere h g new b.array xs place ne, elsewhere), (kept, same))

length-views : (h : Heap) (bs : List Slice) → AreHeld h bs → length (views h bs) ≡ sizes bs
length-views h [] held = refl
length-views h (b ∷ bs) (fits, ne, held) =
    length-append (view h b) (views h bs)
    ∙ ap₂ (λ m n. m + n) (length-view h b fits) (length-views h bs held)

module _ (v4 : V4) (machine : Machine) where
  Joined-after :
      (vs : List v4.Value) (bs : List Slice) (h : Heap) (r : Outcome Slice)
      → AreBuffers v4 vs bs
      → AreHeld h bs
      → new_buffer machine (sizes bs) h ≡ r
      → Allocated machine (sizes bs) h r
      → Joined machine h bs (concat_into v4 machine (sizes bs) vs h)
  Joined-after vs bs h (ok s h1) are held e (small, size, fits, others, place) =
      let (elsewhere, same) = AreHeld-AreElsewhere h h1 s bs others place held in
      let (h', done, fits', shown) =
        copy_elements_lem v4 s 0 vs bs h1 are elsewhere fits (omega arith) in
      rw (e, done)
        (
          size,
          fits',
          shown
              ∙ ap (λ xs. overwrite 0 xs (view h1 s)) (views-SameBytes h h1 bs same)
              ∙ overwrite_all (views h bs) (view h1 s)
                  (length-views h bs held ∙ sym size ∙ sym (length-view h1 s fits)),
        )
  Joined-after vs bs h (throw x h1) are held e (same, why) = rw e (ground arith)
  Joined-after vs bs h fault are held e bad = absurd bad
  Joined-after vs bs h hang are held e bad = absurd bad

  -- Buffer.concat of a list of Buffers, with no length given: a new Buffer that shows their bytes
  -- one behind the other; or the RangeError of a size that is too large or of short memory. It
  -- never faults, also where Buffers of the list share bytes.
  pub method_concat-Joined :
      (list : v4.Value) (vs : List v4.Value) (bs : List Slice) (h : Heap)
      → v4.as_array list ≡ some vs
      → AreBuffers v4 vs bs
      → AreHeld h bs
      → sizes bs < 2 ^ 64
      → Joined machine h bs (method_concat v4 machine (list ∷ []) h)
  unfolding method_concat
  method_concat-Joined list vs bs h is_list are held small =
      rw (is_list, total_size_lem v4 vs bs are small)
        (Joined-after vs bs h (new_buffer machine (sizes bs) h) are held refl
          (new_buffer-Allocated machine (sizes bs) h))

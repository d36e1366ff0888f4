-- ===== src/Buffer/Concat/Overruns.antt =====
-- Buffer.concat of src/nodeqml/types/buffer.cpp with a length that is too small.
use node_qml.Prelude.{
  ℕ, suc, ◌+◌, ◌≤◌, ◌<◌, ◌≡◌, ◌≢◌, refl, sym, subst, true, false, some, List, [], ◌∷◌, arith,
  length, ltb, sub, take_all, length-overwrite,
}
use node_qml.Memory.{Bytes, Heap, fault, bytes_at, write_bytes}
use node_qml.Slice.{Slice, write}
use node_qml.Double.{cast_size_t}
use node_qml.Host.{V4, Machine, fresh_bytes}
use node_qml.Buffer.{view, Fits, max_length}
use node_qml.Buffer.View.{read-view, length-view}
use node_qml.Buffer.Alloc.{new_buffer_room, with_array, whole, length-fresh_bytes}
use node_qml.Buffer.Concat.{copy_element, copy_elements, method_concat}

length-with_array :
    (machine : Machine) (n : ℕ) (h : Heap)
    → length (bytes_at (with_array machine (suc n) h) (some h.next)) ≡ suc n + 1
length-with_array machine n h =
    let l = length-overwrite (suc n) (0 ∷ []) (fresh_bytes machine (suc n + 1)) in
    ground (arith, l, length-fresh_bytes machine (suc n + 1))

kept :
    (machine : Machine) (n : ℕ) (h : Heap) (a : ℕ)
    → a ≢ h.next
    → bytes_at (with_array machine (suc n) h) (some a) ≡ bytes_at h (some a)
kept machine n h a ne = ground arith

write_outside :
    (s : Slice) (bs : Bytes) (h : Heap)
    → s.begin ≡ 0
    → length (bytes_at h s.array) < length bs
    → write s 0 bs h ≡ fault
unfolding write write_bytes
write_outside s bs h e beyond = ground arith

copy_outside :
    (machine : Machine) (n a : ℕ) (b : Slice) (h : Heap)
    → b.array ≡ some a
    → a ≢ h.next
    → Fits h b
    → suc n + 1 < b.size
    → copy_element (whole h.next (suc n)) 0 (some b) (with_array machine (suc n) h) ≡ fault
unfolding copy_element
copy_outside machine n a b h place ne fits large =
    let h1 = with_array machine (suc n) h in
    let same : bytes_at h1 b.array ≡ bytes_at h b.array = rw place (kept machine n h a ne) in
    let fits1 : Fits h1 b = subst (λ bs. b.begin + b.size ≤ length bs) (sym same) fits in
    let l : length (view h1 b) ≡ b.size = length-view h1 b fits1 in
    let all : sub 0 b.size (view h1 b) ≡ view h1 b = take_all b.size (view h1 b) (omega arith) in
    rw
      (
        read-view b 0 b.size h1 fits1 (omega arith),
        all,
        write_outside (whole h.next (suc n)) (view h1 b) h1 refl
            (omega (arith, length-with_array machine n h)),
      )
      refl

module _ (v4 : V4) (machine : Machine) where
  -- Buffer.concat with a length that is given, positive, and smaller by more than one than the
  -- first Buffer of the list copies that Buffer past the end of the new one's allocation.
  pub method_concat_overruns :
      (list v count : v4.Value) (vs : List v4.Value) (n a : ℕ) (b : Slice) (h : Heap)
      → v4.as_array list ≡ some (v ∷ vs)
      → v4.is_number count ≡ true
      → cast_size_t machine.undefined_size_t (v4.to_number count) ≡ suc n
      → suc n ≤ max_length
      → machine.can_allocate (suc n + 1) ≡ true
      → v4.as_buffer v ≡ some b
      → b.array ≡ some a
      → a ≢ h.next
      → Fits h b
      → suc n + 1 < b.size
      → method_concat v4 machine (list ∷ count ∷ []) h ≡ fault
  unfolding method_concat copy_elements
  method_concat_overruns list v count vs n a b h is_list number cast small room is_b place ne fits
        large =
      let fresh =
        new_buffer_room machine n h (let e : ltb max_length (suc n) ≡ false = ground arith in e)
          room in
      rw (is_list, number, cast, fresh, is_b, copy_outside machine n a b h place ne fits large) refl

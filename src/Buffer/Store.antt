-- ===== src/Buffer/Store.antt =====
-- Bytes stored one after another, and the constructor Buffer(array) of
-- src/nodeqml/types/buffer.cpp.
use node_qml.Prelude.{
  ℕ, ◌+◌, ◌≤◌, ◌<◌, ◌≡◌, refl, ◌⊎◌, List, [], ◌∷◌, arith, length, overwrite, overwrite_cons,
  overwrite_nil, overwrite_all, sym, false, ap, ◌∙◌, Option, none, some, map, ltb, ◌%◌, length-map,
}
use node_qml.Memory.{Bytes, Heap, Outcome, ok, throw, fault, hang, M, pure, raise, continue, ◌>>◌}
use node_qml.Slice.{Slice}
use node_qml.Host.{V4, Machine}
use node_qml.Buffer.{
  view, Fits, max_length, too_large, out_of_memory, store_from, bytes_of_values, new_buffer,
  new_from_array, new_from_byte_array, allocate_data,
}
use node_qml.Buffer.View.{written, write_lem, view-written, Fits-written, length-view}
use node_qml.Buffer.Alloc.{Allocated, new_buffer-Allocated}

-- Storing byte by byte inside the bounds is one write of all of them.
pub store_from_lem :
    (s : Slice) (i : ℕ) (bs : Bytes) (h : Heap)
    → Fits h s
    → i + length bs ≤ s.size
    → (h' : Heap) × (store_from s i bs h ≡ ok tt h')
      × Fits h' s
      × (view h' s ≡ overwrite i bs (view h s))
unfolding store_from
store_from_lem s i [] h fits inside = (h, refl, fits, sym (overwrite_nil i (view h s)))
store_from_lem s i (b ∷ bs) h fits inside =
    let h1 = written h s i (b ∷ []) in
    let (h', done, fits', shown) =
      store_from_lem s (i + 1) bs h1 (Fits-written s i (b ∷ []) h fits) (omega arith) in
    (
      h',
      rw (write_lem s i (b ∷ []) h fits (omega arith)) done,
      fits',
      rw (shown, view-written s i (b ∷ []) h (omega arith), overwrite_cons i b bs (view h s)) refl,
    )

pub length-bytes_of_values :
    (v4 : V4) (items : List v4.Value) → length (bytes_of_values v4 items) ≡ length items
length-bytes_of_values v4 [] = refl
length-bytes_of_values v4 (v ∷ vs) = omega (arith, length-bytes_of_values v4 vs)

-- What `new Buffer(array)` may come to.
abbrev pub Copied : (v4 : V4) → Machine → List v4.Value → Heap → Outcome Slice → Type 0
Copied v4 machine items h (ok s h') =
    (length items ≤ max_length)
    × (s.size ≡ length items)
    × Fits h' s
    × (view h' s ≡ bytes_of_values v4 items)
Copied v4 machine items h (throw e h') =
    (h' ≡ h)
    × ((max_length < length items) × (e ≡ too_large)
        ⊎ (machine.can_allocate (length items + 1) ≡ false) × (e ≡ out_of_memory))
Copied v4 machine items h fault = ⊥
Copied v4 machine items h hang = ⊥

Copied-after :
    (v4 : V4) (machine : Machine) (items : List v4.Value) (h : Heap) (r : Outcome Slice)
    → new_buffer machine (length items) h ≡ r
    → Allocated machine (length items) h r
    → Copied v4 machine items h (new_from_array v4 machine items h)
unfolding new_from_array
Copied-after v4 machine items h (ok s h1) e (small, size, fits, others, place) =
    let (h', done, fits', shown) =
      store_from_lem s 0 (bytes_of_values v4 items) h1 fits
        (omega (arith, length-bytes_of_values v4 items)) in
    rw (e, done)
      (
        small,
        size,
        fits',
        rw shown (
            overwrite_all (bytes_of_values v4 items) (view h1 s)
              (omega (arith, length-bytes_of_values v4 items, length-view h1 s fits))),
      )
Copied-after v4 machine items h (throw x h1) e (same, why) = rw e (same, ground arith)
Copied-after v4 machine items h fault e bad = absurd bad
Copied-after v4 machine items h hang e bad = absurd bad

-- A Buffer made from an array shows the low byte of each of its elements; where the array is too
-- long or memory is short, the RangeError is thrown instead. It never faults.
pub new_from_array-Copied :
    (v4 : V4) (machine : Machine) (items : List v4.Value) (h : Heap)
    → Copied v4 machine items h (new_from_array v4 machine items h)
new_from_array-Copied v4 machine items h =
    Copied-after v4 machine items h (new_buffer machine (length items) h) refl
      (new_buffer-Allocated machine (length items) h)

-- What is made without memory is not gone on with.
made_or_thrown :
    (r : Outcome (Option Slice)) (k : Slice → M Slice)
    → continue r (λ made. elim made as (λ x. M Slice) [ none ↦ raise out_of_memory | some s ↦ k s ])
      ≡ continue
          (continue r
            (λ made. elim made as (λ x. M Slice) [ none ↦ raise out_of_memory | some s ↦ pure s ]))
          k
made_or_thrown (ok none h) k = refl
made_or_thrown (ok (some s) h) k = refl
made_or_thrown (throw e h) k = refl
made_or_thrown fault k = refl
made_or_thrown hang k = refl

-- Where the maximum is not passed, a Buffer is made from a QByteArray as it is from an array with
-- the same bytes.
new_from_byte_array-new_from_array :
    (v4 : V4) (machine : Machine) (bs : Bytes) (items : List v4.Value) (h : Heap)
    → length bs ≤ max_length
    → bytes_of_values v4 items ≡ map (λ b. b % 256) bs
    → new_from_byte_array machine bs h ≡ new_from_array v4 machine items h
unfolding new_from_byte_array new_from_array new_buffer
new_from_byte_array-new_from_array v4 machine bs items h small same =
    let lengths : length items ≡ length bs =
      sym (length-bytes_of_values v4 items) ∙ ap length same ∙ length-map bs (λ b. b % 256) in
    let inside : ltb max_length (length bs) ≡ false = ground arith in
    rw (lengths, same, inside)
      (made_or_thrown (allocate_data machine (length bs) h)
        (λ s. store_from s 0 (map (λ b. b % 256) bs) >> pure s))

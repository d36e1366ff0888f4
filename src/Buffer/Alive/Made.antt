-- ===== src/Buffer/Alive/Made.antt =====
-- A new Buffer of src/nodeqml/types/buffer.cpp beside the slices that are alive.
use node_qml.Prelude.{
  ℕ, zero, suc, ◌+◌, ◌≤◌, ◌<◌, ◌≡◌, ◌≢◌, inl, inr, refl, sym, ap, ◌∙◌, subst, some, List, [], ◌∷◌,
  arith, length, ltb, ◌==◌, Bool-cases, length-overwrite,
}
use node_qml.Memory.{ArrayData, Bytes, Heap, ok, throw, fault, bytes_at, bytes_of}
use node_qml.Slice.{Slice, null_slice}
use node_qml.Slice.Refs.{uses}
use node_qml.Host.{Machine, fresh_bytes}
use node_qml.Buffer.{max_length, new_buffer, out_of_memory, too_large}
use node_qml.Buffer.Alloc.{
  new_buffer_room, new_buffer_full, new_buffer_large, new_buffer_zero, with_array, whole, new_array,
  length-fresh_bytes,
}
use node_qml.Buffer.Construct.{new_from_bytes}
use node_qml.Buffer.Construct.Strings.{
  held, length-held, after_decode, new_from_bytes_room, new_from_bytes_full,
}
use node_qml.Buffer.Alive.{array_size, size_at, IsSound}
use node_qml.Buffer.Alive.Kept.{same_cell, KeepsLengths-IsGood}

pub null-IsSound :
    (alive : List Slice) (h : Heap) → IsSound h alive → IsSound h (null_slice ∷ alive)
null-IsSound alive h sound = record {
  counts = record {
    counted = λ b. ground (arith, sound.counts.counted b);
    held = sound.counts.held;
  };
  good = ((omega arith, inr (omega arith)), sound.good);
  free = sound.free;
}

-- The next array that is allocated is held by no slice.
unused : (alive : List Slice) (h : Heap) → IsSound h alive → uses h.next alive ≡ 0
unused alive h sound = ground (arith, sound.free h.next (omega arith), sound.counts.counted h.next)

-- An address that a living slice holds is not the next one.
used_elsewhere :
    (alive : List Slice) (h : Heap) (b : ℕ) → IsSound h alive → 0 < uses b alive → b ≢ h.next
used_elsewhere alive h b sound used e =
    let none_there : uses b alive ≡ 0 = rw e (unused alive h sound) in omega arith

-- The next array is allocated, and one slice shows all of it.
record IsFresh (h : Heap) (n : ℕ) (c : ArrayData) (h' : Heap) : Type 0 where
  advanced : h'.next ≡ h.next + 1
  elsewhere : (b : ℕ) → b ≢ h.next → h'.cells b ≡ h.cells b
  there : h'.cells h.next ≡ some c
  once : c.ref ≡ 1
  sized : c.size ≡ n
  long : n ≤ length c.bytes

fresh-IsSound :
    (n : ℕ) (c : ArrayData) (alive : List Slice) (h h' : Heap)
    → IsFresh h n c h'
    → IsSound h alive
    → IsSound h' (whole h.next n ∷ alive)
fresh-IsSound n c alive h h' fresh sound =
    let here : length (bytes_at h' (some h.next)) ≡ length c.bytes =
      ap (λ o. length (bytes_of o)) fresh.there in
    let size_here : size_at h' (some h.next) ≡ c.size = ap array_size fresh.there in
    record {
      counts = record {
        counted = λ b. elim (Bool-cases (b == h.next)) [
          | inl e ↦ ground (arith, fresh.there, fresh.once, unused alive h sound, e)
          | inr e ↦ ground (arith, fresh.elsewhere b, sound.counts.counted b, e)
        ];
        held = λ b. elim (Bool-cases (b == h.next)) [
          | inl e ↦ ground (arith, fresh.there, fresh.once, e)
          | inr e ↦ ground (arith, fresh.elsewhere b, sound.counts.held b, e)
        ];
      };
      good = (
        (
          omega (arith, here, fresh.long),
          inr (omega (arith, here, size_here, fresh.sized, fresh.long)),
        ),
        KeepsLengths-IsGood alive h h'
            (λ b used. same_cell h h' b (fresh.elsewhere b (used_elsewhere alive h b sound used)))
            sound.good,
      );
      free = λ k p.
          fresh.elsewhere k (omega (arith, fresh.advanced))
          ∙ sound.free k (omega (arith, fresh.advanced));
    }

with_array-IsFresh :
    (machine : Machine) (n : ℕ) (h : Heap)
    → IsFresh h (suc n) (new_array machine (suc n) 1) (with_array machine (suc n) h)
with_array-IsFresh machine n h = record {
  advanced = refl;
  elsewhere = λ b ne. ground arith;
  there = ground arith;
  once = refl;
  sized = refl;
  long = omega (
    arith,
    length-overwrite (suc n) (0 ∷ []) (fresh_bytes machine (suc n + 1)),
    length-fresh_bytes machine (suc n + 1),
  );
}

decoded-IsFresh :
    (machine : Machine) (bs : Bytes) (h : Heap)
    → IsFresh h (length bs) (held machine bs 1) (after_decode machine bs h)
decoded-IsFresh machine bs h = record {
  advanced = refl;
  elsewhere = λ b ne. ground arith;
  there = ground arith;
  once = refl;
  sized = refl;
  long = omega (arith, length-held machine bs);
}

pub new_from_bytes-IsSound :
    (machine : Machine) (bs : Bytes) (s : Slice) (alive : List Slice) (h h' : Heap)
    → new_from_bytes machine bs h ≡ ok s h'
    → IsSound h alive
    → IsSound h' (s ∷ alive)
new_from_bytes-IsSound machine bs s alive h h' e sound =
    elim (Bool-cases (machine.can_allocate (length bs + 1))) [
      | inl room ↦
          let made : ok (whole h.next (length bs)) (after_decode machine bs h) ≡ ok s h' =
            sym (new_from_bytes_room machine bs h room) ∙ e in
          let same : whole h.next (length bs) ≡ s = cc in
          let kept : after_decode machine bs h ≡ h' = cc in
          subst (λ t. IsSound h' (t ∷ alive)) same
            (subst (λ g. IsSound g (whole h.next (length bs) ∷ alive)) kept
              (fresh-IsSound (length bs) (held machine bs 1) alive h (after_decode machine bs h)
                (decoded-IsFresh machine bs h) sound))
      | inr full ↦
          absurd
            (let made : fault ≡ ok s h' = sym (new_from_bytes_full machine bs h full) ∙ e in cc)
    ]

pub new_buffer-IsSound :
    (machine : Machine) (n : ℕ) (s : Slice) (alive : List Slice) (h h' : Heap)
    → new_buffer machine n h ≡ ok s h'
    → IsSound h alive
    → IsSound h' (s ∷ alive)
new_buffer-IsSound machine zero s alive h h' e sound =
    let made : ok null_slice h ≡ ok s h' = rw (new_buffer_zero machine h) at e in
    let same : null_slice ≡ s = cc in
    let kept : h ≡ h' = cc in
    subst (λ t. IsSound h' (t ∷ alive)) same
      (subst (λ g. IsSound g (null_slice ∷ alive)) kept (null-IsSound alive h sound))
new_buffer-IsSound machine (suc n) s alive h h' e sound =
    elim (Bool-cases (ltb max_length (suc n))) [
      | inl large ↦ absurd (
          let made : throw too_large h ≡ ok s h' = rw (new_buffer_large machine n h large) at e in
          cc)
      | inr small ↦ elim (Bool-cases (machine.can_allocate (suc n + 1))) [
        | inl room ↦
            let made : ok (whole h.next (suc n)) (with_array machine (suc n) h) ≡ ok s h' =
              rw (new_buffer_room machine n h small room) at e in
            let same : whole h.next (suc n) ≡ s = cc in
            let kept : with_array machine (suc n) h ≡ h' = cc in
            subst (λ t. IsSound h' (t ∷ alive)) same
              (subst (λ g. IsSound g (whole h.next (suc n) ∷ alive)) kept
                (fresh-IsSound (suc n) (new_array machine (suc n) 1) alive h
                  (with_array machine (suc n) h) (with_array-IsFresh machine n h) sound))
        | inr full ↦ absurd (
            let made : throw out_of_memory h ≡ ok s h' =
              rw (new_buffer_full machine n h small full) at e in
            cc)
      ]
    ]

-- ===== src/Buffer/Construct/Strings.antt =====
-- new Buffer(string) of src/nodeqml/types/buffer.cpp.
use node_qml.Prelude.{
  ℕ, zero, suc, ◌+◌, ◌≡◌, ◌≢◌, refl, ap, ◌∙◌, true, false, some, [], ◌∷◌, arith, length, sub,
  overwrite, length-overwrite, sub-overwrite_self, Bool-cases, inl, inr, take, ◌==◌, if◌then◌else◌,
}
use node_qml.Memory.{Bytes, Heap, ArrayData, Outcome, ok, throw, fault, hang, bytes_at, put_cell}
use node_qml.Slice.{Slice}
use node_qml.Host.{Machine, fresh_bytes}
use node_qml.Buffer.{view, Fits}
use node_qml.Buffer.Alloc.{whole, length-fresh_bytes}
use node_qml.Buffer.Construct.{from_string, own_array, new_from_bytes}

-- The array that holds some bytes and a zero behind them.
abbrev pub held : Machine → Bytes → ℕ → ArrayData
held machine bs refs = record {
  ref = refs;
  size = length bs;
  bytes = overwrite (length bs) (0 ∷ []) (overwrite 0 bs (fresh_bytes machine (length bs + 1)));
}

abbrev counted : ℕ → Bytes → ℕ → ArrayData
counted n bs refs = record { ref = refs; size = n; bytes = bs }

-- The heap with the array counted a last time.
abbrev recounted : ℕ → ℕ → Bytes → Heap → Heap
recounted a n bs h =
    put_cell
      (put_cell (put_cell (put_cell h a (some (counted n bs 2))) a (some (counted n bs 1))) a
        (some (counted n bs 2)))
      a (some (counted n bs 1))

own_array_lem :
    (a n : ℕ) (bs : Bytes) (h : Heap)
    → h.cells a ≡ some (counted n bs 1)
    → own_array (some a) h ≡ ok (whole a n) (recounted a n bs h)
unfolding own_array
own_array_lem a zero bs h at_a = ground arith
own_array_lem a (suc n) bs h at_a = ground arith

-- The heap that fromString leaves.
abbrev stored : Machine → Bytes → Heap → Heap
stored machine bs h =
    let a = h.next in
    let n = length bs in
    let fresh = fresh_bytes machine (n + 1) in
    let base : Heap = record {
      next = a + 1;
      cells = λ k. if k == a then some (counted 0 fresh 1) else h.cells k;
    } in
    put_cell
      (put_cell (put_cell base a (some (counted 0 (overwrite 0 bs fresh) 1))) a
        (some (counted n (overwrite 0 bs fresh) 1)))
      a (some (held machine bs 1))

from_string_lem :
    (machine : Machine) (bs : Bytes) (h : Heap)
    → machine.can_allocate (length bs + 1) ≡ true
    → from_string machine bs h ≡ ok (some h.next) (stored machine bs h)
unfolding from_string
from_string_lem machine bs h room = ground (
  arith,
  length-fresh_bytes machine (length bs + 1),
  length-overwrite 0 bs (fresh_bytes machine (length bs + 1)),
)

take-overwrite_behind : (n : ℕ) (ys xs : Bytes) → take n (overwrite n ys xs) ≡ take n xs
take-overwrite_behind zero ys [] = refl
take-overwrite_behind zero ys (x ∷ xs) = refl
take-overwrite_behind (suc n) ys [] = refl
take-overwrite_behind (suc n) ys (x ∷ xs) = ap (λ t. x ∷ t) (take-overwrite_behind n ys xs)

held-bytes : (machine : Machine) (bs : Bytes) → sub 0 (length bs) (held machine bs 1).bytes ≡ bs
held-bytes machine bs =
    take-overwrite_behind (length bs) (0 ∷ [])
      (overwrite 0 bs (fresh_bytes machine (length bs + 1)))
    ∙ sub-overwrite_self 0 bs (fresh_bytes machine (length bs + 1))
        (omega (arith, length-fresh_bytes machine (length bs + 1)))

-- What `new Buffer(string)` may come to, with the bytes that the string is decoded to: without
-- memory, the count of a null pointer is lowered.
abbrev pub Decoded : Machine → Bytes → Heap → Outcome Slice → Type 0
Decoded machine bs h (ok s h') =
    (machine.can_allocate (length bs + 1) ≡ true)
    × (s.size ≡ length bs)
    × Fits h' s
    × (view h' s ≡ bs)
    × ((b : ℕ) → b ≢ h.next → h'.cells b ≡ h.cells b)
    × ((c : ArrayData) × (h'.cells h.next ≡ some c) × (c.ref ≡ 1))
Decoded machine bs h (throw e h') = ⊥
Decoded machine bs h fault = machine.can_allocate (length bs + 1) ≡ false
Decoded machine bs h hang = ⊥

kept_bytes :
    (machine : Machine) (bs : Bytes) (h : Heap)
    → bytes_at
        (recounted h.next (length bs) (held machine bs 1).bytes (stored machine bs h))
        (some h.next)
      ≡ (held machine bs 1).bytes
kept_bytes machine bs h = ground arith

pub length-held :
    (machine : Machine) (bs : Bytes) → length (held machine bs 1).bytes ≡ length bs + 1
length-held machine bs =
    length-overwrite (length bs) (0 ∷ []) (overwrite 0 bs (fresh_bytes machine (length bs + 1)))
    ∙ length-overwrite 0 bs (fresh_bytes machine (length bs + 1))
    ∙ length-fresh_bytes machine (length bs + 1)

-- The heap with the array of a new Buffer of these bytes.
abbrev pub after_decode : Machine → Bytes → Heap → Heap
after_decode machine bs h =
    recounted h.next (length bs) (held machine bs 1).bytes (stored machine bs h)

pub new_from_bytes_room :
    (machine : Machine) (bs : Bytes) (h : Heap)
    → machine.can_allocate (length bs + 1) ≡ true
    → new_from_bytes machine bs h ≡ ok (whole h.next (length bs)) (after_decode machine bs h)
unfolding new_from_bytes
new_from_bytes_room machine bs h room =
    rw
      (
        from_string_lem machine bs h room,
        own_array_lem h.next (length bs) (held machine bs 1).bytes (stored machine bs h)
            (ground arith),
      )
      refl

pub new_from_bytes_full :
    (machine : Machine) (bs : Bytes) (h : Heap)
    → machine.can_allocate (length bs + 1) ≡ false
    → new_from_bytes machine bs h ≡ fault
unfolding new_from_bytes from_string own_array
new_from_bytes_full machine bs h full = rw full refl

-- A Buffer made from the bytes of a string shows those bytes, holds its array alone, and changes no
-- other array; where memory is short, the program faults instead of throwing.
pub new_from_bytes-Decoded :
    (machine : Machine) (bs : Bytes) (h : Heap) → Decoded machine bs h (new_from_bytes machine bs h)
new_from_bytes-Decoded machine bs h = elim (Bool-cases (machine.can_allocate (length bs + 1))) [
  | inl room ↦ rw (new_from_bytes_room machine bs h room) (
    room,
    refl,
    rw (kept_bytes machine bs h) (omega (arith, length-held machine bs)),
    ap (λ xs. sub 0 (length bs) xs) (kept_bytes machine bs h) ∙ held-bytes machine bs,
    λ b ne. ground arith,
    (held machine bs 1, ground arith, refl),
  )
  | inr full ↦ rw (new_from_bytes_full machine bs h full) full
]

-- ===== src/Buffer/Alive/Makes.antt =====
-- The ways to make a Buffer of src/nodeqml/types/buffer.cpp, as steps on the slices that are alive.
pub mod Construct
pub mod Faults
use mathlib.Core.List.{Permᴰ}
use mathlib.Core.List.Permᴰ
use node_qml.Prelude.{
  ℕ, zero, suc, ◌+◌, ◌≤◌, ◌≡◌, refl, subst, Option, some, none, List, [], ◌∷◌, All, arith, length,
  leb, Bool-cases, inl, inr, false, codes, text_eq,
}
use node_qml.Memory.{Bytes, QString, Heap, M, Outcome, ok, throw, fault, hang, ◌>>=◌, ◌>>◌, pure}
use node_qml.Slice.{Slice}
use node_qml.Slice.Refs.{from_slice-IsCounted}
use node_qml.Host.{Machine, V4, Text}
use node_qml.Buffer.{
  new_from_slice, new_buffer, new_from_array, store_from, put_indexed, byte_of, bytes_of_values,
}
use node_qml.Buffer.Alloc.{Allocated, new_buffer-Allocated}
use node_qml.Buffer.Store.{length-bytes_of_values}
use node_qml.Buffer.View.{written, write_lem}
use node_qml.Buffer.Construct.{
  new_from_bytes, put_elements, construct_string, construct_like, construct_json, construct_other,
  construct_shared, construct_items, construct,
}
use node_qml.Buffer.Encoding.{is_invalid, parse_encoding}
use node_qml.Buffer.Construct.Strings.{Decoded, new_from_bytes-Decoded}
use node_qml.Buffer.Alive.{IsSound}
use node_qml.Buffer.Alive.Steps.{
  Step, Steps, done, more, new_step, text_step, share_step, write_step, order_step, Step-IsSound,
  Steps-IsSound, Steps-append,
}

-- What an operation that makes a Buffer comes to: steps after which one more slice is alive; an
-- exception, with the heap as it was; or, for a text alone, an array that was not to be had.
abbrev pub Makes : Machine → List Slice → Heap → Outcome Slice → Type 0
Makes machine alive h (ok s h') = Steps machine h alive h' (s ∷ alive)
Makes machine alive h (throw e h') = h' ≡ h
Makes machine alive h fault =
    (bs : Bytes) × (new_from_bytes machine bs h ≡ fault)
    × (machine.can_allocate (length bs + 1) ≡ false)
Makes machine alive h hang = ⊥

-- A value that is a Buffer is one of the living ones.
abbrev pub IsKnown : (v4 : V4) → List Slice → v4.Value → Type 0
IsKnown v4 alive v =
    (s : Slice) → v4.as_buffer v ≡ some s → (others : List Slice) × Permᴰ alive (s ∷ others)

-- Stores through a slice that is alive: they come to an end, and are steps.
abbrev pub StoresAll : Machine → Slice → List Slice → Heap → Outcome (Unit {0}) → Type 0
StoresAll machine s alive h r =
    (h' : Heap) × (r ≡ ok tt h') × Steps machine h (s ∷ alive) h' (s ∷ alive)

store_from-StoresAll :
    (machine : Machine) (s : Slice) (i : ℕ) (bs : Bytes) (alive : List Slice) (h : Heap)
    → IsSound h (s ∷ alive)
    → i + length bs ≤ s.size
    → StoresAll machine s alive h (store_from s i bs h)
unfolding store_from
store_from-StoresAll machine s i [] alive h sound inside = (h, refl, done)
store_from-StoresAll machine s i (b ∷ bs) alive h sound inside =
    let stored = write_lem s i (b ∷ []) h sound.good.0.0 (omega arith) in
    let step : Step machine h (s ∷ alive) (written h s i (b ∷ [])) (s ∷ alive) =
      write_step i (b ∷ []) stored in
    let (h', made, steps) =
      store_from-StoresAll machine s (i + 1) bs alive (written h s i (b ∷ []))
        (Step-IsSound machine _ _ h _ step sound) (omega arith) in
    (h', rw stored made, more step steps)

module _ (v4 : V4) (machine : Machine) where
  pub put_indexed-StoresAll :
      (s : Slice) (i : ℕ) (v : v4.Value) (alive : List Slice) (h : Heap)
      → IsSound h (s ∷ alive)
      → StoresAll machine s alive h (put_indexed v4 s i v h)
  unfolding put_indexed
  put_indexed-StoresAll s i v alive h sound = elim (Bool-cases (leb s.size i)) [
    | inl past ↦ (h, ground arith, done)
    | inr inside ↦
        let stored = write_lem s i (byte_of v4 v ∷ []) h sound.good.0.0 (ground arith) in
        (_, rw inside stored, more (write_step i (byte_of v4 v ∷ []) stored) done)
  ]

pub new_buffer-Makes :
    (machine : Machine) (n : ℕ) (alive : List Slice) (h : Heap) (r : Outcome Slice)
    → new_buffer machine n h ≡ r
    → Makes machine alive h r
new_buffer-Makes machine n alive h (ok s h') e = more (new_step n e) done
new_buffer-Makes machine n alive h (throw x h') e =
    let why = subst (Allocated machine n h) e (new_buffer-Allocated machine n h) in why.0
new_buffer-Makes machine n alive h fault e =
    absurd (subst (Allocated machine n h) e (new_buffer-Allocated machine n h))
new_buffer-Makes machine n alive h hang e =
    absurd (subst (Allocated machine n h) e (new_buffer-Allocated machine n h))

-- A Buffer of `n` bytes, and then stores through it.
pub filled-Makes :
    (machine : Machine) (n : ℕ) (fill : Slice → M (Unit {0})) (alive : List Slice) (h : Heap)
    → ((s : Slice) (h1 : Heap)
        → s.size ≡ n
        → IsSound h1 (s ∷ alive)
        → StoresAll machine s alive h1 (fill s h1))
    → IsSound h alive
    → (r : Outcome Slice) → new_buffer machine n h ≡ r
    → Makes machine alive h ((do s ← new_buffer machine n; fill s; pure s) h)
filled-Makes machine n fill alive h stores sound (ok s h1) e =
    let allocated : Allocated machine n h (ok s h1) =
      subst (Allocated machine n h) e (new_buffer-Allocated machine n h) in
    let step : Step machine h alive h1 (s ∷ alive) = new_step n e in
    let (h', made, steps) = stores s h1 allocated.1 (Step-IsSound machine _ _ h h1 step sound) in
    rw (e, made) (more step steps)
filled-Makes machine n fill alive h stores sound (throw x h') e =
    rw e (new_buffer-Makes machine n alive h (throw x h') e)
filled-Makes machine n fill alive h stores sound fault e =
    rw e (new_buffer-Makes machine n alive h fault e)
filled-Makes machine n fill alive h stores sound hang e =
    rw e (new_buffer-Makes machine n alive h hang e)

pub new_from_array-Makes :
    (v4 : V4) (machine : Machine) (items : List v4.Value) (alive : List Slice) (h : Heap)
    → IsSound h alive
    → Makes machine alive h (new_from_array v4 machine items h)
unfolding new_from_array
new_from_array-Makes v4 machine items alive h sound =
    filled-Makes machine (length items) (λ s. store_from s 0 (bytes_of_values v4 items)) alive h
      (λ s h1 sized sound1.
        store_from-StoresAll machine s 0 (bytes_of_values v4 items) alive h1 sound1
          (omega (arith, sized, length-bytes_of_values v4 items)))
      sound (new_buffer machine (length items) h) refl

pub new_from_bytes-Makes :
    (machine : Machine) (bs : Bytes) (alive : List Slice) (h : Heap) (r : Outcome Slice)
    → new_from_bytes machine bs h ≡ r
    → Makes machine alive h r
new_from_bytes-Makes machine bs alive h (ok s h') e = more (text_step bs e) done
new_from_bytes-Makes machine bs alive h (throw x h') e =
    absurd (subst (Decoded machine bs h) e (new_from_bytes-Decoded machine bs h))
new_from_bytes-Makes machine bs alive h fault e =
    (bs, e, subst (Decoded machine bs h) e (new_from_bytes-Decoded machine bs h))
new_from_bytes-Makes machine bs alive h hang e =
    absurd (subst (Decoded machine bs h) e (new_from_bytes-Decoded machine bs h))

-- The Buffer that is copied is brought to the front, and back.
pub new_from_slice-Makes :
    (machine : Machine) (s : Slice) (others alive : List Slice) (h : Heap)
    → Permᴰ alive (s ∷ others)
    → IsSound h alive
    → Makes machine alive h (new_from_slice s h)
unfolding new_from_slice
new_from_slice-Makes machine s others alive h p sound =
    let front : Step machine h alive h (s ∷ others) = order_step p in
    let (t, h', made, _, _) =
      from_slice-IsCounted s others 0 none h (Step-IsSound machine _ _ h h front sound).counts in
    let back : Step machine h' (t ∷ s ∷ others) h' (t ∷ alive) =
      order_step (Permᴰ.cons refl (Permᴰ.symm p)) in
    rw made (more front (more (share_step made) (more back done)))

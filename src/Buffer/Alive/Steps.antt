-- ===== src/Buffer/Alive/Steps.antt =====
-- What the program does with slices, and so with Buffers, of src/nodeqml/types/buffer.cpp, as a step
-- relation on the heap and the slices that are alive.
use mathlib.Core.List.{Permᴰ}
use node_qml.Prelude.{
  ap₂, ℕ, ◌+◌, ◌≤◌, ◌≡◌, inl, inr, refl, sym, ◌∙◌, subst, none, some, List, [], ◌∷◌, All, arith,
  length, Bool-cases,
}
use node_qml.Memory.{Bytes, Heap, ok, fault, is_inside, write_bytes, bytes_at}
use node_qml.Slice.{Slice, from_slice, destroy, write}
use node_qml.Slice.Refs.{points_to, uses}
use node_qml.Host.{Machine}
use node_qml.Buffer.{new_from_slice, new_buffer}
use node_qml.Buffer.View.{written}
use node_qml.Buffer.Alive.{IsGood, IsSound}
use node_qml.Buffer.Alive.Made.{new_buffer-IsSound, new_from_bytes-IsSound}
use node_qml.Buffer.Construct.{new_from_bytes}
use node_qml.Buffer.Alive.Copied.{copied-IsSound, shared-IsSound, destroyed-IsSound}
use node_qml.Buffer.Alive.Kept.{written-IsSound}

-- One thing done to the slices that are alive: a new Buffer of a size or of a text, a slice of a part of one, a
-- Buffer of the bytes of one, bytes stored through one, the end of one, and another order of them.
pub data Step (machine : Machine) : Heap → List Slice → Heap → List Slice → Type 0 where
  new_step :
      (n : ℕ) {s : Slice} {alive : List Slice} {h h' : Heap}
      → new_buffer machine n h ≡ ok s h'
      → Step machine h alive h' (s ∷ alive)
  text_step :
      (bs : Bytes) {s : Slice} {alive : List Slice} {h h' : Heap}
      → new_from_bytes machine bs h ≡ ok s h'
      → Step machine h alive h' (s ∷ alive)
  slice_step :
      (offset n : ℕ) {s t : Slice} {alive : List Slice} {h h' : Heap}
      → from_slice s offset (some n) h ≡ ok t h'
      → offset + n ≤ s.size
      → Step machine h (s ∷ alive) h' (t ∷ s ∷ alive)
  share_step :
      {s t : Slice} {alive : List Slice} {h h' : Heap}
      → new_from_slice s h ≡ ok t h'
      → Step machine h (s ∷ alive) h' (t ∷ s ∷ alive)
  write_step :
      (i : ℕ) (bs : Bytes) {s : Slice} {alive : List Slice} {h h' : Heap}
      → write s i bs h ≡ ok tt h'
      → Step machine h (s ∷ alive) h' (s ∷ alive)
  destroy_step :
      {s : Slice} {alive : List Slice} {h h' : Heap}
      → destroy s h ≡ ok tt h'
      → Step machine h (s ∷ alive) h' alive
  order_step :
      {alive alive' : List Slice} {h : Heap} → Permᴰ alive alive' → Step machine h alive h alive'

pub data Steps (machine : Machine) : Heap → List Slice → Heap → List Slice → Type 0 where
  done : {alive : List Slice} {h : Heap} → Steps machine h alive h alive
  more :
      {alive alive' alive'' : List Slice} {h h' h'' : Heap}
      → Step machine h alive h' alive'
      → Steps machine h' alive' h'' alive''
      → Steps machine h alive h'' alive''

uses_ordered :
    (b : ℕ) (alive alive' : List Slice) → Permᴰ alive alive' → uses b alive ≡ uses b alive'
uses_ordered b _ _ Permᴰ.nil = refl
uses_ordered b _ _ (Permᴰ.cons e p) = ap₂ (λ s n. points_to b s.array + n) e (uses_ordered b _ _ p)
uses_ordered b _ _ (Permᴰ.swap {a} {b = c} e f) = rw (sym e, sym f) (omega arith)
uses_ordered b _ _ (Permᴰ.trans p q) = uses_ordered b _ _ p ∙ uses_ordered b _ _ q

ordered-IsGood :
    (h : Heap) (alive alive' : List Slice)
    → Permᴰ alive alive'
    → All (IsGood h) alive
    → All (IsGood h) alive'
ordered-IsGood h _ _ Permᴰ.nil good = tt
ordered-IsGood h _ _ (Permᴰ.cons e p) (g, good) =
    (subst (IsGood h) e g, ordered-IsGood h _ _ p good)
ordered-IsGood h _ _ (Permᴰ.swap e f) (g, (g', good)) =
    (subst (IsGood h) f g', (subst (IsGood h) e g, good))
ordered-IsGood h _ _ (Permᴰ.trans p q) good = ordered-IsGood h _ _ q (ordered-IsGood h _ _ p good)

ordered-IsSound :
    (alive alive' : List Slice) (h : Heap) → Permᴰ alive alive' → IsSound h alive → IsSound h alive'
ordered-IsSound alive alive' h p sound = record {
  counts = record {
    counted = λ b. sound.counts.counted b ∙ uses_ordered b alive alive' p;
    held = sound.counts.held;
  };
  good = ordered-IsGood h alive alive' p sound.good;
  free = sound.free;
}

-- Bytes that were stored are in the array of the slice.
write-written :
    (s : Slice) (i : ℕ) (bs : Bytes) (h h' : Heap)
    → write s i bs h ≡ ok tt h'
    → written h s i bs ≡ h'
unfolding write write_bytes
write-written s i bs h h' e =
    elim (Bool-cases (is_inside (s.begin + i) (length bs) (length (bytes_at h s.array)))) [
      | inl inside ↦ let made : ok tt (written h s i bs) ≡ ok tt h' = rw inside at e in cc
      | inr outside ↦ absurd (let made : fault ≡ ok tt h' = rw outside at e in cc)
    ]

write_step-IsSound :
    (s : Slice) (i : ℕ) (bs : Bytes) (alive : List Slice) (h h' : Heap)
    → write s i bs h ≡ ok tt h'
    → IsSound h (s ∷ alive)
    → IsSound h' (s ∷ alive)
write_step-IsSound s i bs alive h h' e sound =
    subst (λ g. IsSound g (s ∷ alive)) (write-written s i bs h h' e)
      (written-IsSound s i bs (s ∷ alive) h sound)

pub Step-IsSound :
    (machine : Machine) (alive alive' : List Slice) (h h' : Heap)
    → Step machine h alive h' alive'
    → IsSound h alive
    → IsSound h' alive'
Step-IsSound machine _ _ h h' (new_step n e) sound = new_buffer-IsSound machine n _ _ h h' e sound
Step-IsSound machine _ _ h h' (text_step bs e) sound =
    new_from_bytes-IsSound machine bs _ _ h h' e sound
Step-IsSound machine _ _ h h' (slice_step offset n e inside) sound =
    copied-IsSound _ _ offset n _ h h' e inside sound
Step-IsSound machine _ _ h h' (share_step e) sound = shared-IsSound _ _ _ h h' e sound
Step-IsSound machine _ _ h h' (write_step i bs e) sound = write_step-IsSound _ i bs _ h h' e sound
Step-IsSound machine _ _ h h' (destroy_step e) sound = destroyed-IsSound _ _ h h' e sound
Step-IsSound machine _ _ h h' (order_step p) sound = ordered-IsSound _ _ h p sound

pub Steps-append :
    (machine : Machine) (alive alive' alive'' : List Slice) (h h' h'' : Heap)
    → Steps machine h alive h' alive'
    → Steps machine h' alive' h'' alive''
    → Steps machine h alive h'' alive''
Steps-append machine _ _ _ h h' h'' done after = after
Steps-append machine _ _ _ h h' h'' (more step steps) after =
    more step (Steps-append machine _ _ _ _ h' h'' steps after)

pub Steps-IsSound :
    (machine : Machine) (alive alive' : List Slice) (h h' : Heap)
    → Steps machine h alive h' alive'
    → IsSound h alive
    → IsSound h' alive'
Steps-IsSound machine _ _ h h' done sound = sound
Steps-IsSound machine _ _ h h' (more step steps) sound =
    Steps-IsSound machine _ _ _ h' steps (Step-IsSound machine _ _ h _ step sound)

pub Steps-frees :
    (machine : Machine) (alive : List Slice) (h h' : Heap)
    → Steps machine h alive h' []
    → IsSound h alive
    → (a : ℕ) → h'.cells a ≡ none
Steps-frees machine alive h h' steps sound a =
    let after = Steps-IsSound machine alive [] h h' steps sound in
    ground (arith, after.counts.counted a, after.counts.held a)

-- ===== src/Buffer/Fill/Whole.antt =====
-- `fill` with the bytes of a string: what it leaves, and where it does not end.
use native.Mathlib.Nat.{mod-eq_of_lt, mod-one}
use node_qml.Prelude.{
  ℕ, zero, suc, ◌+◌, ◌-◌, ◌%◌, ◌≤◌, ◌<◌, min, ◌≡◌, refl, inl, inr, true, false, [], ◌∷◌, arith,
  length, get_or, take, overwrite, ltb, leb, Bool-cases, get_or-take, get_or-overwrite_in,
  get_or-overwrite_out, length-take, sym, ◌∙◌, ap, pos, replicate, length-replicate,
}
use node_qml.Memory.{Bytes, Heap, ok, hang}
use node_qml.Slice.{Slice, read, write}
use node_qml.Buffer.{view, Fits}
use node_qml.Buffer.View.{written, length-view, write_lem, view-written, Fits-written}
use node_qml.Buffer.Fill.{memset, fill_loop, fill_bytes}
use node_qml.Buffer.Fill.Loop.{IsFilled, fill_loop_lem, fill_tail_lem}

-- A write of `bs` at `offset` that repeats the value.
written-IsFilled :
    (s : Slice) (value bs : Bytes) (offset n : ℕ) (h : Heap)
    → Fits h s
    → offset + n ≤ s.size
    → length bs ≤ n
    → ((j : ℕ) → j < length bs → get_or bs j 0 ≡ get_or value (j % length value) 0)
    → IsFilled s value offset n h (length bs) (written h s offset bs)
written-IsFilled s value bs offset n h fits room short same =
    let shown : view (written h s offset bs) s ≡ overwrite offset bs (view h s) =
      view-written s offset bs h (omega arith) in
    record {
      fits = Fits-written s offset bs h fits;
      inside = λ j p.
          rw
            (
              shown,
              get_or-overwrite_in offset j 0 bs (view h s) p (omega (arith, length-view h s fits)),
            )
            (same j p);
      outside = λ j p. rw (shown, get_or-overwrite_out offset j 0 bs (view h s) (omega arith)) refl;
    }

get_or-replicate : (n b j : ℕ) → j < n → get_or (replicate n b) j 0 ≡ b
get_or-replicate zero b j p = absurd (omega arith)
get_or-replicate (suc n) b zero p = refl
get_or-replicate (suc n) b (suc j) p = get_or-replicate n b j (omega arith)

pub memset_lem :
    (s : Slice) (offset b n : ℕ) (h : Heap)
    → Fits h s
    → offset + n ≤ s.size
    → (h' : Heap) × (memset s offset b (pos n) h ≡ ok tt h') × IsFilled s (b ∷ []) offset n h n h'
unfolding memset
memset_lem s offset b n h fits room =
    let l : length (replicate n b) ≡ n = length-replicate n b in
    (
      written h s offset (replicate n b),
      write_lem s offset (replicate n b) h fits (omega arith),
      rw l at (
          written-IsFilled s (b ∷ []) (replicate n b) offset n h fits room (omega arith) λ j p.
            get_or-replicate n b j (omega arith) ∙ ap (λ t. get_or (b ∷ []) t 0) (sym (mod-one j))),
    )

-- The first bytes, before the loop.
start_lem :
    (s : Slice) (value : Bytes) (offset n : ℕ) (h : Heap)
    → Fits h s
    → offset + n ≤ s.size
    → (h1 : Heap) × (write s offset (take (min (length value) n) value) h ≡ ok tt h1)
      × IsFilled s value offset n h (min (length value) n) h1
start_lem s value offset n h fits room =
    let bs = take (min (length value) n) value in
    let l : length bs ≡ min (length value) n =
      omega (arith, length-take (min (length value) n) value) in
    (
      written h s offset bs,
      write_lem s offset bs h fits (omega arith),
      rw l at (
          written-IsFilled s value bs offset n h fits room (omega arith) λ j p.
            get_or-take (min (length value) n) j 0 value (omega arith)
            ∙ ap (λ t. get_or value t 0) (sym (mod-eq_of_lt (omega arith)))),
    )

fill_long :
    (s : Slice) (b c : ℕ) (rest : Bytes) (offset n : ℕ) (h : Heap)
    → Fits h s
    → offset + n ≤ s.size
    → (h' : Heap) × (fill_bytes s offset (b ∷ c ∷ rest) (pos n) h ≡ ok tt h')
      × IsFilled s (b ∷ c ∷ rest) offset n h n h'
unfolding fill_bytes
fill_long s b c rest offset n h fits room =
    let value = b ∷ c ∷ rest in
    let (h1, done1, w1) = start_lem s value offset n h fits room in
    elim (Bool-cases (leb n (length value))) [
      | inl short ↦
          let k : min (length value) n ≡ n = ground arith in
          (h1, rw (done1, short) refl, rw k at w1)
      | inr long ↦
          let k : min (length value) n ≡ length value = ground arith in
          let (k', q', h2, done2, e, below, half, w2) =
            fill_loop_lem s value offset n h room n 1 (length value) h1 (omega arith) (omega arith)
              (ground arith) (omega arith) (rw k at w1) in
          let (h3, done3, w3) = fill_tail_lem s value offset n h room q' k' h2 e below half w2 in
          (h3, rw (done1, long, done2, done3) refl, w3)
    ]

-- Filling a range inside a Buffer with a string that is not empty ends and sets each byte of the
-- range: byte `j` of it is byte `j`, modulo the length of the string, of the string. No other byte
-- of the Buffer changes.
pub fill_bytes-IsFilled :
    (s : Slice) (value : Bytes) (offset n : ℕ) (h : Heap)
    → 0 < length value
    → Fits h s
    → offset + n ≤ s.size
    → (h' : Heap) × (fill_bytes s offset value (pos n) h ≡ ok tt h')
      × IsFilled s value offset n h n h'
fill_bytes-IsFilled s [] offset n h some_byte fits room = absurd (omega arith)
fill_bytes-IsFilled s (b ∷ []) offset n h some_byte fits room =
    unfold fill_bytes in memset_lem s offset b n h fits room
fill_bytes-IsFilled s (b ∷ c ∷ rest) offset n h some_byte fits room =
    fill_long s b c rest offset n h fits room

fill_loop_stuck :
    (s : Slice) (offset n fuel : ℕ) (h : Heap) → fill_loop s offset (suc n) fuel 0 h ≡ hang
unfolding fill_loop read write
fill_loop_stuck s offset n zero h = refl
fill_loop_stuck s offset n (suc fuel) h =
    let more : ltb 0 (suc n - 0) ≡ true = ground arith in
    rw more (fill_loop_stuck s offset n fuel _)

-- With the empty string and a range that is not empty, the loop never ends: it uses up any fuel.
pub fill_empty_hangs :
    (s : Slice) (offset n : ℕ) (h : Heap) → fill_bytes s offset [] (pos (suc n)) h ≡ hang
unfolding fill_bytes write
fill_empty_hangs s offset n h =
    let long : leb (suc n) 0 ≡ false = ground arith in
    let k : min 0 (suc n) ≡ 0 = omega arith in rw (k, long, fill_loop_stuck s offset n (suc n) _)

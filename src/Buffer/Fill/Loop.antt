-- ===== src/Buffer/Fill/Loop.antt =====
-- The doubling loop of `fill`: it repeats the bytes of the value over the whole range.
use native.Mathlib.Nat.{add-mul-mod_self_right, add_comm}
use node_qml.Prelude.{
  ℕ, zero, suc, ◌+◌, ◌-◌, ◌*◌, ◌%◌, ◌≤◌, ◌<◌, ◌≡◌, refl, ◌⊎◌, inl, inr, arith, length, get_or, drop,
  sub, overwrite, ltb, Bool-cases, length-sub, get_or-sub, get_or-overwrite_in,
  get_or-overwrite_out, length-take, sym, ◌∙◌, ap,
}
use node_qml.Memory.{Bytes, Heap, ok}
use node_qml.Slice.{Slice, read, write}
use node_qml.Buffer.{view, Fits}
use node_qml.Buffer.View.{written, length-view, write_lem, read-view, view-written, Fits-written}
use node_qml.Buffer.Fill.{fill_loop, fill_tail}

-- The first `k` bytes from `offset` on repeat `value`, and nothing outside the `n` bytes from
-- `offset` on has changed since the heap `h0`.
pub record IsFilled (s : Slice) (value : Bytes) (offset n : ℕ) (h0 : Heap) (k : ℕ) (h : Heap)
    : Type 0 where
  pub fits : Fits h s
  pub inside :
      (j : ℕ) → j < k → get_or (view h s) (offset + j) 0 ≡ get_or value (j % length value) 0
  pub outside :
      (j : ℕ) → (j < offset) ⊎ (offset + n ≤ j) → get_or (view h s) j 0 ≡ get_or (view h0 s) j 0

mod_shift : (q m i : ℕ) → (q * m + i) % m ≡ i % m
mod_shift q m i = rw (add_comm (q * m) i) (add-mul-mod_self_right i q m)

-- `xs` repeats `value` in the `k` elements from `offset` on.
abbrev Repeats : Bytes → ℕ → ℕ → Bytes → Type 0
Repeats value offset k xs =
    (j : ℕ) → j < k → get_or xs (offset + j) 0 ≡ get_or value (j % length value) 0

Repeats-copied :
    (value xs : Bytes) (offset q k m : ℕ)
    → k ≡ q * length value
    → m ≤ k
    → offset + (k + m) ≤ length xs
    → Repeats value offset k xs
    → Repeats value offset (k + m) (overwrite (offset + k) (sub offset m xs) xs)
Repeats-copied value xs offset q k m e short room old j p =
    let length_bs : length (sub offset m xs) ≡ m = length-sub offset m xs (omega arith) in
    elim (Bool-cases (ltb j k)) [
      | inl before ↦
          get_or-overwrite_out (offset + k) (offset + j) 0 (sub offset m xs) xs (inl (ground arith))
          ∙ old j (ground arith)
      | inr behind ↦
          let i = j - k in
          let i_lt : i < m = ground arith in
          let at : offset + j ≡ offset + k + i = ground arith in
          let at' : j ≡ q * length value + i = ground arith in
          rw
            (
              at,
              get_or-overwrite_in (offset + k) i 0 (sub offset m xs) xs (omega arith) (omega arith),
              get_or-sub offset m i 0 xs i_lt,
              old i (omega arith),
            )
            (ap (λ t. get_or value t 0)
              (sym (mod_shift q (length value) i) ∙ ap (λ t. t % length value) (sym at')))
    ]

module _ (s : Slice) (value : Bytes) (offset n : ℕ) (h0 : Heap) (room : offset + n ≤ s.size) where
  -- The first `m` of the bytes done so far, copied behind them.
  abbrev copied : Heap → ℕ → ℕ → Heap
  copied h k m = written h s (offset + k) (sub offset m (view h s))

  copied-IsFilled :
      (q k m : ℕ) (h : Heap)
      → k ≡ q * length value
      → m ≤ k
      → k + m ≤ n
      → IsFilled s value offset n h0 k h
      → IsFilled s value offset n h0 (k + m) (copied h k m)
  copied-IsFilled q k m h e short fit w =
      let bs = sub offset m (view h s) in
      let length_bs : length bs ≡ m =
        length-sub offset m (view h s) (omega (arith, length-view h s w.fits)) in
      let shown : view (written h s (offset + k) bs) s ≡ overwrite (offset + k) bs (view h s) =
        view-written s (offset + k) bs h (omega arith) in
      record {
        fits = Fits-written s (offset + k) bs h w.fits;
        inside = λ j p. rw shown (
            Repeats-copied value (view h s) offset q k m e short
              (omega (arith, length-view h s w.fits)) w.inside j p);
        outside = λ j p.
            rw (shown, get_or-overwrite_out (offset + k) j 0 bs (view h s) (omega arith))
              (w.outside j p);
      }

  copy_lem :
      (k m : ℕ) (h : Heap)
      → Fits h s
      → k + m ≤ n
      → (read s offset m h ≡ ok (sub offset m (view h s)) h)
        × (write s (offset + k) (sub offset m (view h s)) h ≡ ok tt (copied h k m))
  copy_lem k m h fits fit = (
    read-view s offset m h fits (omega arith),
    write_lem s (offset + k) (sub offset m (view h s)) h fits
        (omega (arith, length-take m (drop offset (view h s)))),
  )

  -- With a value that is not empty the loop ends within its fuel, at a multiple of the value that
  -- is at least half of the range.
  pub fill_loop_lem :
      (fuel q k : ℕ) (h : Heap)
      → k ≡ q * length value
      → 0 < k
      → k ≤ n
      → n < k + fuel
      → IsFilled s value offset n h0 k h
      → (k' q' : ℕ) × (h' : Heap) × (fill_loop s offset n fuel k h ≡ ok k' h')
        × (k' ≡ q' * length value)
        × (k' ≤ n)
        × (n - k' ≤ k')
        × IsFilled s value offset n h0 k' h'
  unfolding fill_loop
  fill_loop_lem zero q k h e pos_k le_n fuel_lt w = absurd (omega arith)
  fill_loop_lem (suc fuel) q k h e pos_k le_n fuel_lt w = elim (Bool-cases (ltb k (n - k))) [
    | inr stop ↦ (k, q, h, rw stop, e, le_n, ground arith, w)
    | inl more ↦
        let (done_read, done_write) = copy_lem k k h w.fits (ground arith) in
        let double : k * 2 ≡ k + k = omega arith in
        let e' : k * 2 ≡ q * 2 * length value = grind arith in
        let (k', q', h', done, multiple, below, half, filled) =
          fill_loop_lem fuel (q * 2) (k * 2) (copied h k k) e' (omega arith) (ground arith)
            (omega arith) (rw double (copied-IsFilled q k k h e (omega arith) (ground arith) w)) in
        (k', q', h', rw (more, done_read, done_write) done, multiple, below, half, filled)
  ]

  pub fill_tail_lem :
      (q k : ℕ) (h : Heap)
      → k ≡ q * length value
      → k ≤ n
      → n - k ≤ k
      → IsFilled s value offset n h0 k h
      → (h' : Heap) × (fill_tail s offset n k h ≡ ok tt h') × IsFilled s value offset n h0 n h'
  unfolding fill_tail
  fill_tail_lem q k h e le_n half w = elim (Bool-cases (ltb k n)) [
    | inl more ↦
        let (done_read, done_write) = copy_lem k (n - k) h w.fits (omega arith) in
        let whole : k + (n - k) ≡ n = omega arith in
        (
          copied h k (n - k),
          rw (more, done_read, done_write) refl,
          rw whole at (copied-IsFilled q k (n - k) h e half (omega arith) w),
        )
    | inr stop ↦ let whole : k ≡ n = ground arith in (h, rw stop refl, rw whole at w)
  ]

-- ===== src/Buffer/Part/Shared.antt =====
-- A Buffer made by `slice` shows a part of the bytes of its parent, and shares them.
use node_qml.Prelude.{
  ℕ, zero, suc, ◌+◌, ◌-◌, ◌≤◌, ◌≡◌, refl, some, List, ◌∷◌, arith, length, sub, ltb, if◌then◌else◌,
  sub-sub, Option-cases, inl, inr, ◌∙◌, [], ◌⊎◌, ℤ, pos, negsuc, true, false, Bool-cases, leb,
}
use node_qml.Memory.{Heap, M, ◌>>=◌, ◌>>◌, pure, ok, bytes_at}
use node_qml.Slice.{Slice, null_slice, from_slice, destroy}
use node_qml.Slice.Refs.{IsCounted, IsCounted-swap, KeepsBytes, destroy-IsCounted}
use node_qml.Slice.Parts.{IsPart, from_slice_part, from_slice_whole}
use node_qml.Host.{V4}
use node_qml.Buffer.{view, Fits, new_from_slice}
use node_qml.Buffer.Part.{clamp_index, slice_start, slice_end, method_slice}

-- Whatever is stored later, by whichever Buffer: the part shows bytes of its parent.
pub IsPart-view :
    (s t : Slice) (start n : ℕ) (h : Heap)
    → IsPart s t start n
    → start + n ≤ s.size
    → view h t ≡ sub start n (view h s)
IsPart-view s t start n h p inside =
    rw (p.same_array, p.moved, p.sized, sub-sub start n s.begin s.size (bytes_at h s.array) inside)

-- The result of `slice` from `start`, `n` bytes long.
pub record IsCut (self : Slice) (alive : List Slice) (start n : ℕ) (h : Heap) (new : Slice)
    (h' : Heap) : Type 0 where
  pub sized : new.size ≡ n
  pub counted : IsCounted h' (new ∷ self ∷ alive)
  pub kept : view h' self ≡ view h self
  pub fits : Fits h' new
  pub fits_self : Fits h' self
  -- In every later heap the two show the same bytes.
  pub shared : (g : Heap) → view g new ≡ sub start n (view g self)

unfoldable pub cut : Slice → ℕ → ℕ → M Slice
cut self start n = do
  slice ← from_slice self start (some n)
  new ← new_from_slice slice
  destroy slice
  pure new

cut_zero :
    (self : Slice) (alive : List Slice) (start : ℕ) (h : Heap)
    → IsCounted h (self ∷ alive)
    → Fits h self
    → (cut self start 0 h ≡ ok null_slice h) × IsCut self alive start 0 h null_slice h
unfolding cut from_slice new_from_slice destroy
cut_zero self alive start h w fits = (
  refl,
  record {
    sized = refl;
    counted = record { counted = λ b. ground (arith, w.counted b); held = w.held };
    kept = refl;
    fits = omega arith;
    fits_self = fits;
    shared = λ g. refl;
  },
)

bytes_of_alive :
    (s : Slice) (alive : List Slice) (h h' : Heap)
    → KeepsBytes (s ∷ alive) h h'
    → bytes_at h' s.array ≡ bytes_at h s.array
bytes_of_alive s alive h h' keeps = elim (Option-cases s.array) [
  | inl e ↦ rw e
  | inr (a, e) ↦ rw e (keeps a (ground arith))
]

cut-suc :
    (self : Slice) (alive : List Slice) (start n : ℕ) (h : Heap)
    → IsCounted h (self ∷ alive)
    → Fits h self
    → start + suc n ≤ self.size
    → (new : Slice) × (h' : Heap) × (cut self start (suc n) h ≡ ok new h')
      × IsCut self alive start (suc n) h new h'
unfolding cut new_from_slice
cut-suc self alive start n h w fits inside =
    let (t, h1, done1, (p1, w1, same1)) = from_slice_part self alive start n h w (omega arith) in
    let room : t.begin + suc n ≤ length (bytes_at h1 t.array) =
      rw (p1.same_array, p1.moved, same1 self.array) (omega arith) in
    let (new, h2, done2, (p2, w2, same2)) =
      from_slice_whole t (self ∷ alive) n h1 w1 p1.sized room in
    let (h3, done3, w3, keeps, freed) =
      destroy-IsCounted t (new ∷ self ∷ alive) h2 (IsCounted-swap new t (self ∷ alive) h2 w2) in
    let kept : bytes_at h3 self.array ≡ bytes_at h self.array =
      bytes_of_alive self (new ∷ alive) h2 h3 (λ b p. keeps b (omega arith))
      ∙ same2 self.array
      ∙ same1 self.array in
    let p : IsPart self new start (suc n) = record {
      same_array = p2.same_array ∙ p1.same_array;
      moved = omega (arith, p1.moved, p2.moved);
      sized = p2.sized;
    } in
    (
      new,
      h3,
      rw (done1, done2, done3) refl,
      record {
        sized = p2.sized;
        counted = w3;
        kept = rw kept refl;
        fits = rw (p.same_array, p.moved, p.sized, kept) (omega arith);
        fits_self = rw kept fits;
        shared = λ g. IsPart-view self new start (suc n) g p inside;
      },
    )

cut-IsCut :
    (self : Slice) (alive : List Slice) (start n : ℕ) (h : Heap)
    → IsCounted h (self ∷ alive)
    → Fits h self
    → start + n ≤ self.size
    → (new : Slice) × (h' : Heap) × (cut self start n h ≡ ok new h')
      × IsCut self alive start n h new h'
cut-IsCut self alive start zero h w fits inside =
    let (done, is_cut) = cut_zero self alive start h w fits in (null_slice, h, done, is_cut)
cut-IsCut self alive start (suc n) h w fits inside = cut-suc self alive start n h w fits inside

-- The place in a Buffer of some size that an index means.
abbrev pub IsIndex : ℕ → ℤ → ℕ → Type 0
IsIndex size (pos k) n = ((k ≤ size) × (n ≡ k)) ⊎ ((size ≤ k) × (n ≡ size))
IsIndex size (negsuc k) n = (n + suc k ≡ size) ⊎ ((size ≤ suc k) × (n ≡ 0))

clamp_index-IsIndex : (size : ℕ) (i : ℤ) → IsIndex size i (clamp_index size i)
clamp_index-IsIndex size (pos k) = elim (Bool-cases (ltb size k)) [
  | inl e ↦ rw e (inr (ground arith, refl))
  | inr e ↦ rw e (inl (ground arith, refl))
]
clamp_index-IsIndex size (negsuc k) = elim (Bool-cases (leb (suc k) size)) [
  | inl e ↦ inl (ground arith)
  | inr e ↦ inr (ground arith, ground arith)
]

module _ (v4 : V4) (self : Slice) (args : List v4.Value) where
  -- The two ends of the part, the second moved up to the first if it lies before it.
  abbrev pub part_start : ℕ
  part_start = slice_start v4 self.size args

  abbrev pub part_end : ℕ
  part_end =
      if ltb (slice_end v4 self.size args) part_start
      then part_start
      else slice_end v4 self.size args

  pub part_bounds : (part_start ≤ part_end) × (part_end ≤ self.size)
  part_bounds = ground arith

module _ (v4 : V4) (self : Slice) where
  -- What the arguments say: the first index, and the one up to which the bytes are taken.
  abbrev pub IsStart : List v4.Value → ℕ → Type 0
  IsStart [] start = start ≡ 0
  IsStart (v ∷ _) start = IsIndex self.size (v4.to_int32 v) start

  abbrev pub IsEnd : List v4.Value → ℕ → Type 0
  IsEnd [] end = end ≡ self.size
  IsEnd (v ∷ []) end = end ≡ self.size
  IsEnd (v ∷ w ∷ _) end =
      ((v4.is_undefined w ≡ true) × (end ≡ self.size))
      ⊎ ((v4.is_undefined w ≡ false) × IsIndex self.size (v4.to_int32 w) end)

  slice_start-IsStart : (args : List v4.Value) → IsStart args (slice_start v4 self.size args)
  slice_start-IsStart [] = ground arith
  slice_start-IsStart (v ∷ args) =
      let given : leb 1 (length (v ∷ args)) ≡ true = ground arith in
      rw given (clamp_index-IsIndex self.size (v4.to_int32 v))

  slice_end-IsEnd : (args : List v4.Value) → IsEnd args (slice_end v4 self.size args)
  slice_end-IsEnd [] = ground arith
  slice_end-IsEnd (v ∷ []) = ground arith
  slice_end-IsEnd (v ∷ w ∷ args) =
      let given : ltb (length (v ∷ w ∷ args)) 2 ≡ false = ground arith in
      elim (Bool-cases (v4.is_undefined w)) [
        | inl e ↦ inl (e, ground arith)
        | inr e ↦ inr (e, rw (given, e) (clamp_index-IsIndex self.size (v4.to_int32 w)))
      ]

  cut_length :
      (start end : ℕ)
      → let n = (if ltb end start then start else end) - start in
        (start + n ≡ end) ⊎ ((end ≤ start) × (n ≡ 0))
  cut_length start end = elim (Bool-cases (ltb end start)) [
    | inl e ↦ rw e (inr (ground arith, ground arith))
    | inr e ↦ rw e (inl (ground arith))
  ]

  -- `slice` never faults. The new Buffer shows the bytes of its parent from the first index up to
  -- the second. An index that is negative counts from the end, and is 0 where that is before the
  -- Buffer; one past the end is the end. Without arguments they are 0 and the end, as the second is
  -- where it is undefined; and the part is empty where the second is not behind the first. The
  -- Buffer goes on sharing the bytes, in every later heap, and no byte of the parent and no
  -- reference count goes wrong.
  pub method_slice-IsCut :
      (args : List v4.Value) (alive : List Slice) (h : Heap)
      → IsCounted h (self ∷ alive)
      → Fits h self
      → (start : ℕ) × (end : ℕ) × (n : ℕ) × (new : Slice) × (h' : Heap) × IsStart args start
        × IsEnd args end
        × ((start + n ≡ end) ⊎ ((end ≤ start) × (n ≡ 0)))
        × (method_slice v4 (some self) args h ≡ ok new h')
        × IsCut self alive start n h new h'
  unfolding method_slice cut
  method_slice-IsCut args alive h w fits =
      let start = part_start v4 self args in
      let n = part_end v4 self args - start in
      let (new, h', made, is_cut) =
        cut-IsCut self alive start n h w fits (omega (arith, part_bounds v4 self args)) in
      (
        start,
        slice_end v4 self.size args,
        n,
        new,
        h',
        slice_start-IsStart args,
        slice_end-IsEnd args,
        cut_length start (slice_end v4 self.size args),
        made,
        is_cut,
      )

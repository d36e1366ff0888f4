-- ===== src/Buffer/Copy/Bytes.antt =====
-- What `copy` leaves in its target.
use node_qml.Prelude.{
  ℕ, ◌+◌, ◌-◌, ◌≤◌, ◌<◌, min, ◌≡◌, refl, ◌⊎◌, inl, inr, true, false, pos, ◌||◌, some, List, arith,
  length, sub, overwrite, ltb, leb, Bool-cases, ℤ-cases, length-sub, length-take, drop,
  overwrite_nil, sym,
}
use node_qml.Memory.{Error, IsSafe, range_error, type_error, Heap, Outcome, ok, throw, fault, hang}
use node_qml.Slice.{Slice}
use node_qml.Host.{V4, argument}
use node_qml.Buffer.{view, Fits}
use node_qml.Buffer.View.{written, length-view, write_lem, read-view, view-written, Fits-written}
use node_qml.Buffer.Copy.{copy_count, copy_bytes, index_argument, method_copy}

-- The number of bytes that the documentation of `copy` promises: the least of what is asked for,
-- what the target has room for, and what the source has.
copy_count_lem :
    (self_length target_length target_start source_start source_end : ℕ)
    → copy_count self_length target_length target_start source_start source_end
      ≡ min
          (min (source_end - source_start) (target_length - target_start))
          (self_length - source_start)
copy_count_lem l t ts ss se = ground arith

-- What a copy to `target` may come to.
abbrev pub Copies : Slice → Slice → ℕ → ℕ → ℕ → Heap → Outcome ℕ → Type 0
Copies self target ts ss se h (ok n h') =
    ((target.size ≤ ts) ⊎ (se ≤ ss) ⊎ (ss ≤ self.size))
    × (n ≡ min (min (se - ss) (target.size - ts)) (self.size - ss))
    × Fits h' target
    × (view h' target ≡ overwrite ts (sub ss n (view h self)) (view h target))
Copies self target ts ss se h (throw e h') =
    (h' ≡ h)
    × (e ≡ range_error "copy: Out of range index")
    × (self.size < ss)
    × (ts < target.size)
    × (ss < se)
Copies self target ts ss se h fault = ⊥
Copies self target ts ss se h hang = ⊥

copy_inside :
    (self target : Slice) (ts ss se n : ℕ) (h : Heap)
    → (leb target.size ts || leb se ss) ≡ false
    → ltb self.size ss ≡ false
    → copy_count self.size target.size ts ss se ≡ n
    → Fits h self
    → Fits h target
    → copy_bytes self target ts ss se h ≡ ok n (written h target ts (sub ss n (view h self)))
unfolding copy_bytes
copy_inside self target ts ss se n h some_bytes inside count fs ft =
    let bs = sub ss n (view h self) in
    let short : ss + n ≤ self.size = ground arith in
    let length_bs : length bs ≡ n =
      length-sub ss n (view h self) (omega (arith, length-view h self fs)) in
    let room : ts + length bs ≤ target.size = ground arith in
    rw (some_bytes, inside, count, read-view self ss n h fs short, write_lem target ts bs h ft room)

pub copy_bytes-Copies :
    (self target : Slice) (ts ss se : ℕ) (h : Heap)
    → Fits h self
    → Fits h target
    → Copies self target ts ss se h (copy_bytes self target ts ss se h)
copy_bytes-Copies self target ts ss se h fs ft =
    elim (Bool-cases (leb target.size ts || leb se ss)) [
      | inl nothing ↦
          let done : copy_bytes self target ts ss se h ≡ ok 0 h = unfold copy_bytes in rw nothing in
          rw done (ground arith, ground arith, ft, sym (overwrite_nil ts (view h target)))
      | inr some_bytes ↦ elim (Bool-cases (ltb self.size ss)) [
        | inl outside ↦
            let done : copy_bytes self target ts ss se h
                ≡ throw (range_error "copy: Out of range index") h =
              unfold copy_bytes in rw (some_bytes, outside) in
            rw done (refl, refl, ground arith, ground arith, ground arith)
        | inr inside ↦
            let n = copy_count self.size target.size ts ss se in
            let bs = sub ss n (view h self) in
            let room : ts + length bs ≤ target.size =
              ground (arith, length-take n (drop ss (view h self))) in
            rw (copy_inside self target ts ss se n h some_bytes inside refl fs ft) (
              ground arith,
              copy_count_lem self.size target.size ts ss se,
              Fits-written target ts bs h ft,
              view-written target ts bs h room,
            )
      ]
    ]

Copies-IsSafe :
    (self target : Slice) (ts ss se : ℕ) (h : Heap) (r : Outcome ℕ)
    → Copies self target ts ss se h r
    → IsSafe h r
Copies-IsSafe self target ts ss se h (ok n h') c = tt
Copies-IsSafe self target ts ss se h (throw e h') c = c.0
Copies-IsSafe self target ts ss se h fault c = c
Copies-IsSafe self target ts ss se h hang c = c

index_argument_cases :
    (v4 : V4) (args : List v4.Value) (i default : ℕ) (h : Heap)
    → ((n : ℕ) × (index_argument v4 args i default h ≡ ok n h))
      ⊎ ((e : Error) × (index_argument v4 args i default h ≡ throw e h))
unfolding index_argument
index_argument_cases v4 args i default h = elim (Bool-cases (ltb i (length args))) [
  | inr absent ↦ inl (default, rw absent)
  | inl given ↦ elim (Bool-cases (v4.is_number (argument v4 args i))) [
    | inr other ↦ inr (type_error "Bad argument", rw (given, other))
    | inl number ↦ elim (ℤ-cases (v4.to_int32 (argument v4 args i))) [
      | inl (n, e) ↦ inl (n, rw (given, number, e))
      | inr (n, e) ↦ inr (range_error "Out of range index", rw (given, number, e))
    ]
  ]
]

-- What an argument of `copy` says: the default where it is missing, and else a number that is not
-- negative.
abbrev pub IsAsked : (v4 : V4) → List v4.Value → ℕ → ℕ → ℕ → Type 0
IsAsked v4 args i default n =
    ((length args ≤ i) × (n ≡ default))
    ⊎ ((i < length args)
        × (v4.is_number (argument v4 args i) ≡ true)
        × (v4.to_int32 (argument v4 args i) ≡ pos n))

index_argument-IsAsked :
    (v4 : V4) (args : List v4.Value) (i default n : ℕ) (h : Heap)
    → IsAsked v4 args i default n
    → index_argument v4 args i default h ≡ ok n h
unfolding index_argument
index_argument-IsAsked v4 args i default n h (inl (missing, same)) =
    let absent : ltb i (length args) ≡ false = ground arith in rw (absent, same) refl
index_argument-IsAsked v4 args i default n h (inr (there, number, is_n)) =
    let given : ltb i (length args) ≡ true = ground arith in rw (given, number, is_n) refl

module _ (v4 : V4) (self target : Slice) (args : List v4.Value) (h : Heap)
    (is_target : v4.as_buffer (argument v4 args 0) ≡ some target) (fs : Fits h self)
    (ft : Fits h target) where
  -- `copy` with its three indices, numbers that are not negative, or 0, 0 and the size of the source
  -- where they are missing: the bytes of the source from the second index on stand in the
  -- target from the first on, as many as were asked for, fit and exist, even where the two Buffers
  -- share bytes; the number of them is returned. A source index past the end, where some byte was
  -- asked for and the target has room, is the RangeError "copy: Out of range index", which changes
  -- nothing, and it is thrown for nothing else. It never faults.
  pub method_copy-Copies :
      (ts ss se : ℕ)
      → IsAsked v4 args 1 0 ts
      → IsAsked v4 args 2 0 ss
      → IsAsked v4 args 3 self.size se
      → Copies self target ts ss se h (method_copy v4 (some self) args h)
  unfolding method_copy
  method_copy-Copies ts ss se a1 a2 a3 =
      let e1 = index_argument-IsAsked v4 args 1 0 ts h a1 in
      let e2 = index_argument-IsAsked v4 args 2 0 ss h a2 in
      let e3 = index_argument-IsAsked v4 args 3 self.size se h a3 in
      rw (is_target, e1, e2, e3) (copy_bytes-Copies self target ts ss se h fs ft)

  -- Whatever the other arguments are, `copy` returns or throws, and a throw changes no byte.
  method_copy-IsSafe : IsSafe h (method_copy v4 (some self) args h)
  unfolding method_copy
  method_copy-IsSafe = elim (index_argument_cases v4 args 1 0 h) [
    | inr (e, t) ↦ rw (is_target, t) refl
    | inl (ts, e1) ↦ elim (index_argument_cases v4 args 2 0 h) [
      | inr (e, t) ↦ rw (is_target, e1, t) refl
      | inl (ss, e2) ↦ elim (index_argument_cases v4 args 3 self.size h) [
        | inr (e, t) ↦ rw (is_target, e1, e2, t) refl
        | inl (se, e3) ↦
            rw (is_target, e1, e2, e3)
              (Copies-IsSafe self target ts ss se h (copy_bytes self target ts ss se h)
                (copy_bytes-Copies self target ts ss se h fs ft))
      ]
    ]
  ]

-- ===== src/Buffer/Number/RoundTrip.antt =====
-- What a write of a number leaves, and that it is read back.
use mathlib.Core.List.{reverse}
use node_qml.Prelude.{
  ◌/◌, ◌-◌, ◌∙◌, ◌&&◌, ltb, if◌then◌else◌, ℕ, ◌+◌, ◌≤◌, ◌<◌, ◌%◌, ◌^◌, ◌≡◌, refl, ◌⊎◌, inl, inr,
  Bool, true, false, ◌||◌, some, List, arith, length, sub, overwrite, sub-overwrite_self,
  Bool-cases, ℤ, pos, negsuc, ◌≤ℤ◌, ap, subst, mod_ℤ,
}
use node_qml.Memory.{Bytes, Heap, Outcome, ok, throw, fault, hang}
use node_qml.Slice.{Slice}
use node_qml.Double.{Double, zero_double, cast_size_t, of_int, is_above, is_below, cast}
use node_qml.Host.{V4, Machine, ByteOrder, argument, little_bytes}
use node_qml.Buffer.{view, Fits, max_length}
use node_qml.Buffer.View.{written, read-view, write_lem, view-written, Fits-written, length-view}
use node_qml.Buffer.Number.{
  IntType, patterns, of_pattern, check_range, out_of_range, out_of_bounds, offset_argument,
  pattern_of, max_of, min_of, encode_bytes, decode_bytes, method_read_integer, method_write_integer,
}
use node_qml.Buffer.Number.Range.{check_range_iff}
use node_qml.Buffer.Number.Digits.{
  length-encode_bytes, decode_bytes-encode_bytes, of_pattern-mod_ℤ, mod_ℤ-lt,
}

cast_int :
    (lo hi : ℤ) (otherwise : Double → ℤ) (v : ℤ)
    → lo ≤ℤ v
    → v ≤ℤ hi
    → cast lo hi otherwise (of_int v) ≡ v
cast_int lo hi otherwise (pos n) above below = ground arith
cast_int lo hi otherwise (negsuc n) above below = ground arith

not_outside :
    (lo hi v : ℤ) → lo ≤ℤ v → v ≤ℤ hi → (is_above (of_int v) hi || is_below (of_int v) lo) ≡ false
not_outside lo hi v above below = ground arith

module _ (v4 : V4) (machine : Machine) (order : ByteOrder) (t : IntType) (little : Bool)
    (self : Slice) (args : List v4.Value) where
  -- The number and the offset, 0 where they are missing or no numbers.
  abbrev pub value_of : Double
  value_of =
      if ltb 0 (length args) && v4.is_number (argument v4 args 0)
      then v4.to_number (argument v4 args 0)
      else zero_double

  abbrev pub offset_of : ℕ
  offset_of =
      if ltb 1 (length args) && v4.is_number (argument v4 args 1)
      then cast_size_t machine.undefined_size_t (v4.to_number (argument v4 args 1))
      else 0

  -- The bytes that are stored.
  abbrev pub stored : Bytes
  stored = encode_bytes order little t.width (pattern_of v4 machine order t little value_of)

  -- The largest and the smallest number of the type.
  abbrev pub high : ℤ
  high = if t.is_signed then pos (256 ^ t.width / 2 - 1) else pos (256 ^ t.width - 1)

  abbrev pub low : ℤ
  low = if t.is_signed then negsuc (256 ^ t.width / 2 - 1) else pos 0

  abbrev pub is_outside : Bool
  is_outside = is_above value_of high || is_below value_of low

  -- The digits of the number to the base 256, negative ones in two's complement, in the order that
  -- is asked for.
  abbrev pub digits : Bytes
  digits =
      let low_first =
        little_bytes t.width
          (mod_ℤ (cast low high machine.undefined_int value_of) (256 ^ t.width)) in
      if little then low_first else reverse low_first

  stored-digits : stored ≡ digits
  stored-digits = elim (Bool-cases little) [
    | inl e ↦ rw e (order.to_little_lem t.width _)
    | inr e ↦ rw e (order.to_big_lem t.width _)
  ]

  -- What writing a number may come to.
  abbrev pub Writes : Heap → Outcome ℕ → Type 0
  Writes h (ok n h') =
      (is_outside ≡ false)
      × (offset_of + t.width ≤ self.size)
      × (offset_of + t.width < max_length)
      × (n ≡ (offset_of + t.width) % 2 ^ 32)
      × Fits h' self
      × (view h' self ≡ overwrite offset_of digits (view h self))
  Writes h (throw e h') =
      (h' ≡ h)
      × (((e ≡ out_of_bounds) × (is_outside ≡ true))
          ⊎ ((e ≡ out_of_range)
              × (is_outside ≡ false)
              × ((self.size < offset_of + t.width) ⊎ (max_length ≤ offset_of + t.width))))
  Writes h fault = ⊥
  Writes h hang = ⊥

  -- What is refused is past the end of the Buffer, or past the maximum length.
  out_of_room :
      check_range self.size offset_of t.width ≡ false
      → (self.size < offset_of + t.width) ⊎ (max_length ≤ offset_of + t.width)
  out_of_room out = ground (arith, out, check_range_iff self.size offset_of t.width)

  -- Writing a number: a value outside of the type is a RangeError, then an offset out of the bounds
  -- is one, and neither changes a byte; otherwise exactly the bytes of the number change, its
  -- digits to the base 256 in the order that is asked for, at the offset, and the offset behind them is returned. No argument makes it write out of bounds.
  pub method_write_integer-Writes :
      (h : Heap)
      → Fits h self
      → Writes h (method_write_integer v4 machine order t little (some self) args h)
  unfolding method_write_integer
  method_write_integer-Writes h fits = elim (Bool-cases is_outside) [
    | inl outside ↦ rw outside (refl, inl (refl, outside))
    | inr inside ↦ elim (Bool-cases (check_range self.size offset_of t.width)) [
      | inr out ↦ rw (inside, out) (refl, inr (refl, inside, out_of_room out))
      | inl in_range ↦
          let l : length stored ≡ t.width =
            length-encode_bytes order little t.width
              (pattern_of v4 machine order t little value_of) in
          let room = ((check_range_iff self.size offset_of t.width).0 in_range).0 in
          let room' : offset_of + length stored ≤ self.size = rw l room in
          rw (inside, in_range, write_lem self offset_of stored h fits room')
            (
              inside,
              room,
              ((check_range_iff self.size offset_of t.width).0 in_range).1,
              refl,
              Fits-written self offset_of stored h fits,
              view-written self offset_of stored h room'
                  ∙ ap (λ bs. overwrite offset_of bs (view h self)) stored-digits,
            )
    ]
  ]

  pattern_of_int :
      (v : ℤ)
      → value_of ≡ of_int v
      → min_of t ≤ℤ v
      → v ≤ℤ max_of t
      → pattern_of v4 machine order t little value_of ≡ mod_ℤ v (patterns t.width)
  pattern_of_int v e lo hi = rw e (
      ap (λ k. mod_ℤ k (patterns t.width))
        (cast_int (min_of t) (max_of t) machine.undefined_int v lo hi))

  -- A number that fits its type is read back as it was written, in either byte order, from the
  -- offset that it was written to.
  pub read-write_integer :
      (v : ℤ) (args' : List v4.Value) (h : Heap)
      → 0 < t.width
      → value_of ≡ of_int v
      → min_of t ≤ℤ v
      → v ≤ℤ max_of t
      → offset_argument v4 machine args' 0 ≡ offset_of
      → check_range self.size offset_of t.width ≡ true
      → Fits h self
      → (n : ℕ) × (h' : Heap) × (method_write_integer v4 machine order t little (some self) args h
          ≡ ok n h')
        × (method_read_integer v4 machine order t little (some self) args' h' ≡ ok v h')
  unfolding method_write_integer method_read_integer
  read-write_integer v args' h some_byte e lo hi same_offset in_range fits =
      let p = pattern_of v4 machine order t little value_of in
      let l : length stored ≡ t.width = length-encode_bytes order little t.width p in
      let room = ((check_range_iff self.size offset_of t.width).0 in_range).0 in
      let room' : offset_of + length stored ≤ self.size = rw l room in
      let h' = written h self offset_of stored in
      let inside : is_outside ≡ false = rw e (not_outside (min_of t) (max_of t) v lo hi) in
      let got : sub offset_of t.width (view h' self) ≡ stored =
        rw (view-written self offset_of stored h room') (
          subst (λ k. sub offset_of k (overwrite offset_of stored (view h self)) ≡ stored) l
            (sub-overwrite_self offset_of stored (view h self)
              (omega (arith, length-view h self fits)))) in
      let decoded : of_pattern t (decode_bytes order little stored) ≡ v =
        rw
          (
            decode_bytes-encode_bytes order little t.width p (mod_ℤ-lt _ t.width),
            pattern_of_int v e lo hi,
          )
          (of_pattern-mod_ℤ t v some_byte lo hi) in
      (
        (offset_of + t.width) % 2 ^ 32,
        h',
        rw (inside, in_range, write_lem self offset_of stored h fits room') refl,
        rw
            (
              same_offset,
              in_range,
              read-view self offset_of t.width h' (Fits-written self offset_of stored h fits) room,
              got,
              decoded,
            )
            refl,
      )

-- ===== src/Buffer/Number/Range.antt =====
-- The bounds of reads and writes of numbers.
use node_qml.Prelude.{
  ℕ, ◌+◌, ◌≤◌, ◌<◌, ◌≡◌, refl, ◌↔◌, inl, inr, Bool, true, some, List, arith, Bool-cases,
}
use node_qml.Memory.{IsSafe, Heap}
use node_qml.Slice.{Slice}
use node_qml.Host.{V4, Machine, ByteOrder}
use node_qml.Buffer.{max_length, Fits}
use node_qml.Buffer.View.{read-view}
use node_qml.Buffer.Number.{IntType, check_range, offset_argument, method_read_integer}

-- `checkRange` holds exactly where the bytes from `offset` on lie in the Buffer, and below the
-- maximum length; the sum of a size_t does not wrap where it matters.
pub check_range_iff :
    (buffer_size offset n : ℕ)
    → (check_range buffer_size offset n ≡ true)
      ↔ ((offset + n ≤ buffer_size) × (offset + n < max_length))
unfolding check_range
check_range_iff buffer_size offset n = (λ h. (ground arith, ground arith), λ h. ground arith)

module _ (v4 : V4) (machine : Machine) (order : ByteOrder) (t : IntType) (little : Bool) where
  -- Reading a number: out of the bounds the RangeError and nothing else, in the bounds a number that
  -- depends on the bytes there alone. No argument makes it read out of bounds, not even one whose
  -- conversion to size_t is undefined.
  method_read_integer-IsSafe :
      (self : Slice) (args : List v4.Value) (h : Heap)
      → Fits h self
      → IsSafe h (method_read_integer v4 machine order t little (some self) args h)
  unfolding method_read_integer
  method_read_integer-IsSafe self args h fits =
      let offset = offset_argument v4 machine args 0 in
      elim (Bool-cases (check_range self.size offset t.width)) [
        | inr outside ↦ rw outside refl
        | inl inside ↦
            rw
              (
                inside,
                read-view self offset t.width h fits
                    ((check_range_iff self.size offset t.width).0 inside).0,
              )
              tt
      ]

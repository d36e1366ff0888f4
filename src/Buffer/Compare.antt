-- ===== src/Buffer/Compare.antt =====
-- Comparing Buffers: BufferPrototype::compare and the methods of src/nodeqml/types/buffer.cpp that
-- call it.
pub mod Order
use node_qml.Prelude.{
  ℕ, zero, suc, min, ◌≡◌, Bool, true, false, Option, none, some, List, [], ◌∷◌, ltb, if◌then◌else◌,
  ℤ, pos, negsuc, ltb_ℤ,
}
use node_qml.Memory.{Bytes, Heap, type_error, M, pure, raise, ◌>>=◌}
use node_qml.Slice.{Slice, read}
use node_qml.Host.{V4, argument}

-- The sign of C's memcmp over two runs of unsigned bytes of one length.
abbrev pub memcmp : Bytes → Bytes → ℤ
memcmp (x ∷ xs) (y ∷ ys) = if ltb x y then negsuc 0 else if ltb y x then pos 1 else memcmp xs ys
memcmp _ _ = pos 0

-- What two sizes say once the common part is equal.
abbrev pub compare_sizes : ℕ → ℕ → ℤ
compare_sizes m n = if ltb n m then pos 1 else if ltb m n then negsuc 0 else pos 0

-- `result` decides unless it is 0.
abbrev pub decide_by : ℤ → ℤ → ℤ
decide_by result otherwise =
    if ltb_ℤ (pos 0) result then pos 1 else if ltb_ℤ result (pos 0) then negsuc 0 else otherwise

-- BufferPrototype::compare
unfoldable pub compare_slices : Slice → Slice → M ℤ
unfolding read
compare_slices a b = do
  xs ← read a 0 (min a.size b.size)
  ys ← read b 0 (min a.size b.size)
  pure (decide_by (memcmp xs ys) (compare_sizes a.size b.size))

abbrev pub not_buffers : M ℤ
not_buffers = raise (type_error "Arguments must be Buffers")

abbrev pub is_zero : ℤ → Bool
is_zero (pos zero) = true
is_zero _ = false

-- Compares two values that should be Buffers.
unfoldable pub compare_values : Option Slice → Option Slice → M ℤ
unfolding compare_slices
compare_values (some a) (some b) = compare_slices a b
compare_values _ _ = not_buffers

module _ (v4 : V4) where
  -- BufferCtor::method_compare
  unfoldable pub ctor_compare : List v4.Value → M ℤ
  unfolding compare_values
  ctor_compare args =
      compare_values (v4.as_buffer (argument v4 args 0)) (v4.as_buffer (argument v4 args 1))

  -- BufferPrototype::method_compare
  unfoldable pub method_compare : Option Slice → List v4.Value → M ℤ
  unfolding compare_values
  method_compare self args = compare_values self (v4.as_buffer (argument v4 args 0))

  -- BufferPrototype::method_equals
  unfoldable pub method_equals : Option Slice → List v4.Value → M Bool
  unfolding compare_values
  method_equals self args = do
    order ← compare_values self (v4.as_buffer (argument v4 args 0))
    pure (is_zero order)

-- Buffer::isEqualTo
unfoldable pub is_equal_to : Option Slice → Option Slice → M Bool
unfolding compare_slices
is_equal_to (some a) (some b) = do order ← compare_slices a b; pure (is_zero order)
is_equal_to _ _ = pure false

-- ===== src/Buffer/Part.antt =====
-- BufferPrototype::method_slice of src/nodeqml/types/buffer.cpp: a Buffer over a part of the bytes
-- of another.
pub mod Shared
use node_qml.Prelude.{
  ℕ, zero, suc, ◌+◌, ◌-◌, Bool, Option, none, some, List, [], ◌∷◌, length, ltb, leb, ◌||◌,
  if◌then◌else◌, ℤ, pos, negsuc,
}
use node_qml.Memory.{Error, type_error, M, raise, pure, ◌>>=◌, ◌>>◌}
use node_qml.Slice.{Slice, from_slice, destroy}
use node_qml.Host.{V4, argument}
use node_qml.Buffer.{new_from_slice}

-- An index as `slice` reads it: a negative one counts from the end, and the result is cut to the
-- bounds. `-` stops at 0, as std::max(dataSize + start, 0) does.
abbrev pub clamp_index : ℕ → ℤ → ℕ
clamp_index size (pos n) = if ltb size n then size else n
clamp_index size (negsuc n) = size - suc n

module _ (v4 : V4) where
  abbrev pub slice_start : ℕ → List v4.Value → ℕ
  slice_start size args =
      if leb 1 (length args)
      then clamp_index size (v4.to_int32 (argument v4 args 0))
      else clamp_index size (pos 0)

  abbrev pub slice_end : ℕ → List v4.Value → ℕ
  slice_end size args =
      if ltb (length args) 2 || v4.is_undefined (argument v4 args 1)
      then clamp_index size (pos size)
      else clamp_index size (v4.to_int32 (argument v4 args 1))

  -- BufferPrototype::method_slice
  unfoldable pub method_slice : Option Slice → List v4.Value → M Slice
  unfolding from_slice new_from_slice destroy
  method_slice none args = raise (type_error "")
  method_slice (some self) args = do
    let start = slice_start self.size args
    let end = slice_end self.size args
    let end' = if ltb end start then start else end
    slice ← from_slice self start (some (end' - start))
    new ← new_from_slice slice
    destroy slice
    pure new

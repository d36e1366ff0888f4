-- ===== src/Buffer/Fill.antt =====
-- BufferPrototype::method_fill of src/nodeqml/types/buffer.cpp.
pub mod Loop
pub mod Method
pub mod Whole
use node_qml.Prelude.{
  ℕ, zero, suc, ◌+◌, ◌-◌, ◌*◌, ◌%◌, min, Bool, true, false, Option, none, some, List, [], ◌∷◌,
  length, get_or, replicate, take, ltb, leb, ◌==◌, if◌then◌else◌, ℤ, pos, negsuc, sub_ℕ,
}
use node_qml.Memory.{
  Bytes, Error, type_error, range_error, M, hang, raise, pure, undefined_behaviour, ◌>>=◌, ◌>>◌,
}
use node_qml.Slice.{Slice, read, write}
use node_qml.Host.{V4, Text, argument}
use node_qml.Buffer.Copy.{index_argument}

-- memset(data() + offset, b, n). A negative `n` becomes a huge size_t, which no allocation holds.
unfoldable pub memset : Slice → ℕ → ℕ → ℤ → M (Unit {0})
unfolding write
memset s offset b (pos n) = write s offset (replicate n b)
memset s offset b (negsuc n) = undefined_behaviour

-- while (in_there < length - in_there) { memcpy(ptr, startPtr, in_there); … in_there *= 2; }
-- with the fuel that is left. It returns the last `in_there`; `ptr` is startPtr + in_there.
unfoldable pub fill_loop : Slice → ℕ → ℕ → ℕ → ℕ → M ℕ
unfolding read write
fill_loop s offset n zero in_there = λ _. hang
fill_loop s offset n (suc fuel) in_there =
    if ltb in_there (n - in_there)
    then (do
      bs ← read s offset in_there
      write s (offset + in_there) bs
      fill_loop s offset n fuel (in_there * 2))
    else pure in_there

-- The bytes behind the doubled ones: if (in_there < length) memcpy(ptr, startPtr, length - in_there)
unfoldable pub fill_tail : Slice → ℕ → ℕ → ℕ → M (Unit {0})
unfolding read write
fill_tail s offset n in_there =
    if ltb in_there n
    then (do bs ← read s offset (n - in_there); write s (offset + in_there) bs)
    else pure tt

-- Fills with the bytes of a string: `length` is end - offset.
unfoldable pub fill_bytes : Slice → ℕ → Bytes → ℤ → M (Unit {0})
unfolding memset fill_loop fill_tail
fill_bytes s offset (b ∷ []) n = memset s offset b n
fill_bytes s offset value (negsuc n) = undefined_behaviour
fill_bytes s offset value (pos n) = do
  write s offset (take (min (length value) n) value)
  if leb n (length value)
      then pure tt
      else do in_there ← fill_loop s offset n n (length value); fill_tail s offset n in_there

module _ (v4 : V4) (text : Text) where
  -- The value decides how the bytes from `offset` to `end` are set.
  unfoldable pub fill_value : Slice → v4.Value → ℕ → ℕ → M (Unit {0})
  unfolding memset fill_bytes
  fill_value self value offset end =
      if v4.is_number value
      then memset self offset (v4.to_uint32 value % 256) (sub_ℕ end offset)
      else if v4.is_string value
      then fill_bytes self offset (text.to_utf8 (v4.to_qstring value)) (sub_ℕ end offset)
      else raise (type_error "fill: value is not a number")

  -- BufferPrototype::method_fill. `this` is read without a test that it is a Buffer.
  unfoldable pub method_fill : Option Slice → List v4.Value → M Slice
  method_fill none args = undefined_behaviour
  method_fill (some self) [] = pure self
  method_fill (some self) (value ∷ args) = do
    offset ← index_argument v4 (value ∷ args) 1 0
    end ← index_argument v4 (value ∷ args) 2 self.size
    fill_value self value offset end
    pure self

-- ===== src/Buffer/Copy.antt =====
-- BufferPrototype::method_copy of src/nodeqml/types/buffer.cpp.
pub mod Bytes
use node_qml.Prelude.{
  ℕ, zero, suc, ◌+◌, ◌-◌, min, Bool, Option, none, some, List, [], ◌∷◌, length, ltb, leb, ◌||◌,
  if◌then◌else◌, ℤ, pos, negsuc,
}
use node_qml.Memory.{
  Error, type_error, range_error, M, raise, pure, undefined_behaviour, ◌>>=◌, ◌>>◌,
}
use node_qml.Slice.{Slice, read, write}
use node_qml.Host.{V4, argument}

module _ (v4 : V4) where
  abbrev pub index_of : ℤ → M ℕ
  index_of (pos n) = pure n
  index_of (negsuc n) = raise (range_error "Out of range index")

  -- An optional argument that must be a number, and not negative: `copy` and `fill` read theirs so.
  unfoldable pub index_argument : List v4.Value → ℕ → ℕ → M ℕ
  index_argument args i default =
      if ltb i (length args)
      then if v4.is_number (argument v4 args i)
        then index_of (v4.to_int32 (argument v4 args i))
        else raise (type_error "Bad argument")
      else pure default

-- The end of the source, cut to what the target has room for.
abbrev pub cut_end : ℕ → ℕ → ℕ → ℕ → ℕ
cut_end target_length target_start source_start source_end =
    if ltb (target_length - target_start) (source_end - source_start)
    then source_start + target_length - target_start
    else source_end

-- How many bytes are copied.
abbrev pub copy_count : ℕ → ℕ → ℕ → ℕ → ℕ → ℕ
copy_count self_length target_length target_start source_start source_end =
    min
      (min (cut_end target_length target_start source_start source_end - source_start)
        (target_length - target_start))
      (self_length - source_start)

-- The part of `copy` behind the reading of its arguments.
unfoldable pub copy_bytes : Slice → Slice → ℕ → ℕ → ℕ → M ℕ
unfolding read write
copy_bytes self target target_start source_start source_end =
    if leb target.size target_start || leb source_end source_start
    then pure 0
    else if ltb self.size source_start
    then raise (range_error "copy: Out of range index")
    else (do
      let n = copy_count self.size target.size target_start source_start source_end
      bs ← read self source_start n
      write target target_start bs
      pure n)

module _ (v4 : V4) where
  -- `this` is read without a test that it is a Buffer.
  abbrev pub copy_to : Option Slice → Option Slice → List v4.Value → M ℕ
  copy_to self none args = raise (type_error "copy: First arg should be a Buffer")
  copy_to none (some target) args = undefined_behaviour
  copy_to (some self) (some target) args = do
    target_start ← index_argument v4 args 1 0
    source_start ← index_argument v4 args 2 0
    source_end ← index_argument v4 args 3 self.size
    copy_bytes self target target_start source_start source_end

  -- BufferPrototype::method_copy
  unfoldable pub method_copy : Option Slice → List v4.Value → M ℕ
  method_copy self args = copy_to self (v4.as_buffer (argument v4 args 0)) args

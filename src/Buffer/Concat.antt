-- ===== src/Buffer/Concat.antt =====
-- BufferCtor::method_concat of src/nodeqml/types/buffer.cpp.
pub mod Copies
pub mod Joined
pub mod Overruns
use node_qml.Prelude.{
  ℕ, ◌+◌, ◌%◌, ◌^◌, Bool, ◌&&◌, Option, none, some, List, [], ◌∷◌, length, leb, if◌then◌else◌,
}
use node_qml.Memory.{Error, type_error, M, raise, pure, undefined_behaviour, ◌>>=◌, ◌>>◌}
use node_qml.Slice.{Slice, read, write}
use node_qml.Double.{cast_size_t}
use node_qml.Host.{V4, Machine, argument}
use node_qml.Buffer.{new_buffer}

-- totalLength += buf->getLength(), over size_t.
abbrev pub add_size : Option Slice → Option ℕ → Option ℕ
add_size none total = none
add_size (some b) none = none
add_size (some b) (some n) = some ((b.size + n) % 2 ^ 64)

-- One element copied to `pos`: the position behind it. The element is read without a test that it is
-- a Buffer.
unfoldable pub copy_element : Slice → ℕ → Option Slice → M ℕ
unfolding read write
copy_element new pos none = undefined_behaviour
copy_element new pos (some b) = do bs ← read b 0 b.size; write new pos bs; pure (pos + b.size)

module _ (v4 : V4) where
  -- The sum of the sizes; `none` where an element is no Buffer.
  abbrev pub total_size : List v4.Value → Option ℕ
  total_size [] = some 0
  total_size (v ∷ vs) = add_size (v4.as_buffer v) (total_size vs)

  -- The elements copied one behind the other from `pos` on.
  unfoldable pub copy_elements : Slice → ℕ → List v4.Value → M (Unit {0})
  unfolding copy_element
  copy_elements new pos [] = pure tt
  copy_elements new pos (v ∷ vs) = do
    after ← copy_element new pos (v4.as_buffer v)
    copy_elements new after vs

  module _ (machine : Machine) where
    abbrev pub concat_into : ℕ → List v4.Value → M Slice
    concat_into total items = do new ← new_buffer machine total; copy_elements new 0 items; pure new

    abbrev pub concat_sized : Option ℕ → List v4.Value → M Slice
    concat_sized none items = raise (type_error "list must contain Buffer objects")
    concat_sized (some total) items = concat_into total items

    abbrev pub concat_list : Option (List v4.Value) → List v4.Value → M Slice
    concat_list none args = raise (type_error "Usage: Buffer.concat(list[, length])")
    concat_list (some items) args =
        if leb 2 (length args) && v4.is_number (argument v4 args 1)
        then concat_into (cast_size_t machine.undefined_size_t (v4.to_number (argument v4 args 1)))
            items
        else concat_sized (total_size items) items

    -- BufferCtor::method_concat
    unfoldable pub method_concat : List v4.Value → M Slice
    unfolding new_buffer copy_elements
    method_concat args = concat_list (v4.as_array (argument v4 args 0)) args

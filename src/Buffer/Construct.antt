-- ===== src/Buffer/Construct.antt =====
-- BufferCtor::construct and the static methods isEncoding, isBuffer and byteLength of
-- src/nodeqml/types/buffer.cpp.
pub mod Strings
pub mod Like
pub mod Content
pub mod Contents
pub mod Json
use node_qml.Prelude.{
  is_some, ℕ, zero, suc, ◌+◌, Bool, true, false, ◌&&◌, Option, none, some, List, [], ◌∷◌, length,
  ltb, leb, if◌then◌else◌, pos, codes, text_eq,
}
use node_qml.Memory.{
  Bytes, QString, type_error, type_error_with, M, raise, pure, undefined_behaviour, ◌>>=◌, ◌>>◌,
  allocate, set_size, write_bytes, deref_array,
}
use node_qml.Slice.{Slice, from_array, destroy}
use node_qml.Double.{Double, zero_double, is_above, cast_size_t}
use node_qml.Host.{V4, Text, Machine, argument, fresh_bytes}
use node_qml.Buffer.{new_buffer, new_from_array, new_from_slice, put_indexed}
use node_qml.Buffer.Encoding.{
  Encoding, utf8, is_invalid, parse_encoding, is_encoding, byte_length, decode_string,
}

-- Buffer::fromString: `none` is its null pointer.
unfoldable pub from_string : Machine → Bytes → M (Option ℕ)
unfolding allocate set_size write_bytes
from_string machine bs =
    if machine.can_allocate (length bs + 1)
    then (do
      a ← allocate (fresh_bytes machine (length bs + 1))
      write_bytes (some a) 0 bs
      set_size a (length bs)
      write_bytes (some a) (length bs) (0 ∷ [])
      pure (some a))
    else pure none

-- The Buffer over an array that nothing else holds. The count is lowered through a null pointer
-- where the allocation failed.
unfoldable pub own_array : Option ℕ → M Slice
unfolding from_array deref_array new_from_slice destroy
own_array none = undefined_behaviour
own_array (some a) = do
  slice ← from_array (some a) 0 none
  deref_array a
  new ← new_from_slice slice
  destroy slice
  pure new

unfoldable pub new_from_bytes : Machine → Bytes → M Slice
unfolding from_string own_array
new_from_bytes machine bs = do a ← from_string machine bs; own_array a

-- std::max(0., d)
abbrev pub not_negative : Double → Double
not_negative d = if is_above d (pos 0) then d else zero_double

module _ (v4 : V4) (machine : Machine) (text : Text) where
  -- A string, in the encoding of the second argument.
  abbrev pub construct_string : QString → List v4.Value → M Slice
  construct_string s [] = new_from_bytes machine (decode_string text s utf8 none)
  construct_string s (name ∷ args) =
      if v4.is_string name
      then (let encoding = parse_encoding text (v4.to_qstring name) in
          if is_invalid encoding
          then raise (type_error_with "Unknown Encoding: %1" (v4.to_qstring name))
          else new_from_bytes machine (decode_string text s encoding none))
      else raise (type_error "Encoding must me a string")

  -- The elements of an array-like object, from one index on: `count` of them are left.
  unfoldable pub put_elements : Slice → v4.Value → ℕ → ℕ → M (Unit {0})
  unfolding put_indexed
  put_elements s v i zero = pure tt
  put_elements s v i (suc count) = do
    put_indexed v4 s i (v4.get_indexed v i)
    put_elements s v (i + 1) count

  abbrev pub construct_like : v4.Value → M Slice
  construct_like v = do
    s ← new_buffer machine (v4.get_length v)
    put_elements s v 0 (v4.get_length v)
    pure s

  -- An object is the JSON form of a Buffer, or like an array.
  abbrev pub construct_json : v4.Value → Option QString → Option (List v4.Value) → M Slice
  construct_json v (some type) (some data_items) =
      if text_eq type (codes "Buffer")
      then new_from_array v4 machine data_items
      else construct_like v
  construct_json v type data_items = construct_like v

  -- What is neither an array nor a Buffer.
  abbrev pub construct_other : v4.Value → List v4.Value → M Slice
  construct_other v args =
      if v4.is_string v
      then construct_string (v4.to_qstring v) args
      else if v4.is_object v
      then construct_json v (v4.as_string (v4.get v (codes "type")))
          (v4.as_array (v4.get v (codes "data")))
      else raise (type_error "must start with number, buffer, array or string")

  abbrev pub construct_shared : v4.Value → List v4.Value → Option Slice → M Slice
  construct_shared v args (some other) = new_from_slice other
  construct_shared v args none = construct_other v args

  abbrev pub construct_items : v4.Value → List v4.Value → Option (List v4.Value) → M Slice
  construct_items v args (some items) = new_from_array v4 machine items
  construct_items v args none = construct_shared v args (v4.as_buffer v)

  -- BufferCtor::construct, which BufferCtor::call is too
  unfoldable pub construct : List v4.Value → M Slice
  unfolding new_buffer new_from_array new_from_slice new_from_bytes put_elements
  construct [] = raise (type_error "must start with number, buffer, array or string")
  construct (v ∷ args) =
      if v4.is_number v
      then new_buffer machine
          (cast_size_t machine.undefined_size_t (not_negative (v4.to_integer v)))
      else construct_items v args (v4.as_array v)

module _ (v4 : V4) (text : Text) where
  -- BufferCtor::method_isEncoding
  unfoldable pub method_is_encoding : List v4.Value → Bool
  unfolding is_encoding
  method_is_encoding [] = false
  method_is_encoding (v ∷ args) = v4.is_string v && is_encoding text (v4.to_qstring v)

  -- BufferCtor::method_isBuffer
  unfoldable pub method_is_buffer : List v4.Value → Bool
  method_is_buffer [] = false
  method_is_buffer (v ∷ args) = is_some (v4.as_buffer v)

  -- BufferCtor::method_byteLength: the 9 bytes of "undefined" for no argument.
  unfoldable pub method_byte_length : List v4.Value → ℕ
  unfolding byte_length
  method_byte_length [] = 9
  method_byte_length (v ∷ []) = byte_length text (v4.to_qstring v) utf8
  method_byte_length (v ∷ name ∷ args) =
      byte_length text (v4.to_qstring v) (parse_encoding text (v4.to_qstring name))

-- ===== src/Buffer/Number.antt =====
-- Reading and writing numbers in a Buffer: checkRange and the templates method_readInteger,
-- method_writeInteger, method_readFloatingPoint and method_writeFloatingPoint of
-- src/nodeqml/types/buffer.cpp.
pub mod Range
pub mod Digits
pub mod RoundTrip
use node_qml.Prelude.{
  ℕ, ◌+◌, ◌-◌, ◌*◌, ◌/◌, ◌%◌, ◌^◌, Bool, true, false, ◌&&◌, ◌||◌, Option, none, some, List, [], ◌∷◌,
  length, ltb, leb, if◌then◌else◌, ℤ, pos, negsuc, mod_ℤ,
}
use node_qml.Memory.{Bytes, Error, type_error, range_error, M, raise, pure, ◌>>=◌, ◌>>◌}
use node_qml.Slice.{Slice, read, write}
use node_qml.Double.{Double, zero_double, is_above, is_below, cast, cast_size_t}
use node_qml.Host.{V4, Machine, ByteOrder, Floats, argument}
use node_qml.Buffer.{max_length}

-- The template's T: an integer type of `width` bytes. LE is the parameter `little` below.
pub record IntType : Type 0 where
  pub width : ℕ
  pub is_signed : Bool

-- The number of bit patterns of `w` bytes.
abbrev pub patterns : ℕ → ℕ
patterns w = 256 ^ w

-- std::numeric_limits<T>::max() and min()
abbrev pub max_of : IntType → ℤ
max_of t = if t.is_signed then pos (patterns t.width / 2 - 1) else pos (patterns t.width - 1)

abbrev pub min_of : IntType → ℤ
min_of t = if t.is_signed then negsuc (patterns t.width / 2 - 1) else pos 0

-- The value of type T that a bit pattern stands for.
abbrev pub of_pattern : IntType → ℕ → ℤ
of_pattern t p =
    if t.is_signed && leb (patterns t.width / 2) p then negsuc (patterns t.width - p - 1) else pos p

-- BufferPrototype::checkRange, over size_t.
unfoldable pub check_range : ℕ → ℕ → ℕ → Bool
check_range buffer_size offset n =
    ltb offset max_length
    && ltb n max_length
    && ltb ((offset + n) % 2 ^ 64) max_length
    && leb ((offset + n) % 2 ^ 64) buffer_size

abbrev pub out_of_range : Error
out_of_range = range_error "index out of range"

abbrev pub out_of_bounds : Error
out_of_bounds = range_error "value is out of bounds"

module _ (v4 : V4) (machine : Machine) where
  -- An optional numeric argument, as a double and as a size_t.
  abbrev pub number_argument : List v4.Value → ℕ → Double
  number_argument args i =
      if ltb i (length args) && v4.is_number (argument v4 args i)
      then v4.to_number (argument v4 args i)
      else zero_double

  abbrev pub offset_argument : List v4.Value → ℕ → ℕ
  offset_argument args i =
      if ltb i (length args) && v4.is_number (argument v4 args i)
      then cast_size_t machine.undefined_size_t (v4.to_number (argument v4 args i))
      else 0

abbrev pub decode_bytes : ByteOrder → Bool → Bytes → ℕ
decode_bytes order little bs = if little then order.from_little bs else order.from_big bs

abbrev pub encode_bytes : ByteOrder → Bool → ℕ → ℕ → Bytes
encode_bytes order little w p = if little then order.to_little w p else order.to_big w p

module _ (v4 : V4) (machine : Machine) (order : ByteOrder) (t : IntType) (little : Bool) where
  -- BufferPrototype::method_readInteger
  unfoldable pub method_read_integer : Option Slice → List v4.Value → M ℤ
  method_read_integer none args = raise (type_error "")
  method_read_integer (some self) args =
      let offset = offset_argument v4 machine args 0 in
      if check_range self.size offset t.width
      then (do bs ← read self offset t.width; pure (of_pattern t (decode_bytes order little bs)))
      else raise out_of_range

  -- static_cast<T>(value), stored as a bit pattern.
  abbrev pub pattern_of : Double → ℕ
  pattern_of value =
      mod_ℤ (cast (min_of t) (max_of t) machine.undefined_int value) (patterns t.width)

  -- BufferPrototype::method_writeInteger
  unfoldable pub method_write_integer : Option Slice → List v4.Value → M ℕ
  method_write_integer none args = raise (type_error "")
  method_write_integer (some self) args =
      let value = number_argument v4 machine args 0 in
      let offset = offset_argument v4 machine args 1 in
      if is_above value (max_of t) || is_below value (min_of t)
      then raise out_of_bounds
      else if check_range self.size offset t.width
      then (do
        write self offset (encode_bytes order little t.width (pattern_of value))
        pure ((offset + t.width) % 2 ^ 32))
      else raise out_of_range

module _ (v4 : V4) (machine : Machine) (order : ByteOrder) (floats : Floats) (width : ℕ)
    (little : Bool) where
  -- BufferPrototype::method_readFloatingPoint
  unfoldable pub method_read_floating_point : Option Slice → List v4.Value → M Double
  method_read_floating_point none args = raise (type_error "")
  method_read_floating_point (some self) args =
      let offset = offset_argument v4 machine args 0 in
      if check_range self.size offset width
      then (do
        bs ← read self offset width
        pure (floats.of_bits width (decode_bytes order little bs)))
      else raise out_of_range

  -- BufferPrototype::method_writeFloatingPoint
  unfoldable pub method_write_floating_point : Option Slice → List v4.Value → M ℕ
  method_write_floating_point none args = raise (type_error "")
  method_write_floating_point (some self) args =
      let value = number_argument v4 machine args 0 in
      let offset = offset_argument v4 machine args 1 in
      if floats.is_outside width value
      then raise out_of_bounds
      else if check_range self.size offset width
      then (do
        write self offset (encode_bytes order little width (floats.to_bits width value))
        pure ((offset + width) % 2 ^ 32))
      else raise out_of_range

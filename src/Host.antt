-- ===== src/Host.antt =====
-- What the program calls and does not implement: the JavaScript engine QV4, and the text
-- conversions, byte order functions and memory of Qt and of the machine.
use node_qml.Prelude.{
  ℕ, zero, suc, ◌≡◌, Bool, Option, List, [], ◌∷◌, ◌≡◌, ◌+◌, ◌*◌, ◌/◌, ◌%◌, ℤ, IsInt, get_or,
}
use mathlib.Core.List.{reverse}
use node_qml.Memory.{Bytes, QString}
use node_qml.Slice.{Slice}
use node_qml.Double.{Double}

-- QV4::Value and the questions that the program asks of a value. A `Buffer` object never changes
-- the slice that it was made with, so the object is known by that slice.
pub record V4 : Type 1 where
  pub Value : Type 0
  pub undefined : Value
  -- isNumber, isString, isUndefined, isObject, integerCompatible
  pub is_number : Value → Bool
  pub is_string : Value → Bool
  pub is_undefined : Value → Bool
  pub is_object : Value → Bool
  pub integer_compatible : Value → Bool
  -- toNumber, toInteger, toInt32, toUInt32
  pub to_number : Value → Double
  pub to_integer : Value → Double
  pub to_int32 : Value → ℤ
  pub to_uint32 : Value → ℕ
  -- toQString, toQStringNoThrow
  pub to_qstring : Value → QString
  -- asFunctionObject, asArrayObject, as<Buffer>, and a cast to a string object
  pub as_function : Value → Option Value
  pub as_array : Value → Option (List Value)
  pub as_buffer : Value → Option Slice
  pub as_string : Value → Option QString
  -- isNullOrUndefined, as<RegExpObject>, asDateObject, asErrorObject
  pub is_null_or_undefined : Value → Bool
  pub is_reg_exp_object : Value → Bool
  pub is_date_object : Value → Bool
  pub is_error_object : Value → Bool
  -- get, getLength, getIndexed of an object
  pub get : Value → QString → Value
  pub get_length : Value → ℕ
  pub get_indexed : Value → ℕ → Value
  -- toInt32 is an `int`.
  pub to_int32-IsInt : (v : Value) → IsInt (to_int32 v)

-- callData->argument(i): undefined past the end.
abbrev pub argument : (v4 : V4) → List v4.Value → ℕ → v4.Value
argument v4 args i = get_or args i v4.undefined

-- QString and QByteArray.
pub record Text : Type 0 where
  pub to_lower : QString → QString
  pub to_utf8 : QString → Bytes
  pub to_latin1 : QString → Bytes
  pub from_base64 : Bytes → Bytes
  pub from_base64_url : Bytes → Bytes
  pub from_hex : Bytes → Bytes
  -- QStringIterator::next, over a whole string, and QString::fromUcs4(&ch, 1).toUtf8()
  pub code_points : QString → List ℕ
  pub ucs4_to_utf8 : ℕ → Bytes
  pub from_utf8 : Bytes → QString
  -- QString::fromUtf16, from code units
  pub from_utf16 : List ℕ → QString
  pub to_base64 : Bytes → QString
  pub to_hex : Bytes → QString

-- The machine: which allocations succeed, what fresh memory holds, and what the conversions of a
-- `double` give that C++ leaves undefined.
pub record Machine : Type 0 where
  pub can_allocate : ℕ → Bool
  pub noise : ℕ → ℕ
  pub undefined_size_t : Double → ℕ
  pub undefined_int : Double → ℤ

-- The bytes of a fresh allocation.
abbrev pub fresh_bytes : Machine → ℕ → Bytes
fresh_bytes machine zero = []
fresh_bytes machine (suc n) = machine.noise n ∷ fresh_bytes machine n

-- The number that bytes are, the lowest first, and the bytes of a number.
abbrev pub little_value : Bytes → ℕ
little_value [] = 0
little_value (b ∷ bs) = b + 256 * little_value bs

abbrev pub little_bytes : ℕ → ℕ → Bytes
little_bytes zero n = []
little_bytes (suc w) n = n % 256 ∷ little_bytes w (n / 256)

-- QtEndian: qFromLittleEndian, qFromBigEndian, qToLittleEndian and qToBigEndian, as they are
-- documented, over the bit pattern of a type of `w` bytes.
pub record ByteOrder : Type 0 where
  pub from_little : Bytes → ℕ
  pub from_big : Bytes → ℕ
  pub to_little : ℕ → ℕ → Bytes
  pub to_big : ℕ → ℕ → Bytes
  pub from_little_lem : (bs : Bytes) → from_little bs ≡ little_value bs
  pub from_big_lem : (bs : Bytes) → from_big bs ≡ little_value (reverse bs)
  pub to_little_lem : (w n : ℕ) → to_little w n ≡ little_bytes w n
  pub to_big_lem : (w n : ℕ) → to_big w n ≡ reverse (little_bytes w n)

-- The types `float` and `double` of `w` bytes: their bit patterns, and whether a value lies outside
-- std::numeric_limits<T>::lowest() to max().
pub record Floats : Type 0 where
  pub of_bits : ℕ → ℕ → Double
  pub to_bits : ℕ → Double → ℕ
  pub is_outside : ℕ → Double → Bool

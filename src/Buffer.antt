-- ===== src/Buffer.antt =====
-- src/nodeqml/types/buffer.cpp: how a Buffer is allocated, read and written by index. The methods
-- are in the modules below.
pub mod View
pub mod Text
pub mod Encoding
pub mod Number
pub mod Fill
pub mod Copy
pub mod Part
pub mod Compare
pub mod Store
pub mod Alloc
pub mod Index
pub mod Concat
pub mod Show
pub mod Construct
pub mod Methods
pub mod Alive
use node_qml.Prelude.{
  ℕ, zero, suc, ◌+◌, ◌≤◌, ◌≡◌, Bool, true, Option, none, some, List, [], ◌∷◌, length, get_or, sub,
  ltb, leb, if◌then◌else◌, ℤ, mod_ℤ, map, ◌%◌,
}
use node_qml.Memory.{
  Bytes, Heap, Error, range_error, M, pure, raise, ◌>>=◌, ◌>>◌, allocate, set_size, write_bytes,
  deref_array, bytes_at,
}
use node_qml.Slice.{Slice, null_slice, set_data, from_slice, from_array, read, write}
use node_qml.Host.{V4, Machine, fresh_bytes}

-- kMaxLength
abbrev pub max_length : ℕ
max_length = 0x3fffffff

abbrev pub too_large : Error
too_large = range_error "Attempt to allocate Buffer larger than maximum size: 0x3fffffff bytes"

abbrev pub out_of_memory : Error
out_of_memory = range_error "Buffer: Out of memory"

-- The bytes that a Buffer shows.
abbrev pub view : Heap → Slice → Bytes
view h s = sub s.begin s.size (bytes_at h s.array)

-- The bytes of a Buffer lie in the allocation of its array.
abbrev pub Fits : Heap → Slice → Type 0
Fits h s = s.begin + s.size ≤ length (bytes_at h s.array)

module _ (machine : Machine) where
  -- Heap::Buffer::allocateData, which sets the new object's `data`; `none` is its `false`.
  unfoldable pub allocate_data : ℕ → M (Option Slice)
  unfolding allocate set_size write_bytes set_data deref_array
  allocate_data zero = pure (some null_slice)
  allocate_data (suc n) =
      if machine.can_allocate (suc n + 1)
      then (do
        a ← allocate (fresh_bytes machine (suc n + 1))
        set_size a (suc n)
        write_bytes (some a) (suc n) (0 ∷ [])
        s ← set_data null_slice a 0 none
        deref_array a
        pure (some s))
      else pure none

  -- Heap::Buffer::Buffer(v4, size_t)
  unfoldable pub new_buffer : ℕ → M Slice
  unfolding allocate_data
  new_buffer n =
      if ltb max_length n
      then raise too_large
      else (do made ← allocate_data n; elim made [ none ↦ raise out_of_memory | some s ↦ pure s ])

-- Stores bytes one by one from index `i` on: `data[i] = b`.
unfoldable pub store_from : Slice → ℕ → Bytes → M (Unit {0})
store_from s i [] = pure tt
store_from s i (b ∷ bs) = do write s i (b ∷ []); store_from s (i + 1) bs

-- Heap::Buffer::Buffer(v4, QByteArray), which nothing calls: it does not compare the size with the
-- maximum.
unfoldable pub new_from_byte_array : Machine → Bytes → M Slice
unfolding allocate_data store_from
new_from_byte_array machine bs = do
  made ← allocate_data machine (length bs)
  elim made [
    | none ↦ raise out_of_memory
    | some s ↦ (do store_from s 0 (map (λ b. b % 256) bs); pure s)
  ]

module _ (v4 : V4) where
  -- The byte that an element of an array is stored as: toInt32() & 0xff
  abbrev pub byte_of : v4.Value → ℕ
  byte_of v = mod_ℤ (v4.to_int32 v) 256

  abbrev pub bytes_of_values : List v4.Value → Bytes
  bytes_of_values [] = []
  bytes_of_values (v ∷ vs) = byte_of v ∷ bytes_of_values vs

  -- Heap::Buffer::Buffer(v4, ArrayObject *)
  unfoldable pub new_from_array : Machine → List v4.Value → M Slice
  unfolding new_buffer store_from
  new_from_array machine items = do
    s ← new_buffer machine (length items)
    store_from s 0 (bytes_of_values items)
    pure s

  -- Buffer::putIndexed
  unfoldable pub put_indexed : Slice → ℕ → v4.Value → M (Unit {0})
  unfolding write
  put_indexed s index value =
      if leb s.size index then pure tt else write s index (byte_of value ∷ [])

-- Heap::Buffer::Buffer(v4, slice): a further reference to the same bytes.
unfoldable pub new_from_slice : Slice → M Slice
unfolding from_slice
new_from_slice s = from_slice s 0 none

-- Buffer::getIndexed: `none` is undefined, with *hasProperty false.
unfoldable pub get_indexed : Slice → ℕ → M (Option ℕ)
unfolding read
get_indexed s index =
    if leb s.size index then pure none else (do bs ← read s index 1; pure (some (get_or bs 0 0)))

-- Buffer::deleteIndexedProperty: no byte is deleted.
unfoldable pub delete_indexed_property : Slice → ℕ → M Bool
delete_indexed_property s index = pure true

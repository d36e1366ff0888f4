-- ===== src/Slice.antt =====
-- src/nodeqml/util/qarraydataslice.h: a counted reference to a part of a shared byte array.
pub mod Refs
pub mod Parts
pub mod Assign
use node_qml.Prelude.{
  ℕ, zero, suc, ◌+◌, ◌-◌, Bool, true, false, ◌||◌, Option, none, some, List, [], ◌∷◌, ◌==◌,
  if◌then◌else◌,
}
use node_qml.Memory.{
  Bytes, Heap, M, pure, undefined_behaviour, ◌>>=◌, ◌>>◌, ref_array, deref_array, deallocate,
  size_of, read_bytes, write_bytes,
}

-- `array` is m_arrayData (`none` is a null pointer), `begin` is m_begin as an index into the
-- allocation, and `size` is m_size, which no constructor makes negative.
pub record Slice : Type 0 where
  pub array : Option ℕ
  pub begin : ℕ
  pub size : ℕ

abbrev pub null_slice : Slice
null_slice = record { array = none; begin = 0; size = 0 }

-- isEmpty
unfoldable pub is_empty : Slice → Bool
is_empty s = s.size == 0

-- isNull
unfoldable pub is_null : Slice → Bool
is_null s = elim s.array [ none ↦ true | some _ ↦ false ]

-- clearData: a `char` has no destructor to call.
unfoldable pub clear_data : Slice → M Slice
unfolding deref_array deallocate
clear_data this = elim this.array [
  | none ↦ pure this
  | some a ↦ do
    left ← deref_array a
    if left then pure null_slice else (do deallocate a; pure null_slice)
]

-- setData: a `size` of `none` is the default argument -1.
unfoldable pub set_data : Slice → ℕ → ℕ → Option ℕ → M Slice
unfolding clear_data ref_array size_of
set_data this a offset size = do
  clear_data this
  ref_array a
  whole ← size_of a
  pure (record { array = some a; begin = offset; size = elim size [ none ↦ whole | some n ↦ n ] })

-- QTypedArrayDataSlice(QTypedArrayData<T> *, int, int)
unfoldable pub from_array : Option ℕ → ℕ → Option ℕ → M Slice
unfolding set_data
from_array none offset size = pure null_slice
from_array (some a) offset (some zero) = pure null_slice
from_array (some a) offset size = set_data null_slice a offset size

-- The size that a copy passes on: the default stands for the size of the copied slice, unless
-- that is empty.
abbrev pub copied_size : Slice → Option ℕ → Option ℕ
copied_size s (some n) = some n
copied_size s none = if s.size == 0 then none else some s.size

-- QTypedArrayDataSlice(const QTypedArrayDataSlice<T> &, int, int)
unfoldable pub from_slice : Slice → ℕ → Option ℕ → M Slice
unfolding set_data
from_slice s offset (some zero) = pure null_slice
from_slice s offset size = elim s.array [
  | none ↦ pure null_slice
  | some a ↦ set_data null_slice a (offset + s.begin) (copied_size s size)
]

-- ~QTypedArrayDataSlice
unfoldable pub destroy : Slice → M (Unit {0})
unfolding clear_data
destroy this = do clear_data this; pure tt

-- operator=, which reads through the other's array pointer before it tests anything.
unfoldable pub assign : Slice → Slice → M Slice
unfolding set_data
assign this other = elim other.array [
  | none ↦ undefined_behaviour
  | some a ↦ set_data this a other.begin (some other.size)
]

-- n bytes from data() + i
unfoldable pub read : Slice → ℕ → ℕ → M Bytes
unfolding read_bytes
read s i n = read_bytes s.array (s.begin + i) n

-- bytes stored at data() + i
unfoldable pub write : Slice → ℕ → Bytes → M (Unit {0})
unfolding write_bytes
write s i bs = write_bytes s.array (s.begin + i) bs

-- ===== src/Memory.antt =====
-- The memory that the program's byte arrays live in, and the actions that read and write it.
-- An array is a `QTypedArrayData<char>`: a reference count, a size, and the allocated bytes.
pub mod Laws
use node_qml.Prelude.{
  ℕ, zero, suc, ◌+◌, ◌-◌, ◌≡◌, String, Bool, true, false, ◌||◌, Option, none, some, List, [],
  length, sub, overwrite, leb, ◌==◌, if◌then◌else◌,
}

abbrev pub Bytes : Type 0
Bytes = List ℕ

-- UTF-16 code units.
abbrev pub QString : Type 0
QString = List ℕ

-- What the JavaScript engine is told to throw.
pub data Error : Type 0 where
  type_error range_error error syntax_error : String → Error
  -- An error whose message has a text put in for %1.
  type_error_with error_with : String → QString → Error

pub record ArrayData : Type 0 where
  pub ref : ℕ
  pub size : ℕ
  pub bytes : Bytes

-- A cell that holds no array is free. `next` is the address of the next allocation.
pub record Heap : Type 0 where
  pub next : ℕ
  pub cells : ℕ → Option ArrayData

-- `fault` is an access that C++ leaves undefined: out of the allocation, or of freed memory.
-- `hang` is a loop that used up its fuel.
pub data Outcome (A : Type 0) : Type 0 where
  ok : A → Heap → Outcome A
  throw : Error → Heap → Outcome A
  fault hang : Outcome A

-- A call that returned, or that threw and changed nothing.
abbrev pub IsSafe : {A : Type 0} → Heap → Outcome A → Type 0
IsSafe h (ok a h') = Unit
IsSafe h (throw e h') = h' ≡ h
IsSafe h fault = ⊥
IsSafe h hang = ⊥

abbrev pub M : Type 0 → Type 0
M A = Heap → Outcome A

module _ {A B : Type 0} where
  abbrev pub continue : Outcome A → (A → M B) → Outcome B
  continue (ok a h) f = f a h
  continue (throw e h) f = throw e h
  continue fault f = fault
  continue hang f = hang

  infixl 5 ◌>>=◌ ◌>>◌
  abbrev pub ◌>>=◌ : M A → (A → M B) → M B
  ◌>>=◌ m f h = continue (m h) f

  abbrev pub ◌>>◌ : M A → M B → M B
  ◌>>◌ m n h = continue (m h) (λ _. n)

module _ {A : Type 0} where
  abbrev pub pure : A → M A
  pure a h = ok a h

  abbrev pub raise : Error → M A
  raise e h = throw e h

  abbrev pub undefined_behaviour : M A
  undefined_behaviour h = fault

abbrev pub put_cell : Heap → ℕ → Option ArrayData → Heap
put_cell h a c = record h { cells = λ k. if k == a then c else h.cells k }

abbrev pub bytes_of : Option ArrayData → Bytes
bytes_of none = []
bytes_of (some c) = c.bytes

-- The allocated bytes of an array; a null pointer and a freed array have none.
abbrev pub bytes_at : Heap → Option ℕ → Bytes
bytes_at h none = []
bytes_at h (some a) = bytes_of (h.cells a)

abbrev pub with_bytes : Option ArrayData → Bytes → Option ArrayData
with_bytes none bs = none
with_bytes (some c) bs = some (record c { bytes = bs })

abbrev pub set_bytes : Heap → Option ℕ → Bytes → Heap
set_bytes h none bs = h
set_bytes h (some a) bs = put_cell h a (with_bytes (h.cells a) bs)

-- An access of `n` bytes at index `i` stays in an allocation of `capacity` bytes. An access of no
-- bytes touches no memory.
abbrev pub is_inside : ℕ → ℕ → ℕ → Bool
is_inside i n capacity = n == 0 || leb (i + n) capacity

unfoldable pub read_bytes : Option ℕ → ℕ → ℕ → M Bytes
read_bytes array i n h =
    if is_inside i n (length (bytes_at h array)) then ok (sub i n (bytes_at h array)) h else fault

-- `memcpy` and `memset`: bytes written at index `i` of an array.
unfoldable pub write_bytes : Option ℕ → ℕ → Bytes → M (Unit {0})
write_bytes array i bs h =
    if is_inside i (length bs) (length (bytes_at h array))
    then ok tt (set_bytes h array (overwrite i bs (bytes_at h array)))
    else fault

-- QtPrivate::RefCount::ref
unfoldable pub ref_array : ℕ → M (Unit {0})
ref_array a h = elim (h.cells a) [
  | none ↦ fault
  | some c ↦ ok tt (put_cell h a (some (record c { ref = c.ref + 1 })))
]

-- QtPrivate::RefCount::deref: whether a reference is left.
unfoldable pub deref_array : ℕ → M Bool
deref_array a h = elim (h.cells a) [
  | none ↦ fault
  | some c ↦
      ok (if c.ref == 1 then false else true) (put_cell h a (some (record c { ref = c.ref - 1 })))
]

-- QTypedArrayData::deallocate
unfoldable pub deallocate : ℕ → M (Unit {0})
deallocate a h = ok tt (put_cell h a none)

-- arrayData->size
unfoldable pub size_of : ℕ → M ℕ
size_of a h = elim (h.cells a) [ none ↦ fault | some c ↦ ok c.size h ]

-- QTypedArrayData::allocate: one reference, and bytes that nothing has set yet.
unfoldable pub allocate : Bytes → M ℕ
allocate fresh h = ok h.next (record {
  next = h.next + 1;
  cells =
      λ k. if k == h.next then some (record { ref = 1; size = 0; bytes = fresh }) else h.cells k;
})

-- arrayData->size = n
unfoldable pub set_size : ℕ → ℕ → M (Unit {0})
set_size a n h = elim (h.cells a) [
  | none ↦ fault
  | some c ↦ ok tt (put_cell h a (some (record c { size = n })))
]

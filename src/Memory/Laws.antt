-- ===== src/Memory/Laws.antt =====
-- Reads and writes inside an allocation: they succeed, and a read sees the last write.
use node_qml.Prelude.{
  ℕ, ◌+◌, ◌≤◌, ◌≡◌, ◌≢◌, Option, none, some, arith, length, sub, overwrite, sym, nil_of_length,
}
use node_qml.Memory.{Bytes, Heap, ok, bytes_at, set_bytes, read_bytes, write_bytes}

pub read_bytes_lem :
    (array : Option ℕ) (i n : ℕ) (h : Heap)
    → i + n ≤ length (bytes_at h array)
    → read_bytes array i n h ≡ ok (sub i n (bytes_at h array)) h
unfolding read_bytes
read_bytes_lem array i n h fits = ground arith

pub write_bytes_lem :
    (array : Option ℕ) (i : ℕ) (bs : Bytes) (h : Heap)
    → i + length bs ≤ length (bytes_at h array)
    → write_bytes array i bs h ≡ ok tt (set_bytes h array (overwrite i bs (bytes_at h array)))
unfolding write_bytes
write_bytes_lem array i bs h fits = ground arith

-- An array read back after its bytes were replaced by as many others.
pub bytes_at-set_bytes :
    (array : Option ℕ) (bs : Bytes) (h : Heap)
    → length bs ≡ length (bytes_at h array)
    → bytes_at (set_bytes h array bs) array ≡ bs
bytes_at-set_bytes none bs h e = sym (nil_of_length bs e)
bytes_at-set_bytes (some a) bs h e = ground (arith, nil_of_length bs)

pub bytes_at-set_bytes_ne :
    (a b : ℕ) (bs : Bytes) (h : Heap)
    → a ≢ b
    → bytes_at (set_bytes h (some a) bs) (some b) ≡ bytes_at h (some b)
bytes_at-set_bytes_ne a b bs h ne = ground arith

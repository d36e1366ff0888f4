-- ===== src/Buffer/View.antt =====
-- What reads and writes through one Buffer mean for the bytes that it shows.
use node_qml.Prelude.{
  ℕ, ◌+◌, ◌≤◌, ◌≡◌, arith, length, sub, overwrite, length-sub, sub-sub, length-overwrite,
  sub-overwrite,
}
use node_qml.Memory.{Bytes, Heap, ok, bytes_at, set_bytes}
use node_qml.Memory.Laws.{read_bytes_lem, write_bytes_lem, bytes_at-set_bytes}
use node_qml.Slice.{Slice, read, write}
use node_qml.Buffer.{view, Fits}

pub length-view : (h : Heap) (s : Slice) → Fits h s → length (view h s) ≡ s.size
length-view h s fits = length-sub s.begin s.size (bytes_at h s.array) fits

-- The heap after `bs` were stored at index `i` of `s`.
abbrev pub written : Heap → Slice → ℕ → Bytes → Heap
written h s i bs = set_bytes h s.array (overwrite (s.begin + i) bs (bytes_at h s.array))

pub write_lem :
    (s : Slice) (i : ℕ) (bs : Bytes) (h : Heap)
    → Fits h s
    → i + length bs ≤ s.size
    → write s i bs h ≡ ok tt (written h s i bs)
unfolding write
write_lem s i bs h fits inside = write_bytes_lem s.array (s.begin + i) bs h (omega arith)

pub read_lem :
    (s : Slice) (i n : ℕ) (h : Heap)
    → Fits h s
    → i + n ≤ s.size
    → read s i n h ≡ ok (sub (s.begin + i) n (bytes_at h s.array)) h
unfolding read
read_lem s i n h fits inside = read_bytes_lem s.array (s.begin + i) n h (omega arith)

bytes_at-written :
    (s : Slice) (i : ℕ) (bs : Bytes) (h : Heap)
    → bytes_at (written h s i bs) s.array ≡ overwrite (s.begin + i) bs (bytes_at h s.array)
bytes_at-written s i bs h =
    bytes_at-set_bytes s.array (overwrite (s.begin + i) bs (bytes_at h s.array)) h
      (length-overwrite (s.begin + i) bs (bytes_at h s.array))

pub view-written :
    (s : Slice) (i : ℕ) (bs : Bytes) (h : Heap)
    → i + length bs ≤ s.size
    → view (written h s i bs) s ≡ overwrite i bs (view h s)
view-written s i bs h inside =
    rw (bytes_at-written s i bs h) (sub-overwrite s.begin i s.size bs (bytes_at h s.array) inside)

pub Fits-written :
    (s : Slice) (i : ℕ) (bs : Bytes) (h : Heap) → Fits h s → Fits (written h s i bs) s
Fits-written s i bs h fits =
    rw (bytes_at-written s i bs h)
      (omega (arith, length-overwrite (s.begin + i) bs (bytes_at h s.array)))

-- A read inside a Buffer gives that part of what it shows.
pub read-view :
    (s : Slice) (i n : ℕ) (h : Heap)
    → Fits h s
    → i + n ≤ s.size
    → read s i n h ≡ ok (sub i n (view h s)) h
read-view s i n h fits inside =
    let e : i + s.begin ≡ s.begin + i = omega arith in
    rw (read_lem s i n h fits inside, sub-sub i n s.begin s.size (bytes_at h s.array) inside, e)

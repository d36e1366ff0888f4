-- ===== src/Buffer/Fill/Method.antt =====
-- `fill` as a script calls it: what it does in range, and that it does not check its range.
use node_qml.Prelude.{
  ℕ, suc, ◌+◌, ◌-◌, ◌%◌, ◌≤◌, ◌<◌, ◌≡◌, refl, ◌⊎◌, inl, inr, true, false, some, List, [], ◌∷◌,
  arith, length, if◌then◌else◌, Bool-cases, pos, sub_ℕ, ◌||◌, length-replicate, nil_of_length,
  negsuc,
}
use node_qml.Memory.{Bytes, Heap, ok, fault, hang, bytes_at, write_bytes}
use node_qml.Slice.{Slice}
use node_qml.Host.{V4, Text}
use node_qml.Buffer.{Fits}
use node_qml.Buffer.Copy.{index_argument}
use node_qml.Buffer.Fill.{memset, fill_value, method_fill}
use node_qml.Buffer.Fill.Loop.{IsFilled}
use node_qml.Buffer.Fill.Whole.{memset_lem, fill_bytes-IsFilled, fill_empty_hangs}

sub_ℕ_lem : (a b : ℕ) → b ≤ a → sub_ℕ a b ≡ pos (a - b)
sub_ℕ_lem a b h = ground arith

memset_outside :
    (s : Slice) (offset b n : ℕ) (h : Heap)
    → length (bytes_at h s.array) < s.begin + (offset + suc n)
    → memset s offset b (pos (suc n)) h ≡ fault
unfolding memset write_bytes
memset_outside s offset b n h beyond = ground (arith, length-replicate n b)

module _ (v4 : V4) (text : Text) where
  -- The bytes that a value is repeated by: one byte for a number, else those of its text.
  abbrev pub filler : v4.Value → Bytes
  filler value =
      if v4.is_number value
      then v4.to_uint32 value % 256 ∷ []
      else text.to_utf8 (v4.to_qstring value)

  fill_value-IsFilled :
      (self : Slice) (value : v4.Value) (offset end : ℕ) (h : Heap)
      → (v4.is_number value || v4.is_string value) ≡ true
      → 0 < length (filler value)
      → Fits h self
      → offset ≤ end
      → end ≤ self.size
      → (h' : Heap) × (fill_value v4 text self value offset end h ≡ ok tt h')
        × IsFilled self (filler value) offset (end - offset) h (end - offset) h'
  unfolding fill_value
  fill_value-IsFilled self value offset end h kind some_byte fits up inside =
      let n : sub_ℕ end offset ≡ pos (end - offset) = sub_ℕ_lem end offset up in
      elim (Bool-cases (v4.is_number value)) [
        | inl number ↦
            let (h', done, w) =
              memset_lem self offset (v4.to_uint32 value % 256) (end - offset) h fits
                (omega arith) in
            (h', rw (number, n) done, rw number w)
        | inr other ↦
            let string : v4.is_string value ≡ true = ground arith in
            let text_bytes = text.to_utf8 (v4.to_qstring value) in
            let (h', done, w) =
              fill_bytes-IsFilled self text_bytes offset (end - offset) h (rw other at some_byte)
                fits (omega arith) in
            (h', rw (other, string, n) done, rw other w)
      ]

  module _ (self : Slice) (value : v4.Value) (args : List v4.Value) (offset end : ℕ) (h : Heap)
      (has_offset : index_argument v4 (value ∷ args) 1 0 h ≡ ok offset h)
      (has_end : index_argument v4 (value ∷ args) 2 self.size h ≡ ok end h) where
    -- `fill` of a range inside the Buffer with a number, or with a string that has a byte: it ends,
    -- returns the Buffer, repeats the bytes of the value over the range, and changes no other byte.
    pub method_fill-IsFilled :
        (v4.is_number value || v4.is_string value) ≡ true
        → 0 < length (filler value)
        → Fits h self
        → offset ≤ end
        → end ≤ self.size
        → (h' : Heap) × (method_fill v4 text (some self) (value ∷ args) h ≡ ok self h')
          × IsFilled self (filler value) offset (end - offset) h (end - offset) h'
    unfolding method_fill
    method_fill-IsFilled kind some_byte fits up inside =
        let (h', done, w) =
          fill_value-IsFilled self value offset end h kind some_byte fits up inside in
        (h', rw (has_offset, has_end, done) refl, w)

    -- The range is not checked: with a number, a range that ends behind the allocated bytes, or
    -- that ends before it begins, makes `fill` write outside the allocation.
    pub method_fill_overruns :
        v4.is_number value ≡ true
        → (end < offset) ⊎ ((offset < end) × (length (bytes_at h self.array) < self.begin + end))
        → method_fill v4 text (some self) (value ∷ args) h ≡ fault
    unfolding method_fill fill_value
    method_fill_overruns number (inl back) =
        let n : sub_ℕ end offset ≡ negsuc (offset - end - 1) = ground arith in
        rw (has_offset, has_end, number, n) refl
    method_fill_overruns number (inr (up, beyond)) =
        let n : sub_ℕ end offset ≡ pos (suc (end - offset - 1)) = ground arith in
        rw
          (
            has_offset,
            has_end,
            number,
            n,
            memset_outside self offset (v4.to_uint32 value % 256) (end - offset - 1) h
                (omega arith),
          )
          refl

    -- With a string that has no byte, a range that is not empty makes `fill` loop forever.
    method_fill_hangs :
        v4.is_number value ≡ false
        → v4.is_string value ≡ true
        → length (filler value) ≡ 0
        → offset < end
        → method_fill v4 text (some self) (value ∷ args) h ≡ hang
    unfolding method_fill fill_value
    method_fill_hangs other string none up =
        let n : sub_ℕ end offset ≡ pos (suc (end - offset - 1)) = ground arith in
        let empty : text.to_utf8 (v4.to_qstring value) ≡ [] =
          nil_of_length (text.to_utf8 (v4.to_qstring value)) (rw other at none) in
        rw
          (
            has_offset,
            has_end,
            other,
            string,
            n,
            empty,
            fill_empty_hangs self offset (end - offset - 1) h,
          )
          refl

-- ===== src/Buffer/Text/Write.antt =====
-- What `write` leaves in a Buffer, and the arguments for which its bounds fail.
use node_qml.Prelude.{
  ℕ, ◌+◌, ◌-◌, ◌≤◌, ◌<◌, ◌^◌, ◌≡◌, refl, ◌⊎◌, inl, inr, Bool, true, false, ◌||◌, some, arith,
  length, overwrite, Bool-cases, ℤ, pos, negsuc, ◌+ℤ◌, ◌≤ℤ◌, ltb_ℤ, leb_ℤ, int_of, IsInt, is_nil,
  pos_part, min, subst, if◌then◌else◌,
}
use node_qml.Memory.{
  range_error, Bytes, QString, Heap, Outcome, ok, throw, fault, hang, bytes_at, write_bytes,
}
use node_qml.Slice.{Slice}
use node_qml.Host.{Text}
use node_qml.Buffer.{view, Fits}
use node_qml.Buffer.View.{write_lem, view-written, Fits-written}
use node_qml.Buffer.Encoding.{Encoding, utf8, parse_encoding, is_invalid, decode_string}
use node_qml.Buffer.Encoding.Sizes.{length-decode_string-le}
use node_qml.Buffer.Text.{WriteArguments, unknown_encoding, cut_count, write_text}

int_of-sum : (a b : ℕ) → a + b < 2 ^ 31 → int_of (pos a +ℤ pos b) ≡ pos (a + b)
int_of-sum a b h = ground arith

-- With two integers that are not negative, the first below the size.
cut_count_pos :
    (size a b : ℕ)
    → a < size
    → a + b < 2 ^ 31
    → (a + cut_count size (pos a) (pos b) ≤ size) × (cut_count size (pos a) (pos b) ≤ b)
cut_count_pos size a b below small = rw (int_of-sum a b small) (ground arith, ground arith)

cut_count_lem :
    (size : ℕ) (offset count : ℤ)
    → (ltb_ℤ count (pos 0) || ltb_ℤ offset (pos 0) || leb_ℤ (pos size) offset) ≡ false
    → offset +ℤ count ≤ℤ pos (2 ^ 31 - 1)
    → (pos_part offset + cut_count size offset count ≤ size)
      × (cut_count size offset count ≤ pos_part count)
cut_count_lem size (pos a) (pos b) inside small =
    cut_count_pos size a b (ground arith) (ground arith)
cut_count_lem size (negsuc a) (pos b) inside small = absurd (ground arith)
cut_count_lem size (pos a) (negsuc b) inside small = absurd (ground arith)
cut_count_lem size (negsuc a) (negsuc b) inside small = absurd (ground arith)

cut_count-min :
    (size : ℕ) (offset count : ℤ)
    → (ltb_ℤ count (pos 0) || ltb_ℤ offset (pos 0) || leb_ℤ (pos size) offset) ≡ false
    → offset +ℤ count ≤ℤ pos (2 ^ 31 - 1)
    → cut_count size offset count ≡ min (pos_part count) (size - pos_part offset)
cut_count-min size (pos a) (pos b) inside small = rw (int_of-sum a b (ground arith)) (ground arith)
cut_count-min size (negsuc a) (pos b) inside small = absurd (ground arith)
cut_count-min size (pos a) (negsuc b) inside small = absurd (ground arith)
cut_count-min size (negsuc a) (negsuc b) inside small = absurd (ground arith)

wraps :
    (a b : ℕ)
    → a < 2 ^ 31
    → b < 2 ^ 31
    → 2 ^ 31 ≤ a + b
    → int_of (pos a +ℤ pos b) ≡ negsuc (2 ^ 32 - (a + b) - 1)
wraps a b ha hb large = ground arith

cut_count_wraps :
    (size : ℕ) (offset count : ℤ)
    → (ltb_ℤ count (pos 0) || ltb_ℤ offset (pos 0) || leb_ℤ (pos size) offset) ≡ false
    → pos (2 ^ 31) ≤ℤ offset +ℤ count
    → IsInt offset
    → IsInt count
    → cut_count size offset count ≡ pos_part count
cut_count_wraps size (pos a) (pos b) inside large io ic =
    rw (wraps a b (ground arith) (ground arith) (ground arith)) (ground arith)
cut_count_wraps size (negsuc a) (pos b) inside large io ic = absurd (ground arith)
cut_count_wraps size (pos a) (negsuc b) inside large io ic = absurd (ground arith)
cut_count_wraps size (negsuc a) (negsuc b) inside large io ic = absurd (ground arith)

module _ (text : Text) (self : Slice) (string : QString) (given : WriteArguments) where
  abbrev pub is_outside : Bool
  is_outside =
      ltb_ℤ given.count (pos 0) || ltb_ℤ given.offset (pos 0) || leb_ℤ (pos self.size) given.offset

  -- The encoding that is named, UTF-8 where none is.
  abbrev pub named : Encoding
  named = if is_nil given.encoding then utf8 else parse_encoding text given.encoding

  -- The bytes of the text for a limit.
  abbrev pub text_bytes : ℕ → Bytes
  text_bytes limit = decode_string text string named (some limit)

  -- What `write` may come to, with room for some bytes.
  abbrev pub WritesWithin : ℕ → Heap → Outcome ℕ → Type 0
  WritesWithin room h (ok n h') =
      (is_outside ≡ false)
      × (is_invalid named ≡ false)
      × (pos_part given.offset + n ≤ self.size)
      × (n ≤ pos_part given.count)
      × Fits h' self
      × (((is_nil string ≡ true) × (n ≡ 0) × (h' ≡ h))
          ⊎ ((is_nil string ≡ false)
              × (n ≡ length (text_bytes room))
              × (view h' self ≡ overwrite (pos_part given.offset) (text_bytes room) (view h self))))
  WritesWithin room h (throw e h') =
      (h' ≡ h)
      × (((is_outside ≡ true) × (e ≡ range_error "attempt to write outside buffer bounds"))
          ⊎ ((is_outside ≡ false)
              × (is_invalid named ≡ true)
              × (e ≡ unknown_encoding given.encoding)))
  WritesWithin room h fault = ⊥
  WritesWithin room h hang = ⊥

  -- The room is the length that is given, but no more than there is from the offset to the end.
  abbrev pub WritesText : Heap → Outcome ℕ → Type 0
  WritesText h r = WritesWithin (min (pos_part given.count) (self.size - pos_part given.offset)) h r

  abbrev count : ℕ
  count = cut_count self.size given.offset given.count

  room_lem :
      is_outside ≡ false
      → given.offset +ℤ given.count ≤ℤ pos (2 ^ 31 - 1)
      → (pos_part given.offset + count ≤ self.size) × (count ≤ pos_part given.count)
  room_lem = cut_count_lem self.size given.offset given.count

  write_text-WritesWithin :
      (h : Heap)
      → Fits h self
      → given.offset +ℤ given.count ≤ℤ pos (2 ^ 31 - 1)
      → WritesWithin count h (write_text text self string given h)
  unfolding write_text
  write_text-WritesWithin h fits small = elim (Bool-cases is_outside) [
    | inl outside ↦ rw outside (refl, inl (outside, refl))
    | inr inside ↦ elim (Bool-cases (is_invalid named)) [
      | inl unknown ↦ rw (inside, unknown) (refl, inr (inside, unknown, refl))
      | inr known ↦ elim (Bool-cases (is_nil string)) [
        | inl empty ↦
            rw (inside, known, empty)
              (inside, known, ground arith, omega arith, fits, inl (empty, refl, refl))
        | inr some_text ↦
            let (in_buffer, in_count) = room_lem inside small in
            let limit = length-decode_string-le text string named count in
            let fit : pos_part given.offset + length (text_bytes count) ≤ self.size = omega arith in
            rw
              (
                inside,
                known,
                some_text,
                write_lem self (pos_part given.offset) (text_bytes count) h fits fit,
              )
              (
                inside,
                known,
                fit,
                omega arith,
                Fits-written self (pos_part given.offset) (text_bytes count) h fits,
                inr (
                  some_text,
                  refl,
                  view-written self (pos_part given.offset) (text_bytes count) h fit,
                ),
              )
      ]
    ]
  ]

  pub write_text-WritesText :
      (h : Heap)
      → Fits h self
      → given.offset +ℤ given.count ≤ℤ pos (2 ^ 31 - 1)
      → WritesText h (write_text text self string given h)
  unfolding write_text
  write_text-WritesText h fits small = elim (Bool-cases is_outside) [
    | inl outside ↦ rw outside (refl, inl (outside, refl))
    | inr inside ↦
        subst (λ n. WritesWithin n h (write_text text self string given h))
          (cut_count-min self.size given.offset given.count inside small)
          (write_text-WritesWithin h fits small)
  ]

  -- Where the sum passes the largest `int`, the length is not cut to the Buffer: a text whose bytes
  -- run over the allocation is then stored past its end.
  write_text_overruns :
      (h : Heap)
      → is_outside ≡ false
      → is_invalid named ≡ false
      → is_nil string ≡ false
      → pos (2 ^ 31) ≤ℤ given.offset +ℤ given.count
      → IsInt given.offset
      → IsInt given.count
      → length (bytes_at h self.array)
        < self.begin + (pos_part given.offset + length (text_bytes count))
      → 0 < length (text_bytes count)
      → (count ≡ pos_part given.count) × (write_text text self string given h ≡ fault)
  unfolding write_text write_bytes
  write_text_overruns h inside known some_text large io ic beyond some_byte = (
    cut_count_wraps self.size given.offset given.count inside large io ic,
    rw (inside, known, some_text) (ground arith),
  )

-- ===== src/Buffer/Text/Method.antt =====
-- How `write` of src/nodeqml/types/buffer.cpp reads its arguments, and what it comes to.
use node_qml.Prelude.{
  ℕ, ◌≡◌, ◌⊎◌, refl, inl, inr, Bool, true, false, ◌||◌, ◌==◌, ◌^◌, ◌-◌, some, List, [], ◌∷◌, arith,
  length, leb, ltb, Bool-cases, pos, ◌+ℤ◌, ◌≤ℤ◌, if◌then◌else◌,
}
use node_qml.Memory.{QString, Heap, Outcome, type_error, throw}
use node_qml.Slice.{Slice}
use node_qml.Double.{is_finite}
use node_qml.Host.{V4, Text}
use node_qml.Buffer.{Fits}
use node_qml.Buffer.Text.{WriteArguments, is_finite_value, write_arguments, method_write}
use node_qml.Buffer.Text.Write.{WritesText, write_text-WritesText}

module _ (v4 : V4) where
  -- A number that is an integer of the engine or is finite.
  abbrev pub finite : v4.Value → Bool
  finite v = v4.integer_compatible v || is_finite (v4.to_number v)

  abbrev pub whole : ℕ → QString → WriteArguments
  whole size encoding = record { offset = pos 0; count = pos size; encoding = encoding }

  abbrev pub from : ℕ → v4.Value → QString → WriteArguments
  from size b encoding = record { offset = v4.to_int32 b; count = pos size; encoding = encoding }

  -- The encoding behind the length.
  abbrev pub last_encoding : List v4.Value → QString
  last_encoding [] = []
  last_encoding (d ∷ _) = v4.to_qstring d

  -- What stands behind the text: an encoding; an offset; an offset and an encoding; or an offset and
  -- a length, and an encoding, which can be missing. Where there is something else in the place of
  -- the offset, all that stands behind the text is ignored.
  abbrev pub given : ℕ → List v4.Value → WriteArguments
  given size [] = whole size []
  given size (s ∷ []) = whole size []
  given size (s ∷ b ∷ []) =
      if v4.is_string b
      then whole size (v4.to_qstring b)
      else if finite b
      then from size b []
      else whole size []
  given size (s ∷ b ∷ c ∷ rest) =
      if finite b
      then if finite c
        then record { offset = v4.to_int32 b; count = v4.to_int32 c; encoding = last_encoding rest }
        else from size b (v4.to_qstring c)
      else whole size []

  write_arguments-given :
      (size : ℕ) (args : List v4.Value) → write_arguments v4 size args ≡ given size args
  unfolding write_arguments is_finite_value
  write_arguments-given size [] = refl
  write_arguments-given size (s ∷ []) = refl
  write_arguments-given size (s ∷ b ∷ []) = elim (Bool-cases (v4.is_string b)) [
    | inl is_text ↦ rw is_text refl
    | inr other ↦ elim (Bool-cases (finite b)) [
      | inl number ↦ rw (other, number) refl
      | inr nothing ↦ rw (other, nothing) refl
    ]
  ]
  write_arguments-given size (s ∷ b ∷ c ∷ []) = elim (Bool-cases (finite b)) [
    | inl number ↦ elim (Bool-cases (finite c)) [
      | inl count ↦ rw (number, count) refl
      | inr other ↦ rw (number, other) refl
    ]
    | inr nothing ↦ rw nothing refl
  ]
  write_arguments-given size (s ∷ b ∷ c ∷ d ∷ rest) =
      let many : (length (s ∷ b ∷ c ∷ d ∷ rest) == 2) ≡ false = ground arith in
      let first : ltb 1 (length (s ∷ b ∷ c ∷ d ∷ rest)) ≡ true = ground arith in
      let second : ltb 2 (length (s ∷ b ∷ c ∷ d ∷ rest)) ≡ true = ground arith in
      let third : ltb 3 (length (s ∷ b ∷ c ∷ d ∷ rest)) ≡ true = ground arith in
      elim (Bool-cases (finite b)) [
        | inl number ↦ elim (Bool-cases (finite c)) [
          | inl count ↦ rw (many, first, second, third, number, count) refl
          | inr other ↦ rw (many, first, second, number, other) refl
        ]
        | inr nothing ↦ rw (many, first, nothing) refl
      ]

module _ (v4 : V4) (text : Text) where
  -- The refusal of a first argument that is no text.
  abbrev pub IsRefused : Heap → Outcome ℕ → Type 0
  IsRefused h r = r ≡ throw (type_error "Argument must be a string") h

  -- What `write` may come to, by its first argument.
  abbrev pub WritesCall : Slice → List v4.Value → Heap → Outcome ℕ → Type 0
  WritesCall self [] h r = IsRefused h r
  WritesCall self (s ∷ rest) h r =
      ((v4.is_string s ≡ false) × IsRefused h r)
      ⊎ ((v4.is_string s ≡ true)
          × WritesText text self (v4.to_qstring s) (given v4 self.size (s ∷ rest)) h r)

  -- `write`, where the sum of the offset and the length is still an `int`: the text is stored at the
  -- offset, 0 where none is given, cut to the length, the size where none is given, and to the end
  -- of the Buffer, and the number of its bytes is returned. A first argument that is no text is a
  -- TypeError, an offset or length out of the bounds the RangeError "attempt to write outside buffer
  -- bounds", and an unknown encoding an error, too; these change nothing.
  pub method_write-WritesCall :
      (self : Slice) (args : List v4.Value) (h : Heap)
      → Fits h self
      → (given v4 self.size args).offset +ℤ (given v4 self.size args).count ≤ℤ pos (2 ^ 31 - 1)
      → WritesCall self args h (method_write v4 text (some self) args h)
  unfolding method_write
  method_write-WritesCall self [] h fits small = refl
  method_write-WritesCall self (s ∷ rest) h fits small =
      let some_argument : leb 1 (length (s ∷ rest)) ≡ true = ground arith in
      elim (Bool-cases (v4.is_string s)) [
        | inr other ↦ inl (other, rw (some_argument, other) refl)
        | inl is_text ↦ inr (
          is_text,
          rw (some_argument, is_text, write_arguments-given v4 self.size (s ∷ rest))
              (write_text-WritesText text self (v4.to_qstring s) (given v4 self.size (s ∷ rest)) h
                fits small),
        )
      ]

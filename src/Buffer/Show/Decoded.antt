-- ===== src/Buffer/Show/Decoded.antt =====
-- What toString of src/nodeqml/types/buffer.cpp gives back of what was stored.
use node_qml.Prelude.{
  ℕ, ◌+◌, ◌-◌, ◌≤◌, ◌<◌, ◌≡◌, refl, ap, ap₂, true, false, none, some, List, [], ◌∷◌, arith, length,
  take, ltb, ◌*◌, ◌%◌, leb, min_ℤ, suc, map, subst, sub, All, take_all, Bool-cases, inl, inr, ◌⊎◌,
  ℤ, pos, negsuc, leb_ℤ, pos_part,
}
use node_qml.Memory.{Bytes, type_error_with, QString, Heap, Outcome, ok, throw, fault, hang}
use node_qml.Slice.{Slice}
use node_qml.Host.{V4, Text, argument}
use node_qml.Buffer.{view, Fits}
use node_qml.Buffer.View.{read-view}
use node_qml.Buffer.Encoding.{
  Encoding, invalid, base64, hex, utf8, parse_encoding, ascii, binary, raw, ucs2, utf16le,
  is_invalid, decode_string, cells, cells_and_rows,
}
use node_qml.Buffer.Show.{
  units, low_bits, text_of, part_text, text_start, text_end, text_encoding, method_to_string,
}

low_bits-cells : (s : QString) → low_bits (cells s) ≡ low_bits s
low_bits-cells [] = refl
low_bits-cells (c ∷ s) = ap₂ (λ x xs. x ∷ xs) (omega arith) (low_bits-cells s)

units-cells_and_rows : (s : QString) → All (λ c. c < 65536) s → units (cells_and_rows s) ≡ s
units-cells_and_rows [] small = refl
units-cells_and_rows (c ∷ s) (p, small) =
    ap₂ (λ x xs. x ∷ xs) (omega arith) (units-cells_and_rows s small)

-- A text that was encoded with no limit and is read back in the same encoding: the one-byte
-- encodings give the low seven bits of each character, and so all of a 7-bit text, and all code
-- units reach the conversion of UTF-16.
text_of-decode_string :
    (text : Text) (s : QString)
    → All (λ c. c < 65536) s
    → (text_of text ascii (decode_string text s ascii none) ≡ low_bits s)
      × (text_of text binary (decode_string text s binary none) ≡ low_bits s)
      × (text_of text raw (decode_string text s raw none) ≡ low_bits s)
      × (text_of text ucs2 (decode_string text s ucs2 none) ≡ text.from_utf16 s)
      × (text_of text utf16le (decode_string text s utf16le none) ≡ text.from_utf16 s)
unfolding text_of decode_string
text_of-decode_string text s small =
    let all : take (length s) s ≡ s = take_all (length s) s (omega arith) in
    rw all (
      low_bits-cells s,
      low_bits-cells s,
      low_bits-cells s,
      ap text.from_utf16 (units-cells_and_rows s small),
      ap text.from_utf16 (units-cells_and_rows s small),
    )

-- The code units of bytes, the low byte first.
abbrev pub Paired : Bytes → List ℕ → Type 0
Paired [] [] = Unit
Paired [] (u ∷ us) = ⊥
Paired (b ∷ []) [] = Unit
Paired (b ∷ []) (u ∷ us) = ⊥
Paired (b ∷ c ∷ bs) [] = ⊥
Paired (b ∷ c ∷ bs) (u ∷ us) = (u ≡ b + c * 256) × Paired bs us

units-Paired : (bs : Bytes) → Paired bs (units bs)
units-Paired [] = tt
units-Paired (b ∷ []) = tt
units-Paired (b ∷ c ∷ bs) = (omega arith, units-Paired bs)

-- The text of bytes in each encoding.
abbrev pub IsText : Text → Encoding → Bytes → QString → Type 0
IsText text ascii bs s = s ≡ map (λ b. b % 128) bs
IsText text binary bs s = s ≡ map (λ b. b % 128) bs
IsText text raw bs s = s ≡ map (λ b. b % 128) bs
IsText text base64 bs s = s ≡ text.to_base64 bs
IsText text hex bs s = s ≡ text.to_hex bs
IsText text ucs2 bs s = (us : List ℕ) × Paired bs us × (s ≡ text.from_utf16 us)
IsText text utf16le bs s = (us : List ℕ) × Paired bs us × (s ≡ text.from_utf16 us)
IsText text utf8 bs s = s ≡ text.from_utf8 bs
IsText text invalid bs s = ⊥

text_of-IsText :
    (text : Text) (encoding : Encoding) (bs : Bytes)
    → is_invalid encoding ≡ false
    → IsText text encoding bs (text_of text encoding bs)
unfolding text_of
text_of-IsText text ascii bs good = refl
text_of-IsText text binary bs good = refl
text_of-IsText text raw bs good = refl
text_of-IsText text base64 bs good = refl
text_of-IsText text hex bs good = refl
text_of-IsText text ucs2 bs good = (units bs, units-Paired bs, refl)
text_of-IsText text utf16le bs good = (units bs, units-Paired bs, refl)
text_of-IsText text utf8 bs good = refl
text_of-IsText text invalid bs good = absurd (ground arith)

-- The place that an argument means: none is before the Buffer or past its end.
abbrev pub IsPlace : ℕ → ℤ → ℕ → Type 0
IsPlace size (pos k) n = ((k ≤ size) × (n ≡ k)) ⊎ ((size ≤ k) × (n ≡ size))
IsPlace size (negsuc k) n = n ≡ 0

min_ℤ-IsPlace : (size : ℕ) (i : ℤ) → IsPlace size i (pos_part (min_ℤ i (pos size)))
min_ℤ-IsPlace size (pos k) = elim (Bool-cases (leb k size)) [
  | inl e ↦ inl (ground arith, ground arith)
  | inr e ↦ inr (ground arith, ground arith)
]
min_ℤ-IsPlace size (negsuc k) = ground arith

module _ (v4 : V4) where
  -- What the second and third argument say.
  abbrev pub IsFrom : ℕ → List v4.Value → ℕ → Type 0
  IsFrom size [] start = start ≡ 0
  IsFrom size (e ∷ []) start = start ≡ 0
  IsFrom size (e ∷ v ∷ _) start = IsPlace size (v4.to_int32 v) start

  abbrev pub IsTo : ℕ → List v4.Value → ℕ → Type 0
  IsTo size [] end = end ≡ size
  IsTo size (e ∷ []) end = end ≡ size
  IsTo size (e ∷ v ∷ []) end = end ≡ size
  IsTo size (e ∷ v ∷ w ∷ _) end =
      ((v4.is_undefined w ≡ true) × (end ≡ size))
      ⊎ ((v4.is_undefined w ≡ false) × IsPlace size (v4.to_int32 w) end)

module _ (v4 : V4) (text : Text) where
  text_start-IsFrom :
      (size : ℕ) (args : List v4.Value)
      → IsFrom v4 size args (pos_part (text_start v4 text args size))
  text_start-IsFrom size [] = refl
  text_start-IsFrom size (e ∷ []) = refl
  text_start-IsFrom size (e ∷ v ∷ args) =
      let given : ltb 1 (length (e ∷ v ∷ args)) ≡ true = ground arith in
      rw given (min_ℤ-IsPlace size (v4.to_int32 v))

  text_end-IsTo :
      (size : ℕ) (args : List v4.Value) → IsTo v4 size args (pos_part (text_end v4 text args size))
  text_end-IsTo size [] = refl
  text_end-IsTo size (e ∷ []) = refl
  text_end-IsTo size (e ∷ v ∷ []) = refl
  text_end-IsTo size (e ∷ v ∷ w ∷ args) =
      let given : ltb 2 (length (e ∷ v ∷ w ∷ args)) ≡ true = ground arith in
      elim (Bool-cases (v4.is_undefined w)) [
        | inl u ↦ inl (u, rw (given, u) refl)
        | inr u ↦ inr (u, rw (given, u) (min_ℤ-IsPlace size (v4.to_int32 w)))
      ]

  -- The encoding that the first argument names.
  abbrev pub named_encoding : List v4.Value → Encoding
  named_encoding [] = utf8
  named_encoding (e ∷ _) = parse_encoding text (v4.to_qstring e)

  text_encoding-named : (args : List v4.Value) → text_encoding v4 text args ≡ named_encoding args
  text_encoding-named [] = refl
  text_encoding-named (e ∷ args) =
      let given : leb 1 (length (e ∷ args)) ≡ true = ground arith in rw given refl

  -- What `toString` may come to.
  abbrev pub Shown : Slice → List v4.Value → Heap → Outcome QString → Type 0
  Shown self args h (ok s h') =
      (start : ℕ) × (end : ℕ) × IsFrom v4 self.size args start
      × IsTo v4 self.size args end
      × (h' ≡ h)
      × (is_invalid (named_encoding args) ≡ false)
      × (((end ≤ start) × (s ≡ []))
          ⊎ ((n : ℕ) × (start + suc n ≡ end)
              × (end ≤ self.size)
              × IsText text (named_encoding args) (sub start (suc n) (view h self)) s))
  Shown self args h (throw e h') =
      (h' ≡ h)
      × (is_invalid (named_encoding args) ≡ true)
      × (e ≡ type_error_with "Unknown encoding: %1" (v4.to_qstring (argument v4 args 0)))
  Shown self args h fault = ⊥
  Shown self args h hang = ⊥

  -- The end is never behind the Buffer.
  ends_lem :
      (start : ℕ) (end : ℤ) (size : ℕ)
      → leb_ℤ end (pos start) ≡ false
      → leb_ℤ end (pos size) ≡ true
      → (n : ℕ) × (pos_part end - start ≡ suc n)
        × (start + suc n ≡ pos_part end)
        × (pos_part end ≤ size)
  ends_lem start (pos n) size before inside =
      (n - start - 1, ground arith, ground arith, ground arith)
  ends_lem start (negsuc n) size before inside = absurd (ground arith)

  before_lem : (start : ℕ) (end : ℤ) → leb_ℤ end (pos start) ≡ true → pos_part end ≤ start
  before_lem start (pos n) before = ground arith
  before_lem start (negsuc n) before = ground arith

  text_end-le :
      (args : List v4.Value) (size : ℕ) → leb_ℤ (text_end v4 text args size) (pos size) ≡ true
  text_end-le args size = ground arith

  part_text-Shown :
      (self : Slice) (args : List v4.Value) (h : Heap)
      → Fits h self
      → is_invalid (text_encoding v4 text args) ≡ false
      → Shown self args h (
          part_text text
            (some self)
            (text_encoding v4 text args)
            (text_start v4 text args)
            (text_end v4 text args)
            h)
  unfolding part_text
  part_text-Shown self args h fits good =
      let start = pos_part (text_start v4 text args self.size) in
      let end = text_end v4 text args self.size in
      let from = text_start-IsFrom self.size args in
      let to = text_end-IsTo self.size args in
      let named = text_encoding-named args in
      let good' : is_invalid (named_encoding args) ≡ false =
        subst (λ e. is_invalid e ≡ false) named good in
      elim (Bool-cases (leb_ℤ end (pos start))) [
        | inl none_left ↦
            rw none_left (
              start,
              pos_part end,
              from,
              to,
              refl,
              good',
              inl (before_lem start end none_left, refl),
            )
        | inr some_left ↦
            let (n, count, sum, inside) =
              ends_lem start end self.size some_left (text_end-le args self.size) in
            let bs = sub start (suc n) (view h self) in
            let shown : IsText text (named_encoding args) bs
                (text_of text (text_encoding v4 text args) bs) =
              subst (λ e. IsText text e bs (text_of text (text_encoding v4 text args) bs)) named
                (text_of-IsText text (text_encoding v4 text args) bs good) in
            rw (some_left, count, read-view self start (suc n) h fits (omega arith))
              (start, pos_part end, from, to, refl, good', inr (n, sum, inside, shown))
      ]

  -- `toString` shows the text of the bytes from the second argument, 0 without one, up to the
  -- third, the end without one or where it is undefined: a negative one is 0, one past the end is
  -- the end, and nothing is shown where the third is not behind the second. The text is what the
  -- encoding that the first argument names says, UTF-8 without one: the low seven bits of each byte
  -- for ascii, binary and raw, the digits of base64 and hex, the characters of the code units in
  -- pairs of bytes, the low one first, or those of UTF-8. A name of no encoding throws. Nothing is
  -- changed, and nothing is read out of bounds.
  pub method_to_string-Shown :
      (self : Slice) (args : List v4.Value) (h : Heap)
      → Fits h self
      → Shown self args h (method_to_string v4 text (some self) args h)
  unfolding method_to_string
  method_to_string-Shown self args h fits =
      elim (Bool-cases (is_invalid (text_encoding v4 text args))) [
        | inl bad ↦
            rw bad (refl, subst (λ e. is_invalid e ≡ true) (text_encoding-named args) bad, refl)
        | inr good ↦ rw good (part_text-Shown self args h fits good)
      ]

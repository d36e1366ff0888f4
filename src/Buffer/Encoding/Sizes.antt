-- ===== src/Buffer/Encoding/Sizes.antt =====
-- How many bytes a text takes, and the limit on them.
use node_qml.Prelude.{
  ℕ, suc, ◌+◌, ◌*◌, ◌≤◌, min, ◌≡◌, refl, ◌≢◌, inl, inr, none, some, List, [], ◌∷◌, ◌++◌, arith,
  length, take, length-take, length-append, ltb, Bool-cases, ap, sym, ◌∙◌,
}
use node_qml.Memory.{Bytes, QString}
use node_qml.Host.{Text}
use node_qml.Buffer.Encoding.{
  Encoding, invalid, ascii, base64, binary, hex, raw, ucs2, utf8, utf16le, resize_to, cells,
  cells_and_rows, append_within, decode_string, byte_length, latin1_count, ucs2_count,
  from_any_base64,
}

length-cells : (cs : QString) → length (cells cs) ≡ length cs
length-cells [] = refl
length-cells (c ∷ cs) = ap suc (length-cells cs)

length-cells_and_rows : (cs : QString) → length (cells_and_rows cs) ≡ length cs * 2
length-cells_and_rows [] = refl
length-cells_and_rows (c ∷ cs) = omega (arith, length-cells_and_rows cs)

length-latin1 :
    (str : QString) (limit : ℕ)
    → length (cells (take (latin1_count (some limit) (length str)) str)) ≤ limit
length-latin1 str limit = omega (
  arith,
  length-cells (take (min (length str) limit) str),
  length-take (min (length str) limit) str,
)

length-ucs2 :
    (str : QString) (limit : ℕ)
    → length (cells_and_rows (take (ucs2_count (some limit) (length str)) str)) ≤ limit
length-ucs2 str limit = ground (
  arith,
  length-cells_and_rows (take (ucs2_count (some limit) (length str)) str),
  length-take (ucs2_count (some limit) (length str)) str,
)

length-resize_to : (limit : ℕ) (bs : Bytes) → length (resize_to (some limit) bs) ≤ limit
length-resize_to limit bs = ground (arith, length-take limit bs)

length-all_cells : (str : QString) → length (cells (take (length str) str)) ≡ length str
length-all_cells str =
    omega (arith, length-cells (take (length str) str), length-take (length str) str)

length-all_units :
    (str : QString) → length (cells_and_rows (take (length str) str)) ≡ length str * 2
length-all_units str =
    omega (arith, length-cells_and_rows (take (length str) str), length-take (length str) str)

module _ (text : Text) where
  append_within-le :
      (limit : ℕ) (ba : Bytes) (cs : List ℕ)
      → length ba ≤ limit
      → length (append_within text limit ba cs) ≤ limit
  unfolding append_within
  append_within-le limit ba [] h = h
  append_within-le limit ba (c ∷ cs) h =
      elim (Bool-cases (ltb limit (length ba + length (text.ucs4_to_utf8 c)))) [
        | inl full ↦ rw full h
        | inr room ↦ rw room (
            append_within-le limit (ba ++ text.ucs4_to_utf8 c) cs
              (ground (arith, length-append {0} ba (text.ucs4_to_utf8 c))))
      ]

  -- A text decoded under a limit takes at most that many bytes, in every encoding.
  pub length-decode_string-le :
      (str : QString) (e : Encoding) (limit : ℕ)
      → length (decode_string text str e (some limit)) ≤ limit
  unfolding decode_string
  length-decode_string-le str ascii limit = length-latin1 str limit
  length-decode_string-le str binary limit = length-latin1 str limit
  length-decode_string-le str raw limit = length-latin1 str limit
  length-decode_string-le str base64 limit = length-resize_to limit (from_any_base64 text str)
  length-decode_string-le str hex limit = length-resize_to limit (text.from_hex (text.to_utf8 str))
  length-decode_string-le str ucs2 limit = length-ucs2 str limit
  length-decode_string-le str utf16le limit = length-ucs2 str limit
  length-decode_string-le str utf8 limit =
      append_within-le limit [] (text.code_points str) (omega arith)
  length-decode_string-le str invalid limit =
      append_within-le limit [] (text.code_points str) (omega arith)

  -- Which texts byteLength measures exactly: in the encodings that take whole code units, and in
  -- Base64, the number that byteLength gives is the size of what decodeString gives without a limit.
  byte_length-decode_string :
      (str : QString) (e : Encoding)
      → length (text.to_latin1 str) ≡ length str
      → ((e ≢ hex) × (e ≢ utf8) × (e ≢ invalid))
      → byte_length text str e ≡ length (decode_string text str e none)
  unfolding byte_length decode_string
  byte_length-decode_string str ascii latin1 ne = latin1 ∙ sym (length-all_cells str)
  byte_length-decode_string str binary latin1 ne = latin1 ∙ sym (length-all_cells str)
  byte_length-decode_string str raw latin1 ne = latin1 ∙ sym (length-all_cells str)
  byte_length-decode_string str base64 latin1 ne = refl
  byte_length-decode_string str hex latin1 ne = absurd (ne.0 refl)
  byte_length-decode_string str ucs2 latin1 ne = sym (length-all_units str)
  byte_length-decode_string str utf16le latin1 ne = sym (length-all_units str)
  byte_length-decode_string str utf8 latin1 ne = absurd (ne.1 refl)
  byte_length-decode_string str invalid latin1 ne = absurd (ne.2 refl)

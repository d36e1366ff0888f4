-- ===== src/Tests/TextTests.antt =====
-- Encodings and `write`.
use node_qml.Prelude.{
  ℕ, ◌+◌, ◌<◌, ◌≤◌, ◌≡◌, ◌⊎◌, some, List, [], ◌∷◌, ◌++◌, arith, pos, codes, length,
}
use node_qml.Buffer.Encoding.{utf8, decode_string}
use node_qml.Buffer.Encoding.Utf8.{utf8_bytes, decode_string-utf8}
use node_qml.Buffer.Text.{method_write}
use node_qml.Buffer.Text.Method.{WritesCall, method_write-WritesCall}
use node_qml.Tests.Hosts.{Js, js, string, int, ascii_text, memory, middle}

decode_string-utf8_example :
    (kept rest : List ℕ) × (decode_string ascii_text (codes "node") utf8 (some 3)
      ≡ utf8_bytes ascii_text kept)
    × (length (utf8_bytes ascii_text kept) ≤ 3)
    × (codes "node" ≡ kept ++ rest)
    × ((rest ≡ [])
        ⊎ ((c : ℕ) × (more : List ℕ) × (rest ≡ c ∷ more)
            × (3 < length (utf8_bytes ascii_text kept) + 1)))
decode_string-utf8_example = decode_string-utf8 ascii_text (codes "node") 3

-- write('node', 2, 4, 'ascii')
abbrev at_two : List Js
at_two = string (codes "node") ∷ int (pos 2) ∷ int (pos 4) ∷ string (codes "ascii") ∷ []

method_write-WritesCall_example :
    WritesCall js ascii_text middle at_two memory
      (method_write js ascii_text (some middle) at_two memory)
method_write-WritesCall_example =
    method_write-WritesCall js ascii_text middle at_two memory (omega arith) (omega arith)

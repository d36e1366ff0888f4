-- ===== src/Tests/ShowTests.antt =====
-- What toString shows.
use node_qml.Prelude.{◌≡◌, refl, some, [], ◌∷◌, arith, pos, codes, true}
use node_qml.Memory.{ok}
use node_qml.Buffer.Encoding.{parse_encoding}
use node_qml.Buffer.Show.{spaced, method_to_string}
use node_qml.Buffer.Show.Decoded.{Shown, method_to_string-Shown}
use node_qml.Tests.Hosts.{js, ascii_text, int, string, memory, middle}

method_to_string-Shown_example :
    Shown js ascii_text middle (string (codes "ascii") ∷ int (pos 1) ∷ []) memory (
      method_to_string js ascii_text
        (some middle)
        (string (codes "ascii") ∷ int (pos 1) ∷ [])
        memory)
method_to_string-Shown_example =
    method_to_string-Shown js ascii_text middle (string (codes "ascii") ∷ int (pos 1) ∷ []) memory
      (omega arith)

-- toString('ascii', 1) of the bytes 3, 4, 5, 6.
shown_part :
    method_to_string js ascii_text (some middle) (string (codes "ascii") ∷ int (pos 1) ∷ []) memory
    ≡ ok (4 ∷ 5 ∷ 6 ∷ []) memory
unfolding method_to_string parse_encoding
shown_part = refl

pairs : spaced true (codes "0a1b2c") ≡ codes "0a 1b 2c"
pairs = refl

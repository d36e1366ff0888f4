-- ===== src/Tests/NumberTests.antt =====
-- Numbers in a Buffer.
use node_qml.Prelude.{ℕ, ◌≡◌, refl, false, some, List, [], ◌∷◌, arith, pos, negsuc}
use node_qml.Memory.{Heap, ok}
use node_qml.Buffer.Number.{check_range, method_read_integer, method_write_integer}
use node_qml.Buffer.Number.RoundTrip.{Writes, method_write_integer-Writes, read-write_integer}
use node_qml.Tests.Hosts
use node_qml.Buffer.Methods.{int16}
use node_qml.Tests.Hosts.{js, machine, qt_endian, memory, whole, middle}

-- An offset that no size_t holds.
abbrev wild : List Hosts.Js
wild = Hosts.Js.not_a_number ∷ []

abbrev minus_two_at_one : List Hosts.Js
minus_two_at_one = Hosts.Js.int (negsuc 1) ∷ Hosts.Js.int (pos 1) ∷ []

method_write_integer-Writes_example :
    Writes js machine qt_endian int16 false middle minus_two_at_one memory
      (method_write_integer js machine qt_endian int16 false (some middle) minus_two_at_one memory)
method_write_integer-Writes_example =
    method_write_integer-Writes js machine qt_endian int16 false middle minus_two_at_one memory
      (omega arith)

read-write_integer_example :
    (n : ℕ) × (h' : Heap) × (method_write_integer js machine qt_endian int16 false
        (some middle)
        minus_two_at_one
        memory
      ≡ ok n h')
    × (method_read_integer js machine qt_endian int16 false
          (some middle)
          (Hosts.Js.int (pos 1) ∷ [])
          h'
        ≡ ok (negsuc 1) h')
read-write_integer_example =
    read-write_integer js machine qt_endian int16 false middle minus_two_at_one (negsuc 1)
      (Hosts.Js.int (pos 1) ∷ []) memory (omega arith) refl (omega arith) (omega arith) refl
      (unfold check_range in refl) (omega arith)

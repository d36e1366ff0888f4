-- ===== src/Tests/FillTests.antt =====
-- `fill`.
use node_qml.Prelude.{◌≡◌, refl, inr, some, List, [], ◌∷◌, arith, pos, codes}
use node_qml.Memory.{Heap, ok, fault}
use node_qml.Buffer.Copy.{index_argument}
use node_qml.Buffer.Fill.{method_fill}
use node_qml.Buffer.Fill.Loop.{IsFilled}
use node_qml.Buffer.Fill.Method.{method_fill-IsFilled, method_fill_overruns}
use node_qml.Tests.Hosts
use node_qml.Tests.Hosts.{js, ascii_text, memory, whole, middle}

abbrev range : List Hosts.Js
range = Hosts.Js.int (pos 1) ∷ Hosts.Js.int (pos 8) ∷ []

method_fill-IsFilled_example :
    (h' : Heap) × (method_fill js ascii_text
        (some whole)
        (Hosts.Js.string (codes "ab") ∷ range)
        memory
      ≡ ok whole h')
    × IsFilled whole (codes "ab") 1 7 memory 7 h'
method_fill-IsFilled_example =
    method_fill-IsFilled js ascii_text whole (Hosts.Js.string (codes "ab")) range 1 8 memory
      (unfold index_argument in refl) (unfold index_argument in refl) refl (omega arith)
      (omega arith) (omega arith) (omega arith)

method_fill_overruns_example :
    method_fill js ascii_text (some middle) (Hosts.Js.int (pos 7) ∷ range) memory ≡ fault
method_fill_overruns_example =
    method_fill_overruns js ascii_text middle (Hosts.Js.int (pos 7)) range 1 8 memory
      (unfold index_argument in refl) (unfold index_argument in refl) refl
      (inr (omega arith, omega arith))

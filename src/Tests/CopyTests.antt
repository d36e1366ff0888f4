-- ===== src/Tests/CopyTests.antt =====
-- `copy`, between two Buffers that share bytes.
use node_qml.Prelude.{inl, inr, refl, some, List, [], ◌∷◌, arith, pos, negsuc}
use node_qml.Buffer.Copy.{method_copy}
use node_qml.Buffer.Copy.Bytes.{Copies, method_copy-Copies}
use node_qml.Tests.Hosts
use node_qml.Tests.Hosts.{js, memory, whole, middle}

abbrev arguments : List Hosts.Js
arguments = Hosts.Js.buffer middle ∷ Hosts.Js.int (pos 1) ∷ Hosts.Js.int (pos 3) ∷ []

method_copy-Copies_example :
    Copies whole middle 1 3 8 memory (method_copy js (some whole) arguments memory)
method_copy-Copies_example =
    method_copy-Copies js whole middle arguments memory refl (omega arith) (omega arith) 1 3 8
      (inr (omega arith, refl, refl)) (inr (omega arith, refl, refl)) (inl (omega arith, refl))

abbrev bad_arguments : List Hosts.Js
bad_arguments = Hosts.Js.buffer middle ∷ Hosts.Js.int (negsuc 0) ∷ []

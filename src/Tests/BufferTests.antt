-- ===== src/Tests/BufferTests.antt =====
-- Allocation, access by index, comparison and `slice`.
use node_qml.Prelude.{
  ℕ, ◌+◌, ◌≤◌, ◌⊎◌, zero, suc, ◌≡◌, refl, some, List, [], ◌∷◌, arith, pos, negsuc,
}
use node_qml.Memory.{Heap, ok}
use node_qml.Slice.{Slice}
use node_qml.Slice.Refs.{IsCounted}
use node_qml.Buffer.{Fits}
use node_qml.Buffer.Compare.{compare_slices}
use node_qml.Buffer.Compare.Order.{compare_slices-eq-lex}
use node_qml.Buffer.Part.{method_slice}
use node_qml.Buffer.Part.Shared.{IsStart, IsEnd, IsCut, method_slice-IsCut}
use node_qml.Tests.Hosts
use node_qml.Tests.Hosts.{js, machine, memory, whole, middle}

whole-Fits : Fits memory whole
whole-Fits = omega arith

middle-Fits : Fits memory middle
middle-Fits = omega arith

memory-IsCounted : IsCounted memory (whole ∷ middle ∷ [])
memory-IsCounted = record {
  counted = elim [ zero ↦ refl | suc k ↦ ground arith ];
  held = elim [ zero ↦ omega arith | suc k ↦ tt ];
}

abbrev three : List Hosts.Js
three = Hosts.Js.int (pos 255) ∷ Hosts.Js.int (pos 256) ∷ Hosts.Js.int (negsuc 0) ∷ []

compare_slices-eq-lex_example : compare_slices whole middle memory ≡ ok (negsuc 0) memory
compare_slices-eq-lex_example = compare_slices-eq-lex whole middle memory whole-Fits middle-Fits

abbrev ends : List Hosts.Js
ends = Hosts.Js.int (negsuc 5) ∷ Hosts.Js.int (pos 100) ∷ []

method_slice-IsCut_example :
    (start : ℕ) × (end : ℕ) × (n : ℕ) × (new : Slice) × (h' : Heap) × IsStart js whole ends start
    × IsEnd js whole ends end
    × ((start + n ≡ end) ⊎ ((end ≤ start) × (n ≡ 0)))
    × (method_slice js (some whole) ends memory ≡ ok new h')
    × IsCut whole (middle ∷ []) start n memory new h'
method_slice-IsCut_example =
    method_slice-IsCut js whole ends (middle ∷ []) memory memory-IsCounted whole-Fits

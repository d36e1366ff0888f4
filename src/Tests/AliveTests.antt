-- ===== src/Tests/AliveTests.antt =====
-- A program that makes Buffers, stores to one of them, and drops them all.
use node_qml.Prelude.{none, some, false}
use node_qml.Memory.{Heap}
use node_qml.Slice.{Slice}
use node_qml.Host.{Floats}
use node_qml.Buffer.Alloc.{with_array}
use node_qml.Buffer.Alive.Calls.{Calls}
use node_qml.Tests.Hosts.{machine}
use node_qml.Double.{zero_double}

abbrev empty : Heap
empty = record { next = 0; cells = λ a. none }

abbrev flat : Floats
flat = record { is_outside = λ w d. false; to_bits = λ w d. 0; of_bits = λ w p. zero_double }

abbrev made : Heap
made = with_array machine 2 empty

-- The second byte of the Buffer.
abbrev second : Slice
second = record { array = some 0; begin = 1; size = 1 }

-- ===== src/Buffer/Alive/Makes/Faults.antt =====
-- When BufferCtor::construct of src/nodeqml/types/buffer.cpp faults: for a text alone.
use node_qml.Prelude.{◌+◌, ◌≡◌, List, ◌∷◌, false, length}
use node_qml.Memory.{Bytes, Heap, Outcome, ok, throw, fault, hang}
use node_qml.Slice.{Slice}
use node_qml.Host.{Machine, V4, Text}
use node_qml.Buffer.Construct.Content.{Content, decoded, content}
use node_qml.Buffer.Alive.Steps.{Steps}
use node_qml.Buffer.Alive.Makes.{Makes}

-- A content that shall be shown when nothing is: the bytes of a text for which there is no memory.
abbrev pub HasNoRoom : Machine → Content → Type 0
HasNoRoom machine c =
    (bs : Bytes) × (c ≡ decoded bs) × (machine.can_allocate (length bs + 1) ≡ false)

module _ (v4 : V4) (machine : Machine) (text : Text) where
  -- What `new Buffer` may come to.
  abbrev pub MakesOf : List v4.Value → List Slice → Heap → Outcome Slice → Type 0
  MakesOf args alive h (ok s h') = Steps machine h alive h' (s ∷ alive)
  MakesOf args alive h (throw e h') = h' ≡ h
  MakesOf args alive h fault = HasNoRoom machine (content v4 text machine args)
  MakesOf args alive h hang = ⊥

-- ===== src/Tests/ConcatTests.antt =====
-- Joining Buffers, and Buffers made from text.
use node_qml.Prelude.{refl, ◌≡◌, pos, [], ◌∷◌, arith}
use node_qml.Buffer.Concat.{method_concat}
use node_qml.Buffer.Concat.Copies.{AreBuffers, no_buffers, a_buffer}
use node_qml.Buffer.Concat.Joined.{Joined, AreHeld, method_concat-Joined}
use node_qml.Memory.{fault}
use node_qml.Buffer.Concat.Overruns.{method_concat_overruns}
use node_qml.Tests.Hosts.{js, int, list, buffer, machine, memory, whole, middle}

both-AreBuffers : AreBuffers js (buffer whole ∷ buffer middle ∷ []) (whole ∷ middle ∷ [])
both-AreBuffers =
    a_buffer (buffer whole) whole (buffer middle ∷ []) (middle ∷ []) refl
      (a_buffer (buffer middle) middle [] [] refl no_buffers)

both-AreHeld : AreHeld memory (whole ∷ middle ∷ [])
both-AreHeld =
    (omega arith, λ e. absurd (ground arith), (omega arith, λ e. absurd (ground arith), tt))

method_concat-Joined_example :
    Joined machine memory
      (whole ∷ middle ∷ [])
      (method_concat js machine (list (whole ∷ middle ∷ []) ∷ []) memory)
method_concat-Joined_example =
    method_concat-Joined js machine (list (whole ∷ middle ∷ [])) (buffer whole ∷ buffer middle ∷ [])
      (whole ∷ middle ∷ []) memory refl both-AreBuffers both-AreHeld (omega arith)

-- Buffer.concat([whole], 2)
method_concat_overruns_example :
    method_concat js machine (list (whole ∷ []) ∷ int (pos 2) ∷ []) memory ≡ fault
method_concat_overruns_example =
    method_concat_overruns js machine (list (whole ∷ [])) (buffer whole) (int (pos 2)) [] 1 0 whole
      memory refl refl refl (omega arith) refl refl refl (λ e. absurd (ground arith)) (omega arith)
      (omega arith)

-- ===== src/Buffer/Alive/Methods.antt =====
-- method_slice and method_concat of src/nodeqml/types/buffer.cpp as steps on the slices that are alive.
use mathlib.Core.List.{Permᴰ}
use node_qml.Prelude.{ℕ, ◌+◌, ◌-◌, ◌≤◌, ◌≡◌, refl, some, none, List, ◌∷◌, arith}
use node_qml.Memory.{Heap, ok}
use node_qml.Slice.{Slice}
use node_qml.Slice.Refs.{destroy-IsCounted, from_slice-IsCounted}
use node_qml.Host.{Machine, V4}
use node_qml.Buffer.{new_from_slice}
use node_qml.Buffer.Part.{method_slice}
use node_qml.Buffer.Part.Shared.{cut, part_start, part_end, part_bounds}
use node_qml.Buffer.Alive.{IsSound}
use node_qml.Buffer.Alive.Steps.{
  Step, Steps, done, more, slice_step, share_step, order_step, destroy_step, Step-IsSound,
}

cut-Steps :
    (machine : Machine) (self : Slice) (alive : List Slice) (start n : ℕ) (h : Heap)
    → IsSound h (self ∷ alive)
    → start + n ≤ self.size
    → (new : Slice) × (h' : Heap) × (cut self start n h ≡ ok new h')
      × Steps machine h (self ∷ alive) h' (new ∷ self ∷ alive)
unfolding cut new_from_slice
cut-Steps machine self alive start n h sound inside =
    let (t, h1, made, _, _) = from_slice-IsCounted self alive start (some n) h sound.counts in
    let step1 : Step machine h (self ∷ alive) h1 (t ∷ self ∷ alive) =
      slice_step start n made inside in
    let sound1 = Step-IsSound machine _ _ h h1 step1 sound in
    let (new, h2, shared, _, _) = from_slice-IsCounted t (self ∷ alive) 0 none h1 sound1.counts in
    let step2 : Step machine h1 (t ∷ self ∷ alive) h2 (new ∷ t ∷ self ∷ alive) =
      share_step shared in
    let turn : Step machine h2 (new ∷ t ∷ self ∷ alive) h2 (t ∷ new ∷ self ∷ alive) =
      order_step (Permᴰ.swap refl refl) in
    let sound2 =
      Step-IsSound machine _ _ h2 h2 turn (Step-IsSound machine _ _ h1 h2 step2 sound1) in
    let (h3, gone, _, _, _) = destroy-IsCounted t (new ∷ self ∷ alive) h2 sound2.counts in
    (
      new,
      h3,
      rw (made, shared, gone) refl,
      more step1 (more step2 (more turn (more (destroy_step gone) done))),
    )

module _ (v4 : V4) (machine : Machine) (self : Slice) (args : List v4.Value) where
  pub method_slice-Steps :
      (alive : List Slice) (h : Heap)
      → IsSound h (self ∷ alive)
      → (new : Slice) × (h' : Heap) × (method_slice v4 (some self) args h ≡ ok new h')
        × Steps machine h (self ∷ alive) h' (new ∷ self ∷ alive)
  unfolding method_slice cut
  method_slice-Steps alive h sound =
      cut-Steps machine self alive (part_start v4 self args)
        (part_end v4 self args - part_start v4 self args) h sound
        (omega (arith, part_bounds v4 self args))

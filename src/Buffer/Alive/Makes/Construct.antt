-- ===== src/Buffer/Alive/Makes/Construct.antt =====
-- BufferCtor::construct of src/nodeqml/types/buffer.cpp as steps on the slices that are alive.
use mathlib.Core.List.{Permᴰ}
use node_qml.Prelude.{
  ℕ, zero, suc, ◌+◌, ◌≡◌, refl, Option, some, none, List, [], ◌∷◌, All, Bool-cases, inl, inr, codes,
  text_eq,
}
use node_qml.Memory.{QString, Heap}
use node_qml.Slice.{Slice}
use node_qml.Host.{Machine, V4, Text}
use node_qml.Buffer.{new_buffer}
use node_qml.Buffer.Construct.{
  put_elements, construct_string, construct_like, construct_json, construct_other, construct_shared,
  construct_items, construct,
}
use node_qml.Buffer.Encoding.{is_invalid, parse_encoding}
use node_qml.Buffer.Alive.{IsSound}
use node_qml.Buffer.Alive.Steps.{done, Steps-IsSound, Steps-append}
use node_qml.Buffer.Alive.Makes.{
  Makes, IsKnown, StoresAll, filled-Makes, new_from_array-Makes, new_from_bytes-Makes,
  new_from_slice-Makes, new_buffer-Makes, put_indexed-StoresAll,
}

module _ (v4 : V4) (machine : Machine) (text : Text) where
  put_elements-StoresAll :
      (s : Slice) (v : v4.Value) (i count : ℕ) (alive : List Slice) (h : Heap)
      → IsSound h (s ∷ alive)
      → StoresAll machine s alive h (put_elements v4 machine text s v i count h)
  unfolding put_elements
  put_elements-StoresAll s v i zero alive h sound = (h, refl, done)
  put_elements-StoresAll s v i (suc count) alive h sound =
      let (h1, made, steps) =
        put_indexed-StoresAll v4 machine s i (v4.get_indexed v i) alive h sound in
      let (h', made', steps') =
        put_elements-StoresAll s v (i + 1) count alive h1
          (Steps-IsSound machine _ _ h h1 steps sound) in
      (h', rw made made', Steps-append machine _ _ _ h h1 h' steps steps')

  construct_like-Makes :
      (v : v4.Value) (alive : List Slice) (h : Heap)
      → IsSound h alive
      → Makes machine alive h (construct_like v4 machine text v h)
  construct_like-Makes v alive h sound =
      filled-Makes machine (v4.get_length v)
        (λ s. put_elements v4 machine text s v 0 (v4.get_length v)) alive h
        (λ s h1 sized sound1. put_elements-StoresAll s v 0 (v4.get_length v) alive h1 sound1) sound
        (new_buffer machine (v4.get_length v) h) refl

  construct_string-Makes :
      (q : QString) (args : List v4.Value) (alive : List Slice) (h : Heap)
      → Makes machine alive h (construct_string v4 machine text q args h)
  construct_string-Makes q [] alive h = new_from_bytes-Makes machine _ alive h _ refl
  construct_string-Makes q (name ∷ args) alive h = elim (Bool-cases (v4.is_string name)) [
    | inl is_text ↦ elim (Bool-cases (is_invalid (parse_encoding text (v4.to_qstring name)))) [
      | inl bad ↦ rw (is_text, bad) refl
      | inr good ↦ rw (is_text, good) (new_from_bytes-Makes machine _ alive h _ refl)
    ]
    | inr other ↦ rw other refl
  ]

  construct_json-Makes :
      (v : v4.Value) (type : Option QString) (items : Option (List v4.Value)) (alive : List Slice)
      (h : Heap)
      → IsSound h alive
      → Makes machine alive h (construct_json v4 machine text v type items h)
  construct_json-Makes v none items alive h sound = construct_like-Makes v alive h sound
  construct_json-Makes v (some type) none alive h sound = construct_like-Makes v alive h sound
  construct_json-Makes v (some type) (some items) alive h sound =
      elim (Bool-cases (text_eq type (codes "Buffer"))) [
        | inl same ↦ rw same (new_from_array-Makes v4 machine items alive h sound)
        | inr other ↦ rw other (construct_like-Makes v alive h sound)
      ]

  construct_other-Makes :
      (v : v4.Value) (args : List v4.Value) (alive : List Slice) (h : Heap)
      → IsSound h alive
      → Makes machine alive h (construct_other v4 machine text v args h)
  construct_other-Makes v args alive h sound = elim (Bool-cases (v4.is_string v)) [
    | inl is_text ↦ rw is_text (construct_string-Makes (v4.to_qstring v) args alive h)
    | inr not_text ↦ elim (Bool-cases (v4.is_object v)) [
      | inl is_object ↦ rw (not_text, is_object) (construct_json-Makes v _ _ alive h sound)
      | inr other ↦ rw (not_text, other) refl
    ]
  ]

  construct_shared-Makes :
      (v : v4.Value) (args : List v4.Value) (found : Option Slice) (alive : List Slice) (h : Heap)
      → ((s : Slice) → found ≡ some s → (others : List Slice) × Permᴰ alive (s ∷ others))
      → IsSound h alive
      → Makes machine alive h (construct_shared v4 machine text v args found h)
  construct_shared-Makes v args none alive h live sound = construct_other-Makes v args alive h sound
  construct_shared-Makes v args (some s) alive h live sound =
      let (others, p) = live s refl in new_from_slice-Makes machine s others alive h p sound

  construct_items-Makes :
      (v : v4.Value) (args : List v4.Value) (items : Option (List v4.Value)) (alive : List Slice)
      (h : Heap)
      → IsKnown v4 alive v
      → IsSound h alive
      → Makes machine alive h (construct_items v4 machine text v args items h)
  construct_items-Makes v args none alive h live sound =
      construct_shared-Makes v args (v4.as_buffer v) alive h live sound
  construct_items-Makes v args (some items) alive h live sound =
      new_from_array-Makes v4 machine items alive h sound

  pub construct-Makes :
      (args : List v4.Value) (alive : List Slice) (h : Heap)
      → All (IsKnown v4 alive) args
      → IsSound h alive
      → Makes machine alive h (construct v4 machine text args h)
  unfolding construct
  construct-Makes [] alive h live sound = refl
  construct-Makes (v ∷ args) alive h live sound = elim (Bool-cases (v4.is_number v)) [
    | inl number ↦ rw number (new_buffer-Makes machine _ alive h _ refl)
    | inr other ↦ rw other (construct_items-Makes v args (v4.as_array v) alive h live.0 sound)
  ]

-- ===== src/Buffer/Construct/Contents.antt =====
-- Which bytes `new Buffer` shows, by the kind of its argument: BufferCtor::construct of
-- src/nodeqml/types/buffer.cpp.
use node_qml.Double.{cast_size_t}
use node_qml.Buffer.Alloc.{Allocated, new_buffer-Allocated}
use node_qml.Prelude.{
  ℕ, arith, ◌≡◌, refl, inl, inr, Option, some, none, List, [], ◌∷◌, Bool-cases, codes, text_eq, sym,
  ◌∙◌,
}
use node_qml.Memory.{Bytes, QString, Heap, Outcome, ok, throw, fault, hang}
use node_qml.Slice.{Slice}
use node_qml.Host.{V4, Machine, Text}
use node_qml.Buffer.{bytes_of_values, new_from_array, new_buffer}
use node_qml.Buffer.Store.{Copied, new_from_array-Copied, length-bytes_of_values}
use node_qml.Buffer.Encoding.{utf8, is_invalid, parse_encoding, decode_string}
use node_qml.Buffer.Construct.{
  new_from_bytes, construct_string, construct_like, construct_json, construct_other,
  construct_items, construct, not_negative,
}
use node_qml.Buffer.Construct.Strings.{Decoded, new_from_bytes-Decoded}
use node_qml.Buffer.Construct.Like.{elements, construct_like-new_from_array}
use node_qml.Buffer.Construct.Content.{
  sized, stored, decoded, string_content, like_content, json_content, other_content, items_content,
  HasBuffer, content, Holds,
}

Copied-Holds :
    (v4 : V4) (machine : Machine) (items : List v4.Value) (h : Heap) (r : Outcome Slice)
    → Copied v4 machine items h r
    → Holds machine h (stored (bytes_of_values v4 items)) r
Copied-Holds v4 machine items h (ok s h') (small, size, fits, shown) =
    let same = length-bytes_of_values v4 items in
    (omega (arith, same), (size ∙ sym (length-bytes_of_values v4 items), fits, shown))
Copied-Holds v4 machine items h (throw e h') made = rw (length-bytes_of_values v4 items) made
Copied-Holds v4 machine items h fault made = made
Copied-Holds v4 machine items h hang made = made

Allocated-Holds :
    (machine : Machine) (n : ℕ) (h : Heap) (r : Outcome Slice)
    → Allocated machine n h r
    → Holds machine h (sized n) r
Allocated-Holds machine n h (ok s h') (small, size, fits, others, place) = (small, size, fits)
Allocated-Holds machine n h (throw e h') (same, why) = (same, ground arith)
Allocated-Holds machine n h fault made = made
Allocated-Holds machine n h hang made = made

Decoded-Holds :
    (machine : Machine) (bs : Bytes) (h : Heap) (r : Outcome Slice)
    → Decoded machine bs h r
    → Holds machine h (decoded bs) r
Decoded-Holds machine bs h (ok s h') (room, size, fits, shown, others, once) =
    (room, (size, fits, shown))
Decoded-Holds machine bs h (throw e h') made = made
Decoded-Holds machine bs h fault made = made
Decoded-Holds machine bs h hang made = made

is_none : {A : Type 0} (o : Option A) → ¬ ((x : A) × (o ≡ some x)) → o ≡ none
is_none none empty = refl
is_none (some x) empty = absurd (empty (x, refl))

module _ (v4 : V4) (machine : Machine) (text : Text) (h : Heap) where
  array-Holds :
      (items : List v4.Value)
      → Holds machine h (stored (bytes_of_values v4 items)) (new_from_array v4 machine items h)
  array-Holds items =
      Copied-Holds v4 machine items h (new_from_array v4 machine items h)
        (new_from_array-Copied v4 machine items h)

  bytes-Holds : (bs : Bytes) → Holds machine h (decoded bs) (new_from_bytes machine bs h)
  bytes-Holds bs =
      Decoded-Holds machine bs h (new_from_bytes machine bs h) (new_from_bytes-Decoded machine bs h)

  like-Holds :
      (v : v4.Value) → Holds machine h (like_content v4 text v) (construct_like v4 machine text v h)
  like-Holds v =
      rw (construct_like-new_from_array v4 machine text v h)
        (array-Holds (elements v4 v 0 (v4.get_length v)))

  string-Holds :
      (q : QString) (args : List v4.Value)
      → Holds machine h (string_content v4 text q args) (construct_string v4 machine text q args h)
  string-Holds q [] = bytes-Holds (decode_string text q utf8 none)
  string-Holds q (name ∷ args) = elim (Bool-cases (v4.is_string name)) [
    | inl is_text ↦ elim (Bool-cases (is_invalid (parse_encoding text (v4.to_qstring name)))) [
      | inl bad ↦ rw (is_text, bad) refl
      | inr good ↦
          rw (is_text, good)
            (bytes-Holds (decode_string text q (parse_encoding text (v4.to_qstring name)) none))
    ]
    | inr other ↦ rw other refl
  ]

  json-Holds :
      (v : v4.Value) (type : Option QString) (items : Option (List v4.Value))
      → Holds machine h
          (json_content v4 text v type items)
          (construct_json v4 machine text v type items h)
  json-Holds v none items = like-Holds v
  json-Holds v (some type) none = like-Holds v
  json-Holds v (some type) (some items) = elim (Bool-cases (text_eq type (codes "Buffer"))) [
    | inl same ↦ rw same (array-Holds items)
    | inr other ↦ rw other (like-Holds v)
  ]

  other-Holds :
      (v : v4.Value) (args : List v4.Value)
      → Holds machine h (other_content v4 text v args) (construct_other v4 machine text v args h)
  other-Holds v args = elim (Bool-cases (v4.is_string v)) [
    | inl is_text ↦ rw is_text (string-Holds (v4.to_qstring v) args)
    | inr not_text ↦ elim (Bool-cases (v4.is_object v)) [
      | inl is_object ↦ rw (not_text, is_object) (json-Holds v _ _)
      | inr other ↦ rw (not_text, other) refl
    ]
  ]

  items-Holds :
      (v : v4.Value) (args : List v4.Value) (items : Option (List v4.Value))
      → v4.as_buffer v ≡ none
      → Holds machine h
          (items_content v4 text v args items)
          (construct_items v4 machine text v args items h)
  items-Holds v args (some items) no_buffer = array-Holds items
  items-Holds v args none no_buffer = rw no_buffer (other-Holds v args)

  pub construct-Holds :
      (args : List v4.Value)
      → ¬ HasBuffer v4 text args
      → Holds machine h (content v4 text machine args) (construct v4 machine text args h)
  unfolding construct
  construct-Holds [] no_buffer = refl
  construct-Holds (v ∷ args) no_buffer = elim (Bool-cases (v4.is_number v)) [
    | inl number ↦
        let n = cast_size_t machine.undefined_size_t (not_negative (v4.to_integer v)) in
        rw number
          (Allocated-Holds machine n h (new_buffer machine n h) (new_buffer-Allocated machine n h))
    | inr no_number ↦
        rw no_number (items-Holds v args (v4.as_array v) (is_none (v4.as_buffer v) no_buffer))
  ]

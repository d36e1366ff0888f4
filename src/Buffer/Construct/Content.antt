-- ===== src/Buffer/Construct/Content.antt =====
-- What a new Buffer shall show, by the arguments of BufferCtor::construct of
-- src/nodeqml/types/buffer.cpp, and the outcomes that do so.
use node_qml.Double.{cast_size_t}
use node_qml.Prelude.{
  ◌≤◌, ℕ, ◌+◌, ◌<◌, ◌≡◌, ◌⊎◌, false, true, Option, some, none, List, [], ◌∷◌, length, if◌then◌else◌,
  codes, text_eq,
}
use node_qml.Memory.{
  Bytes, QString, Error, type_error, type_error_with, Heap, Outcome, ok, throw, fault, hang,
}
use node_qml.Slice.{Slice}
use node_qml.Host.{V4, Machine, Text}
use node_qml.Buffer.{view, Fits, max_length, too_large, out_of_memory, bytes_of_values}
use node_qml.Buffer.Encoding.{utf8, is_invalid, parse_encoding, decode_string}
use node_qml.Buffer.Construct.{not_negative}
use node_qml.Buffer.Construct.Like.{elements}

abbrev pub wrong_argument : Error
wrong_argument = type_error "must start with number, buffer, array or string"

-- What the new Buffer shall show: a number of bytes that nothing has set, bytes that are stored one by
-- one, bytes of a text, or nothing but an exception.
pub data Content : Type 0 where
  sized : ℕ → Content
  stored decoded : Bytes → Content
  refused : Error → Content

module _ (v4 : V4) (text : Text) where
  -- The bytes of a text in the encoding that is named, UTF-8 where none is.
  abbrev pub string_content : QString → List v4.Value → Content
  string_content q [] = decoded (decode_string text q utf8 none)
  string_content q (name ∷ args) =
      if v4.is_string name
      then if is_invalid (parse_encoding text (v4.to_qstring name))
        then refused (type_error_with "Unknown Encoding: %1" (v4.to_qstring name))
        else decoded (decode_string text q (parse_encoding text (v4.to_qstring name)) none)
      else refused (type_error "Encoding must me a string")

  abbrev pub like_content : v4.Value → Content
  like_content v = stored (bytes_of_values v4 (elements v4 v 0 (v4.get_length v)))

  -- The data of the JSON form of a Buffer, or the elements of the object itself.
  abbrev pub json_content : v4.Value → Option QString → Option (List v4.Value) → Content
  json_content v none items = like_content v
  json_content v (some type) none = like_content v
  json_content v (some type) (some items) =
      if text_eq type (codes "Buffer") then stored (bytes_of_values v4 items) else like_content v

  abbrev pub other_content : v4.Value → List v4.Value → Content
  other_content v args =
      if v4.is_string v
      then string_content (v4.to_qstring v) args
      else if v4.is_object v
      then json_content v (v4.as_string (v4.get v (codes "type")))
          (v4.as_array (v4.get v (codes "data")))
      else refused wrong_argument

  abbrev pub items_content : v4.Value → List v4.Value → Option (List v4.Value) → Content
  items_content v args none = other_content v args
  items_content v args (some items) = stored (bytes_of_values v4 items)

  -- A first argument that is a Buffer.
  abbrev pub HasBuffer : List v4.Value → Type 0
  HasBuffer [] = ⊥
  HasBuffer (v ∷ args) = (s : Slice) × (v4.as_buffer v ≡ some s)

  module _ (machine : Machine) where
    -- The content for arguments whose first is no Buffer.
    abbrev pub content : List v4.Value → Content
    content [] = refused wrong_argument
    content (v ∷ args) =
        if v4.is_number v
        then sized (cast_size_t machine.undefined_size_t (not_negative (v4.to_integer v)))
        else items_content v args (v4.as_array v)

-- A Buffer that shows just these bytes, all of them in its array.
abbrev pub ShowsAll : Bytes → Slice → Heap → Type 0
ShowsAll bs s h = (s.size ≡ length bs) × Fits h s × (view h s ≡ bs)

-- The RangeError of more bytes than there may be, or than there is memory for.
abbrev pub TooMany : Machine → ℕ → Heap → Error → Heap → Type 0
TooMany machine n h e h' =
    (h' ≡ h)
    × ((max_length < n) × (e ≡ too_large)
        ⊎ (machine.can_allocate (n + 1) ≡ false) × (e ≡ out_of_memory))

-- The outcomes of `new Buffer`, by the content that it shall have.
abbrev pub Holds : Machine → Heap → Content → Outcome Slice → Type 0
Holds machine h (sized n) (ok s h') = (n ≤ max_length) × (s.size ≡ n) × Fits h' s
Holds machine h (sized n) (throw e h') = TooMany machine n h e h'
Holds machine h (sized n) fault = ⊥
Holds machine h (sized n) hang = ⊥
Holds machine h (stored bs) (ok s h') = (length bs ≤ max_length) × ShowsAll bs s h'
Holds machine h (stored bs) (throw e h') = TooMany machine (length bs) h e h'
Holds machine h (stored bs) fault = ⊥
Holds machine h (stored bs) hang = ⊥
Holds machine h (decoded bs) (ok s h') =
    (machine.can_allocate (length bs + 1) ≡ true) × ShowsAll bs s h'
Holds machine h (decoded bs) (throw e h') = ⊥
Holds machine h (decoded bs) fault = machine.can_allocate (length bs + 1) ≡ false
Holds machine h (decoded bs) hang = ⊥
Holds machine h (refused e) r = r ≡ throw e h

-- ===== src/Tests/ConstructTests.antt =====
-- What `new Buffer` shows: a text, the JSON form of a Buffer, and an object that is like an array.
use node_qml.Prelude.{
  ◌≡◌, refl, true, some, List, [], ◌∷◌, arith, map, pos, codes, text_eq, if◌then◌else◌,
}
use node_qml.Memory.{ok}
use node_qml.Host.{V4}
use node_qml.Buffer.{view, new_from_array}
use node_qml.Buffer.Construct.{construct, construct_like}
use node_qml.Buffer.Construct.Like.{construct_like-new_from_array}
use node_qml.Buffer.Construct.Content.{Holds, stored}
use node_qml.Buffer.Construct.Json.{IsJsonForm, construct-method_to_json}
use node_qml.Buffer.Show.{method_to_json}
use node_qml.Tests.Hosts
use node_qml.Tests.Hosts.{js, ascii_text, machine, memory, middle}

abbrev words : List Hosts.Js
words = Hosts.Js.string (codes "abc") ∷ Hosts.Js.string (codes "ascii") ∷ []

-- The same engine, where `undefined` stands for an object with properties, or with elements.
abbrev with_json : V4
with_json = record js {
  is_object = λ v. true;
  get = λ v name.
      if text_eq name (codes "type")
      then Hosts.Js.string (codes "Buffer")
      else Hosts.Js.array (pos 3 ∷ pos 4 ∷ pos 5 ∷ pos 6 ∷ []);
}

abbrev data_items : List Hosts.Js
data_items = map Hosts.Js.int (pos 3 ∷ pos 4 ∷ pos 5 ∷ pos 6 ∷ [])

json-IsJsonForm : IsJsonForm with_json Hosts.Js.undefined data_items
unfolding text_eq
json-IsJsonForm = record {
  no_number = refl;
  no_array = refl;
  no_buffer = refl;
  no_string = refl;
  is_object = refl;
  has_type = refl;
  has_data = refl;
}

construct-method_to_json_example :
    (method_to_json (some middle) memory ≡ ok (map js.to_int32 data_items) memory)
    × Holds machine memory
        (stored (view memory middle))
        (construct with_json machine ascii_text (Hosts.Js.undefined ∷ []) memory)
construct-method_to_json_example =
    construct-method_to_json with_json machine ascii_text middle Hosts.Js.undefined data_items []
      memory (omega arith) (omega arith, (omega arith, (omega arith, (omega arith, tt))))
      json-IsJsonForm refl

abbrev with_elements : V4
with_elements = record js { get_length = λ v. 3; get_indexed = λ v i. Hosts.Js.int (pos i) }

construct_like-new_from_array_example :
    construct_like with_elements machine ascii_text Hosts.Js.undefined memory
    ≡ new_from_array with_elements machine
        (Hosts.Js.int (pos 0) ∷ Hosts.Js.int (pos 1) ∷ Hosts.Js.int (pos 2) ∷ [])
        memory
construct_like-new_from_array_example =
    construct_like-new_from_array with_elements machine ascii_text Hosts.Js.undefined memory

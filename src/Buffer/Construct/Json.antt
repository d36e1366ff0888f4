-- ===== src/Buffer/Construct/Json.antt =====
-- The JSON form of a Buffer, and back: method_toJSON and BufferCtor::construct of
-- src/nodeqml/types/buffer.cpp.
use node_qml.Prelude.{
  ℕ, text_eq, ◌<◌, ◌≡◌, refl, subst, ap, ap₂, ◌∙◌, true, false, some, none, List, [], ◌∷◌, map,
  arith, All, sub, take_all, mod_ℤ, codes,
}
use node_qml.Memory.{Bytes, Heap, ok}
use node_qml.Slice.{Slice}
use node_qml.Host.{V4, Machine, Text}
use node_qml.Buffer.{view, Fits, bytes_of_values}
use node_qml.Buffer.View.{read-view, length-view}
use node_qml.Buffer.Construct.{construct}
use node_qml.Buffer.Construct.Content.{Holds, stored, content}
use node_qml.Buffer.Construct.Contents.{construct-Holds}
use node_qml.Buffer.Show.{char_of, json_data, method_to_json}

byte_of-char_of : (b : ℕ) → b < 256 → mod_ℤ (char_of b) 256 ≡ b
byte_of-char_of b small = ground arith

bytes_of-json_data :
    (v4 : V4) (vs : List v4.Value) (bs : Bytes)
    → All (λ b. b < 256) bs
    → map v4.to_int32 vs ≡ json_data bs
    → bytes_of_values v4 vs ≡ bs
bytes_of-json_data v4 [] [] small e = refl
bytes_of-json_data v4 [] (b ∷ bs) small e = absurd (ground arith)
bytes_of-json_data v4 (v ∷ vs) [] small e = absurd (ground arith)
bytes_of-json_data v4 (v ∷ vs) (b ∷ bs) (p, small) e =
    ap₂ (λ x xs. x ∷ xs) (ap (λ n. mod_ℤ n 256) (cc) ∙ byte_of-char_of b p)
      (bytes_of-json_data v4 vs bs small (cc))

-- An object with the JSON form of a Buffer, as a script gets it from JSON.parse.
pub record IsJsonForm (v4 : V4) (v : v4.Value) (items : List v4.Value) : Type 0 where
  pub no_number : v4.is_number v ≡ false
  pub no_array : v4.as_array v ≡ none
  pub no_buffer : v4.as_buffer v ≡ none
  pub no_string : v4.is_string v ≡ false
  pub is_object : v4.is_object v ≡ true
  pub has_type : v4.as_string (v4.get v (codes "type")) ≡ some (codes "Buffer")
  pub has_data : v4.as_array (v4.get v (codes "data")) ≡ some items

content-IsJsonForm :
    (v4 : V4) (machine : Machine) (text : Text) (v : v4.Value) (items args : List v4.Value)
    → IsJsonForm v4 v items
    → content v4 text machine (v ∷ args) ≡ stored (bytes_of_values v4 items)
unfolding text_eq
content-IsJsonForm v4 machine text v items args form =
    rw (form.no_number, form.no_array, form.no_string, form.is_object, form.has_type, form.has_data)
      refl

-- `new Buffer` of the JSON form of a Buffer, whose bytes lie in its array and are below 256, shows the
-- bytes of that Buffer again, though toJSON writes a byte above 127 as a negative number; or it
-- throws, where the bytes are too many or the memory does not last, and changes nothing.
pub construct-method_to_json :
    (v4 : V4) (machine : Machine) (text : Text) (self : Slice) (v : v4.Value)
    (items args : List v4.Value) (h : Heap)
    → Fits h self
    → All (λ b. b < 256) (view h self)
    → IsJsonForm v4 v items
    → map v4.to_int32 items ≡ json_data (view h self)
    → (method_to_json (some self) h ≡ ok (map v4.to_int32 items) h)
      × Holds machine h (stored (view h self)) (construct v4 machine text (v ∷ args) h)
unfolding method_to_json
construct-method_to_json v4 machine text self v items args h fits small form same =
    let whole : sub 0 self.size (view h self) ≡ view h self =
      take_all self.size (view h self) (omega (arith, length-view h self fits)) in
    (
      rw (read-view self 0 self.size h fits (omega arith), whole, same) refl,
      subst (λ c. Holds machine h c (construct v4 machine text (v ∷ args) h))
          (content-IsJsonForm v4 machine text v items args form
            ∙ ap stored (bytes_of-json_data v4 items (view h self) small same))
          (construct-Holds v4 machine text h (v ∷ args)
            (λ buffer. absurd (ground (arith, form.no_buffer, buffer.1)))),
    )

-- ===== src/Buffer/Show.antt =====
-- BufferPrototype::method_toString, method_toJSON and method_inspect of
-- src/nodeqml/types/buffer.cpp.
pub mod Decoded
use node_qml.Prelude.{
  ℕ, ◌+◌, ◌-◌, ◌*◌, ◌%◌, min, Bool, true, false, not, ◌&&◌, Option, none, some, List, [], ◌∷◌, ◌++◌,
  map, length, ltb, leb, if◌then◌else◌, ℤ, pos, negsuc, ltb_ℤ, leb_ℤ, min_ℤ, pos_part, codes,
}
use node_qml.Memory.{
  Bytes, QString, type_error_with, M, raise, pure, undefined_behaviour, ◌>>=◌, ◌>>◌,
}
use node_qml.Slice.{Slice, read}
use node_qml.Host.{V4, Text, argument}
use node_qml.Buffer.Encoding.{
  Encoding, invalid, ascii, base64, binary, hex, raw, ucs2, utf8, utf16le, is_invalid,
  parse_encoding,
}
use node_qml.Buffer.Text.{unknown_encoding}

-- The code units that bytes are on a little-endian machine; an odd last byte is not read.
abbrev pub units : Bytes → List ℕ
units [] = []
units (b ∷ []) = []
units (b ∷ c ∷ bs) = (b + 256 * c) ∷ units bs

-- data[i] & 0x7f
abbrev pub low_bits : Bytes → QString
low_bits bs = map (λ b. b % 128) bs

-- The text of bytes in an encoding.
unfoldable pub text_of : Text → Encoding → Bytes → QString
text_of text ascii bs = low_bits bs
text_of text binary bs = low_bits bs
text_of text raw bs = low_bits bs
text_of text base64 bs = text.to_base64 bs
text_of text hex bs = text.to_hex bs
text_of text ucs2 bs = text.from_utf16 (units bs)
text_of text utf16le bs = text.from_utf16 (units bs)
text_of text utf8 bs = text.from_utf8 bs
text_of text invalid bs = []

-- A byte as a `char`, which is signed.
abbrev pub char_of : ℕ → ℤ
char_of b = if ltb b 128 then pos b else negsuc (255 - b)

-- The array `data` of the JSON object.
abbrev pub json_data : Bytes → List ℤ
json_data bs = map char_of bs

-- The loop over pairs of hexadecimal digits. QByteArray::toHex gives an even number of them.
abbrev pub spaced : Bool → QString → QString
spaced first [] = []
spaced first (a ∷ []) = a ∷ []
spaced first (a ∷ b ∷ rest) = (if first then [] else codes " ") ++ (a ∷ b ∷ spaced false rest)

module _ (text : Text) where
  -- The part of `toString` behind the reading of its arguments. `this` is read without a test that
  -- it is a Buffer.
  unfoldable pub part_text : Option Slice → Encoding → (ℕ → ℤ) → (ℕ → ℤ) → M QString
  unfolding read text_of
  part_text none encoding start end = undefined_behaviour
  part_text (some self) encoding start end =
      if leb_ℤ (end self.size) (pos (pos_part (start self.size))) then pure [] else (do
        bs ←
            read self (pos_part (start self.size))
              (pos_part (end self.size) - pos_part (start self.size))
        pure (text_of text encoding bs))

module _ (v4 : V4) (text : Text) where
  abbrev pub text_start : List v4.Value → ℕ → ℤ
  text_start args size =
      if ltb 1 (length args) then min_ℤ (v4.to_int32 (argument v4 args 1)) (pos size) else pos 0

  abbrev pub text_end : List v4.Value → ℕ → ℤ
  text_end args size =
      if ltb 2 (length args) && not (v4.is_undefined (argument v4 args 2))
      then min_ℤ (v4.to_int32 (argument v4 args 2)) (pos size)
      else pos size

  abbrev pub text_encoding : List v4.Value → Encoding
  text_encoding args =
      if leb 1 (length args) then parse_encoding text (v4.to_qstring (argument v4 args 0)) else utf8

  -- BufferPrototype::method_toString
  unfoldable pub method_to_string : Option Slice → List v4.Value → M QString
  unfolding part_text
  method_to_string self args =
      if is_invalid (text_encoding args)
      then raise (unknown_encoding (v4.to_qstring (argument v4 args 0)))
      else part_text text self (text_encoding args) (text_start args) (text_end args)

-- BufferPrototype::method_toJSON: the array `data`, beside the type "Buffer".
unfoldable pub method_to_json : Option Slice → M (List ℤ)
unfolding read
method_to_json none = undefined_behaviour
method_to_json (some self) = do bs ← read self 0 self.size; pure (json_data bs)

-- BufferPrototype::method_inspect
unfoldable pub method_inspect : Text → Option Slice → M QString
unfolding read
method_inspect text none = undefined_behaviour
method_inspect text (some self) = do
  bs ← read self 0 (min 50 self.size)
  pure (codes "<Buffer " ++ spaced true (text.to_hex bs) ++ codes ">")

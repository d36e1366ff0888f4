-- ===== src/Buffer/Text.antt =====
-- BufferPrototype::method_write, method_toString and method_inspect of
-- src/nodeqml/types/buffer.cpp.
pub mod Write
pub mod Method
use node_qml.Prelude.{
  ℕ, zero, suc, ◌+◌, ◌-◌, ◌*◌, ◌%◌, min, Bool, true, false, not, ◌&&◌, ◌||◌, Option, none, some,
  List, [], ◌∷◌, ◌++◌, map, length, ltb, leb, ◌==◌, if◌then◌else◌, ℤ, pos, negsuc, ◌+ℤ◌, ltb_ℤ,
  leb_ℤ, min_ℤ, int_of, is_nil, codes, pos_part,
}
use node_qml.Memory.{
  Bytes, QString, Error, type_error, type_error_with, range_error, M, raise, pure,
  undefined_behaviour, ◌>>=◌, ◌>>◌,
}
use node_qml.Slice.{Slice, read, write}
use node_qml.Double.{is_finite}
use node_qml.Host.{V4, Text, argument}
use node_qml.Buffer.Encoding.{
  Encoding, invalid, ascii, base64, binary, hex, raw, ucs2, utf8, utf16le, is_invalid,
  parse_encoding, decode_string,
}

-- What the optional arguments of `write` say.
pub record WriteArguments : Type 0 where
  pub offset : ℤ
  pub count : ℤ
  pub encoding : QString

abbrev pub unknown_encoding : QString → Error
unknown_encoding name = type_error_with "Unknown encoding: %1" name

module _ (v4 : V4) where
  -- isFinite
  unfoldable pub is_finite_value : v4.Value → Bool
  is_finite_value v = v4.integer_compatible v || is_finite (v4.to_number v)

  -- buf.write(string, [offset], [length], [encoding]), or buf.write(string, encoding)
  unfoldable pub write_arguments : ℕ → List v4.Value → WriteArguments
  unfolding is_finite_value
  write_arguments size args =
      let argc = length args in
      let second = argument v4 args 1 in
      let third = argument v4 args 2 in
      if argc == 2 && v4.is_string second
      then record { offset = pos 0; count = pos size; encoding = v4.to_qstring second }
      else if ltb 1 argc && is_finite_value second
      then record {
        offset = v4.to_int32 second;
        count = if ltb 2 argc && is_finite_value third then v4.to_int32 third else pos size;
        encoding =
            if ltb 2 argc
            then if is_finite_value third
              then if ltb 3 argc then v4.to_qstring (argument v4 args 3) else []
              else v4.to_qstring third
            else [];
      }
      else record { offset = pos 0; count = pos size; encoding = [] }

-- An encoding that was named, or UTF-8.
abbrev pub encoding_of : Text → QString → Encoding
encoding_of text name = if is_nil name then utf8 else parse_encoding text name

-- The length cut to the end of the Buffer. The sum is one of two `int`s.
abbrev pub cut_count : ℕ → ℤ → ℤ → ℕ
cut_count size offset count =
    if ltb_ℤ (pos size) (int_of (offset +ℤ count)) then size - pos_part offset else pos_part count

-- The part of `write` behind the reading of its arguments.
unfoldable pub write_text : Text → Slice → QString → WriteArguments → M ℕ
unfolding write
write_text text self string given =
    if ltb_ℤ given.count (pos 0) || ltb_ℤ given.offset (pos 0) || leb_ℤ (pos self.size) given.offset
    then raise (range_error "attempt to write outside buffer bounds")
    else if is_invalid (encoding_of text given.encoding)
    then raise (unknown_encoding given.encoding)
    else if is_nil string
    then pure 0
    else (do
      let count = cut_count self.size given.offset given.count
      let bs = decode_string text string (encoding_of text given.encoding) (some count)
      write self (pos_part given.offset) bs
      pure (length bs))

module _ (v4 : V4) (text : Text) where
  abbrev write_to : Option Slice → QString → List v4.Value → M ℕ
  write_to none string args = undefined_behaviour
  write_to (some self) string args = write_text text self string (write_arguments v4 self.size args)

  -- BufferPrototype::method_write. `this` is read without a test that it is a Buffer.
  unfoldable pub method_write : Option Slice → List v4.Value → M ℕ
  unfolding write_text
  method_write self args =
      if leb 1 (length args) && v4.is_string (argument v4 args 0)
      then write_to self (v4.to_qstring (argument v4 args 0)) args
      else raise (type_error "Argument must be a string")

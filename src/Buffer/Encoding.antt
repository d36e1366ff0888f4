-- ===== src/Buffer/Encoding.antt =====
-- The encodings of src/nodeqml/types/buffer.cpp: Buffer::parseEncoding, isEncoding, byteLength and
-- decodeString.
pub mod Sizes
pub mod Utf8
use node_qml.Prelude.{
  ℕ, zero, suc, ◌+◌, ◌*◌, ◌/◌, ◌%◌, min, Bool, true, false, not, ◌&&◌, ◌||◌, Option, none, some,
  List, [], ◌∷◌, ◌++◌, length, take, ltb, if◌then◌else◌, codes, text_eq, contains,
}
use node_qml.Memory.{Bytes, QString}
use node_qml.Host.{Text, V4, argument}

-- BufferEncoding
pub data Encoding : Type 0 where
  invalid ascii base64 binary hex raw ucs2 utf8 utf16le : Encoding

-- The static table of parseEncoding.
abbrev pub encodings : List (QString × Encoding)
encodings =
    (codes "hex", hex)
    ∷ (codes "utf8", utf8)
    ∷ (codes "utf-8", utf8)
    ∷ (codes "ascii", ascii)
    ∷ (codes "binary", binary)
    ∷ (codes "base64", base64)
    ∷ (codes "raw", raw)
    ∷ (codes "ucs2", ucs2)
    ∷ (codes "ucs-2", ucs2)
    ∷ (codes "utf16le", utf16le)
    ∷ (codes "utf-16le", utf16le)
    ∷ []

-- QHash::value, with `invalid` for a name that the table does not contain.
unfoldable pub find_encoding : QString → List (QString × Encoding) → Encoding
unfolding text_eq
find_encoding name [] = invalid
find_encoding name ((key, e) ∷ table) = if text_eq key name then e else find_encoding name table

abbrev pub is_invalid : Encoding → Bool
is_invalid invalid = true
is_invalid _ = false

-- decodeString and byteLength read Base64 text as plain or as URL Base64, by the characters in it.
abbrev pub from_any_base64 : Text → QString → Bytes
from_any_base64 text str =
    if contains str b'+' || contains str b'/'
    then text.from_base64 (text.to_utf8 str)
    else text.from_base64_url (text.to_utf8 str)

-- QChar::cell and QChar::row
abbrev pub cell : ℕ → ℕ
cell c = c % 256

abbrev pub row : ℕ → ℕ
row c = c / 256 % 256

-- if (limit > -1 && limit < ba.size()) ba.resize(limit)
abbrev pub resize_to : Option ℕ → Bytes → Bytes
resize_to none bs = bs
resize_to (some limit) bs = if ltb limit (length bs) then take limit bs else bs

abbrev pub latin1_count : Option ℕ → ℕ → ℕ
latin1_count none size = size
latin1_count (some limit) size = min size limit

abbrev pub ucs2_count : Option ℕ → ℕ → ℕ
ucs2_count none size = size
ucs2_count (some limit) size = if ltb (limit / 2) size then limit / 2 else size

abbrev pub cells : QString → Bytes
cells [] = []
cells (c ∷ cs) = cell c ∷ cells cs

abbrev pub cells_and_rows : QString → Bytes
cells_and_rows [] = []
cells_and_rows (c ∷ cs) = cell c ∷ row c ∷ cells_and_rows cs

module _ (text : Text) where
  -- Buffer::parseEncoding
  unfoldable pub parse_encoding : QString → Encoding
  unfolding find_encoding
  parse_encoding str = find_encoding (text.to_lower str) encodings

  -- Buffer::isEncoding
  unfoldable pub is_encoding : QString → Bool
  unfolding parse_encoding
  is_encoding str = not (is_invalid (parse_encoding str))

  -- Buffer::byteLength
  unfoldable pub byte_length : QString → Encoding → ℕ
  byte_length str ascii = length (text.to_latin1 str)
  byte_length str binary = length (text.to_latin1 str)
  byte_length str raw = length (text.to_latin1 str)
  byte_length str base64 = length (from_any_base64 text str)
  byte_length str hex = length str / 2
  byte_length str ucs2 = length str * 2
  byte_length str utf16le = length str * 2
  byte_length str utf8 = length (text.to_utf8 str)
  byte_length str invalid = length (text.to_utf8 str)

  -- The loop over the characters: the bytes of each are added whole, until one does not fit.
  unfoldable pub append_within : ℕ → Bytes → List ℕ → Bytes
  append_within limit ba [] = ba
  append_within limit ba (c ∷ cs) =
      if ltb limit (length ba + length (text.ucs4_to_utf8 c))
      then ba
      else append_within limit (ba ++ text.ucs4_to_utf8 c) cs

  -- The same loop with no limit.
  unfoldable pub append_all : Bytes → List ℕ → Bytes
  append_all ba [] = ba
  append_all ba (c ∷ cs) = append_all (ba ++ text.ucs4_to_utf8 c) cs

  abbrev decode_utf8 : QString → Option ℕ → Bytes
  decode_utf8 str none = append_all [] (text.code_points str)
  decode_utf8 str (some limit) = append_within limit [] (text.code_points str)

  -- Buffer::decodeString: a limit of `none` is the default argument -1.
  unfoldable pub decode_string : QString → Encoding → Option ℕ → Bytes
  unfolding append_within append_all
  decode_string str ascii limit = cells (take (latin1_count limit (length str)) str)
  decode_string str binary limit = cells (take (latin1_count limit (length str)) str)
  decode_string str raw limit = cells (take (latin1_count limit (length str)) str)
  decode_string str base64 limit = resize_to limit (from_any_base64 text str)
  decode_string str hex limit = resize_to limit (text.from_hex (text.to_utf8 str))
  decode_string str ucs2 limit = cells_and_rows (take (ucs2_count limit (length str)) str)
  decode_string str utf16le limit = cells_and_rows (take (ucs2_count limit (length str)) str)
  decode_string str utf8 limit = decode_utf8 str limit
  decode_string str invalid limit = decode_utf8 str limit

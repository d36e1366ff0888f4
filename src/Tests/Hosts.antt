-- ===== src/Tests/Hosts.antt =====
-- A small JavaScript engine, a machine and text conversions that meet what the model asks of them.
use mathlib.Core.List.{reverse}
use node_qml.Prelude.{
  arith, ℕ, zero, suc, ◌+◌, ◌%◌, refl, true, false, none, some, List, [], ◌∷◌, map, ℤ, pos, negsuc,
  IsInt, int_of, IsInt-int_of, ltb, leb, ◌&&◌, if◌then◌else◌, mod_ℤ,
}
use node_qml.Memory.{QString, Heap}
use node_qml.Slice.{Slice}
use node_qml.Double.{Double, nan, finite, of_int}
use node_qml.Host.{V4, Text, Machine, ByteOrder, little_value, little_bytes}

-- `array` holds integers, `list` Buffers, and `fraction n` is the number n + 1/2.
pub data Js : Type 0 where
  undefined not_a_number : Js
  int : ℤ → Js
  fraction : ℤ → Js
  string : QString → Js
  buffer : Slice → Js
  array : List ℤ → Js
  list : List Slice → Js
  function : ℕ → Js

abbrev to_int : Js → ℤ
to_int (int n) = int_of n
to_int (fraction (pos n)) = int_of (pos n)
to_int (fraction (negsuc n)) = int_of (negsuc n)
to_int _ = pos 0

abbrev to_double : Js → Double
to_double (int n) = of_int n
to_double (fraction n) = finite n true
to_double _ = nan

pub to_int-IsInt : (v : Js) → IsInt (to_int v)
to_int-IsInt undefined = omega arith
to_int-IsInt not_a_number = omega arith
to_int-IsInt (int n) = IsInt-int_of n
to_int-IsInt (fraction (pos n)) = IsInt-int_of (pos n)
to_int-IsInt (fraction (negsuc n)) = IsInt-int_of (negsuc n)
to_int-IsInt (string s) = omega arith
to_int-IsInt (buffer s) = omega arith
to_int-IsInt (array ns) = omega arith
to_int-IsInt (list ss) = omega arith
to_int-IsInt (function n) = omega arith

abbrev pub js : V4
js = record {
  Value = Js;
  undefined = Js.undefined;
  is_number = λ v. elim v [ int n ↦ true | fraction n ↦ true | not_a_number ↦ true | _ ↦ false ];
  is_string = λ v. elim v [ string s ↦ true | _ ↦ false ];
  is_undefined = λ v. elim v [ undefined ↦ true | _ ↦ false ];
  is_object = λ v. elim v [ buffer s ↦ true | array ns ↦ true | list ss ↦ true | _ ↦ false ];
  integer_compatible = λ v. elim v [ int n ↦ true | _ ↦ false ];
  to_number = to_double;
  to_integer = to_double;
  to_int32 = to_int;
  to_uint32 = λ v. mod_ℤ (to_int v) 4294967296;
  to_qstring = λ v. elim v [ string s ↦ s | _ ↦ [] ];
  as_function = λ v. elim v [ function n ↦ some (function n) | _ ↦ none ];
  as_array =
      λ v. elim v [ array ns ↦ some (map int ns) | list ss ↦ some (map buffer ss) | _ ↦ none ];
  as_buffer = λ v. elim v [ buffer s ↦ some s | _ ↦ none ];
  as_string = λ v. elim v [ string s ↦ some s | _ ↦ none ];
  is_null_or_undefined = λ v. elim v [ undefined ↦ true | _ ↦ false ];
  is_reg_exp_object = λ v. false;
  is_date_object = λ v. false;
  is_error_object = λ v. false;
  get = λ v name. Js.undefined;
  get_length = λ v. 0;
  get_indexed = λ v i. Js.undefined;
  to_int32-IsInt = to_int-IsInt;
}

-- Conversions of ASCII text; Base64 and hexadecimal digits are not converted.
abbrev pub ascii_text : Text
ascii_text = record {
  to_lower = λ s. map (λ c. if leb 65 c && leb c 90 then c + 32 else c) s;
  to_utf8 = λ s. s;
  to_latin1 = λ s. s;
  from_base64 = λ bs. bs;
  from_base64_url = λ bs. bs;
  from_hex = λ bs. bs;
  code_points = λ s. s;
  ucs4_to_utf8 = λ c. c ∷ [];
  from_utf8 = λ bs. bs;
  from_utf16 = λ us. us;
  to_base64 = λ bs. bs;
  to_hex = λ bs. bs;
}

abbrev pub machine : Machine
machine = record {
  can_allocate = λ n. ltb n 1000;
  noise = λ n. n % 7;
  undefined_size_t = λ d. 12345;
  undefined_int = λ d. pos 0;
}

abbrev pub qt_endian : ByteOrder
qt_endian = record {
  from_little = little_value;
  from_big = λ bs. little_value (reverse bs);
  to_little = little_bytes;
  to_big = λ w n. reverse (little_bytes w n);
  from_little_lem = λ bs. refl;
  from_big_lem = λ bs. refl;
  to_little_lem = λ w n. refl;
  to_big_lem = λ w n. refl;
}

-- One array of eight bytes and the zero behind them, with two references.
abbrev pub memory : Heap
memory = record {
  next = 1;
  cells = λ a. elim a [
    | zero ↦ some (record { ref = 2; size = 8; bytes = 1 ∷ 2 ∷ 3 ∷ 4 ∷ 5 ∷ 6 ∷ 7 ∷ 8 ∷ 0 ∷ [] })
    | suc k ↦ none
  ];
}

-- All of the array, and its middle.
abbrev pub whole : Slice
whole = record { array = some 0; begin = 0; size = 8 }

abbrev pub middle : Slice
middle = record { array = some 0; begin = 2; size = 4 }

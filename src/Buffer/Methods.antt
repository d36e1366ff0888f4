-- ===== src/Buffer/Methods.antt =====
-- BufferPrototype::init of src/nodeqml/types/buffer.cpp: the names of the methods.
use node_qml.Prelude.{ℕ, Bool, true, false, List, [], ◌∷◌, codes}
use node_qml.Memory.{QString}
use node_qml.Buffer.Number.{IntType}

-- The integer types that the templates are used with.
abbrev pub int8 : IntType
int8 = record { width = 1; is_signed = true }

abbrev pub uint8 : IntType
uint8 = record { width = 1; is_signed = false }

abbrev pub int16 : IntType
int16 = record { width = 2; is_signed = true }

abbrev pub uint16 : IntType
uint16 = record { width = 2; is_signed = false }

abbrev pub int32 : IntType
int32 = record { width = 4; is_signed = true }

abbrev pub uint32 : IntType
uint32 = record { width = 4; is_signed = false }

-- A method of the prototype: method_inspect and so on. The templates have their type, or its width,
-- and their byte order, which is true for LE.
pub data Method : Type 0 where
  inspect_method compare_method equals_method copy_method fill_method slice_method : Method
  write_method to_string_method to_json_method : Method
  read_integer write_integer : IntType → Bool → Method
  read_floating_point write_floating_point : ℕ → Bool → Method

-- The static methods: BufferCtor::method_isEncoding and so on.
pub data CtorMethod : Type 0 where
  is_encoding_method is_buffer_method byte_length_method concat_method : CtorMethod
  compare_buffers_method : CtorMethod

abbrev pub ctor_methods : List (QString × CtorMethod)
ctor_methods =
    (codes "isEncoding", is_encoding_method)
    ∷ (codes "isBuffer", is_buffer_method)
    ∷ (codes "byteLength", byte_length_method)
    ∷ (codes "concat", concat_method)
    ∷ (codes "compare", compare_buffers_method)
    ∷ []

unfoldable pub prototype_methods : List (QString × Method)
prototype_methods =
    (codes "inspect", inspect_method)
    ∷ (codes "compare", compare_method)
    ∷ (codes "equals", equals_method)
    ∷ (codes "copy", copy_method)
    ∷ (codes "fill", fill_method)
    ∷ (codes "slice", slice_method)
    ∷ (codes "write", write_method)
    ∷ (codes "toString", to_string_method)
    ∷ (codes "toJSON", to_json_method)
    ∷ (codes "readInt8", read_integer int8 true)
    ∷ (codes "readUInt8", read_integer uint8 true)
    ∷ (codes "readInt16LE", read_integer int16 true)
    ∷ (codes "readUInt16LE", read_integer uint16 true)
    ∷ (codes "readInt16BE", read_integer int16 false)
    ∷ (codes "readUInt16BE", read_integer uint16 false)
    ∷ (codes "readInt32LE", read_integer int32 true)
    ∷ (codes "readUInt32LE", read_integer uint32 true)
    ∷ (codes "readInt32BE", read_integer int32 false)
    ∷ (codes "readUInt32BE", read_integer uint32 false)
    ∷ (codes "readFloatLE", read_floating_point 4 true)
    ∷ (codes "readFloatBE", read_floating_point 4 false)
    ∷ (codes "readDoubleLE", read_floating_point 8 true)
    ∷ (codes "readDoubleBE", read_floating_point 8 false)
    ∷ (codes "writeInt8", write_integer int8 true)
    ∷ (codes "writeUInt8", write_integer uint8 true)
    ∷ (codes "writeInt16LE", write_integer int16 true)
    ∷ (codes "writeUInt16LE", write_integer uint16 true)
    ∷ (codes "writeInt16BE", write_integer int16 false)
    ∷ (codes "writeUInt16BE", write_integer uint16 false)
    ∷ (codes "writeInt32LE", write_integer int32 true)
    ∷ (codes "writeUInt32LE", write_integer uint32 true)
    ∷ (codes "writeInt32BE", write_integer int32 false)
    ∷ (codes "writeUInt32BE", write_integer uint32 false)
    ∷ (codes "writeFloatLE", write_floating_point 4 true)
    ∷ (codes "writeFloatBE", write_floating_point 4 false)
    ∷ (codes "writeDoubleLE", write_floating_point 8 true)
    ∷ (codes "writeDoubleBE", write_floating_point 8 false)
    ∷ []

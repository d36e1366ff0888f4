-- ===== src/Buffer/Alive/Stores/Methods.antt =====
-- The methods of src/nodeqml/types/buffer.cpp that store bytes.
use node_qml.Prelude.{
  ℕ, zero, suc, ◌-◌, ◌≡◌, Bool, Option, some, none, List, [], ◌∷◌, ltb, ℤ, pos, negsuc, ◌*◌,
}
use node_qml.Memory.{Bytes, QString}
use node_qml.Slice.{Slice}
use node_qml.Host.{Machine, V4, Text, ByteOrder, Floats, argument}
use node_qml.Buffer.{put_indexed}
use node_qml.Buffer.Copy.{index_of, index_argument, copy_bytes, copy_to, method_copy}
use node_qml.Buffer.Fill.{memset, fill_loop, fill_tail, fill_bytes, fill_value, method_fill}
use node_qml.Buffer.Text.{WriteArguments, write_text, method_write}
use node_qml.Buffer.Number.{IntType, method_write_integer, method_write_floating_point}
use node_qml.Buffer.Concat.{copy_element, copy_elements}
use node_qml.Buffer.Alive.Stores.{Stores, stores_rules, access_rules, if-Stores, hang-Stores}

module _ (machine : Machine) (s : Slice) (alive : List Slice) where
  memset-Stores : (offset b : ℕ) (n : ℤ) → Stores machine s alive (memset s offset b n)
  unfolding memset
  memset-Stores offset b (pos n) = search access_rules
  memset-Stores offset b (negsuc n) = search access_rules

  fill_loop-Stores :
      (offset n fuel in_there : ℕ) → Stores machine s alive (fill_loop s offset n fuel in_there)
  unfolding fill_loop
  fill_loop-Stores offset n zero in_there = hang-Stores machine s alive
  fill_loop-Stores offset n (suc fuel) in_there =
      let rest = fill_loop-Stores offset n fuel (in_there * 2) in
      if-Stores machine s alive (ltb in_there (n - in_there)) _ _ (search access_rules)
        (search access_rules)

  fill_tail-Stores :
      (offset n in_there : ℕ) → Stores machine s alive (fill_tail s offset n in_there)
  unfolding fill_tail
  fill_tail-Stores offset n in_there = search access_rules

ruleset fill_rules = (access_rules, memset-Stores, fill_loop-Stores, fill_tail-Stores)

module _ (machine : Machine) (s : Slice) (alive : List Slice) where
  fill_bytes-Stores :
      (offset : ℕ) (value : Bytes) (n : ℤ) → Stores machine s alive (fill_bytes s offset value n)
  unfolding fill_bytes
  fill_bytes-Stores offset (b ∷ []) n = search fill_rules
  fill_bytes-Stores offset [] (negsuc n) = search fill_rules
  fill_bytes-Stores offset (b ∷ c ∷ bs) (negsuc n) = search fill_rules
  fill_bytes-Stores offset [] (pos n) = search fill_rules
  fill_bytes-Stores offset (b ∷ c ∷ bs) (pos n) = search fill_rules

  copy_bytes-Stores :
      (self : Slice) (target_start source_start source_end : ℕ)
      → Stores machine s alive (copy_bytes self s target_start source_start source_end)
  unfolding copy_bytes
  copy_bytes-Stores self target_start source_start source_end = search access_rules

  write_text-Stores :
      (text : Text) (string : QString) (given : WriteArguments)
      → Stores machine s alive (write_text text s string given)
  unfolding write_text
  write_text-Stores text string given = search access_rules

  module _ (v4 : V4) where
    index_of-Stores : (n : ℤ) → Stores machine s alive (index_of v4 n)
    index_of-Stores (pos n) = search stores_rules
    index_of-Stores (negsuc n) = search stores_rules

    index_argument-Stores :
        (args : List v4.Value) (i default : ℕ)
        → Stores machine s alive (index_argument v4 args i default)
    unfolding index_argument
    index_argument-Stores args i default = search (stores_rules, index_of-Stores)

    fill_value-Stores :
        (text : Text) (value : v4.Value) (offset end : ℕ)
        → Stores machine s alive (fill_value v4 text s value offset end)
    unfolding fill_value
    fill_value-Stores text value offset end = search (fill_rules, fill_bytes-Stores)

    pub method_fill-Stores :
        (text : Text) (args : List v4.Value)
        → Stores machine s alive (method_fill v4 text (some s) args)
    unfolding method_fill
    method_fill-Stores text [] = search stores_rules
    method_fill-Stores text (value ∷ args) =
        search (stores_rules, index_argument-Stores, fill_value-Stores)

    copy_to-Stores :
        (self : Option Slice) (args : List v4.Value)
        → Stores machine s alive (copy_to v4 self (some s) args)
    copy_to-Stores none args = search stores_rules
    copy_to-Stores (some self) args =
        search (stores_rules, index_argument-Stores, copy_bytes-Stores)

    -- The target of `copy` is its first argument.
    pub method_copy-Stores :
        (self : Option Slice) (args : List v4.Value)
        → v4.as_buffer (argument v4 args 0) ≡ some s
        → Stores machine s alive (method_copy v4 self args)
    unfolding method_copy
    method_copy-Stores self args e = rw e (copy_to-Stores self args)

    pub method_write-Stores :
        (text : Text) (args : List v4.Value)
        → Stores machine s alive (method_write v4 text (some s) args)
    unfolding method_write
    method_write-Stores text args = search (stores_rules, write_text-Stores)

    pub method_write_integer-Stores :
        (order : ByteOrder) (t : IntType) (little : Bool) (args : List v4.Value)
        → Stores machine s alive (method_write_integer v4 machine order t little (some s) args)
    unfolding method_write_integer
    method_write_integer-Stores order t little args = search access_rules

    pub method_write_floating_point-Stores :
        (order : ByteOrder) (floats : Floats) (width : ℕ) (little : Bool) (args : List v4.Value)
        → Stores machine s alive
            (method_write_floating_point v4 machine order floats width little (some s) args)
    unfolding method_write_floating_point
    method_write_floating_point-Stores order floats width little args = search access_rules

    pub put_indexed-Stores : (i : ℕ) (v : v4.Value) → Stores machine s alive (put_indexed v4 s i v)
    unfolding put_indexed
    put_indexed-Stores i v = search access_rules

    copy_element-Stores : (at : ℕ) (b : Option Slice) → Stores machine s alive (copy_element s at b)
    unfolding copy_element
    copy_element-Stores at none = search stores_rules
    copy_element-Stores at (some b) = search access_rules

    pub copy_elements-Stores :
        (at : ℕ) (items : List v4.Value) → Stores machine s alive (copy_elements v4 s at items)
    unfolding copy_elements
    copy_elements-Stores at [] = search stores_rules
    copy_elements-Stores at (v ∷ vs) =
        let rest : (after : ℕ) → Stores machine s alive (copy_elements v4 s after vs) =
          λ after. copy_elements-Stores after vs in
        search (stores_rules, copy_element-Stores)

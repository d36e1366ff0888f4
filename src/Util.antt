-- ===== src/Util.antt =====
-- src/nodeqml/modules/util.cpp: the module `util`.
pub mod Format
pub mod Filled
pub mod Formatted
pub mod Names
pub mod Inherits
pub mod Inherited
use node_qml.Prelude.{
  is_some, ℕ, ◌+◌, Bool, true, false, ◌||◌, Option, none, some, List, [], ◌∷◌, ◌++◌, map, length,
  drop, sub, leb, ltb, ◌==◌, if◌then◌else◌, ℤ, pos, negsuc, sub_ℕ, text_eq, codes, ◌≡◌, is_nil, not,
}
use node_qml.Memory.{QString}
use node_qml.Host.{V4, argument}

module _ (v4 : V4) where
  -- UtilModule::inspect
  unfoldable pub inspect : v4.Value → QString
  inspect v = if v4.is_null_or_undefined v then codes "undefined" else v4.to_qstring v

  -- UtilModule::method_inspect. A call without an argument reads a slot that holds undefined.
  unfoldable pub method_inspect : List v4.Value → QString
  unfolding inspect
  method_inspect args = inspect (argument v4 args 0)

  -- The tests of the first argument: method_isArray, method_isRegExp, method_isDate,
  -- method_isError, method_isUndefined.
  abbrev pub test_first : (v4.Value → Bool) → List v4.Value → Bool
  test_first test [] = false
  test_first test (v ∷ args) = test v

  unfoldable pub method_is_array : List v4.Value → Bool
  method_is_array = test_first (λ v. is_some (v4.as_array v))

  unfoldable pub method_is_reg_exp : List v4.Value → Bool
  method_is_reg_exp = test_first v4.is_reg_exp_object

  unfoldable pub method_is_date : List v4.Value → Bool
  method_is_date = test_first v4.is_date_object

  unfoldable pub method_is_error : List v4.Value → Bool
  method_is_error = test_first v4.is_error_object

  unfoldable pub method_is_undefined : List v4.Value → Bool
  method_is_undefined = test_first v4.is_undefined

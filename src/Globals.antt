-- ===== src/Globals.antt =====
-- src/nodeqml/globalextensions.cpp: the functions of the global object.
pub mod Calls
pub mod Names
use node_qml.Prelude.{ℕ, List, [], ◌∷◌, if◌then◌else◌, ℤ}
use node_qml.Memory.{error, type_error}
use node_qml.Host.{V4, argument}
use node_qml.Engine.{
  State, Loop, Answer, returned, throw_error, set_timeout, set_interval, clear_timeout,
  clear_interval,
}
use node_qml.Module.{Files, Scripts, Ran, finished}
use node_qml.Module.Require.{require_main}

module _ (v4 : V4) (files : Files v4.Value) (scripts : Scripts v4.Value)
    (loop : Loop v4.Value) where
  -- GlobalExtensions::method_require
  unfoldable pub method_require :
      ℕ → List v4.Value → State v4.Value → Ran (Answer v4.Value v4.Value)
  unfolding require_main
  method_require fuel [] s = finished (throw_error (error "require() requires an argument") s)
  method_require fuel (v ∷ args) s =
      if v4.is_string v
      then require_main files scripts loop fuel (v4.to_qstring v) s
      else finished (throw_error (type_error "require(): argument (id) must be a string") s)

module _ (v4 : V4) where
  -- GlobalExtensions::method_setTimeout, method_setInterval, method_clearTimeout and
  -- method_clearInterval; `started` is what startTimer gives.
  unfoldable pub method_set_timeout : List v4.Value → ℤ → State v4.Value → Answer v4.Value ℤ
  method_set_timeout args started s = set_timeout v4 args started s

  unfoldable pub method_set_interval : List v4.Value → ℤ → State v4.Value → Answer v4.Value ℤ
  method_set_interval args started s = set_interval v4 args started s

  unfoldable pub method_clear_timeout : List v4.Value → State v4.Value → Answer v4.Value (Unit {0})
  method_clear_timeout args s = clear_timeout v4 args s

  unfoldable pub method_clear_interval : List v4.Value → State v4.Value → Answer v4.Value (Unit {0})
  method_clear_interval args s = clear_interval v4 args s

  -- GlobalExtensions::method_captureStackTrace, which only warns
  unfoldable pub method_capture_stack_trace : State v4.Value → Answer v4.Value (Unit {0})
  method_capture_stack_trace s = returned tt s

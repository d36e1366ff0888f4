-- ===== src/Embedding.antt =====
-- The class Engine of src/nodeqml/engine.cpp and engine.h, through which a program embeds the
-- runtime, and the plugin src/imports/nodeqml/nodeqml_plugin.cpp, which makes one for QML.
pub mod Reports
pub mod Fresh
use node_qml.Prelude.{ℕ, Bool, true, false, []}
use node_qml.Memory.{QString}
use node_qml.Host.{V4}
use node_qml.Engine.{State, Module, Loop, Answer, returned, thrown}
use node_qml.Engine.Registry.{Natives, register_modules, Engines, add_engine}
use node_qml.Module.{Files, Scripts, Ran, finished, and_then}
use node_qml.Module.Require.{require_main}

module _ {F : Type 0} where
  -- An EnginePrivate before its constructor runs: `objects` is what no address has yet, and
  -- `raised` whether the QJSEngine has an exception.
  abbrev pub blank : (ℕ → Module F) → Bool → State F
  blank objects raised = record {
    timeouts = [];
    intervals = [];
    core_modules = [];
    cached_modules = [];
    objects = objects;
    next = 0;
    has_exception = raised;
    trace = [];
  }

  -- EnginePrivate::EnginePrivate, for the ExecutionEngine at `v4` and itself at `this`: it enters
  -- itself among the engines that there are and registers the native modules.
  unfoldable pub make_private :
      ℕ → ℕ → Natives F → (ℕ → Module F) → Bool → Engines → Engines × State F
  unfolding add_engine register_modules
  make_private v4 this natives objects raised engines =
      (add_engine v4 this engines, register_modules natives (blank objects raised))

  -- Engine::Engine
  unfoldable pub make_engine :
      ℕ → ℕ → Natives F → (ℕ → Module F) → Bool → Engines → Engines × State F
  unfolding make_private
  make_engine = make_private

  -- NodeQMLPlugin::initializeEngine: the Engine belongs to the QQmlEngine that it is made for.
  unfoldable pub initialize_engine :
      ℕ → ℕ → Natives F → (ℕ → Module F) → Bool → Engines → Engines × State F
  unfolding make_engine
  initialize_engine = make_engine

  -- Engine::hasException
  abbrev pub engine_has_exception : State F → Bool
  engine_has_exception s = s.has_exception

module _ (v4 : V4) where
  -- What a call gives that threw: throwError returns undefined.
  abbrev pub answer_value : Answer v4.Value v4.Value → v4.Value × State v4.Value
  answer_value (returned x s) = (x, s)
  answer_value (thrown e s) = (v4.undefined, s)

  -- Engine::require
  unfoldable pub engine_require :
      Files v4.Value
      → Scripts v4.Value
      → Loop v4.Value
      → ℕ
      → QString
      → State v4.Value
      → Ran (v4.Value × State v4.Value)
  unfolding require_main
  engine_require files scripts loop fuel id s =
      and_then (require_main files scripts loop fuel id s) (λ a. finished (answer_value a))

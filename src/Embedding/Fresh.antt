-- ===== src/Embedding/Fresh.antt =====
-- A new Engine of src/nodeqml/engine.cpp.
use node_qml.Prelude.{ℕ, ◌≡◌, refl, Bool, some, ◌==◌, ==_iff, if◌then◌else◌, find-insert-any}
use node_qml.Memory.{QString}
use node_qml.Engine.{Module}
use node_qml.Engine.Fires.{IsFresh, IsFresh-IsLive}
use node_qml.Engine.Live.{IsLive}
use node_qml.Engine.Registry.{
  Natives, Engines, get_engine, native_module, native_of, register_modules, find-register_modules,
}
use node_qml.Embedding.{blank, make_engine}

module _ {F : Type 0} (v4 this : ℕ) (natives : Natives F) (objects : ℕ → Module F) (raised : Bool)
    (engines : Engines) where
  pub make_engine-IsFresh : IsFresh (make_engine v4 this natives objects raised engines).1
  unfolding make_engine register_modules
  make_engine-IsFresh = record { no_timeouts = refl; no_intervals = refl; no_calls = refl }

  pub make_engine-IsLive : IsLive (make_engine v4 this natives objects raised engines).1
  make_engine-IsLive =
      IsFresh-IsLive (make_engine v4 this natives objects raised engines).1 make_engine-IsFresh

  -- The engine is found by its ExecutionEngine, all others are found as before, and it knows just
  -- the four native modules.
  get_engine-make_engine :
      (other : ℕ) (id : QString)
      → (get_engine other (make_engine v4 this natives objects raised engines).0
          ≡ (if v4 == other then some this else get_engine other engines))
        × (native_module id (make_engine v4 this natives objects raised engines).1
            ≡ native_of natives id)
  unfolding make_engine get_engine native_module
  get_engine-make_engine other id = (
    find-insert-any ◌==◌ ==_iff engines v4 other this,
    find-register_modules natives (blank objects raised) id refl,
  )

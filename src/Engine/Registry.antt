-- ===== src/Engine/Registry.antt =====
-- How an EnginePrivate of src/nodeqml/engine.cpp is found, made and destroyed, and the native modules
-- that it registers.
use node_qml.Prelude.{
  ℕ, ◌≡◌, refl, ◌∙◌, Bool, Option, none, some, List, [], ◌==◌, ==_iff, if◌then◌else◌, codes,
  text_eq, find, has_key, insert, remove, find-remove, arith,
}
use node_qml.Memory.{QString}
use node_qml.Engine.{State}

-- The objects of the native modules: FileSystemModule, OsModule, PathModule and UtilModule.
pub record Natives (F : Type 0) : Type 0 where
  pub file_system : F
  pub os : F
  pub path : F
  pub util : F

module _ {F : Type 0} where
  abbrev pub put_core : QString → F → State F → State F
  put_core id o s = record s { core_modules = insert text_eq s.core_modules id o }

  -- EnginePrivate::registerModules
  unfoldable pub register_modules : Natives F → State F → State F
  register_modules natives s = put_core (codes "util") natives.util (
      put_core (codes "path") natives.path
        (put_core (codes "os") natives.os (put_core (codes "fs") natives.file_system s)))

  -- EnginePrivate::hasNativeModule and hasCachedModule
  unfoldable pub has_native_module : QString → State F → Bool
  has_native_module id s = has_key text_eq s.core_modules id

  unfoldable pub has_cached_module : QString → State F → Bool
  has_cached_module id s = has_key text_eq s.cached_modules id

  -- EnginePrivate::nativeModule and cachedModule, which are called for modules that there are.
  unfoldable pub native_module : QString → State F → Option F
  native_module id s = find text_eq s.core_modules id

  unfoldable pub cached_module : QString → State F → Option ℕ
  cached_module id s = find text_eq s.cached_modules id

  -- The native module that a name stands for.
  abbrev pub native_of : Natives F → QString → Option F
  native_of natives id =
      if text_eq (codes "util") id
      then some natives.util
      else if text_eq (codes "path") id
      then some natives.path
      else if text_eq (codes "os") id
      then some natives.os
      else if text_eq (codes "fs") id
      then some natives.file_system
      else none

  pub find-register_modules :
      (natives : Natives F) (s : State F) (id : QString)
      → s.core_modules ≡ []
      → find text_eq (register_modules natives s).core_modules id ≡ native_of natives id
  unfolding register_modules text_eq
  find-register_modules natives s id e = rw e refl

-- m_nodeEngines: the EnginePrivate of an ExecutionEngine, both by their addresses.
abbrev pub Engines : Type 0
Engines = List (ℕ × ℕ)

-- EnginePrivate::get: `none` is a null pointer.
unfoldable pub get_engine : ℕ → Engines → Option ℕ
get_engine v4 engines = find ◌==◌ engines v4

-- What EnginePrivate::EnginePrivate and ~EnginePrivate do to it.
unfoldable pub add_engine : ℕ → ℕ → Engines → Engines
add_engine v4 this engines = insert ◌==◌ engines v4 this

unfoldable pub remove_engine : ℕ → Engines → Engines
remove_engine v4 engines = remove ◌==◌ engines v4

-- Where two EnginePrivates are made for one ExecutionEngine, the end of the first takes the entry of
-- the second away.
get_engine_lost :
    (v4 first second : ℕ) (engines : Engines)
    → get_engine v4 (remove_engine v4 (add_engine v4 second (add_engine v4 first engines))) ≡ none
unfolding get_engine add_engine remove_engine
get_engine_lost v4 first second engines =
    find-remove ◌==◌ ==_iff (add_engine v4 second (add_engine v4 first engines)) v4 v4
    ∙ ground arith

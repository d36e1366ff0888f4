-- ===== src/Module/Require.antt =====
-- ModuleObject::require of src/nodeqml/moduleobject.cpp, and the module cache.
use node_qml.Prelude.{
  Bool, ℕ, zero, suc, Option, none, some, List, [], ◌∷◌, if◌then◌else◌, text_eq, find,
}
use node_qml.Memory.{QString, error, error_with}
use node_qml.Host.{V4, argument}
use node_qml.Engine.{State, Loop, Answer, returned, thrown, throw_error}
use node_qml.Engine.Events.{exception_check, done_check}
use node_qml.Module.{
  Files, Ran, finished, unending, and_then, Scripts, put_module, cache_module, parent_path,
  resolve_module,
}
use node_qml.Module.Load.{new_module, load}

module _ {F : Type 0} (files : Files F) (scripts : Scripts F) where
  -- What `require` does behind a load: the exception check, the cache, and the exports.
  abbrev pub keep_module : QString → ℕ → State F → Answer F F
  keep_module filename a s =
      let t = cache_module (exception_check s) filename a in returned (t.objects a).exports t

  -- `require` of a file that is not in the cache.
  abbrev pub load_new :
      (QString → Option ℕ → State F → Ran (Answer F F))
      → QString
      → Option ℕ
      → State F
      → Ran (Answer F F)
  load_new again filename parent s =
      let made = new_module files scripts filename parent s in
      and_then (load files scripts (λ path. again path (some made.0)) made.0 filename made.1)
        (λ t. finished (keep_module filename made.0 t))

  -- `require` of a file, by what the cache has for it.
  abbrev pub require_file :
      (QString → Option ℕ → State F → Ran (Answer F F))
      → QString
      → Option ℕ
      → State F
      → Option ℕ
      → Ran (Answer F F)
  require_file again filename parent s (some a) = finished (returned (s.objects a).exports s)
  require_file again filename parent s none = load_new again filename parent s

  -- `require` of a resolved name, which is empty where no file was found.
  abbrev pub require_found :
      (QString → Option ℕ → State F → Ran (Answer F F))
      → QString
      → QString
      → Option ℕ
      → State F
      → Ran (Answer F F)
  require_found again path [] parent s =
      finished (throw_error (error_with "Cannot find module '%1'" path) s)
  require_found again path (c ∷ rest) parent s =
      require_file again (c ∷ rest) parent s (find text_eq s.cached_modules (c ∷ rest))

  -- `require`, by what the core modules have for the name.
  abbrev pub require_name :
      (QString → Option ℕ → State F → Ran (Answer F F))
      → QString
      → Option ℕ
      → State F
      → Option F
      → Ran (Answer F F)
  require_name again path parent s (some native_module) = finished (returned native_module s)
  require_name again path parent s none =
      require_found again path (resolve_module files path (parent_path s parent)) parent s

  -- ModuleObject::require. The fuel bounds how deep modules require each other.
  unfoldable pub require : ℕ → QString → Option ℕ → State F → Ran (Answer F F)
  unfolding resolve_module new_module load
  require zero path parent s = unending
  require (suc fuel) path parent s =
      require_name (require fuel) path parent s (find text_eq s.core_modules path)

module _ (v4 : V4) (files : Files v4.Value) (scripts : Scripts v4.Value) where
  -- ModuleObject::method_require
  unfoldable pub method_require :
      ℕ → ℕ → List v4.Value → State v4.Value → Ran (Answer v4.Value v4.Value)
  unfolding require
  method_require fuel self [] s = finished (throw_error (error "require: path must be a string") s)
  method_require fuel self (v ∷ args) s =
      if v4.is_string v
      then require files scripts fuel (v4.to_qstring v) (some self) s
      else finished (throw_error (error "require: path must be a string") s)

  -- ModuleObject::property_exports_setter: `none` is the null pointer that it reads through for a
  -- value that is not an object.
  unfoldable pub set_exports : ℕ → v4.Value → State v4.Value → Option (State v4.Value)
  set_exports self v s =
      if v4.is_object v
      then some (put_module s self (record (s.objects self) { exports = v }))
      else none

  -- ModuleObject::property_exports_getter, property_filename_getter and property_loaded_getter
  abbrev pub get_exports : ℕ → State v4.Value → v4.Value
  get_exports self s = (s.objects self).exports

  abbrev pub get_filename : ℕ → State v4.Value → QString
  get_filename self s = (s.objects self).filename

  abbrev pub get_loaded : ℕ → State v4.Value → Bool
  get_loaded self s = (s.objects self).loaded

  -- What a script finds as the property `require` of a module: the method that the constructor of
  -- the module defined, another builtin function that a script has put there, or any other value.
  pub data RequireProperty : Type 0 where
    own_method : RequireProperty
    other_builtin :
        (List v4.Value → State v4.Value → Ran (Answer v4.Value v4.Value)) → RequireProperty
    no_builtin : RequireProperty

  -- RequireFunction::call, by what the property `require` of the module is: `none` is the null
  -- pointer that is called where it is no builtin function.
  unfoldable pub call_require :
      ℕ
      → ℕ
      → RequireProperty
      → List v4.Value
      → State v4.Value
      → Option (Ran (Answer v4.Value v4.Value))
  unfolding method_require
  call_require fuel self own_method args s =
      some (method_require fuel self (argument v4 args 0 ∷ []) s)
  call_require fuel self (other_builtin f) args s = some (f (argument v4 args 0 ∷ []) s)
  call_require fuel self no_builtin args s = none

module _ {F : Type 0} (files : Files F) (scripts : Scripts F) (loop : Loop F) where
  abbrev pub check_done : Answer F F → Answer F F
  check_done (returned x s) = returned x (done_check loop s)
  check_done (thrown e s) = thrown e (done_check loop s)

  -- EnginePrivate::require
  unfoldable pub require_main : ℕ → QString → State F → Ran (Answer F F)
  unfolding require done_check
  require_main fuel path s =
      and_then (require files scripts fuel path none s) (λ a. finished (check_done a))

-- ===== src/Module.antt =====
-- src/nodeqml/moduleobject.cpp: what a module is made of and how its file is found, with the module cache
-- of src/nodeqml/engine.cpp.
pub mod Load
pub mod Require
pub mod Resolve
pub mod Cached
pub mod Cycle
pub mod Unreadable
pub mod Live
pub mod Ends
pub mod Scripted
pub mod Ranked
pub mod Native
use node_qml.Prelude.{
  ℕ, zero, suc, ◌+◌, ◌≡◌, Bool, true, false, ◌&&◌, ◌||◌, not, Option, none, some, List, [], ◌∷◌,
  ◌++◌, ◌==◌, if◌then◌else◌, text_eq, codes, is_nil, find, has_key, insert, String,
}
use node_qml.Memory.{Bytes, QString, Error, error, error_with, syntax_error}
use node_qml.Host.{V4, argument}
use node_qml.Engine.{State, Module, Answer, returned, thrown, throw_error, Loop, state_of}
use node_qml.Engine.Events.{exception_check, done_check}

-- QFile, QFileInfo, QDir and QJsonDocument. `read` opens a file and reads all of it; `from_json` is
-- `none` for a null document, and otherwise the object or array that it has.
pub record Files (F : Type 0) : Type 0 where
  pub exists : QString → Bool
  pub is_file : QString → Bool
  pub is_dir : QString → Bool
  pub is_relative : QString → Bool
  pub absolute_file_path : QString → QString
  pub absolute_path : QString → QString
  pub file_name : QString → QString
  pub suffix : QString → QString
  pub file_path : QString → QString → QString
  pub read : QString → Option Bytes
  pub from_json : Bytes → Option F

-- A call that ended, that aborted the program, or that used up its fuel.
pub data Ran (X : Type 0) : Type 0 where
  finished : X → Ran X
  aborted unending : Ran X

module _ {X Y : Type 0} where
  abbrev pub and_then : Ran X → (X → Ran Y) → Ran Y
  and_then (finished x) f = f x
  and_then aborted f = aborted
  and_then unending f = unending

-- The names that `compile` defines for a script. `require` is the function that the script gets.
pub record Globals (F : Type 0) : Type 0 where
  pub this_module : ℕ
  pub exports : F
  pub dirname : QString
  pub filename : QString

-- QV4::Script and the objects of the engine: whether a source has a syntax error, what running it
-- does with the `require` that it is given, whether the exception that it leaves is an object, and
-- the object that a new module exports.
pub record Scripts (F : Type 0) : Type 0 where
  pub has_syntax_error : Bytes → Bool
  pub run : (QString → State F → Ran (Answer F F)) → Globals F → Bytes → State F → Ran (State F)
  pub exception_is_object : State F → Bool
  pub new_object : ℕ → F

module _ {F : Type 0} where
  -- The module at an address.
  abbrev pub put_module : State F → ℕ → Module F → State F
  put_module s a m = record s { objects = λ k. if k == a then m else s.objects k }

  abbrev pub add_child : State F → Option ℕ → ℕ → State F
  add_child s none a = s
  add_child s (some p) a =
      put_module s p (record (s.objects p) { children = (s.objects p).children ++ (a ∷ []) })

  -- EnginePrivate::cacheModule
  abbrev pub cache_module : State F → QString → ℕ → State F
  cache_module s id a = record s { cached_modules = insert text_eq s.cached_modules id a }

  -- `parent ? parent->dirname : QString()`
  abbrev pub parent_path : State F → Option ℕ → QString
  parent_path s none = []
  parent_path s (some p) = (s.objects p).dirname

module _ {F : Type 0} (files : Files F) where
  -- The file of a bundled module.
  abbrev pub bundled : QString → QString
  bundled request = codes ":/js/" ++ request ++ codes ".js"

  -- The search for a file behind an absolute or relative name that exists.
  abbrev pub resolve_existing : QString → QString
  resolve_existing fi =
      if files.is_file fi
      then files.absolute_file_path fi
      else (let index = files.absolute_file_path fi ++ codes "/index.js" in
          if files.exists index && files.is_file index then files.absolute_file_path index else [])

  -- The search for a file behind a name: with `.js` where nothing has the name itself.
  abbrev pub resolve_path : QString → QString
  resolve_path fi =
      let with_suffix = files.absolute_file_path fi ++ codes ".js" in
      if files.exists fi
      then resolve_existing fi
      else if not (files.exists with_suffix) || files.is_dir with_suffix
      then []
      else resolve_existing with_suffix

  -- ModuleObject::resolveModule
  unfoldable pub resolve_module : QString → QString → QString
  resolve_module request parent =
      if files.exists (bundled request)
      then files.absolute_file_path (bundled request)
      else resolve_path
          (if files.is_relative request then files.file_path parent request else request)

-- ===== src/Module/Load.antt =====
-- How a module of src/nodeqml/moduleobject.cpp is made, loaded and run.
use node_qml.Prelude.{
  ◌&&◌, not, ℕ, ◌+◌, true, false, Option, none, some, [], if◌then◌else◌, text_eq, codes,
}
use node_qml.Memory.{Bytes, QString, Error, error_with, syntax_error}
use node_qml.Engine.{State, Module, Answer}
use node_qml.Engine.Events.{exception_check}
use node_qml.Module.{
  Files, Ran, finished, aborted, and_then, Globals, Scripts, put_module, add_child,
}

module _ {F : Type 0} (files : Files F) (scripts : Scripts F) where
  -- Heap::ModuleObject::ModuleObject: the address of the new module.
  unfoldable pub new_module : QString → Option ℕ → State F → ℕ × State F
  new_module id parent s =
      let a = s.next in
      let made : Module F = record {
        id = id;
        parent = parent;
        children = [];
        exports = scripts.new_object a;
        filename = [];
        dirname = [];
        loaded = false;
      } in
      (a, put_module (add_child (record s { next = a + 1 }) parent a) a made)

  abbrev pub cannot_open : QString → Error
  cannot_open = error_with "require: Cannot open file '%1'"

  abbrev pub raised : Error → State F → State F
  raised e s = record s { has_exception = true }

  abbrev pub globals_of : ℕ → State F → Globals F
  globals_of a s = record {
    this_module = a;
    exports = (s.objects a).exports;
    dirname = files.absolute_file_path (s.objects a).filename;
    filename = files.file_name (s.objects a).filename;
  }

  -- Parsing raises an exception for a syntax error.
  abbrev pub parse : Bytes → State F → State F
  parse source s = if scripts.has_syntax_error source then record s { has_exception = true } else s

  -- The exception check behind a run. An exception that is no object is read through a null pointer.
  abbrev pub check_run : State F → Ran (State F)
  check_run t =
      if t.has_exception && not (scripts.exception_is_object t)
      then aborted
      else finished (exception_check t)

  -- `compile` from the file on, by what reading it gives.
  abbrev pub compile_file :
      (QString → State F → Ran (Answer F F)) → ℕ → State F → Option Bytes → Ran (State F)
  compile_file require a s none = finished (raised (cannot_open (s.objects a).filename) s)
  compile_file require a s (some source) =
      and_then (scripts.run require (globals_of a s) source (exception_check (parse source s)))
        check_run

  -- ModuleObject::compile
  unfoldable pub compile : (QString → State F → Ran (Answer F F)) → ℕ → State F → Ran (State F)
  unfolding exception_check
  compile require a s = compile_file require a s (files.read (s.objects a).filename)

  abbrev pub mark_loaded : ℕ → State F → State F
  mark_loaded a s = put_module s a (record (s.objects a) { loaded = true })

  -- The part of `load` for a JSON file.
  abbrev pub load_json : ℕ → State F → State F
  load_json a s = elim (files.read (s.objects a).filename) [
    | none ↦ raised (cannot_open (s.objects a).filename) s
    | some source ↦ elim (files.from_json source) [
      | none ↦ raised (syntax_error "Unexpected end of input") s
      | some o ↦ mark_loaded a (put_module s a (record (s.objects a) { exports = o }))
    ]
  ]

  abbrev pub set_path : ℕ → QString → State F → State F
  set_path a path s =
      put_module s a (record (s.objects a) { filename = path; dirname = files.absolute_path path })

  -- ModuleObject::load
  unfoldable pub load :
      (QString → State F → Ran (Answer F F)) → ℕ → QString → State F → Ran (State F)
  unfolding compile
  load require a path s =
      let named =
        put_module s a
          (record (s.objects a) { filename = path; dirname = files.absolute_path path }) in
      if text_eq (files.suffix path) (codes "js")
      then and_then (compile require a named) (λ t. finished (mark_loaded a t))
      else if text_eq (files.suffix path) (codes "json")
      then finished (load_json a named)
      else aborted

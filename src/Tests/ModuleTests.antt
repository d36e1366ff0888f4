-- ===== src/Tests/ModuleTests.antt =====
-- Modules that are found, required twice, required by another, and required in a cycle.
use node_qml.Prelude.{
  ◌++◌, codes, if◌then◌else◌, ◌∷◌, ℕ, List, ◌<◌, ◌||◌, if◌then◌else◌, Bool-cases, inl, inr, ap, sym,
  ◌∙◌, text_eq_iff, ◌≡◌, refl, true, false, none, some, [], codes, text_eq, arith,
}
use node_qml.Memory.{QString}
use node_qml.Engine.{State, returned, state_of}
use node_qml.Engine.Events.{exception_check}
use node_qml.Module.{
  Files, Scripts, finished, aborted, unending, and_then, resolve_module, put_module, cache_module,
}
use node_qml.Module.Load.{new_module, load, compile, set_path, mark_loaded}
use node_qml.Module.Require.{require}
use node_qml.Module.Resolve.{first_file, candidates, resolve_module-first_file}
use node_qml.Module.Cached.{require-require}
use node_qml.Module.Ranked.{EndAlike, HasRanks, and_then-EndAlike, finished_ends, require-EndAlike}
use node_qml.Module.Cycle.{RequiresItself, require_cycle}
use node_qml.Tests.Hosts.{Js, function}
use node_qml.Tests.EngineTests.{new_engine, no_module}

abbrev pub main : QString
main = codes "/main.js"

-- A directory with the one file /main.js.
abbrev pub disk : Files Js
disk = record {
  exists = λ p. text_eq p main;
  is_file = λ p. text_eq p main;
  is_dir = λ p. false;
  is_relative = λ p. false;
  absolute_file_path = λ p. p;
  absolute_path = λ p. codes "/";
  file_name = λ p. codes "main.js";
  suffix = λ p. codes "js";
  file_path = λ d p. p;
  read = λ p. some [];
  from_json = λ bs. none;
}

-- A script that does nothing, and one that requires /main.js.
abbrev pub quiet : Scripts Js
quiet = record {
  has_syntax_error = λ bs. false;
  run = λ again g source s. finished s;
  exception_is_object = λ s. true;
  new_object = λ a. function a;
}

abbrev cyclic : Scripts Js
cyclic = record {
  has_syntax_error = λ bs. false;
  run = λ again g source s. and_then (again main s) (λ a. finished (state_of a));
  exception_is_object = λ s. true;
  new_object = λ a. function a;
}

resolve_module-first_file_example : resolve_module disk main [] ≡ (
    if disk.exists (codes ":/js/" ++ main ++ codes ".js")
    then disk.absolute_file_path (codes ":/js/" ++ main ++ codes ".js")
    else first_file disk
        (candidates disk (if disk.is_relative main then disk.file_path [] main else main)))
resolve_module-first_file_example = resolve_module-first_file disk main []

-- The state behind require('/main.js') in a new engine.
abbrev pub after : State Js
after =
    cache_module
      (mark_loaded disk quiet 0 (
        set_path disk quiet 0 main (
          put_module (record new_engine { next = 1 }) 0
            (record no_module { id = main; exports = function 0 }))))
      main 0

pub first_require :
    require disk quiet 1 main none new_engine ≡ finished (returned (function 0) after)
unfolding require resolve_module new_module load compile exception_check text_eq
first_require = refl

require-require_example :
    require disk quiet 1 main none after ≡ finished (returned (function 0) after)
require-require_example =
    require-require disk quiet 1 0 main none new_engine after (function 0) first_require refl refl

main-RequiresItself : RequiresItself disk cyclic main main
unfolding resolve_module text_eq
main-RequiresItself = record {
  source = [];
  is_file = λ e. absurd (ground arith);
  is_js = refl;
  has_source = refl;
  is_resolved = λ parent. refl;
  runs = λ again g u. refl;
}

require_cycle_example : require disk cyclic 100 main none new_engine ≡ unending
require_cycle_example =
    require_cycle disk cyclic main main main-RequiresItself 100 none new_engine refl refl

abbrev other : QString
other = codes "/other.js"

-- A directory where /main.js requires /other.js, which does nothing.
abbrev two_files : Files Js
two_files = record disk {
  exists = λ p. text_eq p main || text_eq p other;
  is_file = λ p. text_eq p main || text_eq p other;
  read = λ p. if text_eq p main then some (1 ∷ []) else some [];
}

abbrev nested : Scripts Js
nested = record {
  has_syntax_error = λ bs. false;
  run = λ again g source s. elim source [
    | [] ↦ finished s
    | c ∷ cs ↦ and_then (again other s) (λ a. finished (state_of a))
  ];
  exception_is_object = λ s. true;
  new_object = λ a. function a;
}

abbrev rank : QString → ℕ
rank p = if text_eq p other then 0 else 1

other_is_empty :
    (parent : QString) → two_files.read (resolve_module two_files other parent) ≡ some []
unfolding resolve_module text_eq
other_is_empty parent = refl

lower_rank :
    (path parent : QString) (c : ℕ) (cs : List ℕ)
    → two_files.read (resolve_module two_files path parent) ≡ some (c ∷ cs)
    → rank other < rank path
unfolding text_eq
lower_rank path parent c cs e = elim (Bool-cases (text_eq path other)) [
  | inl same ↦ absurd (
      ground (
        arith,
        sym (
              ap (λ p. two_files.read (resolve_module two_files p parent))
                ((text_eq_iff path other).0 same)
              ∙ other_is_empty parent)
            ∙ e,
      ))
  | inr differs ↦ rw differs (omega arith)
]

nested-HasRanks : HasRanks two_files nested rank
nested-HasRanks = record {
  descends = λ path parent source read again again' g s below.
      elim source
          as (λ bs.
            (two_files.read (resolve_module two_files path parent) ≡ some bs)
            → EndAlike (nested.run again g bs s) (nested.run again' g bs s)) [
              | [] ↦ λ e. (refl, finished_ends s)
              | c ∷ cs ↦ λ e.
                  and_then-EndAlike (again other s) (again' other s) (λ a. finished (state_of a))
                    (below other s (lower_rank path parent c cs e))
                    (λ a. finished_ends (state_of a))
            ]
        read;
}

require-EndAlike_example :
    EndAlike
      (require two_files nested 2 main none new_engine)
      (require two_files nested 7 main none new_engine)
unfolding text_eq
require-EndAlike_example =
    require-EndAlike two_files nested rank nested-HasRanks 2 7 main none new_engine (omega arith)
      (omega arith)

-- A script that throws a number: the exception check reads it through a null pointer.
abbrev throwing : Scripts Js
throwing = record quiet {
  run = λ again g source s. finished (record s { has_exception = true });
  exception_is_object = λ s. false;
}

throwing_aborts : require disk throwing 1 main none new_engine ≡ aborted
unfolding require resolve_module new_module load compile exception_check text_eq
throwing_aborts = refl

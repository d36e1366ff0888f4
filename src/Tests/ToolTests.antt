-- ===== src/Tests/ToolTests.antt =====
-- The class Engine and the command line tool: a script that is not found, one that sets a timer, and
-- a callback of nextTick.
use node_qml.Prelude.{
  ◌≡◌, refl, true, false, none, List, [], ◌∷◌, pos, codes, text_eq, if◌then◌else◌,
}
use node_qml.Memory.{QString}
use node_qml.Engine.{State, Loop, state_of, emit, function_called, set_timeout, clear_timeout}
use node_qml.Engine.Events.{next_tick_event, custom_event, exception_check}
use node_qml.Engine.Steps.{is_running}
use node_qml.Module.{Scripts, finished, resolve_module}
use node_qml.Module.Load.{new_module, set_path}
use node_qml.Embedding.{make_engine, engine_require}
use node_qml.Tests.GlobalTests.{natives}
use node_qml.Embedding.Reports.{Reports, engine_require-Reports}
use node_qml.Tool.{AppEvent, first_quit, timer_fired, custom, exits, waits, exec, unless_quit, main}
use node_qml.Tool.Codes.{main-missing, main-Starts}
use node_qml.Tool.Quits.{is_idle}
use node_qml.Tool.Started.{Starts, kept, exports_of}
use node_qml.Tests.Hosts.{Js, js, function, int}
use node_qml.Tests.EngineTests.{new_engine, idle, no_module}
use node_qml.Tests.ModuleTests.{disk, quiet}

abbrev found : QString
found = codes "/main.js"

abbrev other : QString
other = codes "/other.js"

engine_require-Reports_example :
    Reports js disk quiet other new_engine (engine_require js disk quiet idle 2 other new_engine)
engine_require-Reports_example =
    engine_require-Reports js disk quiet idle (λ s. refl) 2 other new_engine refl

main-missing_example : main js disk quiet idle 2 new_engine (other ∷ []) [] ≡ exits 0
unfolding resolve_module text_eq first_quit
main-missing_example =
    main-missing js disk quiet idle (λ s. refl) 1 new_engine other [] [] (refl, refl) (refl, refl)
      refl

abbrev timer_arguments : List Js
timer_arguments = function 7 ∷ int (pos 20) ∷ []

-- A script that calls setTimeout(f, 20), which gets the id 5.
abbrev timed : Scripts Js
timed = record {
  has_syntax_error = λ bs. false;
  run = λ again g source s. finished (
      if is_running s.trace (pos 5)
      then s
      else state_of (set_timeout js timer_arguments (pos 5) s));
  exception_is_object = λ s. true;
  new_object = λ a. function a;
}

-- The engine that the tool makes.
abbrev node : State Js
node = (make_engine 0 1 natives (λ a. no_module) false []).1

-- A timer that does not run, and a callback of nextTick.
abbrev delivered : List (AppEvent Js)
delivered = timer_fired (pos 4) ∷ custom (next_tick_event (function 8)) ∷ []

-- The state in which that script ends.
abbrev behind : State Js
behind = state_of (
    set_timeout js timer_arguments (pos 5)
      (set_path disk timed 0 found (new_module disk timed found none new_engine).1))

found-Starts : Starts js disk timed 1 new_engine found 47 (codes "main.js") [] behind
unfolding resolve_module text_eq new_module exception_check set_timeout
found-Starts = record {
  no_native = refl;
  resolved = refl;
  no_cache = refl;
  is_js = refl;
  has_source = refl;
  runs = refl;
  throws_object = refl;
}

main-Starts_example :
    main js disk timed idle 2 new_engine (found ∷ []) []
    ≡ unless_quit (first_quit behind.trace) (
        if behind.has_exception
        then exits 1
        else if is_idle behind
        then exits 0
        else if js.is_undefined (exports_of js disk timed 0 found behind)
        then exits 1
        else exec js idle [] (kept js disk timed 0 found behind))
unfolding new_module
main-Starts_example =
    main-Starts js disk timed idle (λ s. refl) 1 new_engine found [] [] 47 (codes "main.js") []
      behind found-Starts

-- Every callback clears the timeout 5.
abbrev clearing : Loop Js
clearing = record {
  process_events = λ s. s;
  call = λ f s. state_of (clear_timeout js (int (pos 5) ∷ []) s);
}

abbrev stuck : State Js
stuck = clearing.call (function 8) (emit (function_called (function 8)) behind)

-- Behind a callback of nextTick nobody looks whether anything is left: the tool waits for nothing.
waits_for_nothing :
    (exec js clearing (custom (next_tick_event (function 8)) ∷ []) behind ≡ waits stuck)
    × (is_idle stuck ≡ true)
unfolding exec first_quit custom_event set_timeout clear_timeout new_module
waits_for_nothing = (refl, refl)

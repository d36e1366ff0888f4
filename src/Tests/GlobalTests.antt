-- ===== src/Tests/GlobalTests.antt =====
-- The global functions of an engine.
use node_qml.Prelude.{ap, subst, ◌≡◌, refl, [], ◌∷◌, pos}
use node_qml.Engine.{State, state_of}
use node_qml.Engine.Registry.{Natives}
use node_qml.Engine.Fires.{QuitsWhenIdle}
use node_qml.Module.{finished}
use node_qml.Module.Scripted.{Sequence, at_end, OnlyCalls}
use node_qml.Module.{Ran, aborted, unending}
use node_qml.Globals.{method_set_timeout}
use node_qml.Globals.Calls.{
  Call, set_timeout_call, call_global, Calls, no_call, one_more, Calls-QuitsWhenIdle,
}
use node_qml.Tests.Hosts.{Js, js, function, int}
use node_qml.Tests.EngineTests.{new_engine, new_engine-IsFresh, idle, idle-KeepsSteps}
use node_qml.Tests.ModuleTests.{disk, quiet}

-- The state that a run ended in.
abbrev pub end_of : State Js → Ran (State Js) → State Js
end_of other (finished t) = t
end_of other aborted = other
end_of other unending = other

quiet-OnlyCalls : OnlyCalls js quiet
quiet-OnlyCalls = record {
  calls =
      λ require globals source s t e. subst (Sequence js require s) (ap (end_of s) e) (at_end s);
}

abbrev timeout_call : Call js
timeout_call = set_timeout_call (function 7 ∷ int (pos 20) ∷ []) (pos 5)

abbrev waiting : State Js
waiting = state_of (method_set_timeout js (function 7 ∷ int (pos 20) ∷ []) (pos 5) new_engine)

set_up : call_global js disk quiet idle 3 timeout_call new_engine ≡ finished waiting
unfolding call_global
set_up = refl

to_waiting : Calls js disk quiet idle new_engine waiting
to_waiting = one_more 3 timeout_call new_engine waiting waiting refl set_up (no_call waiting)

Calls-QuitsWhenIdle_example : QuitsWhenIdle waiting
Calls-QuitsWhenIdle_example =
    Calls-QuitsWhenIdle js disk quiet idle quiet-OnlyCalls idle-KeepsSteps new_engine waiting
      new_engine-IsFresh to_waiting

abbrev pub natives : Natives Js
natives = record { file_system = function 1; os = function 2; path = function 3; util = function 4 }

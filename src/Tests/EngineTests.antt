-- ===== src/Tests/EngineTests.antt =====
-- The timers and events of an engine.
use node_qml.Prelude.{◌≡◌, ◌⊎◌, refl, true, false, none, some, List, [], ◌∷◌, pos, has_key, eq_ℤ}
use node_qml.Memory.{Error}
use node_qml.Host.{argument}
use node_qml.Engine.{State, Loop, Module, returned, thrown, set_timeout, clear_interval, state_of}
use node_qml.Engine.Events.{take_timer, quit_if_done, timer_event, done_check, call_function}
use node_qml.Engine.Steps.{Step, Many, done, set_timeout_step, is_running}
use node_qml.Engine.Live.{IsLive, Taken}
use node_qml.Engine.Timers.{Step-IsLive}
use node_qml.Engine.Fires.{IsFresh, IsFresh-IsLive, KeepsSteps, timer_event-Fires}
use node_qml.Engine.Clears.{RunsOnce, set_timeout-RunsOnce, clear_interval_inverted}
use node_qml.Engine.Pending.{pending}
use node_qml.Engine.Refines.{effect, pending-effect}
use node_qml.Tests.Hosts.{Js, js, int, function}

abbrev pub no_module : Module Js
no_module = record {
  id = [];
  parent = none;
  children = [];
  exports = Js.undefined;
  filename = [];
  dirname = [];
  loaded = false;
}

abbrev pub new_engine : State Js
new_engine = record {
  timeouts = [];
  intervals = [];
  core_modules = [];
  cached_modules = [];
  objects = λ a. no_module;
  next = 0;
  has_exception = false;
  trace = [];
}

pub new_engine-IsFresh : IsFresh new_engine
new_engine-IsFresh = record { no_timeouts = refl; no_intervals = refl; no_calls = refl }

-- Functions that do nothing, and no events.
abbrev pub idle : Loop Js
idle = record { process_events = λ s. s; call = λ f s. s }

pub idle-KeepsSteps : KeepsSteps js idle
idle-KeepsSteps = record { call_steps = λ cb s. done s; event_steps = λ s. done s }

abbrev timeout_arguments : List Js
timeout_arguments = function 7 ∷ int (pos 20) ∷ []

-- setTimeout(f, 20), with the id 5.
abbrev waiting : State Js
waiting = state_of (set_timeout js timeout_arguments (pos 5) new_engine)

waiting-is_running : is_running waiting.trace (pos 5) ≡ true
unfolding set_timeout
waiting-is_running = refl

pub new_engine-IsLive : IsLive new_engine
new_engine-IsLive = IsFresh-IsLive new_engine new_engine-IsFresh

waiting-IsLive : IsLive waiting
waiting-IsLive =
    Step-IsLive js new_engine waiting (set_timeout_step timeout_arguments (pos 5) new_engine refl)
      new_engine-IsLive

Step-IsLive_example : IsLive waiting
Step-IsLive_example =
    Step-IsLive js new_engine waiting (set_timeout_step timeout_arguments (pos 5) new_engine refl)
      new_engine-IsLive

timer_event-Fires_example :
    (cb : Js) × (t : State Js) × Taken (pos 5) waiting (some (cb, t))
    × (timer_event idle (pos 5) waiting ≡ done_check idle (call_function idle cb t))
    × Many (Step js) waiting (timer_event idle (pos 5) waiting)
timer_event-Fires_example =
    timer_event-Fires js idle idle-KeepsSteps (pos 5) waiting waiting-is_running waiting-IsLive

set_timeout-RunsOnce_example :
    ((e : Error) × (set_timeout js timeout_arguments (pos 5) new_engine
        ≡ thrown e (record new_engine { has_exception = true })))
    ⊎ ((cb : Js) × (t : State Js) × (js.as_function (argument js timeout_arguments 0) ≡ some cb)
        × (set_timeout js timeout_arguments (pos 5) new_engine ≡ returned (pos 5) t)
        × RunsOnce js t (pos 5) cb (int (pos 5) ∷ []))
set_timeout-RunsOnce_example =
    set_timeout-RunsOnce js timeout_arguments (int (pos 5) ∷ []) (pos 5) new_engine refl refl refl

clear_interval_inverted_example :
    ((clear_interval js (int (pos 5) ∷ []) waiting ≡ returned tt waiting)
      × (cb : Js) × (take_timer (pos 5) waiting ≡ some (cb, waiting)))
    ⊎ ((t : State Js) × (clear_interval js (int (pos 5) ∷ []) waiting ≡ returned tt t)
        × (is_running t.trace (pos 5) ≡ false)
        × (has_key eq_ℤ t.timeouts (pos 5) ≡ true)
        × (quit_if_done t ≡ t))
clear_interval_inverted_example =
    clear_interval_inverted js (int (pos 5) ∷ []) (pos 5) waiting refl refl refl waiting-IsLive
      waiting-is_running

pending-effect_example :
    pending waiting (pos 5)
    ≡ effect js new_engine waiting
        (set_timeout_step timeout_arguments (pos 5) new_engine refl)
        (pending new_engine)
        (pos 5)
pending-effect_example =
    pending-effect js new_engine waiting
      (set_timeout_step timeout_arguments (pos 5) new_engine refl) new_engine-IsLive (pos 5)

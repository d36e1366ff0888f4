-- ===== src/Tool.antt =====
-- The command line tool, src/tools/nodeqml/main.cpp.
pub mod Waits
pub mod Quits
pub mod Started
pub mod Codes
use node_qml.Prelude.{if◌then◌else◌, ℕ, Option, none, some, List, [], ◌∷◌, ℤ}
use node_qml.Memory.{QString}
use node_qml.Host.{V4}
use node_qml.Engine.{
  Call, quit, timer_started, timer_killed, event_posted, function_called, State, Loop,
}
use node_qml.Engine.Events.{CustomEvent, timer_event, custom_event}
use node_qml.Module.{Files, Scripts, Ran, finished, aborted, unending}
use node_qml.Embedding.{engine_require}

-- The code of the oldest `quit` among the calls of a trace, whose latest call is the first.
unfoldable pub first_quit : {F : Type 0} → List (Call F) → Option ℕ
first_quit [] = none
first_quit (c ∷ cs) =
    let rest = first_quit cs in
    elim c [
      | quit n ↦ elim rest [ none ↦ some n | some m ↦ some m ]
      | timer_started i d ↦ rest
      | timer_killed i ↦ rest
      | event_posted f ↦ rest
      | function_called f ↦ rest
    ]

-- What the event loop delivers to the engine.
pub data AppEvent (F : Type 0) : Type 0 where
  timer_fired : ℤ → AppEvent F
  custom : CustomEvent F → AppEvent F

-- How `main` stands after some events: it ended with an exit code, or it waits in the event loop
-- for more. `lost` is a start that aborts or that has no end. The event loop stops for nothing but
-- that exit: QCoreApplication::exit, which process.exit calls, is in Process.
pub data Ended (F : Type 0) : Type 0 where
  exits : ℕ → Ended F
  waits : State F → Ended F
  lost : Ended F

-- A `quit` that was emitted comes first: the engine's signal is connected to ::exit.
abbrev pub unless_quit : {F : Type 0} → Option ℕ → Ended F → Ended F
unless_quit none r = r
unless_quit (some n) r = exits n

module _ (v4 : V4) (loop : Loop v4.Value) where
  abbrev pub deliver : AppEvent v4.Value → State v4.Value → State v4.Value
  deliver (timer_fired id) s = timer_event loop id s
  deliver (custom e) s = custom_event loop e s

  -- QCoreApplication::exec
  unfoldable pub exec : List (AppEvent v4.Value) → State v4.Value → Ended v4.Value
  unfolding first_quit timer_event custom_event
  exec [] s = unless_quit (first_quit s.trace) (waits s)
  exec (e ∷ events) s = unless_quit (first_quit s.trace) (exec events (deliver e s))

module _ (v4 : V4) (files : Files v4.Value) (scripts : Scripts v4.Value)
    (loop : Loop v4.Value) where
  -- What `main` does with the result of Engine::require.
  abbrev pub start_app : List (AppEvent v4.Value) → Ran (v4.Value × State v4.Value) → Ended v4.Value
  start_app events (finished (object, s)) =
      unless_quit (first_quit s.trace)
        (if v4.is_undefined object then exits 1 else exec v4 loop events s)
  start_app events aborted = lost
  start_app events unending = lost

  -- `main`, by its positional arguments and the events that the event loop delivers: `node` is the
  -- state of the Engine that it makes.
  unfoldable pub main :
      ℕ → State v4.Value → List QString → List (AppEvent v4.Value) → Ended v4.Value
  unfolding exec engine_require
  main fuel node [] events = exits 0
  main fuel node (script ∷ arguments) events =
      start_app events (engine_require v4 files scripts loop fuel script node)

-- ===== src/Tool/Waits.antt =====
-- What src/tools/nodeqml/main.cpp waits for in its event loop.
use node_qml.Prelude.{Bool, false, ◌⊎◌, ◌≡◌, true, none, List, [], ◌∷◌, ℤ}
use node_qml.Engine.{State}
use node_qml.Engine.Events.{next_tick_event, other_event}
use node_qml.Engine.Steps.{is_running}
use node_qml.Engine.Live.{IsLive}
use node_qml.Tool.{AppEvent, custom, first_quit, timer_fired, Ended, exits, waits, lost}

module _ {F : Type 0} where
  -- Some timer runs.
  abbrev pub HasTimer : State F → Type 0
  HasTimer s = (j : ℤ) × (is_running s.trace j ≡ true)

  -- Some callback of nextTick is among the events.
  abbrev pub any_tick : List (AppEvent F) → Bool
  any_tick [] = false
  any_tick (timer_fired id ∷ events) = any_tick events
  any_tick (custom other_event ∷ events) = any_tick events
  any_tick (custom (next_tick_event cb) ∷ events) = true

  -- Where the tool waits, the callbacks and the timers are in step, and some timer runs, or else
  -- some other thing is so.
  abbrev WaitsOr : Type 0 → Ended F → Type 0
  WaitsOr T (exits n) = Unit
  WaitsOr T (waits s) = IsLive s × (HasTimer s ⊎ T)
  WaitsOr T lost = Unit

  abbrev pub WaitsForTimer : List (AppEvent F) → Ended F → Type 0
  WaitsForTimer events r = WaitsOr (any_tick events ≡ true) r

  -- The process has ended, or there is something to wait for.
  abbrev IsSettled : Type 0 → State F → Type 0
  IsSettled T s = IsLive s × ((first_quit s.trace ≡ none) → HasTimer s ⊎ T)

-- ===== src/Engine/Steps.antt =====
-- What scripts and events can do to an EnginePrivate of src/nodeqml/engine.cpp, as a step relation.
use node_qml.Prelude.{has_key, ◌≡◌, Bool, true, false, some, List, [], ◌∷◌, if◌then◌else◌, ℤ, eq_ℤ}
use node_qml.Host.{V4, argument}
use node_qml.Engine.{
  Call, timer_started, timer_killed, event_posted, function_called, quit, State, state_of, emit,
  set_timeout, set_interval, clear_timeout, clear_interval, next_tick,
}
use node_qml.Engine.Events.{quit_if_done, exception_check, take_timer}

module _ {F : Type 0} where
  -- Whether Qt runs a timer, after the calls of a trace.
  abbrev pub is_running : List (Call F) → ℤ → Bool
  is_running [] j = false
  is_running (c ∷ cs) j =
      let rest = is_running cs j in
      elim c [
        | timer_started i d ↦ if eq_ℤ i j then true else rest
        | timer_killed i ↦ if eq_ℤ i j then false else rest
        | event_posted f ↦ rest
        | function_called f ↦ rest
        | quit n ↦ rest
      ]

-- One step. A timer gets an id that no running timer has, and fires while it runs. clearInterval is
-- not called with the id of a timeout.
pub data Step (v4 : V4) : State v4.Value → State v4.Value → Type 0 where
  set_timeout_step :
      (args : List v4.Value) (id : ℤ) (s : State v4.Value)
      → is_running s.trace id ≡ false
      → Step v4 s (state_of (set_timeout v4 args id s))
  set_interval_step :
      (args : List v4.Value) (id : ℤ) (s : State v4.Value)
      → is_running s.trace id ≡ false
      → Step v4 s (state_of (set_interval v4 args id s))
  clear_timeout_step :
      (args : List v4.Value) (s : State v4.Value) → Step v4 s (state_of (clear_timeout v4 args s))
  clear_interval_step :
      (args : List v4.Value) (s : State v4.Value)
      → has_key eq_ℤ s.timeouts (v4.to_int32 (argument v4 args 0)) ≡ false
      → Step v4 s (state_of (clear_interval v4 args s))
  next_tick_step :
      (args : List v4.Value) (s : State v4.Value) → Step v4 s (state_of (next_tick v4 args s))
  take_step :
      (id : ℤ) (cb : v4.Value) (s t : State v4.Value)
      → is_running s.trace id ≡ true
      → take_timer id s ≡ some (cb, t)
      → Step v4 s t
  call_step : (cb : v4.Value) (s : State v4.Value) → Step v4 s (emit (function_called cb) s)
  done_step : (s : State v4.Value) → Step v4 s (quit_if_done s)
  exception_step : (s : State v4.Value) → Step v4 s (exception_check s)

-- Any number of steps of a relation.
pub data Many {S : Type 0} (R : S → S → Type 0) : S → S → Type 0 where
  done : (s : S) → Many R s s
  more : (s t u : S) → R s t → Many R t u → Many R s u

pub Many-trans :
    {S : Type 0} {R : S → S → Type 0} (s t u : S) → Many R s t → Many R t u → Many R s u
Many-trans s t u (done _) k = k
Many-trans s t u (more _ a _ r rest) k = more s a u r (Many-trans a t u rest k)

-- A property that every step keeps holds after many.
pub Many-keeps :
    {S : Type 0} {R : S → S → Type 0} (P : S → Type 0)
    → ((s t : S) → R s t → P s → P t)
    → (s t : S) → Many R s t
    → P s
    → P t
Many-keeps P keep s t (done _) p = p
Many-keeps P keep s u (more _ t _ r rest) p = Many-keeps P keep t u rest (keep s t r p)

-- ===== src/Engine/Events.antt =====
-- The events of src/nodeqml/engine.cpp: timerEvent, customEvent, doneCheck, exceptionCheck.
use node_qml.Prelude.{
  false, ◌&&◌, Option, none, some, if◌then◌else◌, ℤ, eq_ℤ, find, remove, is_empty_hash,
}
use node_qml.Engine.{timer_killed, function_called, quit, State, Loop, emit}

-- A user event: a NextTickEvent with its callback, or one of another type.
pub data CustomEvent (F : Type 0) : Type 0 where
  next_tick_event : F → CustomEvent F
  other_event : CustomEvent F

module _ {F : Type 0} where
  -- What doneCheck does behind `processEvents`.
  abbrev pub quit_if_done : State F → State F
  quit_if_done s =
      if is_empty_hash s.intervals && is_empty_hash s.timeouts then emit (quit 0) s else s

  -- EnginePrivate::exceptionCheck, for an exception that is an object: it is printed and cleared.
  unfoldable pub exception_check : State F → State F
  exception_check s =
      if s.has_exception then emit (quit 1) (record s { has_exception = false }) else s

  -- A timeout whose timer is stopped and whose callback is taken out.
  abbrev pub drop_timeout : State F → ℤ → State F
  drop_timeout s id = record (emit (timer_killed id) s) { timeouts = remove eq_ℤ s.timeouts id }

  abbrev pub take_callback : ℤ → State F → Option F → Option F → Option (F × State F)
  take_callback id s (some cb) o = some (cb, drop_timeout s id)
  take_callback id s none (some cb) = some (cb, s)
  take_callback id s none none = none

  -- What timerEvent does before the call: the callback, and the state that it is called in.
  abbrev pub take_timer : ℤ → State F → Option (F × State F)
  take_timer id s = take_callback id s (find eq_ℤ s.timeouts id) (find eq_ℤ s.intervals id)

module _ {F : Type 0} (loop : Loop F) where
  -- EnginePrivate::doneCheck
  unfoldable pub done_check : State F → State F
  done_check s = quit_if_done (loop.process_events s)

  abbrev pub call_function : F → State F → State F
  call_function cb s = loop.call cb (emit (function_called cb) s)

  -- The rest of timerEvent, which does nothing for a timer that took no callback.
  abbrev pub fire : State F → Option (F × State F) → State F
  fire s none = s
  fire s (some (cb, t)) = done_check (call_function cb t)

  -- EnginePrivate::timerEvent
  unfoldable pub timer_event : ℤ → State F → State F
  timer_event id s = fire s (take_timer id s)

  -- EnginePrivate::customEvent
  unfoldable pub custom_event : CustomEvent F → State F → State F
  custom_event (next_tick_event cb) s = call_function cb s
  custom_event other_event s = s

-- ===== src/Engine.antt =====
-- src/nodeqml/engine.cpp: the timers, the next-tick events, the exceptions and the shutdown of an
-- EnginePrivate, with the module cache that src/nodeqml/moduleobject.cpp reads.
pub mod Events
pub mod Steps
pub mod Live
pub mod Timers
pub mod Fires
pub mod Clears
pub mod Registry
pub mod Pending
pub mod Refines
use node_qml.Prelude.{
  ℕ, ◌≡◌, Bool, true, false, ◌&&◌, ◌||◌, Option, none, some, List, [], ◌∷◌, length, ltb, leb, ◌==◌,
  if◌then◌else◌, ℤ, pos, eq_ℤ, leb_ℤ, text_eq, find, has_key, insert, remove, is_empty_hash,
}
use node_qml.Memory.{QString, Error, error, type_error}
use node_qml.Host.{V4, argument}

-- What an engine asks of Qt, of its functions and of the program around it.
pub data Call (F : Type 0) : Type 0 where
  timer_started : ℤ → ℤ → Call F
  timer_killed : ℤ → Call F
  event_posted : F → Call F
  function_called : F → Call F
  quit : ℕ → Call F

-- A ModuleObject: `exports` is an object, and `parent` and `children` are addresses of modules.
pub record Module (F : Type 0) : Type 0 where
  pub id : QString
  pub parent : Option ℕ
  pub children : List ℕ
  pub exports : F
  pub filename : QString
  pub dirname : QString
  pub loaded : Bool

-- The state of an EnginePrivate. `trace` has the calls, the last one first; `objects` has the
-- modules that were made, and `next` is the address of the next one. `has_exception` is QV4's own.
pub record State (F : Type 0) : Type 0 where
  pub timeouts : List (ℤ × F)
  pub intervals : List (ℤ × F)
  pub core_modules : List (QString × F)
  pub cached_modules : List (QString × ℕ)
  pub objects : ℕ → Module F
  pub next : ℕ
  pub has_exception : Bool
  pub trace : List (Call F)

-- How a call of the engine ends.
pub data Answer (F A : Type 0) : Type 0 where
  returned : A → State F → Answer F A
  thrown : Error → State F → Answer F A

module _ {F : Type 0} where
  abbrev pub state_of : {A : Type 0} → Answer F A → State F
  state_of (returned a s) = s
  state_of (thrown e s) = s

  abbrev pub emit : Call F → State F → State F
  emit c s = record s { trace = c ∷ s.trace }

  -- ExecutionEngine::throwError and its kind
  abbrev pub throw_error : {A : Type 0} → Error → State F → Answer F A
  throw_error e s = thrown e (record s { has_exception = true })

-- The code that the engine enters and that is not its own: `processEvents` delivers the events that
-- wait, and a function is called. Both can call the engine again.
pub record Loop (F : Type 0) : Type 0 where
  pub process_events : State F → State F
  pub call : F → State F → State F

-- What both kinds of timers say of wrong arguments.
pub record Complaints : Type 0 where
  pub missing : Error
  pub callback : Error
  pub number : Error
  pub failed : Error

abbrev pub timeout_complaints : Complaints
timeout_complaints = record {
  missing = error "setTimeout: missing arguments";
  callback = type_error "setTimeout: callback must be a function";
  number = type_error "setTimeout: timeout must be an integer";
  failed = error "setTimeout: cannot start timer";
}

abbrev pub interval_complaints : Complaints
interval_complaints = record {
  missing = error "setInterval: missing arguments";
  callback = type_error "setInterval: callback must be a function";
  number = type_error "setInterval: timeout must be an integer";
  failed = error "setInterval: cannot start timer";
}

-- A delay that is not positive becomes one millisecond.
abbrev pub delay_of : ℤ → ℤ
delay_of n = if leb_ℤ n (pos 0) then pos 1 else n

module _ {F : Type 0} where
  -- m_timeoutCallbacks[timerId].set(m_v4, cb), and the same of m_intervalCallbacks
  abbrev pub put_timeout : State F → ℤ → F → State F
  put_timeout s id cb = record s { timeouts = insert eq_ℤ s.timeouts id cb }

  abbrev pub put_interval : State F → ℤ → F → State F
  put_interval s id cb = record s { intervals = insert eq_ℤ s.intervals id cb }

module _ (v4 : V4) where
  -- The body that setTimeout and setInterval share. `started` is what `startTimer` gives, 0 where no
  -- timer can be started.
  abbrev pub set_timer :
      Complaints
      → (State v4.Value → ℤ → v4.Value → State v4.Value)
      → List v4.Value
      → ℤ
      → State v4.Value
      → Answer v4.Value ℤ
  set_timer complaints put args started s =
      if ltb (length args) 2
      then throw_error complaints.missing s
      else elim (v4.as_function (argument v4 args 0)) [
        | none ↦ throw_error complaints.callback s
        | some cb ↦
            if v4.is_number (argument v4 args 1)
            then if eq_ℤ started (pos 0)
              then throw_error complaints.failed s
              else returned started (
                  put (emit (timer_started started (delay_of (v4.to_int32 (argument v4 args 1)))) s)
                    started cb)
            else throw_error complaints.number s
      ]

  -- EnginePrivate::setTimeout
  unfoldable pub set_timeout : List v4.Value → ℤ → State v4.Value → Answer v4.Value ℤ
  set_timeout = set_timer timeout_complaints put_timeout

  -- EnginePrivate::setInterval
  unfoldable pub set_interval : List v4.Value → ℤ → State v4.Value → Answer v4.Value ℤ
  set_interval = set_timer interval_complaints put_interval

  -- EnginePrivate::clearTimeout
  unfoldable pub clear_timeout : List v4.Value → State v4.Value → Answer v4.Value (Unit {0})
  clear_timeout args s =
      if ltb (length args) 1
      then throw_error (error "clearTimeout: missing arguments") s
      else if v4.is_number (argument v4 args 0)
      then (let id = v4.to_int32 (argument v4 args 0) in
          if has_key eq_ℤ s.timeouts id
          then returned tt
              (record (emit (timer_killed id) s) { timeouts = remove eq_ℤ s.timeouts id })
          else returned tt s)
      else throw_error (type_error "clearTimeout: timeout must be an integer (at the moment)") s

  -- EnginePrivate::clearInterval
  unfoldable pub clear_interval : List v4.Value → State v4.Value → Answer v4.Value (Unit {0})
  clear_interval args s =
      if ltb (length args) 1
      then throw_error (error "clearInterval: missing arguments") s
      else if v4.is_number (argument v4 args 0)
      then (let id = v4.to_int32 (argument v4 args 0) in
          if has_key eq_ℤ s.intervals id
          then returned tt s
          else returned tt
              (record (emit (timer_killed id) s) { intervals = remove eq_ℤ s.intervals id }))
      else throw_error (type_error "clearInterval: timeout must be an integer (at the moment)") s

  -- EnginePrivate::nextTick
  unfoldable pub next_tick : List v4.Value → State v4.Value → Answer v4.Value (Unit {0})
  next_tick [] s = throw_error (error "setInterval: missing arguments") s
  next_tick (f ∷ args) s = elim (v4.as_function f) [
    | none ↦ throw_error (type_error "setInterval: callback must be a function") s
    | some cb ↦ returned tt (emit (event_posted cb) s)
  ]

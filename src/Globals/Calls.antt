-- ===== src/Globals/Calls.antt =====
-- Calls of the global functions of src/nodeqml/globalextensions.cpp, one after the other.
use node_qml.Prelude.{
  ℕ, ◌≡◌, true, false, List, [], ◌∷◌, ℤ, eq_ℤ, has_key, Bool-cases, inl, inr, refl, subst,
}
use node_qml.Host.{V4, argument}
use node_qml.Engine.{
  State, Loop, Answer, state_of, set_timeout, set_interval, clear_timeout, clear_interval,
}
use node_qml.Engine.Steps.{
  is_running, set_timeout_step, set_interval_step, clear_timeout_step, clear_interval_step,
}
use node_qml.Engine.Live.{IsLive}
use node_qml.Engine.Timers.{Step-IsLive}
use node_qml.Engine.Fires.{QuitsWhenIdle, quits, IsFresh, IsFresh-IsLive, KeepsSteps}
use node_qml.Module.Scripted.{OnlyCalls, OnlyCalls-KeepsLive, process_events-IsLive}
use node_qml.Module.Require.{require_main}
use node_qml.Module.{Files, Scripts, Ran, finished, aborted, unending, and_then}
use node_qml.Module.Live.{KeepsLive, EndsLive, and_then-EndsLive, SameTimers-IsLive}
use node_qml.Module.Ends.{MainEnds, require_main_live}
use node_qml.Globals.{
  method_require, method_set_timeout, method_set_interval, method_clear_timeout,
  method_clear_interval, method_capture_stack_trace,
}

-- A call of a global function, with the id that startTimer gives.
pub data Call (v4 : V4) : Type 0 where
  require_call clear_timeout_call clear_interval_call : List v4.Value → Call v4
  set_timeout_call set_interval_call : List v4.Value → ℤ → Call v4
  capture_stack_trace_call : Call v4

module _ (v4 : V4) (files : Files v4.Value) (scripts : Scripts v4.Value)
    (loop : Loop v4.Value) where
  -- The state in which a call leaves the engine.
  unfoldable pub call_global : ℕ → Call v4 → State v4.Value → Ran (State v4.Value)
  call_global fuel (require_call args) s =
      and_then (method_require v4 files scripts loop fuel args s) (λ a. finished (state_of a))
  call_global fuel (clear_timeout_call args) s =
      finished (state_of (method_clear_timeout v4 args s))
  call_global fuel (clear_interval_call args) s =
      finished (state_of (method_clear_interval v4 args s))
  call_global fuel (set_timeout_call args id) s =
      finished (state_of (method_set_timeout v4 args id s))
  call_global fuel (set_interval_call args id) s =
      finished (state_of (method_set_interval v4 args id s))
  call_global fuel capture_stack_trace_call s =
      finished (state_of (method_capture_stack_trace v4 s))

  -- What must hold of a call: startTimer gives an id that no running timer has, and clearInterval is
  -- not called with the id of a timeout.
  abbrev pub IsAllowed : Call v4 → State v4.Value → Type 0
  IsAllowed (set_timeout_call args id) s = is_running s.trace id ≡ false
  IsAllowed (set_interval_call args id) s = is_running s.trace id ≡ false
  IsAllowed (clear_interval_call args) s =
      has_key eq_ℤ s.timeouts (v4.to_int32 (argument v4 args 0)) ≡ false
  IsAllowed (clear_timeout_call args) s = Unit
  IsAllowed (require_call args) s = Unit
  IsAllowed capture_stack_trace_call s = Unit

  -- How calls that are allowed, one after the other, come from one state to another.
  pub data Calls : State v4.Value → State v4.Value → Type 0 where
    no_call : (s : State v4.Value) → Calls s s
    one_more :
        (fuel : ℕ) (c : Call v4) (s t u : State v4.Value)
        → IsAllowed c s
        → call_global fuel c s ≡ finished t
        → Calls t u
        → Calls s u

module _ (v4 : V4) (files : Files v4.Value) (scripts : Scripts v4.Value) (loop : Loop v4.Value)
    (keeps : KeepsLive v4 scripts)
    (events_live : (s : State v4.Value) → IsLive s → IsLive (loop.process_events s)) where
  main_live : (r : Ran (Answer v4.Value v4.Value)) → MainEnds v4 r → EndsLive state_of r
  main_live (finished a) e = e.0
  main_live aborted e = tt
  main_live unending e = tt

  require_live :
      (fuel : ℕ) (args : List v4.Value) (s : State v4.Value)
      → IsLive s
      → EndsLive state_of (method_require v4 files scripts loop fuel args s)
  unfolding method_require
  require_live fuel [] s live =
      SameTimers-IsLive s (record s { has_exception = true }) (refl, refl, refl) live
  require_live fuel (v ∷ args) s live = elim (Bool-cases (v4.is_string v)) [
    | inl is_text ↦ rw is_text (
        main_live (require_main files scripts loop fuel (v4.to_qstring v) s)
          (require_main_live v4 files scripts loop keeps events_live fuel (v4.to_qstring v) s live))
    | inr no_text ↦
        rw no_text (SameTimers-IsLive s (record s { has_exception = true }) (refl, refl, refl) live)
  ]

  call_global-EndsLive :
      (fuel : ℕ) (c : Call v4) (s : State v4.Value)
      → IsAllowed v4 files scripts loop c s
      → IsLive s
      → EndsLive (λ t. t) (call_global v4 files scripts loop fuel c s)
  unfolding call_global method_set_timeout method_set_interval method_clear_timeout
      method_clear_interval method_capture_stack_trace
  call_global-EndsLive fuel (require_call args) s allowed live =
      and_then-EndsLive state_of (λ t. t) (method_require v4 files scripts loop fuel args s)
        (λ a. finished (state_of a)) (require_live fuel args s live) (λ a l. l)
  call_global-EndsLive fuel (clear_timeout_call args) s allowed live =
      Step-IsLive v4 s (state_of (clear_timeout v4 args s)) (clear_timeout_step args s) live
  call_global-EndsLive fuel (clear_interval_call args) s allowed live =
      Step-IsLive v4 s (state_of (clear_interval v4 args s)) (clear_interval_step args s allowed)
        live
  call_global-EndsLive fuel (set_timeout_call args id) s allowed live =
      Step-IsLive v4 s (state_of (set_timeout v4 args id s)) (set_timeout_step args id s allowed)
        live
  call_global-EndsLive fuel (set_interval_call args id) s allowed live =
      Step-IsLive v4 s (state_of (set_interval v4 args id s)) (set_interval_step args id s allowed)
        live
  call_global-EndsLive fuel capture_stack_trace_call s allowed live = live

  Calls-IsLive : (s t : State v4.Value) → Calls v4 files scripts loop s t → IsLive s → IsLive t
  Calls-IsLive s _ (no_call _) live = live
  Calls-IsLive s u (one_more fuel c _ t _ allowed e calls) live =
      Calls-IsLive t u calls
        (subst (EndsLive (λ t. t)) e (call_global-EndsLive fuel c s allowed live))

module _ (v4 : V4) (files : Files v4.Value) (scripts : Scripts v4.Value) (loop : Loop v4.Value)
    (only : OnlyCalls v4 scripts) (keeps : KeepsSteps v4 loop) where
  -- After any calls of the global functions of a new engine, doneCheck ends the program just when
  -- Qt runs no timer of the engine any more. Each call ends, a timer that it starts gets an id that
  -- no running timer has, and clearInterval is not called with the id of a timeout. The scripts
  -- that `require` runs do nothing to the engine but call it and require modules, and the events
  -- that it delivers do no more than steps of the engine.
  pub Calls-QuitsWhenIdle :
      (s t : State v4.Value) → IsFresh s → Calls v4 files scripts loop s t → QuitsWhenIdle t
  Calls-QuitsWhenIdle s t fresh calls = quits t (
      Calls-IsLive v4 files scripts loop (OnlyCalls-KeepsLive v4 scripts only)
        (process_events-IsLive v4 loop keeps) s t calls (IsFresh-IsLive s fresh))

-- ===== src/Module/Scripted.antt =====
-- What the scripts that src/nodeqml/moduleobject.cpp runs can do to the engine of
-- src/nodeqml/engine.cpp: call it, require modules, and change objects.
use node_qml.Prelude.{◌≡◌, refl, subst}
use node_qml.Memory.{Bytes, QString}
use node_qml.Host.{V4}
use node_qml.Engine.{State, Loop, Answer, state_of}
use node_qml.Engine.Steps.{Step, Many-keeps}
use node_qml.Engine.Live.{IsLive}
use node_qml.Engine.Timers.{Step-IsLive}
use node_qml.Engine.Fires.{KeepsSteps}
use node_qml.Module.{Scripts, Globals, Ran, finished, aborted, unending}
use node_qml.Module.Live.{SameTimers, SameTimers-IsLive, EndsLive, KeepsLive}

module _ (v4 : V4) (require : QString → State v4.Value → Ran (Answer v4.Value v4.Value)) where
  -- How the run of a script goes from one state to another: by steps of the engine, by modules that
  -- it requires, and by what it does to objects and to the pending exception.
  pub data Sequence : State v4.Value → State v4.Value → Type 0 where
    at_end : (s : State v4.Value) → Sequence s s
    by_step : (s t u : State v4.Value) → Step v4 s t → Sequence t u → Sequence s u
    by_require :
        (path : QString) (s u : State v4.Value) (a : Answer v4.Value v4.Value)
        → require path s ≡ finished a
        → Sequence (state_of a) u
        → Sequence s u
    by_itself : (s t u : State v4.Value) → SameTimers s t → Sequence t u → Sequence s u

  pub Sequence-IsLive :
      (s u : State v4.Value)
      → ((path : QString) (t : State v4.Value) → IsLive t → EndsLive state_of (require path t))
      → Sequence s u
      → IsLive s
      → IsLive u
  Sequence-IsLive s _ keep (at_end _) live = live
  Sequence-IsLive s u keep (by_step _ t _ step rest) live =
      Sequence-IsLive t u keep rest (Step-IsLive v4 s t step live)
  Sequence-IsLive s u keep (by_require path _ _ a ran rest) live =
      Sequence-IsLive (state_of a) u keep rest (subst (EndsLive state_of) ran (keep path s live))
  Sequence-IsLive s u keep (by_itself _ t _ same rest) live =
      Sequence-IsLive t u keep rest (SameTimers-IsLive s t same live)

-- A run of a script that ends does nothing else to the engine.
pub record OnlyCalls (v4 : V4) (scripts : Scripts v4.Value) : Type 0 where
  pub calls :
      (require : QString → State v4.Value → Ran (Answer v4.Value v4.Value))
      (globals : Globals v4.Value) (source : Bytes) (s t : State v4.Value)
      → scripts.run require globals source s ≡ finished t
      → Sequence v4 require s t

module _ (v4 : V4) (scripts : Scripts v4.Value) (only : OnlyCalls v4 scripts) where
  run-EndsLive :
      (require : QString → State v4.Value → Ran (Answer v4.Value v4.Value)) (s : State v4.Value)
      (r : Ran (State v4.Value))
      → ((path : QString) (t : State v4.Value) → IsLive t → EndsLive state_of (require path t))
      → IsLive s
      → ((t : State v4.Value) → r ≡ finished t → Sequence v4 require s t)
      → EndsLive (λ t. t) r
  run-EndsLive require s (finished t) keep live sequence =
      Sequence-IsLive v4 require s t keep (sequence t refl) live
  run-EndsLive require s aborted keep live sequence = tt
  run-EndsLive require s unending keep live sequence = tt

  pub OnlyCalls-KeepsLive : KeepsLive v4 scripts
  OnlyCalls-KeepsLive = record {
    run_live = λ require globals source s keep live.
        run-EndsLive require s (scripts.run require globals source s) keep live
          (λ t e. only.calls require globals source s t e);
  }

module _ (v4 : V4) (loop : Loop v4.Value) (keeps : KeepsSteps v4 loop) where
  pub process_events-IsLive : (s : State v4.Value) → IsLive s → IsLive (loop.process_events s)
  process_events-IsLive s live =
      Many-keeps (λ u. IsLive u) (Step-IsLive v4) s (loop.process_events s) (keeps.event_steps s)
        live

  pub call-IsLive : (f : v4.Value) (s : State v4.Value) → IsLive s → IsLive (loop.call f s)
  call-IsLive f s live =
      Many-keeps (λ u. IsLive u) (Step-IsLive v4) s (loop.call f s) (keeps.call_steps f s) live

-- ===== src/Module/Ends.antt =====
-- How EnginePrivate::require of src/nodeqml/engine.cpp ends.
use node_qml.Prelude.{ℕ, ◌≡◌, refl, none}
use node_qml.Memory.{QString}
use node_qml.Host.{V4}
use node_qml.Engine.{State, Loop, Answer, returned, thrown, state_of}
use node_qml.Engine.Events.{done_check, quit_if_done}
use node_qml.Engine.Live.{IsLive}
use node_qml.Engine.Timers.{quit_if_done-IsLive}
use node_qml.Engine.Fires.{QuitsWhenIdle, quits}
use node_qml.Module.{Files, Scripts, Ran, finished, aborted, unending, and_then}
use node_qml.Module.Require.{require, check_done, require_main}
use node_qml.Module.Live.{EndsLive, KeepsLive, require_live}

module _ (v4 : V4) where
  -- How EnginePrivate::require ends: in a state that doneCheck left, with the timers and the
  -- callbacks in step, and it has quit just when no timer runs.
  abbrev pub EndsChecked : State v4.Value → Type 0
  EndsChecked t =
      IsLive t × (u : State v4.Value) × (t ≡ quit_if_done u) × IsLive u × QuitsWhenIdle u

  abbrev pub MainEnds : Ran (Answer v4.Value v4.Value) → Type 0
  MainEnds (finished a) = EndsChecked (state_of a)
  MainEnds aborted = Unit
  MainEnds unending = Unit

module _ (v4 : V4) (files : Files v4.Value) (scripts : Scripts v4.Value) (loop : Loop v4.Value)
    (keeps : KeepsLive v4 scripts)
    (events_live : (s : State v4.Value) → IsLive s → IsLive (loop.process_events s)) where
  pub checked_live : (s : State v4.Value) → IsLive s → EndsChecked v4 (done_check loop s)
  unfolding done_check
  checked_live s live =
      let u = loop.process_events s in
      (
        quit_if_done-IsLive v4 u (events_live s live),
        u,
        refl,
        events_live s live,
        quits u (events_live s live),
      )

  main_live :
      (r : Ran (Answer v4.Value v4.Value))
      → EndsLive state_of r
      → MainEnds v4 (and_then r (λ a. finished (check_done files scripts loop a)))
  main_live (finished (returned x t)) live = checked_live t live
  main_live (finished (thrown e t)) live = checked_live t live
  main_live aborted live = tt
  main_live unending live = tt

  pub require_main_live :
      (fuel : ℕ) (path : QString) (s : State v4.Value)
      → IsLive s
      → MainEnds v4 (require_main files scripts loop fuel path s)
  unfolding require_main
  require_main_live fuel path s live =
      main_live (require files scripts fuel path none s)
        (require_live v4 files scripts keeps fuel path none s live)

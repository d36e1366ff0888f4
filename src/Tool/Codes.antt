-- ===== src/Tool/Codes.antt =====
-- The exit codes of src/tools/nodeqml/main.cpp.
use node_qml.Prelude.{ℕ, suc, ◌<◌, ◌≡◌, refl, ap, ◌∙◌, none, List, ◌∷◌, if◌then◌else◌}
use node_qml.Memory.{Bytes, QString}
use node_qml.Host.{V4}
use node_qml.Engine.{State, Loop, returned}
use node_qml.Engine.Events.{exception_check, quit_if_done, done_check}
use node_qml.Module.{Files, Scripts, finished, and_then}
use node_qml.Module.Load.{new_module, mark_loaded}
use node_qml.Module.Require.{require, check_done, require_main}
use node_qml.Module.Ranked.{HasRanks, require-EndAlike}
use node_qml.Embedding.{answer_value, engine_require}
use node_qml.Embedding.Reports.{IsMissing, cleared}
use node_qml.Tool.{first_quit, AppEvent, Ended, exits, unless_quit, exec, start_app, main}
use node_qml.Tool.Quits.{
  IsIdle, is_idle, unless_quit-quit_if_done, unless_quit-exception_check, checked_again,
  exception_check-is_idle,
}
use node_qml.Tool.Started.{Starts, kept, exports_of, require_started}

module _ (v4 : V4) (files : Files v4.Value) (scripts : Scripts v4.Value) (loop : Loop v4.Value)
    (no_events : (s : State v4.Value) → loop.process_events s ≡ s) where
  -- A script that is not found, in an engine that keeps no callback and has not asked to quit, where
  -- no event waits to be delivered: the check behind `require` ends the process with the code 0,
  -- before `main` can return 1.
  pub main-missing :
      (fuel : ℕ) (node : State v4.Value) (script : QString) (arguments : List QString)
      (events : List (AppEvent v4.Value))
      → IsMissing v4 files scripts script node
      → IsIdle node
      → first_quit node.trace ≡ none
      → main v4 files scripts loop (suc fuel) node (script ∷ arguments) events ≡ exits 0
  unfolding main engine_require require_main require done_check first_quit
  main-missing fuel node script arguments events (no_native, no_file) (no_timeouts, no_intervals)
        none_before =
      rw (no_native, no_file, no_events, no_timeouts, no_intervals, none_before) refl

  abbrev told : v4.Value → List (AppEvent v4.Value) → State v4.Value → Ended v4.Value
  told x events s = if v4.is_undefined x then exits 1 else exec v4 loop events s

  start_kept :
      (events : List (AppEvent v4.Value)) (x : v4.Value) (a : ℕ) (file : QString)
      (t : State v4.Value)
      → start_app v4 files scripts loop events (
          finished (
            answer_value v4
              (check_done files scripts loop (returned x (kept v4 files scripts a file t)))))
        ≡ unless_quit (first_quit t.trace) (
            if t.has_exception
            then exits 1
            else if is_idle t
            then exits 0
            else told x events (kept v4 files scripts a file t))
  unfolding done_check
  start_kept events x a file t =
      let c = exception_check t in
      let again : exception_check (mark_loaded files scripts a c) ≡ mark_loaded files scripts a c =
        checked_again (mark_loaded files scripts a c) (cleared t) in
      ap (λ s. unless_quit (first_quit (quit_if_done s).trace) (told x events (quit_if_done s)))
        (no_events (kept v4 files scripts a file t))
      ∙ unless_quit-quit_if_done (kept v4 files scripts a file t) (told x events)
      ∙ ap
          (λ s.
            unless_quit (first_quit s.trace)
              (if is_idle s then exits 0 else told x events (kept v4 files scripts a file t)))
          again
      ∙ ap
          (λ b.
            unless_quit (first_quit c.trace)
              (if b then exits 0 else told x events (kept v4 files scripts a file t)))
          (exception_check-is_idle t)
      ∙ unless_quit-exception_check t
          (if is_idle t then exits 0 else told x events (kept v4 files scripts a file t))

  -- How the tool goes on from the end of a script that it has found and could read, where no event
  -- waits to be delivered and the script leaves no exception but an object: a `quit` of the run comes
  -- first; an exception that is left makes the exit code 1; else the code is 0 where no callback is
  -- kept; else `main` returns 1 for undefined exports, or goes on to the events.
  pub main-Starts :
      (fuel : ℕ) (node : State v4.Value) (script : QString) (arguments : List QString)
      (events : List (AppEvent v4.Value)) (c : ℕ) (rest : QString) (source : Bytes)
      (t : State v4.Value)
      → Starts v4 files scripts fuel node script c rest source t
      → (let a = (new_module files scripts (c ∷ rest) none node).0 in
          main v4 files scripts loop (suc fuel) node (script ∷ arguments) events
          ≡ unless_quit (first_quit t.trace) (
              if t.has_exception
              then exits 1
              else if is_idle t
              then exits 0
              else if v4.is_undefined (exports_of v4 files scripts a (c ∷ rest) t)
              then exits 1
              else exec v4 loop events (kept v4 files scripts a (c ∷ rest) t)))
  unfolding main engine_require require_main
  main-Starts fuel node script arguments events c rest source t starts =
      let a = (new_module files scripts (c ∷ rest) none node).0 in
      ap
        (λ r. start_app v4 files scripts loop events (
          and_then (and_then r (λ x. finished (check_done files scripts loop x)))
            (λ x. finished (answer_value v4 x))))
        (require_started v4 files scripts fuel node script c rest source t starts)
      ∙ start_kept events (exports_of v4 files scripts a (c ∷ rest) t) a (c ∷ rest) t

  -- The fuel does not matter where it passes the rank of the script.
  main_fuel :
      (rank : QString → ℕ) (fuel more : ℕ) (node : State v4.Value) (script : QString)
      (arguments : List QString) (events : List (AppEvent v4.Value))
      → HasRanks files scripts rank
      → rank script < fuel
      → rank script < more
      → main v4 files scripts loop fuel node (script ∷ arguments) events
        ≡ main v4 files scripts loop more node (script ∷ arguments) events
  unfolding main engine_require require_main
  main_fuel rank fuel more node script arguments events ranks enough more_too =
      ap
        (λ r. start_app v4 files scripts loop events (
          and_then (and_then r (λ x. finished (check_done files scripts loop x)))
            (λ x. finished (answer_value v4 x))))
        (require-EndAlike files scripts rank ranks fuel more script none node enough more_too).0

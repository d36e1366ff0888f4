-- ===== src/Embedding/Reports.antt =====
-- What the class Engine of src/nodeqml/engine.cpp reports of a `require`.
use node_qml.Prelude.{
  ℕ, zero, suc, ◌≡◌, refl, ◌⊎◌, inl, inr, true, false, Option, none, some, [], ◌∷◌, text_eq, find,
  arith,
}
use node_qml.Memory.{QString}
use node_qml.Host.{V4}
use node_qml.Engine.{State, Loop, Answer, returned, thrown}
use node_qml.Engine.Events.{exception_check, quit_if_done, done_check}
use node_qml.Module.{Files, Scripts, Ran, finished, aborted, unending, and_then, resolve_module}
use node_qml.Module.Load.{new_module, load}
use node_qml.Module.Require.{
  keep_module, require_file, require_found, require_name, require, check_done, require_main,
}
use node_qml.Embedding.{answer_value, engine_require, engine_has_exception}

module _ {F : Type 0} where
  pub cleared : (s : State F) → (exception_check s).has_exception ≡ false
  unfolding exception_check
  cleared s = ground arith

  pub quit_if_done-has_exception : (s : State F) → (quit_if_done s).has_exception ≡ s.has_exception
  quit_if_done-has_exception s = ground arith

module _ (v4 : V4) (files : Files v4.Value) (scripts : Scripts v4.Value) where
  -- A name that is neither of a native module nor found among the files.
  abbrev pub IsMissing : QString → State v4.Value → Type 0
  IsMissing path s = (find text_eq s.core_modules path ≡ none) × (resolve_module files path [] ≡ [])

  -- What `require` from outside leaves: an exception for a missing module, and no other.
  abbrev pub Left : QString → State v4.Value → Ran (Answer v4.Value v4.Value) → Type 0
  Left path s (finished (returned x t)) = (t.has_exception ≡ false) × ¬ IsMissing path s
  Left path s (finished (thrown e t)) = (t.has_exception ≡ true) × IsMissing path s
  Left path s aborted = Unit
  Left path s unending = Unit

  loaded-Left :
      (path filename : QString) (a : ℕ) (s : State v4.Value) (r : Ran (State v4.Value))
      → ¬ IsMissing path s
      → Left path s (and_then r (λ t. finished (keep_module files scripts filename a t)))
  loaded-Left path filename a s (finished t) there = (cleared t, there)
  loaded-Left path filename a s aborted there = tt
  loaded-Left path filename a s unending there = tt

  file-Left :
      (again : QString → Option ℕ → State v4.Value → Ran (Answer v4.Value v4.Value))
      (path filename : QString) (s : State v4.Value) (o : Option ℕ)
      → s.has_exception ≡ false
      → ¬ IsMissing path s
      → Left path s (require_file files scripts again filename none s o)
  file-Left again path filename s (some a) none_raised there = (none_raised, there)
  file-Left again path filename s none none_raised there =
      let made = new_module files scripts filename none s in
      loaded-Left path filename made.0 s
        (load files scripts (λ p. again p (some made.0)) made.0 filename made.1) there

  found-Left :
      (again : QString → Option ℕ → State v4.Value → Ran (Answer v4.Value v4.Value))
      (path filename : QString) (s : State v4.Value)
      → s.has_exception ≡ false
      → find text_eq s.core_modules path ≡ none
      → resolve_module files path [] ≡ filename
      → Left path s (require_found files scripts again path filename none s)
  found-Left again path [] s none_raised no_native no_file = (refl, (no_native, no_file))
  found-Left again path (c ∷ rest) s none_raised no_native file =
      file-Left again path (c ∷ rest) s (find text_eq s.cached_modules (c ∷ rest)) none_raised
        (λ missing. absurd (ground (arith, missing.1, file)))

  name-Left :
      (again : QString → Option ℕ → State v4.Value → Ran (Answer v4.Value v4.Value))
      (path : QString) (s : State v4.Value) (o : Option v4.Value)
      → s.has_exception ≡ false
      → find text_eq s.core_modules path ≡ o
      → Left path s (require_name files scripts again path none s o)
  name-Left again path s (some x) none_raised native =
      (none_raised, λ missing. absurd (ground (arith, missing.0, native)))
  name-Left again path s none none_raised no_native =
      found-Left again path (resolve_module files path []) s none_raised no_native refl

  require-Left :
      (fuel : ℕ) (path : QString) (s : State v4.Value)
      → s.has_exception ≡ false
      → Left path s (require files scripts fuel path none s)
  unfolding require
  require-Left zero path s none_raised = tt
  require-Left (suc fuel) path s none_raised =
      name-Left (require files scripts fuel) path s (find text_eq s.core_modules path) none_raised
        refl

  -- What Engine::require gives and Engine::hasException says behind it.
  abbrev pub Reports : QString → State v4.Value → Ran (v4.Value × State v4.Value) → Type 0
  Reports path s (finished (x, t)) =
      ((engine_has_exception t ≡ true) × IsMissing path s × (x ≡ v4.undefined))
      ⊎ ((engine_has_exception t ≡ false) × ¬ IsMissing path s)
  Reports path s aborted = Unit
  Reports path s unending = Unit

  module _ (loop : Loop v4.Value)
      (events_keep : (s : State v4.Value)
        → (loop.process_events s).has_exception ≡ s.has_exception) where
    done_check-has_exception :
        (s : State v4.Value) → (done_check loop s).has_exception ≡ s.has_exception
    unfolding done_check
    done_check-has_exception s =
        rw (quit_if_done-has_exception (loop.process_events s)) (events_keep s)

    checked-Reports :
        (path : QString) (s : State v4.Value) (r : Ran (Answer v4.Value v4.Value))
        → Left path s r
        → Reports path s (
            and_then
              (and_then r (λ a. finished (check_done files scripts loop a)))
              (λ a. finished (answer_value v4 a)))
    checked-Reports path s (finished (returned x t)) (clear, there) =
        inr (rw (done_check-has_exception t) clear, there)
    checked-Reports path s (finished (thrown e t)) (raised, missing) =
        inl (rw (done_check-has_exception t) raised, missing, refl)
    checked-Reports path s aborted left = tt
    checked-Reports path s unending left = tt

    -- Behind Engine::require, in an engine that had no exception and where the events that are
    -- delivered keep it so, hasException is true exactly where the module was not found, and then
    -- the value is undefined. An exception of the script that was run never shows there, nor does
    -- a file that cannot be read.
    pub engine_require-Reports :
        (fuel : ℕ) (path : QString) (s : State v4.Value)
        → s.has_exception ≡ false
        → Reports path s (engine_require v4 files scripts loop fuel path s)
    unfolding engine_require require_main
    engine_require-Reports fuel path s none_raised =
        checked-Reports path s (require files scripts fuel path none s)
          (require-Left fuel path s none_raised)

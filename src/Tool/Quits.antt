-- ===== src/Tool/Quits.antt =====
-- The first `quit` behind the checks of src/nodeqml/engine.cpp, at which
-- src/tools/nodeqml/main.cpp exits.
use node_qml.Prelude.{
  ℕ, ◌≡◌, refl, ap, Bool, true, false, ◌&&◌, [], Option-cases, inl, inr, if◌then◌else◌,
  is_empty_hash,
}
use node_qml.Engine.{State, emit, quit}
use node_qml.Engine.Events.{exception_check, quit_if_done}
use node_qml.Tool.{first_quit, Ended, exits, unless_quit}

module _ {F : Type 0} where
  -- No callback is kept.
  abbrev pub IsIdle : State F → Type 0
  IsIdle s = (s.timeouts ≡ []) × (s.intervals ≡ [])

  abbrev pub is_idle : State F → Bool
  is_idle s = is_empty_hash s.intervals && is_empty_hash s.timeouts

  -- A `quit` that may come last ends the process where no other did before.
  quit_last :
      (b : Bool) (n : ℕ) (s t : State F) (after : State F → Ended F)
      → t.trace ≡ s.trace
      → unless_quit
          (first_quit (if b then emit (quit n) t else s).trace)
          (after (if b then emit (quit n) t else s))
        ≡ unless_quit (first_quit s.trace) (if b then exits n else after s)
  unfolding first_quit
  quit_last false n s t after same = refl
  quit_last true n s t after same = elim (Option-cases (first_quit s.trace)) [
    | inl none_before ↦ rw (same, none_before) refl
    | inr (m, before) ↦ rw (same, before) refl
  ]

  pub unless_quit-quit_if_done :
      (s : State F) (after : State F → Ended F)
      → unless_quit (first_quit (quit_if_done s).trace) (after (quit_if_done s))
        ≡ unless_quit (first_quit s.trace) (if is_idle s then exits 0 else after s)
  unless_quit-quit_if_done s after = quit_last (is_idle s) 0 s s after refl

  pub unless_quit-exception_check :
      (s : State F) (after : Ended F)
      → unless_quit (first_quit (exception_check s).trace) after
        ≡ unless_quit (first_quit s.trace) (if s.has_exception then exits 1 else after)
  unfolding exception_check
  unless_quit-exception_check s after =
      quit_last s.has_exception 1 s (record s { has_exception = false }) (λ t. after) refl

  pub checked_again : (s : State F) → s.has_exception ≡ false → exception_check s ≡ s
  unfolding exception_check
  checked_again s clear =
      ap (λ b. if b then emit (quit 1) (record s { has_exception = false }) else s) clear

  pub exception_check-is_idle : (s : State F) → is_idle (exception_check s) ≡ is_idle s
  unfolding exception_check
  exception_check-is_idle s = go s.has_exception
    where
      go :
          (b : Bool)
          → is_idle (if b then emit (quit 1) (record s { has_exception = false }) else s)
            ≡ is_idle s
      go true = refl
      go false = refl

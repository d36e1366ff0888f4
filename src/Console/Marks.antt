-- ===== src/Console/Marks.antt =====
-- The labels of console.time and console.timeEnd in src/nodeqml/modules/console.cpp.
use node_qml.Prelude.{
  ℕ, ◌≡◌, ◌↔◌, refl, ap, ◌∙◌, true, false, Option, none, some, List, [], ◌∷◌, if◌then◌else◌, ℤ,
  ◌-ℤ◌, find, subst, find-insert-any, arith,
}
use node_qml.Memory.{error_with}
use node_qml.Host.{V4, argument}
use node_qml.Util.Format.{Regex}
use node_qml.Console.{
  Objects, State, Answer, returned, thrown, state_of, key_eq, key_of, write_line, time_line,
  no_label_line, method_log, method_error, method_time, end_time, method_time_end, method_dir,
  method_trace, method_assert,
}

pub key_eq_iff : (a b : Option ℕ) → (key_eq a b ≡ true) ↔ (a ≡ b)
key_eq_iff none none = (λ e. refl, λ e. refl)
key_eq_iff none (some b) = (λ e. absurd (ground arith), λ e. absurd (ground arith))
key_eq_iff (some a) none = (λ e. absurd (ground arith), λ e. absurd (ground arith))
key_eq_iff (some a) (some b) = (λ e. ground arith, λ e. ground arith)

-- A call of the console, with the time at which it is made where it looks at that.
pub data Call (v4 : V4) : Type 0 where
  log_call error_call : List v4.Value → Call v4
  time_call time_end_call : ℤ → List v4.Value → Call v4
  dir_call trace_call assert_call : Call v4

module _ (v4 : V4) (regex : Regex) (objects : Objects v4) where
  -- The function that a call runs.
  abbrev pub answer : Call v4 → State → Answer
  answer (log_call args) s = method_log v4 regex args s
  answer (error_call args) s = method_error v4 regex args s
  answer (time_call now args) s = method_time v4 objects now args s
  answer (time_end_call now args) s = method_time_end v4 objects now args s
  answer dir_call s = method_dir s
  answer trace_call s = method_trace s
  answer assert_call s = method_assert s

  -- Calls one after the other, the last one first in the list.
  abbrev pub run : List (Call v4) → State → State
  run [] s = s
  run (c ∷ cs) s = state_of (answer c (run cs s))

  -- When `time` was last called with a key.
  abbrev pub last_time : List (Call v4) → Option ℕ → Option ℤ
  last_time [] key = none
  last_time (c ∷ cs) key =
      let rest = last_time cs key in
      elim c [
        | time_call now args ↦ if key_eq (key_of v4 objects args) key then some now else rest
        | time_end_call now args ↦ rest
        | log_call args ↦ rest
        | error_call args ↦ rest
        | dir_call ↦ rest
        | trace_call ↦ rest
        | assert_call ↦ rest
      ]

  state_of-time_end :
      (now : ℤ) (args : List v4.Value) (s : State) (o : Option ℤ)
      → (state_of (end_time v4 objects now args s o)).time_marks ≡ s.time_marks
  state_of-time_end now args s none = refl
  state_of-time_end now args s (some t) = refl

  run-last_time :
      (cs : List (Call v4)) (s : State) (key : Option ℕ)
      → s.time_marks ≡ []
      → find key_eq (run cs s).time_marks key ≡ last_time cs key
  unfolding method_log method_error method_time method_time_end method_dir method_trace
      method_assert
  run-last_time [] s key e = rw e refl
  run-last_time (log_call args ∷ cs) s key e = run-last_time cs s key e
  run-last_time (error_call args ∷ cs) s key e = run-last_time cs s key e
  run-last_time (time_call now args ∷ cs) s key e =
      rw
        (
          find-insert-any key_eq key_eq_iff (run cs s).time_marks (key_of v4 objects args) key now,
          run-last_time cs s key e,
        )
        refl
  run-last_time (time_end_call now args ∷ cs) s key e =
      ap (λ t. find key_eq t key)
        (state_of-time_end now args (run cs s)
          (find key_eq (run cs s).time_marks (key_of v4 objects args)))
      ∙ run-last_time cs s key e
  run-last_time (dir_call ∷ cs) s key e = run-last_time cs s key e
  run-last_time (trace_call ∷ cs) s key e = run-last_time cs s key e
  run-last_time (assert_call ∷ cs) s key e = run-last_time cs s key e

  -- What timeEnd does in a state, by when the time of its label was last taken.
  abbrev pub EndsTime : ℤ → List v4.Value → State → Option ℤ → Type 0
  EndsTime now args s none =
      let label = objects.label_of (key_of v4 objects args) in
      method_time_end v4 objects now args s
      ≡ thrown (error_with "No such label: %1" label) (write_line (no_label_line label) s)
  EndsTime now args s (some start) =
      method_time_end v4 objects now args s
      ≡ returned (write_line (time_line (v4.to_qstring (argument v4 args 0)) (now -ℤ start)) s)

  end_time-EndsTime :
      (now : ℤ) (args : List v4.Value) (s : State) (o : Option ℤ)
      → find key_eq s.time_marks (key_of v4 objects args) ≡ o
      → EndsTime now args s o
  unfolding method_time_end
  end_time-EndsTime now args s none e = rw e refl
  end_time-EndsTime now args s (some t) e = rw e refl

  -- After any calls of a new console, timeEnd writes the time since the last call of `time` with
  -- the same key, and throws where there was none. The calls in between, those of timeEnd with the
  -- same label too, change nothing of that.
  pub run-EndsTime :
      (cs : List (Call v4)) (s : State) (now : ℤ) (args : List v4.Value)
      → s.time_marks ≡ []
      → EndsTime now args (run cs s) (last_time cs (key_of v4 objects args))
  run-EndsTime cs s now args e =
      end_time-EndsTime now args (run cs s) (last_time cs (key_of v4 objects args))
        (run-last_time cs s (key_of v4 objects args) e)

  -- Labels that are no objects, as strings are, all are the same label: timeEnd of the one writes
  -- the time since `time` of the other.
  time_end_shares :
      (a b : v4.Value) (s : State) (start again now : ℤ)
      → v4.is_object a ≡ false
      → v4.is_object b ≡ false
      → s.time_marks ≡ []
      → EndsTime now
          (a ∷ [])
          (run (time_call again (b ∷ []) ∷ time_call start (a ∷ []) ∷ []) s)
          (some again)
  time_end_shares a b s start again now no_a no_b e =
      let cs = time_call again (b ∷ []) ∷ time_call start (a ∷ []) ∷ [] in
      let shared : last_time cs (objects.as_object a) ≡ some again =
        rw (objects.as_object_lem a no_a, objects.as_object_lem b no_b) refl in
      subst (EndsTime now (a ∷ []) (run cs s)) shared (run-EndsTime cs s now (a ∷ []) e)

-- ===== src/Console.antt =====
-- src/nodeqml/modules/console.cpp: the object `console`.
pub mod Marks
pub mod Names
use node_qml.Prelude.{
  ℕ, ◌≡◌, Bool, true, false, Option, none, some, List, [], ◌∷◌, ◌==◌, if◌then◌else◌, ℤ, ◌-ℤ◌, find,
  insert, codes, ◌++◌, String,
}
use node_qml.Memory.{QString, Error, error, error_with}
use node_qml.Host.{V4, argument}
use node_qml.Util.Format.{Regex, method_format}

-- ScopedObject: the object that a value is, by its address; no value that is not an object is one.
-- `label_of` is toQStringNoThrow of what the ScopedObject holds.
pub record Objects (v4 : V4) : Type 0 where
  pub as_object : v4.Value → Option ℕ
  pub label_of : Option ℕ → QString
  pub as_object_lem : (v : v4.Value) → v4.is_object v ≡ false → as_object v ≡ none

-- What the console writes: a line to a stream, or a message of qDebug with a label and a number
-- of milliseconds, or with a label that is missing.
pub data Written : Type 0 where
  stdout_line stderr_line : QString → Written
  time_line : QString → ℤ → Written
  no_label_line : QString → Written

-- A ConsoleModule: `timeMarks`, with the values under which ScopedObjects are kept, and what was
-- written, the last line first.
pub record State : Type 0 where
  pub time_marks : List (Option ℕ × ℤ)
  pub written : List Written

-- How a function ends: it returns undefined, or throws.
pub data Answer : Type 0 where
  returned : State → Answer
  thrown : Error → State → Answer

abbrev pub state_of : Answer → State
state_of (returned s) = s
state_of (thrown e s) = s

abbrev pub key_eq : Option ℕ → Option ℕ → Bool
key_eq none none = true
key_eq (some a) (some b) = a == b
key_eq none (some b) = false
key_eq (some a) none = false

abbrev pub write_line : Written → State → State
write_line line s = record s { written = line ∷ s.written }

abbrev unimplemented : String → State → Answer
unimplemented name s = thrown (error name) s

module _ (v4 : V4) where
  -- ConsoleModule::method_log
  unfoldable pub method_log : Regex → List v4.Value → State → Answer
  unfolding method_format
  method_log regex args s = returned (write_line (stdout_line (method_format v4 regex args)) s)

  -- ConsoleModule::method_error
  unfoldable pub method_error : Regex → List v4.Value → State → Answer
  unfolding method_format
  method_error regex args s = returned (write_line (stderr_line (method_format v4 regex args)) s)

  module _ (objects : Objects v4) where
    abbrev pub key_of : List v4.Value → Option ℕ
    key_of args = objects.as_object (argument v4 args 0)

    -- ConsoleModule::method_time, at the time `now`
    unfoldable pub method_time : ℤ → List v4.Value → State → Answer
    method_time now args s =
        returned (record s { time_marks = insert key_eq s.time_marks (key_of args) now })

    -- The rest of timeEnd, by what is marked under its key.
    abbrev pub end_time : ℤ → List v4.Value → State → Option ℤ → Answer
    end_time now args s none =
        let label = objects.label_of (key_of args) in
        thrown (error_with "No such label: %1" label) (write_line (no_label_line label) s)
    end_time now args s (some start) =
        returned (write_line (time_line (v4.to_qstring (argument v4 args 0)) (now -ℤ start)) s)

    -- ConsoleModule::method_timeEnd, at the time `now`
    unfoldable pub method_time_end : ℤ → List v4.Value → State → Answer
    method_time_end now args s = end_time now args s (find key_eq s.time_marks (key_of args))

-- ConsoleModule::method_dir, method_trace and method_assert: throwUnimplemented.
unfoldable pub method_dir : State → Answer
method_dir s = unimplemented "console.dir()" s

unfoldable pub method_trace : State → Answer
method_trace s = unimplemented "console.trace()" s

unfoldable pub method_assert : State → Answer
method_assert s = unimplemented "console.assert()" s

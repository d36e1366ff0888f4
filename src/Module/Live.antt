-- ===== src/Module/Live.antt =====
-- What `require` of src/nodeqml/moduleobject.cpp and of src/nodeqml/engine.cpp does to the timers of
-- the engine.
use node_qml.Prelude.{
  ◌&&◌, not, ℕ, zero, suc, ◌≡◌, refl, true, Option, none, some, [], ◌∷◌, text_eq, codes, find,
  Bool-cases, Option-cases, inl, inr,
}
use node_qml.Memory.{Bytes, QString}
use node_qml.Host.{V4}
use node_qml.Engine.{State, Answer, state_of, Module}
use node_qml.Engine.Events.{exception_check}
use node_qml.Engine.Live.{IsLive}
use node_qml.Engine.Timers.{exception_check-IsLive}
use node_qml.Module.{
  Files, Scripts, Globals, Ran, finished, aborted, unending, and_then, put_module, cache_module,
  parent_path, resolve_module,
}
use node_qml.Module.Load.{
  check_run, new_module, globals_of, parse, compile_file, compile, load_json, load, mark_loaded,
}
use node_qml.Module.Require.{keep_module, require_file, require_found, require_name, require}

module _ {F : Type 0} where
  -- IsLive looks at the callbacks and the trace only.
  abbrev pub SameTimers : State F → State F → Type 0
  SameTimers s t = (t.timeouts ≡ s.timeouts) × (t.intervals ≡ s.intervals) × (t.trace ≡ s.trace)

  pub SameTimers-IsLive : (s t : State F) → SameTimers s t → IsLive s → IsLive t
  SameTimers-IsLive s t (a, b, c) live = record {
    kept = λ j. rw (a, b, c) (live.kept j);
    apart = λ j. rw (a, b) (live.apart j);
  }

  -- A run that ends ends with the timers and the callbacks in step.
  abbrev pub EndsLive : {X : Type 0} → (X → State F) → Ran X → Type 0
  EndsLive state (finished x) = IsLive (state x)
  EndsLive state aborted = Unit
  EndsLive state unending = Unit

  pub and_then-EndsLive :
      {X Y : Type 0} (f : X → State F) (g : Y → State F) (r : Ran X) (k : X → Ran Y)
      → EndsLive f r
      → ((x : X) → IsLive (f x) → EndsLive g (k x))
      → EndsLive g (and_then r k)
  and_then-EndsLive f g (finished x) k live next = next x live
  and_then-EndsLive f g aborted k live next = tt
  and_then-EndsLive f g unending k live next = tt

-- Scripts keep the timers and the callbacks in step, where the `require` that they get does.
pub record KeepsLive (v4 : V4) (scripts : Scripts v4.Value) : Type 0 where
  pub run_live :
      (require : QString → State v4.Value → Ran (Answer v4.Value v4.Value))
      (globals : Globals v4.Value) (source : Bytes) (s : State v4.Value)
      → ((path : QString) (t : State v4.Value) → IsLive t → EndsLive state_of (require path t))
      → IsLive s
      → EndsLive (λ t. t) (scripts.run require globals source s)

module _ (v4 : V4) (files : Files v4.Value) (scripts : Scripts v4.Value)
    (keeps : KeepsLive v4 scripts) where
  made-IsLive :
      (id : QString) (parent : Option ℕ) (s : State v4.Value)
      → IsLive s
      → IsLive (new_module files scripts id parent s).1
  unfolding new_module
  made-IsLive id none s live =
      SameTimers-IsLive s (new_module files scripts id none s).1 (refl, refl, refl) live
  made-IsLive id (some p) s live =
      SameTimers-IsLive s (new_module files scripts id (some p) s).1 (refl, refl, refl) live

  parse-IsLive :
      (source : Bytes) (s : State v4.Value) → IsLive s → IsLive (parse files scripts source s)
  parse-IsLive source s live = elim (Bool-cases (scripts.has_syntax_error source)) [
    | inl e ↦ rw e (SameTimers-IsLive s (record s { has_exception = true }) (refl, refl, refl) live)
    | inr e ↦ rw e live
  ]

  check_run_live : (t : State v4.Value) → IsLive t → EndsLive (λ u. u) (check_run files scripts t)
  check_run_live t live =
      elim (Bool-cases (t.has_exception && not (scripts.exception_is_object t))) [
        | inl bad ↦ rw bad tt
        | inr good ↦ rw good (exception_check-IsLive v4 t live)
      ]

  -- A `require` that keeps the timers and the callbacks in step, as scripts get it.
  KeepsIn : (QString → State v4.Value → Ran (Answer v4.Value v4.Value)) → Type 0
  KeepsIn require =
      (path : QString) (t : State v4.Value) → IsLive t → EndsLive state_of (require path t)

  compile_live :
      (require : QString → State v4.Value → Ran (Answer v4.Value v4.Value)) (a : ℕ)
      (s : State v4.Value) (o : Option Bytes)
      → KeepsIn require
      → IsLive s
      → EndsLive (λ t. t) (compile_file files scripts require a s o)
  unfolding KeepsIn
  compile_live require a s none keep live =
      SameTimers-IsLive s (record s { has_exception = true }) (refl, refl, refl) live
  compile_live require a s (some source) keep live =
      and_then-EndsLive (λ t. t) (λ t. t)
        (scripts.run require (globals_of files scripts a s) source
          (exception_check (parse files scripts source s)))
        (check_run files scripts)
        (keeps.run_live require (globals_of files scripts a s) source
          (exception_check (parse files scripts source s)) keep
          (exception_check-IsLive v4 (parse files scripts source s) (parse-IsLive source s live)))
        check_run_live

  json-IsLive : (a : ℕ) (s : State v4.Value) → IsLive s → IsLive (load_json files scripts a s)
  json-IsLive a s live = elim (Option-cases (files.read (s.objects a).filename)) [
    | inl no_file ↦
        rw (load_json, no_file)
          (SameTimers-IsLive s (record s { has_exception = true }) (refl, refl, refl) live)
    | inr (source, read) ↦ elim (Option-cases (files.from_json source)) [
      | inl no_json ↦
          rw (load_json, read, no_json)
            (SameTimers-IsLive s (record s { has_exception = true }) (refl, refl, refl) live)
      | inr (o, json) ↦
          rw (load_json, read, json)
            (SameTimers-IsLive s
              (mark_loaded files scripts a (put_module s a (record (s.objects a) { exports = o })))
              (refl, refl, refl) live)
    ]
  ]

  named-IsLive :
      (a : ℕ) (m : Module v4.Value) (s : State v4.Value) → IsLive s → IsLive (put_module s a m)
  named-IsLive a m s live = SameTimers-IsLive s (put_module s a m) (refl, refl, refl) live

  load_live :
      (require : QString → State v4.Value → Ran (Answer v4.Value v4.Value)) (a : ℕ) (path : QString)
      (s : State v4.Value)
      → KeepsIn require
      → IsLive s
      → EndsLive (λ t. t) (load files scripts require a path s)
  unfolding load compile
  load_live require a path s keep live =
      let m : Module v4.Value = record (s.objects a) {
        filename = path;
        dirname = files.absolute_path path;
      } in
      let named = put_module s a m in
      elim (Bool-cases (text_eq (files.suffix path) (codes "js"))) [
        | inl is_js ↦ rw is_js (
            and_then-EndsLive (λ t. t) (λ t. t) (compile files scripts require a named)
              (λ t. finished (mark_loaded files scripts a t))
              (compile_live require a named (files.read (named.objects a).filename) keep
                (named-IsLive a m s live))
              (λ t l. SameTimers-IsLive t (mark_loaded files scripts a t) (refl, refl, refl) l))
        | inr no_js ↦ elim (Bool-cases (text_eq (files.suffix path) (codes "json"))) [
          | inl is_json ↦ rw (no_js, is_json) (json-IsLive a named (named-IsLive a m s live))
          | inr no_json ↦ rw (no_js, no_json) tt
        ]
      ]

  KeepsAgain : (QString → Option ℕ → State v4.Value → Ran (Answer v4.Value v4.Value)) → Type 0
  KeepsAgain again =
      (path : QString) (parent : Option ℕ) (t : State v4.Value)
      → IsLive t
      → EndsLive state_of (again path parent t)

  file_live :
      (again : QString → Option ℕ → State v4.Value → Ran (Answer v4.Value v4.Value))
      (filename : QString) (parent : Option ℕ) (s : State v4.Value) (o : Option ℕ)
      → KeepsAgain again
      → IsLive s
      → EndsLive state_of (require_file files scripts again filename parent s o)
  unfolding KeepsAgain KeepsIn
  file_live again filename parent s (some a) keep live = live
  file_live again filename parent s none keep live =
      let made = new_module files scripts filename parent s in
      and_then-EndsLive (λ t. t) state_of
        (load files scripts (λ path. again path (some made.0)) made.0 filename made.1)
        (λ t. finished (keep_module files scripts filename made.0 t))
        (load_live (λ path. again path (some made.0)) made.0 filename made.1
          (λ path t l. keep path (some made.0) t l) (made-IsLive filename parent s live))
        (λ t l.
          SameTimers-IsLive (exception_check t) (cache_module (exception_check t) filename made.0)
            (refl, refl, refl) (exception_check-IsLive v4 t l))

  found_live :
      (again : QString → Option ℕ → State v4.Value → Ran (Answer v4.Value v4.Value))
      (path filename : QString) (parent : Option ℕ) (s : State v4.Value)
      → KeepsAgain again
      → IsLive s
      → EndsLive state_of (require_found files scripts again path filename parent s)
  found_live again path [] parent s keep live =
      SameTimers-IsLive s (record s { has_exception = true }) (refl, refl, refl) live
  found_live again path (c ∷ rest) parent s keep live =
      file_live again (c ∷ rest) parent s (find text_eq s.cached_modules (c ∷ rest)) keep live

  name_live :
      (again : QString → Option ℕ → State v4.Value → Ran (Answer v4.Value v4.Value))
      (path : QString) (parent : Option ℕ) (s : State v4.Value) (o : Option v4.Value)
      → KeepsAgain again
      → IsLive s
      → EndsLive state_of (require_name files scripts again path parent s o)
  name_live again path parent s (some x) keep live = live
  name_live again path parent s none keep live =
      found_live again path (resolve_module files path (parent_path s parent)) parent s keep live

  pub require_live :
      (fuel : ℕ) (path : QString) (parent : Option ℕ) (s : State v4.Value)
      → IsLive s
      → EndsLive state_of (require files scripts fuel path parent s)
  unfolding require KeepsAgain
  require_live zero path parent s live = tt
  require_live (suc fuel) path parent s live =
      name_live (require files scripts fuel) path parent s (find text_eq s.core_modules path)
        (λ p q t l. require_live fuel p q t l) live

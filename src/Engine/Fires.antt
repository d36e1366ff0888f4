-- ===== src/Engine/Fires.antt =====
-- When the timers of an EnginePrivate of src/nodeqml/engine.cpp fire, and when the program ends.
use node_qml.Prelude.{
  ◌≡◌, ◌⊎◌, refl, true, false, Option, none, some, List, [], ◌∷◌, arith, ℤ, eq_ℤ, eq_ℤ_iff, has_key,
  is_empty_hash, has_key-none, Bool-cases, inl, inr,
}
use node_qml.Host.{V4}
use node_qml.Engine.{State, Loop, emit, function_called, quit}
use node_qml.Engine.Events.{quit_if_done, take_timer, call_function, done_check, timer_event}
use node_qml.Engine.Steps.{
  is_running, Step, take_step, call_step, done_step, Many, done, more, Many-trans, Many-keeps,
}
use node_qml.Engine.Live.{IsLive, Taken, none_taken, take_timer-Taken}
use node_qml.Engine.Timers.{Step-IsLive}

module _ {F : Type 0} where
  -- A new EnginePrivate: no timer, no callback, no call.
  pub record IsFresh (s : State F) : Type 0 where
    pub no_timeouts : s.timeouts ≡ []
    pub no_intervals : s.intervals ≡ []
    pub no_calls : s.trace ≡ []

  pub IsFresh-IsLive : (s : State F) → IsFresh s → IsLive s
  IsFresh-IsLive s fresh = record {
    kept = λ j. rw (fresh.no_timeouts, fresh.no_intervals, fresh.no_calls) refl;
    apart = λ j. rw (fresh.no_timeouts) refl;
  }

  first_key : (t : List (ℤ × F)) → is_empty_hash t ≡ false → (j : ℤ) × (has_key eq_ℤ t j ≡ true)
  first_key [] e = absurd (ground arith)
  first_key ((k, v) ∷ t) e = (k, rw ((eq_ℤ_iff k k).1 refl) refl)

  pub no_key : (t : List (ℤ × F)) (j : ℤ) → is_empty_hash t ≡ true → has_key eq_ℤ t j ≡ false
  no_key [] j e = refl
  no_key (x ∷ t) j e = absurd (ground arith)

  -- Where doneCheck ends the program, and where it does not.
  abbrev pub QuitsWhenIdle : State F → Type 0
  QuitsWhenIdle s =
      ((quit_if_done s ≡ emit (quit 0) s) × ((j : ℤ) → is_running s.trace j ≡ false))
      ⊎ ((quit_if_done s ≡ s) × (j : ℤ) × (is_running s.trace j ≡ true))

  pub quits : (s : State F) → IsLive s → QuitsWhenIdle s
  quits s live = elim (Bool-cases (is_empty_hash s.intervals)) [
    | inl no_intervals ↦ elim (Bool-cases (is_empty_hash s.timeouts)) [
      | inl no_timeouts ↦ inl (
        rw (no_intervals, no_timeouts) refl,
        λ j.
            rw (live.kept j, no_key s.timeouts j no_timeouts, no_key s.intervals j no_intervals)
              refl,
      )
      | inr waits ↦
          let k = first_key s.timeouts waits in
          inr (rw (no_intervals, waits) refl, k.0, rw (live.kept k.0, k.1) refl)
    ]
    | inr waits ↦
        let k = first_key s.intervals waits in
        inr (rw waits refl, k.0, rw (live.kept k.0, k.1) (ground arith))
  ]

-- After any steps of a new engine that never call clearInterval with the id of a timeout, doneCheck ends the program exactly
-- when Qt runs no timer of the engine any more.
Many-QuitsWhenIdle :
    (v4 : V4) (s t : State v4.Value) → IsFresh s → Many (Step v4) s t → QuitsWhenIdle t
Many-QuitsWhenIdle v4 s t fresh steps =
    quits t (Many-keeps (λ u. IsLive u) (Step-IsLive v4) s t steps (IsFresh-IsLive s fresh))

-- The code that the engine enters does only what the engine's operations allow.
pub record KeepsSteps (v4 : V4) (loop : Loop v4.Value) : Type 0 where
  pub call_steps : (cb : v4.Value) (s : State v4.Value) → Many (Step v4) s (loop.call cb s)
  pub event_steps : (s : State v4.Value) → Many (Step v4) s (loop.process_events s)

module _ (v4 : V4) (loop : Loop v4.Value) (keeps : KeepsSteps v4 loop) where
  call-Many : (cb : v4.Value) (s : State v4.Value) → Many (Step v4) s (call_function loop cb s)
  call-Many cb s =
      more s (emit (function_called cb) s) (call_function loop cb s) (call_step cb s)
        (keeps.call_steps cb (emit (function_called cb) s))

  done_check-Many : (s : State v4.Value) → Many (Step v4) s (done_check loop s)
  unfolding done_check
  done_check-Many s =
      Many-trans s (loop.process_events s) (quit_if_done (loop.process_events s))
        (keeps.event_steps s)
        (more (loop.process_events s) (quit_if_done (loop.process_events s))
          (quit_if_done (loop.process_events s)) (done_step (loop.process_events s))
          (done (quit_if_done (loop.process_events s))))

  event-Many :
      (id : ℤ) (s : State v4.Value) (o : Option (v4.Value × State v4.Value))
      → is_running s.trace id ≡ true
      → IsLive s
      → Taken id s o
      → take_timer id s ≡ o
      → (cb : v4.Value) × (t : State v4.Value) × Taken id s (some (cb, t))
        × (timer_event loop id s ≡ done_check loop (call_function loop cb t))
        × Many (Step v4) s (timer_event loop id s)
  unfolding timer_event
  event-Many id s none running live (none_taken a b) e = absurd (
      ground (
        arith,
        live.kept id,
        has_key-none eq_ℤ eq_ℤ_iff s.timeouts id a,
        has_key-none eq_ℤ eq_ℤ_iff s.intervals id b,
      ))
  event-Many id s (some (cb, t)) running live taken e = (
    cb,
    t,
    taken,
    rw e refl,
    rw e (
        more s t (done_check loop (call_function loop cb t)) (take_step id cb s t running e) (
          Many-trans t (call_function loop cb t) (done_check loop (call_function loop cb t))
            (call-Many cb t) (done_check-Many (call_function loop cb t)))),
  )

  -- A timer that fires calls the callback that the engine keeps for it and then looks whether the
  -- program is done. The callback of a timeout is dropped and its timer stopped before the call,
  -- the one of an interval stays. All of it is steps that the engine allows, where the code that it
  -- enters does no others.
  pub timer_event-Fires :
      (id : ℤ) (s : State v4.Value)
      → is_running s.trace id ≡ true
      → IsLive s
      → (cb : v4.Value) × (t : State v4.Value) × Taken id s (some (cb, t))
        × (timer_event loop id s ≡ done_check loop (call_function loop cb t))
        × Many (Step v4) s (timer_event loop id s)
  timer_event-Fires id s running live =
      event-Many id s (take_timer id s) running live (take_timer-Taken id s) refl

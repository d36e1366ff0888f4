-- ===== src/Engine/Clears.antt =====
-- What becomes of a timer of an EnginePrivate of src/nodeqml/engine.cpp: it is set and
-- cleared.
use node_qml.Prelude.{
  ◌≡◌, ◌⊎◌, refl, ap, true, false, some, List, arith, length, ltb, ℤ, eq_ℤ, eq_ℤ_iff, find, has_key,
  insert, remove, is_empty_hash, has_key-remove, find-has_key, has_key-none, find-insert,
  Bool-cases, Option-cases, inl, inr,
}
use node_qml.Memory.{Error}
use node_qml.Host.{V4, argument}
use node_qml.Engine.{
  State, returned, thrown, emit, timer_started, timer_killed, put_timeout, timeout_complaints,
  set_timeout, clear_timeout, clear_interval,
}
use node_qml.Engine.Events.{quit_if_done, take_timer, take_callback, drop_timeout}
use node_qml.Engine.Steps.{is_running}
use node_qml.Engine.Live.{IsLive}
use node_qml.Engine.Timers.{set_timer-cases}
use node_qml.Engine.Fires.{no_key}

module _ {F : Type 0} where
  stays :
      (s : State F) (id : ℤ)
      → has_key eq_ℤ s.intervals id ≡ true
      → has_key eq_ℤ s.timeouts id ≡ false
      → (cb : F) × (take_timer id s ≡ some (cb, s))
  stays s id held alone = elim (Option-cases (find eq_ℤ s.timeouts id)) [
    | inr (cb, e) ↦ absurd (ground (arith, find-has_key eq_ℤ eq_ℤ_iff s.timeouts id cb e))
    | inl a ↦ elim (Option-cases (find eq_ℤ s.intervals id)) [
      | inl b ↦ absurd (ground (arith, has_key-none eq_ℤ eq_ℤ_iff s.intervals id b))
      | inr (cb, b) ↦ (cb, rw (a, b) refl)
    ]
  ]

  waits_on :
      (s : State F) (id : ℤ)
      → has_key eq_ℤ s.timeouts id ≡ true
      → quit_if_done (record (emit (timer_killed id) s) { intervals = remove eq_ℤ s.intervals id })
        ≡ record (emit (timer_killed id) s) { intervals = remove eq_ℤ s.intervals id }
  waits_on s id kept = elim (Bool-cases (is_empty_hash s.timeouts)) [
    | inl e ↦ absurd (ground (arith, no_key s.timeouts id e))
    | inr e ↦ rw e (ground arith)
  ]

module _ (v4 : V4) where
  -- A timeout that was set: its timer runs, takes just its callback, and after that or after
  -- clearTimeout with its id no timer and no callback of that id is left.
  abbrev pub RunsOnce : State v4.Value → ℤ → v4.Value → List v4.Value → Type 0
  RunsOnce s id cb clear_args =
      (is_running s.trace id ≡ true)
      × (take_timer id s ≡ some (cb, drop_timeout s id))
      × (is_running (drop_timeout s id).trace id ≡ false)
      × (has_key eq_ℤ (drop_timeout s id).timeouts id ≡ false)
      × (clear_timeout v4 clear_args s ≡ returned tt (drop_timeout s id))

  timeout-RunsOnce :
      (s : State v4.Value) (id d : ℤ) (cb : v4.Value) (clear_args : List v4.Value)
      → ltb (length clear_args) 1 ≡ false
      → v4.is_number (argument v4 clear_args 0) ≡ true
      → v4.to_int32 (argument v4 clear_args 0) ≡ id
      → RunsOnce (put_timeout (emit (timer_started id d) s) id cb) id cb clear_args
  unfolding clear_timeout
  timeout-RunsOnce s id d cb clear_args enough number is_id =
      let same : eq_ℤ id id ≡ true = (eq_ℤ_iff id id).1 refl in
      (
        rw same refl,
        ap
            (λ o.
              take_callback id (put_timeout (emit (timer_started id d) s) id cb) o
                (find eq_ℤ s.intervals id))
            (find-insert eq_ℤ eq_ℤ_iff s.timeouts id cb),
        rw same refl,
        rw (has_key-remove eq_ℤ eq_ℤ_iff (insert eq_ℤ s.timeouts id cb) id id, same) refl,
        rw (enough, number, is_id, same) refl,
      )

  -- Calling setTimeout: an error that sets no timer, or the id of a running timer whose callback is
  -- called at most once, and never after clearTimeout.
  pub set_timeout-RunsOnce :
      (args clear_args : List v4.Value) (id : ℤ) (s : State v4.Value)
      → ltb (length clear_args) 1 ≡ false
      → v4.is_number (argument v4 clear_args 0) ≡ true
      → v4.to_int32 (argument v4 clear_args 0) ≡ id
      → ((e : Error) × (set_timeout v4 args id s ≡ thrown e (record s { has_exception = true })))
        ⊎ ((cb : v4.Value) × (t : State v4.Value) × (v4.as_function (argument v4 args 0) ≡ some cb)
            × (set_timeout v4 args id s ≡ returned id t)
            × RunsOnce t id cb clear_args)
  unfolding set_timeout
  set_timeout-RunsOnce args clear_args id s enough number is_id =
      elim (set_timer-cases v4 timeout_complaints put_timeout args id s) [
        | inl e ↦ inl e
        | inr (cb, d, is_cb, e) ↦ inr (
          cb,
          put_timeout (emit (timer_started id d) s) id cb,
          is_cb,
          e,
          timeout-RunsOnce s id d cb clear_args enough number is_id,
        )
      ]

  -- The test of clearInterval is the wrong way round. With the id of an interval it changes
  -- nothing: the timer runs on and takes the same callback each time it fires. With the id of a
  -- timeout it stops the timer and leaves the callback, which then never runs, and doneCheck cannot
  -- end the program while it is there.
  pub clear_interval_inverted :
      (args : List v4.Value) (id : ℤ) (s : State v4.Value)
      → ltb (length args) 1 ≡ false
      → v4.is_number (argument v4 args 0) ≡ true
      → v4.to_int32 (argument v4 args 0) ≡ id
      → IsLive s
      → is_running s.trace id ≡ true
      → ((clear_interval v4 args s ≡ returned tt s)
          × (cb : v4.Value) × (take_timer id s ≡ some (cb, s)))
        ⊎ ((t : State v4.Value) × (clear_interval v4 args s ≡ returned tt t)
            × (is_running t.trace id ≡ false)
            × (has_key eq_ℤ t.timeouts id ≡ true)
            × (quit_if_done t ≡ t))
  unfolding clear_interval
  clear_interval_inverted args id s enough number is_id live running =
      elim (Bool-cases (has_key eq_ℤ s.intervals id)) [
        | inl held ↦
            let alone : has_key eq_ℤ s.timeouts id ≡ false = ground (arith, live.apart id) in
            inl (
              rw (enough, number, is_id, held) refl,
              (stays s id held alone).0,
              (stays s id held alone).1,
            )
        | inr other ↦
            let kept : has_key eq_ℤ s.timeouts id ≡ true = ground (arith, live.kept id) in
            inr (
              record (emit (timer_killed id) s) { intervals = remove eq_ℤ s.intervals id },
              rw (enough, number, is_id, other) refl,
              rw ((eq_ℤ_iff id id).1 refl) refl,
              kept,
              waits_on s id kept,
            )
      ]

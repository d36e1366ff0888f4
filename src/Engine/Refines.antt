-- ===== src/Engine/Refines.antt =====
-- The steps of an EnginePrivate of src/nodeqml/engine.cpp, on its map of timers.
use node_qml.Prelude.{
  ◌≡◌, ◌⊎◌, refl, true, false, not, ◌&&◌, Option, some, none, List, [], ◌∷◌, is_empty_hash, ℤ, pos,
  eq_ℤ, eq_ℤ_iff, find, has_key, find-has_key, has_key-none, Bool-cases, Option-cases, inl, inr,
  length, ltb, arith, if◌then◌else◌,
}
use node_qml.Memory.{Error}
use node_qml.Host.{V4, argument}
use node_qml.Engine.{
  State, Complaints, returned, thrown, state_of, emit, timer_started, delay_of, set_timer,
  put_timeout, put_interval, set_timeout, set_interval, clear_timeout, clear_interval, next_tick,
  timeout_complaints, interval_complaints,
}
use node_qml.Engine.Events.{quit_if_done, exception_check, take_timer}
use node_qml.Engine.Steps.{
  is_running, Step, set_timeout_step, set_interval_step, clear_timeout_step, clear_interval_step,
  next_tick_step, take_step, call_step, done_step, exception_step,
}
use node_qml.Engine.Live.{IsLive, take_timer-Taken}
use node_qml.Engine.Pending.{
  Kind, once, again, pending, put, drop, put_timeout_lem, put_interval_lem, drop_missing,
  drop_timeout_lem, remove_missing_lem, take_lem,
}

module _ (v4 : V4) where
  -- The callback of a timer that the arguments ask for, where Qt gave an id.
  abbrev pub asked : List v4.Value → ℤ → Option v4.Value
  asked [] id = none
  asked (f ∷ []) id = none
  asked (f ∷ delay ∷ _) id =
      if v4.is_number delay && not (eq_ℤ id (pos 0)) then v4.as_function f else none

  -- What clearTimeout does to a map of timers.
  abbrev pub cleared : List v4.Value → (ℤ → Option (Kind × v4.Value)) → ℤ → Option (Kind × v4.Value)
  cleared [] p j = p j
  cleared (v ∷ _) p j = if v4.is_number v then drop (v4.to_int32 v) p j else p j

  -- What each step does to a map of timers: setTimeout and setInterval start a timer of their kind,
  -- clearTimeout and the firing of a timer end one that runs once, and nothing else does anything.
  abbrev pub effect :
      (s t : State v4.Value)
      → Step v4 s t
      → (ℤ → Option (Kind × v4.Value))
      → ℤ
      → Option (Kind × v4.Value)
  effect _ _ (set_timeout_step args id s fresh) p j = put id once (asked args id) p j
  effect _ _ (set_interval_step args id s fresh) p j = put id again (asked args id) p j
  effect _ _ (clear_timeout_step args s) p j = cleared args p j
  effect _ _ (clear_interval_step args s no_timeout) p j = p j
  effect _ _ (next_tick_step args s) p j = p j
  effect _ _ (take_step id cb _ _ running e) p j = drop id p j
  effect _ _ (call_step cb s) p j = p j
  effect _ _ (done_step s) p j = p j
  effect _ _ (exception_step s) p j = p j

  set_timer-asked :
      (complaints : Complaints) (keep : State v4.Value → ℤ → v4.Value → State v4.Value)
      (args : List v4.Value) (id : ℤ) (s : State v4.Value)
      → ((asked args id ≡ none)
          × (e : Error) × (set_timer v4 complaints keep args id s
              ≡ thrown e (record s { has_exception = true })))
        ⊎ ((cb : v4.Value) × (d : ℤ) × (asked args id ≡ some cb)
            × (set_timer v4 complaints keep args id s
                ≡ returned id (keep (emit (timer_started id d) s) id cb)))
  set_timer-asked complaints keep [] id s = inl (refl, complaints.missing, refl)
  set_timer-asked complaints keep (f ∷ []) id s = inl (refl, complaints.missing, refl)
  set_timer-asked complaints keep (f ∷ delay ∷ args) id s =
      let enough : ltb (length (f ∷ delay ∷ args)) 2 ≡ false = ground arith in
      elim (Option-cases (v4.as_function f)) [
        | inl other ↦ inl (ground arith, complaints.callback, rw (enough, other) refl)
        | inr (cb, is_cb) ↦ elim (Bool-cases (v4.is_number delay)) [
          | inr not_number ↦
              inl (rw not_number refl, complaints.number, rw (enough, is_cb, not_number) refl)
          | inl number ↦ elim (Bool-cases (eq_ℤ id (pos 0))) [
            | inl zero_id ↦ inl (
              rw (number, zero_id) refl,
              complaints.failed,
              rw (enough, is_cb, number, zero_id) refl,
            )
            | inr an_id ↦ inr (
              cb,
              delay_of (v4.to_int32 delay),
              rw (number, an_id, is_cb) refl,
              rw (enough, is_cb, number, an_id) refl,
            )
          ]
        ]
      ]

  set_timeout-effect :
      (args : List v4.Value) (id : ℤ) (s : State v4.Value) (j : ℤ)
      → pending (state_of (set_timeout v4 args id s)) j ≡ put id once (asked args id) (pending s) j
  unfolding set_timeout
  set_timeout-effect args id s j = elim (set_timer-asked timeout_complaints put_timeout args id s) [
    | inl (asks, e, p) ↦ rw (p, asks) refl
    | inr (cb, d, asks, p) ↦ rw (p, asks) (put_timeout_lem s id d cb j)
  ]

  set_interval-effect :
      (args : List v4.Value) (id : ℤ) (s : State v4.Value)
      → is_running s.trace id ≡ false
      → IsLive s
      → (j : ℤ)
      → pending (state_of (set_interval v4 args id s)) j
        ≡ put id again (asked args id) (pending s) j
  unfolding set_interval
  set_interval-effect args id s fresh live j =
      elim (set_timer-asked interval_complaints put_interval args id s) [
        | inl (asks, e, p) ↦ rw (p, asks) refl
        | inr (cb, d, asks, p) ↦ rw (p, asks) (put_interval_lem s id d cb fresh live j)
      ]

  clear_timeout-effect :
      (args : List v4.Value) (s : State v4.Value)
      → IsLive s
      → (j : ℤ) → pending (state_of (clear_timeout v4 args s)) j ≡ cleared args (pending s) j
  unfolding clear_timeout
  clear_timeout-effect [] s live j = refl
  clear_timeout-effect (v ∷ args) s live j =
      let enough : ltb (length (v ∷ args)) 1 ≡ false = ground arith in
      elim (Bool-cases (v4.is_number v)) [
        | inr other ↦ rw (enough, other) refl
        | inl number ↦
            let id = v4.to_int32 v in
            elim (Option-cases (find eq_ℤ s.timeouts id)) [
              | inl e ↦
                  rw (enough, number, has_key-none eq_ℤ eq_ℤ_iff s.timeouts id e)
                    (drop_missing s id e j)
              | inr (cb, e) ↦
                  rw (enough, number, find-has_key eq_ℤ eq_ℤ_iff s.timeouts id cb e)
                    (drop_timeout_lem s id cb e live j)
            ]
      ]

  clear_interval_same :
      (args : List v4.Value) (s : State v4.Value) (j : ℤ)
      → pending (state_of (clear_interval v4 args s)) j ≡ pending s j
  unfolding clear_interval
  clear_interval_same args s j = elim (Bool-cases (ltb (length args) 1)) [
    | inl few ↦ rw few refl
    | inr enough ↦ elim (Bool-cases (v4.is_number (argument v4 args 0))) [
      | inr other ↦ rw (enough, other) refl
      | inl number ↦
          let id = v4.to_int32 (argument v4 args 0) in
          elim (Bool-cases (has_key eq_ℤ s.intervals id)) [
            | inl held ↦ rw (enough, number, held) refl
            | inr missing ↦ rw (enough, number, missing) (remove_missing_lem s id missing j)
          ]
    ]
  ]

  next_tick_same :
      (args : List v4.Value) (s : State v4.Value) (j : ℤ)
      → pending (state_of (next_tick v4 args s)) j ≡ pending s j
  unfolding next_tick
  next_tick_same [] s j = refl
  next_tick_same (f ∷ args) s j = elim (Option-cases (v4.as_function f)) [
    | inl other ↦ rw (other, state_of) refl
    | inr (cb, is_cb) ↦ rw (is_cb, state_of) refl
  ]

  quit_if_done_same : (s : State v4.Value) (j : ℤ) → pending (quit_if_done s) j ≡ pending s j
  quit_if_done_same s j =
      elim (Bool-cases (is_empty_hash s.intervals && is_empty_hash s.timeouts)) [
        | inl e ↦ rw e refl
        | inr e ↦ rw e refl
      ]

  exception_check_same : (s : State v4.Value) (j : ℤ) → pending (exception_check s) j ≡ pending s j
  unfolding exception_check
  exception_check_same s j = elim (Bool-cases s.has_exception) [
    | inl e ↦ rw e refl
    | inr e ↦ rw e refl
  ]

  -- The two hashes of callbacks are one map of timers, on which each step does just what its call
  -- is for: setTimeout starts one that runs once and setInterval one that repeats, under the id that
  -- Qt gave, with the function that is the first argument, where the second is a number and Qt gave
  -- an id; clearTimeout of a number ends a timeout of that id, and leaves an interval; a timer that
  -- fires is gone if it runs once, and stays if it repeats. Every other step leaves the map as it
  -- was, clearInterval too, which was not called with the id of a timeout. The timers and callbacks
  -- must be in step before it.
  pub pending-effect :
      (s t : State v4.Value) (step : Step v4 s t)
      → IsLive s
      → (j : ℤ) → pending t j ≡ effect s t step (pending s) j
  pending-effect _ _ (set_timeout_step args id s fresh) live j = set_timeout-effect args id s j
  pending-effect _ _ (set_interval_step args id s fresh) live j =
      set_interval-effect args id s fresh live j
  pending-effect _ _ (clear_timeout_step args s) live j = clear_timeout-effect args s live j
  pending-effect _ _ (clear_interval_step args s no_timeout) live j = clear_interval_same args s j
  pending-effect _ _ (next_tick_step args s) live j = next_tick_same args s j
  pending-effect s t (take_step id cb _ _ running e) live j =
      take_lem id s (take_timer id s) (take_timer-Taken id s) cb t e live j
  pending-effect _ _ (call_step cb s) live j = refl
  pending-effect _ _ (done_step s) live j = quit_if_done_same s j
  pending-effect _ _ (exception_step s) live j = exception_check_same s j

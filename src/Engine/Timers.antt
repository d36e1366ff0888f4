-- ===== src/Engine/Timers.antt =====
-- The timers that Qt runs and the callbacks that an EnginePrivate of src/nodeqml/engine.cpp keeps.
use node_qml.Prelude.{
  remove, ◌≡◌, ◌⊎◌, refl, true, false, ◌&&◌, some, List, [], ◌∷◌, arith, length, ltb, ℤ, pos, eq_ℤ,
  eq_ℤ_iff, has_key, is_empty_hash, has_key-remove, Bool-cases, Option-cases, inl, inr,
}
use node_qml.Memory.{Error}
use node_qml.Host.{V4, argument}
use node_qml.Engine.{
  timer_killed, State, returned, thrown, state_of, event_posted, timeout_complaints,
  interval_complaints, emit, timer_started, set_timer, Complaints, put_timeout, put_interval,
  delay_of, set_timeout, set_interval, clear_interval, clear_timeout, next_tick,
}
use node_qml.Engine.Events.{quit_if_done, exception_check, take_timer}
use node_qml.Engine.Steps.{
  is_running, Step, set_timeout_step, set_interval_step, clear_timeout_step, clear_interval_step,
  next_tick_step, take_step, call_step, done_step, exception_step,
}
use node_qml.Engine.Live.{
  IsLive, put_timeout-IsLive, put_interval-IsLive, drop_timeout-IsLive, take_timer-Taken,
  take-IsLive, raised-IsLive,
}

module _ (v4 : V4) where
  -- Setting a timer throws, or keeps the callback under the id that Qt gave.
  pub set_timer-cases :
      (complaints : Complaints) (put : State v4.Value → ℤ → v4.Value → State v4.Value)
      (args : List v4.Value) (id : ℤ) (s : State v4.Value)
      → ((e : Error) × (set_timer v4 complaints put args id s
            ≡ thrown e (record s { has_exception = true })))
        ⊎ ((cb : v4.Value) × (d : ℤ) × (v4.as_function (argument v4 args 0) ≡ some cb)
            × (set_timer v4 complaints put args id s
                ≡ returned id (put (emit (timer_started id d) s) id cb)))
  set_timer-cases complaints put args id s = elim (Bool-cases (ltb (length args) 2)) [
    | inl few ↦ inl (complaints.missing, rw few refl)
    | inr enough ↦ elim (Option-cases (v4.as_function (argument v4 args 0))) [
      | inl other ↦ inl (complaints.callback, rw (enough, other) refl)
      | inr (cb, is_cb) ↦ elim (Bool-cases (v4.is_number (argument v4 args 1))) [
        | inr not_number ↦ inl (complaints.number, rw (enough, is_cb, not_number) refl)
        | inl number ↦ elim (Bool-cases (eq_ℤ id (pos 0))) [
          | inl zero_id ↦ inl (complaints.failed, rw (enough, is_cb, number, zero_id) refl)
          | inr an_id ↦ inr (
            cb,
            delay_of (v4.to_int32 (argument v4 args 1)),
            is_cb,
            rw (enough, is_cb, number, an_id) refl,
          )
        ]
      ]
    ]
  ]

  set_timer-IsLive :
      (complaints : Complaints) (put : State v4.Value → ℤ → v4.Value → State v4.Value)
      → ((s : State v4.Value) (id d : ℤ) (cb : v4.Value)
          → is_running s.trace id ≡ false
          → IsLive s
          → IsLive (put (emit (timer_started id d) s) id cb))
      → (args : List v4.Value) (id : ℤ) (s : State v4.Value) → is_running s.trace id ≡ false
      → IsLive s
      → IsLive (state_of (set_timer v4 complaints put args id s))
  set_timer-IsLive complaints put keep args id s fresh live =
      elim (set_timer-cases complaints put args id s) [
        | inl (e, p) ↦ rw p (raised-IsLive s live)
        | inr (cb, d, _, p) ↦ rw p (keep s id d cb fresh live)
      ]

  clear_timeout-IsLive :
      (args : List v4.Value) (s : State v4.Value)
      → IsLive s
      → IsLive (state_of (clear_timeout v4 args s))
  unfolding clear_timeout
  clear_timeout-IsLive args s live = elim (Bool-cases (ltb (length args) 1)) [
    | inl few ↦ rw few (raised-IsLive s live)
    | inr enough ↦ elim (Bool-cases (v4.is_number (argument v4 args 0))) [
      | inr other ↦ rw (enough, other) (raised-IsLive s live)
      | inl number ↦
          elim (Bool-cases (has_key eq_ℤ s.timeouts (v4.to_int32 (argument v4 args 0)))) [
            | inr missing ↦ rw (enough, number, missing) live
            | inl has ↦
                rw (enough, number, has)
                  (drop_timeout-IsLive s (v4.to_int32 (argument v4 args 0)) has live)
          ]
    ]
  ]

  -- The id of a timer that does not run, killed and removed, is as if nothing had been done.
  killed-IsLive :
      (s : State v4.Value) (id : ℤ)
      → has_key eq_ℤ s.timeouts id ≡ false
      → has_key eq_ℤ s.intervals id ≡ false
      → IsLive s
      → IsLive (record (emit (timer_killed id) s) { intervals = remove eq_ℤ s.intervals id })
  killed-IsLive s id a b live = record {
    kept = λ j.
        rw (has_key-remove eq_ℤ eq_ℤ_iff s.intervals id j, live.kept j)
          (ground (arith, eq_ℤ_iff id j));
    apart = λ j. rw (has_key-remove eq_ℤ eq_ℤ_iff s.intervals id j) (ground (arith, live.apart j));
  }

  clear_interval-IsLive :
      (args : List v4.Value) (s : State v4.Value)
      → has_key eq_ℤ s.timeouts (v4.to_int32 (argument v4 args 0)) ≡ false
      → IsLive s
      → IsLive (state_of (clear_interval v4 args s))
  unfolding clear_interval
  clear_interval-IsLive args s no_timeout live = elim (Bool-cases (ltb (length args) 1)) [
    | inl few ↦ rw few (raised-IsLive s live)
    | inr enough ↦ elim (Bool-cases (v4.is_number (argument v4 args 0))) [
      | inr other ↦ rw (enough, other) (raised-IsLive s live)
      | inl number ↦
          elim (Bool-cases (has_key eq_ℤ s.intervals (v4.to_int32 (argument v4 args 0)))) [
            | inl held ↦ rw (enough, number, held) live
            | inr missing ↦
                rw (enough, number, missing)
                  (killed-IsLive s (v4.to_int32 (argument v4 args 0)) no_timeout missing live)
          ]
    ]
  ]

  emitted-IsLive : (f : v4.Value) (s : State v4.Value) → IsLive s → IsLive (emit (event_posted f) s)
  emitted-IsLive f s live = record { kept = live.kept; apart = live.apart }

  next_tick-IsLive :
      (args : List v4.Value) (s : State v4.Value)
      → IsLive s
      → IsLive (state_of (next_tick v4 args s))
  unfolding next_tick
  next_tick-IsLive [] s live = raised-IsLive s live
  next_tick-IsLive (f ∷ args) s live = elim (Option-cases (v4.as_function f)) [
    | inl other ↦ rw (other, state_of) (raised-IsLive s live)
    | inr (cb, is_cb) ↦ rw (is_cb, state_of) (emitted-IsLive cb s live)
  ]

  pub quit_if_done-IsLive : (s : State v4.Value) → IsLive s → IsLive (quit_if_done s)
  quit_if_done-IsLive s live =
      elim (Bool-cases (is_empty_hash s.intervals && is_empty_hash s.timeouts)) [
        | inl e ↦ rw e (record { kept = live.kept; apart = live.apart })
        | inr e ↦ rw e live
      ]

  pub exception_check-IsLive : (s : State v4.Value) → IsLive s → IsLive (exception_check s)
  unfolding exception_check
  exception_check-IsLive s live = elim (Bool-cases s.has_exception) [
    | inl e ↦ rw e (record { kept = live.kept; apart = live.apart })
    | inr e ↦ rw e (record { kept = live.kept; apart = live.apart })
  ]

  -- Every step keeps it true that the engine keeps a callback for an id, as a timeout or as an
  -- interval and never as both, exactly while Qt runs the timer of that id. A step gives a new timer
  -- an id that no running timer has, and does not call clearInterval with the id of a timeout.
  pub Step-IsLive : (s t : State v4.Value) → Step v4 s t → IsLive s → IsLive t
  unfolding set_timeout set_interval
  Step-IsLive _ _ (set_timeout_step args id s fresh) live =
      set_timer-IsLive timeout_complaints put_timeout put_timeout-IsLive args id s fresh live
  Step-IsLive _ _ (set_interval_step args id s fresh) live =
      set_timer-IsLive interval_complaints put_interval put_interval-IsLive args id s fresh live
  Step-IsLive _ _ (clear_timeout_step args s) live = clear_timeout-IsLive args s live
  Step-IsLive _ _ (clear_interval_step args s no_timeout) live =
      clear_interval-IsLive args s no_timeout live
  Step-IsLive _ _ (next_tick_step args s) live = next_tick-IsLive args s live
  Step-IsLive s t (take_step id cb _ _ running e) live =
      take-IsLive id s (take_timer id s) (take_timer-Taken id s) cb t e live
  Step-IsLive _ _ (call_step cb s) live = record { kept = live.kept; apart = live.apart }
  Step-IsLive _ _ (done_step s) live = quit_if_done-IsLive s live
  Step-IsLive _ _ (exception_step s) live = exception_check-IsLive s live

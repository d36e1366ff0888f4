-- ===== src/Engine/Live.antt =====
-- The timers that Qt runs and the callbacks that an EnginePrivate of src/nodeqml/engine.cpp keeps.
use node_qml.Prelude.{
  ◌≡◌, subst, true, false, ◌&&◌, ◌||◌, Option, none, some, arith, ℤ, eq_ℤ, eq_ℤ_iff, find, has_key,
  has_key-remove, find-has_key, Option-cases, inl, inr,
}
use node_qml.Engine.{State, emit, timer_started, put_timeout, put_interval}
use node_qml.Engine.Events.{take_timer, drop_timeout}
use node_qml.Engine.Steps.{is_running}

module _ {F : Type 0} where
  -- A callback is kept for an id as a timeout or as an interval, never as both, and exactly while
  -- Qt runs the timer.
  pub record IsLive (s : State F) : Type 0 where
    pub kept :
        (j : ℤ) → is_running s.trace j ≡ (has_key eq_ℤ s.timeouts j || has_key eq_ℤ s.intervals j)
    pub apart : (j : ℤ) → (has_key eq_ℤ s.timeouts j && has_key eq_ℤ s.intervals j) ≡ false

  pub put_timeout-IsLive :
      (s : State F) (id d : ℤ) (cb : F)
      → is_running s.trace id ≡ false
      → IsLive s
      → IsLive (put_timeout (emit (timer_started id d) s) id cb)
  put_timeout-IsLive s id d cb fresh live = record {
    kept = λ j.
        rw (has_key-remove eq_ℤ eq_ℤ_iff s.timeouts id j, live.kept j)
          (ground (arith, eq_ℤ_iff id j));
    apart = λ j.
        rw (has_key-remove eq_ℤ eq_ℤ_iff s.timeouts id j)
          (ground (arith, eq_ℤ_iff id j, live.apart j, live.kept id));
  }

  pub put_interval-IsLive :
      (s : State F) (id d : ℤ) (cb : F)
      → is_running s.trace id ≡ false
      → IsLive s
      → IsLive (put_interval (emit (timer_started id d) s) id cb)
  put_interval-IsLive s id d cb fresh live = record {
    kept = λ j.
        rw (has_key-remove eq_ℤ eq_ℤ_iff s.intervals id j, live.kept j)
          (ground (arith, eq_ℤ_iff id j));
    apart = λ j.
        rw (has_key-remove eq_ℤ eq_ℤ_iff s.intervals id j)
          (ground (arith, eq_ℤ_iff id j, live.apart j, live.kept id));
  }

  pub drop_timeout-IsLive :
      (s : State F) (id : ℤ)
      → has_key eq_ℤ s.timeouts id ≡ true
      → IsLive s
      → IsLive (drop_timeout s id)
  drop_timeout-IsLive s id has live = record {
    kept = λ j.
        rw (has_key-remove eq_ℤ eq_ℤ_iff s.timeouts id j, live.kept j)
          (ground (arith, eq_ℤ_iff id j, live.apart id));
    apart = λ j. rw (has_key-remove eq_ℤ eq_ℤ_iff s.timeouts id j) (ground (arith, live.apart j));
  }

  -- Which callback a timer takes, and what becomes of it: a timeout's is dropped with its timer, an
  -- interval's stays, and a timer that neither holds takes nothing.
  pub data Taken (id : ℤ) (s : State F) : Option (F × State F) → Type 0 where
    timeout_taken :
        (cb : F) → find eq_ℤ s.timeouts id ≡ some cb → Taken id s (some (cb, drop_timeout s id))
    interval_taken :
        (cb : F)
        → find eq_ℤ s.timeouts id ≡ none
        → find eq_ℤ s.intervals id ≡ some cb
        → Taken id s (some (cb, s))
    none_taken : find eq_ℤ s.timeouts id ≡ none → find eq_ℤ s.intervals id ≡ none → Taken id s none

  pub take_timer-Taken : (id : ℤ) (s : State F) → Taken id s (take_timer id s)
  take_timer-Taken id s = elim (Option-cases (find eq_ℤ s.timeouts id)) [
    | inr (cb, e) ↦ rw e (timeout_taken cb e)
    | inl e ↦ elim (Option-cases (find eq_ℤ s.intervals id)) [
      | inr (cb, e') ↦ rw (e, e') (interval_taken cb e e')
      | inl e' ↦ rw (e, e') (none_taken e e')
    ]
  ]

  pub take-IsLive :
      (id : ℤ) (s : State F) (o : Option (F × State F))
      → Taken id s o
      → (cb : F) (t : State F) → o ≡ some (cb, t)
      → IsLive s
      → IsLive t
  take-IsLive id s _ (timeout_taken cb' e) cb t p live =
      subst (λ x. IsLive x) (cc)
        (drop_timeout-IsLive s id (find-has_key eq_ℤ eq_ℤ_iff s.timeouts id cb' e) live)
  take-IsLive id s _ (interval_taken cb' e e') cb t p live = subst (λ x. IsLive x) (cc) live
  take-IsLive id s _ (none_taken e e') cb t p live = absurd (ground arith)

  pub raised-IsLive : (s : State F) → IsLive s → IsLive (record s { has_exception = true })
  raised-IsLive s live = record { kept = live.kept; apart = live.apart }

-- ===== src/Engine/Pending.antt =====
-- The timers of an EnginePrivate of src/nodeqml/engine.cpp as one map, from an id to the callback
-- that waits and whether it runs once.
use node_qml.Prelude.{
  ◌≡◌, refl, true, false, Option, none, some, List, arith, ℤ, eq_ℤ, eq_ℤ_iff, find, has_key, remove,
  find-remove, find-has_key, if◌then◌else◌, Bool-cases, Option-cases, inl, inr, subst,
}
use node_qml.Engine.{State, emit, timer_started, timer_killed, put_timeout, put_interval}
use node_qml.Engine.Events.{drop_timeout}
use node_qml.Engine.Steps.{is_running}
use node_qml.Engine.Live.{IsLive, Taken, timeout_taken, interval_taken, none_taken}

pub data Kind : Type 0 where
  once again : Kind

module _ {F : Type 0} where
  abbrev kept_as : Kind → Option F → Option (Kind × F)
  kept_as kind none = none
  kept_as kind (some cb) = some (kind, cb)

  abbrev or_kept : Option (Kind × F) → Option (Kind × F) → Option (Kind × F)
  or_kept (some w) o = some w
  or_kept none o = o

  -- What waits for an id.
  abbrev pub pending : State F → ℤ → Option (Kind × F)
  pending s j =
      or_kept (kept_as once (find eq_ℤ s.timeouts j)) (kept_as again (find eq_ℤ s.intervals j))

  -- A map of timers with one that starts, where one does.
  abbrev pub put : ℤ → Kind → Option F → (ℤ → Option (Kind × F)) → ℤ → Option (Kind × F)
  put id kind none p j = p j
  put id kind (some cb) p j = if eq_ℤ id j then some (kind, cb) else p j

  -- A timer that runs once is gone behind its end.
  abbrev pub end_once : Option (Kind × F) → Option (Kind × F)
  end_once none = none
  end_once (some (once, cb)) = none
  end_once (some (again, cb)) = some (again, cb)

  abbrev pub drop : ℤ → (ℤ → Option (Kind × F)) → ℤ → Option (Kind × F)
  drop id p j = if eq_ℤ id j then end_once (p j) else p j

  free :
      (s : State F) (id : ℤ)
      → is_running s.trace id ≡ false
      → IsLive s
      → (find eq_ℤ s.timeouts id ≡ none) × (find eq_ℤ s.intervals id ≡ none)
  free s id stopped live = (
    elim (Option-cases (find eq_ℤ s.timeouts id)) [
      | inl e ↦ e
      | inr (cb, e) ↦
          absurd (ground (arith, live.kept id, find-has_key eq_ℤ eq_ℤ_iff s.timeouts id cb e))
    ],
    elim (Option-cases (find eq_ℤ s.intervals id)) [
      | inl e ↦ e
      | inr (cb, e) ↦
          absurd (ground (arith, live.kept id, find-has_key eq_ℤ eq_ℤ_iff s.intervals id cb e))
    ],
  )

  at_same :
      (t : List (ℤ × F)) (id j : ℤ)
      → eq_ℤ id j ≡ true
      → find eq_ℤ t id ≡ none
      → find eq_ℤ t j ≡ none
  at_same t id j e none_there = subst (λ k. find eq_ℤ t k ≡ none) ((eq_ℤ_iff id j).0 e) none_there

  pub put_timeout_lem :
      (s : State F) (id d : ℤ) (cb : F) (j : ℤ)
      → pending (put_timeout (emit (timer_started id d) s) id cb) j
        ≡ put id once (some cb) (pending s) j
  put_timeout_lem s id d cb j =
      rw (find-remove eq_ℤ eq_ℤ_iff s.timeouts id j)
        (elim (Bool-cases (eq_ℤ id j)) [ inl e ↦ rw e refl | inr e ↦ rw e refl ])

  pub put_interval_lem :
      (s : State F) (id d : ℤ) (cb : F)
      → is_running s.trace id ≡ false
      → IsLive s
      → (j : ℤ)
      → pending (put_interval (emit (timer_started id d) s) id cb) j
        ≡ put id again (some cb) (pending s) j
  put_interval_lem s id d cb fresh live j =
      let (no_timeout, no_interval) = free s id fresh live in
      rw (find-remove eq_ℤ eq_ℤ_iff s.intervals id j) (elim (Bool-cases (eq_ℤ id j)) [
        | inl e ↦ rw (e, at_same s.timeouts id j e no_timeout) refl
        | inr e ↦ rw e refl
      ])

  none_found : (t : List (ℤ × F)) (id : ℤ) → has_key eq_ℤ t id ≡ false → find eq_ℤ t id ≡ none
  none_found t id missing = elim (Option-cases (find eq_ℤ t id)) [
    | inl e ↦ e
    | inr (cb, e) ↦ absurd (ground (arith, find-has_key eq_ℤ eq_ℤ_iff t id cb e))
  ]

  again_stays : (o : Option F) → kept_as again o ≡ end_once (kept_as again o)
  again_stays none = refl
  again_stays (some cb) = refl

  -- Without a timeout of the id, there is none to drop.
  pub drop_missing :
      (s : State F) (id : ℤ)
      → find eq_ℤ s.timeouts id ≡ none
      → (j : ℤ) → pending s j ≡ drop id (pending s) j
  drop_missing s id missing j = elim (Bool-cases (eq_ℤ id j)) [
    | inl e ↦ rw (e, at_same s.timeouts id j e missing) (again_stays (find eq_ℤ s.intervals j))
    | inr e ↦ rw e refl
  ]

  pub drop_timeout_lem :
      (s : State F) (id : ℤ) (cb : F)
      → find eq_ℤ s.timeouts id ≡ some cb
      → IsLive s
      → (j : ℤ) → pending (drop_timeout s id) j ≡ drop id (pending s) j
  drop_timeout_lem s id cb held live j =
      let has = find-has_key eq_ℤ eq_ℤ_iff s.timeouts id cb held in
      let no_interval : find eq_ℤ s.intervals id ≡ none =
        none_found s.intervals id (ground (arith, live.apart id)) in
      rw (find-remove eq_ℤ eq_ℤ_iff s.timeouts id j) (elim (Bool-cases (eq_ℤ id j)) [
        | inl e ↦
            let there : find eq_ℤ s.timeouts j ≡ some cb =
              subst (λ k. find eq_ℤ s.timeouts k ≡ some cb) ((eq_ℤ_iff id j).0 e) held in
            rw (e, there, at_same s.intervals id j e no_interval) refl
        | inr e ↦ rw e refl
      ])

  pub remove_missing_lem :
      (s : State F) (id : ℤ)
      → has_key eq_ℤ s.intervals id ≡ false
      → (j : ℤ)
      → pending (record (emit (timer_killed id) s) { intervals = remove eq_ℤ s.intervals id }) j
        ≡ pending s j
  remove_missing_lem s id missing j =
      rw (find-remove eq_ℤ eq_ℤ_iff s.intervals id j) (elim (Bool-cases (eq_ℤ id j)) [
        | inl e ↦ rw (e, at_same s.intervals id j e (none_found s.intervals id missing)) refl
        | inr e ↦ rw e refl
      ])

  pub take_lem :
      (id : ℤ) (s : State F) (o : Option (F × State F))
      → Taken id s o
      → (cb : F) (t : State F) → o ≡ some (cb, t)
      → IsLive s
      → (j : ℤ) → pending t j ≡ drop id (pending s) j
  take_lem id s _ (timeout_taken cb' e) cb t p live j =
      let same : drop_timeout s id ≡ t = cc in
      subst (λ x. pending x j ≡ drop id (pending s) j) same (drop_timeout_lem s id cb' e live j)
  take_lem id s _ (interval_taken cb e e') cb' t p live j =
      let same : s ≡ t = cc in
      subst (λ x. pending x j ≡ drop id (pending s) j) same (drop_missing s id e j)
  take_lem id s _ (none_taken e e') cb t p live j = absurd (ground arith)

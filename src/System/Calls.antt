-- ===== src/System/Calls.antt =====
-- What a script gets after a system call of the modules below src/nodeqml/modules.
use node_qml.Prelude.{
  ◌≡◌, ◌⊎◌, inl, inr, refl, Bool, true, false, Option, some, ◌∷◌, [], codes, text_eq, find, ℕ,
}
use node_qml.Memory.{QString}
use node_qml.Errno.{
  Thrown, errno_thrown, ErrnoException, number, text, throw_errno_exception, new_errno_exception,
}
use node_qml.System.{System, Running, Reply, undefined, check_call}

module _ {W : Type 0} (system : System W) where
  -- An exception that has the number that a system call left, and its name.
  abbrev pub Names : QString → W → Option Thrown → Type 0
  Names name w thrown =
      (e : ErrnoException) × (thrown ≡ some (errno_thrown e))
      × (e.message ≡ system.message_of (system.errno w))
      × (find text_eq e.properties (codes "errno") ≡ some (number (system.errno w)))
      × (find text_eq e.properties (codes "syscall") ≡ some (text name))

  -- After a system call the world is what it left; the call gave its reply, or an errno exception
  -- that names it is pending.
  abbrev pub IsCalled : QString → Bool → Reply → W → Running W → Reply × Running W → Type 0
  IsCalled name has_failed reply w r out =
      (out.1.world ≡ w)
      × (((has_failed ≡ false) × (out.0 ≡ reply) × (out.1.exception ≡ r.exception))
          ⊎ ((has_failed ≡ true) × (out.0 ≡ undefined) × Names name w out.1.exception))

  pub check_call-IsCalled :
      (c : ℕ) (name : QString) (has_failed : Bool) (reply : Reply) (w : W) (r : Running W)
      → IsCalled (c ∷ name) has_failed reply w r (check_call system (c ∷ name) has_failed reply w r)
  unfolding check_call throw_errno_exception new_errno_exception text_eq
  check_call-IsCalled c name true reply w r = (
    refl,
    inr (
      refl,
      refl,
      (
        new_errno_exception (system.message_of (system.errno w)) (system.errno w) (c ∷ name) [],
        refl,
        refl,
        refl,
        refl,
      ),
    ),
  )
  check_call-IsCalled c name false reply w r = (refl, inl (refl, refl, refl))

-- ===== src/FileSystem/Outcomes.antt =====
-- The outcomes of the functions of src/nodeqml/modules/filesystem.cpp.
use node_qml.Prelude.{
  [], ◌∷◌, ◌+◌, ◌*◌, ℕ, mod_ℤ, ◌≡◌, ◌⊎◌, inl, inr, refl, Bool, true, false, not, ◌||◌, Option, some,
  List, length, ltb, if◌then◌else◌, ℤ, pos, negsuc, eq_ℤ, codes, Bool-cases, arith,
}
use node_qml.Memory.{Bytes, error, type_error}
use node_qml.Host.{V4, argument}
use node_qml.Errno.{Thrown, error_thrown}
use node_qml.System.{System, Running, Reply, undefined, boolean, throw_in}
use node_qml.System.Calls.{IsCalled, check_call-IsCalled}
use node_qml.FileSystem.{
  is_given, mode_of, method_mkdir_sync, method_rmdir_sync, method_rename_sync, method_truncate_sync,
  complain_if,
}

module _ (v4 : V4) {W : Type 0} (system : System W) where
  -- A call with a wrong path throws and asks the system nothing.
  abbrev pub IsRefused : Running W → Reply × Running W → Type 0
  IsRefused r out = out ≡ throw_in (error_thrown (type_error "path must be a string")) r

  -- Whether the first argument is missing or no string.
  abbrev pub has_no_path : List v4.Value → Bool
  has_no_path args = not (is_given args) || not (v4.is_string (argument v4 args 0))

  -- The path as the system gets it.
  abbrev pub path_of : List v4.Value → Bytes
  path_of args = system.printable (v4.to_qstring (argument v4 args 0))

  -- The mode that the arguments of mkdirSync ask for: that of the second one where it is a number,
  -- as an unsigned one of 32 bits, and else 0777, which is octal.
  abbrev pub IsMode : List v4.Value → ℕ → Type 0
  IsMode [] mode = mode ≡ 7 * 64 + 7 * 8 + 7
  IsMode (v ∷ []) mode = mode ≡ 7 * 64 + 7 * 8 + 7
  IsMode (v ∷ w ∷ args) mode =
      ((v4.is_number w ≡ true) × (mode ≡ mod_ℤ (v4.to_int32 w) 4294967296))
      ⊎ ((v4.is_number w ≡ false) × (mode ≡ 7 * 64 + 7 * 8 + 7))

  mode_of-IsMode : (args : List v4.Value) → IsMode args (mode_of v4 system args)
  mode_of-IsMode [] = refl
  mode_of-IsMode (v ∷ []) = refl
  mode_of-IsMode (v ∷ w ∷ args) = elim (Bool-cases (v4.is_number w)) [
    | inl number ↦ inl (number, ground (arith, number))
    | inr other ↦ inr (other, ground (arith, other))
  ]

  -- What mkdirSync and rmdirSync ask the system for.
  abbrev pub made : List v4.Value → ℕ → W → ℤ × W
  made args mode w = system.make_dir (path_of args) mode w

  abbrev pub removed : List v4.Value → W → ℤ × W
  removed args w = system.remove_dir (path_of args) w

  -- mkdirSync with a first argument that is no string, or without one, throws a TypeError and
  -- changes nothing. Otherwise the world is what `mkdir` of that path leaves, under the mode that the second
  -- argument gives if it is a number and else under 0777; the call returns undefined, or `mkdir`
  -- gave -1 and an exception is pending that has its error number and names it.
  pub method_mkdir_sync-IsCalled :
      (args : List v4.Value) (r : Running W)
      → ((has_no_path args ≡ true) × IsRefused r (method_mkdir_sync v4 system args r))
        ⊎ ((has_no_path args ≡ false)
            × (mode : ℕ) × IsMode args mode
            × IsCalled system
                (codes "mkdir")
                (eq_ℤ (made args mode r.world).0 (negsuc 0))
                undefined
                (made args mode r.world).1
                r
                (method_mkdir_sync v4 system args r))
  unfolding method_mkdir_sync
  method_mkdir_sync-IsCalled args r = elim (Bool-cases (has_no_path args)) [
    | inl wrong ↦ inl (wrong, rw wrong refl)
    | inr right ↦ inr (
      right,
      mode_of v4 system args,
      mode_of-IsMode args,
      (let out = made args (mode_of v4 system args) r.world in
          rw right (
            check_call-IsCalled system b'm' (codes "kdir") (eq_ℤ out.0 (negsuc 0)) undefined out.1
              r)),
    )
  ]

  -- rmdirSync with a first argument that is no string, or without one, throws a TypeError and
  -- changes nothing. Otherwise the world is what `rmdir` of that path leaves; the call returns
  -- undefined, or `rmdir` did not give 0 and an exception is pending that has its error number and
  -- names it.
  method_rmdir_sync-IsCalled :
      (args : List v4.Value) (r : Running W)
      → ((has_no_path args ≡ true) × IsRefused r (method_rmdir_sync v4 system args r))
        ⊎ ((has_no_path args ≡ false)
            × IsCalled system
                (codes "rmdir")
                (not (eq_ℤ (removed args r.world).0 (pos 0)))
                undefined
                (removed args r.world).1
                r
                (method_rmdir_sync v4 system args r))
  unfolding method_rmdir_sync
  method_rmdir_sync-IsCalled args r = elim (Bool-cases (has_no_path args)) [
    | inl wrong ↦ inl (wrong, rw wrong refl)
    | inr right ↦ inr (
      right,
      rw right (
          check_call-IsCalled system b'r' (codes "mdir")
            (not (eq_ℤ (removed args r.world).0 (pos 0))) undefined (removed args r.world).1 r),
    )
  ]

  -- What renameSync asks for.
  abbrev pub renamed : List v4.Value → W → Bool × W
  renamed args w =
      system.rename (v4.to_qstring (argument v4 args 0)) (v4.to_qstring (argument v4 args 1)) w

  -- The error that renameSync leaves pending for wrong arguments.
  abbrev pub rename_complaint : List v4.Value → Option Thrown → Option Thrown
  rename_complaint args pending =
      if not (v4.is_string (argument v4 args 1))
      then some (error_thrown (error "renameSync: new path must be a string"))
      else if not (v4.is_string (argument v4 args 0))
      then some (error_thrown (error "renameSync: old path must be a string"))
      else if ltb (length args) 2
      then some (error_thrown (error "renameSync: two arguments are required"))
      else pending

  -- renameSync renames whatever its arguments are, and returns whether that worked. An argument that is no string, or that
  -- is missing, only leaves an exception pending.
  method_rename_sync_goes_on :
      (args : List v4.Value) (r : Running W)
      → let out = method_rename_sync v4 system args r in
        (out.0 ≡ boolean (renamed args r.world).0)
        × (out.1.world ≡ (renamed args r.world).1)
        × (out.1.exception ≡ rename_complaint args r.exception)
  unfolding method_rename_sync
  method_rename_sync_goes_on args r = (refl, refl, ground arith)

  -- What truncateSync asks for.
  abbrev pub truncated : List v4.Value → W → ℤ × W
  truncated args w = system.truncate (path_of args) (v4.to_int32 (argument v4 args 1)) w

  -- The error that truncateSync leaves pending for wrong arguments.
  abbrev pub truncate_complaint : List v4.Value → Option Thrown → Option Thrown
  truncate_complaint args pending =
      if not (v4.is_string (argument v4 args 0))
      then some (error_thrown (type_error "truncateSync: path must be a string"))
      else if ltb (length args) 2
      then some (error_thrown (error "truncateSync: two arguments are required"))
      else pending

  abbrev pub complained : List v4.Value → Running W → Running W
  complained args r = record r { exception = truncate_complaint args r.exception }

  checked-complained :
      (args : List v4.Value) (r : Running W)
      → complain_if v4 system
          (not (v4.is_string (argument v4 args 0)))
          (type_error "truncateSync: path must be a string")
          (complain_if v4 system
            (ltb (length args) 2)
            (error "truncateSync: two arguments are required")
            r)
        ≡ complained args r
  checked-complained args r = ground arith

  -- truncateSync asks the system whatever its arguments are, also where it has left an exception
  -- pending for them; where the system call fails, the exception that names it takes the place of
  -- that one.
  method_truncate_sync_goes_on :
      (args : List v4.Value) (r : Running W)
      → IsCalled system
          (codes "truncate")
          (eq_ℤ (truncated args r.world).0 (negsuc 0))
          undefined
          (truncated args r.world).1
          (complained args r)
          (method_truncate_sync v4 system args r)
  unfolding method_truncate_sync
  method_truncate_sync_goes_on args r = rw (checked-complained args r) (
      check_call-IsCalled system b't' (codes "runcate") (eq_ℤ (truncated args r.world).0 (negsuc 0))
        undefined (truncated args r.world).1 (complained args r))

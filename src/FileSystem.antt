-- ===== src/FileSystem.antt =====
-- src/nodeqml/modules/filesystem.cpp: the module `fs`.
pub mod Outcomes
pub mod Names
use node_qml.Prelude.{
  ℕ, ◌≡◌, Bool, true, false, not, ◌||◌, ◌&&◌, Option, none, some, List, [], ◌∷◌, length, ltb,
  if◌then◌else◌, ℤ, pos, negsuc, eq_ℤ, mod_ℤ, codes, is_nil, ◌^◌,
}
use node_qml.Memory.{QString, Error, error, type_error}
use node_qml.Host.{V4, argument}
use node_qml.Errno.{Thrown, error_thrown, throw_errno_exception}
use node_qml.System.{System, Running, Reply, undefined, boolean, throw_in, check_call}

-- `callData->argc`, as a condition
abbrev pub is_given {ℓ} : {A : Type ℓ} → List A → Bool
is_given [] = false
is_given (x ∷ xs) = true

module _ (v4 : V4) {W : Type 0} (system : System W) where
  -- FileSystemModule::method_existsSync
  unfoldable pub method_exists_sync : List v4.Value → Running W → Reply × Running W
  method_exists_sync [] r = throw_in (error_thrown (error "existsSync: argument is required")) r
  method_exists_sync (v ∷ args) r = (boolean (system.exists (v4.to_qstring v) r.world), r)

  -- `mode`: an `int` is converted to the unsigned mode_t.
  abbrev pub mode_of : List v4.Value → ℕ
  mode_of args =
      if ltb 1 (length args) && v4.is_number (argument v4 args 1)
      then mod_ℤ (v4.to_int32 (argument v4 args 1)) (2 ^ 32)
      else 511

  -- FileSystemModule::method_mkdirSync
  unfoldable pub method_mkdir_sync : List v4.Value → Running W → Reply × Running W
  method_mkdir_sync args r =
      if not (is_given args) || not (v4.is_string (argument v4 args 0))
      then throw_in (error_thrown (type_error "path must be a string")) r
      else (let made =
            system.make_dir (system.printable (v4.to_qstring (argument v4 args 0))) (mode_of args)
              r.world in
          check_call system (codes "mkdir") (eq_ℤ made.0 (negsuc 0)) undefined made.1 r)

  -- A throw that nothing returns after.
  abbrev pub complain_if : Bool → Error → Running W → Running W
  complain_if wrong e r = if wrong then (throw_in (error_thrown e) r).1 else r

  -- FileSystemModule::method_renameSync
  unfoldable pub method_rename_sync : List v4.Value → Running W → Reply × Running W
  method_rename_sync args r =
      let checked =
        complain_if (not (v4.is_string (argument v4 args 1)))
          (error "renameSync: new path must be a string")
          (complain_if (not (v4.is_string (argument v4 args 0)))
            (error "renameSync: old path must be a string")
            (complain_if (ltb (length args) 2) (error "renameSync: two arguments are required")
              r)) in
      let renamed =
        system.rename (v4.to_qstring (argument v4 args 0)) (v4.to_qstring (argument v4 args 1))
          r.world in
      (boolean renamed.0, record checked { world = renamed.1 })

  -- FileSystemModule::method_rmdirSync
  unfoldable pub method_rmdir_sync : List v4.Value → Running W → Reply × Running W
  method_rmdir_sync args r =
      if not (is_given args) || not (v4.is_string (argument v4 args 0))
      then throw_in (error_thrown (type_error "path must be a string")) r
      else (let removed =
            system.remove_dir (system.printable (v4.to_qstring (argument v4 args 0))) r.world in
          check_call system (codes "rmdir") (not (eq_ℤ removed.0 (pos 0))) undefined removed.1 r)

  -- FileSystemModule::method_truncateSync
  unfoldable pub method_truncate_sync : List v4.Value → Running W → Reply × Running W
  method_truncate_sync args r =
      let checked =
        complain_if (not (v4.is_string (argument v4 args 0)))
          (type_error "truncateSync: path must be a string")
          (complain_if (ltb (length args) 2) (error "truncateSync: two arguments are required")
            r) in
      let cut =
        system.truncate (system.printable (v4.to_qstring (argument v4 args 0)))
          (v4.to_int32 (argument v4 args 1)) r.world in
      check_call system (codes "truncate") (eq_ℤ cut.0 (negsuc 0)) undefined cut.1 checked

-- ===== src/Process.antt =====
-- src/nodeqml/modules/process.cpp: the object `process`.
pub mod Environment
pub mod Names
use node_qml.Prelude.{
  ℕ, ◌≡◌, Bool, true, false, not, ◌||◌, Option, none, some, List, [], ◌∷◌, ◌==◌, if◌then◌else◌, ℤ,
  pos, codes, text_eq, insert, is_nil,
}
use node_qml.Memory.{QString, error}
use node_qml.Host.{V4, argument}
use node_qml.Engine
use node_qml.Errno.{error_thrown}
use node_qml.System.{System, Running, Reply, undefined, string, throw_in}
use node_qml.FileSystem.{is_given}

-- QString::split at a character: the first part, and the parts behind it.
abbrev pub split : ℕ → QString → QString × List QString
split sep [] = ([], [])
split sep (c ∷ s) =
    let (part, parts) = split sep s in if c == sep then ([], part ∷ parts) else (c ∷ part, parts)

-- The object `env`: its members.
abbrev pub Members : Type 0
Members = List (QString × QString)

-- A turn of the loop: `v[1]` is past the end of the list where there is no second part.
abbrev pub insert_parts : QString × List QString → Members → Option Members
insert_parts (name, []) env = none
insert_parts (name, value ∷ parts) env = some (insert text_eq env name value)

-- The loop over the entries; `none` is the undefined read of a missing part.
unfoldable pub insert_all : List QString → Members → Option Members
insert_all [] env = some env
insert_all (entry ∷ entries) env = elim (insert_parts (split b'=' entry) env) [
  | none ↦ none
  | some inserted ↦ insert_all entries inserted
]

module _ {W : Type 0} (system : System W) where
  -- ProcessModule::property_env_getter
  unfoldable pub property_env_getter : Running W → Option Members
  unfolding insert_all
  property_env_getter r = insert_all (system.system_environment r.world) []

  -- ProcessModule::method_cwd
  unfoldable pub method_cwd : Running W → Reply × Running W
  method_cwd r = (string (system.current_path r.world), r)

module _ (v4 : V4) {W : Type 0} (system : System W) where
  -- ProcessModule::method_chdir
  unfoldable pub method_chdir : List v4.Value → Running W → Reply × Running W
  method_chdir args r =
      if not (is_given args) || not (v4.is_string (argument v4 args 0))
      then throw_in (error_thrown (error "chdir: Bad argument")) r
      else (let changed = system.set_current (v4.to_qstring (argument v4 args 0)) r.world in
          let after : Running W = record r { world = changed.1 } in
          if not changed.0
          then throw_in (error_thrown (error "chdir: Cannot change directory")) after
          else (undefined, after))

  -- ProcessModule::method_exit
  unfoldable pub method_exit : List v4.Value → Running W → Reply × Running W
  method_exit args r =
      let code = if is_given args then v4.to_int32 (argument v4 args 0) else pos 0 in
      (undefined, record r { world = system.exit code r.world })

-- ProcessModule::method_nextTick
unfoldable pub method_next_tick :
    (v4 : V4) → List v4.Value → Engine.State v4.Value → Engine.Answer v4.Value (Unit {0})
method_next_tick v4 args s = Engine.next_tick v4 args s

-- The processor and the system that the code is compiled for, as far as it tells them apart.
pub data Processor : Type 0 where
  arm x86_32 x86_64 other_processor : Processor

pub data Platform : Type 0 where
  darwin freebsd linux solaris win32 other_platform : Platform

-- ProcessModule::arch
unfoldable pub arch : Processor → QString
arch arm = codes "arm"
arch x86_32 = codes "ia32"
arch x86_64 = codes "x64"
arch other_processor = []

-- ProcessModule::platform
unfoldable pub platform : Platform → QString
platform darwin = codes "darwin"
platform freebsd = codes "freebsd"
platform linux = codes "linux"
platform solaris = codes "sunos"
platform win32 = codes "win32"
platform other_platform = []

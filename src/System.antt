-- ===== src/System.antt =====
-- The operating system and the parts of Qt that only ask it, as the modules fs, process and os of
-- src/nodeqml/modules call them.
pub mod Calls
use node_qml.Prelude.{ℕ, Bool, Option, none, some, List, ℤ, if◌then◌else◌}
use node_qml.Memory.{Bytes, QString, Error}
use node_qml.Errno.{Thrown, throw_errno_exception}

-- The system calls, on the state of the world. One that fails says so by its result and leaves its
-- error number.
pub record System (W : Type 0) : Type 0 where
  -- mkdir, rmdir, truncate, and the number `errno`
  pub make_dir : Bytes → ℕ → W → ℤ × W
  pub remove_dir : Bytes → W → ℤ × W
  pub truncate : Bytes → ℤ → W → ℤ × W
  pub errno : W → ℤ
  -- QFileInfo::exists, QFile::rename, QDir::setCurrent, QDir::currentPath, QCoreApplication::exit
  pub exists : QString → W → Bool
  pub rename : QString → QString → W → Bool × W
  pub set_current : QString → W → Bool × W
  pub current_path : W → QString
  pub exit : ℤ → W → W
  -- QProcess::systemEnvironment
  pub system_environment : W → List QString
  -- qPrintable, and QString::fromLocal8Bit(strerror(n))
  pub printable : QString → Bytes
  pub message_of : ℤ → QString

-- A call of a function of a module runs in the world, and with the exception that is pending.
pub record Running (W : Type 0) : Type 0 where
  pub world : W
  pub exception : Option Thrown

-- What a function gives back to the script.
pub data Reply : Type 0 where
  undefined : Reply
  boolean : Bool → Reply
  string : QString → Reply
  -- A 32-bit integer, or a double made of an integer, which rounds one past 2^53.
  number : ℤ → Reply
  -- An array of doubles, each the quotient of two integers.
  quotients : List (ℕ × ℕ) → Reply

module _ {W : Type 0} where
  -- ExecutionEngine::throwError sets the pending exception, whatever was pending before, and gives
  -- undefined.
  abbrev pub throw_in : Thrown → Running W → Reply × Running W
  throw_in e r = (undefined, record r { exception = some e })

module _ {W : Type 0} (system : System W) where
  -- What the modules do behind a system call that left the world `w`: the exception that names it
  -- where it failed, and otherwise the reply.
  unfoldable pub check_call : QString → Bool → Reply → W → Running W → Reply × Running W
  unfolding throw_errno_exception
  check_call name has_failed reply w r =
      let after : Running W = record r { world = w } in
      if has_failed
      then throw_in (throw_errno_exception system.message_of (system.errno w) name) after
      else (reply, after)

-- ===== src/Process/Names.antt =====
-- The names under which a script finds the properties and functions of process in src/nodeqml/modules/process.cpp.
use node_qml.Prelude.{List, [], ◌∷◌, codes}
use node_qml.Memory.{QString}

pub data ProcessMember : Type 0 where
  arch_member platform_member argv_member exec_path_member version_member : ProcessMember
  env_member pid_member abort_member chdir_member cwd_member exit_member : ProcessMember
  next_tick_member : ProcessMember

unfoldable pub process_members : List (QString × ProcessMember)
process_members =
    (codes "arch", arch_member)
    ∷ (codes "platform", platform_member)
    ∷ (codes "argv", argv_member)
    ∷ (codes "execPath", exec_path_member)
    ∷ (codes "version", version_member)
    ∷ (codes "env", env_member)
    ∷ (codes "pid", pid_member)
    ∷ (codes "abort", abort_member)
    ∷ (codes "chdir", chdir_member)
    ∷ (codes "cwd", cwd_member)
    ∷ (codes "exit", exit_member)
    ∷ (codes "nextTick", next_tick_member)
    ∷ []

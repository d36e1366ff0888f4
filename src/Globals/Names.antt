-- ===== src/Globals/Names.antt =====
-- The names under which a script finds the global functions and objects in src/nodeqml/globalextensions.cpp.
use node_qml.Prelude.{List, [], ◌∷◌, codes}
use node_qml.Memory.{QString}

pub data GlobalMember : Type 0 where
  require_member set_timeout_member clear_timeout_member set_interval_member : GlobalMember
  clear_interval_member process_member console_member : GlobalMember

unfoldable pub global_members : List (QString × GlobalMember)
global_members =
    (codes "require", require_member)
    ∷ (codes "setTimeout", set_timeout_member)
    ∷ (codes "clearTimeout", clear_timeout_member)
    ∷ (codes "setInterval", set_interval_member)
    ∷ (codes "clearInterval", clear_interval_member)
    ∷ (codes "process", process_member)
    ∷ (codes "console", console_member)
    ∷ []

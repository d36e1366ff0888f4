-- ===== src/Console/Names.antt =====
-- The names under which a script finds the functions of the console in src/nodeqml/modules/console.cpp.
use node_qml.Prelude.{List, [], ◌∷◌, codes}
use node_qml.Memory.{QString}

pub data ConsoleMember : Type 0 where
  log_member error_member dir_member time_member time_end_member trace_member : ConsoleMember
  assert_member : ConsoleMember

unfoldable pub console_members : List (QString × ConsoleMember)
console_members =
    (codes "log", log_member)
    ∷ (codes "info", log_member)
    ∷ (codes "error", error_member)
    ∷ (codes "warn", error_member)
    ∷ (codes "dir", dir_member)
    ∷ (codes "time", time_member)
    ∷ (codes "timeEnd", time_end_member)
    ∷ (codes "trace", trace_member)
    ∷ (codes "assert", assert_member)
    ∷ []

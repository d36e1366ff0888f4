-- ===== src/Path/Names.antt =====
-- The names under which a script finds the functions and texts of path in src/nodeqml/modules/path.cpp.
use node_qml.Prelude.{List, [], ◌∷◌, codes}
use node_qml.Memory.{QString}

pub data PathMember : Type 0 where
  delimiter_member sep_member normalize_member join_member resolve_member : PathMember
  relative_member dirname_member basename_member extname_member : PathMember

unfoldable pub path_members : List (QString × PathMember)
path_members =
    (codes "delimiter", delimiter_member)
    ∷ (codes "sep", sep_member)
    ∷ (codes "normalize", normalize_member)
    ∷ (codes "join", join_member)
    ∷ (codes "resolve", resolve_member)
    ∷ (codes "relative", relative_member)
    ∷ (codes "dirname", dirname_member)
    ∷ (codes "basename", basename_member)
    ∷ (codes "extname", extname_member)
    ∷ []

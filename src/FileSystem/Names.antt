-- ===== src/FileSystem/Names.antt =====
-- The names under which a script finds the functions of fs in src/nodeqml/modules/filesystem.cpp.
use node_qml.Prelude.{List, [], ◌∷◌, codes}
use node_qml.Memory.{QString}

pub data FileSystemMember : Type 0 where
  exists_sync_member mkdir_sync_member rename_sync_member rmdir_sync_member : FileSystemMember
  truncate_sync_member : FileSystemMember

unfoldable pub file_system_members : List (QString × FileSystemMember)
file_system_members =
    (codes "existsSync", exists_sync_member)
    ∷ (codes "mkdirSync", mkdir_sync_member)
    ∷ (codes "renameSync", rename_sync_member)
    ∷ (codes "rmdirSync", rmdir_sync_member)
    ∷ (codes "truncateSync", truncate_sync_member)
    ∷ []

-- ===== src/Os/Names.antt =====
-- The names under which a script finds the functions of os in src/nodeqml/modules/os.cpp.
use node_qml.Prelude.{List, [], ◌∷◌, codes}
use node_qml.Memory.{QString}

pub data OsMember : Type 0 where
  eol_member tmpdir_member endianness_member hostname_member type_member : OsMember
  platform_member arch_member release_member uptime_member loadavg_member : OsMember
  totalmem_member freemem_member network_interfaces_member : OsMember

unfoldable pub os_members : List (QString × OsMember)
os_members =
    (codes "EOL", eol_member)
    ∷ (codes "tmpdir", tmpdir_member)
    ∷ (codes "endianness", endianness_member)
    ∷ (codes "hostname", hostname_member)
    ∷ (codes "type", type_member)
    ∷ (codes "platform", platform_member)
    ∷ (codes "arch", arch_member)
    ∷ (codes "release", release_member)
    ∷ (codes "uptime", uptime_member)
    ∷ (codes "loadavg", loadavg_member)
    ∷ (codes "totalmem", totalmem_member)
    ∷ (codes "freemem", freemem_member)
    ∷ (codes "networkInterfaces", network_interfaces_member)
    ∷ []

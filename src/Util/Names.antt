-- ===== src/Util/Names.antt =====
-- The names under which a script finds the functions of util in src/nodeqml/modules/util.cpp.
use node_qml.Prelude.{List, [], ◌∷◌, codes}
use node_qml.Memory.{QString}

pub data UtilMember : Type 0 where
  format_member log_member inspect_member is_array_member is_reg_exp_member : UtilMember
  is_date_member is_error_member inherits_member : UtilMember

unfoldable pub util_members : List (QString × UtilMember)
util_members =
    (codes "format", format_member)
    ∷ (codes "log", log_member)
    ∷ (codes "inspect", inspect_member)
    ∷ (codes "isArray", is_array_member)
    ∷ (codes "isRegExp", is_reg_exp_member)
    ∷ (codes "isDate", is_date_member)
    ∷ (codes "isError", is_error_member)
    ∷ (codes "inherits", inherits_member)
    ∷ []

-- ===== src/Tests/UtilTests.antt =====
-- Formats of the module `util`.
use node_qml.Prelude.{◌≡◌, refl, ◌∷◌, [], codes, List, none, find, text_eq}
use node_qml.Util.Names.{util_members}
use node_qml.Util.{inspect}
use node_qml.Util.Format.{Regex, places, method_format, format_loop}
use node_qml.Util.Filled.{formatted}
use node_qml.Util.Formatted.{method_format-formatted}
use node_qml.Tests.Hosts.{Js, js, string}

abbrev pub regex : Regex
regex = record { global_match = λ p s. places 0 s; global_match_lem = λ s. refl }

abbrev values : List Js
values = string (codes "x") ∷ string (codes "y") ∷ string (codes "z") ∷ []

filled_in : method_format js regex (string (codes "a%s%%%j!") ∷ values) ≡ codes "ax%[JSON]! z"
unfolding method_format node_qml.Util.Format.append_rest node_qml.Util.Format.replace inspect
filled_in = refl

method_format-formatted_example :
    method_format js regex (string (codes "a%s%%%j!") ∷ values)
    ≡ formatted js (codes "a%s%%%j!") values
method_format-formatted_example =
    method_format-formatted js regex (string (codes "a%s%%%j!")) values refl

-- No script finds isUndefined, though there is a method for it.
undefined_unnamed : find text_eq util_members (codes "isUndefined") ≡ none
unfolding util_members text_eq
undefined_unnamed = refl

-- ===== src/Tests/PathTests.antt =====
-- Paths on a machine whose current directory is /home.
use node_qml.Prelude.{◌≡◌, refl, List, [], ◌∷◌, codes, map, text_eq}
use node_qml.Path.{Paths, value, join_slash, method_resolve, method_basename}
use node_qml.Path.Resolved.{below, method_resolve-below}
use node_qml.Tests.Hosts.{Js, js, string}

abbrev home : Paths
home = record {
  clean_path = λ p. p;
  current_path = codes "/home";
  file_name = λ p. codes "b.js";
  absolute_path = λ p. p;
  complete_suffix = λ p. codes "js";
  relative_file_path = λ a b. b;
}

abbrev arguments : List Js
arguments = string (codes "/usr") ∷ string (codes "/var") ∷ string (codes "log") ∷ []

resolved : method_resolve js home arguments ≡ value (codes "/var/log")
unfolding method_resolve
resolved = refl

stripped :
    method_basename js home (string (codes "/a/b.js") ∷ string (codes ".js") ∷ [])
    ≡ value (codes "b")
unfolding method_basename text_eq
stripped = refl

method_resolve-below_example :
    method_resolve js home arguments
    ≡ value (join_slash (below (codes "/home" ∷ []) (map js.to_qstring arguments)))
method_resolve-below_example = method_resolve-below js home arguments (refl, (refl, (refl, tt)))

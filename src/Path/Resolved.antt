-- ===== src/Path/Resolved.antt =====
-- The result of path.resolve of src/nodeqml/modules/path.cpp, read from the first argument on.
use node_qml.Prelude.{
  append_assoc, append-nil, ◌≡◌, refl, sym, ap, ◌∙◌, true, List, [], ◌∷◌, ◌++◌, map, All,
  if◌then◌else◌, Bool-cases, inl, inr,
}
use node_qml.Memory.{QString}
use node_qml.Host.{V4}
use node_qml.Path.{
  Paths, value, with_value, join_slash, is_absolute, backwards, resolve_parts, method_resolve,
}

-- Each argument is looked up below what comes before it: an absolute one replaces that, any other is
-- put behind it.
abbrev pub below : List QString → List QString → List QString
below parts [] = parts
below parts (p ∷ ps) = below (if is_absolute p then p ∷ [] else parts ++ (p ∷ [])) ps

backwards-append :
    {A : Type 0} (xs : List A) (x : A) → backwards (xs ++ (x ∷ [])) ≡ x ∷ backwards xs
backwards-append [] x = refl
backwards-append (y ∷ xs) x = ap (λ t. t ++ (y ∷ [])) (backwards-append xs x)

backwards-backwards : {A : Type 0} (xs : List A) → backwards (backwards xs) ≡ xs
backwards-backwards [] = refl
backwards-backwards (x ∷ xs) =
    backwards-append (backwards xs) x ∙ ap (λ t. x ∷ t) (backwards-backwards xs)

map-append : {A B : Type 0} (f : A → B) (xs ys : List A) → map f (xs ++ ys) ≡ map f xs ++ map f ys
map-append f [] ys = refl
map-append f (x ∷ xs) ys = ap (λ t. f x ∷ t) (map-append f xs ys)

below-append :
    (parts ps : List QString) (p : QString)
    → below parts (ps ++ (p ∷ [])) ≡ (if is_absolute p then p ∷ [] else below parts ps ++ (p ∷ []))
below-append parts [] p = refl
below-append parts (q ∷ ps) p =
    below-append (if is_absolute q then q ∷ [] else parts ++ (q ∷ [])) ps p

All-append :
    {A : Type 0} (P : A → Type 0) (xs : List A) (x : A) → All P xs → P x → All P (xs ++ (x ∷ []))
All-append P [] x ps p = (p, tt)
All-append P (y ∷ xs) x (q, ps) p = (q, All-append P xs x ps p)

All-backwards : {A : Type 0} (P : A → Type 0) (xs : List A) → All P xs → All P (backwards xs)
All-backwards P [] ps = tt
All-backwards P (x ∷ xs) (p, ps) = All-append P (backwards xs) x (All-backwards P xs ps) p

module _ (v4 : V4) (paths : Paths) where
  resolve_parts-below :
      (vs : List v4.Value) (parts : List QString)
      → All (λ v. v4.is_string v ≡ true) vs
      → resolve_parts v4 paths vs parts
        ≡ value (below (paths.current_path ∷ []) (map v4.to_qstring (backwards vs)) ++ parts)
  unfolding resolve_parts
  resolve_parts-below [] parts strings = refl
  resolve_parts-below (v ∷ vs) parts (is_string, strings) =
      let p = v4.to_qstring v in
      let start = paths.current_path ∷ [] in
      let split : below start (map v4.to_qstring (backwards (v ∷ vs))) ≡ (
          if is_absolute p
          then p ∷ []
          else below start (map v4.to_qstring (backwards vs)) ++ (p ∷ [])) =
        ap (below start) (map-append v4.to_qstring (backwards vs) (v ∷ []))
        ∙ below-append start (map v4.to_qstring (backwards vs)) p in
      elim (Bool-cases (is_absolute p)) [
        | inl absolute ↦ rw (is_string, split, absolute) refl
        | inr relative ↦
            rw (is_string, split, relative)
              (resolve_parts-below vs (p ∷ parts) strings
                ∙ ap value (
                    sym (
                      append_assoc (below start (map v4.to_qstring (backwards vs))) (p ∷ [])
                        parts)))
      ]

  -- `path.resolve` of strings is the cleaned path of the parts that are left when each argument is
  -- looked up below the ones before it and the first below the current directory, though the code
  -- goes through the arguments from the last one on and stops at the first absolute one it meets.
  pub method_resolve-below :
      (args : List v4.Value)
      → All (λ v. v4.is_string v ≡ true) args
      → method_resolve v4 paths args
        ≡ value (
            paths.clean_path
              (join_slash (below (paths.current_path ∷ []) (map v4.to_qstring args))))
  unfolding method_resolve
  method_resolve-below args strings =
      ap (λ r. with_value r (λ ps. paths.clean_path (join_slash ps)))
        (resolve_parts-below (backwards args) []
            (All-backwards (λ v. v4.is_string v ≡ true) args strings)
          ∙ ap value (
              append-nil
                (below (paths.current_path ∷ []) (map v4.to_qstring (backwards (backwards args))))
              ∙ ap (λ vs. below (paths.current_path ∷ []) (map v4.to_qstring vs))
                  (backwards-backwards args)))

-- ===== src/Module/Resolve.antt =====
-- ModuleObject::resolveModule of src/nodeqml/moduleobject.cpp.
use node_qml.Prelude.{
  ◌≡◌, refl, inl, inr, true, not, ◌&&◌, List, [], ◌∷◌, ◌++◌, codes, if◌then◌else◌, Bool-cases,
}
use node_qml.Memory.{QString}
use node_qml.Module.{Files, bundled, resolve_existing, resolve_path, resolve_module}

module _ {F : Type 0} (files : Files F) where
  -- The first of some names that a file has, in full; or no text.
  abbrev pub first_file : List QString → QString
  first_file [] = []
  first_file (p ∷ ps) =
      let rest = first_file ps in
      if files.exists p && files.is_file p then files.absolute_file_path p else rest

  -- A name, and the file index.js of the directory with that name.
  abbrev pub and_index : QString → List QString
  and_index p = p ∷ (files.absolute_file_path p ++ codes "/index.js") ∷ []

  -- The names to look at: those of the path itself where something has it, and otherwise those with
  -- the suffix, unless that is a directory's.
  abbrev pub candidates : QString → List QString
  candidates p =
      if files.exists p
      then and_index p
      else (let suffixed = files.absolute_file_path p ++ codes ".js" in
          if files.exists suffixed && not (files.is_dir suffixed) then and_index suffixed else [])

  resolve_existing-first_file :
      (p : QString) → files.exists p ≡ true → resolve_existing files p ≡ first_file (and_index p)
  resolve_existing-first_file p has = elim (Bool-cases (files.is_file p)) [
    | inl file ↦ rw (has, file) refl
    | inr other ↦ rw (has, other) refl
  ]

  resolve_path-first_file : (p : QString) → resolve_path files p ≡ first_file (candidates p)
  resolve_path-first_file p =
      let suffixed = files.absolute_file_path p ++ codes ".js" in
      elim (Bool-cases (files.exists p)) [
        | inl has ↦ rw (has, resolve_existing-first_file p has) refl
        | inr no_name ↦ elim (Bool-cases (files.exists suffixed)) [
          | inr missing ↦ rw (no_name, missing) refl
          | inl there ↦ elim (Bool-cases (files.is_dir suffixed)) [
            | inl dir ↦ rw (no_name, there, dir) refl
            | inr no_dir ↦ rw (no_name, there, no_dir) (resolve_existing-first_file suffixed there)
          ]
        ]
      ]

  -- A request is resolved to the bundled module of that name where there is one, and otherwise to
  -- the first file among the request itself, taken from the directory of the requiring module if it
  -- is relative, and index.js in the directory of that name; or, where nothing has that name, among
  -- the name with ".js" added, unless that is a directory, and index.js in it. Where there is none
  -- the result is empty.
  pub resolve_module-first_file :
      (request parent : QString)
      → resolve_module files request parent ≡ (
          if files.exists (codes ":/js/" ++ request ++ codes ".js")
          then files.absolute_file_path (codes ":/js/" ++ request ++ codes ".js")
          else first_file (
              candidates
                (if files.is_relative request then files.file_path parent request else request)))
  unfolding resolve_module
  resolve_module-first_file request parent =
      elim (Bool-cases (files.exists (bundled files request))) [
        | inl has ↦ rw has refl
        | inr no_bundle ↦ rw no_bundle (
            resolve_path-first_file
              (if files.is_relative request then files.file_path parent request else request))
      ]

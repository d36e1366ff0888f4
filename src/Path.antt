-- ===== src/Path.antt =====
-- src/nodeqml/modules/path.cpp: the module `path`.
pub mod Resolved
pub mod Names
use node_qml.Prelude.{
  ℕ, zero, suc, ◌+◌, ◌-◌, Bool, true, false, not, ◌&&◌, ◌||◌, Option, none, some, List, [], ◌∷◌,
  ◌++◌, length, take, drop, ltb, leb, ◌==◌, if◌then◌else◌, ℤ, pos, negsuc, sub_ℕ, text_eq, codes,
  is_nil,
}
use node_qml.Memory.{QString, Error, type_error}
use node_qml.Host.{V4, argument}

-- QDir and QFileInfo.
pub record Paths : Type 0 where
  pub clean_path : QString → QString
  pub current_path : QString
  pub file_name : QString → QString
  pub absolute_path : QString → QString
  pub complete_suffix : QString → QString
  pub relative_file_path : QString → QString → QString

-- A string, or the error that is thrown.
pub data Result (A : Type 0) : Type 0 where
  value : A → Result A
  failed : Error → Result A

abbrev pub with_value : {A B : Type 0} → Result A → (A → B) → Result B
with_value (value a) f = value (f a)
with_value (failed e) f = failed e

-- QStringList::join(QLatin1Char('/'))
abbrev pub join_slash : List QString → QString
join_slash [] = []
join_slash (p ∷ []) = p
join_slash (p ∷ q ∷ ps) = p ++ codes "/" ++ join_slash (q ∷ ps)

-- startsWith(QLatin1Char('/'))
abbrev pub is_absolute : QString → Bool
is_absolute [] = false
is_absolute (c ∷ cs) = c == b'/'

-- QString::endsWith
abbrev pub ends_with : QString → QString → Bool
ends_with s ext = leb (length ext) (length s) && text_eq (drop (length s - length ext) s) ext

-- QString::left: all of the text for a negative length, or one that is too large.
abbrev pub left : QString → ℤ → QString
left s (pos n) = take n s
left s (negsuc n) = s

-- The elements from the last to the first.
abbrev pub backwards {ℓ} : {A : Type ℓ} → List A → List A
backwards [] = []
backwards (x ∷ xs) = backwards xs ++ (x ∷ [])

module _ (v4 : V4) (paths : Paths) where
  -- PathModule::method_normalize
  unfoldable pub method_normalize : List v4.Value → Result QString
  method_normalize args =
      if leb 1 (length args) && v4.is_string (argument v4 args 0)
      then value (paths.clean_path (v4.to_qstring (argument v4 args 0)))
      else failed (type_error "path.normalize: argument must be a string")

  abbrev pub prepend : Result (List QString) → QString → Result (List QString)
  prepend (value ps) p = value (p ∷ ps)
  prepend (failed e) p = failed e

  -- The loop of `join`, which stops at the first argument that is not a string.
  unfoldable pub join_parts : List v4.Value → Result (List QString)
  join_parts [] = value []
  join_parts (v ∷ vs) =
      let rest = join_parts vs in
      if v4.is_string v
      then prepend rest (v4.to_qstring v)
      else failed (type_error "Arguments to path.join must be strings")

  -- PathModule::method_join
  unfoldable pub method_join : List v4.Value → Result QString
  unfolding join_parts
  method_join args = with_value (join_parts args) (λ ps. paths.clean_path (join_slash ps))

  -- The loop of `resolve` over the arguments from the last on. It stops at an absolute one, and ends
  -- with the current directory.
  unfoldable pub resolve_parts : List v4.Value → List QString → Result (List QString)
  resolve_parts [] parts = value (paths.current_path ∷ parts)
  resolve_parts (v ∷ vs) parts =
      let rest = resolve_parts vs (v4.to_qstring v ∷ parts) in
      if v4.is_string v
      then if is_absolute (v4.to_qstring v) then value (v4.to_qstring v ∷ parts) else rest
      else failed (type_error "Arguments to path.resolve must be strings")

  -- PathModule::method_resolve
  unfoldable pub method_resolve : List v4.Value → Result QString
  unfolding resolve_parts
  method_resolve args =
      with_value (resolve_parts (backwards args) []) (λ ps. paths.clean_path (join_slash ps))

  -- PathModule::method_relative
  unfoldable pub method_relative : List v4.Value → Result QString
  method_relative args =
      if ltb (length args) 2
        || not (v4.is_string (argument v4 args 0))
        || not (v4.is_string (argument v4 args 1))
      then failed (type_error "Arguments to path.resolve must be strings")
      else value (
          paths.relative_file_path (v4.to_qstring (argument v4 args 0))
            (v4.to_qstring (argument v4 args 1)))

  -- PathModule::method_dirname
  unfoldable pub method_dirname : List v4.Value → Result QString
  method_dirname args =
      if leb 1 (length args) && v4.is_string (argument v4 args 0)
      then value (paths.absolute_path (v4.to_qstring (argument v4 args 0)))
      else failed (type_error "path.dirname: argument must be a string")

  abbrev pub strip : QString → QString → QString
  strip path ext =
      if not (is_nil ext) && ends_with path ext
      then left (paths.file_name path) (sub_ℕ (length (paths.file_name path)) (length ext))
      else paths.file_name path

  -- PathModule::method_basename
  unfoldable pub method_basename : List v4.Value → Result QString
  method_basename args =
      if leb 1 (length args) && v4.is_string (argument v4 args 0)
      then value (
          strip (v4.to_qstring (argument v4 args 0))
            (if ltb 1 (length args) then v4.to_qstring (argument v4 args 1) else []))
      else failed (type_error "path.basename: argument must be a string")

  -- PathModule::method_extname
  unfoldable pub method_extname : List v4.Value → Result QString
  method_extname args =
      if leb 1 (length args) && v4.is_string (argument v4 args 0)
      then value (paths.complete_suffix (v4.to_qstring (argument v4 args 0)))
      else failed (type_error "path.extname: argument must be a string")

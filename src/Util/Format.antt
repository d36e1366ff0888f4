-- ===== src/Util/Format.antt =====
-- UtilModule::method_format of src/nodeqml/modules/util.cpp.
use node_qml.Prelude.{
  ℕ, ◌+◌, ◌≡◌, Bool, true, false, ◌||◌, List, [], ◌∷◌, ◌++◌, map, length, drop, sub, leb, ◌==◌,
  if◌then◌else◌, ℤ, pos, negsuc, sub_ℕ, text_eq, codes,
}
use node_qml.Memory.{QString}
use node_qml.Host.{V4, argument}
use node_qml.Util.{inspect}

-- QRegularExpressionMatch, of a match: capturedStart(0), capturedEnd(0), captured(0).
pub record Match : Type 0 where
  pub captured_start : ℕ
  pub captured_end : ℕ
  pub captured : QString

-- Whether two characters are a placeholder.
abbrev pub is_placeholder : ℕ → ℕ → Bool
is_placeholder c d = if c == b'%' then d == b's' || d == b'd' || d == b'j' || d == b'%' else false

-- The matches of `%[sdj%]` in a text that starts at index `at`, from left to right and without
-- overlap.
abbrev pub places : ℕ → QString → List Match
places at [] = []
places at (c ∷ []) = []
places at (c ∷ d ∷ s) = elim (is_placeholder c d) [
  | true ↦
      record { captured_start = at; captured_end = at + 2; captured = c ∷ d ∷ [] }
      ∷ places (at + 2) s
  | false ↦ places (at + 1) (d ∷ s)
]

-- QRegularExpression::globalMatch, with what its documentation says of the one pattern in use.
pub record Regex : Type 0 where
  pub global_match : QString → QString → List Match
  pub global_match_lem : (s : QString) → global_match (codes "%[sdj%]") s ≡ places 0 s

-- QString::mid: all that follows for a negative length.
abbrev pub mid : QString → ℕ → ℤ → QString
mid s p (pos n) = sub p n s
mid s p (negsuc n) = drop p s

-- QStringList::join, with a space
abbrev pub join_space : List QString → QString
join_space [] = []
join_space (p ∷ []) = p
join_space (p ∷ q ∷ ps) = p ++ codes " " ++ join_space (q ∷ ps)

module _ (v4 : V4) where
  -- The arguments that no placeholder took.
  unfoldable pub append_rest : QString → List v4.Value → QString
  append_rest result [] = result
  append_rest result (v ∷ vs) = append_rest (result ++ (codes " " ++ inspect v4 v)) vs

  -- What a turn of the loop appends for a placeholder, and the next argument.
  unfoldable pub replace : List v4.Value → ℕ → QString → QString × ℕ
  unfolding text_eq
  replace args i placeholder =
      if leb (length args) i
      then (placeholder, i)
      else if text_eq placeholder (codes "%%")
      then (codes "%", i)
      else if text_eq placeholder (codes "%s") || text_eq placeholder (codes "%d")
      then (inspect v4 (argument v4 args i), i + 1)
      else if text_eq placeholder (codes "%j")
      then (codes "[JSON]", i + 1)
      else ([], i)

  -- The text between the last placeholder and this one.
  abbrev pub before : QString → ℕ → Match → QString
  before format last m =
      if m.captured_start == 0 then [] else mid format last (sub_ℕ m.captured_start last)

  -- The loop over the placeholders, and what follows it. `i` is the next argument, `last` is
  -- `lastPos`.
  unfoldable pub format_loop : QString → List v4.Value → List Match → ℕ → ℕ → QString → QString
  format_loop format args [] i last result =
      append_rest (result ++ mid format last (negsuc 0)) (drop i args)
  format_loop format args (m ∷ ms) i last result =
      let replaced = replace args i m.captured in
      format_loop format args ms replaced.1 m.captured_end
        (result ++ before format last m ++ replaced.0)

  -- UtilModule::method_format
  unfoldable pub method_format : Regex → List v4.Value → QString
  unfolding format_loop
  method_format regex [] = []
  method_format regex (v ∷ args) =
      if v4.is_string v
      then format_loop (v4.to_qstring v) (v ∷ args)
          (regex.global_match (codes "%[sdj%]") (v4.to_qstring v)) 1 0 []
      else join_space (map (inspect v4) (v ∷ args))

  -- UtilModule::method_log: the line that it writes, with the label that the clock gives.
  unfoldable pub method_log : Regex → QString → List v4.Value → QString
  unfolding method_format
  method_log regex label args = label ++ codes " - " ++ method_format regex args

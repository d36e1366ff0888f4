-- ===== src/Util/Filled.antt =====
-- What the placeholders of UtilModule::method_format in src/nodeqml/modules/util.cpp become.
use node_qml.Prelude.{
  ℕ, suc, ◌+◌, ◌≡◌, ◌⊎◌, refl, sym, ◌∙◌, true, false, List, [], ◌∷◌, ◌++◌, length, drop, leb, ◌==◌,
  if◌then◌else◌, text_eq, codes, arith, append_assoc, append-nil, drop_all, drop_step, Bool-cases,
  leb→le, inl, inr,
}
use node_qml.Memory.{QString}
use node_qml.Host.{V4}
use node_qml.Util.{inspect}
use node_qml.Util.Format.{is_placeholder, append_rest, replace}

module _ (v4 : V4) where
  -- Values behind spaces.
  abbrev pub spaced_values : List v4.Value → QString
  spaced_values [] = []
  spaced_values (v ∷ vs) = codes " " ++ inspect v4 v ++ spaced_values vs

  -- What a placeholder becomes, and the values that are left: it stays where there is no value,
  -- and `%%` takes none.
  abbrev pub filled : ℕ → ℕ → List v4.Value → QString × List v4.Value
  filled c d [] = (c ∷ d ∷ [], [])
  filled c d (v ∷ vs) =
      if d == b'%'
      then (codes "%", v ∷ vs)
      else if d == b'j'
      then (codes "[JSON]", vs)
      else (inspect v4 v, vs)

  -- A text with its placeholders filled from values, and the values that are left behind it.
  abbrev pub formatted : QString → List v4.Value → QString
  formatted [] vs = spaced_values vs
  formatted (c ∷ []) vs = c ∷ spaced_values vs
  formatted (c ∷ d ∷ s) vs = elim (is_placeholder c d) [
    | true ↦ (filled c d vs).0 ++ formatted s (filled c d vs).1
    | false ↦ c ∷ formatted (d ∷ s) vs
  ]

  pub append_rest-spaced_values :
      (result : QString) (vs : List v4.Value)
      → append_rest v4 result vs ≡ result ++ spaced_values vs
  unfolding append_rest
  append_rest-spaced_values result [] = sym (append-nil result)
  append_rest-spaced_values result (v ∷ vs) =
      append_rest-spaced_values (result ++ (codes " " ++ inspect v4 v)) vs
      ∙ append_assoc result (codes " " ++ inspect v4 v) (spaced_values vs)

  placeholder-cases :
      (c d : ℕ)
      → is_placeholder c d ≡ true
      → (c ≡ b'%') × ((d ≡ b's') ⊎ (d ≡ b'd') ⊎ (d ≡ b'j') ⊎ (d ≡ b'%'))
  placeholder-cases c d e = ground arith

  pub replace-filled :
      (c d i : ℕ) (args : List v4.Value)
      → is_placeholder c d ≡ true
      → ((replace v4 args i (c ∷ d ∷ [])).0, drop (replace v4 args i (c ∷ d ∷ [])).1 args)
        ≡ filled c d (drop i args)
  unfolding replace text_eq
  replace-filled c d i args e = elim (Bool-cases (leb (length args) i)) [
    | inl none_left ↦ rw (none_left, drop_all i args (leb→le _ _ none_left)) refl
    | inr one_left ↦
        let left = drop_step i args v4.undefined (ground arith) in
        let next : i + 1 ≡ suc i = omega arith in
        let (p, which) = placeholder-cases c d e in
        elim which [
          | inl q ↦ rw (p, q, one_left, left, next) refl
          | inr (inl q) ↦ rw (p, q, one_left, left, next) refl
          | inr (inr (inl q)) ↦ rw (p, q, one_left, left, next) refl
          | inr (inr (inr q)) ↦ rw (p, q, one_left, left) refl
        ]
  ]

  pub formatted-placed :
      (c d : ℕ) (s : QString) (vs : List v4.Value)
      → is_placeholder c d ≡ true
      → formatted (c ∷ d ∷ s) vs ≡ (filled c d vs).0 ++ formatted s (filled c d vs).1
  formatted-placed c d s vs e = rw (formatted, e) refl

  pub formatted-copied :
      (c d : ℕ) (s : QString) (vs : List v4.Value)
      → is_placeholder c d ≡ false
      → formatted (c ∷ d ∷ s) vs ≡ c ∷ formatted (d ∷ s) vs
  formatted-copied c d s vs e = rw (formatted, e) refl

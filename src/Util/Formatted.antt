-- ===== src/Util/Formatted.antt =====
-- What UtilModule::method_format of src/nodeqml/modules/util.cpp gives, by recursion on the text.
use node_qml.Prelude.{
  ℕ, suc, ◌+◌, ◌-◌, ◌≤◌, ◌≡◌, refl, sym, ap, ◌∙◌, true, false, List, [], ◌∷◌, ◌++◌, drop, sub,
  arith, append_assoc, append-nil, drop_tail, take_snoc, take-append-drop, drop-drop, Bool-cases,
  inl, inr,
}
use node_qml.Memory.{QString}
use node_qml.Host.{V4}
use node_qml.Util.Filled.{
  spaced_values, formatted, append_rest-spaced_values, replace-filled, formatted-placed,
  formatted-copied,
}
use node_qml.Util.Format.{
  Match, Regex, is_placeholder, places, replace, before, format_loop, method_format,
}

-- A character goes from one text to the next.
moved :
    (xs ys : QString) (c : ℕ) (zs : QString)
    → (xs ++ (ys ++ (c ∷ []))) ++ zs ≡ (xs ++ ys) ++ (c ∷ zs)
moved xs ys c zs = rw (append_assoc, append_assoc) (rw append_assoc refl)

module _ (v4 : V4) where
  -- What is left of the text at `at`, by what was copied of it.
  rest_of :
      (last at : ℕ) (format : QString)
      → last ≤ at
      → drop last format ≡ sub last (at - last) format ++ drop at format
  rest_of last at format h =
      take-append-drop (at - last) (drop last format)
      ∙ ap (λ t. sub last (at - last) format ++ t)
          (drop-drop (at - last) last format
            ∙ ap (λ n. drop n format) (let e : at - last + last ≡ at = omega arith in e))

  -- One more character.
  copied_snoc :
      (last at c : ℕ) (s format : QString)
      → last ≤ at
      → drop at format ≡ c ∷ s
      → sub last (at + 1 - last) format ≡ sub last (at - last) format ++ (c ∷ [])
  copied_snoc last at c s format h e =
      ap (λ n. sub last n format) (let e' : at + 1 - last ≡ suc (at - last) = omega arith in e')
      ∙ take_snoc (at - last) (drop last format) s c (
          drop-drop (at - last) last format
          ∙ ap (λ n. drop n format) (let e' : at - last + last ≡ at = omega arith in e')
          ∙ e)

  before-sub :
      (last at e : ℕ) (format captured : QString)
      → last ≤ at
      → before v4 format last
          (record { captured_start = at; captured_end = e; captured = captured })
        ≡ sub last (at - last) format
  before-sub last at e format captured h = ground arith

  nothing_copied : (n : ℕ) (format : QString) → sub n (n - n) format ≡ []
  nothing_copied n format = let e : n - n ≡ 0 = omega arith in rw e refl

  places-placed :
      (at c d : ℕ) (s : QString)
      → is_placeholder c d ≡ true
      → places at (c ∷ d ∷ s)
        ≡ record { captured_start = at; captured_end = at + 2; captured = c ∷ d ∷ [] }
          ∷ places (at + 2) s
  places-placed at c d s e = rw (places, e) refl

  places-copied :
      (at c d : ℕ) (s : QString)
      → is_placeholder c d ≡ false
      → places at (c ∷ d ∷ s) ≡ places (at + 1) (d ∷ s)
  places-copied at c d s e = rw (places, e) refl

  -- The loop, from a place in the text on, appends what it copied since the last placeholder and
  -- the rest of the text with its placeholders filled.
  IsFormatted : QString → List v4.Value → QString → Type 0
  IsFormatted format args s =
      (at i last : ℕ) (result : QString)
      → drop at format ≡ s
      → last ≤ at
      → format_loop v4 format args (places at s) i last result
        ≡ (result ++ sub last (at - last) format) ++ formatted v4 s (drop i args)

  placed-IsFormatted :
      (format : QString) (args : List v4.Value) (c d : ℕ) (s : QString)
      → is_placeholder c d ≡ true
      → IsFormatted format args s
      → IsFormatted format args (c ∷ d ∷ s)
  unfolding IsFormatted format_loop
  placed-IsFormatted format args c d s is_place rest at i last result e h =
      let m : Match = record {
        captured_start = at;
        captured_end = at + 2;
        captured = c ∷ d ∷ [];
      } in
      let replaced = replace v4 args i (c ∷ d ∷ []) in
      ap (λ ms. format_loop v4 format args ms i last result) (places-placed at c d s is_place)
      ∙ rest (at + 2) replaced.1 (at + 2) ((result ++ before v4 format last m) ++ replaced.0)
          (let n : at + 2 ≡ suc (suc at) = omega arith in
            rw n (drop_tail (suc at) format s d (drop_tail at format (d ∷ s) c e)))
          (omega arith)
      ∙ ap
          (λ t.
            ((result ++ before v4 format last m) ++ replaced.0)
            ++ t
            ++ formatted v4 s (drop replaced.1 args))
          (nothing_copied (at + 2) format)
      ∙ ap (λ t. t ++ formatted v4 s (drop replaced.1 args))
          (append-nil ((result ++ before v4 format last m) ++ replaced.0))
      ∙ append_assoc (result ++ before v4 format last m) replaced.0
          (formatted v4 s (drop replaced.1 args))
      ∙ ap (λ t. (result ++ t) ++ (replaced.0 ++ formatted v4 s (drop replaced.1 args)))
          (before-sub last at (at + 2) format (c ∷ d ∷ []) h)
      ∙ ap (λ q. (result ++ sub last (at - last) format) ++ (q.0 ++ formatted v4 s q.1))
          (replace-filled v4 c d i args is_place)
      ∙ ap (λ t. (result ++ sub last (at - last) format) ++ t)
          (sym (formatted-placed v4 c d s (drop i args) is_place))

  copied-IsFormatted :
      (format : QString) (args : List v4.Value) (c d : ℕ) (s : QString)
      → is_placeholder c d ≡ false
      → IsFormatted format args (d ∷ s)
      → IsFormatted format args (c ∷ d ∷ s)
  unfolding IsFormatted
  copied-IsFormatted format args c d s no_place rest at i last result e h =
      ap (λ ms. format_loop v4 format args ms i last result) (places-copied at c d s no_place)
      ∙ rest (at + 1) i last result
          (ap (λ n. drop n format) (let n : at + 1 ≡ suc at = omega arith in n)
            ∙ drop_tail at format (d ∷ s) c e)
          (omega arith)
      ∙ ap (λ t. (result ++ t) ++ formatted v4 (d ∷ s) (drop i args))
          (copied_snoc last at c (d ∷ s) format h e)
      ∙ moved result (sub last (at - last) format) c (formatted v4 (d ∷ s) (drop i args))
      ∙ ap (λ t. (result ++ sub last (at - last) format) ++ t)
          (sym (formatted-copied v4 c d s (drop i args) no_place))

  text-IsFormatted :
      (format : QString) (args : List v4.Value) (s : QString) → IsFormatted format args s
  unfolding IsFormatted format_loop
  text-IsFormatted format args [] at i last result e h =
      append_rest-spaced_values v4 (result ++ drop last format) (drop i args)
      ∙ ap (λ t. (result ++ t) ++ spaced_values v4 (drop i args))
          (rest_of last at format h
            ∙ ap (λ t. sub last (at - last) format ++ t) e
            ∙ append-nil (sub last (at - last) format))
  text-IsFormatted format args (c ∷ []) at i last result e h =
      append_rest-spaced_values v4 (result ++ drop last format) (drop i args)
      ∙ ap (λ t. (result ++ t) ++ spaced_values v4 (drop i args))
          (rest_of last at format h ∙ ap (λ t. sub last (at - last) format ++ t) e)
      ∙ moved result (sub last (at - last) format) c (spaced_values v4 (drop i args))
  text-IsFormatted format args (c ∷ d ∷ s) at i last result e h =
      elim (Bool-cases (is_placeholder c d)) [
        | inl is_place ↦
            placed-IsFormatted format args c d s is_place (text-IsFormatted format args s) at i last
              result e h
        | inr no_place ↦
            copied-IsFormatted format args c d s no_place (text-IsFormatted format args (d ∷ s)) at
              i last result e h
      ]

  -- util.format, whose first argument is a string, fills the placeholders of that string one after
  -- the other from the arguments behind it, keeps all other characters, and puts the arguments that
  -- are left behind it, each after a space. A `%%` becomes `%` and takes no argument; with no
  -- argument left any placeholder stays as it is.
  pub method_format-formatted :
      (regex : Regex) (v : v4.Value) (args : List v4.Value)
      → v4.is_string v ≡ true
      → method_format v4 regex (v ∷ args) ≡ formatted v4 (v4.to_qstring v) args
  unfolding method_format IsFormatted
  method_format-formatted regex v args is_text =
      rw (is_text, regex.global_match_lem (v4.to_qstring v))
        (text-IsFormatted (v4.to_qstring v) (v ∷ args) (v4.to_qstring v) 0 1 0 [] refl
          (omega arith))

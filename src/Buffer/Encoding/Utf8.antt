-- ===== src/Buffer/Encoding/Utf8.antt =====
-- UTF-8 under a limit: whole characters, as many as fit.
use mathlib.Core.List.{append-nil, append_assoc}
use node_qml.Prelude.{
  ℕ, ◌+◌, ◌<◌, ◌≤◌, length-append, ◌≡◌, refl, ◌⊎◌, inl, inr, some, List, [], ◌∷◌, ◌++◌, arith,
  length, ltb, Bool-cases, ap, sym, ◌∙◌,
}
use node_qml.Memory.{Bytes, QString}
use node_qml.Host.{Text}
use node_qml.Buffer.Encoding.{utf8, append_within, decode_string}

module _ (text : Text) where
  -- The bytes of some characters, one after another.
  abbrev pub utf8_bytes : List ℕ → Bytes
  utf8_bytes [] = []
  utf8_bytes (c ∷ cs) = text.ucs4_to_utf8 c ++ utf8_bytes cs

  append_within_lem :
      (limit : ℕ) (ba : Bytes) (cs : List ℕ)
      → length ba ≤ limit
      → (kept rest : List ℕ) × (append_within text limit ba cs ≡ ba ++ utf8_bytes kept)
        × (length (ba ++ utf8_bytes kept) ≤ limit)
        × (cs ≡ kept ++ rest)
        × ((rest ≡ [])
            ⊎ ((c : ℕ) × (more : List ℕ) × (rest ≡ c ∷ more)
                × (limit < length (ba ++ utf8_bytes kept) + length (text.ucs4_to_utf8 c))))
  unfolding append_within
  append_within_lem limit ba [] short =
      ([], [], sym (append-nil ba), rw (append-nil ba) short, refl, inl refl)
  append_within_lem limit ba (c ∷ cs) short =
      elim (Bool-cases (ltb limit (length ba + length (text.ucs4_to_utf8 c)))) [
        | inl full ↦ (
          [],
          c ∷ cs,
          rw full (sym (append-nil ba)),
          rw (append-nil ba) short,
          refl,
          inr (c, cs, refl, rw (append-nil ba) (ground arith)),
        )
        | inr room ↦
            let (kept, rest, result, inside, split, stop) =
              append_within_lem limit (ba ++ text.ucs4_to_utf8 c) cs
                (ground (arith, length-append ba (text.ucs4_to_utf8 c))) in
            (
              c ∷ kept,
              rest,
              rw room (result ∙ append_assoc ba (text.ucs4_to_utf8 c) (utf8_bytes kept)),
              rw (append_assoc ba (text.ucs4_to_utf8 c) (utf8_bytes kept)) at inside,
              ap (λ t. c ∷ t) split,
              rw (append_assoc ba (text.ucs4_to_utf8 c) (utf8_bytes kept)) at stop,
            )
      ]

  -- Decoding as UTF-8 under a limit gives the bytes of whole characters from the front of the text, no
  -- more than the limit, and stops only at the end, or where the next character would pass the limit.
  pub decode_string-utf8 :
      (str : QString) (limit : ℕ)
      → (kept rest : List ℕ) × (decode_string text str utf8 (some limit) ≡ utf8_bytes kept)
        × (length (utf8_bytes kept) ≤ limit)
        × (text.code_points str ≡ kept ++ rest)
        × ((rest ≡ [])
            ⊎ ((c : ℕ) × (more : List ℕ) × (rest ≡ c ∷ more)
                × (limit < length (utf8_bytes kept) + length (text.ucs4_to_utf8 c))))
  unfolding decode_string
  decode_string-utf8 str limit = append_within_lem limit [] (text.code_points str) (omega arith)

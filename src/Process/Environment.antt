-- ===== src/Process/Environment.antt =====
-- The property `env` of src/nodeqml/modules/process.cpp.
use node_qml.Prelude.{
  ℕ, ◌≡◌, refl, ap, ◌∙◌, false, none, some, List, [], ◌∷◌, ◌++◌, ◌==◌, map, All, contains, text_eq,
  text_eq_iff, find, insert, last_value, or_else, or_else-none, or_else-insert, arith, Bool-cases,
  Option-cases, inl, inr,
}
use node_qml.Memory.{QString}
use node_qml.System.{System, Running}
use node_qml.Process.{split, Members, insert_parts, insert_all, property_env_getter}

abbrev equals_sign : ℕ
equals_sign = b'='

-- NAME=VALUE
abbrev pub entry : QString × QString → QString
entry (name, value) = name ++ (equals_sign ∷ value)

abbrev pub Lacks : QString → Type 0
Lacks s = contains s equals_sign ≡ false

split-Lacks : (s : QString) → Lacks s → split equals_sign s ≡ (s, [])
split-Lacks [] h = refl
split-Lacks (c ∷ s) h = elim (Bool-cases (c == equals_sign)) [
  | inl e ↦ absurd (ground arith)
  | inr e ↦ rw (e, split-Lacks s (ground arith)) refl
]

split-entry :
    (name value : QString)
    → Lacks name
    → split equals_sign (entry (name, value))
      ≡ (name, (split equals_sign value).0 ∷ (split equals_sign value).1)
split-entry [] value h = refl
split-entry (c ∷ name) value h = elim (Bool-cases (c == equals_sign)) [
  | inl e ↦ absurd (ground arith)
  | inr e ↦ rw (e, split-entry name value (ground arith)) refl
]

-- Names and values without an equals sign.
abbrev pub ArePlain : List (QString × QString) → Type 0
ArePlain pairs = All (λ p. Lacks p.0 × Lacks p.1) pairs

-- What the loop makes of plain entries.
Holds : List (QString × QString) → Members → Type 0
Holds pairs env =
    (members : Members) × (insert_all (map entry pairs) env ≡ some members)
    × ((name : QString)
        → find text_eq members name
          ≡ or_else (last_value text_eq pairs name) (find text_eq env name))

insert_all_cons :
    (e : QString) (es : List QString) (env inserted : Members)
    → insert_parts (split equals_sign e) env ≡ some inserted
    → insert_all (e ∷ es) env ≡ insert_all es inserted
unfolding insert_all
insert_all_cons e es env inserted h = rw (insert_all, h) refl

pairs-Holds : (pairs : List (QString × QString)) (env : Members) → ArePlain pairs → Holds pairs env
unfolding insert_all Holds
pairs-Holds [] env plain = (env, refl, λ name. refl)
pairs-Holds ((k, v) ∷ pairs) env ((no_k, no_v), plain) =
    let (members, e, found) = pairs-Holds pairs (insert text_eq env k v) plain in
    (
      members,
      insert_all_cons (entry (k, v)) (map entry pairs) env (insert text_eq env k v)
            (rw (split-entry k v no_k, split-Lacks v no_v) refl)
          ∙ e,
      λ name.
          found name
          ∙ or_else-insert text_eq text_eq_iff (last_value text_eq pairs name) env k v name,
    )

module _ {W : Type 0} (system : System W) where
  -- Of an environment of entries NAME=VALUE, whose names and values have no other equals sign, the
  -- object `env` has exactly the names, each with the last value that the environment has for it.
  pub property_env_getter-last_value :
      (pairs : List (QString × QString)) (r : Running W)
      → system.system_environment r.world ≡ map entry pairs
      → ArePlain pairs
      → (members : Members) × (property_env_getter system r ≡ some members)
        × ((name : QString) → find text_eq members name ≡ last_value text_eq pairs name)
  unfolding property_env_getter Holds
  property_env_getter-last_value pairs r e plain =
      let (members, held, found) = pairs-Holds pairs [] plain in
      (
        members,
        ap (λ es. insert_all es []) e ∙ held,
        λ name. found name ∙ or_else-none (last_value text_eq pairs name),
      )

  insert_all-none :
      (e : QString) (before after : List QString) (env : Members)
      → Lacks e
      → insert_all (before ++ (e ∷ after)) env ≡ none
  unfolding insert_all
  insert_all-none e [] after env h =
      let no_value : insert_parts (split equals_sign e) env ≡ none = rw (split-Lacks e h) refl in
      rw (insert_all, no_value) refl
  insert_all-none e (b ∷ before) after env h =
      elim (Option-cases (insert_parts (split equals_sign b) env)) [
        | inl fault ↦ rw (insert_all, fault) refl
        | inr (inserted, held) ↦
            insert_all_cons b (before ++ (e ∷ after)) env inserted held
            ∙ insert_all-none e before after inserted h
      ]

  -- Of an environment that is one entry, the value ends before its first equals sign; and wherever
  -- an entry without an equals sign stands, reading `env` reads past the end of its parts.
  property_env_getter_loses :
      (name value rest e : QString) (before after : List QString) (r q : Running W)
      → Lacks name
      → Lacks value
      → Lacks e
      → system.system_environment r.world ≡ entry (name, entry (value, rest)) ∷ []
      → system.system_environment q.world ≡ before ++ (e ∷ after)
      → (property_env_getter system r ≡ some ((name, value) ∷ []))
        × (property_env_getter system q ≡ none)
  unfolding property_env_getter insert_all
  property_env_getter_loses name value rest e before after r q no_name no_value no_sign one many = (
    ap (λ es. insert_all es []) one
        ∙ insert_all_cons (entry (name, entry (value, rest))) [] [] ((name, value) ∷ []) (
            rw (split-entry name (entry (value, rest)) no_name, split-entry value rest no_value)
              refl),
    ap (λ es. insert_all es []) many ∙ insert_all-none e before after [] no_sign,
  )

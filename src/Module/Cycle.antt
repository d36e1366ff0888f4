-- ===== src/Module/Cycle.antt =====
-- Modules of src/nodeqml/moduleobject.cpp that require each other in a cycle.
use node_qml.Prelude.{
  ℕ, zero, suc, ◌≡◌, refl, sym, ap, ◌∙◌, true, Option, none, some, [], ◌∷◌, text_eq, codes, find,
  Bool-cases, ==_iff, inl, inr,
}
use node_qml.Memory.{Bytes, QString}
use node_qml.Engine.{State, Answer, state_of}
use node_qml.Engine.Events.{exception_check}
use node_qml.Module.{
  Files, Scripts, Globals, Ran, finished, unending, and_then, resolve_module, parent_path,
}
use node_qml.Module.Load.{
  load, check_run, compile, compile_file, globals_of, set_path, mark_loaded, parse, new_module,
}
use node_qml.Module.Require.{keep_module, require_found, require}

module _ {F : Type 0} where
  -- Two states with the same core modules and the same cache.
  pub record SameCache (s t : State F) : Type 0 where
    pub same_core : t.core_modules ≡ s.core_modules
    pub same_cache : t.cached_modules ≡ s.cached_modules

  SameCache-trans : (s t u : State F) → SameCache s t → SameCache t u → SameCache s u
  SameCache-trans s t u a b = record {
    same_core = b.same_core ∙ a.same_core;
    same_cache = b.same_cache ∙ a.same_cache;
  }

  exception_check-SameCache : (s : State F) → SameCache s (exception_check s)
  unfolding exception_check
  exception_check-SameCache s = elim (Bool-cases s.has_exception) [
    | inl e ↦ record { same_core = rw e refl; same_cache = rw e refl }
    | inr e ↦ record { same_core = rw e refl; same_cache = rw e refl }
  ]

module _ {F : Type 0} (files : Files F) (scripts : Scripts F) where
  new_module-SameCache :
      (id : QString) (parent : Option ℕ) (s : State F)
      → SameCache s ((new_module files scripts id parent s).1)
  unfolding new_module
  new_module-SameCache id none s = record { same_core = refl; same_cache = refl }
  new_module-SameCache id (some p) s = record { same_core = refl; same_cache = refl }

  -- A module whose script requires the module's own name before anything else.
  pub record RequiresItself (path file : QString) : Type 0 where
    pub source : Bytes
    pub is_file : file ≡ [] → ⊥
    pub is_js : text_eq (files.suffix file) (codes "js") ≡ true
    pub has_source : files.read file ≡ some source
    pub is_resolved : (parent : QString) → resolve_module files path parent ≡ file
    pub runs :
        (again : QString → State F → Ran (Answer F F)) (g : Globals F) (u : State F)
        → scripts.run again g source u ≡ and_then (again path u) (λ a. finished (state_of a))

  module _ (path file : QString) (cycle : RequiresItself path file) where
    -- The state that the script runs in.
    abbrev parsed : ℕ → State F → State F
    parsed a s =
        exception_check (parse files scripts cycle.source (set_path files scripts a file s))

    parsed-SameCache : (a : ℕ) (s : State F) → SameCache s (parsed a s)
    unfolding exception_check
    parsed-SameCache a s = elim (Bool-cases (scripts.has_syntax_error cycle.source)) [
      | inl e ↦ rw e (record { same_core = refl; same_cache = refl })
      | inr e ↦ rw e (record {
        same_core = (exception_check-SameCache (set_path files scripts a file s)).same_core;
        same_cache = (exception_check-SameCache (set_path files scripts a file s)).same_cache;
      })
    ]

    -- The script runs before the module stands in the cache.
    load_cycle :
        (again : QString → State F → Ran (Answer F F)) (a : ℕ) (s : State F)
        → ((u : State F) → SameCache s u → again path u ≡ unending)
        → load files scripts again a file s ≡ unending
    unfolding load compile
    load_cycle again a s deeper =
        let here : ((set_path files scripts a file s).objects a).filename ≡ file =
          rw ((==_iff a a).1 refl) refl in
        rw cycle.is_js (
          ap (λ r. and_then r (λ t. finished (mark_loaded files scripts a t)))
            (ap (compile_file files scripts again a (set_path files scripts a file s))
                (ap files.read here ∙ cycle.has_source)
              ∙ ap (λ r. and_then r (check_run files scripts))
                  (cycle.runs again (globals_of files scripts a (set_path files scripts a file s))
                      (parsed a s)
                    ∙ ap (λ r. and_then r (λ t. finished (state_of t)))
                        (deeper (parsed a s) (parsed-SameCache a s)))))

    found_cycle :
        (fuel : ℕ) (filename : QString) (parent : Option ℕ) (s : State F)
        → filename ≡ file
        → find text_eq s.cached_modules file ≡ none
        → ((a : ℕ) (u : State F)
            → SameCache s u
            → require files scripts fuel path (some a) u ≡ unending)
        → require_found files scripts (require files scripts fuel) path filename parent s ≡ unending
    found_cycle fuel [] parent s e missing deeper = absurd (cycle.is_file (sym e))
    found_cycle fuel (c ∷ rest) parent s e missing deeper =
        let made = new_module files scripts file parent s in
        rw (e, missing)
          (ap (λ r. and_then r (λ t. finished (keep_module files scripts file made.0 t)))
            (load_cycle (λ p. require files scripts fuel p (some made.0)) made.0 made.1
              (λ u same.
                deeper made.0 u
                  (SameCache-trans s made.1 u (new_module-SameCache file parent s) same))))

    -- A module whose script requires the module's own name is run again and again, where the name
    -- is not that of a core module and the module not yet in the cache: no bound on the depth is
    -- enough, since the cache gets a module only after its script has run.
    pub require_cycle :
        (fuel : ℕ) (parent : Option ℕ) (s : State F)
        → find text_eq s.core_modules path ≡ none
        → find text_eq s.cached_modules file ≡ none
        → require files scripts fuel path parent s ≡ unending
    unfolding require
    require_cycle zero parent s no_core missing = refl
    require_cycle (suc fuel) parent s no_core missing = rw no_core (
        found_cycle fuel (resolve_module files path (parent_path s parent)) parent s
          (cycle.is_resolved (parent_path s parent)) missing
          (λ a u same.
            require_cycle fuel (some a) u (ap (λ c. find text_eq c path) same.same_core ∙ no_core)
              (ap (λ c. find text_eq c file) same.same_cache ∙ missing)))

-- ===== src/Module/Ranked.antt =====
-- How deep modules of src/nodeqml/moduleobject.cpp require each other, and that `require` ends.
use node_qml.Prelude.{
  ◌&&◌, not, ℕ, zero, suc, ◌<◌, ◌≡◌, refl, ap, sym, ◌∙◌, Option, none, some, [], ◌∷◌, arith,
  text_eq, codes, find, Bool-cases, inl, inr, ==_iff,
}
use node_qml.Memory.{Bytes, QString}
use node_qml.Engine.{State, Answer}
use node_qml.Engine.Events.{exception_check}
use node_qml.Module.{
  Files, Scripts, Globals, Ran, finished, aborted, unending, and_then, resolve_module, parent_path,
}
use node_qml.Module.Load.{
  check_run, load, compile, compile_file, globals_of, set_path, mark_loaded, parse, new_module,
  load_json,
}
use node_qml.Module.Require.{keep_module, require_file, require_found, require_name, require}

-- Two runs that are one and the same, and end.
abbrev pub EndAlike : {X : Type 0} → Ran X → Ran X → Type 0
EndAlike r r' = (r ≡ r') × ¬ (r ≡ unending)

module _ {X Y : Type 0} where
  pub and_then-EndAlike :
      (r r' : Ran X) (k : X → Ran Y)
      → EndAlike r r'
      → ((x : X) → ¬ (k x ≡ unending))
      → EndAlike (and_then r k) (and_then r' k)
  and_then-EndAlike (finished x) r' k (same, ends) next = (ap (λ r. and_then r k) same, next x)
  and_then-EndAlike aborted r' k (same, ends) next =
      (ap (λ r. and_then r k) same, λ e. absurd (ground arith))
  and_then-EndAlike unending r' k (same, ends) next = absurd (ends refl)

pub finished_ends : {X : Type 0} (x : X) → ¬ (finished x ≡ unending)
finished_ends x e = absurd (ground arith)

module _ {F : Type 0} (files : Files F) (scripts : Scripts F) where
  -- The names that modules are required by have ranks, and a module requires only names of a lower
  -- rank than the name that it was found by: its run ends, and depends on what it gets for those
  -- names alone.
  pub record HasRanks (rank : QString → ℕ) : Type 0 where
    pub descends :
        (path parent : QString) (source : Bytes)
        → files.read (resolve_module files path parent) ≡ some source
        → (again again' : QString → State F → Ran (Answer F F)) (g : Globals F) (s : State F)
        → ((q : QString) (t : State F) → rank q < rank path → EndAlike (again q t) (again' q t))
        → EndAlike (scripts.run again g source s) (scripts.run again' g source s)

  module _ (rank : QString → ℕ) (ranks : HasRanks rank) where
    -- Two ways to require that are the same below a rank, and end there.
    abbrev Below : ℕ → (again again' : QString → State F → Ran (Answer F F)) → Type 0
    Below n again again' =
        (q : QString) (t : State F) → rank q < n → EndAlike (again q t) (again' q t)

    check_run_ends : (t : State F) → ¬ (check_run files scripts t ≡ unending)
    check_run_ends t e =
        elim (Bool-cases (t.has_exception && not (scripts.exception_is_object t))) [
          | inl bad ↦ absurd (ground (arith, bad, e))
          | inr good ↦ absurd (ground (arith, good, e))
        ]

    compile_ranked :
        (path parent : QString) (again again' : QString → State F → Ran (Answer F F)) (a : ℕ)
        (s : State F) (o : Option Bytes)
        → Below (rank path) again again'
        → files.read (resolve_module files path parent) ≡ o
        → EndAlike
            (compile_file files scripts again a s o)
            (compile_file files scripts again' a s o)
    compile_ranked path parent again again' a s none below read = (refl, finished_ends _)
    compile_ranked path parent again again' a s (some source) below read =
        and_then-EndAlike _ _ (check_run files scripts)
          (ranks.descends path parent source read again again' (globals_of files scripts a s)
            (exception_check (parse files scripts source s)) below)
          check_run_ends

    load_ranked :
        (path parent file : QString) (again again' : QString → State F → Ran (Answer F F)) (a : ℕ)
        (s : State F)
        → Below (rank path) again again'
        → resolve_module files path parent ≡ file
        → EndAlike (load files scripts again a file s) (load files scripts again' a file s)
    unfolding load compile
    load_ranked path parent file again again' a s below resolved =
        let named = set_path files scripts a file s in
        let here : (named.objects a).filename ≡ file = rw ((==_iff a a).1 refl) refl in
        elim (Bool-cases (text_eq (files.suffix file) (codes "js"))) [
          | inl is_js ↦ rw is_js (
              and_then-EndAlike _ _ (λ t. finished (mark_loaded files scripts a t))
                (compile_ranked path parent again again' a named
                  (files.read (named.objects a).filename) below
                  (ap files.read (resolved ∙ sym here)))
                (λ t. finished_ends (mark_loaded files scripts a t)))
          | inr no_js ↦ elim (Bool-cases (text_eq (files.suffix file) (codes "json"))) [
            | inl is_json ↦
                rw (no_js, is_json) (refl, finished_ends (load_json files scripts a named))
            | inr no_json ↦ rw (no_js, no_json) (refl, λ e. absurd (ground arith))
          ]
        ]

    -- The same for `require`, which also gets the module that requires.
    abbrev BelowAll : ℕ → (again again' : QString → Option ℕ → State F → Ran (Answer F F)) → Type 0
    BelowAll n again again' =
        (q : QString) (p : Option ℕ) (t : State F)
        → rank q < n
        → EndAlike (again q p t) (again' q p t)

    file_ranked :
        (path parent file : QString)
        (again again' : QString → Option ℕ → State F → Ran (Answer F F)) (from : Option ℕ)
        (s : State F) (o : Option ℕ)
        → BelowAll (rank path) again again'
        → resolve_module files path parent ≡ file
        → EndAlike
            (require_file files scripts again file from s o)
            (require_file files scripts again' file from s o)
    file_ranked path parent file again again' from s (some a) below resolved =
        (refl, finished_ends _)
    file_ranked path parent file again again' from s none below resolved =
        let made = new_module files scripts file from s in
        and_then-EndAlike _ _ (λ t. finished (keep_module files scripts file made.0 t))
          (load_ranked path parent file (λ q. again q (some made.0)) (λ q. again' q (some made.0))
            made.0 made.1 (λ q t low. below q (some made.0) t low) resolved)
          (λ t. finished_ends (keep_module files scripts file made.0 t))

    found_ranked :
        (path parent file : QString)
        (again again' : QString → Option ℕ → State F → Ran (Answer F F)) (from : Option ℕ)
        (s : State F)
        → BelowAll (rank path) again again'
        → resolve_module files path parent ≡ file
        → EndAlike
            (require_found files scripts again path file from s)
            (require_found files scripts again' path file from s)
    found_ranked path parent [] again again' from s below resolved = (refl, finished_ends _)
    found_ranked path parent (c ∷ rest) again again' from s below resolved =
        file_ranked path parent (c ∷ rest) again again' from s
          (find text_eq s.cached_modules (c ∷ rest)) below resolved

    name_ranked :
        (path : QString) (again again' : QString → Option ℕ → State F → Ran (Answer F F))
        (from : Option ℕ) (s : State F) (o : Option F)
        → BelowAll (rank path) again again'
        → EndAlike
            (require_name files scripts again path from s o)
            (require_name files scripts again' path from s o)
    name_ranked path again again' from s (some x) below = (refl, finished_ends _)
    name_ranked path again again' from s none below =
        found_ranked path (parent_path s from) (resolve_module files path (parent_path s from))
          again again' from s below refl

    -- `require` ends, with any fuel above the rank of the name, and it comes to the same with any
    -- such fuel: where modules require only modules of a lower rank, no bound on the depth is met.
    pub require-EndAlike :
        (fuel more : ℕ) (path : QString) (from : Option ℕ) (s : State F)
        → rank path < fuel
        → rank path < more
        → EndAlike (require files scripts fuel path from s) (require files scripts more path from s)
    unfolding require
    require-EndAlike zero more path from s low high = absurd (omega arith)
    require-EndAlike (suc fuel) zero path from s low high = absurd (omega arith)
    require-EndAlike (suc fuel) (suc more) path from s low high =
        name_ranked path (require files scripts fuel) (require files scripts more) from s
          (find text_eq s.core_modules path)
          (λ q p t less. require-EndAlike fuel more q p t (omega arith) (omega arith))

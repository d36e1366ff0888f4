-- ===== src/Module/Cached.antt =====
-- ModuleObject::require of src/nodeqml/moduleobject.cpp and the cache: a module runs once, unless
-- modules require each other in a cycle.
use node_qml.Prelude.{
  ℕ, zero, suc, ◌≡◌, refl, ap, subst, Option, none, some, [], ◌∷◌, arith, text_eq, text_eq_iff,
  find, find-insert,
}
use node_qml.Memory.{QString}
use node_qml.Engine.{State, Answer, returned, thrown}
use node_qml.Engine.Events.{exception_check}
use node_qml.Module.{
  Files, Scripts, Ran, finished, aborted, unending, and_then, parent_path, resolve_module,
  cache_module,
}
use node_qml.Module.Load.{load, new_module}
use node_qml.Module.Require.{keep_module, require_file, require_found, require_name, require}

module _ {F : Type 0} (files : Files F) (scripts : Scripts F) where
  -- How a `require` that returned came to its exports: from the core modules or the cache, with the
  -- state unchanged, or from a module that it loaded and that stands in the cache afterwards.
  pub data Required (path file : QString) (s : State F) : F → State F → Type 0 where
    core_required : (x : F) → find text_eq s.core_modules path ≡ some x → Required path file s x s
    cached_required :
        (a : ℕ)
        → find text_eq s.core_modules path ≡ none
        → (file ≡ [] → ⊥)
        → find text_eq s.cached_modules file ≡ some a
        → Required path file s (s.objects a).exports s
    loaded_required :
        (a : ℕ) (t : State F)
        → find text_eq s.core_modules path ≡ none
        → (file ≡ [] → ⊥)
        → find text_eq t.cached_modules file ≡ some a
        → Required path file s (t.objects a).exports t

  -- A property of the exports and the state that a `require` returns.
  abbrev Returns : (F → State F → Type 0) → Ran (Answer F F) → Type 0
  Returns P (finished (returned x t)) = P x t
  Returns P (finished (thrown e t)) = Unit
  Returns P aborted = Unit
  Returns P unending = Unit

  loaded-Returns :
      (path file : QString) (s : State F) (a : ℕ)
      → find text_eq s.core_modules path ≡ none
      → (file ≡ [] → ⊥)
      → (r : Ran (State F))
      → Returns
          (Required path file s)
          (and_then r (λ t. finished (keep_module files scripts file a t)))
  loaded-Returns path file s a no_core a_file (finished t) =
      loaded_required a (cache_module (exception_check t) file a) no_core a_file
        (find-insert text_eq text_eq_iff (exception_check t).cached_modules file a)
  loaded-Returns path file s a no_core a_file aborted = tt
  loaded-Returns path file s a no_core a_file unending = tt

  file-Returns :
      (again : QString → Option ℕ → State F → Ran (Answer F F)) (path file : QString)
      (parent : Option ℕ) (s : State F)
      → find text_eq s.core_modules path ≡ none
      → (file ≡ [] → ⊥)
      → (o : Option ℕ) → find text_eq s.cached_modules file ≡ o
      → Returns (Required path file s) (require_file files scripts again file parent s o)
  file-Returns again path file parent s no_core a_file (some a) kept =
      cached_required a no_core a_file kept
  file-Returns again path file parent s no_core a_file none kept =
      let made = new_module files scripts file parent s in
      loaded-Returns path file s made.0 no_core a_file
        (load files scripts (λ p. again p (some made.0)) made.0 file made.1)

  found-Returns :
      (again : QString → Option ℕ → State F → Ran (Answer F F)) (path file : QString)
      (parent : Option ℕ) (s : State F)
      → find text_eq s.core_modules path ≡ none
      → Returns (Required path file s) (require_found files scripts again path file parent s)
  found-Returns again path [] parent s no_core = tt
  found-Returns again path (c ∷ rest) parent s no_core =
      file-Returns again path (c ∷ rest) parent s no_core (λ e. absurd (ground arith))
        (find text_eq s.cached_modules (c ∷ rest)) refl

  name-Returns :
      (again : QString → Option ℕ → State F → Ran (Answer F F)) (path : QString) (parent : Option ℕ)
      (s : State F) (o : Option F)
      → find text_eq s.core_modules path ≡ o
      → Returns
          (Required path (resolve_module files path (parent_path s parent)) s)
          (require_name files scripts again path parent s o)
  name-Returns again path parent s (some x) is_core = core_required x is_core
  name-Returns again path parent s none no_core =
      found-Returns again path (resolve_module files path (parent_path s parent)) parent s no_core

  require-Returns :
      (fuel : ℕ) (path : QString) (parent : Option ℕ) (s : State F)
      → Returns
          (Required path (resolve_module files path (parent_path s parent)) s)
          (require files scripts fuel path parent s)
  unfolding require
  require-Returns zero path parent s = tt
  require-Returns (suc fuel) path parent s =
      name-Returns (require files scripts fuel) path parent s (find text_eq s.core_modules path)
        refl

  -- A `require` that returns exports has them from the core modules or from the cache, and then
  -- changed nothing, or from a module that stands in the cache under the resolved name from then
  -- on, and they are what that module exports at the end.
  require-Required :
      (fuel : ℕ) (path : QString) (parent : Option ℕ) (s t : State F) (x : F)
      → require files scripts fuel path parent s ≡ finished (returned x t)
      → Required path (resolve_module files path (parent_path s parent)) s x t
  require-Required fuel path parent s t x e =
      subst (Returns (Required path (resolve_module files path (parent_path s parent)) s)) e
        (require-Returns fuel path parent s)

  found_again :
      (again : QString → Option ℕ → State F → Ran (Answer F F)) (path file : QString)
      (parent : Option ℕ) (t : State F) (a : ℕ)
      → (file ≡ [] → ⊥)
      → find text_eq t.cached_modules file ≡ some a
      → require_found files scripts again path file parent t
        ≡ finished (returned (t.objects a).exports t)
  found_again again path [] parent t a a_file kept = absurd (a_file refl)
  found_again again path (c ∷ rest) parent t a a_file kept = rw kept refl

  name_again :
      (again : QString → Option ℕ → State F → Ran (Answer F F)) (path file : QString)
      (parent : Option ℕ) (s t : State F) (x : F)
      → Required path file s x t
      → resolve_module files path (parent_path t parent) ≡ file
      → require_name files scripts again path parent t (find text_eq s.core_modules path)
        ≡ finished (returned x t)
  name_again again path file parent s _ x (core_required _ is_core) e = rw is_core refl
  name_again again path file parent s _ _ (cached_required a no_core a_file kept) e =
      rw (no_core, e) (found_again again path file parent s a a_file kept)
  name_again again path file parent s t _ (loaded_required a _ no_core a_file kept) e =
      rw (no_core, e) (found_again again path file parent t a a_file kept)

  -- A module that was required once is not run again: the same `require`, in the state that the
  -- first one left, returns the same exports and changes nothing, where the core modules and the
  -- directory of the requiring module are still the same.
  pub require-require :
      (fuel again : ℕ) (path : QString) (parent : Option ℕ) (s t : State F) (x : F)
      → require files scripts fuel path parent s ≡ finished (returned x t)
      → t.core_modules ≡ s.core_modules
      → parent_path t parent ≡ parent_path s parent
      → require files scripts (suc again) path parent t ≡ finished (returned x t)
  unfolding require
  require-require fuel again path parent s t x first same_core same_path =
      rw (ap (λ c. find text_eq c path) same_core) (
        name_again (require files scripts again) path
          (resolve_module files path (parent_path s parent)) parent s t x
          (require-Required fuel path parent s t x first)
          (ap (resolve_module files path) same_path))

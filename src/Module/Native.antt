-- ===== src/Module/Native.antt =====
-- The native modules that src/nodeqml/engine.cpp registers, as `require` finds them.
use node_qml.Prelude.{
  ℕ, suc, ◌≡◌, ◌⊎◌, inl, inr, Option-cases, refl, ap, ◌∙◌, Option, none, some, [], text_eq, find,
}
use node_qml.Memory.{QString}
use node_qml.Engine.{State, returned}
use node_qml.Engine.Registry.{Natives, register_modules, native_of, find-register_modules}
use node_qml.Module.{Files, Scripts, finished, parent_path, resolve_module}
use node_qml.Module.Require.{require, require_found}

module _ {F : Type 0} (files : Files F) (scripts : Scripts F) where
  -- In a state that still has the native modules of a new engine, `require` of fs, os, path or util
  -- gives that native module and changes nothing, whatever files there are; any other name goes on
  -- to the search for a file.
  require-native_of :
      (natives : Natives F) (new s : State F) (fuel : ℕ) (id : QString) (parent : Option ℕ)
      → new.core_modules ≡ []
      → s.core_modules ≡ (register_modules natives new).core_modules
      → ((x : F) × (native_of natives id ≡ some x)
          × (require files scripts (suc fuel) id parent s ≡ finished (returned x s)))
        ⊎ ((native_of natives id ≡ none)
            × (require files scripts (suc fuel) id parent s
                ≡ require_found files scripts
                    (require files scripts fuel)
                    id
                    (resolve_module files id (parent_path s parent))
                    parent
                    s))
  unfolding require
  require-native_of natives new s fuel id parent is_new same =
      let found : find text_eq s.core_modules id ≡ native_of natives id =
        ap (λ t. find text_eq t id) same ∙ find-register_modules natives new id is_new in
      elim (Option-cases (native_of natives id)) [
        | inl e ↦ inr (e, rw (found, e) refl)
        | inr (x, e) ↦ inl (x, e, rw (found, e) refl)
      ]

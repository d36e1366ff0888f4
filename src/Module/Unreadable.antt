-- ===== src/Module/Unreadable.antt =====
-- Modules of src/nodeqml/moduleobject.cpp whose file cannot be read.
use node_qml.Prelude.{
  ℕ, ◌≡◌, refl, ap, ◌∙◌, true, false, Option, none, some, ◌∷◌, text_eq, text_eq_iff, codes, find,
  find-insert, ==_iff, ◌==◌,
}
use node_qml.Memory.{QString}
use node_qml.Engine.{State, Answer, returned, quit}
use node_qml.Engine.Events.{exception_check}
use node_qml.Module.{Files, Scripts, Ran, finished, and_then, cache_module}
use node_qml.Module.Load.{load, compile, compile_file, set_path, mark_loaded, new_module}
use node_qml.Module.Require.{keep_module, load_new}

module _ {F : Type 0} (files : Files F) (scripts : Scripts F) where
  new_module-trace :
      (id : QString) (parent : Option ℕ) (s : State F)
      → (new_module files scripts id parent s).1.trace ≡ s.trace
  unfolding new_module
  new_module-trace id none s = refl
  new_module-trace id (some p) s = refl

  -- The state that loading an unreadable script leaves.
  abbrev unreadable : ℕ → QString → State F → State F
  unreadable a file s =
      mark_loaded files scripts a
        (record (set_path files scripts a file s) { has_exception = true })

  load-unreadable :
      (again : QString → State F → Ran (Answer F F)) (file : QString) (a : ℕ) (s : State F)
      → text_eq (files.suffix file) (codes "js") ≡ true
      → files.read file ≡ none
      → load files scripts again a file s ≡ finished (unreadable a file s)
  unfolding load compile
  load-unreadable again file a s is_js no_source =
      let here : ((set_path files scripts a file s).objects a).filename ≡ file =
        rw ((==_iff a a).1 refl) refl in
      rw is_js (
        ap (λ r. and_then r (λ t. finished (mark_loaded files scripts a t)))
          (ap (compile_file files scripts again a (set_path files scripts a file s))
            (ap files.read here ∙ no_source)))

  unreadable-objects :
      (a : ℕ) (file : QString) (s : State F)
      → (((unreadable a file s).objects a).exports ≡ (s.objects a).exports)
        × (((unreadable a file s).objects a).loaded ≡ true)
  unreadable-objects a file s =
      let same : (a == a) ≡ true = (==_iff a a).1 refl in (rw same refl, rw same refl)

  new_module-exports :
      (id : QString) (parent : Option ℕ) (s : State F)
      → ((new_module files scripts id parent s).1.objects s.next).exports
        ≡ scripts.new_object s.next
  unfolding new_module
  new_module-exports id parent s = rw ((==_iff s.next s.next).1 refl) refl

  -- What `require` does for a script file that cannot be read: it returns the empty exports of the
  -- new module as if nothing were wrong. The error reaches only the exception check, which asks the
  -- program to quit and clears it; the module counts as loaded and stays in the cache.
  load_unreadable :
      (again : QString → Option ℕ → State F → Ran (Answer F F)) (file : QString) (parent : Option ℕ)
      (s : State F)
      → text_eq (files.suffix file) (codes "js") ≡ true
      → files.read file ≡ none
      → (t : State F) × (load_new files scripts again file parent s
          ≡ finished (returned (scripts.new_object s.next) t))
        × (t.has_exception ≡ false)
        × (t.trace ≡ quit 1 ∷ s.trace)
        × (find text_eq t.cached_modules file ≡ some s.next)
        × ((t.objects s.next).loaded ≡ true)
  unfolding new_module exception_check
  load_unreadable again file parent s is_js no_source =
      let made = (new_module files scripts file parent s).1 in
      let left = exception_check (unreadable s.next file made) in
      let objects = unreadable-objects s.next file made in
      (
        cache_module left file s.next,
        ap (λ r. and_then r (λ t. finished (keep_module files scripts file s.next t)))
              (load-unreadable (λ p. again p (some s.next)) file s.next made is_js no_source)
            ∙ ap (λ x. finished (returned x (cache_module left file s.next)))
                (objects.0 ∙ new_module-exports file parent s),
        refl,
        ap (λ c. quit 1 ∷ c) (new_module-trace file parent s),
        find-insert text_eq text_eq_iff left.cached_modules file s.next,
        objects.1,
      )

-- ===== src/Tool/Started.antt =====
-- The start of the script that src/tools/nodeqml/main.cpp requires.
use node_qml.Prelude.{
  ◌&&◌, not, if◌then◌else◌, false, ℕ, suc, ◌≡◌, refl, ap, ◌∙◌, true, none, some, [], ◌∷◌, text_eq,
  codes, find, ==_iff,
}
use node_qml.Memory.{Bytes, QString}
use node_qml.Host.{V4}
use node_qml.Engine.{State, Answer, returned}
use node_qml.Engine.Events.{exception_check}
use node_qml.Module.{aborted, Files, Scripts, Ran, finished, and_then, resolve_module, cache_module}
use node_qml.Module.Load.{
  check_run, new_module, globals_of, parse, set_path, mark_loaded, compile, compile_file, load,
}
use node_qml.Module.Require.{keep_module, require}

module _ (v4 : V4) (files : Files v4.Value) (scripts : Scripts v4.Value) where
  -- The start of a script: its file is found, has the suffix js and can be read, and its run ends in
  -- the state `t`, with no exception but one that is an object.
  pub record Starts (fuel : ℕ) (node : State v4.Value) (script : QString) (c : ℕ) (rest : QString)
      (source : Bytes) (t : State v4.Value) : Type 0 where
    pub no_native : find text_eq node.core_modules script ≡ none
    pub resolved : resolve_module files script [] ≡ c ∷ rest
    pub no_cache : find text_eq node.cached_modules (c ∷ rest) ≡ none
    pub is_js : text_eq (files.suffix (c ∷ rest)) (codes "js") ≡ true
    pub has_source : files.read (c ∷ rest) ≡ some source
    pub runs :
        (let made = new_module files scripts (c ∷ rest) none node in
          let named = set_path files scripts made.0 (c ∷ rest) made.1 in
          scripts.run
            (λ p. require files scripts fuel p (some made.0))
            (globals_of files scripts made.0 named)
            source
            (exception_check (parse files scripts source named))
          ≡ finished t)
    pub throws_object : (t.has_exception && not (scripts.exception_is_object t)) ≡ false

  -- The new module, named after its file, in which the script starts.
  abbrev named : ℕ → QString → State v4.Value → State v4.Value
  named a file s = set_path files scripts a file s

  load_started :
      (again : QString → State v4.Value → Ran (Answer v4.Value v4.Value)) (a : ℕ) (file : QString)
      (source : Bytes) (s t : State v4.Value)
      → text_eq (files.suffix file) (codes "js") ≡ true
      → files.read file ≡ some source
      → scripts.run again
          (globals_of files scripts a (named a file s))
          source
          (exception_check (parse files scripts source (named a file s)))
        ≡ finished t
      → (t.has_exception && not (scripts.exception_is_object t)) ≡ false
      → load files scripts again a file s
        ≡ finished (mark_loaded files scripts a (exception_check t))
  unfolding load compile
  load_started again a file source s t is_js has_source runs object =
      let here : ((named a file s).objects a).filename ≡ file = rw ((==_iff a a).1 refl) refl in
      rw is_js (
        ap (λ r. and_then r (λ u. finished (mark_loaded files scripts a u)))
          (ap (compile_file files scripts again a (named a file s))
              (ap files.read here ∙ has_source)
            ∙ ap (λ r. and_then r (check_run files scripts)) runs
            ∙ ap (λ b. if b then aborted else finished (exception_check t)) object))

  -- What `require` leaves behind the script: the module is loaded and in the cache.
  abbrev pub kept : ℕ → QString → State v4.Value → State v4.Value
  kept a file t =
      cache_module (exception_check (mark_loaded files scripts a (exception_check t))) file a

  -- The exports of the module behind that.
  abbrev pub exports_of : ℕ → QString → State v4.Value → v4.Value
  exports_of a file t = ((kept a file t).objects a).exports

  pub require_started :
      (fuel : ℕ) (node : State v4.Value) (script : QString) (c : ℕ) (rest : QString)
      (source : Bytes) (t : State v4.Value)
      → Starts fuel node script c rest source t
      → (let a = (new_module files scripts (c ∷ rest) none node).0 in
          require files scripts (suc fuel) script none node
          ≡ finished (returned (exports_of a (c ∷ rest) t) (kept a (c ∷ rest) t)))
  unfolding require
  require_started fuel node script c rest source t starts =
      let file = c ∷ rest in
      let made = new_module files scripts file none node in
      rw (starts.no_native, starts.resolved, starts.no_cache)
        (ap (λ r. and_then r (λ u. finished (keep_module files scripts file made.0 u)))
          (load_started (λ p. require files scripts fuel p (some made.0)) made.0 file source made.1
            t starts.is_js starts.has_source starts.runs starts.throws_object))

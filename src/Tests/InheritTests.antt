-- ===== src/Tests/InheritTests.antt =====
-- A store of objects that meets what `inherits` asks of one, as the log of what was done to it.
use node_qml.Prelude.{
  ℕ, suc, ◌≡◌, ◌<◌, refl, Bool, true, false, ◌&&◌, not, Option, none, some, [], ◌∷◌, ltb, ◌==◌,
  if◌then◌else◌, text_eq, text_eq_iff, arith,
}
use node_qml.Memory.{QString}
use node_qml.Host.{V4}
use node_qml.Util.Inherits.{ObjectStore, method_inherits}
use node_qml.Util.Inherited.{Inherits, method_inherits-Inherits}
use node_qml.Tests.Hosts.{Js, js, function}

-- Functions are the objects.
abbrev functions : V4
functions = record js { is_object = λ v. elim v [ function n ↦ true | _ ↦ false ] }

data Log : Type 0 where
  blank : Log
  created : Log → Log
  stored : QString → Js → ℕ → Log → Log
  linked : ℕ → Option ℕ → Log → Log

abbrev size : Log → ℕ
size blank = 0
size (created s) = suc (size s)
size (stored n v p s) = size s
size (linked p q s) = size s

abbrev own : ℕ → QString → Log → Option Js
own o m blank = none
own o m (created s) = own o m s
own o m (stored n v p s) = if (o == p) && text_eq n m then some v else own o m s
own o m (linked p q s) = own o m s

abbrev accepted : ℕ → Option ℕ → Log → Bool
accepted p none s = true
accepted p (some q) s = ltb q (size s) && not (q == p)

abbrev parent : ℕ → Log → Option ℕ
parent o blank = none
parent o (created s) = if o == size s then none else parent o s
parent o (stored n v p s) = parent o s
parent o (linked p q s) = if (o == p) && accepted p q s then q else parent o s

parent_there : (s : Log) (o p : ℕ) → parent o s ≡ some p → p < size s
parent_there blank o p e = absurd cc
parent_there (created s) o p e = ground (arith, parent_there s o p)
parent_there (stored n v q s) o p e = parent_there s o p e
parent_there (linked q none s) o p e = ground (arith, parent_there s o p)
parent_there (linked q (some r) s) o p e = ground (arith, parent_there s o p)

accepted_created :
    (s : Log) (q : Option ℕ)
    → ((p : ℕ) → q ≡ some p → p < size s)
    → accepted (size s) q (created s) ≡ true
accepted_created s none there = refl
accepted_created s (some q) there = ground (arith, there q refl)

same_text : (o : ℕ) (n : QString) (v : Js) (s : Log) → own o n (stored n v o s) ≡ some v
same_text o n v s = ground (arith, (text_eq_iff n n).1 refl)

abbrev objects : ObjectStore functions
objects = record {
  Store = Log;
  Object = ℕ;
  as_object = λ v. elim v [ function n ↦ n | _ ↦ 0 ];
  of_object = λ n. Js.function n;
  of_boolean = λ b. Js.undefined;
  new_object = λ s. (size s, created s);
  define = λ n v o s. stored n v o s;
  get_own = own;
  prototype = parent;
  set_prototype = λ o q s. linked o q s;
  is_accepted = accepted;
  IsThere = λ o s. o < size s;
  new_there = λ s. omega arith;
  new_other = λ s o there. omega arith;
  there_new = λ s o there. omega arith;
  there_define = λ s o p n v there. there;
  there_set_prototype = λ s o p q there. there;
  get_new = λ s o n there. refl;
  get_define = λ s o n v. same_text o n v s;
  get_define_name = λ s o p n m v other. ground (arith, other);
  get_define_object = λ s o p n m v ne. ground arith;
  get_set_prototype = λ s o p q n. refl;
  prototype_new = λ s o there. ground arith;
  prototype_define = λ s o p n v. refl;
  prototype_set_prototype = λ s o q e. ground (arith, e);
  prototype_set_prototype_other = λ s o p q ne. ground arith;
  prototype_there = λ s o p there e. parent_there s o p e;
  accepted_new = λ s q there. accepted_created s q there;
}

-- A constructor, 1, and what it shall inherit from, 2, above 0.
abbrev start : Log
start = linked 2 (some 0) (created (created (created blank)))

method_inherits-Inherits_example :
    Inherits functions objects
      (Js.function 1 ∷ Js.function 2 ∷ [])
      start
      (method_inherits functions objects (Js.function 1 ∷ Js.function 2 ∷ []) start)
method_inherits-Inherits_example =
    method_inherits-Inherits functions objects (Js.function 1 ∷ Js.function 2 ∷ []) start
      (omega arith) (omega arith) refl

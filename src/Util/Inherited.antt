-- ===== src/Util/Inherited.antt =====
-- What UtilModule::method_inherits of src/nodeqml/modules/util.cpp leaves behind.
use node_qml.Prelude.{
  ◌≡◌, ◌≢◌, ◌⊎◌, inl, inr, refl, sym, ◌∙◌, true, false, some, List, length, ltb, codes, text_eq,
  arith, Bool-cases, ◌≤◌, ◌<◌,
}
use node_qml.Memory.{QString}
use node_qml.Host.{V4, argument}
use node_qml.Util.Inherits.{
  ObjectStore, Inheriting, inherited, refused, describe, with_super, chained, prepared, inherit,
  method_inherits,
}

module _ (v4 : V4) (objects : ObjectStore v4) where
  -- The chain of the constructor leads over a new object to what the super constructor has; the new
  -- object has a property `constructor`, which is a description whose value is the constructor.
  pub record IsHeir (ctor super : objects.Object) (s s' : objects.Store) : Type 0 where
    pub between : objects.Object
    pub description : objects.Object
    pub below : objects.prototype ctor s' ≡ some between
    pub above : objects.prototype between s' ≡ objects.prototype super s
    pub super_kept : objects.get_own ctor (codes "super_") s' ≡ some (objects.of_object super)
    pub described :
        objects.get_own between (codes "constructor") s' ≡ some (objects.of_object description)
    pub names_it : objects.get_own description (codes "value") s' ≡ some (objects.of_object ctor)
    -- No object that was there gets or loses a property but `super_` of the constructor: the objects
    -- that the constructor makes have the prototype that they had.
    pub others :
        (o : objects.Object) (n : QString)
        → objects.IsThere o s
        → (o ≢ ctor) ⊎ (text_eq (codes "super_") n ≡ false)
        → objects.get_own o n s' ≡ objects.get_own o n s

  get-describe :
      (ctor d o : objects.Object) (n : QString) (s : objects.Store)
      → o ≢ d
      → objects.get_own o n (describe v4 objects ctor d s) ≡ objects.get_own o n s
  get-describe ctor d o n s ne =
      objects.get_define_object _ d o (codes "configurable") n _ ne
      ∙ objects.get_define_object _ d o (codes "writable") n _ ne
      ∙ objects.get_define_object _ d o (codes "enumerable") n _ ne
      ∙ objects.get_define_object _ d o (codes "value") n _ ne

  value-describe :
      (ctor d : objects.Object) (s : objects.Store)
      → objects.get_own d (codes "value") (describe v4 objects ctor d s)
        ≡ some (objects.of_object ctor)
  unfolding text_eq
  value-describe ctor d s =
      objects.get_define_name _ d d (codes "configurable") (codes "value") _ refl
      ∙ objects.get_define_name _ d d (codes "writable") (codes "value") _ refl
      ∙ objects.get_define_name _ d d (codes "enumerable") (codes "value") _ refl
      ∙ objects.get_define _ d (codes "value") _

  prototype-describe :
      (ctor d o : objects.Object) (s : objects.Store)
      → objects.prototype o (describe v4 objects ctor d s) ≡ objects.prototype o s
  prototype-describe ctor d o s =
      objects.prototype_define _ o d (codes "configurable") _
      ∙ objects.prototype_define _ o d (codes "writable") _
      ∙ objects.prototype_define _ o d (codes "enumerable") _
      ∙ objects.prototype_define _ o d (codes "value") _

  module _ (ctor super : objects.Object) (s : objects.Store) where
    abbrev made : objects.Object × objects.Store
    made = objects.new_object (with_super v4 objects ctor super s)

    abbrev next : objects.Object × objects.Store
    next = objects.new_object (chained v4 objects super made)

    there_chained :
        (o : objects.Object)
        → objects.IsThere o s
        → objects.IsThere o (chained v4 objects super made)
    there_chained o there =
        objects.there_set_prototype made.1 o made.0 _
          (objects.there_new _ o (objects.there_define s o ctor (codes "super_") _ there))

    made-there : objects.IsThere made.0 (chained v4 objects super made)
    made-there = objects.there_set_prototype made.1 made.0 made.0 _ (objects.new_there _)

    not_made : (o : objects.Object) → objects.IsThere o s → o ≢ made.0
    not_made o there =
        objects.new_other _ o (objects.there_define s o ctor (codes "super_") _ there)

    not_next : (o : objects.Object) → objects.IsThere o s → o ≢ next.0
    not_next o there = objects.new_other _ o (there_chained o there)

    get-prepared :
        (o : objects.Object) (n : QString)
        → objects.IsThere o s
        → objects.get_own o n (inherit v4 objects ctor super s)
          ≡ objects.get_own o n (with_super v4 objects ctor super s)
    get-prepared o n there =
        objects.get_set_prototype _ o ctor _ n
        ∙ objects.get_define_object _ made.0 o (codes "constructor") n _ (not_made o there)
        ∙ get-describe ctor next.0 o n next.1 (not_next o there)
        ∙ objects.get_new _ o n (there_chained o there)
        ∙ objects.get_set_prototype _ o made.0 _ n
        ∙ objects.get_new _ o n (objects.there_define s o ctor (codes "super_") _ there)

    get-with_super :
        (o : objects.Object) (n : QString)
        → text_eq (codes "super_") n ≡ false
        → objects.get_own o n (with_super v4 objects ctor super s) ≡ objects.get_own o n s
    get-with_super o n name = objects.get_define_name s o ctor (codes "super_") n _ name

    inherit-IsHeir :
        objects.IsThere ctor s
        → objects.IsThere super s
        → objects.is_accepted ctor
            (some (prepared v4 objects ctor super s).0)
            (prepared v4 objects ctor super s).1
          ≡ true
        → IsHeir ctor super s (inherit v4 objects ctor super s)
    inherit-IsHeir there_ctor there_super accepted =
        let there_super' = objects.there_define s super ctor (codes "super_") _ there_super in
        let apart : made.0 ≢ ctor = λ e. not_made ctor there_ctor (sym e) in
        let new_apart : made.0 ≢ next.0 = objects.new_other _ made.0 made-there in
        record {
          between = made.0;
          description = next.0;
          below = objects.prototype_set_prototype _ ctor _ accepted;
          above =
              objects.prototype_set_prototype_other _ made.0 ctor _ apart
              ∙ objects.prototype_define _ made.0 made.0 (codes "constructor") _
              ∙ prototype-describe ctor next.0 made.0 next.1
              ∙ objects.prototype_new _ made.0 made-there
              ∙ objects.prototype_set_prototype made.1 made.0 _ (
                  objects.accepted_new _ _ (λ p e.
                    objects.prototype_there _ super p there_super'
                      (sym (objects.prototype_new _ super there_super') ∙ e)))
              ∙ objects.prototype_new _ super there_super'
              ∙ objects.prototype_define s super ctor (codes "super_") _;
          super_kept =
              get-prepared ctor (codes "super_") there_ctor
              ∙ objects.get_define s ctor (codes "super_") _;
          described =
              objects.get_set_prototype _ made.0 ctor _ (codes "constructor")
              ∙ objects.get_define _ made.0 (codes "constructor") _;
          names_it =
              objects.get_set_prototype _ next.0 ctor _ (codes "value")
              ∙ objects.get_define_object _ made.0 next.0 (codes "constructor") (codes "value") _
                  (λ e. new_apart (sym e))
              ∙ value-describe ctor next.0 next.1;
          others = λ o n there other. get-prepared o n there ∙ elim other [
            | inl ne ↦ objects.get_define_object s ctor o (codes "super_") n _ ne
            | inr name ↦ get-with_super o n name
          ];
        }

  abbrev first : List v4.Value → objects.Object
  first args = objects.as_object (argument v4 args 0)

  abbrev second : List v4.Value → objects.Object
  second args = objects.as_object (argument v4 args 1)

  -- What a call of inherits may come to.
  abbrev pub Inherits : List v4.Value → objects.Store → Inheriting objects.Store → Type 0
  Inherits args s (inherited s') =
      (2 ≤ length args)
      × (v4.is_object (argument v4 args 0) ≡ true)
      × (v4.is_object (argument v4 args 1) ≡ true)
      × IsHeir (first args) (second args) s s'
  Inherits args s (refused e s') =
      (s' ≡ s)
      × ((length args < 2)
          ⊎ (v4.is_object (argument v4 args 0) ≡ false)
          ⊎ (v4.is_object (argument v4 args 1) ≡ false))

  -- inherits, where both arguments are objects that are there and no chain of prototypes would close:
  -- with fewer than two arguments, or one that is no object, an exception and nothing changed; else
  -- the constructor itself is an heir of the super constructor's prototype, by a new object whose
  -- `constructor` is a description of the constructor, and its property `prototype` is as it was.
  pub method_inherits-Inherits :
      (args : List v4.Value) (s : objects.Store)
      → objects.IsThere (first args) s
      → objects.IsThere (second args) s
      → objects.is_accepted
          (first args)
          (some (prepared v4 objects (first args) (second args) s).0)
          (prepared v4 objects (first args) (second args) s).1
        ≡ true
      → Inherits args s (method_inherits v4 objects args s)
  unfolding method_inherits
  method_inherits-Inherits args s there_ctor there_super accepted =
      elim (Bool-cases (ltb (length args) 2)) [
        | inl few ↦ rw few (refl, inl (ground arith))
        | inr enough ↦ elim (Bool-cases (v4.is_object (argument v4 args 0))) [
          | inr other ↦ rw (enough, other) (refl, inr (inl other))
          | inl ctor ↦ elim (Bool-cases (v4.is_object (argument v4 args 1))) [
            | inr other ↦ rw (enough, ctor, other) (refl, inr (inr other))
            | inl super ↦
                rw (enough, ctor, super)
                  (
                    ground arith,
                    ctor,
                    super,
                    inherit-IsHeir (first args) (second args) s there_ctor there_super accepted,
                  )
          ]
        ]
      ]

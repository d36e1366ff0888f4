-- ===== src/Util/Inherits.antt =====
-- UtilModule::method_inherits of src/nodeqml/modules/util.cpp.
use node_qml.Prelude.{
  ◌≡◌, ◌≢◌, Bool, true, false, Option, some, List, length, ltb, not, if◌then◌else◌, codes, text_eq,
}
use node_qml.Memory.{QString, Error, error, type_error}
use node_qml.Host.{V4, argument}

-- Objects of QV4, with their own properties and their prototypes (defineDefaultProperty, get,
-- prototype, setPrototype, newObject). setPrototype refuses an object whose chain of prototypes leads
-- back, which is_accepted tells.
pub record ObjectStore (v4 : V4) : Type 1 where
  pub Store : Type 0
  pub Object : Type 0
  pub as_object : v4.Value → Object
  pub of_object : Object → v4.Value
  pub of_boolean : Bool → v4.Value
  pub new_object : Store → Object × Store
  pub define : QString → v4.Value → Object → Store → Store
  pub get_own : Object → QString → Store → Option v4.Value
  pub prototype : Object → Store → Option Object
  pub set_prototype : Object → Option Object → Store → Store
  pub is_accepted : Object → Option Object → Store → Bool
  -- The objects that there are; a new one was not there.
  pub IsThere : Object → Store → Type 0
  pub new_there : (s : Store) → IsThere (new_object s).0 (new_object s).1
  pub new_other : (s : Store) (o : Object) → IsThere o s → o ≢ (new_object s).0
  pub there_new : (s : Store) (o : Object) → IsThere o s → IsThere o (new_object s).1
  pub there_define :
      (s : Store) (o p : Object) (n : QString) (v : v4.Value)
      → IsThere o s
      → IsThere o (define n v p s)
  pub there_set_prototype :
      (s : Store) (o p : Object) (q : Option Object) → IsThere o s → IsThere o (set_prototype p q s)
  pub get_new :
      (s : Store) (o : Object) (n : QString)
      → IsThere o s
      → get_own o n (new_object s).1 ≡ get_own o n s
  pub get_define :
      (s : Store) (o : Object) (n : QString) (v : v4.Value) → get_own o n (define n v o s) ≡ some v
  pub get_define_name :
      (s : Store) (o p : Object) (n m : QString) (v : v4.Value)
      → text_eq n m ≡ false
      → get_own o m (define n v p s) ≡ get_own o m s
  pub get_define_object :
      (s : Store) (o p : Object) (n m : QString) (v : v4.Value)
      → p ≢ o
      → get_own p m (define n v o s) ≡ get_own p m s
  pub get_set_prototype :
      (s : Store) (o p : Object) (q : Option Object) (n : QString)
      → get_own o n (set_prototype p q s) ≡ get_own o n s
  pub prototype_new :
      (s : Store) (o : Object) → IsThere o s → prototype o (new_object s).1 ≡ prototype o s
  pub prototype_define :
      (s : Store) (o p : Object) (n : QString) (v : v4.Value)
      → prototype o (define n v p s) ≡ prototype o s
  pub prototype_set_prototype :
      (s : Store) (o : Object) (q : Option Object)
      → is_accepted o q s ≡ true
      → prototype o (set_prototype o q s) ≡ q
  pub prototype_set_prototype_other :
      (s : Store) (o p : Object) (q : Option Object)
      → o ≢ p
      → prototype o (set_prototype p q s) ≡ prototype o s
  pub prototype_there :
      (s : Store) (o p : Object) → IsThere o s → prototype o s ≡ some p → IsThere p s
  -- No chain leads to a new object.
  pub accepted_new :
      (s : Store) (q : Option Object)
      → ((p : Object) → q ≡ some p → IsThere p s)
      → is_accepted (new_object s).0 q (new_object s).1 ≡ true

-- What inherits comes to: undefined, or an exception.
pub data Inheriting (S : Type 0) : Type 0 where
  inherited : S → Inheriting S
  refused : Error → S → Inheriting S

module _ (v4 : V4) (objects : ObjectStore v4) where
  -- ctorProperty is filled in.
  abbrev pub describe : objects.Object → objects.Object → objects.Store → objects.Store
  describe ctor d s = objects.define (codes "configurable") (objects.of_boolean true) d (
      objects.define (codes "writable") (objects.of_boolean true) d (
        objects.define (codes "enumerable") (objects.of_boolean false) d
          (objects.define (codes "value") (objects.of_object ctor) d s)))

  abbrev pub with_super : objects.Object → objects.Object → objects.Store → objects.Store
  with_super ctor super s = objects.define (codes "super_") (objects.of_object super) ctor s

  -- The new prototype, on that of the super constructor.
  abbrev pub chained : objects.Object → objects.Object × objects.Store → objects.Store
  chained super (p, s) = objects.set_prototype p (objects.prototype super s) s

  -- The new prototype gets its property `constructor`.
  abbrev pub constructed :
      objects.Object → objects.Object → objects.Object × objects.Store → objects.Store
  constructed ctor p (d, s) =
      objects.define (codes "constructor") (objects.of_object d) p (describe ctor d s)

  -- The new prototype, and the store before the constructor gets it.
  abbrev pub prepared :
      objects.Object → objects.Object → objects.Store → objects.Object × objects.Store
  prepared ctor super s =
      let made = objects.new_object (with_super ctor super s) in
      (made.0, constructed ctor made.0 (objects.new_object (chained super made)))

  abbrev pub inherit : objects.Object → objects.Object → objects.Store → objects.Store
  inherit ctor super s =
      let made = prepared ctor super s in objects.set_prototype ctor (some made.0) made.1

  -- UtilModule::method_inherits
  unfoldable pub method_inherits : List v4.Value → objects.Store → Inheriting objects.Store
  method_inherits args s =
      if ltb (length args) 2
      then refused (error "inherits: two arguments are required") s
      else if not (v4.is_object (argument v4 args 0))
      then refused (type_error "inherits: constructor must be an object") s
      else if not (v4.is_object (argument v4 args 1))
      then refused (type_error "inherits: super constructor must be an object") s
      else inherited (
          inherit (objects.as_object (argument v4 args 0)) (objects.as_object (argument v4 args 1))
            s)

-- ===== src/Errno.antt =====
-- src/nodeqml/types/errnoexception.cpp, and EnginePrivate::throwErrnoException of
-- src/nodeqml/engine.cpp.
pub mod Properties
use node_qml.Prelude.{List, [], ◌∷◌, ◌++◌, ℤ, is_nil, if◌then◌else◌, codes}
use node_qml.Memory.{QString, Error}

-- The value of a property.
pub data Property : Type 0 where
  number : ℤ → Property
  text : QString → Property

-- An ErrnoExceptionObject: the message of its ErrorObject, and its own properties in the order in
-- which they are defined.
pub record ErrnoException : Type 0 where
  pub message : QString
  pub properties : List (QString × Property)

-- defineDefaultProperty
abbrev pub define_property :
    QString → Property → List (QString × Property) → List (QString × Property)
define_property name value properties = properties ++ ((name, value) ∷ [])

-- A text that is empty is not defined.
abbrev pub define_text : QString → QString → List (QString × Property) → List (QString × Property)
define_text name value properties =
    if is_nil value then properties else define_property name (text value) properties

-- Heap::ErrnoExceptionObject::ErrnoExceptionObject
unfoldable pub new_errno_exception : QString → ℤ → QString → QString → ErrnoException
new_errno_exception message error_number syscall path = record {
  message = message;
  properties = define_text (codes "path") path (
      define_text (codes "syscall") syscall
        (define_property (codes "errno") (number error_number) []));
}

-- What is thrown: an error that the engine makes of a message, or an ErrnoExceptionObject.
pub data Thrown : Type 0 where
  error_thrown : Error → Thrown
  errno_thrown : ErrnoException → Thrown

-- EnginePrivate::throwErrnoException, with `strerror` and the decoding of its text.
unfoldable pub throw_errno_exception : (ℤ → QString) → ℤ → QString → Thrown
unfolding new_errno_exception
throw_errno_exception message_of error_number syscall =
    errno_thrown (new_errno_exception (message_of error_number) error_number syscall [])

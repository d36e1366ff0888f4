-- ===== src/Errno/Properties.antt =====
-- What a script finds in an ErrnoExceptionObject of src/nodeqml/types/errnoexception.cpp.
use node_qml.Prelude.{◌≡◌, refl, Option, none, some, [], ◌∷◌, ℤ, codes, text_eq, find}
use node_qml.Memory.{QString}
use node_qml.Errno.{Property, number, text, new_errno_exception}

-- A text as a property, where there is one.
abbrev pub given : QString → Option Property
given [] = none
given (c ∷ cs) = some (text (c ∷ cs))

-- An errno exception has its number under `errno`, and the system call and the path under
-- `syscall` and `path`, each only where it is not empty.
new_errno_exception-properties :
    (message syscall path : QString) (n : ℤ)
    → let found = find text_eq (new_errno_exception message n syscall path).properties in
      (found (codes "errno") ≡ some (number n))
      × (found (codes "syscall") ≡ given syscall)
      × (found (codes "path") ≡ given path)
unfolding new_errno_exception text_eq
new_errno_exception-properties message [] [] n = (refl, refl, refl)
new_errno_exception-properties message [] (d ∷ ds) n = (refl, refl, refl)
new_errno_exception-properties message (c ∷ cs) [] n = (refl, refl, refl)
new_errno_exception-properties message (c ∷ cs) (d ∷ ds) n = (refl, refl, refl)

-- ===== src/Buffer/Alive/Ends.antt =====
-- Calls that came to an end, and method_concat of src/nodeqml/types/buffer.cpp, as steps on the
-- slices that are alive.
use node_qml.Prelude.{
  ◌+◌, ◌⊎◌, [], ℕ, ◌≡◌, refl, sym, subst, Option, some, none, List, ◌∷◌, Bool-cases, inl, inr,
  length, leb, ◌&&◌,
}
use node_qml.Memory.{
  Bytes, Error, bytes_at, is_inside, read_bytes, write_bytes, Heap, M, Outcome, ok, throw, fault,
  hang, continue,
}
use node_qml.Slice.{Slice, read, write}
use node_qml.Buffer.Alloc.{Allocated, new_buffer-Allocated}
use node_qml.Host.{Machine, V4, argument}
use node_qml.Buffer.{new_buffer}
use node_qml.Buffer.Concat.{
  copy_element, copy_elements, concat_into, concat_sized, concat_list, total_size, method_concat,
}
use node_qml.Buffer.Alive.Steps.{Steps, more, new_step}
use node_qml.Buffer.Alive.Stores.{StepsTo}
use node_qml.Buffer.Alive.Stores.Methods.{copy_elements-Stores}

-- A call that came to an end, normally or by an exception, and the heap that it left.
abbrev pub EndsIn : {A : Type 0} → Outcome A → Heap → Type 0
EndsIn (ok a h) h' = h ≡ h'
EndsIn (throw e h) h' = h ≡ h'
EndsIn fault h' = ⊥
EndsIn hang h' = ⊥

pub ended-Steps :
    {A : Type 0} (machine : Machine) (s : Slice) (alive : List Slice) (h h' : Heap) (r : Outcome A)
    → EndsIn r h'
    → StepsTo machine s alive h r
    → Steps machine h (s ∷ alive) h' (s ∷ alive)
ended-Steps machine s alive h h' (ok a h1) e steps =
    subst (λ g. Steps machine h (s ∷ alive) g (s ∷ alive)) e steps
ended-Steps machine s alive h h' (throw x h1) e steps =
    subst (λ g. Steps machine h (s ∷ alive) g (s ∷ alive)) e steps
ended-Steps machine s alive h h' fault e steps = absurd e
ended-Steps machine s alive h h' hang e steps = absurd e

-- The first outcome of two calls in a row, where both returned.
continue-ok :
    {A B : Type 0} (r : Outcome A) (f : A → M B) (b : B) (h' : Heap)
    → continue r f ≡ ok b h'
    → (a : A) × (h1 : Heap) × (r ≡ ok a h1) × (f a h1 ≡ ok b h')
continue-ok (ok a h1) f b h' e = (a, h1, refl, e)
continue-ok (throw x h1) f b h' e = absurd cc
continue-ok fault f b h' e = absurd cc
continue-ok hang f b h' e = absurd cc

concat_into-Steps :
    (v4 : V4) (machine : Machine) (n : ℕ) (items : List v4.Value) (t : Slice) (alive : List Slice)
    (h h' : Heap)
    → concat_into v4 machine n items h ≡ ok t h'
    → Steps machine h alive h' (t ∷ alive)
concat_into-Steps v4 machine n items t alive h h' e =
    let (s, h1, made, rest) = continue-ok (new_buffer machine n h) _ t h' e in
    let (_, h2, copied, last) = continue-ok (copy_elements v4 s 0 items h1) _ t h' rest in
    let steps =
      ended-Steps machine s alive h1 h2 (copy_elements v4 s 0 items h1)
        (subst (λ r. EndsIn r h2) (sym copied) refl)
        ((copy_elements-Stores machine s alive v4 0 items).at h1) in
    let same : s ≡ t = cc in
    let kept : h2 ≡ h' = cc in
    subst (λ u. Steps machine h alive h' (u ∷ alive)) same
      (subst (λ g. Steps machine h alive g (s ∷ alive)) kept (more (new_step n made) steps))

concat_sized-Steps :
    (v4 : V4) (machine : Machine) (total : Option ℕ) (items : List v4.Value) (t : Slice)
    (alive : List Slice) (h h' : Heap)
    → concat_sized v4 machine total items h ≡ ok t h'
    → Steps machine h alive h' (t ∷ alive)
concat_sized-Steps v4 machine none items t alive h h' e = absurd cc
concat_sized-Steps v4 machine (some n) items t alive h h' e =
    concat_into-Steps v4 machine n items t alive h h' e

concat_list-Steps :
    (v4 : V4) (machine : Machine) (list : Option (List v4.Value)) (args : List v4.Value) (t : Slice)
    (alive : List Slice) (h h' : Heap)
    → concat_list v4 machine list args h ≡ ok t h'
    → Steps machine h alive h' (t ∷ alive)
concat_list-Steps v4 machine none args t alive h h' e = absurd cc
concat_list-Steps v4 machine (some items) args t alive h h' e =
    elim (Bool-cases (leb 2 (length args) && v4.is_number (argument v4 args 1))) [
      | inl given ↦ concat_into-Steps v4 machine _ items t alive h h' (rw given at e)
      | inr free ↦
          concat_sized-Steps v4 machine (total_size v4 items) items t alive h h' (rw free at e)
    ]

pub method_concat-Steps :
    (v4 : V4) (machine : Machine) (args : List v4.Value) (t : Slice) (alive : List Slice)
    (h h' : Heap)
    → method_concat v4 machine args h ≡ ok t h'
    → Steps machine h alive h' (t ∷ alive)
unfolding method_concat
method_concat-Steps v4 machine args t alive h h' e =
    concat_list-Steps v4 machine (v4.as_array (argument v4 args 0)) args t alive h h' e

-- The same for an exception: it came from the first call, or from the second.
continue-throw :
    {A B : Type 0} (r : Outcome A) (f : A → M B) (x : Error) (h' : Heap)
    → continue r f ≡ throw x h'
    → (r ≡ throw x h') ⊎ ((a : A) × (h1 : Heap) × (r ≡ ok a h1) × (f a h1 ≡ throw x h'))
continue-throw (ok a h1) f x h' e = inr (a, h1, refl, e)
continue-throw (throw y h1) f x h' e =
    let error : y ≡ x = cc in let heap : h1 ≡ h' = cc in inl (rw (error, heap) refl)
continue-throw fault f x h' e = absurd cc
continue-throw hang f x h' e = absurd cc

read_never : (s : Slice) (i n : ℕ) (h h' : Heap) (x : Error) → ¬ (read s i n h ≡ throw x h')
unfolding read read_bytes
read_never s i n h h' x e =
    elim (Bool-cases (is_inside (s.begin + i) n (length (bytes_at h s.array)))) [
      | inl inside ↦ absurd (let both = rw inside at e in cc)
      | inr outside ↦ absurd (let both = rw outside at e in cc)
    ]

write_never :
    (s : Slice) (i : ℕ) (bs : Bytes) (h h' : Heap) (x : Error) → ¬ (write s i bs h ≡ throw x h')
unfolding write write_bytes
write_never s i bs h h' x e =
    elim (Bool-cases (is_inside (s.begin + i) (length bs) (length (bytes_at h s.array)))) [
      | inl inside ↦ absurd (let both = rw inside at e in cc)
      | inr outside ↦ absurd (let both = rw outside at e in cc)
    ]

copy_element_never :
    (new : Slice) (pos : ℕ) (o : Option Slice) (h h' : Heap) (x : Error)
    → ¬ (copy_element new pos o h ≡ throw x h')
unfolding copy_element
copy_element_never new pos none h h' x e = absurd cc
copy_element_never new pos (some b) h h' x e = elim (continue-throw (read b 0 b.size h) _ x h' e) [
  | inl at_read ↦ read_never b 0 b.size h h' x at_read
  | inr (bs, h1, _, rest) ↦ elim (continue-throw (write new pos bs h1) _ x h' rest) [
    | inl at_write ↦ write_never new pos bs h1 h' x at_write
    | inr (_, h2, _, last) ↦ absurd cc
  ]
]

copy_elements_never :
    (v4 : V4) (new : Slice) (pos : ℕ) (items : List v4.Value) (h h' : Heap) (x : Error)
    → ¬ (copy_elements v4 new pos items h ≡ throw x h')
unfolding copy_elements
copy_elements_never v4 new pos [] h h' x e = absurd cc
copy_elements_never v4 new pos (v ∷ items) h h' x e =
    elim (continue-throw (copy_element new pos (v4.as_buffer v) h) _ x h' e) [
      | inl first ↦ copy_element_never new pos (v4.as_buffer v) h h' x first
      | inr (after, h1, _, rest) ↦ copy_elements_never v4 new after items h1 h' x rest
    ]

concat_into_throws :
    (v4 : V4) (machine : Machine) (n : ℕ) (items : List v4.Value) (h h' : Heap) (x : Error)
    → concat_into v4 machine n items h ≡ throw x h'
    → h' ≡ h
concat_into_throws v4 machine n items h h' x e =
    elim (continue-throw (new_buffer machine n h) _ x h' e) [
      | inl first ↦
          let why = subst (Allocated machine n h) first (new_buffer-Allocated machine n h) in why.0
      | inr (s, h1, _, rest) ↦ elim (continue-throw (copy_elements v4 s 0 items h1) _ x h' rest) [
        | inl second ↦ absurd (copy_elements_never v4 s 0 items h1 h' x second)
        | inr (_, h2, _, last) ↦ absurd cc
      ]
    ]

concat_sized_throws :
    (v4 : V4) (machine : Machine) (total : Option ℕ) (items : List v4.Value) (h h' : Heap)
    (x : Error)
    → concat_sized v4 machine total items h ≡ throw x h'
    → h' ≡ h
concat_sized_throws v4 machine none items h h' x e = cc
concat_sized_throws v4 machine (some n) items h h' x e =
    concat_into_throws v4 machine n items h h' x e

concat_list_throws :
    (v4 : V4) (machine : Machine) (list : Option (List v4.Value)) (args : List v4.Value)
    (h h' : Heap) (x : Error)
    → concat_list v4 machine list args h ≡ throw x h'
    → h' ≡ h
concat_list_throws v4 machine none args h h' x e = cc
concat_list_throws v4 machine (some items) args h h' x e =
    elim (Bool-cases (leb 2 (length args) && v4.is_number (argument v4 args 1))) [
      | inl given ↦ concat_into_throws v4 machine _ items h h' x (rw given at e)
      | inr free ↦ concat_sized_throws v4 machine (total_size v4 items) items h h' x (rw free at e)
    ]

-- Where Buffer.concat throws, it did so before it made anything.
pub method_concat_throws :
    (v4 : V4) (machine : Machine) (args : List v4.Value) (h h' : Heap) (x : Error)
    → method_concat v4 machine args h ≡ throw x h'
    → h' ≡ h
unfolding method_concat
method_concat_throws v4 machine args h h' x e =
    concat_list_throws v4 machine (v4.as_array (argument v4 args 0)) args h h' x e

-- ===== src/Buffer/Alive/Calls.antt =====
-- A program's calls of the Buffers of src/nodeqml/types/buffer.cpp, and the ends of these.
use mathlib.Core.List.{Permᴰ}
use node_qml.Prelude.{ℕ, ◌≡◌, sym, ◌∙◌, subst, Bool, Option, some, List, ◌∷◌, All}
use node_qml.Memory.{Error, Heap, ok, throw}
use node_qml.Slice.{Slice, destroy}
use node_qml.Host.{Machine, V4, Text, ByteOrder, Floats, argument}
use node_qml.Buffer.{put_indexed}
use node_qml.Buffer.Construct.{construct}
use node_qml.Buffer.Concat.{method_concat}
use node_qml.Buffer.Copy.{method_copy}
use node_qml.Buffer.Fill.{method_fill}
use node_qml.Buffer.Text.{method_write}
use node_qml.Buffer.Number.{IntType, method_write_integer, method_write_floating_point}
use node_qml.Buffer.Part.{method_slice}
use node_qml.Buffer.Alive.{IsSound}
use node_qml.Buffer.Alive.Steps.{
  Steps, done, more, destroy_step, order_step, Steps-IsSound, Steps-append,
}
use node_qml.Buffer.Alive.Makes.{Makes, IsKnown}
use node_qml.Buffer.Alive.Makes.Construct.{construct-Makes}
use node_qml.Buffer.Alive.Ends.{EndsIn, ended-Steps, method_concat-Steps, method_concat_throws}
use node_qml.Buffer.Alive.Methods.{method_slice-Steps}
use node_qml.Buffer.Alive.Stores.Methods.{
  method_fill-Stores, method_copy-Stores, method_write-Stores, method_write_integer-Stores,
  method_write_floating_point-Stores, put_indexed-Stores,
}

module _ (v4 : V4) (machine : Machine) (text : Text) (order : ByteOrder) (floats : Floats) where
  -- One call that returned or threw, on the first of the living Buffers where it has a `this` to
  -- store to; the end of a Buffer; or another order of them.
  pub data Call : Heap → List Slice → Heap → List Slice → Type 0 where
    construct_call :
        (args : List v4.Value) {s : Slice} {alive : List Slice} {h h' : Heap}
        → All (IsKnown v4 alive) args
        → construct v4 machine text args h ≡ ok s h'
        → Call h alive h' (s ∷ alive)
    concat_call :
        (args : List v4.Value) {s : Slice} {alive : List Slice} {h h' : Heap}
        → method_concat v4 machine args h ≡ ok s h'
        → Call h alive h' (s ∷ alive)
    slice_call :
        (args : List v4.Value) {s t : Slice} {alive : List Slice} {h h' : Heap}
        → method_slice v4 (some s) args h ≡ ok t h'
        → Call h (s ∷ alive) h' (t ∷ s ∷ alive)
    construct_throws :
        (args : List v4.Value) (e : Error) {alive : List Slice} {h h' : Heap}
        → All (IsKnown v4 alive) args
        → construct v4 machine text args h ≡ throw e h'
        → Call h alive h' alive
    concat_throws :
        (args : List v4.Value) (e : Error) {alive : List Slice} {h h' : Heap}
        → method_concat v4 machine args h ≡ throw e h'
        → Call h alive h' alive
    slice_throws :
        (args : List v4.Value) (e : Error) {s : Slice} {alive : List Slice} {h h' : Heap}
        → method_slice v4 (some s) args h ≡ throw e h'
        → Call h (s ∷ alive) h' (s ∷ alive)
    fill_call :
        (args : List v4.Value) {s : Slice} {alive : List Slice} {h h' : Heap}
        → EndsIn (method_fill v4 text (some s) args h) h'
        → Call h (s ∷ alive) h' (s ∷ alive)
    copy_call :
        (self : Option Slice) (args : List v4.Value) {s : Slice} {alive : List Slice} {h h' : Heap}
        → v4.as_buffer (argument v4 args 0) ≡ some s
        → EndsIn (method_copy v4 self args h) h'
        → Call h (s ∷ alive) h' (s ∷ alive)
    write_call :
        (args : List v4.Value) {s : Slice} {alive : List Slice} {h h' : Heap}
        → EndsIn (method_write v4 text (some s) args h) h'
        → Call h (s ∷ alive) h' (s ∷ alive)
    write_integer_call :
        (t : IntType) (little : Bool) (args : List v4.Value) {s : Slice} {alive : List Slice}
        {h h' : Heap}
        → EndsIn (method_write_integer v4 machine order t little (some s) args h) h'
        → Call h (s ∷ alive) h' (s ∷ alive)
    write_floating_point_call :
        (width : ℕ) (little : Bool) (args : List v4.Value) {s : Slice} {alive : List Slice}
        {h h' : Heap}
        → EndsIn
            (method_write_floating_point v4 machine order floats width little (some s) args h)
            h'
        → Call h (s ∷ alive) h' (s ∷ alive)
    put_call :
        (i : ℕ) (v : v4.Value) {s : Slice} {alive : List Slice} {h h' : Heap}
        → EndsIn (put_indexed v4 s i v h) h'
        → Call h (s ∷ alive) h' (s ∷ alive)
    collect_call :
        {s : Slice} {alive : List Slice} {h h' : Heap}
        → destroy s h ≡ ok tt h'
        → Call h (s ∷ alive) h' alive
    order_call : {alive alive' : List Slice} {h : Heap} → Permᴰ alive alive' → Call h alive h alive'

  pub data Calls : Heap → List Slice → Heap → List Slice → Type 0 where
    no_call : {alive : List Slice} {h : Heap} → Calls h alive h alive
    next_call :
        {alive alive' alive'' : List Slice} {h h' h'' : Heap}
        → Call h alive h' alive'
        → Calls h' alive' h'' alive''
        → Calls h alive h'' alive''

slice_call-Steps :
    (v4 : V4) (machine : Machine) (self t : Slice) (args : List v4.Value) (alive : List Slice)
    (h h' : Heap)
    → method_slice v4 (some self) args h ≡ ok t h'
    → IsSound h (self ∷ alive)
    → Steps machine h (self ∷ alive) h' (t ∷ self ∷ alive)
slice_call-Steps v4 machine self t args alive h h' e sound =
    let (new, h1, made, steps) = method_slice-Steps v4 machine self args alive h sound in
    let both : ok new h1 ≡ ok t h' = sym made ∙ e in
    let same : new ≡ t = cc in
    let kept : h1 ≡ h' = cc in
    subst (λ u. Steps machine h (self ∷ alive) h' (u ∷ self ∷ alive)) same
      (subst (λ g. Steps machine h (self ∷ alive) g (new ∷ self ∷ alive)) kept steps)

-- A heap that is as it was.
same-Steps :
    (machine : Machine) (alive : List Slice) (h h' : Heap) → h' ≡ h → Steps machine h alive h' alive
same-Steps machine alive h h' same = subst (λ g. Steps machine h alive g alive) (sym same) done

-- In a sound state, `slice` of a Buffer throws nothing.
slice_never :
    (v4 : V4) (machine : Machine) (self : Slice) (args : List v4.Value) (alive : List Slice)
    (h h' : Heap) (x : Error)
    → IsSound h (self ∷ alive)
    → ¬ (method_slice v4 (some self) args h ≡ throw x h')
slice_never v4 machine self args alive h h' x sound e =
    let (new, h1, made, steps) = method_slice-Steps v4 machine self args alive h sound in
    absurd (let both : ok new h1 ≡ throw x h' = sym made ∙ e in cc)

module _ (v4 : V4) (machine : Machine) (text : Text) (order : ByteOrder) (floats : Floats) where
  -- In a sound state, each call is steps on the living slices.
  pub Call-Steps :
      (alive alive' : List Slice) (h h' : Heap)
      → Call v4 machine text order floats h alive h' alive'
      → IsSound h alive
      → Steps machine h alive h' alive'
  Call-Steps _ _ h h' (construct_call args live e) sound =
      subst (Makes machine _ h) e (construct-Makes v4 machine text args _ h live sound)
  Call-Steps _ _ h h' (concat_call args e) sound = method_concat-Steps v4 machine args _ _ h h' e
  Call-Steps _ _ h h' (slice_call args e) sound =
      slice_call-Steps v4 machine _ _ args _ h h' e sound
  Call-Steps alive _ h h' (construct_throws args x live e) sound =
      same-Steps machine alive h h'
        (subst (Makes machine alive h) e (construct-Makes v4 machine text args alive h live sound))
  Call-Steps alive _ h h' (concat_throws args x e) sound =
      same-Steps machine alive h h' (method_concat_throws v4 machine args h h' x e)
  Call-Steps (s ∷ alive) _ h h' (slice_throws args x e) sound =
      absurd (slice_never v4 machine s args alive h h' x sound e)
  Call-Steps (s ∷ alive) _ h h' (fill_call args e) sound =
      ended-Steps machine s alive h h' _ e ((method_fill-Stores machine s alive v4 text args).at h)
  Call-Steps (s ∷ alive) _ h h' (copy_call self args target e) sound =
      ended-Steps machine s alive h h' _ e
        ((method_copy-Stores machine s alive v4 self args target).at h)
  Call-Steps (s ∷ alive) _ h h' (write_call args e) sound =
      ended-Steps machine s alive h h' _ e ((method_write-Stores machine s alive v4 text args).at h)
  Call-Steps (s ∷ alive) _ h h' (write_integer_call t little args e) sound =
      ended-Steps machine s alive h h' _ e
        ((method_write_integer-Stores machine s alive v4 order t little args).at h)
  Call-Steps (s ∷ alive) _ h h' (write_floating_point_call width little args e) sound =
      ended-Steps machine s alive h h' _ e (
        (method_write_floating_point-Stores machine s alive v4 order floats width little args).at h)
  Call-Steps (s ∷ alive) _ h h' (put_call i v e) sound =
      ended-Steps machine s alive h h' _ e ((put_indexed-Stores machine s alive v4 i v).at h)
  Call-Steps _ _ h h' (collect_call e) sound = more (destroy_step e) done
  Call-Steps _ _ h h' (order_call p) sound = more (order_step p) done

  pub Calls-Steps :
      (alive alive' : List Slice) (h h' : Heap)
      → Calls v4 machine text order floats h alive h' alive'
      → IsSound h alive
      → Steps machine h alive h' alive'
  Calls-Steps _ _ h h' no_call sound = done
  Calls-Steps _ _ h h' (next_call call calls) sound =
      let first = Call-Steps _ _ h _ call sound in
      Steps-append machine _ _ _ h _ h' first
        (Calls-Steps _ _ _ h' calls (Steps-IsSound machine _ _ h _ first sound))

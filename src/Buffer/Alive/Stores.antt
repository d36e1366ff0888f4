-- ===== src/Buffer/Alive/Stores.antt =====
-- Code of src/nodeqml/types/buffer.cpp that stores bytes through one slice, as steps on the slices
-- that are alive.
pub mod Methods
use node_qml.Prelude.{
  ℕ, zero, suc, ◌+◌, ◌-◌, ◌≡◌, refl, Bool, true, false, Option, some, none, List, [], ◌∷◌, length,
  ltb, if◌then◌else◌, Bool-cases, inl, inr, ℤ, pos, negsuc, ◌*◌,
}
use node_qml.Memory.{
  Bytes, QString, Error, Heap, M, Outcome, ok, throw, fault, hang, continue, ◌>>=◌, ◌>>◌, pure,
  raise, undefined_behaviour, read_bytes, write_bytes, is_inside, bytes_at,
}
use node_qml.Slice.{Slice, read, write}
use node_qml.Host.{Machine, V4, Text, ByteOrder, Floats, argument}
use node_qml.Buffer.{put_indexed}
use node_qml.Buffer.Copy.{index_of, index_argument, copy_bytes, copy_to, method_copy}
use node_qml.Buffer.Fill.{memset, fill_loop, fill_tail, fill_bytes, fill_value, method_fill}
use node_qml.Buffer.Text.{WriteArguments, write_text, method_write}
use node_qml.Buffer.Number.{IntType, method_write_integer, method_write_floating_point}
use node_qml.Buffer.Concat.{copy_element, copy_elements}
use node_qml.Buffer.View.{written}
use node_qml.Buffer.Alive.Steps.{Steps, done, more, write_step, Steps-append}

-- Where a call ends, normally or by an exception, steps on the living slices led there.
abbrev pub StepsTo : {A : Type 0} → Machine → Slice → List Slice → Heap → Outcome A → Type 0
StepsTo machine s alive h (ok a h') = Steps machine h (s ∷ alive) h' (s ∷ alive)
StepsTo machine s alive h (throw e h') = Steps machine h (s ∷ alive) h' (s ∷ alive)
StepsTo machine s alive h fault = Unit
StepsTo machine s alive h hang = Unit

-- Code that changes the heap by stores through `s` alone.
pub record Stores {A : Type 0} (machine : Machine) (s : Slice) (alive : List Slice) (m : M A)
    : Type 0 where
  pub at : (h : Heap) → StepsTo machine s alive h (m h)

module _ {A : Type 0} (machine : Machine) (s : Slice) (alive : List Slice) where
  pub pure-Stores : (a : A) → Stores machine s alive (pure a)
  pure-Stores a = record { at = λ h. done }

  pub raise-Stores : (e : Error) → Stores machine s alive (raise {A = A} e)
  raise-Stores e = record { at = λ h. done }

  pub fault-Stores : Stores machine s alive (undefined_behaviour {A = A})
  fault-Stores = record { at = λ h. tt }

  pub hang-Stores : Stores {A = A} machine s alive (λ h. hang)
  hang-Stores = record { at = λ h. tt }

  pub if-Stores :
      (b : Bool) (m n : M A)
      → Stores machine s alive m
      → Stores machine s alive n
      → Stores machine s alive (if b then m else n)
  if-Stores true m n p q = p
  if-Stores false m n p q = q

  after-StepsTo :
      (h h1 : Heap) (r : Outcome A)
      → Steps machine h (s ∷ alive) h1 (s ∷ alive)
      → StepsTo machine s alive h1 r
      → StepsTo machine s alive h r
  after-StepsTo h h1 (ok a h') steps p = Steps-append machine _ _ _ h h1 h' steps p
  after-StepsTo h h1 (throw e h') steps p = Steps-append machine _ _ _ h h1 h' steps p
  after-StepsTo h h1 fault steps p = tt
  after-StepsTo h h1 hang steps p = tt

module _ {A B : Type 0} (machine : Machine) (s : Slice) (alive : List Slice) where
  continue-StepsTo :
      (h : Heap) (r : Outcome A) (f : A → M B)
      → StepsTo machine s alive h r
      → ((a : A) → Stores machine s alive (f a))
      → StepsTo machine s alive h (continue r f)
  continue-StepsTo h (ok a h1) f p q = after-StepsTo machine s alive h h1 (f a h1) p ((q a).at h1)
  continue-StepsTo h (throw e h1) f p q = p
  continue-StepsTo h fault f p q = tt
  continue-StepsTo h hang f p q = tt

  pub bind-Stores :
      (m : M A) (f : A → M B)
      → Stores machine s alive m
      → ((a : A) → Stores machine s alive (f a))
      → Stores machine s alive (m >>= f)
  bind-Stores m f p q = record { at = λ h. continue-StepsTo h (m h) f (p.at h) q }

  pub then-Stores :
      (m : M A) (n : M B)
      → Stores machine s alive m
      → Stores machine s alive n
      → Stores machine s alive (m >> n)
  then-Stores m n p q = record { at = λ h. continue-StepsTo h (m h) (λ _. n) (p.at h) (λ a. q) }

pub ruleset stores_rules =
    (pure-Stores, raise-Stores, fault-Stores, if-Stores, bind-Stores, then-Stores)

module _ (machine : Machine) (s : Slice) (alive : List Slice) where
  pub read-Stores : (t : Slice) (i n : ℕ) → Stores machine s alive (read t i n)
  unfolding read read_bytes
  read-Stores t i n = record {
    at = λ h. elim (Bool-cases (is_inside (t.begin + i) n (length (bytes_at h t.array)))) [
      | inl inside ↦ rw inside done
      | inr outside ↦ rw outside tt
    ];
  }

  pub write-Stores : (i : ℕ) (bs : Bytes) → Stores machine s alive (write s i bs)
  unfolding write write_bytes
  write-Stores i bs = record {
    at = λ h.
        elim (Bool-cases (is_inside (s.begin + i) (length bs) (length (bytes_at h s.array)))) [
          | inl inside ↦
              let made : write s i bs h ≡ ok tt (written h s i bs) = rw inside refl in
              rw inside (more (write_step i bs made) done)
          | inr outside ↦ rw outside tt
        ];
  }

pub ruleset access_rules = (stores_rules, read-Stores, write-Stores)

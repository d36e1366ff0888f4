-- ===== src/Prelude/Int.antt =====
-- Signed integers over the native numbers, and the 32-bit `int` of the program.
use node_qml.Prelude.Tests.{ltb, leb, ◌==◌, if◌then◌else◌}
use Prim.Native.Nat.{ℕ, suc, ◌+◌, ◌-◌, ◌%◌, ◌^◌, ◌≤◌, ◌<◌}
use mathlib.Core.Path.{◌≡◌, refl}
use mathlib.Core.Logic.{◌⊎◌, ◌↔◌, inl, inr}
use mathlib.Core.Bool.{Bool, true, ◌&&◌}
use native.Mathlib.Omega.{arith}

-- `negsuc n` is -(n + 1).
pub data ℤ : Type 0 where
  pos : ℕ → ℤ
  negsuc : ℕ → ℤ

abbrev pub pos_part : ℤ → ℕ
pos_part (pos n) = n
pos_part (negsuc n) = 0

abbrev pub neg_part : ℤ → ℕ
neg_part (pos n) = 0
neg_part (negsuc n) = suc n

-- a - b, as an integer.
abbrev pub sub_ℕ : ℕ → ℕ → ℤ
sub_ℕ a b = if leb b a then pos (a - b) else negsuc (b - a - 1)

infixl 65 ◌+ℤ◌ ◌-ℤ◌
infix 50 ◌≤ℤ◌
abbrev pub ◌+ℤ◌ : ℤ → ℤ → ℤ
a +ℤ b = sub_ℕ (pos_part a + pos_part b) (neg_part a + neg_part b)

abbrev pub ◌-ℤ◌ : ℤ → ℤ → ℤ
a -ℤ b = sub_ℕ (pos_part a + neg_part b) (neg_part a + pos_part b)

abbrev pub ◌≤ℤ◌ : ℤ → ℤ → Type 0
a ≤ℤ b = pos_part a + neg_part b ≤ pos_part b + neg_part a

abbrev pub ltb_ℤ : ℤ → ℤ → Bool
ltb_ℤ a b = ltb (pos_part a + neg_part b) (pos_part b + neg_part a)

abbrev pub leb_ℤ : ℤ → ℤ → Bool
leb_ℤ a b = leb (pos_part a + neg_part b) (pos_part b + neg_part a)

-- std::min, std::max
abbrev pub min_ℤ : ℤ → ℤ → ℤ
min_ℤ a b = if ltb_ℤ b a then b else a

abbrev pub max_ℤ : ℤ → ℤ → ℤ
max_ℤ a b = if ltb_ℤ a b then b else a

-- The residue of an integer at a modulus: `n & (m - 1)` where `m` is a power of two.
abbrev pub mod_ℤ : ℤ → ℕ → ℕ
mod_ℤ (pos n) m = n % m
mod_ℤ (negsuc n) m = m - 1 - n % m

-- The integer that a pattern of 32 bits stands for.
abbrev pub signed32 : ℕ → ℤ
signed32 w = if ltb w (2 ^ 31) then pos w else negsuc (2 ^ 32 - w - 1)

-- An `int` keeps the low 32 bits of a sum that leaves its range.
abbrev pub int_of : ℤ → ℤ
int_of n = signed32 (mod_ℤ n (2 ^ 32))

-- The values of an `int`.
abbrev pub IsInt : ℤ → Type 0
IsInt n = (negsuc (2 ^ 31 - 1) ≤ℤ n) × (n ≤ℤ pos (2 ^ 31 - 1))

pub int_of-IsInt : (n : ℤ) → IsInt n → int_of n ≡ n
int_of-IsInt n h = ground arith

pub ℤ-cases : (n : ℤ) → ((m : ℕ) × (n ≡ pos m)) ⊎ ((m : ℕ) × (n ≡ negsuc m))
ℤ-cases (pos m) = inl (m, refl)
ℤ-cases (negsuc m) = inr (m, refl)

pub IsInt-signed32 : (w : ℕ) → w < 2 ^ 32 → IsInt (signed32 w)
IsInt-signed32 w h = ground arith

pub IsInt-int_of : (n : ℤ) → IsInt (int_of n)
IsInt-int_of (pos n) = IsInt-signed32 (n % 2 ^ 32) (omega arith)
IsInt-int_of (negsuc n) = IsInt-signed32 (2 ^ 32 - 1 - n % 2 ^ 32) (omega arith)

abbrev pub eq_ℤ : ℤ → ℤ → Bool
eq_ℤ a b = pos_part a == pos_part b && neg_part a == neg_part b

pub eq_ℤ_iff : (a b : ℤ) → (eq_ℤ a b ≡ true) ↔ (a ≡ b)
eq_ℤ_iff (pos m) (pos n) = (λ e. ground arith, λ e. ground arith)
eq_ℤ_iff (pos m) (negsuc n) = (λ e. ground arith, λ e. absurd (ground arith))
eq_ℤ_iff (negsuc m) (pos n) = (λ e. ground arith, λ e. absurd (ground arith))
eq_ℤ_iff (negsuc m) (negsuc n) = (λ e. ground arith, λ e. ground arith)

-- ===== src/Double.antt =====
-- `double`, by what the program observes of it: its floor, and whether it lies above its floor.
-- Comparisons with integers and conversions to integer types depend on nothing else.
use node_qml.Prelude.{
  ℕ, zero, suc, ◌%◌, ◌^◌, Bool, true, false, not, ◌&&◌, ◌||◌, ltb, if◌then◌else◌, ℤ, pos, negsuc,
  ltb_ℤ, leb_ℤ,
}

pub data Double : Type 0 where
  nan : Double
  -- `infinite true` is minus infinity.
  infinite : Bool → Double
  finite : ℤ → Bool → Double

abbrev pub of_int : ℤ → Double
of_int n = finite n false

abbrev pub zero_double : Double
zero_double = of_int (pos 0)

-- d > n
abbrev pub is_above : Double → ℤ → Bool
is_above nan n = false
is_above (infinite negative) n = not negative
is_above (finite m frac) n = ltb_ℤ n m || leb_ℤ n m && frac

-- d < n
abbrev pub is_below : Double → ℤ → Bool
is_below nan n = false
is_below (infinite negative) n = negative
is_below (finite m frac) n = ltb_ℤ m n

-- std::isfinite
abbrev pub is_finite : Double → Bool
is_finite (finite m frac) = true
is_finite _ = false

-- The integer that is left when the fraction is cut off.
abbrev pub truncate : ℤ → Bool → ℤ
truncate (pos n) frac = pos n
truncate (negsuc n) false = negsuc n
truncate (negsuc zero) true = pos 0
truncate (negsuc (suc n)) true = negsuc n

-- The conversion to a signed or unsigned integer type, whose values lie from `lo` to `hi`. C++
-- leaves it undefined where the truncated value does not fit, and for infinities and NaN:
-- `otherwise` is what the machine then gives.
abbrev pub cast : ℤ → ℤ → (Double → ℤ) → Double → ℤ
cast lo hi otherwise (finite m frac) =
    if leb_ℤ lo (truncate m frac) && leb_ℤ (truncate m frac) hi
    then truncate m frac
    else otherwise (finite m frac)
cast lo hi otherwise d = otherwise d

-- static_cast<size_t>: a 64-bit machine.
abbrev pub cast_size_t : (Double → ℕ) → Double → ℕ
cast_size_t otherwise (finite m frac) = elim (truncate m frac) [
  | pos n ↦ if ltb n (2 ^ 64) then n else otherwise (finite m frac) % 2 ^ 64
  | negsuc n ↦ otherwise (finite m frac) % 2 ^ 64
]
cast_size_t otherwise d = otherwise d % 2 ^ 64

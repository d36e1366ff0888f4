-- ===== src/Buffer/Number/Digits.antt =====
-- The bytes of a number, and back.
use native.Mathlib.Nat.{pow-suc, mod-eq_of_lt, mod-lt}
use mathlib.Core.List.{reverse, reverse-append, reverse-reverse}
use node_qml.Prelude.{
  ℕ, zero, suc, ◌-◌, ◌*◌, ◌/◌, ◌^◌, ◌<◌, ◌≡◌, refl, Bool, [], ◌∷◌, arith, length, length-append, ap,
  Bool-cases, inl, inr, ℤ, pos, negsuc, ◌≤ℤ◌, mod_ℤ, ◌∙◌,
}
use node_qml.Memory.{Bytes}
use node_qml.Host.{ByteOrder, little_value, little_bytes}
use node_qml.Buffer.Number.{
  IntType, patterns, max_of, min_of, of_pattern, decode_bytes, encode_bytes,
}

length-reverse : (xs : Bytes) → length (reverse xs) ≡ length xs
length-reverse [] = refl
length-reverse (x ∷ xs) =
    ap length (reverse-append (x ∷ []) xs)
    ∙ omega (arith, length-append {0} (reverse xs) (x ∷ []), length-reverse xs)

length-little_bytes : (w n : ℕ) → length (little_bytes w n) ≡ w
length-little_bytes zero n = refl
length-little_bytes (suc w) n = ap suc (length-little_bytes w (n / 256))

little_value-little_bytes : (w n : ℕ) → n < patterns w → little_value (little_bytes w n) ≡ n
little_value-little_bytes zero n h = omega arith
little_value-little_bytes (suc w) n h =
    let room : n / 256 < 256 ^ w = omega (arith, pow-suc 256 w) in
    omega (arith, little_value-little_bytes w (n / 256) room)

module _ (order : ByteOrder) (little : Bool) where
  pub length-encode_bytes : (w p : ℕ) → length (encode_bytes order little w p) ≡ w
  length-encode_bytes w p = elim (Bool-cases little) [
    | inl l ↦ rw (l, order.to_little_lem w p) (length-little_bytes w p)
    | inr b ↦
        rw (b, order.to_big_lem w p, length-reverse (little_bytes w p)) (length-little_bytes w p)
  ]

  pub decode_bytes-encode_bytes :
      (w p : ℕ) → p < patterns w → decode_bytes order little (encode_bytes order little w p) ≡ p
  decode_bytes-encode_bytes w p h = elim (Bool-cases little) [
    | inl l ↦
        rw (l, order.to_little_lem w p, order.from_little_lem (little_bytes w p))
          (little_value-little_bytes w p h)
    | inr b ↦
        rw
          (
            b,
            order.to_big_lem w p,
            order.from_big_lem (reverse (little_bytes w p)),
            reverse-reverse (little_bytes w p),
          )
          (little_value-little_bytes w p h)
  ]

pow_pos : (w : ℕ) → 0 < 256 ^ w
pow_pos zero = omega arith
pow_pos (suc w) = omega (arith, pow-suc 256 w, pow_pos w)

-- There is an even and positive number of patterns.
patterns_even : (w : ℕ) → 0 < w → (k : ℕ) × (256 ^ w ≡ 2 * suc k)
patterns_even zero h = absurd (omega arith)
patterns_even (suc w) h = (128 * 256 ^ w - 1, omega (arith, pow-suc 256 w, pow_pos w))

-- A value of an integer type, back from its bit pattern.
pub of_pattern-mod_ℤ :
    (t : IntType) (v : ℤ)
    → 0 < t.width
    → min_of t ≤ℤ v
    → v ≤ℤ max_of t
    → of_pattern t (mod_ℤ v (patterns t.width)) ≡ v
of_pattern-mod_ℤ t (pos n) some_byte lo hi =
    let (k, e) = patterns_even t.width some_byte in
    let below : n < patterns t.width = ground (arith, e) in ground (arith, e, mod-eq_of_lt below)
of_pattern-mod_ℤ t (negsuc n) some_byte lo hi =
    let (k, e) = patterns_even t.width some_byte in
    let below : n < patterns t.width = ground (arith, e) in ground (arith, e, mod-eq_of_lt below)

pub mod_ℤ-lt : (v : ℤ) (w : ℕ) → mod_ℤ v (patterns w) < patterns w
mod_ℤ-lt (pos n) w = mod-lt n (pow_pos w)
mod_ℤ-lt (negsuc n) w = omega (arith, pow_pos w)

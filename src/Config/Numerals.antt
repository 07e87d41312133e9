-- ===== src/Config/Numerals.antt =====
-- Printed numbers as values in a file that config_load_from_file of VPN/src/common/config.c reads.
use cloud_service.Base.{
  ℕ, zero, suc, ◌+◌, ◌*◌, ◌/◌, ◌%◌, ◌<◌, ◌≤◌, [], ◌∷◌, ltb, length, arith, inl, inr, Bool-cases,
  ltb→lt,
}
use cloud_service.Config.Entries.{IsWord}
use cloud_service.Config.Trim.{StartsPlain, EndsPlain}
use cloud_service.Text.{Without, digits, decimal}
use cloud_service.Text.Numbers.{ℤ, pos, negsuc, print_int, IsInt}
use cloud_service.Wire.{Bytes}

-- Every byte is a digit or one of `-`, `.` and `/`.
unfoldable pub IsNumeral : Bytes → Type 0
IsNumeral [] = Unit
IsNumeral (c ∷ s) = (45 ≤ c) × (c ≤ 57) × IsNumeral s

digits-IsNumeral : (fuel n : ℕ) (out : Bytes) → IsNumeral out → IsNumeral (digits fuel n out)
unfolding digits IsNumeral
digits-IsNumeral zero n out h = h
digits-IsNumeral (suc fuel) n out h = elim (Bool-cases (ltb n 10)) [
  | inl small ↦ let lt : n < 10 = ltb→lt n 10 small in rw small (omega arith, omega arith, h)
  | inr large ↦
      rw large (digits-IsNumeral fuel (n / 10) ((48 + n % 10) ∷ out) (omega arith, omega arith, h))
]

unfoldable power : ℕ → ℕ
power zero = 10
power (suc k) = 10 * power k

digits-length :
    (k fuel n : ℕ) (out : Bytes) → n < power k → length (digits fuel n out) ≤ length out + suc k
unfolding digits power
digits-length k zero n out h = omega arith
digits-length zero (suc fuel) n out h = ground arith
digits-length (suc k) (suc fuel) n out h = elim (Bool-cases (ltb n 10)) [
  | inl small ↦ rw small (omega arith)
  | inr large ↦
      rw large (omega (arith, digits-length k fuel (n / 10) ((48 + n % 10) ∷ out) (omega arith)))
]

digits-grows : (fuel n : ℕ) (out : Bytes) → length out ≤ length (digits fuel n out)
unfolding digits
digits-grows zero n out = omega arith
digits-grows (suc fuel) n out = elim (Bool-cases (ltb n 10)) [
  | inl small ↦ rw small (omega arith)
  | inr large ↦ rw large (omega (arith, digits-grows fuel (n / 10) ((48 + n % 10) ∷ out)))
]

digits-nonempty : (fuel n : ℕ) (out : Bytes) → n < fuel → 1 ≤ length (digits fuel n out)
unfolding digits
digits-nonempty zero n out h = absurd (omega arith)
digits-nonempty (suc fuel) n out h = elim (Bool-cases (ltb n 10)) [
  | inl small ↦ rw small (omega arith)
  | inr large ↦ rw large (omega (arith, digits-grows fuel (n / 10) ((48 + n % 10) ∷ out)))
]

print_int-nonempty : (z : ℤ) → 1 ≤ length (print_int z)
unfolding print_int decimal
print_int-nonempty (pos n) = digits-nonempty (n + 1) n [] (omega arith)
print_int-nonempty (negsuc n) = omega arith

IsNumeral-StartsPlain : (s : Bytes) → IsNumeral s → StartsPlain s
unfolding IsNumeral
IsNumeral-StartsPlain [] h = tt
IsNumeral-StartsPlain (c ∷ s) (le, ge, h) = ground arith

IsNumeral-EndsPlain : (s : Bytes) → IsNumeral s → EndsPlain s
unfolding IsNumeral EndsPlain
IsNumeral-EndsPlain [] h = tt
IsNumeral-EndsPlain (c ∷ []) (le, ge, h) = ground arith
IsNumeral-EndsPlain (c ∷ d ∷ s) (le, ge, h) = IsNumeral-EndsPlain (d ∷ s) h

IsNumeral-Without : (c : ℕ) (s : Bytes) → c < 45 → IsNumeral s → Without c s
unfolding IsNumeral Without
IsNumeral-Without c [] lt h = tt
IsNumeral-Without c (d ∷ s) lt (le, ge, h) = (ground arith, IsNumeral-Without c s lt h)

pub print_int-IsNumeral : (z : ℤ) → IsNumeral (print_int z)
unfolding print_int decimal IsNumeral
print_int-IsNumeral (pos n) = digits-IsNumeral (n + 1) n [] tt
print_int-IsNumeral (negsuc n) =
    (omega arith, omega arith, digits-IsNumeral (n + 1 + 1) (n + 1) [] tt)

pub print_int-length : (z : ℤ) → IsInt z → length (print_int z) ≤ 11
unfolding print_int decimal power
print_int-length (pos n) h = omega (arith, digits-length 9 (n + 1) n [] (omega arith))
print_int-length (negsuc n) h = omega (arith, digits-length 9 (n + 1 + 1) (n + 1) [] (omega arith))

pub print_int-IsWord : (z : ℤ) → IsWord (print_int z)
print_int-IsWord z =
    let numeral : IsNumeral (print_int z) = print_int-IsNumeral z in
    (
      print_int-nonempty z,
      (IsNumeral-StartsPlain (print_int z) numeral, IsNumeral-EndsPlain (print_int z) numeral),
      IsNumeral-Without 0 (print_int z) (omega arith) numeral,
      IsNumeral-Without b'#' (print_int z) (omega arith) numeral,
    )

pub print_int-Without : (z : ℤ) (c : ℕ) → c < 45 → Without c (print_int z)
print_int-Without z c lt = IsNumeral-Without c (print_int z) lt (print_int-IsNumeral z)

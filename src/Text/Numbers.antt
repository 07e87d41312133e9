-- ===== src/Text/Numbers.antt =====
-- Whole numbers as text: `atoi` of <stdlib.h>, and `%d` of <stdio.h>.
use cloud_service.Base.{
  ℕ, zero, suc, ◌+◌, ◌-◌, ◌*◌, ◌/◌, ◌%◌, ◌^◌, ◌<◌, ◌≤◌, ◌≡◌, refl, ap, ◌∙◌, true, false, [], ◌∷◌,
  ◌++◌, ◌==◌, ltb, if◌then◌else◌, arith, inl, inr, Bool-cases, ltb→lt, ltb→le, lt→ltb,
}
use cloud_service.Text.{is_space, is_digit, skip_spaces, digits, decimal}
use cloud_service.Wire.{Bytes, Run, fault, done}

pub data ℤ : Type 0 where
  pos : ℕ → ℤ
  negsuc : ℕ → ℤ

-- the digits at the start, behind a number that is read already
unfoldable pub read_digits : ℕ → Bytes → ℕ
read_digits n [] = n
read_digits n (c ∷ s) =
    let rest = read_digits (n * 10 + (c - 48)) s in if is_digit c then rest else n

-- `INT_MAX + 1`
abbrev pub int_limit : ℕ
int_limit = 2 ^ 31

abbrev pub positive : ℕ → Run ℤ
positive n = if ltb n int_limit then done (pos n) else fault

abbrev pub negative : ℕ → Run ℤ
negative zero = done (pos 0)
negative (suc n) = if ltb n int_limit then done (negsuc n) else fault

-- behind the white space
unfoldable pub signed : Bytes → Run ℤ
unfolding read_digits
signed [] = positive 0
signed (c ∷ s) =
    if c == b'-'
    then negative (read_digits 0 s)
    else if c == b'+'
    then positive (read_digits 0 s)
    else positive (read_digits 0 (c ∷ s))

-- What a number outside `int` gives is undefined in C: `fault`.
unfoldable pub atoi : Bytes → Run ℤ
unfolding skip_spaces signed
atoi s = signed (skip_spaces s)

-- `%d`
unfoldable pub print_int : ℤ → Bytes
print_int (pos n) = decimal n
print_int (negsuc n) = b'-' ∷ decimal (n + 1)

abbrev pub to_uint16 : ℤ → ℕ
to_uint16 (pos n) = n % 2 ^ 16
to_uint16 (negsuc n) = 2 ^ 16 - 1 - n % 2 ^ 16

-- behind digits nothing or something else stands
abbrev pub NoDigit : Bytes → Type 0
NoDigit [] = Unit
NoDigit (c ∷ s) = is_digit c ≡ false

read_digits-end : (n : ℕ) (s : Bytes) → NoDigit s → read_digits n s ≡ n
unfolding read_digits
read_digits-end n [] h = refl
read_digits-end n (c ∷ s) h = rw h refl

digit-is_digit : (d : ℕ) → d < 10 → is_digit (48 + d) ≡ true
digit-is_digit d h = ground arith

read_digits-digit :
    (n d : ℕ) (s : Bytes) → d < 10 → read_digits n ((48 + d) ∷ s) ≡ read_digits (n * 10 + d) s
unfolding read_digits
read_digits-digit n d s h =
    let minus : (48 + d) - 48 ≡ d = omega arith in rw (digit-is_digit d h, minus) refl

-- Enough fuel, and the digits of `n` then lead from 0 to `n`.
read_digits-digits :
    (fuel n : ℕ) (out : Bytes) → n < fuel → read_digits 0 (digits fuel n out) ≡ read_digits n out
unfolding digits
read_digits-digits zero n out h = absurd (omega arith)
read_digits-digits (suc fuel) n out h =
    let none_yet : 0 * 10 + n ≡ n = omega arith in
    let split : n / 10 * 10 + n % 10 ≡ n = omega arith in
    elim (Bool-cases (ltb n 10)) [
      | inl small ↦
          rw small
            (read_digits-digit 0 n out (ltb→lt n 10 small) ∙ ap (λ m. read_digits m out) none_yet)
      | inr large ↦
          let big : 10 ≤ n = ltb→le n 10 large in
          rw large (
            read_digits-digits fuel (n / 10) ((48 + n % 10) ∷ out) (omega arith)
            ∙ (read_digits-digit (n / 10) (n % 10) out (omega arith)
                ∙ ap (λ m. read_digits m out) split))
    ]

digits-append :
    (fuel n : ℕ) (out rest : Bytes) → digits fuel n out ++ rest ≡ digits fuel n (out ++ rest)
unfolding digits
digits-append zero n out rest = refl
digits-append (suc fuel) n out rest = elim (Bool-cases (ltb n 10)) [
  | inl small ↦ rw small refl
  | inr large ↦ rw large (digits-append fuel (n / 10) ((48 + n % 10) ∷ out) rest)
]

pub read_digits-decimal :
    (n : ℕ) (rest : Bytes) → NoDigit rest → read_digits 0 (decimal n ++ rest) ≡ n
unfolding decimal
read_digits-decimal n rest h =
    ap (λ s. read_digits 0 s) (digits-append (n + 1) n [] rest)
    ∙ (read_digits-digits (n + 1) n rest (omega arith) ∙ read_digits-end n rest h)

-- The first byte of a printed number is a digit.
abbrev StartsWithDigit : Bytes → Type 0
StartsWithDigit [] = ⊥
StartsWithDigit (c ∷ s) = (48 ≤ c) × (c ≤ 57)

digits-starts : (fuel n : ℕ) (out : Bytes) → n < fuel → StartsWithDigit (digits fuel n out)
unfolding digits
digits-starts zero n out h = absurd (omega arith)
digits-starts (suc fuel) n out h = elim (Bool-cases (ltb n 10)) [
  | inl small ↦ let lt : n < 10 = ltb→lt n 10 small in rw small (omega arith, omega arith)
  | inr large ↦
      let big : 10 ≤ n = ltb→le n 10 large in
      rw large (digits-starts fuel (n / 10) ((48 + n % 10) ∷ out) (omega arith))
]

signed-digit : (s : Bytes) → StartsWithDigit s → signed s ≡ positive (read_digits 0 s)
unfolding signed
signed-digit [] h = absurd h
signed-digit (c ∷ s) (le, ge) =
    let no : (c == b'-') ≡ false = ground arith in
    let no' : (c == b'+') ≡ false = ground arith in rw (no, no') refl

skip_spaces-digit : (s : Bytes) → StartsWithDigit s → skip_spaces s ≡ s
unfolding skip_spaces
skip_spaces-digit [] h = refl
skip_spaces-digit (c ∷ s) (le, ge) = let no : is_space c ≡ false = ground arith in rw no refl

starts-append : (s rest : Bytes) → StartsWithDigit s → StartsWithDigit (s ++ rest)
starts-append [] rest h = absurd h
starts-append (c ∷ s) rest h = h

-- A number of type `int`.
abbrev pub IsInt : ℤ → Type 0
IsInt (pos n) = n < int_limit
IsInt (negsuc n) = n < int_limit

-- Reading back a printed number gives the number, whatever but a digit stands behind it.
pub atoi-print_int :
    (z : ℤ) (rest : Bytes) → IsInt z → NoDigit rest → atoi (print_int z ++ rest) ≡ done z
unfolding atoi print_int decimal
atoi-print_int (pos n) rest small h =
    let starts : StartsWithDigit (decimal n ++ rest) =
      starts-append (decimal n) rest (digits-starts (n + 1) n [] (omega arith)) in
    let fits : ltb n int_limit ≡ true = lt→ltb n int_limit small in
    rw
      (
        skip_spaces-digit (decimal n ++ rest) starts,
        signed-digit (decimal n ++ rest) starts,
        read_digits-decimal n rest h,
        fits,
      )
      refl
atoi-print_int (negsuc n) rest small h =
    let fits : ltb n int_limit ≡ true = lt→ltb n int_limit small in
    let next : n + 1 ≡ suc n = omega arith in
    rw (read_digits-decimal (n + 1) rest h, next, fits) refl

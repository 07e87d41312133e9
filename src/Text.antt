-- ===== src/Text.antt =====
-- C strings: lists of bytes without the end mark, and what the programs use of <string.h>,
-- <ctype.h>, <stdlib.h> and <stdio.h> on them.
pub mod Numbers
pub mod Strings
use Prim.Native.Char.{code}
use Prim.Native.String.{String}
use cloud_service.Base.{
  ℕ, zero, suc, ◌≡◌, ◌+◌, ◌-◌, ◌*◌, ◌/◌, ◌%◌, ◌^◌, Bool, true, false, ◌&&◌, ◌||◌, Option, none,
  some, List, [], ◌∷◌, ◌++◌, ◌==◌, ltb, leb, length, if◌then◌else◌, take, drop, replicate,
}
use cloud_service.Wire.{Bytes, Run, fault, done}

-- the code points of a literal; these are its bytes when the text is ASCII
abbrev pub codes : String → Bytes
codes String.[] = []
codes (String.◌∷◌ c s) = code c ∷ codes s

-- `strcmp(s, t) == 0`
unfoldable pub same_string : Bytes → Bytes → Bool
same_string [] [] = true
same_string [] (y ∷ t) = false
same_string (x ∷ s) [] = false
same_string (x ∷ s) (y ∷ t) = x == y && same_string s t

-- `isspace` in the C locale
abbrev pub is_space : ℕ → Bool
is_space c = c == 32 || (leb 9 c && leb c 13)

abbrev pub is_digit : ℕ → Bool
is_digit c = leb 48 c && leb c 57

-- `while (isspace(*s)) s++`
unfoldable pub skip_spaces : Bytes → Bytes
skip_spaces [] = []
skip_spaces (c ∷ s) = if is_space c then skip_spaces s else c ∷ s

-- The part before the first `c`, which is all if there is none.
unfoldable pub before : ℕ → Bytes → Bytes
before c [] = []
before c (x ∷ s) = if x == c then [] else x ∷ before c s

-- `strchr(s, c)`: the part before the first `c`, and the part behind it
unfoldable pub split_at : ℕ → Bytes → Option (Bytes × Bytes)
split_at c [] = none
split_at c (x ∷ s) =
    let rest = split_at c s in
    if x == c then some ([], s) else elim rest [ none ↦ none | some (l, r) ↦ some (x ∷ l, r) ]

-- No byte is `c`.
unfoldable pub Without : ℕ → Bytes → Type 0
Without c [] = Unit
Without c (x ∷ s) = ((x == c) ≡ false) × Without c s

-- `strncpy(dest, src, n)` into an array that holds `dest`
unfoldable pub strncpy : Bytes → Bytes → ℕ → Bytes
strncpy dest src n = take n src ++ (replicate (n - length src) 0 ++ drop n dest)

-- The string in an array: `none` if no end mark stands in it.
unfoldable pub string_in : Bytes → Option Bytes
string_in [] = none
string_in (c ∷ a) =
    let rest = string_in a in
    if c == 0 then some [] else elim rest [ none ↦ none | some s ↦ some (c ∷ s) ]

-- `%d` of a number that is not negative, by fuel: `n` rounds are enough
unfoldable pub digits : ℕ → ℕ → Bytes → Bytes
digits zero n out = out
digits (suc fuel) n out =
    let rest = digits fuel (n / 10) ((48 + n % 10) ∷ out) in
    if ltb n 10 then (48 + n) ∷ out else rest

unfoldable pub decimal : ℕ → Bytes
unfolding digits
decimal n = digits (n + 1) n []

-- ===== src/Text/Strings.antt =====
-- Strings in fixed arrays: what `strncpy` leaves there.
use cloud_service.Base.{
  ℕ, zero, suc, ◌-◌, ◌<◌, ◌≤◌, ◌≡◌, refl, ap, none, some, [], ◌∷◌, ◌++◌, length, take, drop, arith,
}
use cloud_service.Text.{strncpy, string_in, Without}
use cloud_service.Wire.{Bytes}

string_in-zero : (v rest : Bytes) → Without 0 v → string_in (v ++ (0 ∷ rest)) ≡ some v
unfolding string_in Without
string_in-zero [] rest h = refl
string_in-zero (c ∷ v) rest (other, h) = rw (other, string_in-zero v rest h) refl

string_in-Without : (v : Bytes) → Without 0 v → string_in v ≡ none
unfolding string_in Without
string_in-Without [] h = refl
string_in-Without (c ∷ v) (other, h) = rw (other, string_in-Without v h) refl

take_all : (n : ℕ) (v : Bytes) → length v ≤ n → take n v ≡ v
take_all zero [] h = refl
take_all zero (c ∷ v) h = absurd (omega arith)
take_all (suc n) [] h = refl
take_all (suc n) (c ∷ v) h = ap (λ s. c ∷ s) (take_all n v (omega arith))

Without-take :
    (n : ℕ) (v rest : Bytes) → Without 0 v → Without 0 rest → Without 0 (take n v ++ rest)
unfolding Without
Without-take zero v rest h h' = h'
Without-take (suc n) [] rest h h' = h'
Without-take (suc n) (c ∷ v) rest (other, h) h' = (other, Without-take n v rest h h')

-- A string that fills the `n` bytes leaves no end mark if the array held none behind them.
pub string_in-strncpy_full :
    (dest v : Bytes) (n : ℕ)
    → Without 0 v
    → n ≤ length v
    → Without 0 (drop n dest)
    → string_in (strncpy dest v n) ≡ none
unfolding strncpy
string_in-strncpy_full dest v n h le stale =
    let no_room : n - length v ≡ 0 = omega arith in
    rw no_room
      (string_in-Without (take n v ++ drop n dest) (Without-take n v (drop n dest) h stale))

-- A string with room for its end mark is found again, whatever the array held before.
pub string_in-strncpy :
    (dest v : Bytes) (n : ℕ) → Without 0 v → length v < n → string_in (strncpy dest v n) ≡ some v
unfolding strncpy
string_in-strncpy dest v zero h lt = absurd (omega arith)
string_in-strncpy dest v (suc n) h lt =
    let whole : take (suc n) v ≡ v = take_all (suc n) v (omega (arith, lt)) in
    let room : suc n - length v ≡ suc (n - length v) = omega arith in
    rw (whole, room) (string_in-zero v _ h)

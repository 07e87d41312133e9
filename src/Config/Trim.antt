-- ===== src/Config/Trim.antt =====
-- White space around the strings of VPN/src/common/config.c.
use cloud_service.Base.{
  ℕ, zero, suc, ◌<◌, ◌≡◌, refl, ap, sym, ◌∙◌, true, false, [], ◌∷◌, ◌++◌, length, if◌then◌else◌,
  take, drop, subst, arith, inl, inr, Bool-cases,
}
use cloud_service.Config.{trim, trim_from, trim_end}
use cloud_service.Text.{is_space, skip_spaces}
use cloud_service.Wire.{Bytes}

unfoldable pub AllSpaces : Bytes → Type 0
AllSpaces [] = Unit
AllSpaces (c ∷ s) = (is_space c ≡ true) × AllSpaces s

-- The first byte is none.
abbrev pub StartsPlain : Bytes → Type 0
StartsPlain [] = Unit
StartsPlain (c ∷ s) = is_space c ≡ false

-- The last byte is none.
unfoldable pub EndsPlain : Bytes → Type 0
EndsPlain [] = Unit
EndsPlain (c ∷ []) = is_space c ≡ false
EndsPlain (c ∷ d ∷ s) = EndsPlain (d ∷ s)

-- Neither the first nor the last byte is white space.
abbrev pub IsTrimmed : Bytes → Type 0
IsTrimmed s = StartsPlain s × EndsPlain s

skip_spaces-append : (a s : Bytes) → AllSpaces a → skip_spaces (a ++ s) ≡ skip_spaces s
unfolding skip_spaces AllSpaces
skip_spaces-append [] s h = refl
skip_spaces-append (c ∷ a) s (h, hs) = rw h (skip_spaces-append a s hs)

skip_spaces-plain : (s : Bytes) → StartsPlain s → skip_spaces s ≡ s
unfolding skip_spaces
skip_spaces-plain [] h = refl
skip_spaces-plain (c ∷ s) h = rw h refl

-- Every string is white space, followed by what `skip_spaces` leaves.
skip_spaces_lem :
    (s : Bytes) → (a : Bytes) × AllSpaces a × (s ≡ a ++ skip_spaces s) × StartsPlain (skip_spaces s)
unfolding skip_spaces AllSpaces
skip_spaces_lem [] = ([], tt, refl, tt)
skip_spaces_lem (c ∷ s) = elim (Bool-cases (is_space c)) [
  | inl space ↦
      let (a, spaces, e, plain) = skip_spaces_lem s in
      (c ∷ a, (space, spaces), rw space (ap (λ r. c ∷ r) e), rw space plain)
  | inr plain ↦ ([], tt, rw plain refl, rw plain plain)
]

-- the test at one position
trim_end-step :
    (start : Bytes) (e c : ℕ) (rest : Bytes)
    → drop (suc e) start ≡ c ∷ rest
    → trim_end start (suc e) ≡ (if is_space c then trim_end start e else suc e)
unfolding trim_end
trim_end-step start e c rest h = rw (h, trim_end) refl

split_next :
    (s : Bytes) (n : ℕ)
    → n < length s
    → (c : ℕ) × (drop n s ≡ c ∷ drop (suc n) s) × (take (suc n) s ≡ take n s ++ (c ∷ []))
split_next [] n lt = absurd (omega arith)
split_next (c ∷ s) zero lt = (c, refl, refl)
split_next (c ∷ s) (suc n) lt =
    let (d, dropped, taken) = split_next s n (omega arith) in (d, dropped, ap (λ r. c ∷ r) taken)

EndsPlain-last : (s : Bytes) (c : ℕ) → is_space c ≡ false → EndsPlain (s ++ (c ∷ []))
unfolding EndsPlain
EndsPlain-last [] c h = h
EndsPlain-last (x ∷ []) c h = h
EndsPlain-last (x ∷ y ∷ s) c h = EndsPlain-last (y ∷ s) c h

-- From the position that is left on there are only spaces, and none stands before it.
abbrev Ends : Bytes → ℕ → Type 0
Ends s e = AllSpaces (drop (suc e) s) × EndsPlain (take (suc e) s)

trim_end-first :
    (c : ℕ) (s : Bytes) → is_space c ≡ false → AllSpaces s → Ends (c ∷ s) (trim_end (c ∷ s) zero)
unfolding trim_end EndsPlain
trim_end-first c s plain h = (h, plain)

trim_end_lem :
    (s : Bytes) (e : ℕ)
    → e < length s
    → StartsPlain s
    → AllSpaces (drop (suc e) s)
    → Ends s (trim_end s e)
unfolding AllSpaces
trim_end_lem [] e lt plain h = absurd (omega arith)
trim_end_lem (c ∷ s) zero lt plain h = trim_end-first c s plain h
trim_end_lem (x ∷ s) (suc e) lt plain h =
    let (c, dropped, taken) = split_next (x ∷ s) (suc e) lt in
    elim (Bool-cases (is_space c)) [
      | inl space ↦
          rw (trim_end-step (x ∷ s) e c (drop (suc e) s) dropped, space)
            (trim_end_lem (x ∷ s) e (omega arith) plain (subst AllSpaces (sym dropped) (space, h)))
      | inr last ↦
          rw (trim_end-step (x ∷ s) e c (drop (suc e) s) dropped, last)
            (h, subst EndsPlain (sym taken) (EndsPlain-last (take (suc e) (x ∷ s)) c last))
    ]

take-drop : (n : ℕ) (s : Bytes) → take n s ++ drop n s ≡ s
take-drop zero s = refl
take-drop (suc n) [] = refl
take-drop (suc n) (c ∷ s) = ap (λ r. c ∷ r) (take-drop n s)

drop-all : (s : Bytes) → drop (length s) s ≡ []
drop-all [] = refl
drop-all (c ∷ s) = drop-all s

trim_from_lem :
    (s : Bytes)
    → StartsPlain s
    → (b : Bytes) × AllSpaces b × (s ≡ trim_from s ++ b) × IsTrimmed (trim_from s)
unfolding AllSpaces EndsPlain
trim_from_lem [] plain = ([], tt, refl, (tt, tt))
trim_from_lem (c ∷ s) plain =
    let e : ℕ = trim_end (c ∷ s) (length s) in
    let (spaces, ends) : Ends (c ∷ s) e =
      trim_end_lem (c ∷ s) (length s) (omega arith) plain (rw (drop-all s) tt) in
    (drop (suc e) (c ∷ s), spaces, sym (take-drop (suc e) (c ∷ s)), (plain, ends))

-- `trim` takes white space off both ends and nothing else: the string is what is left with white space
-- before and behind it, and what is left neither starts nor ends with white space.
pub trim_lem :
    (s : Bytes)
    → (a : Bytes) × (b : Bytes) × AllSpaces a
      × AllSpaces b
      × (s ≡ a ++ (trim s ++ b))
      × IsTrimmed (trim s)
unfolding trim
trim_lem s =
    let (a, spaces, e, plain) = skip_spaces_lem s in
    let (b, spaces', e', trimmed) = trim_from_lem (skip_spaces s) plain in
    (a, b, spaces, spaces', e ∙ ap (λ r. a ++ r) e', trimmed)

EndsPlain-tail : (c : ℕ) (s : Bytes) → EndsPlain (c ∷ s) → EndsPlain s
unfolding EndsPlain
EndsPlain-tail c [] h = tt
EndsPlain-tail c (d ∷ s) h = h

EndsPlain-spaces : (t b : Bytes) → EndsPlain t → AllSpaces (t ++ b) → t ≡ []
unfolding EndsPlain AllSpaces
EndsPlain-spaces [] b h spaces = refl
EndsPlain-spaces (c ∷ []) b h (space, spaces) = absurd (cc (h, space))
EndsPlain-spaces (c ∷ d ∷ t) b h (space, spaces) = absurd (cc (EndsPlain-spaces (d ∷ t) b h spaces))

-- What stands before the spaces at the end is determined.
EndsPlain-unique :
    (t t' b b' : Bytes)
    → EndsPlain t
    → EndsPlain t'
    → AllSpaces b
    → AllSpaces b'
    → t ++ b ≡ t' ++ b'
    → t ≡ t'
EndsPlain-unique [] t' b b' h h' spaces spaces' e =
    sym (EndsPlain-spaces t' b' h' (subst AllSpaces e spaces))
EndsPlain-unique (c ∷ t) [] b b' h h' spaces spaces' e =
    EndsPlain-spaces (c ∷ t) b h (subst AllSpaces (sym e) spaces')
EndsPlain-unique (c ∷ t) (d ∷ t') b b' h h' spaces spaces' e =
    let same : c ≡ d = cc e in
    let rest : t ++ b ≡ t' ++ b' = cc e in
    let tails : t ≡ t' =
      EndsPlain-unique t t' b b' (EndsPlain-tail c t h) (EndsPlain-tail d t' h') spaces spaces'
        rest in
    cc (same, tails)

skip_spaces-all : (b : Bytes) → AllSpaces b → skip_spaces b ≡ []
unfolding skip_spaces AllSpaces
skip_spaces-all [] h = refl
skip_spaces-all (c ∷ b) (space, h) = rw space (skip_spaces-all b h)

-- A string without white space at its ends is what `trim` makes of it with white space round it.
pub trim_unique :
    (a t b : Bytes) → AllSpaces a → AllSpaces b → IsTrimmed t → trim (a ++ (t ++ b)) ≡ t
unfolding trim
trim_unique a [] b spaces spaces' trimmed =
    rw (skip_spaces-append a b spaces, skip_spaces-all b spaces') refl
trim_unique a (c ∷ t) b spaces spaces' (plain, ends) =
    let (b', spaces'', e, (plain', ends')) = trim_from_lem (c ∷ t ++ b) plain in
    rw (skip_spaces-append a (c ∷ t ++ b) spaces, skip_spaces-plain (c ∷ t ++ b) plain)
      (sym (EndsPlain-unique (c ∷ t) (trim_from (c ∷ t ++ b)) b b' ends ends' spaces' spaces'' e))

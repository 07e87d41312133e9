-- ===== src/Slots.antt =====
-- Fixed arrays of slots, searched from index 0: the loops that the client table
-- (VPN/src/server/client_manager.c) and the key table (VPN/src/enclave/key_manager.c) share.
use mathlib.Core.Option
use cloud_service.Base.{
  ℕ, zero, suc, ◌+◌, ◌<◌, ◌≤◌, ◌≡◌, Bool, true, false, not, Option, none, some, List, [], ◌∷◌,
  arith, length, get_elem?, All, map, Bool-cases, inl, inr, ap, ◌≤◌, false, set, if◌then◌else◌,
  replicate, refl,
}

abbrev after_one {ℓ} : {A : Type ℓ} → ℕ × A → ℕ × A
after_one (i, x) = (suc i, x)

abbrev pub to_count : Bool → ℕ
to_count true = 1
to_count false = 0

module _ {ℓ} {A : Type ℓ} where
  -- `for (i = 0; i < N; i++) if (p(a[i])) { ...; break; }`: a pointer into the array is the index
  -- of the slot beside what it holds.
  unfoldable pub find_slot : (A → Bool) → List A → Option (ℕ × A)
  find_slot p [] = none
  find_slot p (x ∷ xs) = if p x then some (0, x) else Option.map after_one (find_slot p xs)

  unfoldable pub count_if : (A → Bool) → List A → ℕ
  count_if p [] = 0
  count_if p (x ∷ xs) = if p x then suc (count_if p xs) else count_if p xs

  pub find_slot-get_elem? :
      (p : A → Bool) (xs : List A) (i : ℕ) (e : A)
      → find_slot p xs ≡ some (i, e)
      → (get_elem? xs i ≡ some e) × (p e ≡ true) × (i < length xs)
  unfolding find_slot
  find_slot-get_elem? p [] i e h = absurd (cc)
  find_slot-get_elem? p (x ∷ xs) zero e h = ground arith
  find_slot-get_elem? p (x ∷ xs) (suc i) e h = ground (arith, find_slot-get_elem? p xs i e)

  pub find_slot-set_self :
      (q : A → Bool) (xs : List A) (i : ℕ) (v : A)
      → find_slot q xs ≡ none
      → q v ≡ true
      → i < length xs
      → find_slot q (set xs i v) ≡ some (i, v)
  unfolding find_slot
  find_slot-set_self q [] i v h e l = absurd (omega arith)
  find_slot-set_self q (x ∷ xs) zero v h e l = ground arith
  find_slot-set_self q (x ∷ xs) (suc i) v h e l = ground (arith, find_slot-set_self q xs i v)

  -- A write that is invisible to the search leaves its result alone.
  pub find_slot-set_other :
      (q : A → Bool) (xs : List A) (i : ℕ) (e v : A)
      → get_elem? xs i ≡ some e
      → q e ≡ false
      → q v ≡ false
      → find_slot q (set xs i v) ≡ find_slot q xs
  unfolding find_slot
  find_slot-set_other q [] i e v g h k = refl
  find_slot-set_other q (x ∷ xs) zero e v g h k = ground arith
  find_slot-set_other q (x ∷ xs) (suc i) e v g h k = ground (arith, find_slot-set_other q xs i e v)

  -- A search that hits at or before the write.
  pub find_slot-set_hit :
      (q : A → Bool) (xs : List A) (i : ℕ) (e v : A)
      → find_slot q xs ≡ some (i, e)
      → q v ≡ true
      → find_slot q (set xs i v) ≡ some (i, v)
  unfolding find_slot
  find_slot-set_hit q [] i e v h k = absurd (cc)
  find_slot-set_hit q (x ∷ xs) zero e v h k = ground arith
  find_slot-set_hit q (x ∷ xs) (suc i) e v h k = ground (arith, find_slot-set_hit q xs i e v)

  pub find_slot-set_before :
      (q : A → Bool) (xs : List A) (i j : ℕ) (e v : A)
      → find_slot q xs ≡ some (i, e)
      → i < j
      → find_slot q (set xs j v) ≡ some (i, e)
  unfolding find_slot
  find_slot-set_before q [] i j e v h k = absurd (cc)
  find_slot-set_before q (x ∷ xs) i zero e v h k = absurd (omega arith)
  find_slot-set_before q (x ∷ xs) zero (suc j) e v h k = ground arith
  find_slot-set_before q (x ∷ xs) (suc i) (suc j) e v h k =
      ground (arith, find_slot-set_before q xs i j e v)

  -- A search that hit after the write finds the written slot, if that passes.
  pub find_slot-set_after :
      (q : A → Bool) (xs : List A) (i j : ℕ) (e v : A)
      → find_slot q xs ≡ some (i, e)
      → j < i
      → q v ≡ true
      → find_slot q (set xs j v) ≡ some (j, v)
  unfolding find_slot
  find_slot-set_after q [] i j e v h k t = absurd (cc)
  find_slot-set_after q (x ∷ xs) zero j e v h k t = absurd (omega arith)
  find_slot-set_after q (x ∷ xs) (suc i) zero e v h k t = ground arith
  find_slot-set_after q (x ∷ xs) (suc i) (suc j) e v h k t =
      ground (arith, find_slot-set_after q xs i j e v)

  pub count_if-set :
      (p : A → Bool) (xs : List A) (i : ℕ) (e v : A)
      → get_elem? xs i ≡ some e
      → count_if p (set xs i v) + to_count (p e) ≡ count_if p xs + to_count (p v)
  unfolding count_if
  count_if-set p [] i e v g = absurd (cc)
  count_if-set p (x ∷ xs) zero e v g = ground arith
  count_if-set p (x ∷ xs) (suc i) e v g = ground (arith, count_if-set p xs i e v)

  pub count_if-le-length : (p : A → Bool) (xs : List A) → count_if p xs ≤ length xs
  unfolding count_if
  count_if-le-length p [] = omega arith
  count_if-le-length p (x ∷ xs) = ground (arith, count_if-le-length p xs)

  pub count_if-pos :
      (p : A → Bool) (xs : List A) (i : ℕ) (e : A)
      → get_elem? xs i ≡ some e
      → p e ≡ true
      → 0 < count_if p xs
  unfolding count_if
  count_if-pos p [] i e g h = absurd (cc)
  count_if-pos p (x ∷ xs) zero e g h = ground arith
  count_if-pos p (x ∷ xs) (suc i) e g h = ground (arith, count_if-pos p xs i e)

  -- No free slot: the array is full; and the other way round.
  pub find_slot-none-count_if :
      (p : A → Bool) (xs : List A)
      → find_slot (λ x. not (p x)) xs ≡ none
      → count_if p xs ≡ length xs
  unfolding find_slot count_if
  find_slot-none-count_if p [] h = refl
  find_slot-none-count_if p (x ∷ xs) h = ground (arith, find_slot-none-count_if p xs)

  pub find_slot-some-count_if :
      (p : A → Bool) (xs : List A) (i : ℕ) (e : A)
      → find_slot (λ x. not (p x)) xs ≡ some (i, e)
      → count_if p xs < length xs
  unfolding find_slot count_if
  find_slot-some-count_if p [] i e h = absurd (cc)
  find_slot-some-count_if p (x ∷ xs) zero e h = ground (arith, count_if-le-length p xs)
  find_slot-some-count_if p (x ∷ xs) (suc i) e h = ground (arith, find_slot-some-count_if p xs i e)

  pub find_slot-none :
      (p : A → Bool) (xs : List A) (i : ℕ) (e : A)
      → find_slot p xs ≡ none
      → get_elem? xs i ≡ some e
      → p e ≡ false
  unfolding find_slot
  find_slot-none p [] i e h g = absurd (cc)
  find_slot-none p (x ∷ xs) zero e h g = ground arith
  find_slot-none p (x ∷ xs) (suc i) e h g = ground (arith, find_slot-none p xs i e)

  pub count_if-replicate :
      (p : A → Bool) (n : ℕ) (v : A) → p v ≡ false → count_if p (replicate n v) ≡ 0
  unfolding count_if
  count_if-replicate p zero v h = refl
  count_if-replicate p (suc n) v h = ground (arith, count_if-replicate p n v)

  pub find_slot-of_count_zero :
      (q : A → Bool) (xs : List A) → count_if q xs ≡ 0 → find_slot q xs ≡ none
  unfolding find_slot count_if
  find_slot-of_count_zero q [] h = refl
  find_slot-of_count_zero q (x ∷ xs) h = ground (arith, find_slot-of_count_zero q xs)

  pub count_zero-of_find_slot :
      (q : A → Bool) (xs : List A) → find_slot q xs ≡ none → count_if q xs ≡ 0
  unfolding find_slot count_if
  count_zero-of_find_slot q [] h = refl
  count_zero-of_find_slot q (x ∷ xs) h = ground (arith, count_zero-of_find_slot q xs)

  -- The only hit is switched off.
  pub find_slot-set_off :
      (q : A → Bool) (xs : List A) (i : ℕ) (e v : A)
      → get_elem? xs i ≡ some e
      → q e ≡ true
      → q v ≡ false
      → count_if q xs ≤ 1
      → find_slot q (set xs i v) ≡ none
  find_slot-set_off q xs i e v g h k u =
      find_slot-of_count_zero q (set xs i v) (ground (arith, count_if-set q xs i e v g))

  -- The only slot that passes is the one found.
  pub find_slot_unique :
      (q : A → Bool) (xs : List A) (i : ℕ) (e : A)
      → get_elem? xs i ≡ some e
      → q e ≡ true
      → count_if q xs ≤ 1
      → find_slot q xs ≡ some (i, e)
  unfolding find_slot count_if
  find_slot_unique q [] i e g h u = absurd (cc)
  find_slot_unique q (x ∷ xs) zero e g h u = ground arith
  find_slot_unique q (x ∷ xs) (suc i) e g h u =
      ground (arith, find_slot_unique q xs i e, count_if-pos q xs i e)

  abbrev pub unless_out : (A → Bool) → Option (ℕ × A) → Option (ℕ × A)
  unless_out out none = none
  unless_out out (some (i, x)) = if out x then none else some (i, x)

  -- One pass that switches off the slots `out` picks: a search finds what it found, unless that
  -- was switched off.
  module _ (q out : A → Bool) (f : A → A) (off : (x : A) → out x ≡ true → q (f x) ≡ false)
      (kept : (x : A) → out x ≡ false → f x ≡ x) where
    count_if-map_zero : (xs : List A) → count_if q xs ≡ 0 → count_if q (map f xs) ≡ 0
    unfolding count_if
    count_if-map_zero [] h = refl
    count_if-map_zero (x ∷ xs) h = elim (Bool-cases (out x)) [
      | inl o ↦ ground (arith, off x o, count_if-map_zero xs)
      | inr k ↦ ground (arith, ap q (kept x k), count_if-map_zero xs)
    ]

    pub find_slot-map_off :
        (xs : List A) → count_if q xs ≤ 1 → find_slot q (map f xs) ≡ unless_out out (find_slot q xs)
    unfolding find_slot count_if
    find_slot-map_off [] u = refl
    find_slot-map_off (x ∷ xs) u = elim (Bool-cases (out x)) [
      | inl o ↦ ground (
        arith,
        off x o,
        find_slot-map_off xs,
        find_slot-of_count_zero q (map f xs),
        count_if-map_zero xs,
      )
      | inr k ↦ rw (kept x k) (ground (arith, k, find_slot-map_off xs))
    ]

  pub count_if-map-le :
      (q : A → Bool) (f : A → A)
      → ((x : A) → q x ≡ false → q (f x) ≡ false)
      → (xs : List A) → count_if q (map f xs) ≤ count_if q xs
  unfolding count_if
  count_if-map-le q f keep [] = omega arith
  count_if-map-le q f keep (x ∷ xs) = elim (Bool-cases (q x)) [
    | inl hit ↦ ground (arith, count_if-map-le q f keep xs)
    | inr miss ↦ ground (arith, keep x miss, count_if-map-le q f keep xs)
  ]

  pub find_slot-of_All {κ} :
      (P : A → Type κ) (q : A → Bool)
      → ((x : A) → P x → q x ≡ false)
      → (xs : List A) → All P xs
      → find_slot q xs ≡ none
  unfolding find_slot
  find_slot-of_All P q misses [] a = refl
  find_slot-of_All P q misses (x ∷ xs) a =
      ground (arith, misses x a.0, find_slot-of_All P q misses xs a.1)

-- ===== src/Config/Entries.antt =====
-- The entries that config_load_from_file of VPN/src/common/config.c reads.
use cloud_service.Base.{
  ℕ, ◌≤◌, ◌≡◌, refl, ap, sym, ◌∙◌, false, some, [], ◌∷◌, ◌++◌, ◌==◌, length, arith, inl, inr,
  Bool-cases, length-append, ==_refl, ==_iff,
}
use cloud_service.Config.{entry, trim, with_text, with_equals, parse_line}
use cloud_service.Config.Trim.{AllSpaces, StartsPlain, EndsPlain, IsTrimmed, trim_unique}
use cloud_service.Text.{is_space, before, split_at, Without}
use cloud_service.Wire.{Bytes}

pub append_assoc : (x y z : Bytes) → (x ++ y) ++ z ≡ x ++ (y ++ z)
append_assoc [] y z = refl
append_assoc (c ∷ x) y z = ap (λ s. c ∷ s) (append_assoc x y z)

pub append_nil : (x : Bytes) → x ++ [] ≡ x
append_nil [] = refl
append_nil (c ∷ x) = ap (λ s. c ∷ s) (append_nil x)

module _ (c : ℕ) where
  pub Without-append : (x y : Bytes) → Without c x → Without c y → Without c (x ++ y)
  unfolding Without
  Without-append [] y h h' = h'
  Without-append (d ∷ x) y (other, h) h' = (other, Without-append x y h h')

  before-append : (s rest : Bytes) → Without c s → before c (s ++ rest) ≡ s ++ before c rest
  unfolding before Without
  before-append [] rest h = refl
  before-append (d ∷ s) rest (other, h) = rw other (ap (λ r. d ∷ r) (before-append s rest h))

  split_at-append : (s rest : Bytes) → Without c s → split_at c (s ++ (c ∷ rest)) ≡ some (s, rest)
  unfolding split_at Without
  split_at-append [] rest h = rw (==_refl c) refl
  split_at-append (d ∷ s) rest (other, h) = rw (other, split_at-append s rest h) refl

  AllSpaces-Without : (s : Bytes) → is_space c ≡ false → AllSpaces s → Without c s
  unfolding AllSpaces Without
  AllSpaces-Without [] h spaces = tt
  AllSpaces-Without (d ∷ s) h (space, spaces) = (differs, AllSpaces-Without s h spaces)
    where
      differs : (d == c) ≡ false
      differs = elim (Bool-cases (d == c)) [
        | inl same ↦ let e : d ≡ c = (==_iff d c).0 same in absurd (cc (e, h, space))
        | inr other ↦ other
      ]

-- behind the entry nothing or a comment
abbrev pub IsTail : Bytes → Type 0
IsTail [] = Unit
IsTail (c ∷ s) = c ≡ b'#'

-- A word of a line: it is not empty, has no white space at its ends, no null byte and no `#`.
abbrev pub IsWord : Bytes → Type 0
IsWord s = (1 ≤ length s) × IsTrimmed s × Without 0 s × Without b'#' s

no_comment :
    (text tail : Bytes)
    → Without 0 text
    → Without b'#' text
    → IsTail tail
    → before b'#' (before 0 (text ++ tail)) ≡ text
unfolding before
no_comment text tail no_null no_mark h =
    ap (λ s. before b'#' s) (before-append 0 text tail no_null)
    ∙ (before-append b'#' text (before 0 tail) no_mark
        ∙ (ap (λ s. text ++ s) (cut tail h) ∙ append_nil text))
  where
    cut : (tail : Bytes) → IsTail tail → before b'#' (before 0 tail) ≡ []
    cut [] h = refl
    cut (c ∷ s) h = rw h refl

EndsPlain-append : (x v : Bytes) → 1 ≤ length v → EndsPlain v → EndsPlain (x ++ v)
unfolding EndsPlain
EndsPlain-append [] v le h = h
EndsPlain-append (c ∷ []) [] le h = absurd (omega arith)
EndsPlain-append (c ∷ []) (d ∷ v) le h = h
EndsPlain-append (c ∷ d ∷ x) v le h = EndsPlain-append (d ∷ x) v le h

StartsPlain-append : (x y : Bytes) → 1 ≤ length x → StartsPlain x → StartsPlain (x ++ y)
StartsPlain-append [] y le h = absurd (omega arith)
StartsPlain-append (c ∷ x) y le h = h

nonempty_append : (x y : Bytes) → 1 ≤ length y → 1 ≤ length (x ++ y)
nonempty_append x y h = omega (arith, length-append x y)

with_text-nonempty : (s : Bytes) → 1 ≤ length s → with_text s ≡ with_equals (split_at b'=' s)
with_text-nonempty [] h = absurd (omega arith)
with_text-nonempty (c ∷ s) h = refl

-- The text of an entry: the key, spaces, `=`, spaces and the value.
abbrev pub entry_text : Bytes → Bytes → Bytes → Bytes → Bytes
entry_text key b a value = key ++ (b ++ (b'=' ∷ (a ++ value)))

module _ (a b a' b' key value tail : Bytes) (before_key : AllSpaces a) (behind_key : AllSpaces b)
    (before_value : AllSpaces a') (behind_value : AllSpaces b') where
  entry_text-Without :
      (c : ℕ)
      → is_space c ≡ false
      → (b'=' == c) ≡ false
      → Without c key
      → Without c value
      → Without c (a ++ (entry_text key b a' value ++ b'))
  unfolding Without
  entry_text-Without c plain other k v =
      Without-append c a _ (AllSpaces-Without c a plain before_key) (
        Without-append c (entry_text key b a' value) b'
          (Without-append c key _ k (
            Without-append c b _ (AllSpaces-Without c b plain behind_key)
              (other, Without-append c a' value (AllSpaces-Without c a' plain before_value) v)))
          (AllSpaces-Without c b' plain behind_value))

  with_text-entry :
      IsWord key
      → Without b'=' key
      → IsWord value
      → with_text (entry_text key b a' value) ≡ entry key value
  unfolding AllSpaces
  with_text-entry k no_equals v =
      let (nonempty, trimmed, no_null, no_mark) = k in
      let (nonempty', trimmed', no_null', no_mark') = v in
      let assoc : entry_text key b a' value ≡ (key ++ b) ++ (b'=' ∷ (a' ++ value)) =
        sym (append_assoc key b (b'=' ∷ (a' ++ value))) in
      let some_text : 1 ≤ length (entry_text key b a' value) =
        nonempty_append key (b ++ (b'=' ∷ (a' ++ value)))
          (nonempty_append b (b'=' ∷ (a' ++ value)) (omega arith)) in
      let halves : split_at b'=' ((key ++ b) ++ (b'=' ∷ (a' ++ value)))
          ≡ some (key ++ b, a' ++ value) =
        split_at-append b'=' (key ++ b) (a' ++ value)
          (Without-append b'=' key b no_equals (AllSpaces-Without b'=' b refl behind_key)) in
      let the_key : trim (key ++ b) ≡ key = trim_unique [] key b tt behind_key trimmed in
      let the_value : trim (a' ++ value) ≡ value =
        ap (λ s. trim (a' ++ s)) (sym (append_nil value))
        ∙ trim_unique a' value [] before_value tt trimmed' in
      with_text-nonempty (entry_text key b a' value) some_text
      ∙ (ap (λ s. with_equals (split_at b'=' s)) assoc
          ∙ (ap with_equals halves ∙ rw (the_key, the_value) refl))

  entry_text-IsTrimmed : IsWord key → IsWord value → IsTrimmed (entry_text key b a' value)
  entry_text-IsTrimmed (nonempty, (starts, ends), no_null, no_mark)
        (nonempty', (starts', ends'), no_null', no_mark') =
      let one : 1 ≤ length (b'=' ∷ (a' ++ value)) = omega arith in
      let end1 : EndsPlain (b'=' ∷ (a' ++ value)) =
        EndsPlain-append (b'=' ∷ a') value nonempty' ends' in
      let end2 : EndsPlain (b ++ (b'=' ∷ (a' ++ value))) =
        EndsPlain-append b (b'=' ∷ (a' ++ value)) one end1 in
      (
        StartsPlain-append key (b ++ (b'=' ∷ (a' ++ value))) nonempty starts,
        EndsPlain-append key (b ++ (b'=' ∷ (a' ++ value))) (nonempty_append b _ one) end2,
      )

  -- A line with an entry whose key and value are words without null byte and `#`, the key without
  -- `=`, is read as that entry, whatever white space stands round the key and the value and
  -- whatever comment follows.
  pub parse_line-entry :
      IsWord key
      → Without b'=' key
      → IsWord value
      → IsTail tail
      → parse_line ((a ++ (entry_text key b a' value ++ b')) ++ tail) ≡ entry key value
  unfolding parse_line
  parse_line-entry k no_equals v t =
      let (nonempty, trimmed, no_null, no_mark) = k in
      let (nonempty', trimmed', no_null', no_mark') = v in
      let text : Bytes = a ++ (entry_text key b a' value ++ b') in
      let cut : before b'#' (before 0 (text ++ tail)) ≡ text =
        no_comment text tail (entry_text-Without 0 refl refl no_null no_null')
          (entry_text-Without b'#' refl refl no_mark no_mark') t in
      let bare : trim text ≡ entry_text key b a' value =
        trim_unique a (entry_text key b a' value) b' before_key behind_value
          (entry_text-IsTrimmed k v) in
      ap (λ s. with_text (trim s)) cut ∙ (ap with_text bare ∙ with_text-entry k no_equals v)

-- ===== src/Config/Lines.antt =====
-- The lines that config_load_from_file of VPN/src/common/config.c reads.
use cloud_service.Base.{
  ℕ, zero, suc, ◌+◌, ◌-◌, ◌<◌, ◌≤◌, ◌≡◌, refl, ap, sym, ◌∙◌, Option, none, some, List, [], ◌∷◌,
  ◌++◌, ◌==◌, length, length-append, arith, inl, inr, Bool-cases,
}
use cloud_service.Config.{chunk, fgets, read_lines, line_size}
use cloud_service.Text.{Without}
use cloud_service.Wire.{Bytes}

-- the lines put together again
unfoldable pub joined : List Bytes → Bytes
joined [] = []
joined (line ∷ lines) = line ++ joined lines

unfoldable pub All : (Bytes → Type 0) → List Bytes → Type 0
All Φ [] = Unit
All Φ (line ∷ lines) = Φ line × All Φ lines

chunk-append : (n : ℕ) (s : Bytes) → (chunk n s).0 ++ (chunk n s).1 ≡ s
unfolding chunk
chunk-append zero s = refl
chunk-append (suc n) [] = refl
chunk-append (suc n) (c ∷ s) = elim (Bool-cases (c == b'\n')) [
  | inl newline ↦ rw newline refl
  | inr other ↦ rw other (ap (λ r. c ∷ r) (chunk-append n s))
]

chunk-size : (n : ℕ) (s : Bytes) → length (chunk n s).0 ≤ n
unfolding chunk
chunk-size zero s = omega arith
chunk-size (suc n) [] = omega arith
chunk-size (suc n) (c ∷ s) = elim (Bool-cases (c == b'\n')) [
  | inl newline ↦ rw newline (omega arith)
  | inr other ↦ rw other (omega (arith, chunk-size n s))
]

-- What `fgets` reads of a file is its start: one byte at least, 511 at most.
abbrev pub Reads : Bytes → Option (Bytes × Bytes) → Type 0
Reads file none = file ≡ []
Reads file (some (line, rest)) =
    (line ++ rest ≡ file) × (1 ≤ length line) × (length line < line_size)

fgets-nonempty : (n c : ℕ) (s : Bytes) → 1 ≤ length (chunk (suc n) (c ∷ s)).0
unfolding chunk
fgets-nonempty n c s = elim (Bool-cases (c == b'\n')) [
  | inl newline ↦ rw newline (omega arith)
  | inr other ↦ rw other (omega arith)
]

pub fgets-Reads : (file : Bytes) → Reads file (fgets file)
unfolding fgets
fgets-Reads [] = refl
fgets-Reads (c ∷ s) = (
  chunk-append (line_size - 1) (c ∷ s),
  fgets-nonempty 510 c s,
  omega (arith, chunk-size (line_size - 1) (c ∷ s)),
)

abbrev pub IsChunk : Bytes → Type 0
IsChunk line = (1 ≤ length line) × (length line < line_size)

abbrev pub ReadAs : Bytes → List Bytes → Type 0
ReadAs file lines = (joined lines ≡ file) × All IsChunk lines

-- a round of the loop
read_round :
    (more : Bytes → List Bytes) (file : Bytes) (r : Option (Bytes × Bytes))
    → Reads file r
    → ((rest : Bytes) → length rest < length file → ReadAs rest (more rest))
    → ReadAs file (elim r [ none ↦ [] | some (line, rest) ↦ line ∷ more rest ])
unfolding joined All
read_round more file none e k = (sym e, tt)
read_round more file (some (line, rest)) (e, le, lt) k =
    let total : length line + length rest ≡ length file =
      sym (length-append line rest) ∙ ap (λ s. length s) e in
    let (again, fit) = k rest (omega arith) in (ap (λ r. line ++ r) again ∙ e, ((le, lt), fit))

-- The loop ends: with as many rounds as the file has bytes all of it is read, in pieces of at least one
-- byte that fit the array with an end mark; what was read, put together, is the file.
pub read_lines-joined :
    (fuel : ℕ) (file : Bytes) → length file ≤ fuel → ReadAs file (read_lines fuel file)
unfolding read_lines joined All
read_lines-joined zero [] h = (refl, tt)
read_lines-joined zero (c ∷ s) h = absurd (omega arith)
read_lines-joined (suc fuel) file h =
    read_round (λ rest. read_lines fuel rest) file (fgets file) (fgets-Reads file)
      (λ rest less. read_lines-joined fuel rest (omega arith))

-- A line of a text file: its newline is its last byte.
abbrev pub IsLine : Bytes → Type 0
IsLine line =
    (text : Bytes) × (line ≡ text ++ (b'\n' ∷ []))
    × Without b'\n' text
    × (length text < line_size - 1)

chunk-line :
    (n : ℕ) (text rest : Bytes)
    → Without b'\n' text
    → length text < n
    → chunk n (text ++ (b'\n' ∷ rest)) ≡ (text ++ (b'\n' ∷ []), rest)
unfolding chunk Without
chunk-line zero text rest h lt = absurd (omega arith)
chunk-line (suc n) [] rest h lt = refl
chunk-line (suc n) (c ∷ text) rest (other, h) lt =
    rw (other, chunk-line n text rest h (omega arith)) refl

append_newline : (text rest : Bytes) → (text ++ (b'\n' ∷ [])) ++ rest ≡ text ++ (b'\n' ∷ rest)
append_newline [] rest = refl
append_newline (c ∷ text) rest = ap (λ s. c ∷ s) (append_newline text rest)

fgets-chunk : (c : ℕ) (s : Bytes) → fgets (c ∷ s) ≡ some (chunk (line_size - 1) (c ∷ s))
unfolding fgets
fgets-chunk c s = refl

fgets-nil : fgets [] ≡ none
unfolding fgets
fgets-nil = refl

fgets-line :
    (text rest : Bytes)
    → Without b'\n' text
    → length text < line_size - 1
    → fgets (text ++ (b'\n' ∷ rest)) ≡ some (text ++ (b'\n' ∷ []), rest)
fgets-line [] rest h lt = fgets-chunk b'\n' rest ∙ ap some (chunk-line (line_size - 1) [] rest h lt)
fgets-line (c ∷ text) rest h lt =
    fgets-chunk c (text ++ (b'\n' ∷ rest))
    ∙ ap some (chunk-line (line_size - 1) (c ∷ text) rest h lt)

-- A file of such lines is read line by line, with as many rounds as there are lines or more.
pub read_lines-lines :
    (fuel : ℕ) (lines : List Bytes)
    → All IsLine lines
    → length lines ≤ fuel
    → read_lines fuel (joined lines) ≡ lines
unfolding read_lines joined All
read_lines-lines zero [] h le = refl
read_lines-lines zero (line ∷ lines) h le = absurd (omega arith)
read_lines-lines (suc fuel) [] h le = rw (fgets-nil, read_lines) refl
read_lines-lines (suc fuel) (line ∷ lines) ((text, e, plain, short), h) le =
    let start : fgets (line ++ joined lines) ≡ some (line, joined lines) = rw e (
      (ap fgets (append_newline text (joined lines)))
      ∙ fgets-line text (joined lines) plain short) in
    rw (start, read_lines) (ap (λ ls. line ∷ ls) (read_lines-lines fuel lines h (omega arith)))

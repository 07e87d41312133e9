-- ===== src/Wire.antt =====
-- Packed structures in memory: the loads and stores of their integer fields on a little-endian host
-- (the x86-64 that VPN/Makefile builds for), and the byte-order functions of <arpa/inet.h> and
-- <endian.h> on such a host.
use cloud_service.Base.{
  ℕ, ◌+◌, ◌*◌, ◌/◌, ◌%◌, ◌^◌, ◌<◌, ◌≡◌, sym, ◌∙◌, ap, List, [], ◌∷◌, ◌++◌, arith, length, get_or,
  take, drop, length-append, length-drop, take-append, refl, true, ◌≤◌, drop-append_add, drop-drop,
  leb, if◌then◌else◌,
}

abbrev pub Bytes : Type 0
Bytes = List ℕ

-- `htons` and `ntohs`
unfoldable pub htons : ℕ → ℕ
htons v = v % 256 * 256 + v / 256 % 256

-- `htonl` and `ntohl`
unfoldable pub htonl : ℕ → ℕ
htonl v = v % 256 * 2 ^ 24 + v / 256 % 256 * 2 ^ 16 + v / 2 ^ 16 % 256 * 256 + v / 2 ^ 24 % 256

-- `htobe64` and `be64toh`: the halves change places.
unfoldable pub htobe64 : ℕ → ℕ
htobe64 v = htonl (v % 2 ^ 32) * 2 ^ 32 + htonl (v / 2 ^ 32)

pub htons-htons : (v : ℕ) → v < 2 ^ 16 → htons (htons v) ≡ v
unfolding htons
htons-htons v h = omega arith

pub htonl-htonl : (v : ℕ) → v < 2 ^ 32 → htonl (htonl v) ≡ v
unfolding htonl
htonl-htonl v h = omega arith

pub htonl-injective : (a b : ℕ) → a < 2 ^ 32 → b < 2 ^ 32 → htonl a ≡ htonl b → a ≡ b
htonl-injective a b ha hb e = sym (htonl-htonl a ha) ∙ (ap htonl e ∙ htonl-htonl b hb)

pub htons-lt : (v : ℕ) → htons v < 2 ^ 16
unfolding htons
htons-lt v = omega arith

pub htonl-lt : (v : ℕ) → htonl v < 2 ^ 32
unfolding htonl
htonl-lt v = omega arith

pub htobe64-htobe64 : (v : ℕ) → v < 2 ^ 64 → htobe64 (htobe64 v) ≡ v
unfolding htobe64
htobe64-htobe64 v h =
    let lo : ℕ = v % 2 ^ 32 in
    let hi : ℕ = v / 2 ^ 32 in
    let low : (htonl lo * 2 ^ 32 + htonl hi) % 2 ^ 32 ≡ htonl hi = omega (arith, htonl-lt hi) in
    let high : (htonl lo * 2 ^ 32 + htonl hi) / 2 ^ 32 ≡ htonl lo = omega (arith, htonl-lt hi) in
    rw (low, high) (omega (arith, htonl-htonl lo (omega arith), htonl-htonl hi (omega arith)))

pub htobe64-lt : (v : ℕ) → v < 2 ^ 64 → htobe64 v < 2 ^ 64
unfolding htobe64
htobe64-lt v h = omega (arith, htonl-lt (v % 2 ^ 32), htonl-lt (v / 2 ^ 32))

-- An unsigned load of 2, 4 or 8 bytes at an address.
abbrev pub load16 : Bytes → ℕ → ℕ
load16 b i = get_or b i 0 + 256 * get_or b (i + 1) 0

abbrev pub load32 : Bytes → ℕ → ℕ
load32 b i = load16 b i + 2 ^ 16 * load16 b (i + 2)

abbrev pub load64 : Bytes → ℕ → ℕ
load64 b i = load32 b i + 2 ^ 32 * load32 b (i + 4)

abbrev pub store16 : ℕ → Bytes
store16 v = v % 256 ∷ v / 256 % 256 ∷ []

abbrev pub store32 : ℕ → Bytes
store32 v = v % 256 ∷ v / 256 % 256 ∷ v / 2 ^ 16 % 256 ∷ v / 2 ^ 24 % 256 ∷ []

abbrev pub store64 : ℕ → Bytes
store64 v = store32 (v % 2 ^ 32) ++ store32 (v / 2 ^ 32)

-- The result of code that works on fixed buffers: `fault` is a write outside the memory that the code
-- owns, a read through a null pointer, or the reading of a string past the end of its array.
pub data Run {ℓ} (A : Type ℓ) : Type ℓ where
  fault : Run A
  done : A → Run A

infixl 5 ◌>>=◌
abbrev pub ◌>>=◌ {ℓ κ} : {A : Type ℓ} {B : Type κ} → Run A → (A → Run B) → Run B
fault >>= f = fault
done a >>= f = f a

-- `memcpy(buf + i, xs, n)`
unfoldable pub blit : Bytes → ℕ → Bytes → Run Bytes
blit buf i xs =
    if leb (i + length xs) (length buf)
    then done (take i buf ++ (xs ++ drop (i + length xs) buf))
    else fault

pub blit_start :
    (buf xs : Bytes) → length xs ≤ length buf → blit buf 0 xs ≡ done (xs ++ drop (length xs) buf)
unfolding blit
blit_start buf xs h =
    let fits : leb (0 + length xs) (length buf) ≡ true = ground arith in
    let n : 0 + length xs ≡ length xs = omega arith in rw (fits, n) refl

-- The second of two writes, right behind the first.
pub blit_next :
    (buf xs ys : Bytes) (i : ℕ)
    → length xs ≡ i
    → length xs + length ys ≤ length buf
    → blit (xs ++ drop (length xs) buf) i ys ≡ done (xs ++ (ys ++ drop (length xs + length ys) buf))
unfolding blit
blit_next buf xs ys i e h =
    let total : length (xs ++ drop (length xs) buf) ≡ length buf =
      omega (arith, length-append xs (drop (length xs) buf), length-drop (length xs) buf) in
    let fits : leb (i + length ys) (length (xs ++ drop (length xs) buf)) ≡ true =
      ground (arith, total) in
    rw
      (
        fits,
        take-append i xs (drop (length xs) buf) e,
        ← e,
        drop-append_add xs (drop (length xs) buf) (length ys),
        drop-drop (length xs) (length ys) buf,
      )
      refl

-- A write past the end of the buffer.
pub blit_fault : (buf xs : Bytes) (i : ℕ) → length buf < i + length xs → blit buf i xs ≡ fault
unfolding blit
blit_fault buf xs i h = ground arith

-- whatever a run that does not fault gives
abbrev pub IfDone : {A : Type 0} → (A → Type 0) → Run A → Type 0
IfDone Φ fault = Unit
IfDone Φ (done a) = Φ a

pub IfDone-any : {A : Type 0} (r : Run A) → IfDone (λ a. Unit) r
IfDone-any fault = tt
IfDone-any (done a) = tt

pub IfDone-weaken :
    {A : Type 0} (Φ Ψ : A → Type 0) (r : Run A) → IfDone Φ r → ((a : A) → Φ a → Ψ a) → IfDone Ψ r
IfDone-weaken Φ Ψ fault h k = tt
IfDone-weaken Φ Ψ (done a) h k = k a h

pub IfDone-bind :
    {A B : Type 0} (Φ : A → Type 0) (Ψ : B → Type 0) (r : Run A) (f : A → Run B)
    → IfDone Φ r
    → ((a : A) → Φ a → IfDone Ψ (f a))
    → IfDone Ψ (r >>= f)
IfDone-bind Φ Ψ fault f h k = tt
IfDone-bind Φ Ψ (done a) f h k = k a h

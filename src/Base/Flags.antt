-- ===== src/Base/Flags.antt =====
-- Bits of a word: `&` and `|` bit by bit, and C's test of a mask.
use woa_rk.Base.{
  ℕ, zero, suc, ◌+◌, ◌-◌, ◌/◌, ◌%◌, ◌^◌, ◌≡◌, refl, sym, ◌∙◌, ap, bit_and, bit_or, Bool, true,
  false, not, ◌&&◌, ◌||◌, ◌==◌, ==_iff, ==_ne, if◌then◌else◌, flag, arith, List, [], ◌∷◌,
  Bool-cases, inl, inr, ◌<◌,
}
use woa_rk.Base.Bits.{half-bit_and, half-bit_or, odd-bit_and, odd-bit_or}
use native.Mathlib.Nat.{div-div-eq-div-mul, pow-suc}

-- Bit `k` of `x` is the lowest of its half.
pub flag_half : (x k : ℕ) → flag x (suc k) ≡ flag (x / 2) k
flag_half x k =
    let e : x / 2 ^ suc k ≡ x / 2 / 2 ^ k =
      ap (λ t. x / t) (pow-suc 2 k ∙ omega arith) ∙ sym (div-div-eq-div-mul x 2 (2 ^ k)) in
    ap (λ t. t % 2 == 1) e

pub flag-bit_or : (a b k : ℕ) → flag (bit_or a b) k ≡ (flag a k || flag b k)
flag-bit_or a b zero = ground (arith, odd-bit_or a b)
flag-bit_or a b (suc k) =
    rw (flag_half (bit_or a b) k, flag_half a k, flag_half b k, half-bit_or a b)
      (flag-bit_or (a / 2) (b / 2) k)

pub flag-bit_and : (a b k : ℕ) → flag (bit_and a b) k ≡ (flag a k && flag b k)
flag-bit_and a b zero = ground (arith, odd-bit_and a b)
flag-bit_and a b (suc k) =
    rw (flag_half (bit_and a b) k, flag_half a k, flag_half b k, half-bit_and a b)
      (flag-bit_and (a / 2) (b / 2) k)

-- The word with the bits of the list set, and whether one of them is set in a word.
abbrev pub mask : List ℕ → ℕ
mask [] = 0
mask (k ∷ ks) = bit_or (2 ^ k) (mask ks)

abbrev pub any_flag : ℕ → List ℕ → Bool
any_flag x [] = false
any_flag x (k ∷ ks) = flag x k || any_flag x ks

-- `x & ~m` on 32 bits.
unfoldable pub clear : ℕ → ℕ → ℕ
clear x m = bit_and x (4294967295 - m)

pub flag-clear : (x m k : ℕ) → flag (clear x m) k ≡ (flag x k && flag (4294967295 - m) k)
unfolding clear
flag-clear x m k = flag-bit_and x (4294967295 - m) k

-- `if (b) x |= m`
unfoldable pub or_if : Bool → ℕ → ℕ → ℕ
or_if b m x = if b then bit_or x m else x

pub flag-or_if : (b : Bool) (m x k : ℕ) → flag (or_if b m x) k ≡ (flag x k || (b && flag m k))
unfolding or_if
flag-or_if true m x k = flag-bit_or x m k
flag-or_if false m x k = ground arith

-- A test that holds of all numbers below a bound.
abbrev pub all_below : (ℕ → Bool) → ℕ → Bool
all_below test zero = true
all_below test (suc n) = test n && all_below test n

pub all_below-holds :
    (test : ℕ → Bool) (bound n : ℕ) → all_below test bound ≡ true → n < bound → test n ≡ true
all_below-holds test zero n h lt = absurd (omega arith)
all_below-holds test (suc b) n h lt = elim (Bool-cases (n == b)) [
  | inl e ↦ let same : n ≡ b = (==_iff n b).0 e in rw same (ground (arith, h))
  | inr e ↦ let less = ==_ne n b e in all_below-holds test b n (ground (arith, h)) (omega arith)
]

-- A bit below 32 that is set, or cleared.
pub flag_set : (x n : ℕ) → n < 32 → flag (bit_or x (2 ^ n)) n ≡ true
flag_set x n h =
    let e : flag (2 ^ n) n ≡ true = all_below-holds (λ n. flag (2 ^ n) n) 32 n refl h in
    rw (flag-bit_or, e) (ground arith)

pub flag_cleared : (x n : ℕ) → n < 32 → flag (clear x (2 ^ n)) n ≡ false
flag_cleared x n h =
    let e : not (flag (4294967295 - 2 ^ n) n) ≡ true =
      all_below-holds (λ n. not (flag (4294967295 - 2 ^ n) n)) 32 n refl h in
    let f : flag (4294967295 - 2 ^ n) n ≡ false = ground (arith, e) in
    rw (flag-clear, f) (ground arith)

-- A word keeps the bit `n` when another bit is set or cleared.
pub flag-set_high : (x n : ℕ) → n < 16 → flag (bit_or x (2 ^ (16 + n))) n ≡ flag x n
flag-set_high x n h =
    let e : not (flag (2 ^ (16 + n)) n) ≡ true =
      all_below-holds (λ n. not (flag (2 ^ (16 + n)) n)) 16 n refl h in
    let f : flag (2 ^ (16 + n)) n ≡ false = ground (arith, e) in rw (flag-bit_or, f) (ground arith)

pub flag-clear_high : (x n : ℕ) → n < 16 → flag (clear x (2 ^ (16 + n))) n ≡ flag x n
flag-clear_high x n h =
    let e : flag (4294967295 - 2 ^ (16 + n)) n ≡ true =
      all_below-holds (λ n. flag (4294967295 - 2 ^ (16 + n)) n) 16 n refl h in
    rw (flag-clear, e) (ground arith)

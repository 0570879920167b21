-- ===== src/Base/Bits.antt =====
-- `&` and `|` at variables: a low mask is a remainder, and testing a mask goes through `|`.
use Prim.Native.Nat.{
  ℕ, zero, suc, ◌+◌, ◌-◌, ◌*◌, ◌/◌, ◌%◌, ◌^◌, ◌≤◌, ◌<◌, min, max, digits, bit_and, bit_or,
  bit_and-bitwise, bit_or-bitwise,
}
use mathlib.Core.Path.{◌≡◌, refl, sym, ap, ◌∙◌}
use mathlib.Core.Bool.{Bool, not, ◌||◌}
use mathlib.Core.WellFounded
use native.Mathlib.Nat.{pow-suc, one-le-pow}
use native.Mathlib.Omega.{arith}
use woa_rk.Base.Tests.{◌==◌}

Acc_below : (bound n : ℕ) → n < bound → WellFounded.Acc ◌<◌ n
Acc_below zero n h = elim h [ ]
Acc_below (suc bound) n h = WellFounded.Acc.intro n (λ m hm. Acc_below bound m (omega arith))

pub lt_wf : WellFounded.WellFounded ◌<◌
lt_wf = record { apply = λ n. Acc_below (suc n) n (omega arith) }

-- The count of digits to go does not matter once it covers the first number.
module _ (rest : ℕ → ℕ) (f : ℕ → ℕ → ℕ) where
  digits_enough : (m n a b : ℕ) → a ≤ m → a ≤ n → digits rest f m a b ≡ digits rest f n a b
  digits_enough zero zero a b p q = refl
  digits_enough zero (suc n) zero b p q = refl
  digits_enough zero (suc n) (suc a) b p q = absurd (omega arith)
  digits_enough (suc m) zero zero b p q = refl
  digits_enough (suc m) zero (suc a) b p q = absurd (omega arith)
  digits_enough (suc m) (suc n) zero b p q = refl
  digits_enough (suc m) (suc n) (suc a) b p q =
      ap (λ t. t * 2 + f (suc a % 2) (b % 2))
        (digits_enough m n (suc a / 2) (b / 2) (omega arith) (omega arith))

bit_and_digit : (a b : ℕ) → bit_and a b ≡ bit_and (a / 2) (b / 2) * 2 + min (a % 2) (b % 2)
bit_and_digit zero b = omega (arith, bit_and-bitwise 0 b, bit_and-bitwise 0 (b / 2))
bit_and_digit (suc a) b = omega (
  arith,
  bit_and-bitwise (suc a) b,
  bit_and-bitwise (suc a / 2) (b / 2),
  digits_enough (λ _. 0) min a (suc a / 2) (suc a / 2) (b / 2) (omega arith) (omega arith),
)

bit_or_digit : (a b : ℕ) → bit_or a b ≡ bit_or (a / 2) (b / 2) * 2 + max (a % 2) (b % 2)
bit_or_digit zero b = omega (arith, bit_or-bitwise 0 b, bit_or-bitwise 0 (b / 2))
bit_or_digit (suc a) b = omega (
  arith,
  bit_or-bitwise (suc a) b,
  bit_or-bitwise (suc a / 2) (b / 2),
  digits_enough (λ y. y) max a (suc a / 2) (suc a / 2) (b / 2) (omega arith) (omega arith),
)

pub bit_and-zero : (a : ℕ) → bit_and a 0 ≡ 0
bit_and-zero a = WellFounded.induction lt_wf {C = λ n. bit_and n 0 ≡ 0} a λ n ih. by_digit n ih
  where
    by_digit : (n : ℕ) → ((m : ℕ) → m < n → bit_and m 0 ≡ 0) → bit_and n 0 ≡ 0
    by_digit zero ih = refl
    by_digit (suc n) ih = omega (arith, bit_and_digit (suc n) 0, ih (suc n / 2) (omega arith))

pub zero-bit_and : (m : ℕ) → bit_and 0 m ≡ 0
zero-bit_and m = omega (arith, bit_and-bitwise 0 m)

pub zero-bit_or : (m : ℕ) → bit_or 0 m ≡ m
zero-bit_or m = omega (arith, bit_or-bitwise 0 m)

pub bit_or-zero : (a : ℕ) → bit_or a 0 ≡ a
bit_or-zero a = WellFounded.induction lt_wf {C = λ n. bit_or n 0 ≡ n} a λ n ih. by_digit n ih
  where
    by_digit : (n : ℕ) → ((m : ℕ) → m < n → bit_or m 0 ≡ m) → bit_or n 0 ≡ n
    by_digit zero ih = refl
    by_digit (suc n) ih = omega (arith, bit_or_digit (suc n) 0, ih (suc n / 2) (omega arith))

-- A bit that is clear is set by adding it: bit 1.
pub bit_or_two : (a : ℕ) → a % 4 < 2 → bit_or a 2 ≡ a + 2
bit_or_two a h = omega (arith, bit_or_digit a 2, bit_or_digit (a / 2) 1, bit_or-zero (a / 2 / 2))

mul_two_pow : (q k : ℕ) → q * 2 ^ suc k ≡ 2 * (q * 2 ^ k)
mul_two_pow q k = omega (arith, ap (λ (t : ℕ). q * t) (pow-suc 2 k))

-- A mask of ones keeps the low part of a number that is written as a sum.
bit_and_sum : (k q r : ℕ) → r < 2 ^ k → bit_and (q * 2 ^ k + r) (2 ^ k - 1) ≡ r
bit_and_sum zero q r h = omega (arith, bit_and-zero (q * 2 ^ 0 + r))
bit_and_sum (suc k) q r h = ground (
  arith,
  bit_and_digit (q * 2 ^ suc k + r) (2 ^ suc k - 1),
  mul_two_pow q k,
  pow-suc 2 k,
  one-le-pow k 2,
  bit_and_sum k q (r / 2) (omega (arith, pow-suc 2 k)),
)

-- `x & (2 ^ k - 1)` is the remainder by `2 ^ k`.
pub bit_and_low : (k a : ℕ) → bit_and a (2 ^ k - 1) ≡ a % 2 ^ k
bit_and_low k a = ground (arith, one-le-pow k 2, bit_and_sum k (a / 2 ^ k) (a % 2 ^ k))

-- `|` on the low part of a number that is written as a sum.
pub bit_or_low :
    (k a x y : ℕ) → x < 2 ^ k → y < 2 ^ k → bit_or (a * 2 ^ k + x) y ≡ a * 2 ^ k + bit_or x y
bit_or_low zero a x y h g =
    let e : y ≡ 0 = omega arith in
    rw e (bit_or-zero (a * 2 ^ 0 + x) ∙ ap (λ t. a * 2 ^ 0 + t) (sym (bit_or-zero x)))
bit_or_low (suc k) a x y h g = ground (
  arith,
  bit_or_digit (a * 2 ^ suc k + x) y,
  bit_or_digit x y,
  mul_two_pow a k,
  pow-suc 2 k,
  one-le-pow k 2,
  bit_or_low k a (x / 2) (y / 2) (omega (arith, pow-suc 2 k)) (omega (arith, pow-suc 2 k)),
)

pub half-bit_and : (a b : ℕ) → bit_and a b / 2 ≡ bit_and (a / 2) (b / 2)
half-bit_and a b = omega (arith, bit_and_digit a b)

pub half-bit_or : (a b : ℕ) → bit_or a b / 2 ≡ bit_or (a / 2) (b / 2)
half-bit_or a b = omega (arith, bit_or_digit a b)

pub odd-bit_and : (a b : ℕ) → bit_and a b % 2 ≡ min (a % 2) (b % 2)
odd-bit_and a b = omega (arith, bit_and_digit a b)

pub odd-bit_or : (a b : ℕ) → bit_or a b % 2 ≡ max (a % 2) (b % 2)
odd-bit_or a b = omega (arith, bit_or_digit a b)

-- `&` distributes over `|`.
pub bit_and-bit_or : (a b m : ℕ) → bit_and (bit_or a b) m ≡ bit_or (bit_and a m) (bit_and b m)
bit_and-bit_or a b m =
    WellFounded.induction lt_wf
      {C = λ n. (a b : ℕ) → bit_and (bit_or a b) n ≡ bit_or (bit_and a n) (bit_and b n)} m
      (λ n ih. by_digit n ih) a b
  where
    by_digit :
        (n : ℕ)
        → ((k : ℕ)
            → k < n
            → (a b : ℕ) → bit_and (bit_or a b) k ≡ bit_or (bit_and a k) (bit_and b k))
        → (a b : ℕ) → bit_and (bit_or a b) n ≡ bit_or (bit_and a n) (bit_and b n)
    by_digit zero ih a b = rw (bit_and-zero, bit_and-zero, bit_and-zero)
    by_digit (suc n) ih a b =
        let lower = ih (suc n / 2) (omega arith) (a / 2) (b / 2) in
        let left : bit_and (bit_or a b) (suc n) / 2
            ≡ bit_or (bit_and a (suc n)) (bit_and b (suc n)) / 2 =
          rw (half-bit_and, half-bit_or, half-bit_or, half-bit_and, half-bit_and) lower in
        omega (
          arith,
          left,
          odd-bit_and (bit_or a b) (suc n),
          odd-bit_or a b,
          odd-bit_or (bit_and a (suc n)) (bit_and b (suc n)),
          odd-bit_and a (suc n),
          odd-bit_and b (suc n),
        )

-- Whether some bit of the mask `m` is set, as C's `x & m` in a condition.
pub has : ℕ → ℕ → Bool
has x m = not (bit_and x m == 0)

pub bit_or-eq-zero : (a b : ℕ) → bit_or a b ≡ 0 → (a ≡ 0) × (b ≡ 0)
bit_or-eq-zero a =
    WellFounded.induction lt_wf {C = λ n. (b : ℕ) → bit_or n b ≡ 0 → (n ≡ 0) × (b ≡ 0)} a
      λ n ih. by_digit n ih
  where
    by_digit :
        (n : ℕ)
        → ((k : ℕ) → k < n → (b : ℕ) → bit_or k b ≡ 0 → (k ≡ 0) × (b ≡ 0))
        → (b : ℕ) → bit_or n b ≡ 0
        → (n ≡ 0) × (b ≡ 0)
    by_digit zero ih b h = omega (arith, bit_or-bitwise 0 b)
    by_digit (suc n) ih b h =
        let halves = ih (suc n / 2) (omega arith) (b / 2) (omega (arith, bit_or_digit (suc n) b)) in
        omega (arith, halves, bit_or_digit (suc n) b)

-- A mask is met by `a | b` exactly when it is met by one of the two.
pub has-bit_or : (a b m : ℕ) → has (bit_or a b) m ≡ (has a m || has b m)
unfolding has
has-bit_or a b m =
    ground
      (arith, bit_and-bit_or a b m, bit_or-eq-zero (bit_and a m) (bit_and b m), bit_or-bitwise 0 0)

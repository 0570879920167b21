-- ===== src/Net/Queue.antt =====
-- drivers/net/dwc_eqos/queue_common.h and queue_common.cpp: the size of a descriptor ring, and
-- the way from a descriptor's address to its index.
use native.Mathlib.Numerals.{add-one}
use native.Mathlib.Nat.{one-le-pow, pow-suc}
use woa_rk.Base.{
  ℕ, zero, suc, ◌+◌, ◌-◌, ◌*◌, ◌/◌, ◌%◌, ◌^◌, ◌≤◌, ◌<◌, ◌≡◌, ◌⊎◌, inl, inr, ltb, if◌then◌else◌, u32,
  bit_and, arith, min, max, Bool-cases,
}
use woa_rk.Base.Bits.{bit_and_low}

abbrev pub page_size : ℕ
page_size = 4096

abbrev pub descriptor_size : ℕ
descriptor_size = 64

abbrev pub descriptor_min_count : ℕ
descriptor_min_count = page_size / descriptor_size

abbrev pub descriptor_max_count : ℕ
descriptor_max_count = 0x400

abbrev pub descriptor_length_max : ℕ
descriptor_length_max = 0x3fff

abbrev pub descriptor_alignment : ℕ
descriptor_alignment = descriptor_max_count * descriptor_size

-- `_BitScanReverse`: the position of the highest bit that is set, for a number below
-- `2 ^ (fuel + 1)`.
unfoldable pub bit_scan_reverse : ℕ → ℕ → ℕ
bit_scan_reverse zero x = 0
bit_scan_reverse (suc fuel) x =
    let above = bit_scan_reverse fuel (x / 2) in if ltb x 2 then 0 else above + 1

abbrev clamped_count : ℕ → ℕ
clamped_count n =
    if ltb n descriptor_min_count
    then descriptor_min_count
    else if ltb descriptor_max_count n
    then descriptor_max_count
    else n

-- `QueueDescriptorCount`
unfoldable pub descriptor_count : ℕ → ℕ
unfolding bit_scan_reverse
descriptor_count fragment_count =
    u32 (2 * 2 ^ bit_scan_reverse 31 (clamped_count fragment_count - 1))

-- `QueueDescriptorAddressToIndex`
unfoldable pub address_to_index : ℕ → ℕ
address_to_index address = bit_and address (descriptor_alignment - 1) / descriptor_size

-- A power of 2 between the minimum and the maximum.
abbrev pub IsDescriptorCount : ℕ → Type 0
IsDescriptorCount c = (c ≡ 64) ⊎ (c ≡ 128) ⊎ (c ≡ 256) ⊎ (c ≡ 512) ⊎ (c ≡ 1024)

bit_scan_reverse_lem :
    (fuel x : ℕ)
    → 0 < x
    → x < 2 ^ suc fuel
    → (2 ^ bit_scan_reverse fuel x ≤ x) × (x < 2 * 2 ^ bit_scan_reverse fuel x)
unfolding bit_scan_reverse
bit_scan_reverse_lem zero x pos h = omega arith
bit_scan_reverse_lem (suc fuel) x pos h = elim (Bool-cases (ltb x 2)) [
  | inl small ↦ rw (small) (ground arith)
  | inr large ↦
      rw (large, add-one, pow-suc)
        (let below : 1 < x = ground arith in
          omega (
            arith,
            bit_scan_reverse_lem fuel (x / 2) (omega arith) (omega (arith, pow-suc 2 (suc fuel))),
          ))
]

pow_five : (b : ℕ) → 2 ^ suc (suc (suc (suc (suc b)))) ≡ 32 * 2 ^ b
pow_five b = simp pow-suc (omega arith)

-- The powers of 2 below 32, and below 1024.
power_small : (b : ℕ) → 2 ^ b < 32 → IsDescriptorCount (64 * 2 ^ b)
power_small zero h = omega arith
power_small (suc zero) h = omega arith
power_small (suc (suc zero)) h = omega arith
power_small (suc (suc (suc zero))) h = omega arith
power_small (suc (suc (suc (suc zero)))) h = omega arith
power_small (suc (suc (suc (suc (suc b))))) h = absurd (omega (arith, pow_five b, one-le-pow b 2))

power_large : (b : ℕ) → 2 ^ b < 1024 → 31 < 2 ^ b → IsDescriptorCount (2 * 2 ^ b)
power_large zero h l = absurd (omega arith)
power_large (suc zero) h l = absurd (omega arith)
power_large (suc (suc zero)) h l = absurd (omega arith)
power_large (suc (suc (suc zero))) h l = absurd (omega arith)
power_large (suc (suc (suc (suc zero)))) h l = absurd (omega arith)
power_large (suc (suc (suc (suc (suc b))))) h l =
    omega (arith, pow_five b, power_small b (omega (arith, pow_five b)))

-- The ring has a power of 2 of descriptors within the limits, at least the number of fragments
-- (up to the maximum), and less than twice the larger of that number and the minimum.
pub descriptor_count_lem :
    (n : ℕ)
    → IsDescriptorCount (descriptor_count n)
      × (min n descriptor_max_count ≤ descriptor_count n)
      × (descriptor_count n < 2 * max n descriptor_min_count)
unfolding descriptor_count
descriptor_count_lem n =
    let c = clamped_count n in
    let inside : (64 ≤ c) × (c ≤ 1024) × (min n 1024 ≤ c) × (c ≤ max n 64) = ground arith in
    let scan = bit_scan_reverse_lem 31 (c - 1) (omega arith) (omega arith) in
    let small = power_large (bit_scan_reverse 31 (c - 1)) (omega arith) (omega arith) in
    omega (arith, scan, small, inside)

-- In a ring that is aligned, below the 32-bit limit, the index of a descriptor comes back from the
-- low word of its address.
pub address_to_index_lem :
    (low i : ℕ)
    → low % descriptor_alignment ≡ 0
    → low < 2 ^ 32
    → i < descriptor_max_count
    → address_to_index (u32 (low + i * descriptor_size)) ≡ i
unfolding address_to_index
address_to_index_lem low i aligned fits h =
    omega (arith, bit_and_low 16 (u32 (low + i * descriptor_size)))

-- What `& descMask` makes of an index that was moved by one, in a ring of `c` descriptors.
pub mask_lem : {c : ℕ} (x : ℕ) → IsDescriptorCount c → bit_and x (c - 1) ≡ x % c
mask_lem {c} x (inl e) = rw e (bit_and_low 6 x)
mask_lem {c} x (inr (inl e)) = rw e (bit_and_low 7 x)
mask_lem {c} x (inr (inr (inl e))) = rw e (bit_and_low 8 x)
mask_lem {c} x (inr (inr (inr (inl e)))) = rw e (bit_and_low 9 x)
mask_lem {c} x (inr (inr (inr (inr e)))) = rw e (bit_and_low 10 x)

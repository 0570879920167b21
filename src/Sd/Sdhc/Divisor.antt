-- ===== src/Sd/Sdhc/Divisor.antt =====
-- `SdhcCalcClockFrequency`: the divisors of the controller's own clock.
use woa_rk.Base.{
  ℕ, zero, suc, ◌+◌, ◌*◌, ◌/◌, ◌%◌, not, ◌&&◌, List, if◌then◌else◌, bit_and, bit_or, u16, u32, ltb,
  ◌==◌,
}
use woa_rk.Sd.Sdhc.Types.{SdhcExtension, sdhc_version}
use woa_rk.Sd.Sdhc.Registers.{load}

-- The loop over the powers of two up to 256.
unfoldable pub double_divisor : (fuel base target divisor : ℕ) → ℕ
double_divisor zero base target divisor = divisor
double_divisor (suc fuel) base target divisor =
    let rest = double_divisor fuel base target (divisor * 2) in
    if ltb target (base / divisor) && ltb divisor 256 then rest else divisor

-- The divisor of 10 bits; the clock is divided by twice its value.
unfoldable pub half_divisor : (base target : ℕ) → ℕ
half_divisor base target =
    let half = base / target / 2 in
    let more =
      if ltb target base && not (u32 (u32 (target * 2) * half) == base) then half + 1 else half in
    if ltb 1023 more then 1023 else more

-- `ActualFrequency` and `ClockControl` of the two branches.
unfoldable pub power_clock : (base target : ℕ) → ℕ × ℕ
power_clock base target =
    let divisor = double_divisor 9 base target 1 in (base / divisor, u16 (divisor / 2 * 256))

unfoldable pub half_clock : (base target : ℕ) → ℕ × ℕ
half_clock base target =
    let divisor = half_divisor base target in
    (
      (if divisor == 0 then base else base / divisor / 2),
      bit_or (divisor % 256 * 256) (divisor / 256 % 4 * 64),
    )

module _ (device : List (ℕ × ℕ) → ℕ → ℕ → ℕ) where
  -- `SdhcCalcClockFrequency`
  unfoldable pub calc_clock_frequency : (target : ℕ) → SdhcExtension → ℕ × ℕ
  unfolding load
  calc_clock_frequency target h =
      let version = bit_and (load device sdhc_version h) 0xFF in
      if ltb 2 version
      then power_clock h.base_clock_khz target
      else half_clock h.base_clock_khz target

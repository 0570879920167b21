-- ===== src/Net/Device/Reset.antt =====
-- How long `DeviceReset` waits.
use woa_rk.Base.{
  ℕ, zero, suc, ◌+◌, ◌<◌, ◌≤◌, ◌≡◌, refl, true, false, none, some, flag, u32, ◌==◌, arith,
}
use woa_rk.Net.Device.Link.{reset_loop, device_reset}

-- How many rounds there are before the counter is 1000.
abbrev rounds : ℕ → ℕ
rounds retry = u32 (retry + 4294966296)

module _ (dma_mode : ℕ → ℕ) (busy : (n : ℕ) → flag (dma_mode n) 0 ≡ true) where
  busy_round :
      (fuel retry n : ℕ)
      → (retry == 1000) ≡ false
      → reset_loop dma_mode (suc fuel) retry n
        ≡ reset_loop dma_mode fuel (u32 (retry + 4294967295)) (suc n)
  unfolding reset_loop
  busy_round fuel retry n e = rw (e, busy n) refl

  not_over :
      (fuel retry n : ℕ)
      → retry < 4294967296
      → fuel ≤ rounds retry
      → reset_loop dma_mode fuel retry n ≡ none
  unfolding reset_loop
  not_over zero retry n lt le = refl
  not_over (suc fuel) retry n lt le =
      let going : (retry == 1000) ≡ false = ground arith in
      rw (busy_round fuel retry n going)
        (not_over fuel (u32 (retry + 4294967295)) (suc n) (omega arith) (omega arith))

  over :
      (d fuel retry n : ℕ)
      → retry < 4294967296
      → rounds retry ≡ d
      → d < fuel
      → reset_loop dma_mode fuel retry n ≡ some false
  unfolding reset_loop
  over d zero retry n lt e less = absurd (omega arith)
  over zero (suc fuel) retry n lt e less = let last : retry ≡ 1000 = omega arith in rw last refl
  over (suc d) (suc fuel) retry n lt e less =
      let going : (retry == 1000) ≡ false = ground arith in
      rw (busy_round fuel retry n going)
        (over d fuel (u32 (retry + 4294967295)) (suc n) (omega arith) (omega arith) (omega arith))

  -- If the device never ends its reset, the loop of `DeviceReset` has not ended after any number of
  -- rounds up to 4294966296, since its counter goes down from 0, and times out in the next one.
  pub device_reset_lem :
      (fuel : ℕ)
      → (fuel ≤ 4294966296 → device_reset dma_mode fuel ≡ none)
        × (4294966296 < fuel → device_reset dma_mode fuel ≡ some false)
  unfolding device_reset
  device_reset_lem fuel = (
    (λ le. not_over fuel 0 0 (omega arith) (omega arith)),
    λ lt. over 4294966296 fuel 0 0 (omega arith) refl lt,
  )

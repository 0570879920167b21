-- ===== src/Sd/Rockchip.antt =====
-- drivers/sd/dwcmshc/rockchip_ops.cpp: the card clock and the drive and sample phases.
use woa_rk.Base.{
  ℕ, ◌+◌, ◌-◌, ◌*◌, ◌/◌, ◌%◌, ◌^◌, Bool, true, false, not, ◌&&◌, ltb, leb, ◌==◌, if◌then◌else◌,
  bit_and, bit_or, u32, zero, suc,
}

-- The values of `NTSTATUS` that these functions return.
pub data Status : Type 0 where
  success not_supported invalid_device_state : Status

-- The members of `MSHC_EXTENSION` and the registers that these functions use.
pub record Mshc : Type 0 where
  pub rk_cru_mapped : Bool
  pub rk_card_clock_hz : ℕ
  pub base_clock_frequency_khz : ℕ
  pub cru_clksel : ℕ
  pub timing_con0 : ℕ
  pub timing_con1 : ℕ

abbrev pub rk3576_sdmmc_div_max : ℕ
rk3576_sdmmc_div_max = 64

-- `Rk3576SdmmcParentHz`, an array of three.
unfoldable pub parent_hz : ℕ → ℕ
parent_hz mux = if mux == 0 then 1188000000 else if mux == 1 then 1000000000 else 24000000

-- `DelayNum`
unfoldable pub delay_num : (rate degrees : ℕ) → ℕ
delay_num rate degrees =
    let denominator = rate / 1000 * 36 * 6 in
    let delay = (10000000 * (degrees % 360 % 90) + denominator / 2) / denominator in
    if ltb 255 delay then 255 else delay

-- The word that is stored to `MSHC_TIMING_CON0` or `MSHC_TIMING_CON1`.
unfoldable pub timing_word : (rate degrees : ℕ) → ℕ
timing_word rate degrees =
    let num = delay_num rate degrees in
    let raw = bit_or (bit_or (if num == 0 then 0 else 2 ^ 10) (num * 4)) (degrees % 360 / 90) in
    bit_or (bit_and (raw * 2) 0xFFE) (0xFFE * 2 ^ 16)

-- `MshcRk3576SetPhase`
unfoldable pub set_phase : (sample : Bool) (degrees : ℕ) → Mshc → Mshc × Status
set_phase sample degrees m =
    if ltb m.rk_card_clock_hz 1000
    then (m, Status.invalid_device_state)
    else if sample
    then (record m { timing_con1 = timing_word m.rk_card_clock_hz degrees }, Status.success)
    else (record m { timing_con0 = timing_word m.rk_card_clock_hz degrees }, Status.success)

-- `BestHz`, `BestMux` and `BestDiv`.
pub record Best : Type 0 where
  pub hz : ℕ
  pub mux : ℕ
  pub div : ℕ

-- `Div`, within its limits.
unfoldable pub divider : (target parent : ℕ) → ℕ
divider target parent =
    let div = u32 (parent + target + 4294967295) / target in
    let low = if ltb div 1 then 1 else div in
    if ltb rk3576_sdmmc_div_max low then rk3576_sdmmc_div_max else low

-- The body of the loop over the parents.
unfoldable pub consider : (target mux : ℕ) → Best → Best
consider target mux best =
    let div = divider target (parent_hz mux) in
    let hz = parent_hz mux / div in
    if leb hz target && ltb best.hz hz then record { hz = hz; mux = mux; div = div } else best

-- The loop over the `left` parents from the index `mux` on.
unfoldable pub best_of : (target left mux : ℕ) → Best → Best
best_of target zero mux best = best
best_of target (suc left) mux best = best_of target left (mux + 1) (consider target mux best)

-- What is found for the target. If it cannot be reached, it is what the variables began with.
unfoldable pub best_rate : ℕ → Best
best_rate target =
    let best = best_of target 3 0 (record { hz = 0; mux = 2; div = rk3576_sdmmc_div_max }) in
    if best.hz == 0 then record best { hz = parent_hz best.mux / best.div } else best

-- `RK3576_SDMMC_WRITE_MASK`
abbrev rk3576_sdmmc_write_mask : ℕ
rk3576_sdmmc_write_mask = bit_or (3 * 2 ^ 13) (0x3F * 2 ^ 7) * 2 ^ 16

-- The stores of `MshcRockchipSetClock` before it sets the phases.
unfoldable pub set_rate : ℕ → Mshc → Mshc
set_rate khz m =
    let best = best_rate (u32 (khz * 1000 * 2)) in
    record m {
      cru_clksel =
          bit_or (bit_or rk3576_sdmmc_write_mask (best.mux * 2 ^ 13)) ((best.div - 1) * 2 ^ 7);
      rk_card_clock_hz = best.hz / 2;
      base_clock_frequency_khz = khz;
    }

-- The phases that `MshcRockchipSetClock` sets.
unfoldable pub set_phases : ℕ → Mshc → Mshc
set_phases khz m =
    let sampled = if leb khz 400 then (set_phase true 0 m).0 else m in
    (set_phase false (if leb 100000 khz then 180 else 90) sampled).0

-- The register is mapped on the first use; `maps` is whether `MmMapIoSpaceEx` can.
unfoldable pub map_cru : (crashdump maps : Bool) → Mshc → Mshc
map_cru crashdump maps m =
    if not m.rk_cru_mapped && not crashdump then record m { rk_cru_mapped = maps } else m

-- `MshcRockchipSetClock`, where `crashdump` is `gCrashdumpMode`.
unfoldable pub set_clock : (crashdump maps : Bool) → ℕ → Mshc → Mshc × Status
set_clock crashdump maps khz m =
    let mapped = map_cru crashdump maps m in
    if mapped.rk_cru_mapped
    then (set_phases khz (set_rate khz mapped), Status.success)
    else (mapped, Status.not_supported)

-- ===== src/Sd/Sdhc/Clock.antt =====
-- The clock: the divider of the SoC, the delay lines, and the controller's own gates.
use woa_rk.Base.{
  ℕ, ◌+◌, ◌-◌, ◌*◌, ◌/◌, List, [], ◌∷◌, none, some, if◌then◌else◌, bit_or, u32, flag, ltb, leb,
  ◌==◌,
}
use woa_rk.Base.Flags.{mask, clear}
use woa_rk.Sd.Mshc.Types.{NtStatus}
use woa_rk.Sd.Sdhc.Types.{
  SdhcExtension, sdhc_clock_control, dwcmshc_emmc_dll_ctrl, dwcmshc_emmc_dll_rxclk,
  dwcmshc_emmc_dll_txclk, dwcmshc_emmc_dll_strbin, dwcmshc_emmc_dll_cmdout, rk3576_cru_clksel_con89,
}
use woa_rk.Sd.Sdhc.Fields.{cc_internal_clock_enable, cc_clock_stable, cc_clock_enable}
use woa_rk.Sd.Sdhc.Registers.{store, then_do, load, loaded, read_until}

-- `DwcSdhcRkConfigurePhy`
unfoldable pub configure_phy : (hz : ℕ) → SdhcExtension → SdhcExtension × NtStatus
unfolding store
configure_phy hz h =
    if ltb hz 100000000
    then (
      store dwcmshc_emmc_dll_cmdout 0 (
          store dwcmshc_emmc_dll_strbin (mask (27 ∷ 26 ∷ 20 ∷ [])) (
            store dwcmshc_emmc_dll_txclk 0
              (store dwcmshc_emmc_dll_rxclk 0 (store dwcmshc_emmc_dll_ctrl 0 h)))),
      NtStatus.success,
    )
    else (h, NtStatus.not_supported)

-- The parent that `DwcSdhcRkSetClock` chooses for a frequency: its rate and the bits of the mux.
unfoldable pub parent_rate : (hz : ℕ) → ℕ
parent_rate hz = if leb 24000000 hz then 400000000 else 24000000

unfoldable pub parent_mux : (hz : ℕ) → ℕ
parent_mux hz = if leb 24000000 hz then 0 else 0x8000

-- `Divider`, within 1 to 64.
unfoldable pub cru_divider : (hz : ℕ) → ℕ
cru_divider hz =
    let divider = u32 (parent_rate hz + hz + 4294967295) / hz in
    if ltb divider 1 then 1 else if ltb 64 divider then 64 else divider

-- The word for the clock register of the SoC.
unfoldable pub cru_word : (hz : ℕ) → ℕ
cru_word hz = bit_or (parent_mux hz) (bit_or 0xFF000000 ((cru_divider hz - 1) * 256))

-- `DwcSdhcRkSetClock`
unfoldable pub rk_set_clock : (khz : ℕ) → SdhcExtension → SdhcExtension × NtStatus
unfolding store
rk_set_clock khz h =
    let hz = u32 (khz * 1000) in
    if hz == 0
    then (h, NtStatus.invalid_parameter)
    else (let g = if h.cru_mapped then store rk3576_cru_clksel_con89 (cru_word hz) h else h in
        configure_phy hz g)

module _ (device : List (ℕ × ℕ) → ℕ → ℕ → ℕ) where
  -- `SdhcSetClock` once the clock of the SoC is set; `control` is what stopped the clock.
  unfoldable pub start_clock : (control : ℕ) → SdhcExtension → SdhcExtension × NtStatus
  unfolding store
  start_clock control h =
      let internal = bit_or control (mask (cc_internal_clock_enable ∷ [])) in
      let polled =
        read_until device 99 sdhc_clock_control (λ v. flag v cc_clock_stable)
          (store sdhc_clock_control internal h) in
      elim (polled.1) [
        | none ↦ (polled.0, NtStatus.io_timeout)
        | some v ↦ (
          store sdhc_clock_control (bit_or v (mask (cc_clock_enable ∷ []))) polled.0,
          NtStatus.success,
        )
      ]

  -- `SdhcSetClock`
  unfoldable pub set_clock : (khz : ℕ) → SdhcExtension → SdhcExtension × NtStatus
  unfolding load loaded store
  set_clock khz h =
      let control =
        clear (load device sdhc_clock_control h)
          (mask (cc_clock_enable ∷ cc_internal_clock_enable ∷ [])) in
      let stopped = store sdhc_clock_control control (loaded h) in
      then_do (rk_set_clock khz stopped) (start_clock control)

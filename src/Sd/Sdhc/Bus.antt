-- ===== src/Sd/Sdhc/Bus.antt =====
-- Registers that are read and stored again: the reset, the width of the bus, single bits.
use woa_rk.Base.{ℕ, Bool, not, List, [], ◌∷◌, Option, none, some, if◌then◌else◌, bit_or, flag, ◌==◌}
use woa_rk.Base.Flags.{mask, clear, or_if}
use woa_rk.Sd.Mshc.Types.{NtStatus}
use woa_rk.Sd.Sdhc.Types.{
  SdhcExtension, ResetType, reset_all, reset_cmd, reset_dat, reset_other, sdhc_host_control,
  sdhc_blockgap_control, sdhc_clock_control, sdhc_timeout_control, sdhc_reset,
  sdhc_interrupt_status, sdhc_host_control2, dwcmshc_emmc_control, dwcmshc_emmc_misc_con,
}
use woa_rk.Sd.Sdhc.Fields.{
  cc_clock_enable, hc_led_power, hc_data_width_4bit, hc_enable_high_speed, hc_data_width_8bit,
  hc2_enable_preset_value, bgc_interrupt_enable, misc_intclk_en, card_is_emmc, hc_dma_select_mask,
}
use woa_rk.Sd.Sdhc.Registers.{store, load, loaded, read_until}

-- The bit of `SDHC_RESET` for a reset.
unfoldable pub reset_bit : ResetType → Option ℕ
reset_bit reset_all = some 0
reset_bit reset_cmd = some 1
reset_bit reset_dat = some 2
reset_bit reset_other = none

-- The bits of `SDHC_HOST_CONTROL` for a width of the bus.
unfoldable pub width_bits : (width : ℕ) → ℕ
width_bits width =
    if width == 4
    then mask (hc_data_width_4bit ∷ [])
    else if width == 8
    then mask (hc_data_width_8bit ∷ [])
    else 0

-- The bits of `SDHC_HOST_CONTROL` for the DMA that the capabilities name.
unfoldable pub dma_select : SdhcExtension → ℕ
dma_select h = if h.scatter_gather_dma then if h.address_64bit then 0x18 else 0x10 else 0

-- A bit that is set or cleared, and one that is cleared and then set.
unfoldable pub switched : (enable : Bool) (bit v : ℕ) → ℕ
switched enable bit v = if enable then bit_or v (mask (bit ∷ [])) else clear v (mask (bit ∷ []))

unfoldable pub reswitched : (enable : Bool) (bit v : ℕ) → ℕ
reswitched enable bit v = or_if enable (mask (bit ∷ [])) (clear v (mask (bit ∷ [])))

module _ (device : List (ℕ × ℕ) → ℕ → ℕ → ℕ) where
  -- A read of the register at `a` and a store of what `change` makes of it.
  unfoldable pub modify : (a : ℕ) → (ℕ → ℕ) → SdhcExtension → SdhcExtension
  unfolding load loaded store
  modify a change h = store a (change (load device a h)) (loaded h)

  -- The stores of `SdhcResetHost` behind the reset, with what `DWCMSHC_EMMC_MISC_CON` was before.
  unfoldable pub restore_host : (misc_con : ℕ) (all : Bool) → SdhcExtension → SdhcExtension
  unfolding store modify
  restore_host misc_con all h =
      let a = store dwcmshc_emmc_misc_con (bit_or misc_con (mask (misc_intclk_en ∷ []))) h in
      let b =
        if all
        then modify dwcmshc_emmc_control (λ v. bit_or v (mask (card_is_emmc ∷ []))) a
        else a in
      let c = store sdhc_interrupt_status 0xFFFF (store sdhc_timeout_control 0x0E b) in
      modify sdhc_host_control (λ v. bit_or (clear v hc_dma_select_mask) (dma_select h)) c

  -- `SdhcResetHost`
  unfoldable pub reset_host : ResetType → SdhcExtension → SdhcExtension × NtStatus
  unfolding load loaded store
  reset_host type h = elim (reset_bit type) [
    | none ↦ (h, NtStatus.invalid_parameter)
    | some bit ↦
        let g = record h { outstanding = none } in
        let misc_con = load device dwcmshc_emmc_misc_con g in
        let asked = store sdhc_reset (mask (bit ∷ [])) (loaded g) in
        let polled = read_until device 99 sdhc_reset (λ v. not (flag v bit)) asked in
        elim (polled.1) [
          | none ↦ (polled.0, NtStatus.io_timeout)
          | some v ↦ (restore_host misc_con (bit == 0) polled.0, NtStatus.success)
        ]
  ]

  -- `SdhcSetBusWidth`
  unfoldable pub set_bus_width : (width : ℕ) → SdhcExtension → SdhcExtension × NtStatus
  set_bus_width width h = (
    modify sdhc_host_control
        (λ v.
          bit_or (clear v (mask (hc_data_width_4bit ∷ hc_data_width_8bit ∷ []))) (width_bits width))
        h,
    NtStatus.success,
  )

  -- `SdhcSetHighSpeed`
  unfoldable pub set_high_speed : Bool → SdhcExtension → SdhcExtension × NtStatus
  set_high_speed enable h =
      (modify sdhc_host_control (reswitched enable hc_enable_high_speed) h, NtStatus.success)

  -- The stores that gate the clock of the card, and those that let it through again.
  unfoldable pub gate_clock : SdhcExtension → SdhcExtension
  gate_clock h = modify sdhc_clock_control (λ v. clear v (mask (cc_clock_enable ∷ []))) h

  unfoldable pub ungate_clock : SdhcExtension → SdhcExtension
  ungate_clock h = modify sdhc_clock_control (λ v. bit_or v (mask (cc_clock_enable ∷ []))) h

  -- `SdhcSetLed`
  unfoldable pub set_led : Bool → SdhcExtension → SdhcExtension
  set_led enable h = modify sdhc_host_control (switched enable hc_led_power) h

  -- `SdhcSetPresetValue`
  unfoldable pub set_preset_value : Bool → SdhcExtension → SdhcExtension × NtStatus
  set_preset_value enable h =
      (modify sdhc_host_control2 (reswitched enable hc2_enable_preset_value) h, NtStatus.success)

  -- `SdhcEnableBlockGapInterrupt`
  unfoldable pub enable_block_gap_interrupt : Bool → SdhcExtension → SdhcExtension × NtStatus
  enable_block_gap_interrupt enable h =
      (modify sdhc_blockgap_control (switched enable bgc_interrupt_enable) h, NtStatus.success)

  -- `SdhcSetBlockGapControl`: the register is read and not written.
  unfoldable pub set_block_gap_control :
      (continue request_stop : Bool) → SdhcExtension → SdhcExtension
  set_block_gap_control continue request_stop h = loaded h

-- ===== src/Sd/Sdhc/Signals.antt =====
-- Voltage, speed, signaling and tuning.
use woa_rk.Sd.Sdhc.Bus.{modify, set_high_speed, gate_clock, ungate_clock, switched}
use woa_rk.Base.{
  ℕ, Bool, true, false, not, List, [], ◌∷◌, Option, none, some, if◌then◌else◌, bit_and, bit_or,
  flag, ◌==◌,
}
use woa_rk.Base.Flags.{mask, clear}
use woa_rk.Sd.Mshc.Types.{
  NtStatus, BusSpeed, normal, high, sdr12, sdr25, sdr50, sdr104, ddr50, hs200, hs400, speed_other,
}
use woa_rk.Sd.Sdhc.Types.{
  SdhcExtension, Voltage, volt_33, volt_30, volt_18, volt_off, volt_other, sdhc_present_state,
  sdhc_power_control, sdhc_host_control2,
}
use woa_rk.Sd.Sdhc.Fields.{
  pc_bus_power, hc2_18v_signaling, hc2_execute_tuning, ps_dat_3_0, hc2_uhs_modes,
}
use woa_rk.Sd.Sdhc.Registers.{store, then_do, load, loaded, store_until}

-- The bits of `SDHC_POWER_CONTROL` for a voltage.
unfoldable pub power_bits : Voltage → Option ℕ
power_bits volt_33 = some 0x0E
power_bits volt_30 = some 0x0C
power_bits volt_18 = some 0x0A
power_bits volt_off = some 0
power_bits volt_other = none

-- `SdhcGetHwUhsMode`
unfoldable pub get_hw_uhs_mode : BusSpeed → ℕ
get_hw_uhs_mode sdr12 = 0
get_hw_uhs_mode sdr25 = 1
get_hw_uhs_mode sdr50 = 2
get_hw_uhs_mode ddr50 = 2
get_hw_uhs_mode sdr104 = 2
get_hw_uhs_mode _ = 0

module _ (device : List (ℕ × ℕ) → ℕ → ℕ → ℕ) where
  -- `SdhcSetVoltage`
  unfoldable pub set_voltage : Voltage → SdhcExtension → SdhcExtension × NtStatus
  set_voltage voltage h = elim (power_bits voltage) [
    | none ↦ (h, NtStatus.invalid_parameter)
    | some bits ↦
        let on = bit_or bits (mask (pc_bus_power ∷ [])) in
        then_do (store_until device 99 sdhc_power_control bits (λ v. bit_and v 0x0E == bits) h) λ g.
          store_until device 99 sdhc_power_control on (λ v. bit_and v 0x0F == on)
            (store sdhc_power_control on g)
  ]

  -- `SdhcSetUhsMode`
  unfoldable pub set_uhs_mode : (mode : ℕ) → SdhcExtension → SdhcExtension × NtStatus
  unfolding load loaded store
  set_uhs_mode mode h =
      let control2 = load device sdhc_host_control2 h in
      let g = loaded h in
      if bit_and control2 hc2_uhs_modes == mode then (g, NtStatus.success) else (
        ungate_clock device (
            store sdhc_host_control2 (bit_or (clear control2 hc2_uhs_modes) mode)
              (gate_clock device g)),
        NtStatus.success,
      )

  -- `SdhcSetSpeed`
  unfoldable pub set_speed : BusSpeed → SdhcExtension → SdhcExtension × NtStatus
  set_speed normal h = set_high_speed device false h
  set_speed high h = set_high_speed device true h
  set_speed speed_other h = (h, NtStatus.invalid_parameter)
  set_speed sdr12 h = set_uhs_mode (get_hw_uhs_mode sdr12) h
  set_speed sdr25 h = set_uhs_mode (get_hw_uhs_mode sdr25) h
  set_speed sdr50 h = set_uhs_mode (get_hw_uhs_mode sdr50) h
  set_speed sdr104 h = set_uhs_mode (get_hw_uhs_mode sdr104) h
  set_speed ddr50 h = set_uhs_mode (get_hw_uhs_mode ddr50) h
  set_speed hs200 h = set_uhs_mode (get_hw_uhs_mode hs200) h
  set_speed hs400 h = set_uhs_mode (get_hw_uhs_mode hs400) h

  -- `SdhcSetSignaling` once the signaling bit is as asked.
  unfoldable pub finish_signaling : SdhcExtension → SdhcExtension × NtStatus
  unfolding load loaded
  finish_signaling h =
      let g = ungate_clock device h in
      let lines = bit_and (mask ps_dat_3_0) (load device sdhc_present_state g) in
      (loaded g, if lines == mask ps_dat_3_0 then NtStatus.success else NtStatus.unsuccessful)

  -- `SdhcSetSignaling` from the switch of the signaling bit on.
  unfoldable pub switch_signaling : Bool → SdhcExtension → SdhcExtension × NtStatus
  unfolding load loaded
  switch_signaling enable h =
      let g = modify device sdhc_host_control2 (switched enable hc2_18v_signaling) h in
      let control2 = load device sdhc_host_control2 g in
      if enable
      then (if flag control2 hc2_18v_signaling
          then finish_signaling (loaded g)
          else (loaded g, NtStatus.unsuccessful))
      else (if flag control2 hc2_18v_signaling
          then (loaded g, NtStatus.unsuccessful)
          else finish_signaling (loaded g))

  -- `SdhcSetSignaling`
  unfoldable pub set_signaling : Bool → SdhcExtension → SdhcExtension × NtStatus
  unfolding load loaded
  set_signaling enable h =
      let g = gate_clock device h in
      let lines = bit_and (mask ps_dat_3_0) (load device sdhc_present_state g) in
      if not (lines == 0)
      then (loaded g, NtStatus.unsuccessful)
      else switch_signaling enable (loaded g)

  -- `SdhcExecuteTuning`: the request that it fills in is not sent.
  unfoldable pub execute_tuning : SdhcExtension → SdhcExtension × NtStatus
  unfolding load loaded store
  execute_tuning h =
      let control2 = load device sdhc_host_control2 h in
      let g = loaded h in
      (
        if flag control2 hc2_execute_tuning
            then g
            else store sdhc_host_control2 (bit_or control2 (mask (hc2_execute_tuning ∷ []))) g,
        NtStatus.success,
      )

-- ===== src/Sd/Sdhc/Kept.antt =====
-- Each operation of the bus and each call for an interrupt keeps that the source of the clock
-- changes only while the clock is gated.
use woa_rk.Base.{
  ℕ, suc, ◌==◌, Bool, true, false, not, List, [], ◌∷◌, Option, none, some, ◌≡◌, refl, inl, inr,
  Bool-cases, bit_and, bit_or, flag, if◌then◌else◌,
}
use woa_rk.Base.Flags.{mask}
use woa_rk.Sd.Mshc.Types.{
  NtStatus, nt_success, BusSpeed, normal, high, sdr12, sdr25, sdr50, sdr104, ddr50, hs200, hs400,
  speed_other,
}
use woa_rk.Sd.Sdhc.Types.{
  SdhcExtension, Voltage, sdhc_host_control2, sdhc_interrupt_status, sdhc_power_control,
  sdhc_present_state,
}
use woa_rk.Sd.Sdhc.Fields.{
  pc_bus_power, hc2_uhs_modes, hc2_18v_signaling, hc2_execute_tuning, is_error_interrupt,
  ps_dat_3_0,
}
use woa_rk.Sd.Sdhc.Registers.{store, load, loaded, then_do, store_until}
use woa_rk.Sd.Sdhc.Bus.{
  modify, set_bus_width, set_high_speed, gate_clock, ungate_clock, switched, set_preset_value,
  enable_block_gap_interrupt,
}
use woa_rk.Sd.Sdhc.Signals.{
  power_bits, get_hw_uhs_mode, set_voltage, set_uhs_mode, set_speed, finish_signaling,
  switch_signaling, set_signaling, execute_tuning,
}
use woa_rk.Sd.Sdhc.Operations.{
  BusOperation, op_reset_host, op_set_clock, op_set_bus_width, op_set_voltage, op_set_bus_speed,
  op_set_signaling_voltage, op_set_drive_strength, op_set_driver_type, op_execute_tuning, op_other,
  op_set_preset_value, op_set_block_gap_interrupt, is_18v, slot_issue_bus_operation,
}
use woa_rk.Sd.Sdhc.Interrupt.{
  acknowledge_interrupts, interrupt_status, enable_interrupt, disable_interrupt, slot_toggle_events,
  slot_interrupt,
}
use woa_rk.Sd.Sdhc.Gated.{
  Gated, other_stored, Keeps, store_until-Keeps, set_clock-Keeps, reset_host-Keeps,
}

pub acknowledge_interrupts-Keeps :
    (interrupts : ℕ) (h : SdhcExtension) → Keeps h (acknowledge_interrupts interrupts h)
unfolding acknowledge_interrupts store
acknowledge_interrupts-Keeps interrupts h all =
    elim (Bool-cases (flag interrupts is_error_interrupt)) [
      | inl e ↦
          rw (e, acknowledge_interrupts)
            (other_stored refl (other_stored refl (other_stored refl (other_stored refl all))))
      | inr e ↦ rw (e, acknowledge_interrupts) (other_stored refl all)
    ]

-- Both ends of a branch keep it.
pub either_kept :
    (b : Bool) (x y : SdhcExtension × NtStatus)
    → Gated x.0.writes
    → Gated y.0.writes
    → Gated (if b then x else y).0.writes
either_kept true x y p q = p
either_kept false x y p q = q

module _ (device : List (ℕ × ℕ) → ℕ → ℕ → ℕ) where
  set_voltage_by :
      (voltage : Voltage) (h : SdhcExtension) (bits : Option ℕ)
      → power_bits voltage ≡ bits
      → Keeps h (set_voltage device voltage h).0
  unfolding set_voltage then_do store
  set_voltage_by voltage h none e all = rw (e, set_voltage) all
  set_voltage_by voltage h (some bits) e all =
      let test : ℕ → Bool = λ v. bit_and v 0x0E == bits in
      let first = store_until device 99 sdhc_power_control bits test h in
      let kept = store_until-Keeps device 99 sdhc_power_control bits test h refl all in
      elim (Bool-cases (nt_success first.1)) [
        | inl f ↦
            rw (e, f, set_voltage)
              (store_until-Keeps device 99 sdhc_power_control
                (bit_or bits (mask (pc_bus_power ∷ [])))
                (λ v. bit_and v 0x0F == bit_or bits (mask (pc_bus_power ∷ [])))
                (store sdhc_power_control (bit_or bits (mask (pc_bus_power ∷ []))) first.0) refl
                (other_stored refl kept))
        | inr f ↦ rw (e, f, set_voltage) kept
      ]

  set_uhs_mode-Keeps : (mode : ℕ) (h : SdhcExtension) → Keeps h (set_uhs_mode device mode h).0
  unfolding set_uhs_mode ungate_clock gate_clock modify store load loaded
  set_uhs_mode-Keeps mode h all =
      elim (Bool-cases
        (bit_and (device h.writes h.reads sdhc_host_control2) hc2_uhs_modes == mode)) [
          | inl e ↦ rw (e, set_uhs_mode) all
          | inr e ↦
              rw (e, set_uhs_mode) (other_stored refl (other_stored refl (other_stored refl all)))
        ]

  set_speed-Keeps : (speed : BusSpeed) (h : SdhcExtension) → Keeps h (set_speed device speed h).0
  unfolding set_speed set_high_speed modify store loaded
  set_speed-Keeps normal h all = other_stored refl all
  set_speed-Keeps high h all = other_stored refl all
  set_speed-Keeps speed_other h all = all
  set_speed-Keeps sdr12 h all = set_uhs_mode-Keeps (get_hw_uhs_mode sdr12) h all
  set_speed-Keeps sdr25 h all = set_uhs_mode-Keeps (get_hw_uhs_mode sdr25) h all
  set_speed-Keeps sdr50 h all = set_uhs_mode-Keeps (get_hw_uhs_mode sdr50) h all
  set_speed-Keeps sdr104 h all = set_uhs_mode-Keeps (get_hw_uhs_mode sdr104) h all
  set_speed-Keeps ddr50 h all = set_uhs_mode-Keeps (get_hw_uhs_mode ddr50) h all
  set_speed-Keeps hs200 h all = set_uhs_mode-Keeps (get_hw_uhs_mode hs200) h all
  set_speed-Keeps hs400 h all = set_uhs_mode-Keeps (get_hw_uhs_mode hs400) h all

  finish_signaling-Keeps : (h : SdhcExtension) → Keeps h (finish_signaling device h).0
  unfolding finish_signaling ungate_clock modify store loaded
  finish_signaling-Keeps h all = other_stored refl all

  switch_signaling-Keeps :
      (enable : Bool) (h : SdhcExtension) → Keeps h (switch_signaling device enable h).0
  unfolding switch_signaling modify store load loaded
  switch_signaling-Keeps true h all =
      let g = loaded (modify device sdhc_host_control2 (switched true hc2_18v_signaling) h) in
      let kept : Gated g.writes = other_stored refl all in
      either_kept (flag (device g.writes (suc h.reads) sdhc_host_control2) hc2_18v_signaling)
        (finish_signaling device g) (g, NtStatus.unsuccessful) (finish_signaling-Keeps g kept) kept
  switch_signaling-Keeps false h all =
      let g = loaded (modify device sdhc_host_control2 (switched false hc2_18v_signaling) h) in
      let kept : Gated g.writes = other_stored refl all in
      either_kept (flag (device g.writes (suc h.reads) sdhc_host_control2) hc2_18v_signaling)
        (g, NtStatus.unsuccessful) (finish_signaling device g) kept (finish_signaling-Keeps g kept)

  set_signaling-Keeps :
      (enable : Bool) (h : SdhcExtension) → Keeps h (set_signaling device enable h).0
  unfolding set_signaling gate_clock modify store load loaded
  set_signaling-Keeps enable h all =
      let g = loaded (gate_clock device h) in
      let kept : Gated g.writes = other_stored refl all in
      either_kept
        (not (bit_and (mask ps_dat_3_0) (device g.writes (suc h.reads) sdhc_present_state) == 0))
        (g, NtStatus.unsuccessful) (switch_signaling device enable g) kept
        (switch_signaling-Keeps enable g kept)

  execute_tuning-Keeps : (h : SdhcExtension) → Keeps h (execute_tuning device h).0
  unfolding execute_tuning store load loaded
  execute_tuning-Keeps h all =
      elim (Bool-cases (flag (device h.writes h.reads sdhc_host_control2) hc2_execute_tuning)) [
        | inl e ↦ rw (e, execute_tuning) all
        | inr e ↦ rw (e, execute_tuning) (other_stored refl all)
      ]

  -- Every operation of the bus.
  pub slot_issue_bus_operation-Keeps :
      (op : BusOperation) (h : SdhcExtension) → Keeps h (slot_issue_bus_operation device op h).0
  unfolding slot_issue_bus_operation set_bus_width set_preset_value enable_block_gap_interrupt
      modify store loaded
  slot_issue_bus_operation-Keeps (op_reset_host t) h = reset_host-Keeps device t h
  slot_issue_bus_operation-Keeps (op_set_clock khz) h = set_clock-Keeps device khz h
  slot_issue_bus_operation-Keeps (op_set_voltage v) h = set_voltage_by v h (power_bits v) refl
  slot_issue_bus_operation-Keeps (op_set_bus_width w) h = λ all. other_stored refl all
  slot_issue_bus_operation-Keeps (op_set_bus_speed s) h = set_speed-Keeps s h
  slot_issue_bus_operation-Keeps (op_set_signaling_voltage v) h = set_signaling-Keeps (is_18v v) h
  slot_issue_bus_operation-Keeps op_set_drive_strength h = λ all. all
  slot_issue_bus_operation-Keeps op_set_driver_type h = λ all. all
  slot_issue_bus_operation-Keeps (op_set_preset_value e) h = λ all. other_stored refl all
  slot_issue_bus_operation-Keeps (op_set_block_gap_interrupt e) h = λ all. other_stored refl all
  slot_issue_bus_operation-Keeps op_execute_tuning h = execute_tuning-Keeps h
  slot_issue_bus_operation-Keeps op_other h = λ all. all

  pub slot_toggle_events-Keeps :
      (events : ℕ) (enable : Bool) (h : SdhcExtension)
      → Keeps h (slot_toggle_events device events enable h)
  unfolding slot_toggle_events enable_interrupt disable_interrupt store loaded
  slot_toggle_events-Keeps events false h all =
      other_stored refl (other_stored refl (other_stored refl (other_stored refl all)))
  slot_toggle_events-Keeps events true h all = elim (Bool-cases (h.crashdump)) [
    | inl e ↦ rw e (other_stored refl (other_stored refl all))
    | inr e ↦
        rw e (other_stored refl (other_stored refl (other_stored refl (other_stored refl all))))
  ]

  pub slot_interrupt-Keeps : (h : SdhcExtension) → Keeps h (slot_interrupt device h).0
  unfolding slot_interrupt loaded load
  slot_interrupt-Keeps h all =
      let events = interrupt_status (device h.writes h.reads sdhc_interrupt_status) in
      elim (Bool-cases (events == 0)) [
        | inl e ↦ rw (e, slot_interrupt) all
        | inr e ↦ elim (Bool-cases (flag events is_error_interrupt)) [
          | inl f ↦
              rw (e, f, slot_interrupt)
                (acknowledge_interrupts-Keeps events (loaded (loaded h)) all)
          | inr f ↦ rw (e, f, slot_interrupt) (acknowledge_interrupts-Keeps events (loaded h) all)
        ]
      ]

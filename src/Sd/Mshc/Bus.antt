-- ===== src/Sd/Mshc/Bus.antt =====
-- The bus operations: voltage, clock, width, speed, tuning.
use woa_rk.Base.{
  ℕ, ◌+◌, ◌*◌, ◌/◌, ◌^◌, Bool, true, false, not, ◌&&◌, if◌then◌else◌, bit_or, u32, ◌==◌, ltb,
  Option, none, some,
}
use woa_rk.Base.Flags.{clear}
use woa_rk.Sd.Mshc.Types.{
  Host, NtStatus, nt_success, BusWidth, BusSpeed, BusVoltage, SignalingVoltage, mshc_clkdiv,
  mshc_clksrc, mshc_clkena, mshc_ctype, mshc_uhs_reg, width_1, width_4, width_8, width_other,
  normal, high, sdr50, ddr50, hs400, speed_other, voltage_33, voltage_off, voltage_other,
}
use woa_rk.Sd.Mshc.Registers.{write_register, and_then, ciu_update_clock}

-- `MSHC_PLATFORM_OPERATIONS`: the functions of the platform, each of them there or not.
pub record Platform : Type 0 where
  pub set_clock : Option (ℕ → Host → Host × NtStatus)
  pub set_voltage : Option (BusVoltage → Host → Host × NtStatus)
  pub set_signaling_voltage : Option (SignalingVoltage → Host → Host × NtStatus)
  pub execute_tuning : Option (Host → Host × NtStatus)

-- `DIV_CEIL`, on 32 bits.
unfoldable pub div_ceil : (x y : ℕ) → ℕ
div_ceil x y = u32 (x + y + 4294967295) / y

-- The frequency that the port driver means in crashdump mode.
unfoldable pub crashdump_frequency : BusSpeed → ℕ → ℕ
crashdump_frequency normal khz = 25000
crashdump_frequency high khz = 50000
crashdump_frequency ddr50 khz = 50000
crashdump_frequency sdr50 khz = 100000
crashdump_frequency _ khz = khz

-- The frequency that `MshcSetClock` sets: the one asked for, or the most that the platform takes.
unfoldable pub limited_frequency : ℕ → Host → ℕ
limited_frequency khz h =
    let meant = if h.crashdump then crashdump_frequency h.bus_speed khz else khz in
    if not (h.max_frequency == 0) && ltb (h.max_frequency / 1000) meant
    then h.max_frequency / 1000
    else meant

-- `Divisor`
unfoldable pub divisor : (base khz : ℕ) → ℕ
divisor base khz = if not (khz == base) then div_ceil base (u32 (khz * 2)) else 0

-- The stores that stop the clock.
unfoldable pub stop_clock : Host → Host
unfolding write_register
stop_clock h =
    let enable = clear (h.regs mshc_clkena) (2 ^ h.slot_id) in
    let clkena = clear enable (2 ^ (16 + h.slot_id)) in
    write_register mshc_clkdiv 0
      (write_register mshc_clksrc 0 (write_register mshc_clkena clkena h))

-- `MshcSetVoltage`: what it makes of `MSHC_PWREN` it does not write.
unfoldable pub set_voltage : Platform → BusVoltage → Host → Host × NtStatus
set_voltage platform voltage_other h = (h, NtStatus.invalid_parameter)
set_voltage platform voltage_33 h =
    let g = record h { card_initialized = false } in
    elim (platform.set_voltage) [
      | none ↦ (record g { card_power_control = true }, NtStatus.success)
      | some f ↦
          let r = f voltage_33 g in
          (record (r.0) { card_power_control = nt_success r.1 }, NtStatus.success)
    ]
set_voltage platform voltage_off h = elim (platform.set_voltage) [
  | none ↦ (record h { card_power_control = true }, NtStatus.success)
  | some f ↦
      let r = f voltage_off h in
      (record (r.0) { card_power_control = nt_success r.1 }, NtStatus.success)
]

-- `MshcSetBusWidth`: the bits for the slot, before they are shifted.
unfoldable pub ctype_width : BusWidth → Option ℕ
ctype_width width_1 = some 0
ctype_width width_4 = some 1
ctype_width width_8 = some (2 ^ 16)
ctype_width width_other = none

unfoldable pub set_bus_width : BusWidth → Host → Host × NtStatus
unfolding write_register
set_bus_width width h = elim (ctype_width width) [
  | none ↦ (h, NtStatus.invalid_parameter)
  | some bits ↦
      let ctype = clear (h.regs mshc_ctype) (u32 (0x00010001 * 2 ^ h.slot_id)) in
      let g = write_register mshc_ctype (bit_or ctype (u32 (bits * 2 ^ h.slot_id))) h in
      (record g { bus_width = width }, NtStatus.success)
]

-- `MshcSetBusSpeed`: whether data moves on both edges of the clock.
unfoldable pub double_rate : BusSpeed → Option Bool
double_rate ddr50 = some true
double_rate hs400 = some true
double_rate speed_other = none
double_rate _ = some false

unfoldable pub set_bus_speed : BusSpeed → Host → Host × NtStatus
unfolding write_register
set_bus_speed speed h = elim (double_rate speed) [
  | none ↦ (h, NtStatus.invalid_parameter)
  | some ddr ↦
      let uhs = h.regs mshc_uhs_reg in
      let bit = 2 ^ (16 + h.slot_id) in
      let g = write_register mshc_uhs_reg (if ddr then bit_or uhs bit else clear uhs bit) h in
      (record g { bus_speed = speed }, NtStatus.success)
]

-- `MshcExecuteTuning`
unfoldable pub execute_tuning : Platform → Host → Host × NtStatus
execute_tuning platform h =
    let g = record h { tuning_performed = false; data_crc_errors = 0 } in
    elim (platform.execute_tuning) [
      | none ↦ (g, NtStatus.not_implemented)
      | some f ↦ let r = f g in (record (r.0) { tuning_performed = nt_success r.1 }, r.1)
    ]

module _ (device : ℕ → ℕ → ℕ) (platform : Platform) where
  -- The call of the platform's `SetClock`, if it has one.
  unfoldable pub platform_clock : ℕ → Host → Host × NtStatus
  platform_clock khz h = elim (platform.set_clock) [
    | none ↦ (h, NtStatus.success)
    | some f ↦ f khz h
  ]

  -- The stores that start the clock again; `clkena` is what stopped it.
  unfoldable pub start_clock : (clkena : ℕ) → Host → Host × NtStatus
  unfolding write_register
  start_clock clkena h =
      let enable = bit_or clkena (2 ^ h.slot_id) in
      let low_power = bit_or enable (2 ^ (16 + h.slot_id)) in
      ciu_update_clock device 0 (write_register mshc_clkena low_power h)

  -- The stores of the divider, and the update that takes it over.
  unfoldable pub store_divisor : ℕ → Host → Host × NtStatus
  unfolding write_register
  store_divisor khz h =
      ciu_update_clock device 0 (write_register mshc_clkdiv (divisor h.base_clock_khz khz) h)

  -- The last two steps and all of the steps of `MshcSetClock` for a frequency above 0.
  unfoldable pub finish_clock : (clkena khz : ℕ) → Host → Host × NtStatus
  finish_clock clkena khz h =
      and_then (start_clock clkena h) λ c. (record c { bus_frequency_khz = khz }, NtStatus.success)

  unfoldable pub divide_clock : (clkena khz : ℕ) → Host → Host × NtStatus
  divide_clock clkena khz h = and_then (store_divisor khz h) (finish_clock clkena khz)

  unfoldable pub run_clock : (clkena khz : ℕ) → Host → Host × NtStatus
  run_clock clkena khz h = and_then (platform_clock khz h) (divide_clock clkena khz)

  -- `MshcSetClock` once the clock is stopped.
  unfoldable pub set_stopped : (clkena khz : ℕ) → Host → Host × NtStatus
  set_stopped clkena khz h =
      if ltb 0 khz
      then run_clock clkena (limited_frequency khz h) h
      else (record h { bus_frequency_khz = khz }, NtStatus.success)

  -- `MshcSetClock`
  unfoldable pub set_clock : (khz : ℕ) → Host → Host × NtStatus
  set_clock khz h =
      let stopped = stop_clock h in
      and_then (ciu_update_clock device 0 stopped) (set_stopped (stopped.regs mshc_clkena) khz)

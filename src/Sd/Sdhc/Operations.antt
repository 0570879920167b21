-- ===== src/Sd/Sdhc/Operations.antt =====
-- `SdhcSlotIssueBusOperation`: the operations of the bus by their types.
use woa_rk.Base.{ℕ, Bool, true, false, List}
use woa_rk.Sd.Mshc.Types.{NtStatus, BusSpeed, SignalingVoltage, signaling_18}
use woa_rk.Sd.Sdhc.Types.{SdhcExtension, ResetType, Voltage}
use woa_rk.Sd.Sdhc.Bus.{reset_host, set_bus_width, set_preset_value, enable_block_gap_interrupt}
use woa_rk.Sd.Sdhc.Clock.{set_clock}
use woa_rk.Sd.Sdhc.Signals.{set_voltage, set_speed, set_signaling, execute_tuning}

-- `SDPORT_BUS_OPERATION`
pub data BusOperation : Type 0 where
  op_reset_host : ResetType → BusOperation
  op_set_clock op_set_bus_width : ℕ → BusOperation
  op_set_voltage : Voltage → BusOperation
  op_set_bus_speed : BusSpeed → BusOperation
  op_set_signaling_voltage : SignalingVoltage → BusOperation
  op_set_drive_strength op_set_driver_type op_execute_tuning op_other : BusOperation
  op_set_preset_value op_set_block_gap_interrupt : Bool → BusOperation

-- `SignalingVoltage == SdSignalingVoltage18`
unfoldable pub is_18v : SignalingVoltage → Bool
is_18v signaling_18 = true
is_18v _ = false

unfoldable pub slot_issue_bus_operation :
    (device : List (ℕ × ℕ) → ℕ → ℕ → ℕ) → BusOperation → SdhcExtension → SdhcExtension × NtStatus
slot_issue_bus_operation device (op_reset_host t) h = reset_host device t h
slot_issue_bus_operation device (op_set_clock khz) h = set_clock device khz h
slot_issue_bus_operation device (op_set_voltage v) h = set_voltage device v h
slot_issue_bus_operation device (op_set_bus_width w) h = set_bus_width device w h
slot_issue_bus_operation device (op_set_bus_speed s) h = set_speed device s h
slot_issue_bus_operation device (op_set_signaling_voltage v) h = set_signaling device (is_18v v) h
slot_issue_bus_operation device op_set_drive_strength h = (h, NtStatus.invalid_parameter)
slot_issue_bus_operation device op_set_driver_type h = (h, NtStatus.invalid_parameter)
slot_issue_bus_operation device (op_set_preset_value e) h = set_preset_value device e h
slot_issue_bus_operation device (op_set_block_gap_interrupt e) h =
    enable_block_gap_interrupt device e h
slot_issue_bus_operation device op_execute_tuning h = execute_tuning device h
slot_issue_bus_operation device op_other h = (h, NtStatus.invalid_parameter)

-- ===== src/Sd/Mshc/Interrupt.antt =====
-- The interrupt handler, `MshcSlotInterrupt`, and the masks that the port driver sets.
use woa_rk.Base.{
  ℕ, Bool, true, false, not, ◌&&◌, ◌||◌, [], ◌∷◌, if◌then◌else◌, none, some, bit_or, flag, ◌==◌,
}
use woa_rk.Base.Flags.{mask, clear, any_flag}
use woa_rk.Sd.Mshc.Types.{Host, EventSet, ErrorSet, mshc_ctrl, mshc_rintsts, mshc_idsts}
use woa_rk.Sd.Mshc.Fields.{ctrl_int_enable, int_hto, int_cmd, int_cd, int_rxdr, int_txdr}
use woa_rk.Sd.Mshc.Events.{
  no_events, no_errors, all_errors, any_event, any_error, to_standard_events, to_int_status,
}
use woa_rk.Sd.Mshc.Registers.{
  acknowledge_interrupts, enable_interrupts, disable_interrupts, read_register,
}
use woa_rk.Sd.Mshc.Requests.{save_events}
use woa_rk.Sd.Mshc.Commands.{voltage_switch}

-- What the handler returns and stores to its results; it never reports an SDIO interrupt or tuning.
pub record Report : Type 0 where
  pub handled : Bool
  pub events : EventSet
  pub errors : ErrorSet
  pub card_change : Bool

-- After the command for the voltage switch, HTO stands for the end of the command.
unfoldable pub switch_status : Host → (rintsts : ℕ) → ℕ
switch_status h rintsts = elim (h.outstanding) [
  | none ↦ rintsts
  | some id ↦
      if (h.requests id).command.index == voltage_switch && flag rintsts int_hto
      then bit_or (clear rintsts (mask (int_hto ∷ []))) (mask (int_cmd ∷ []))
      else rintsts
]

-- The data requests are masked until their words are moved.
unfoldable pub mask_data_requests : (rintsts : ℕ) → Host → Host
unfolding disable_interrupts
mask_data_requests rintsts h =
    if any_flag rintsts (int_rxdr ∷ int_txdr ∷ [])
    then disable_interrupts (mask (int_rxdr ∷ int_txdr ∷ [])) 0 h
    else h

-- The handler's results, unless a request of the driver's own waits for them: then the events and
-- errors are saved and its DPC is queued, and only a change of the card is reported.
unfoldable pub report : EventSet → ErrorSet → (card_change : Bool) → Host → Host × Report
unfolding save_events
report events errors card_change h =
    let handled = any_event events || (any_error errors || card_change) in
    if handled && not h.crashdump && h.local_request_pending
    then (
      record (save_events events errors h) { local_dpc_queued = true },
      record {
        handled = card_change;
        events = no_events;
        errors = no_errors;
        card_change = card_change;
      },
    )
    else (
      h,
      record { handled = handled; events = events; errors = errors; card_change = card_change },
    )

-- What the handler does with the two status words that it has read.
unfoldable pub handle_status : (rintsts idsts : ℕ) → Host → Host × Report
unfolding acknowledge_interrupts mask_data_requests
handle_status rintsts idsts h =
    let a = acknowledge_interrupts rintsts idsts h in
    let status = switch_status a rintsts in
    let b = mask_data_requests status a in
    let changed = flag status int_cd && not b.broken_cd in
    let rest = if flag status int_cd then clear status (mask (int_cd ∷ [])) else status in
    let found = to_standard_events rest idsts in report found.0 found.1 changed b

-- `MshcSlotToggleEvents`: the bits that are enabled or disabled.
unfoldable pub toggle_bits : (broken_cd : Bool) → EventSet → ℕ
toggle_bits broken_cd events =
    let intsts = bit_or (to_int_status events all_errors).0 (mask (int_hto ∷ [])) in
    if broken_cd then clear intsts (mask (int_cd ∷ [])) else intsts

unfoldable pub slot_toggle_events : EventSet → (enable : Bool) → Host → Host
unfolding enable_interrupts disable_interrupts
slot_toggle_events events enable h =
    let intsts = toggle_bits h.broken_cd events in
    let idsts = (to_int_status events all_errors).1 in
    if enable then enable_interrupts intsts idsts h else disable_interrupts intsts idsts h

-- `MshcSlotClearEvents`
unfoldable pub slot_clear_events : EventSet → Host → Host
unfolding acknowledge_interrupts
slot_clear_events events h =
    let bits = to_int_status events all_errors in acknowledge_interrupts bits.0 bits.1 h

module _ (device : ℕ → ℕ → ℕ) where
  -- `MshcSlotInterrupt`
  unfoldable pub slot_interrupt : Host → Host × Report
  unfolding read_register handle_status
  slot_interrupt h =
      let a = read_register device mshc_rintsts h in
      let b = read_register device mshc_idsts a in
      let c = read_register device mshc_ctrl b in
      let rintsts = a.regs mshc_rintsts in
      let idsts = b.regs mshc_idsts in
      if rintsts == 0 && idsts == 0 || not (flag (c.regs mshc_ctrl) ctrl_int_enable)
      then (
        c,
        record { handled = false; events = no_events; errors = no_errors; card_change = false },
      )
      else handle_status rintsts idsts c

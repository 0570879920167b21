-- ===== src/Sd/Sdhc/Interrupt.antt =====
-- The interrupts: what is enabled, read, acknowledged and reported.
use woa_rk.Base.{ℕ, Bool, false, not, ◌||◌, List, [], ◌∷◌, if◌then◌else◌, bit_or, u16, flag, ◌==◌}
use woa_rk.Base.Flags.{mask, any_flag, clear}
use woa_rk.Sd.Sdhc.Types.{
  SdhcExtension, sdhc_present_state, sdhc_interrupt_status, sdhc_error_status,
  sdhc_interrupt_status_enable, sdhc_error_status_enable, sdhc_interrupt_signal_enable,
  sdhc_error_signal_enable, sdhc_auto_cmd12_error_status,
}
use woa_rk.Sd.Sdhc.Fields.{
  is_card_insertion, is_card_removal, is_card_interrupt, is_tuning_interrupt, is_error_interrupt,
  ps_card_inserted,
}
use woa_rk.Sd.Sdhc.Registers.{store, load, loaded}

-- What `SdhcSlotInterrupt` gives to the port driver.
pub record Notice : Type 0 where
  pub events : ℕ
  pub errors : ℕ
  pub card_change : Bool
  pub sdio_interrupt : Bool
  pub tuning : Bool

-- `SdhcConvertEventsToHwMask`
unfoldable pub convert_events_to_hw_mask : ℕ → ℕ
convert_events_to_hw_mask events = u16 events

-- `SdhcAcknowledgeInterrupts`
unfoldable pub acknowledge_interrupts : (interrupts : ℕ) → SdhcExtension → SdhcExtension
unfolding store
acknowledge_interrupts interrupts h =
    if flag interrupts is_error_interrupt
    then store sdhc_interrupt_status (clear interrupts (mask (is_error_interrupt ∷ []))) (
        store sdhc_error_status 0xFFFF
          (store sdhc_auto_cmd12_error_status 0 (store sdhc_auto_cmd12_error_status 0xFFFF h)))
    else store sdhc_interrupt_status interrupts h

-- `SdhcGetInterruptStatus`: a controller that is gone reads as ones.
unfoldable pub interrupt_status : (read : ℕ) → ℕ
interrupt_status read = if read == 0xFFFF then 0 else read

-- The bits that `SdhcSlotInterrupt` takes out of the events.
abbrev pub notice_bits : List ℕ
notice_bits = is_card_insertion ∷ is_card_removal ∷ is_card_interrupt ∷ is_tuning_interrupt ∷ []

unfoldable pub notice : (events errors : ℕ) → Notice
notice events errors = record {
  events = clear events (mask notice_bits);
  errors = errors;
  card_change = any_flag events (is_card_insertion ∷ is_card_removal ∷ []);
  sdio_interrupt = flag events is_card_interrupt;
  tuning = flag events is_tuning_interrupt;
}

unfoldable pub anything : Notice → Bool
anything n = not (n.events == 0) || n.card_change || n.sdio_interrupt || n.tuning

module _ (device : List (ℕ × ℕ) → ℕ → ℕ → ℕ) where
  -- `SdhcEnableInterrupt`
  unfoldable pub enable_interrupt : (events : ℕ) → SdhcExtension → SdhcExtension
  unfolding load loaded store
  enable_interrupt events h =
      let enable = u16 (bit_or (load device sdhc_interrupt_signal_enable h) events) in
      let g = loaded h in
      let signals =
        if h.crashdump
        then g
        else store sdhc_error_signal_enable 0xFFFF (store sdhc_interrupt_signal_enable enable g) in
      store sdhc_error_status_enable 0xFFFF (store sdhc_interrupt_status_enable enable signals)

  -- `SdhcDisableInterrupt`
  unfoldable pub disable_interrupt : (events : ℕ) → SdhcExtension → SdhcExtension
  unfolding load loaded store
  disable_interrupt events h =
      let disable = clear (load device sdhc_interrupt_signal_enable h) events in
      store sdhc_error_signal_enable 0 (
        store sdhc_interrupt_signal_enable disable (
          store sdhc_error_status_enable 0 (store sdhc_interrupt_status_enable disable (loaded h))))

  -- `SdhcSlotToggleEvents`
  unfoldable pub slot_toggle_events : (events : ℕ) (enable : Bool) → SdhcExtension → SdhcExtension
  slot_toggle_events events enable h =
      let interrupts = convert_events_to_hw_mask events in
      if enable then enable_interrupt interrupts h else disable_interrupt interrupts h

  -- `SdhcSlotInterrupt`: what it reports, and whether the interrupt was the controller's.
  unfoldable pub slot_interrupt : SdhcExtension → SdhcExtension × Notice × Bool
  unfolding load loaded
  slot_interrupt h =
      let events = interrupt_status (load device sdhc_interrupt_status h) in
      let g = loaded h in
      if events == 0
      then (g, notice 0 0, false)
      else (let errors =
            if flag events is_error_interrupt then load device sdhc_error_status g else 0 in
          let k = if flag events is_error_interrupt then loaded g else g in
          let n = notice events errors in (acknowledge_interrupts events k, n, anything n))

  -- `SdhcIsCardInserted`
  unfoldable pub is_card_inserted : SdhcExtension → SdhcExtension × Bool
  unfolding load loaded
  is_card_inserted h = (loaded h, flag (load device sdhc_present_state h) ps_card_inserted)

-- `SdhcSlotClearEvents`
unfoldable pub slot_clear_events : (events : ℕ) → SdhcExtension → SdhcExtension
slot_clear_events events h = acknowledge_interrupts (convert_events_to_hw_mask events) h

-- `SdhcIsWriteProtected`
unfoldable pub is_write_protected : SdhcExtension → Bool
is_write_protected h = false

-- ===== src/Sd/Mshc/Registers.antt =====
-- The registers: polling, resets, the clock update, the interrupt masks and the card's lines.
-- `device n a` is what the controller answers to the `n`-th read of a register that it changes by
-- itself, if that read is of the register at `a`. The other registers hold what was written.
use woa_rk.Base.{
  ℕ, zero, suc, Bool, true, false, not, [], ◌∷◌, List, if◌then◌else◌, flag, bit_or, update, ◌==◌,
}
use woa_rk.Base.Flags.{mask, any_flag, clear}
use woa_rk.Sd.Mshc.Types.{
  Host, NtStatus, nt_success, mshc_ctrl, mshc_intmask, mshc_cmdarg, mshc_cmd, mshc_rintsts,
  mshc_status, mshc_cdetect, mshc_wrtprt, mshc_idsts, mshc_idinten,
}
use woa_rk.Sd.Mshc.Fields.{
  ctrl_int_enable, cmd_wait_prvdata_complete, cmd_update_clock_regs_only, cmd_start_cmd,
  cmd_volt_switch, status_data_busy,
}

-- `MshcWriteRegister`
unfoldable pub write_register : ℕ → ℕ → Host → Host
write_register a v h = record h { regs = update h.regs a v }

-- `MshcEnableGlobalInterrupt`
unfoldable pub enable_global_interrupt : Bool → Host → Host
unfolding write_register
enable_global_interrupt enable h =
    let ctrl = h.regs mshc_ctrl in
    write_register mshc_ctrl
      (if enable
        then bit_or ctrl (mask (ctrl_int_enable ∷ []))
        else clear ctrl (mask (ctrl_int_enable ∷ [])))
      h

-- `MshcEnableInterrupts`
unfoldable pub enable_interrupts : (intsts idsts : ℕ) → Host → Host
unfolding write_register
enable_interrupts intsts idsts h =
    let g = write_register mshc_intmask (bit_or (h.regs mshc_intmask) intsts) h in
    if not (idsts == 0)
    then write_register mshc_idinten (bit_or (g.regs mshc_idinten) idsts) g
    else g

-- `MshcDisableInterrupts`
unfoldable pub disable_interrupts : (intsts idsts : ℕ) → Host → Host
unfolding write_register
disable_interrupts intsts idsts h =
    let g = write_register mshc_intmask (clear (h.regs mshc_intmask) intsts) h in
    if not (idsts == 0)
    then write_register mshc_idinten (clear (g.regs mshc_idinten) idsts) g
    else g

-- `MshcAcknowledgeInterrupts`
unfoldable pub acknowledge_interrupts : (intsts idsts : ℕ) → Host → Host
unfolding write_register
acknowledge_interrupts intsts idsts h =
    let g = write_register mshc_rintsts intsts h in
    if not (idsts == 0) then write_register mshc_idsts idsts g else g

-- `if (!NT_SUCCESS(Status)) { return Status; }` between two steps.
unfoldable pub and_then : Host × NtStatus → (Host → Host × NtStatus) → Host × NtStatus
and_then r next = if nt_success r.1 then next r.0 else r

module _ (device : ℕ → ℕ → ℕ) where
  -- `MshcReadRegister` of a register that the controller changes by itself.
  unfoldable pub read_register : ℕ → Host → Host
  read_register a h = record h { regs = update h.regs a (device h.reads a); reads = suc h.reads }

  -- The loops that read the register at `a` until the bits are clear, `tries` times at most.
  unfoldable pub poll : (tries a : ℕ) → List ℕ → Host → Host × NtStatus
  unfolding read_register
  poll zero a bits h = (h, NtStatus.io_timeout)
  poll (suc tries) a bits h = elim (any_flag (device h.reads a) bits) [
    | true ↦ poll tries a bits (read_register a h)
    | false ↦ (read_register a h, NtStatus.success)
  ]

  -- `MshcResetWait`
  unfoldable pub reset_wait : List ℕ → Host → Host × NtStatus
  unfolding write_register
  reset_wait bits h =
      poll 300 mshc_ctrl bits (write_register mshc_ctrl (bit_or (h.regs mshc_ctrl) (mask bits)) h)

  -- `MshcIsDataBusy`
  unfoldable pub is_data_busy : Host → Host × Bool
  unfolding read_register
  is_data_busy h = (read_register mshc_status h, flag (device h.reads mshc_status) status_data_busy)

  -- `MshcWaitDataIdle`
  unfoldable pub wait_data_idle : Host → Host × NtStatus
  wait_data_idle h = poll 100000 mshc_status (status_data_busy ∷ []) h

  -- `MshcCiuUpdateClock`
  unfoldable pub ciu_update_clock : (flags : ℕ) → Host → Host × NtStatus
  unfolding write_register wait_data_idle
  ciu_update_clock flags h =
      let idle = if flag flags cmd_volt_switch then h else (wait_data_idle h).0 in
      let cmd =
        bit_or (mask (cmd_wait_prvdata_complete ∷ cmd_update_clock_regs_only ∷ cmd_start_cmd ∷ []))
          flags in
      poll 200000 mshc_cmd (cmd_start_cmd ∷ [])
        (write_register mshc_cmd cmd (write_register mshc_cmdarg 0 idle))

  -- `MshcIsCardInserted`
  unfoldable pub is_card_inserted : Host → Host × Bool
  unfolding read_register
  is_card_inserted h =
      if h.broken_cd
      then (h, true)
      else (read_register mshc_cdetect h, not (flag (device h.reads mshc_cdetect) h.slot_id))

  -- `MshcIsCardWriteProtected`
  unfoldable pub is_card_write_protected : Host → Host × Bool
  unfolding read_register
  is_card_write_protected h =
      (read_register mshc_wrtprt h, flag (device h.reads mshc_wrtprt) h.slot_id)

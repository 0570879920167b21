-- ===== src/Sd/Mshc/Commands.antt =====
-- A command is sent and its response is read: `MshcSlotIssueRequest`, `MshcSlotGetResponse`.
use woa_rk.Base.{
  ℕ, ◌+◌, ◌^◌, Bool, true, false, not, ◌&&◌, ◌||◌, [], ◌∷◌, if◌then◌else◌, Option, none, some,
  bit_or, bit_and, ◌==◌,
}
use woa_rk.Base.Flags.{mask, clear, or_if}
use woa_rk.Sd.Mshc.Types.{
  Host, NtStatus, nt_success, Command, command_no_transfer, command_with_transfer, start_transfer,
  other_request, ResponseType, resp_none, resp_r2, resp_r3, resp_r4, resp_undefined, TransferType,
  TransferMethod, method_pio, method_sg_dma, method_undefined, EventSet, set_request, mshc_clkena,
  mshc_cmdarg, mshc_cmd,
}
use woa_rk.Sd.Mshc.Fields.{
  cmd_start_cmd, cmd_use_hold_reg, cmd_volt_switch, cmd_send_initialization, cmd_stop_abort_cmd,
  cmd_wait_prvdata_complete, cmd_send_auto_stop, cmd_wr, cmd_data_expected, cmd_check_response_crc,
  cmd_response_length, cmd_response_expect, int_rxdr, int_txdr,
}
use woa_rk.Sd.Mshc.Events.{no_events, no_errors}
use woa_rk.Sd.Mshc.Registers.{write_register, enable_interrupts, ciu_update_clock}
use woa_rk.Sd.Mshc.Requests.{is_write}
use woa_rk.Sd.Mshc.Transfers.{build_transfer, start_pio_transfer, start_dma_transfer}

-- The numbers of the commands, of the SD specification.
abbrev pub go_idle_state : ℕ
go_idle_state = 0

abbrev pub send_relative_addr : ℕ
send_relative_addr = 3

abbrev pub voltage_switch : ℕ
voltage_switch = 11

abbrev pub stop_transmission : ℕ
stop_transmission = 12

abbrev pub go_inactive_state : ℕ
go_inactive_state = 15

abbrev pub io_rw_direct : ℕ
io_rw_direct = 52

abbrev pub has_data : TransferType → Bool
has_data TransferType.single_block = true
has_data TransferType.multi_block = true
has_data _ = false

abbrev pub is_multi_block : TransferType → Bool
is_multi_block TransferType.multi_block = true
is_multi_block _ = false

-- The cases of the switch over the type of the response: the bits that each of them sets in `Cmd`,
-- and the types that it takes.
unfoldable pub expects_response : ResponseType → Bool
expects_response resp_none = false
expects_response resp_undefined = false
expects_response _ = true

unfoldable pub checks_crc : ResponseType → Bool
checks_crc resp_none = false
checks_crc resp_r3 = false
checks_crc resp_r4 = false
checks_crc resp_undefined = false
checks_crc _ = true

unfoldable pub long_response : ResponseType → Bool
long_response resp_r2 = true
long_response _ = false

unfoldable pub valid_response : ResponseType → Bool
valid_response resp_undefined = false
valid_response _ = true

-- The commands that end a transfer, and the others that are sent as such.
unfoldable pub aborts : ℕ → Bool
aborts index =
    index == go_idle_state
    || (index == stop_transmission || (index == go_inactive_state || index == io_rw_direct))

-- `Cmd`, where `initialized` is whether the card was initialized.
unfoldable pub command_word : Command → (initialized : Bool) → ℕ
command_word c initialized =
    let with_data = has_data c.transfer_type in
    let start = bit_or (bit_and c.index 0x3F) (mask (cmd_start_cmd ∷ [])) in
    let expects =
      or_if (expects_response c.response_type) (mask (cmd_response_expect ∷ [])) start in
    let crc = or_if (checks_crc c.response_type) (mask (cmd_check_response_crc ∷ [])) expects in
    let a = or_if (long_response c.response_type) (mask (cmd_response_length ∷ [])) crc in
    let b = or_if (aborts c.index) (mask (cmd_stop_abort_cmd ∷ [])) a in
    let d = or_if (c.index == voltage_switch) (mask (cmd_volt_switch ∷ [])) b in
    let e = or_if with_data (mask (cmd_data_expected ∷ cmd_wait_prvdata_complete ∷ [])) d in
    let f = or_if (with_data && is_write c.transfer_direction) (mask (cmd_wr ∷ [])) e in
    let g =
      or_if (with_data && (c.use_auto_cmd12 && is_multi_block c.transfer_type))
        (mask (cmd_send_auto_stop ∷ [])) f in
    or_if (not initialized) (mask (cmd_send_initialization ∷ []))
      (bit_or g (mask (cmd_use_hold_reg ∷ [])))

-- The events that the request requires after the command.
unfoldable pub command_events : Command → EventSet
command_events c =
    let first = record no_events { card_response = true } in
    elim (c.transfer_method) [
      | method_sg_dma ↦ record first { card_rw_end = true }
      | method_pio ↦ record first {
        buffer_full = not (is_write c.transfer_direction);
        buffer_empty = is_write c.transfer_direction;
      }
      | method_undefined ↦ first
    ]

abbrev pub is_pio : TransferMethod → Bool
is_pio method_pio = true
is_pio _ = false

-- What `MshcSendCommand` does once the word is made: the events, the masks, the two stores.
unfoldable pub issue_command : (id : ℕ) → (cmd : ℕ) → Host → Host
unfolding enable_interrupts write_register
issue_command id cmd h =
    let r = h.requests id in
    let c = r.command in
    let a = record h {
      card_initialized = true;
      current_events = no_events;
      current_errors = no_errors;
    } in
    let b = set_request id (record r { required_events = command_events c }) a in
    let d =
      if is_pio c.transfer_method
      then enable_interrupts (mask (int_rxdr ∷ int_txdr ∷ [])) 0 b
      else b in
    write_register mshc_cmd cmd (write_register mshc_cmdarg c.argument d)

module _ (device : ℕ → ℕ → ℕ) where
  -- The clock of a voltage switch is not gated.
  unfoldable pub ungate_clock : Host → Host
  unfolding write_register ciu_update_clock
  ungate_clock h =
      let clkena = clear (h.regs mshc_clkena) (2 ^ (16 + h.slot_id)) in
      (ciu_update_clock device 0 (write_register mshc_clkena clkena h)).0

  -- `MshcSendCommand` behind the transfer's parameters.
  unfoldable pub send_built : (id : ℕ) → Host → Host × NtStatus
  unfolding ungate_clock issue_command
  send_built id h =
      let c = (h.requests id).command in
      if valid_response c.response_type
      then (let a = if c.index == voltage_switch then ungate_clock h else h in
          (issue_command id (command_word c a.card_initialized) a, NtStatus.pending))
      else (h, NtStatus.invalid_parameter)

  -- `MshcSendCommand`
  unfoldable pub send_command : (id : ℕ) → Host → Host × NtStatus
  unfolding send_built build_transfer
  send_command id h =
      let c = (h.requests id).command in
      if has_data c.transfer_type
      then (let built = build_transfer c h in
          if nt_success built.1 then send_built id built.0 else built)
      else send_built id h

  -- `MshcStartTransfer`
  unfoldable pub start_transfer_of :
      (fuel : ℕ) (dispatch : Bool) (id : ℕ) → Host → Option (Host × NtStatus)
  unfolding start_pio_transfer start_dma_transfer
  start_transfer_of fuel dispatch id h = elim ((h.requests id).command.transfer_method) [
    | method_pio ↦ elim (start_pio_transfer device fuel dispatch id h) [
      | none ↦ none
      | some g ↦ some (g, NtStatus.pending)
    ]
    | method_sg_dma ↦ elim (start_dma_transfer device fuel dispatch id h) [
      | none ↦ none
      | some g ↦ some (g, NtStatus.success)
    ]
    | method_undefined ↦ some (h, NtStatus.not_supported)
  ]

  -- `MshcSlotIssueRequest`
  unfoldable pub slot_issue_request :
      (fuel : ℕ) (dispatch : Bool) (id : ℕ) → Host → Option (Host × NtStatus)
  unfolding start_transfer_of send_command
  slot_issue_request fuel dispatch id h =
      let a = record h { outstanding = some id } in
      elim ((h.requests id).kind) [
        | command_no_transfer ↦ some (send_command id a)
        | command_with_transfer ↦ some (send_command id a)
        | start_transfer ↦ start_transfer_of fuel dispatch id a
        | other_request ↦ some (a, NtStatus.not_supported)
      ]

-- ===== src/Sd/Sdhc/Commands.antt =====
-- Requests: the transfer mode, the descriptor table, the command, blocks by words, the response.
use woa_rk.Base.{
  ℕ, zero, suc, ◌+◌, ◌*◌, Bool, true, false, List, [], ◌∷◌, Option, none, some, if◌then◌else◌,
  bit_or, update, u16, flag, ltb, leb,
}
use woa_rk.Base.Flags.{mask, clear, or_if}
use woa_rk.Sd.Mshc.Types.{
  NtStatus, ResponseType, TransferType, TransferMethod, TransferDirection, RequestType, resp_none,
  resp_r1, resp_r2, resp_r3, resp_r4, resp_r5, resp_r6, resp_r1b, resp_r5b, resp_undefined,
  no_transfer, method_undefined, method_pio, method_sg_dma, direction_undefined, direction_read,
  direction_write, command_no_transfer, command_with_transfer, start_transfer, other_request,
}
use woa_rk.Sd.Sdhc.Types.{
  SdhcExtension, SdhcCommand, CommandType, type_normal, type_suspend, type_resume, type_abort,
  put_request, sdhc_sysaddr, sdhc_block_size, sdhc_block_count, sdhc_argument, sdhc_transfer_mode,
  sdhc_command, sdhc_response, sdhc_adma_sysaddr_low, sdhc_adma_sysaddr_high,
}
use woa_rk.Sd.Sdhc.Fields.{
  tm_dma_enable, tm_blkcnt_enable, tm_auto_cmd12_enable, tm_auto_cmd23_enable, tm_transfer_read,
  tm_multiblock, cmd_data_present, is_cmd_complete, is_transfer_complete, is_buffer_write_ready,
  is_buffer_read_ready,
}
use woa_rk.Sd.Sdhc.Registers.{store, then_do, load, loaded}
use woa_rk.Sd.Sdhc.Adma.{create_adma_descriptor_table}
use woa_rk.Sd.Sdhc.Port.{read_data_port, write_data_port}
use woa_rk.Sd.Sdhc.Requests.{complete_request, has_transfer}

-- Whether the transfer is a read, if its direction is named.
unfoldable pub is_read : TransferDirection → Option Bool
is_read direction_read = some true
is_read direction_write = some false
is_read direction_undefined = none

unfoldable pub is_sg_dma : TransferMethod → Bool
is_sg_dma method_sg_dma = true
is_sg_dma _ = false

-- `TransferMode`
unfoldable pub transfer_mode : (read dma : Bool) (block_count : ℕ) → ℕ
transfer_mode read dma block_count =
    let multi =
      or_if (ltb 1 block_count)
        (mask (tm_multiblock ∷ tm_blkcnt_enable ∷ tm_auto_cmd12_enable ∷ [])) 0 in
    or_if read (mask (tm_transfer_read ∷ [])) (or_if dma (mask (tm_dma_enable ∷ [])) multi)

-- `SdhcSetTransferMode`
unfoldable pub set_transfer_mode : SdhcCommand → SdhcExtension → SdhcExtension × NtStatus
unfolding store
set_transfer_mode c h =
    if ltb 2048 c.block_size
    then (h, NtStatus.invalid_parameter)
    else elim (is_read c.transfer_direction) [
      | none ↦ (h, NtStatus.invalid_parameter)
      | some read ↦
          let mode = transfer_mode read (is_sg_dma c.transfer_method) c.block_count in
          (
            store sdhc_transfer_mode mode (
                store sdhc_block_count c.block_count
                  (store sdhc_block_size c.block_size (store sdhc_sysaddr c.block_count h))),
            NtStatus.success,
          )
    ]

-- `SdhcBuildAdmaTransfer` behind the transfer mode.
unfoldable pub build_table : SdhcCommand → SdhcExtension → SdhcExtension
unfolding store
build_table c h =
    let table = create_adma_descriptor_table h.address_64bit c.sg_list in
    let low = store sdhc_adma_sysaddr_low c.dma_low (record h { table = table }) in
    if h.address_64bit then store sdhc_adma_sysaddr_high c.dma_high low else low

-- `SdhcBuildTransfer`, with `SdhcBuildPioTransfer` and `SdhcBuildAdmaTransfer`.
unfoldable pub build_by : TransferMethod → SdhcCommand → SdhcExtension → SdhcExtension × NtStatus
build_by method_pio c h = set_transfer_mode c h
build_by method_sg_dma c h =
    then_do (set_transfer_mode c h) λ g. (build_table c g, NtStatus.success)
build_by method_undefined c h = (h, NtStatus.not_supported)

unfoldable pub build_transfer : SdhcCommand → SdhcExtension → SdhcExtension × NtStatus
build_transfer c h = build_by c.transfer_method c h

-- The bits of `SDHC_COMMAND` for a response.
unfoldable pub response_bits : ResponseType → Option ℕ
response_bits resp_none = some 0
response_bits resp_r1 = some 0x1A
response_bits resp_r5 = some 0x1A
response_bits resp_r6 = some 0x1A
response_bits resp_r1b = some 0x1B
response_bits resp_r5b = some 0x1B
response_bits resp_r2 = some 0x09
response_bits resp_r3 = some 0x02
response_bits resp_r4 = some 0x02
response_bits resp_undefined = none

-- The bits of `SDHC_COMMAND` for the type of a command.
unfoldable pub type_bits : CommandType → ℕ
type_bits type_suspend = 0x40
type_bits type_resume = 0x80
type_bits type_abort = 0x60
type_bits type_normal = 0

-- `TransferType != SdTransferTypeNone`
unfoldable pub names_transfer : TransferType → Bool
names_transfer no_transfer = false
names_transfer _ = true

-- `CommandReg`
unfoldable pub command_reg : (response_bits : ℕ) → SdhcCommand → ℕ
command_reg response c =
    bit_or
      (or_if (names_transfer c.transfer_type) (mask (cmd_data_present ∷ []))
        (bit_or (u16 (c.index * 256)) response))
      (type_bits c.type)

unfoldable pub waits_busy : ResponseType → Bool
waits_busy resp_r1b = true
waits_busy resp_r5b = true
waits_busy _ = false

-- The event that says that the port is ready for a block.
unfoldable pub buffer_ready : TransferDirection → ℕ
buffer_ready direction_read = mask (is_buffer_read_ready ∷ [])
buffer_ready _ = mask (is_buffer_write_ready ∷ [])

-- The events that a transfer of this method adds.
unfoldable pub method_events : TransferMethod → TransferDirection → ℕ
method_events method_sg_dma d = mask (is_transfer_complete ∷ [])
method_events method_pio d = buffer_ready d
method_events method_undefined d = 0

-- `RequiredEvents` of a command.
unfoldable pub command_events : SdhcCommand → ℕ
command_events c =
    bit_or
      (or_if (waits_busy c.response_type) (mask (is_transfer_complete ∷ []))
        (mask (is_cmd_complete ∷ [])))
      (method_events c.transfer_method c.transfer_direction)

-- `SdhcGetResponseLength`
unfoldable pub get_response_length : ResponseType → ℕ
get_response_length resp_r2 = 16
get_response_length resp_none = 0
get_response_length resp_undefined = 0
get_response_length _ = 4

-- `SdhcStartAdmaTransfer`
unfoldable pub start_adma_transfer : (id : ℕ) → SdhcExtension → SdhcExtension × NtStatus
start_adma_transfer id h =
    let r = h.requests id in
    (
      complete_request id NtStatus.success
          (put_request id (record r { status = NtStatus.success }) h),
      NtStatus.success,
    )

-- `SdhcStartPioTransfer` once the block is moved; `count` is what is left of the blocks.
unfoldable pub after_block : (id count events : ℕ) → SdhcExtension → SdhcExtension
after_block id count events h =
    let r = h.requests id in
    let c = r.command in
    if leb 1 count
    then put_request id
        (record r {
          command = record c { block_count = count; data_buffer = c.data_buffer + c.block_size };
          required_events = bit_or r.required_events (buffer_ready c.transfer_direction);
          status = NtStatus.more_processing_required;
        })
        h
    else (let done = record r {
      command = record c { block_count = count };
      status = NtStatus.success;
    } in
        if flag events is_transfer_complete
        then complete_request id NtStatus.success (put_request id done h)
        else put_request id
            (record done {
              required_events = bit_or r.required_events (mask (is_transfer_complete ∷ []));
            })
            h)

module _ (device : List (ℕ × ℕ) → ℕ → ℕ → ℕ) where
  -- `SdhcSendCommand` once the transfer is set up.
  unfoldable pub issue_command : (id : ℕ) → SdhcExtension → SdhcExtension × NtStatus
  unfolding store load loaded
  issue_command id h =
      let r = h.requests id in
      let c = r.command in
      let a = store sdhc_argument c.argument h in
      elim (response_bits c.response_type) [
        | none ↦ (a, NtStatus.invalid_parameter)
        | some bits ↦
            let quiet =
              clear (load device sdhc_transfer_mode a)
                (mask (tm_dma_enable ∷ tm_auto_cmd12_enable ∷ tm_auto_cmd23_enable ∷ [])) in
            let b =
              if names_transfer c.transfer_type
              then a
              else store sdhc_transfer_mode quiet (loaded a) in
            let g = record b { current_events = 0 } in
            let asked = put_request id (record r { required_events = command_events c }) g in
            (store sdhc_command (command_reg bits c) asked, NtStatus.pending)
      ]

  -- `SdhcSendCommand`
  unfoldable pub send_command : (id : ℕ) → SdhcExtension → SdhcExtension × NtStatus
  send_command id h =
      let c = (h.requests id).command in
      if has_transfer c.transfer_type
      then then_do (build_transfer c h) (issue_command id)
      else issue_command id h

  -- The block that `SdhcStartPioTransfer` moves.
  unfoldable pub move_block : SdhcCommand → SdhcExtension → SdhcExtension
  move_block c h = elim (is_read c.transfer_direction) [
    | none ↦ write_data_port c.data_buffer c.block_size h
    | some read ↦
        if read
        then read_data_port device c.data_buffer c.block_size h
        else write_data_port c.data_buffer c.block_size h
  ]

  -- `SdhcStartPioTransfer`
  unfoldable pub start_pio_transfer : (id : ℕ) → SdhcExtension → SdhcExtension × NtStatus
  start_pio_transfer id h =
      let c = (h.requests id).command in
      let g = move_block c (record h { current_events = 0 }) in
      (after_block id (u16 (c.block_count + 65535)) h.current_events g, NtStatus.pending)

  -- `SdhcStartTransfer`
  unfoldable pub start_by : TransferMethod → (id : ℕ) → SdhcExtension → SdhcExtension × NtStatus
  start_by method_pio id h = start_pio_transfer id h
  start_by method_sg_dma id h = start_adma_transfer id h
  start_by method_undefined id h = (h, NtStatus.not_supported)

  unfoldable pub start_transfer_of : (id : ℕ) → SdhcExtension → SdhcExtension × NtStatus
  start_transfer_of id h = start_by (h.requests id).command.transfer_method id h

  -- `SdhcSlotIssueRequest`
  unfoldable pub issue_by : RequestType → (id : ℕ) → SdhcExtension → SdhcExtension × NtStatus
  issue_by command_no_transfer id h = send_command id h
  issue_by command_with_transfer id h = send_command id h
  issue_by start_transfer id h = start_transfer_of id h
  issue_by other_request id h = (h, NtStatus.not_supported)

  unfoldable pub slot_issue_request : (id : ℕ) → SdhcExtension → SdhcExtension × NtStatus
  slot_issue_request id h = issue_by (h.requests id).kind id (record h { outstanding = some id })

  -- `SdhcGetResponse`: the bytes of the response, read one by one into the buffer.
  unfoldable pub response_bytes :
      (count index : ℕ) (buffer : ℕ → ℕ) → SdhcExtension → SdhcExtension × (ℕ → ℕ)
  unfolding load loaded
  response_bytes zero index buffer h = (h, buffer)
  response_bytes (suc n) index buffer h =
      response_bytes n (index + 1) (update buffer index (load device (sdhc_response + index) h))
        (loaded h)

  unfoldable pub get_response :
      ResponseType → (buffer : ℕ → ℕ) → SdhcExtension → SdhcExtension × (ℕ → ℕ)
  get_response type buffer h = response_bytes (get_response_length type) 0 (update buffer 0 0) h

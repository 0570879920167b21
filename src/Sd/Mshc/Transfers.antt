-- ===== src/Sd/Mshc/Transfers.antt =====
-- The data of a request: the FIFO's watermarks, the words of the data port, the DMA controller.
use woa_rk.Base.{
  ℕ, zero, suc, ◌+◌, ◌-◌, ◌*◌, ◌/◌, ◌^◌, ◌%◌, Bool, true, not, ◌||◌, [], ◌∷◌, ◌++◌, if◌then◌else◌,
  Option, some, u32, bit_or, bit_and, flag, min, update, ltb,
}
use woa_rk.Base.Flags.{mask, clear}
use woa_rk.Sd.Mshc.Types.{
  Host, NtStatus, Command, method_pio, method_sg_dma, set_request, mshc_blksiz, mshc_bytcnt,
  mshc_fifoth, mshc_ctrl, mshc_bmod, mshc_dbaddr, mshc_fifo_base,
}
use woa_rk.Sd.Mshc.Fields.{ctrl_use_internal_dmac, bmod_de, bmod_fb, int_rxdr, int_txdr}
use woa_rk.Sd.Mshc.Events.{no_events}
use woa_rk.Sd.Mshc.Idmac.{create_idmac_descriptor_table}
use woa_rk.Sd.Mshc.Registers.{write_register, acknowledge_interrupts, enable_interrupts, and_then}
use woa_rk.Sd.Mshc.Requests.{complete_request, is_write}

-- `MSHC_FIFOTH`, of the size of a burst and the threshold.
unfoldable pub fifoth : (burst threshold : ℕ) → ℕ
fifoth burst threshold =
    bit_or
      (bit_or (bit_and (u32 (burst * 2 ^ 28)) (7 * 2 ^ 28))
        (bit_and (u32 (u32 (threshold + 4294967295) * 2 ^ 16)) (0xFFF * 2 ^ 16)))
      (bit_and threshold 0xFFF)

-- `MshcSetTransferMode`
unfoldable pub set_transfer_mode : Command → Host → Host × NtStatus
unfolding write_register
set_transfer_mode c h =
    let count = c.block_count % 65536 in
    let size = c.block_size % 65536 in
    let a = write_register mshc_blksiz size h in
    let b = write_register mshc_bytcnt (u32 (count * size)) a in
    (write_register mshc_fifoth (fifoth h.fifo_dma_burst_size h.fifo_threshold) b, NtStatus.success)

-- `MshcBuildPioTransfer`
unfoldable pub build_pio_transfer : Command → Host → Host × NtStatus
unfolding write_register set_transfer_mode
build_pio_transfer c h =
    let a = record h {
      fifo_threshold = min (c.length / 4) (h.fifo_depth / 2);
      fifo_dma_burst_size = 0;
    } in
    let ctrl = a.regs mshc_ctrl in
    let b =
      if flag ctrl ctrl_use_internal_dmac
      then write_register mshc_bmod 0
          (write_register mshc_ctrl (clear ctrl (mask (ctrl_use_internal_dmac ∷ []))) a)
      else a in
    set_transfer_mode c b

-- `MshcBuildDmaTransfer`
unfoldable pub build_dma_transfer : Command → Host → Host × NtStatus
unfolding write_register set_transfer_mode create_idmac_descriptor_table and_then
build_dma_transfer c h =
    let a = record h { fifo_threshold = h.fifo_depth / 2; fifo_dma_burst_size = 2 } in
    and_then (set_transfer_mode c a) λ b.
      let d = record b { descriptors = create_idmac_descriptor_table c.sg_list } in
      let e = write_register mshc_dbaddr (u32 c.dma_address) d in
      let f =
        write_register mshc_ctrl (bit_or (e.regs mshc_ctrl) (mask (ctrl_use_internal_dmac ∷ [])))
          e in
      (write_register mshc_bmod (mask (bmod_de ∷ bmod_fb ∷ [])) f, NtStatus.success)

-- `MshcBuildTransfer`
unfoldable pub build_transfer : Command → Host → Host × NtStatus
unfolding build_pio_transfer build_dma_transfer
build_transfer c h =
    let a = record h { remaining_length = c.length } in
    elim (c.transfer_method) [
      | method_pio ↦ build_pio_transfer c a
      | method_sg_dma ↦ build_dma_transfer c a
      | _ ↦ (a, NtStatus.not_supported)
    ]

-- `MshcWriteDataPort`: the words from the address `buffer` on.
unfoldable pub write_data_port : (buffer words : ℕ) → Host → Host
write_data_port buffer zero h = h
write_data_port buffer (suc words) h =
    write_data_port (buffer + 4) words
      (record h { port_written = h.port_written ++ h.memory buffer ∷ [] })

-- The number of bytes that the threshold stands for.
abbrev pub sub_transfer_length : Host → ℕ
sub_transfer_length h = u32 (h.fifo_threshold * 4)

-- The data requests are acknowledged, but not in crashdump mode.
unfoldable pub acknowledge_data : (crashdump : Bool) → Host → Host
unfolding acknowledge_interrupts
acknowledge_data crashdump h =
    if crashdump then h else acknowledge_interrupts (mask (int_rxdr ∷ int_txdr ∷ [])) 0 h

-- More is left: the request waits for the next data request.
unfoldable pub next_words : (id : ℕ) → Host → Host
unfolding enable_interrupts
next_words id h =
    let r = h.requests id in
    let c = r.command in
    let w = is_write c.transfer_direction in
    let more = record r {
      command = record c { data_buffer = c.data_buffer + sub_transfer_length h };
      required_events = record (r.required_events) {
        buffer_empty = r.required_events.buffer_empty || w;
        buffer_full = r.required_events.buffer_full || not w;
      };
      status = NtStatus.more_processing_required;
    } in
    enable_interrupts (mask (int_rxdr ∷ int_txdr ∷ [])) 0 (set_request id more h)

module _ (device : ℕ → ℕ → ℕ) where
  -- `MshcReadDataPort`: each read of the port gives the next word.
  unfoldable pub read_data_port : (buffer words : ℕ) → Host → Host
  read_data_port buffer zero h = h
  read_data_port buffer (suc words) h = read_data_port (buffer + 4) words (record h {
    memory = update h.memory buffer (device h.reads mshc_fifo_base);
    reads = suc h.reads;
  })

  -- The words of one data request, and what is left.
  unfoldable pub move_words : (id : ℕ) → Host → Host
  unfolding read_data_port write_data_port
  move_words id h =
      let c = (h.requests id).command in
      let a =
        if is_write c.transfer_direction
        then write_data_port c.data_buffer h.fifo_threshold h
        else read_data_port c.data_buffer h.fifo_threshold h in
      let b = acknowledge_data h.crashdump a in
      record b {
        current_events = no_events;
        remaining_length = u32 (b.remaining_length + 4294967296 - sub_transfer_length h);
      }

  -- All is moved: the request ends with the data, which may have come to its end before.
  unfoldable pub last_words :
      (fuel : ℕ) (dispatch : Bool) (id : ℕ) → (ended : Bool) → Host → Option Host
  unfolding complete_request
  last_words fuel dispatch id ended h =
      let r = record (h.requests id) { status = NtStatus.success } in
      if ended
      then complete_request device fuel dispatch id NtStatus.success (set_request id r h)
      else some (
          set_request id
            (record r { required_events = record (r.required_events) { card_rw_end = true } }) h)

  -- `MshcStartPioTransfer`, which returns `STATUS_PENDING`.
  unfoldable pub start_pio_transfer : (fuel : ℕ) (dispatch : Bool) (id : ℕ) → Host → Option Host
  unfolding move_words next_words last_words
  start_pio_transfer fuel dispatch id h =
      let a = move_words id h in
      if ltb 0 a.remaining_length
      then some (next_words id a)
      else last_words fuel dispatch id h.current_events.card_rw_end a

  -- `MshcStartDmaTransfer`, which returns `STATUS_SUCCESS`.
  unfoldable pub start_dma_transfer : (fuel : ℕ) (dispatch : Bool) (id : ℕ) → Host → Option Host
  unfolding complete_request
  start_dma_transfer fuel dispatch id h =
      complete_request device fuel dispatch id NtStatus.success (record h { remaining_length = 0 })

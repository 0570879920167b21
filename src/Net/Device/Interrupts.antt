-- ===== src/Net/Device/Interrupts.antt =====
-- The interrupt routine, its deferred part by turns of its loop, and the notifications.
use woa_rk.Base.{
  ℕ, ◌+◌, Bool, true, false, not, ◌||◌, ◌&&◌, [], ◌∷◌, if◌then◌else◌, bit_or, flag, u32, ◌==◌,
}
use woa_rk.Base.Flags.{mask, clear, or_if}
use woa_rk.Net.Device.Types.{
  DeviceContext, dpc_queued, link_work_queued, more_received, more_completed, interrupts_state,
  interrupts_rx, interrupts_tx, channel_tx, channel_rx, channel_fatal_bus_error,
  channel_abnormal_summary, channel_normal_summary, mac_link_status, interrupt_link_status,
}

-- `MakeMacInterruptEnable`
unfoldable pub make_mac_interrupt_enable : (wanted : ℕ) → ℕ
make_mac_interrupt_enable wanted =
    or_if (flag wanted interrupts_state) (mask (mac_link_status ∷ [])) 0

-- `MakeChannelInterruptEnable`
unfoldable pub make_channel_interrupt_enable : (wanted : ℕ) → ℕ
make_channel_interrupt_enable wanted =
    or_if (flag wanted interrupts_state)
      (mask (channel_fatal_bus_error ∷ channel_abnormal_summary ∷ []))
      (or_if (flag wanted interrupts_tx) (mask (channel_tx ∷ [])) (
        or_if (flag wanted interrupts_rx) (mask (channel_rx ∷ []))
          (mask (channel_normal_summary ∷ []))))

-- `DeviceInterruptSet_Locked`
unfoldable pub interrupt_set : (wanted : ℕ) → DeviceContext → DeviceContext
interrupt_set wanted c = record c {
  mac_enable = make_mac_interrupt_enable wanted;
  channel_enable = make_channel_interrupt_enable wanted;
}

-- The two functions that change what is wanted, once the new value is known.
unfoldable pub want : (wanted : ℕ) → DeviceContext → DeviceContext
want wanted c =
    if c.interrupts_wanted == wanted
    then c
    else interrupt_set wanted (record c { interrupts_wanted = wanted })

-- `DeviceInterruptEnable`
unfoldable pub interrupt_enable : (bits : ℕ) → DeviceContext → DeviceContext
interrupt_enable bits c = want (bit_or c.interrupts_wanted bits) c

-- `DeviceInterruptDisable`
unfoldable pub interrupt_disable : (bits : ℕ) → DeviceContext → DeviceContext
interrupt_disable bits c = want (clear c.interrupts_wanted bits) c

-- `newInterruptStatus` of the interrupt routine, from the two status registers.
unfoldable pub new_status : (mac channel0 : ℕ) → ℕ
new_status mac channel0 =
    bit_or (or_if (flag mac mac_link_status) (mask (interrupt_link_status ∷ [])) 0)
      (clear channel0 (mask (interrupt_link_status ∷ [])))

-- What is still wanted once these bits are handled.
unfoldable pub still_wanted : (status wanted : ℕ) → ℕ
still_wanted status wanted =
    let rx = if flag status channel_rx then clear wanted (mask (interrupts_rx ∷ [])) else wanted in
    if flag status channel_tx then clear rx (mask (interrupts_tx ∷ [])) else rx

-- `DeviceInterruptIsr`, with what the two status registers answer.
unfoldable pub interrupt_isr : (mac channel0 : ℕ) → DeviceContext → DeviceContext × Bool
interrupt_isr mac channel0 c =
    let status = new_status mac channel0 in
    if status == 0
    then (record c { isr_ignored = u32 (c.isr_ignored + 1) }, false)
    else (let g = interrupt_set 0 (record c { cleared = channel0 ∷ c.cleared }) in
        (
          record g {
            interrupts_wanted = still_wanted status c.interrupts_wanted;
            interrupt_status = bit_or c.interrupt_status status;
            told = dpc_queued ∷ c.told;
            isr_handled = u32 (c.isr_handled + 1);
          },
          true,
        ))

-- `DeviceInterruptDpc`, the first lines of a turn of its loop: the status that it takes.
unfoldable pub dpc_take : DeviceContext → DeviceContext × ℕ
dpc_take c = (record c { interrupt_status = 0 }, c.interrupt_status)

-- The parts of a turn: the link, the queues, the errors, and the interrupts again.
unfoldable pub dpc_link : (status : ℕ) → DeviceContext → DeviceContext
dpc_link status c =
    if flag status interrupt_link_status
    then record c { dpc_link_state = u32 (c.dpc_link_state + 1); told = link_work_queued ∷ c.told }
    else c

unfoldable pub dpc_notify_rx : (status : ℕ) → DeviceContext → DeviceContext
dpc_notify_rx status c =
    if c.rx_queue && flag status channel_rx
    then record c { dpc_rx = u32 (c.dpc_rx + 1); told = more_received ∷ c.told; rx_queue = false }
    else c

unfoldable pub dpc_notify_tx : (status : ℕ) → DeviceContext → DeviceContext
dpc_notify_tx status c =
    if c.tx_queue && flag status channel_tx
    then record c { dpc_tx = u32 (c.dpc_tx + 1); told = more_completed ∷ c.told; tx_queue = false }
    else c

abbrev as_count : Bool → ℕ
as_count b = if b then 1 else 0

unfoldable pub dpc_errors : (status : ℕ) → DeviceContext → DeviceContext
dpc_errors status c =
    if flag status channel_abnormal_summary || flag status channel_fatal_bus_error
    then record c {
      dpc_abnormal_status =
          u32 (c.dpc_abnormal_status + as_count (flag status channel_abnormal_summary));
      dpc_fatal_bus_error =
          u32 (c.dpc_fatal_bus_error + as_count (flag status channel_fatal_bus_error));
    }
    else c

unfoldable pub dpc_rearm : DeviceContext → DeviceContext
dpc_rearm c = if not (c.interrupts_wanted == 0) then interrupt_set c.interrupts_wanted c else c

-- A turn of the loop for a status that is not 0, up to the lock of the interrupt: the queues are told
-- under the lock of the queues, which no interrupt takes. Behind it is `dpc_rearm`.
unfoldable pub dpc_handle : (status : ℕ) → DeviceContext → DeviceContext
dpc_handle status c =
    let linked = dpc_link status c in
    let told =
      if flag status channel_rx || flag status channel_tx
      then dpc_notify_tx status (dpc_notify_rx status linked)
      else linked in
    dpc_errors status told

-- `DeviceSetNotificationRxQueue` in its two halves, and the one for the other queue.
unfoldable pub set_rx_queue : (queue : Bool) → DeviceContext → DeviceContext
set_rx_queue queue c = record c { rx_queue = queue }

unfoldable pub arm_rx : (queue : Bool) → DeviceContext → DeviceContext
arm_rx queue c =
    if queue
    then interrupt_enable (mask (interrupts_rx ∷ [])) c
    else interrupt_disable (mask (interrupts_rx ∷ [])) c

unfoldable pub set_tx_queue : (queue : Bool) → DeviceContext → DeviceContext
set_tx_queue queue c = record c { tx_queue = queue }

unfoldable pub arm_tx : (queue : Bool) → DeviceContext → DeviceContext
arm_tx queue c =
    if queue
    then interrupt_enable (mask (interrupts_tx ∷ [])) c
    else interrupt_disable (mask (interrupts_tx ∷ [])) c

-- `DeviceAddStatisticsRxQueue`, `DeviceAddStatisticsTxQueue`
unfoldable pub add_statistics_rx :
    (own_descriptors done_fragments : ℕ) → DeviceContext → DeviceContext
add_statistics_rx own_descriptors done_fragments c = record c {
  rx_own_descriptors = u32 (c.rx_own_descriptors + own_descriptors);
  rx_done_fragments = u32 (c.rx_done_fragments + done_fragments);
}

unfoldable pub add_statistics_tx : (done_fragments : ℕ) → DeviceContext → DeviceContext
add_statistics_tx done_fragments c = record c {
  tx_done_fragments = u32 (c.tx_done_fragments + done_fragments);
}

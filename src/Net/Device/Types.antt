-- ===== src/Net/Device/Types.antt =====
-- drivers/net/dwc_eqos/device.cpp: the context of the device, what it wants of its interrupts.
use woa_rk.Base.{ℕ, Bool, List}

-- What the driver tells the framework.
pub data Notification : Type 0 where
  dpc_queued link_work_queued more_received more_completed : Notification

-- `DeviceContext`: the members that interrupts and notifications use. `mac_enable` and
-- `channel_enable` are what was last stored in Mac_Interrupt_Enable and in
-- Dma_Ch[0].Interrupt_Enable, `cleared` what was stored in Dma_Ch[0].Status, the last first, and
-- `told` the calls of the framework. Whether a queue waits stands for the queue's handle.
pub record DeviceContext : Type 0 where
  pub interrupt_status : ℕ
  pub interrupts_wanted : ℕ
  pub rx_queue : Bool
  pub tx_queue : Bool
  pub isr_handled : ℕ
  pub isr_ignored : ℕ
  pub dpc_link_state : ℕ
  pub dpc_rx : ℕ
  pub dpc_tx : ℕ
  pub dpc_abnormal_status : ℕ
  pub dpc_fatal_bus_error : ℕ
  pub rx_own_descriptors : ℕ
  pub rx_done_fragments : ℕ
  pub tx_done_fragments : ℕ
  pub mac_enable : ℕ
  pub channel_enable : ℕ
  pub cleared : List ℕ
  pub told : List Notification

-- The bits of `InterruptsWanted`.
abbrev pub interrupts_state : ℕ
interrupts_state = 0

abbrev pub interrupts_rx : ℕ
interrupts_rx = 1

abbrev pub interrupts_tx : ℕ
interrupts_tx = 2

-- The bits of `ChannelStatus_t` and `ChannelInterruptEnable_t`.
abbrev pub channel_tx : ℕ
channel_tx = 0

abbrev pub channel_rx : ℕ
channel_rx = 6

abbrev pub channel_fatal_bus_error : ℕ
channel_fatal_bus_error = 12

abbrev pub channel_abnormal_summary : ℕ
channel_abnormal_summary = 14

abbrev pub channel_normal_summary : ℕ
channel_normal_summary = 15

-- The bit of `MacInterruptStatus_t` and `MacInterruptEnable_t`, and `InterruptLinkStatus`.
abbrev pub mac_link_status : ℕ
mac_link_status = 0

abbrev pub interrupt_link_status : ℕ
interrupt_link_status = 31

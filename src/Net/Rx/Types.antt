-- ===== src/Net/Rx/Types.antt =====
-- The state of rxqueue.cpp, the receive descriptors of descriptors.h, and the channel registers
-- that the queue uses.
use woa_rk.Base.{ℕ, ◌+◌, ◌/◌, ◌%◌, ◌^◌, Bool, field, flag}
use woa_rk.Net.Adapter.{NetRing, NetPacket, NetFragment, RxChecksum, RxTag}

-- `RxDescriptor`, the union, by its four words.
pub record RxDescriptor : Type 0 where
  pub rdes0 : ℕ
  pub rdes1 : ℕ
  pub rdes2 : ℕ
  pub rdes3 : ℕ

-- The members of `RxDescriptorWrite` that the queue reads.
abbrev pub outer_vlan_tag : RxDescriptor → ℕ
outer_vlan_tag d = field d.rdes0 0 16

abbrev pub payload_type : RxDescriptor → ℕ
payload_type d = field d.rdes1 0 3

abbrev pub ip_header_error : RxDescriptor → Bool
ip_header_error d = flag d.rdes1 3

abbrev pub ipv4_header_present : RxDescriptor → Bool
ipv4_header_present d = flag d.rdes1 4

abbrev pub ipv6_header_present : RxDescriptor → Bool
ipv6_header_present d = flag d.rdes1 5

abbrev pub ip_payload_error : RxDescriptor → Bool
ip_payload_error d = flag d.rdes1 7

abbrev pub packet_length : RxDescriptor → ℕ
packet_length d = field d.rdes3 0 15

abbrev pub error_summary : RxDescriptor → Bool
error_summary d = flag d.rdes3 15

abbrev pub rdes0_valid : RxDescriptor → Bool
rdes0_valid d = flag d.rdes3 25

abbrev pub last_descriptor : RxDescriptor → Bool
last_descriptor d = flag d.rdes3 28

abbrev pub first_descriptor : RxDescriptor → Bool
first_descriptor d = flag d.rdes3 29

abbrev pub context_type : RxDescriptor → Bool
context_type d = flag d.rdes3 30

abbrev pub own : RxDescriptor → Bool
own d = flag d.rdes3 31

-- `RxDescriptorRead` with `Buf1Valid`, `InterruptOnCompletion` and `Own` set, over the buffer at
-- a 64-bit address.
abbrev pub read_descriptor : ℕ → RxDescriptor
read_descriptor address = record {
  rdes0 = address % 2 ^ 32;
  rdes1 = address / 2 ^ 32;
  rdes2 = 0;
  rdes3 = 2 ^ 24 + 2 ^ 30 + 2 ^ 31;
}

-- `ChannelRxControl_t`, the members that the queue sets.
pub record RxControl : Type 0 where
  pub start : Bool
  pub receive_buffer_size : ℕ
  pub rx_pbl : ℕ
  pub rx_packet_flush : Bool

-- The receive registers of `ChannelRegisters`. The device moves `current_app_rx_desc`.
pub record RxRegisters : Type 0 where
  pub list_address_hi : ℕ
  pub list_address : ℕ
  pub ring_length : ℕ
  pub tail_pointer : ℕ
  pub current_app_rx_desc : ℕ
  pub rx_control : RxControl

-- `RxQueueContext`, with the memory that it points to.
pub record RxQueue : Type 0 where
  pub regs : RxRegisters
  pub packet_ring : NetRing
  pub fragment_ring : NetRing
  pub packets : ℕ → NetPacket
  pub fragments : ℕ → NetFragment
  pub tags : ℕ → RxTag
  pub checksums : ℕ → RxChecksum
  pub logical_address : ℕ → ℕ
  pub descriptors : ℕ → RxDescriptor
  pub desc_physical_low : ℕ
  pub desc_physical_high : ℕ
  pub desc_count : ℕ
  pub rx_buffer_size : ℕ
  pub rx_pbl : ℕ
  pub running : Bool
  pub desc_begin : ℕ
  pub desc_end : ℕ

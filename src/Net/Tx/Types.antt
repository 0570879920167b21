-- ===== src/Net/Tx/Types.antt =====
-- The state of txqueue.cpp, the transmit descriptors of descriptors.h, and the channel registers
-- that the queue uses.
use woa_rk.Base.{ℕ, ◌+◌, ◌*◌, ◌%◌, ◌^◌, Bool, if◌then◌else◌, flag}
use woa_rk.Net.Adapter.{NetRing, NetPacket, NetFragment}

-- `TxDescriptor`, the union, by its four words.
pub record TxDescriptor : Type 0 where
  pub tdes0 : ℕ
  pub tdes1 : ℕ
  pub tdes2 : ℕ
  pub tdes3 : ℕ

-- The members of `TxDescriptorWrite` that the queue acts on.
abbrev pub last_descriptor : TxDescriptor → Bool
last_descriptor d = flag d.tdes3 28

abbrev pub context_type : TxDescriptor → Bool
context_type d = flag d.tdes3 30

unfoldable pub own : TxDescriptor → Bool
own d = flag d.tdes3 31

abbrev pub bit : Bool → ℕ
bit b = if b then 1 else 0

-- `TxDescriptorRead`, the members that the queue sets.
pub record TxRead : Type 0 where
  pub buf1_ap : ℕ
  pub buf2_ap : ℕ
  pub buf1_length : ℕ
  pub vlan_tag_control : ℕ
  pub interrupt_on_completion : Bool
  pub frame_length : ℕ
  pub checksum_insertion : ℕ
  pub last : Bool
  pub first : Bool

unfoldable pub read_words : TxRead → TxDescriptor
read_words d = record {
  tdes0 = d.buf1_ap % 2 ^ 32;
  tdes1 = d.buf2_ap % 2 ^ 32;
  tdes2 =
      d.buf1_length % 2 ^ 14
      + d.vlan_tag_control % 4 * 2 ^ 14
      + bit d.interrupt_on_completion * 2 ^ 31;
  tdes3 =
      d.frame_length % 2 ^ 16
      + d.checksum_insertion % 4 * 2 ^ 16
      + bit d.last * 2 ^ 28
      + bit d.first * 2 ^ 29
      + 2 ^ 31;
}

-- `TxDescriptorReadTso`, the members that the queue sets; the segmentation, the first
-- descriptor and the owner's bit are always set.
pub record TxReadTso : Type 0 where
  pub buf1_ap : ℕ
  pub buf2_ap : ℕ
  pub buf1_length : ℕ
  pub vlan_tag_control : ℕ
  pub tcp_payload_length : ℕ
  pub tcp_header_length : ℕ

unfoldable pub tso_words : TxReadTso → TxDescriptor
tso_words d = record {
  tdes0 = d.buf1_ap % 2 ^ 32;
  tdes1 = d.buf2_ap % 2 ^ 32;
  tdes2 = d.buf1_length % 2 ^ 14 + d.vlan_tag_control % 4 * 2 ^ 14;
  tdes3 =
      d.tcp_payload_length % 2 ^ 18 + 2 ^ 18 + d.tcp_header_length % 16 * 2 ^ 19 + 2 ^ 29 + 2 ^ 31;
}

-- `TxDescriptorContext`, the members that the queue sets.
pub record TxContext : Type 0 where
  pub maximum_segment_size : ℕ
  pub vlan_tag : ℕ
  pub vlan_tag_valid : Bool
  pub one_step_input_or_mss_valid : Bool

unfoldable pub context_words : TxContext → TxDescriptor
context_words d = record {
  tdes0 = 0;
  tdes1 = 0;
  tdes2 = d.maximum_segment_size % 2 ^ 14;
  tdes3 =
      d.vlan_tag % 2 ^ 16
      + bit d.vlan_tag_valid * 2 ^ 16
      + bit d.one_step_input_or_mss_valid * 2 ^ 26
      + 2 ^ 30
      + 2 ^ 31;
}

-- `NET_PACKET_IEEE8021Q` on transmit, with the two flags of `TxTagging` that the queue tests.
pub record TxTag : Type 0 where
  pub priority_required : Bool
  pub vlan_required : Bool
  pub priority_code_point : ℕ
  pub vlan_identifier : ℕ

-- `NET_PACKET_CHECKSUM` on transmit: whether the layer's action is not zero.
pub record TxChecksum : Type 0 where
  pub layer3 : Bool
  pub layer4 : Bool

-- `ChannelTxControl_t`, the members that the queue sets.
pub record TxControl : Type 0 where
  pub start : Bool
  pub operate_on_second_packet : Bool
  pub tcp_segmentation : Bool
  pub tcp_segmentation_mode : ℕ
  pub tx_pbl : ℕ

pub record TxRegisters : Type 0 where
  pub list_address_hi : ℕ
  pub list_address : ℕ
  pub ring_length : ℕ
  pub tail_pointer : ℕ
  pub tx_control : TxControl
  pub flush_tx_queue : Bool

-- `TxQueueContext`, with the memory that it points to. `gso` is `TCP.Mss` of each packet.
pub record TxQueue : Type 0 where
  pub regs : TxRegisters
  pub packet_ring : NetRing
  pub fragment_ring : NetRing
  pub packets : ℕ → NetPacket
  pub fragments : ℕ → NetFragment
  pub tags : ℕ → TxTag
  pub gso : ℕ → ℕ
  pub checksums : ℕ → TxChecksum
  pub logical_address : ℕ → ℕ
  pub descriptors : ℕ → TxDescriptor
  pub desc_physical_low : ℕ
  pub desc_physical_high : ℕ
  pub desc_count : ℕ
  pub vlan_id : ℕ
  pub tx_pbl : ℕ
  pub last_mss : ℕ
  pub last_vlan_tag : ℕ
  pub desc_begin : ℕ
  pub desc_end : ℕ

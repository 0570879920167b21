-- ===== src/Net/Rx/Packet.antt =====
-- The body of the first loop of `RxQueueAdvance`: what one received descriptor makes of the
-- packet and the fragment at the head of the rings.
use woa_rk.Base.{
  ℕ, ◌+◌, ◌/◌, ◌%◌, ◌^◌, Bool, true, not, ◌&&◌, ◌||◌, ◌==◌, if◌then◌else◌, update, u64,
}
use woa_rk.Net.Adapter.{
  NetAdapter, NetPacket, NetPacketLayout, Layer2Type, Layer3Type, Layer4Type, Evaluation,
  RxChecksum, RxTag, NetFragment, no_layout,
}
use woa_rk.Net.Rx.Types.{
  RxDescriptor, RxQueue, outer_vlan_tag, payload_type, ip_header_error, ipv4_header_present,
  ipv6_header_present, ip_payload_error, packet_length, error_summary, rdes0_valid, last_descriptor,
  first_descriptor, context_type,
}

-- The descriptor holds no whole packet without an error.
unfoldable pub is_dropped : RxDescriptor → Bool
is_dropped d =
    error_summary d || context_type d || not (first_descriptor d) || not (last_descriptor d)

-- `RxPayloadTypeUdp` is 1 and `RxPayloadTypeTcp` is 2.
abbrev pub payload_layer4 : ℕ → Layer4Type
payload_layer4 t =
    if t == 1 then Layer4Type.udp else if t == 2 then Layer4Type.tcp else Layer4Type.unspecified

abbrev pub evaluation : Bool → Evaluation
evaluation error = if error then Evaluation.invalid else Evaluation.valid

unfoldable pub has_ip_header : RxDescriptor → Bool
has_ip_header d = ipv4_header_present d || ipv6_header_present d

unfoldable pub received_layout : RxDescriptor → NetPacketLayout
received_layout d =
    if has_ip_header d
    then record no_layout {
      layer2_type = Layer2Type.ethernet;
      layer3_type =
          if ipv4_header_present d
          then Layer3Type.ipv4_unspecified_options
          else Layer3Type.ipv6_unspecified_extensions;
      layer4_type = payload_layer4 (payload_type d);
    }
    else no_layout

abbrev pub received_checksum : RxDescriptor → RxChecksum
received_checksum d = record {
  layer2 = Evaluation.valid;
  layer3 = evaluation (ip_header_error d);
  layer4 = evaluation (ip_payload_error d);
}

unfoldable pub has_tag : RxDescriptor → Bool
has_tag d = rdes0_valid d && not (outer_vlan_tag d == 0)

-- What the body makes of the packet `old`, whose buffer is the fragment `frag`.
unfoldable pub received_packet : RxDescriptor → ℕ → NetPacket → NetPacket
received_packet d frag old =
    if is_dropped d
    then record old { fragment_index = frag; fragment_count = 1; layout = no_layout; ignore = true }
    else record old { fragment_index = frag; fragment_count = 1; layout = received_layout d }

module _ (net : NetAdapter) where
  -- `PacketLength - 4` as an `int`, converted to the bit field `ValidLength`.
  unfoldable pub received_fragment : RxDescriptor → NetFragment
  received_fragment d = if is_dropped d then record { valid_length = 0; offset = 0 } else record {
    valid_length = u64 (packet_length d + 18446744073709551612) % 2 ^ net.valid_length_bits;
    offset = 0;
  }

  unfoldable pub received_tag : RxDescriptor → RxTag → RxTag
  received_tag d old =
      if not (is_dropped d) && has_tag d
      then record {
        priority_code_point = outer_vlan_tag d / 2 ^ 13;
        vlan_identifier = outer_vlan_tag d % 2 ^ net.vlan_identifier_bits;
      }
      else old

  unfoldable pub received_evaluation : RxDescriptor → RxChecksum → RxChecksum
  received_evaluation d old =
      if not (is_dropped d) && has_ip_header d then received_checksum d else old

  -- The whole body but for the three increments, for the descriptor `d` and the two indices.
  unfoldable pub receive : RxQueue → RxDescriptor → ℕ → ℕ → RxQueue
  receive q d pkt frag = record q {
    packets = update q.packets pkt (received_packet d frag (q.packets pkt));
    fragments = update q.fragments frag (received_fragment d);
    tags = update q.tags pkt (received_tag d (q.tags pkt));
    checksums = update q.checksums pkt (received_evaluation d (q.checksums pkt));
  }

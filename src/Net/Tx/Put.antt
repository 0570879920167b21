-- ===== src/Net/Tx/Put.antt =====
-- The part of `TxQueueAdvance` that fills descriptors for one packet: the context descriptor,
-- then either the header and the buffers of a segmented packet, or one descriptor per fragment.
use woa_rk.Base.{
  ℕ, zero, suc, ◌+◌, ◌-◌, ◌*◌, ◌/◌, ◌^◌, Bool, true, false, not, ◌&&◌, ◌||◌, ltb, ◌==◌,
  if◌then◌else◌, Option, none, some, update, u16, u32, u64, bit_or,
}
use woa_rk.Net.Adapter.{NetAdapter, NetPacketLayout}
use woa_rk.Net.Queue.{descriptor_length_max}
use woa_rk.Net.Index.{desc_next}
use woa_rk.Net.Tx.Types.{TxDescriptor, TxQueue, bit, read_words, tso_words, context_words}

-- A store to `descVirtual[descIndex]` and the step to the next index.
unfoldable pub emit : TxDescriptor → TxQueue × ℕ → TxQueue × ℕ
emit d (q, i) = (record q { descriptors = update q.descriptors i d }, desc_next q.desc_count i)

-- `vlanTag`
unfoldable pub vlan_tag : TxQueue → ℕ → ℕ
vlan_tag q pkt =
    let tag = q.tags pkt in
    let priority = if tag.priority_required then tag.priority_code_point else 0 in
    let vlan = if tag.vlan_required then tag.vlan_identifier else q.vlan_id in
    u16 (bit_or (priority * 2 ^ 13) vlan)

-- `vlanTagControl`: `TxVlanTagControlNone` or `TxVlanTagControlInsert`.
abbrev pub tag_control : ℕ → ℕ
tag_control tag = if tag == 0 then 0 else 2

-- `contextTagNeeded`
unfoldable pub context_tag_needed : TxQueue → ℕ → Bool
context_tag_needed q pkt = not (vlan_tag q pkt == 0) && not (vlan_tag q pkt == q.last_vlan_tag)

-- `gsoMss`
unfoldable pub gso_mss : TxQueue → ℕ → ℕ
gso_mss q pkt = u16 (q.gso pkt)

-- `contextNeeded`
unfoldable pub context_needed : TxQueue → ℕ → Bool
context_needed q pkt = context_tag_needed q pkt || not (gso_mss q pkt == q.last_mss)

unfoldable pub header_length : NetPacketLayout → ℕ
header_length l = u16 (l.layer2_header_length + l.layer3_header_length + l.layer4_header_length)

unfoldable pub fragment_length : TxQueue → ℕ → ℕ
fragment_length q frag = u32 (q.fragments frag).valid_length

-- The stores to `lastMss` and `lastVlanTag`.
abbrev remember : ℕ → ℕ → TxQueue × ℕ → TxQueue × ℕ
remember mss tag (q, i) = (record q { last_mss = mss; last_vlan_tag = tag }, i)

-- The context descriptor of a segmented packet, if it needs one.
unfoldable pub put_tso_context : ℕ → TxQueue × ℕ → TxQueue × ℕ
put_tso_context pkt (q, i) =
    if context_needed q pkt
    then remember (gso_mss q pkt)
        (if context_tag_needed q pkt then vlan_tag q pkt else q.last_vlan_tag)
        (emit
          (context_words (record {
            maximum_segment_size = gso_mss q pkt;
            vlan_tag = vlan_tag q pkt;
            vlan_tag_valid = context_tag_needed q pkt;
            one_step_input_or_mss_valid = true;
          }))
          (q, i))
    else (q, i)

-- The context descriptor of a packet that is not segmented, if it needs one.
unfoldable pub put_plain_context : ℕ → TxQueue × ℕ → TxQueue × ℕ
put_plain_context pkt (q, i) =
    if context_tag_needed q pkt
    then remember q.last_mss (vlan_tag q pkt) (
        emit
          (context_words (record {
            maximum_segment_size = 0;
            vlan_tag = vlan_tag q pkt;
            vlan_tag_valid = true;
            one_step_input_or_mss_valid = false;
          }))
          (q, i))
    else (q, i)

-- `checksumInsertion`: including the pseudo header, the header only, or disabled.
abbrev pub checksum_insertion : TxQueue → ℕ → ℕ
checksum_insertion q pkt =
    let c = q.checksums pkt in if c.layer4 then 3 else if c.layer3 then 1 else 0

-- `bufLength`
abbrev pub buffer_length : ℕ → ℕ → ℕ
buffer_length length pos =
    let left = u32 (length + 2 ^ 32 - pos) in
    if ltb left descriptor_length_max then u16 left else descriptor_length_max

-- The descriptor of the buffer of a segmented packet that begins at `pos` of its fragment.
abbrev pub buffer_read :
    (control : ℕ) (last_fragment : Bool) (address length pos : ℕ) → TxDescriptor
buffer_read control last_fragment address length pos =
    let here = u64 (address + pos) in
    let last = u32 (pos + buffer_length length pos) == length && last_fragment in
    read_words (record {
      buf1_ap = here;
      buf2_ap = here / 2 ^ 32;
      buf1_length = buffer_length length pos;
      vlan_tag_control = control;
      interrupt_on_completion = last;
      frame_length = 0;
      checksum_insertion = 0;
      last = last;
      first = false;
    })

module _ (net : NetAdapter) where
  -- `packetLength` and `userDescriptorsNeeded`, over the fragments that are left.
  unfoldable pub measure : TxQueue → ℕ → ℕ → ℕ × ℕ → ℕ × ℕ
  measure q zero frag (length, needed) = (length, needed)
  measure q (suc left) frag (length, needed) = measure q left (net.increment q.fragment_ring frag) (
    u32 (length + fragment_length q frag),
    u32 (
        needed
        + u32 (fragment_length q frag + (descriptor_length_max - 1)) / descriptor_length_max),
  )

  -- `frameLength`
  unfoldable pub frame_length : TxQueue → ℕ → ℕ → ℕ → ℕ
  frame_length q zero frag length = length
  frame_length q (suc left) frag length =
      frame_length q left (net.increment q.fragment_ring frag)
        (u32 (length + fragment_length q frag))

  -- The descriptors that the queue asks for before it fills any for the packet.
  unfoldable pub needed : TxQueue → ℕ → ℕ
  needed q pkt =
      let p = q.packets pkt in
      if gso_mss q pkt == 0
      then u32 (p.fragment_count + bit (context_tag_needed q pkt))
      else u32
          ((measure q p.fragment_count p.fragment_index (0, 0)).1 + bit (context_needed q pkt) + 1)

  -- The loop over the buffers of one fragment of a segmented packet, from `pos` on.
  unfoldable pub put_buffers :
      ℕ
      → (control : ℕ) (last_fragment : Bool) (address length pos : ℕ) → TxQueue × ℕ
      → Option (TxQueue × ℕ)
  put_buffers zero control last_fragment address length pos s = none
  put_buffers (suc fuel) control last_fragment address length pos s =
      let rest =
        put_buffers fuel control last_fragment address length (u32 (pos + buffer_length length pos))
          (emit (buffer_read control last_fragment address length pos) s) in
      if pos == length then some s else rest

  -- The loop over the fragments of a segmented packet; `start` is `nextFragmentStart`.
  unfoldable pub put_fragments :
      (left i count control frag start : ℕ) → TxQueue × ℕ → Option (TxQueue × ℕ)
  put_fragments zero i count control frag start s = some s
  put_fragments (suc left) i count control frag start (q, j) =
      elim (put_buffers (fragment_length q frag + 1) control (i == u32 (count + 4294967295))
        (q.logical_address frag) (fragment_length q frag) start (q, j)) [
          | none ↦ none
          | some s ↦
              put_fragments left (u32 (i + 1)) count control (net.increment q.fragment_ring frag) 0
                s
        ]

  -- The loop over the fragments of a packet that is not segmented.
  unfoldable pub put_plain :
      (left i count control frame checksum frag : ℕ) → TxQueue × ℕ → TxQueue × ℕ
  put_plain zero i count control frame checksum frag s = s
  put_plain (suc left) i count control frame checksum frag (q, j) =
      put_plain left (u32 (i + 1)) count control frame checksum (net.increment q.fragment_ring frag)
        (emit
          (read_words (record {
            buf1_ap = q.logical_address frag;
            buf2_ap = q.logical_address frag / 2 ^ 32;
            buf1_length = (q.fragments frag).valid_length;
            vlan_tag_control = control;
            interrupt_on_completion = i == u32 (count + 4294967295);
            frame_length = frame;
            checksum_insertion = checksum;
            last = i == u32 (count + 4294967295);
            first = i == 0;
          }))
          (q, j))

  -- The header descriptor of a segmented packet.
  unfoldable pub put_header : ℕ → ℕ → TxQueue × ℕ → TxQueue × ℕ
  put_header pkt control (q, i) =
      let p = q.packets pkt in
      let length = (measure q p.fragment_count p.fragment_index (0, 0)).0 in
      emit
        (tso_words (record {
          buf1_ap = q.logical_address p.fragment_index;
          buf2_ap = q.logical_address p.fragment_index / 2 ^ 32;
          buf1_length = header_length p.layout;
          vlan_tag_control = control;
          tcp_payload_length = u32 (length + 2 ^ 32 - header_length p.layout);
          tcp_header_length = p.layout.layer4_header_length / 4;
        }))
        (q, i)

  -- All the descriptors of one packet.
  unfoldable pub put : ℕ → TxQueue × ℕ → Option (TxQueue × ℕ)
  put pkt (q, i) =
      let p = q.packets pkt in
      let control = tag_control (vlan_tag q pkt) in
      if gso_mss q pkt == 0
      then some (
          put_plain p.fragment_count 0 p.fragment_count control
            (u16 (frame_length q p.fragment_count p.fragment_index 0)) (checksum_insertion q pkt)
            p.fragment_index (put_plain_context pkt (q, i)))
      else put_fragments p.fragment_count 0 p.fragment_count control p.fragment_index
          (header_length p.layout) (put_header pkt control (put_tso_context pkt (q, i)))

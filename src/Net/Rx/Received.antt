-- ===== src/Net/Rx/Received.antt =====
-- What the body of the first loop of `RxQueueAdvance` reports of one descriptor.
use native.Mathlib.Nat.{mod-eq_of_lt, pow-le-pow_right}
use woa_rk.Base.{
  ℕ, ◌+◌, ◌-◌, ◌%◌, ◌||◌, not, ◌^◌, ◌≤◌, ◌<◌, ◌≡◌, refl, inl, inr, Bool-cases, true, false,
  if◌then◌else◌, u64, ap, ◌∙◌, arith, Bool, flag, field,
}
use woa_rk.Net.Adapter.{
  NetAdapter, IsNetAdapter, Evaluation, NetPacket, NetFragment, RxChecksum, no_layout,
}
use woa_rk.Net.Rx.Types.{RxDescriptor, RxQueue, packet_length, ip_header_error, ip_payload_error}
use woa_rk.Net.Rx.Packet.{
  is_dropped, has_ip_header, received_layout, received_packet, received_fragment,
  received_evaluation, receive,
}
use woa_rk.Net.Rx.Deliver.{update_self}

packet_dropped :
    (d : RxDescriptor) (frag : ℕ) (old : NetPacket)
    → is_dropped d ≡ true
    → received_packet d frag old
      ≡ record { fragment_index = frag; fragment_count = 1; layout = no_layout; ignore = true }
unfolding received_packet
packet_dropped d frag old e = rw e

packet_whole :
    (d : RxDescriptor) (frag : ℕ) (old : NetPacket)
    → is_dropped d ≡ false
    → received_packet d frag old
      ≡ record old { fragment_index = frag; fragment_count = 1; layout = received_layout d }
unfolding received_packet
packet_whole d frag old e = rw e

packet_one :
    (d : RxDescriptor) (frag : ℕ) (old : NetPacket)
    → ((received_packet d frag old).fragment_index ≡ frag)
      × ((received_packet d frag old).fragment_count ≡ 1)
packet_one d frag old = elim (Bool-cases (is_dropped d)) [
  | inl e ↦ rw (packet_dropped d frag old e) (refl, refl)
  | inr e ↦ rw (packet_whole d frag old e) (refl, refl)
]

ignore_lem :
    (d : RxDescriptor) (frag : ℕ) (old : NetPacket)
    → (received_packet d frag old).ignore ≡ (is_dropped d || old.ignore)
ignore_lem d frag old = elim (Bool-cases (is_dropped d)) [
  | inl e ↦ rw (packet_dropped d frag old e, e) refl
  | inr e ↦ rw (packet_whole d frag old e, e) refl
]

evaluation_lem :
    (net : NetAdapter) (d : RxDescriptor) (old : RxChecksum)
    → ((received_evaluation net d old).layer3 ≡ (
        if is_dropped d || not (has_ip_header d)
        then old.layer3
        else if ip_header_error d
        then Evaluation.invalid
        else Evaluation.valid))
      × ((received_evaluation net d old).layer4 ≡ (
          if is_dropped d || not (has_ip_header d)
          then old.layer4
          else if ip_payload_error d
          then Evaluation.invalid
          else Evaluation.valid))
unfolding received_evaluation
evaluation_lem net d old = elim (Bool-cases (is_dropped d)) [
  | inl e ↦ rw e (refl, refl)
  | inr e ↦ elim (Bool-cases (has_ip_header d)) [
    | inl h ↦ rw (e, h) (refl, refl)
    | inr h ↦ rw (e, h) (refl, refl)
  ]
]

-- The bits of a descriptor that was written back: an error, a context, no first or no last buffer
-- of a packet; and an IPv4 or an IPv6 header.
abbrev pub no_packet : RxDescriptor → Bool
no_packet d = flag d.rdes3 15 || flag d.rdes3 30 || not (flag d.rdes3 29) || not (flag d.rdes3 28)

abbrev pub ip_present : RxDescriptor → Bool
ip_present d = flag d.rdes1 4 || flag d.rdes1 5

-- What the descriptor `d` says of the packet `p` with the checksums `c`, that were `old` and
-- `old_c`, and of its one fragment `f`, at the index `frag`.
pub record Says (d : RxDescriptor) (frag : ℕ) (old : NetPacket) (old_c : RxChecksum) (p : NetPacket)
    (f : NetFragment) (c : RxChecksum) : Type 0 where
  pub index : p.fragment_index ≡ frag
  pub one : p.fragment_count ≡ 1
  pub ignored : p.ignore ≡ (no_packet d || old.ignore)
  pub length :
      4 ≤ field d.rdes3 0 15 → f.valid_length ≡ (if no_packet d then 0 else field d.rdes3 0 15 - 4)
  pub layer3 : c.layer3 ≡ (
      if no_packet d || not (ip_present d)
      then old_c.layer3
      else if flag d.rdes1 3
      then Evaluation.invalid
      else Evaluation.valid)
  pub layer4 : c.layer4 ≡ (
      if no_packet d || not (ip_present d)
      then old_c.layer4
      else if flag d.rdes1 7
      then Evaluation.invalid
      else Evaluation.valid)

module _ (net : NetAdapter) (laws : IsNetAdapter net) where
  length_fits : (x : ℕ) → x < 32768 → x % 2 ^ net.valid_length_bits ≡ x
  length_fits x h =
      let wide : 2 ^ 15 ≤ 2 ^ net.valid_length_bits =
        pow-le-pow_right (omega arith) laws.length_fits.0 in
      mod-eq_of_lt (omega (arith, wide))

  fragment_dropped :
      (d : RxDescriptor)
      → is_dropped d ≡ true
      → received_fragment net d ≡ record { valid_length = 0; offset = 0 }
  unfolding received_fragment
  fragment_dropped d e = rw e

  fragment_whole :
      (d : RxDescriptor)
      → is_dropped d ≡ false
      → 4 ≤ packet_length d
      → (received_fragment net d).valid_length + 4 ≡ packet_length d
  unfolding received_fragment
  fragment_whole d e h =
      let short : u64 (packet_length d + 18446744073709551612) + 4 ≡ packet_length d =
        omega arith in
      rw e (
        omega (
          arith,
          length_fits (u64 (packet_length d + 18446744073709551612)) (omega (arith, short)),
          short,
        ))

  valid_length_lem :
      (d : RxDescriptor)
      → 4 ≤ packet_length d
      → (received_fragment net d).valid_length ≡ (if is_dropped d then 0 else packet_length d - 4)
  valid_length_lem d h = elim (Bool-cases (is_dropped d)) [
    | inl e ↦ rw (fragment_dropped d e, e) refl
    | inr e ↦ rw e (omega (arith, fragment_whole d e h))
  ]

  pub received-Says :
      (d : RxDescriptor) (frag : ℕ) (old : NetPacket) (old_c : RxChecksum) (p : NetPacket)
      (f : NetFragment) (c : RxChecksum)
      → p ≡ received_packet d frag old
      → f ≡ received_fragment net d
      → c ≡ received_evaluation net d old_c
      → Says d frag old old_c p f c
  unfolding is_dropped has_ip_header
  received-Says d frag old old_c p f c e_p e_f e_c =
      let one = packet_one d frag old in
      record {
        index = ap (λ x. x.fragment_index) e_p ∙ one.0;
        one = ap (λ x. x.fragment_count) e_p ∙ one.1;
        ignored = ap (λ x. x.ignore) e_p ∙ ignore_lem d frag old;
        length = λ long. ap (λ x. x.valid_length) e_f ∙ valid_length_lem d long;
        layer3 = ap (λ x. x.layer3) e_c ∙ (evaluation_lem net d old_c).0;
        layer4 = ap (λ x. x.layer4) e_c ∙ (evaluation_lem net d old_c).1;
      }

  -- A received descriptor, whose length covers the four bytes of the CRC, makes one packet of one
  -- fragment. The packet is marked to be ignored if the descriptor reports an error, is a context, or
  -- is not both the first and the last of its packet, and else keeps its mark; the fragment has the device's length without the CRC,
  -- or none for a dropped packet; where an IPv4 or IPv6 header was detected, the checksums of the third and
  -- the fourth layer are evaluated by the error bits.
  pub receive_lem :
      (q : RxQueue) (d : RxDescriptor) (pkt frag : ℕ)
      → 4 ≤ field d.rdes3 0 15
      → let s = receive net q d pkt frag in
        ((s.packets pkt).fragment_index ≡ frag)
        × ((s.packets pkt).fragment_count ≡ 1)
        × ((s.packets pkt).ignore ≡ (no_packet d || (q.packets pkt).ignore))
        × ((s.fragments frag).valid_length ≡ (if no_packet d then 0 else field d.rdes3 0 15 - 4))
        × ((s.checksums pkt).layer3 ≡ (
            if no_packet d || not (ip_present d)
            then (q.checksums pkt).layer3
            else if flag d.rdes1 3
            then Evaluation.invalid
            else Evaluation.valid))
        × ((s.checksums pkt).layer4 ≡ (
            if no_packet d || not (ip_present d)
            then (q.checksums pkt).layer4
            else if flag d.rdes1 7
            then Evaluation.invalid
            else Evaluation.valid))
  unfolding receive is_dropped has_ip_header
  receive_lem q d pkt frag long =
      let packet = update_self q.packets pkt (received_packet d frag (q.packets pkt)) in
      let fragment = update_self q.fragments frag (received_fragment net d) in
      let checksum = update_self q.checksums pkt (received_evaluation net d (q.checksums pkt)) in
      let one = packet_one d frag (q.packets pkt) in
      (
        ap (λ p. p.fragment_index) packet ∙ one.0,
        ap (λ p. p.fragment_count) packet ∙ one.1,
        ap (λ p. p.ignore) packet ∙ ignore_lem d frag (q.packets pkt),
        ap (λ f. f.valid_length) fragment ∙ valid_length_lem d long,
        ap (λ t. t.layer3) checksum ∙ (evaluation_lem net d (q.checksums pkt)).0,
        ap (λ t. t.layer4) checksum ∙ (evaluation_lem net d (q.checksums pkt)).1,
      )

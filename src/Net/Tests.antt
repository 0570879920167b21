-- ===== src/Net/Tests.antt =====
-- The receive queue on concrete rings.
use native.Mathlib.Numerals.{add-one}
use woa_rk.Base.{
  field, flag, ℕ, zero, suc, ◌+◌, ◌-◌, ◌||◌, not, ◌*◌, ◌^◌, ◌≤◌, ◌<◌, ◌≡◌, refl, ◌∙◌, inl, true,
  false, if◌then◌else◌, ◌==◌, some, u32, update, min, max, arith,
}
use woa_rk.Net.Adapter.{NetAdapter, IsNetAdapter, NetPacket, Evaluation, no_layout, succ_mod}
use woa_rk.Net.Queue.{
  IsDescriptorCount, address_to_index, address_to_index_lem, descriptor_size, descriptor_max_count,
  descriptor_min_count, descriptor_count, descriptor_count_lem,
}
use woa_rk.Net.Ring.{dist}
use woa_rk.Net.Index.{desc_next, desc_full, desc_remaining, desc_remaining_lem}
use woa_rk.Net.Rx.Types.{RxQueue, RxDescriptor, RxControl, read_descriptor}
use woa_rk.Net.Rx.Packet.{receive}
use woa_rk.Net.Rx.Received.{no_packet, ip_present, receive_lem}
use woa_rk.Net.Rx.Advance.{
  get_desc_next, set_desc_end, start, indicate, settle, prepare, refill, refill_one, advance,
}
use woa_rk.Net.Rx.Inv.{IsValid}
use woa_rk.Net.Rx.Laws.{Advanced, advance_running}
use woa_rk.Net.Rx.Steps.{IsReset, Reach, stay, step, Step, start-IsValid, Reach-posted, received}

abbrev pub advance_by : ℕ → ℕ → ℕ → ℕ
advance_by n i zero = i
advance_by n i (suc k) = succ_mod n (advance_by n i k)

abbrev pub adapter : NetAdapter
adapter = record {
  increment = λ r i. succ_mod r.number_of_elements i;
  advance = λ r i k. advance_by r.number_of_elements i k;
  valid_length_bits = 26;
  vlan_identifier_bits = 12;
}

pub adapter-IsNetAdapter : IsNetAdapter adapter
adapter-IsNetAdapter = record {
  increment_wraps = λ r i h. refl;
  advance_none = λ r i h. refl;
  advance_one_more = λ r i k h. rw add-one refl;
  length_fits = omega arith;
}

abbrev packet : NetPacket
packet = record { fragment_index = 0; fragment_count = 0; layout = no_layout; ignore = false }

abbrev no_rx_control : RxControl
no_rx_control = record {
  start = true;
  receive_buffer_size = 2048;
  rx_pbl = 8;
  rx_packet_flush = false;
}

-- A frame of 64 bytes and its CRC over IPv4, whole and without an error.
abbrev frame : RxDescriptor
frame = record { rdes0 = 0; rdes1 = 16; rdes2 = 0; rdes3 = 2 ^ 28 + 2 ^ 29 + 68 }

abbrev empty_descriptor : RxDescriptor
empty_descriptor = record { rdes0 = 0; rdes1 = 0; rdes2 = 0; rdes3 = 0 }

-- The first of two posted descriptors was received.
abbrev queue : RxQueue
queue = record {
  regs = record {
    list_address_hi = 0;
    list_address = 65536;
    ring_length = 63;
    tail_pointer = 65664;
    current_app_rx_desc = 65600;
    rx_control = no_rx_control;
  };
  packet_ring = record { number_of_elements = 8; begin_index = 0; next_index = 0; end_index = 4 };
  fragment_ring = record { number_of_elements = 8; begin_index = 0; next_index = 2; end_index = 5 };
  packets = λ _. packet;
  fragments = λ _. record { valid_length = 2048; offset = 0 };
  tags = λ _. record { priority_code_point = 0; vlan_identifier = 0 };
  checksums = λ _. record {
    layer2 = Evaluation.not_checked;
    layer3 = Evaluation.not_checked;
    layer4 = Evaluation.not_checked;
  };
  logical_address = λ z. 4096 * z;
  descriptors = λ y. if y == 0 then frame else read_descriptor (4096 * y);
  desc_physical_low = 65536;
  desc_physical_high = 0;
  desc_count = 64;
  rx_buffer_size = 2048;
  rx_pbl = 8;
  running = true;
  desc_begin = 0;
  desc_end = 2;
}

at_one : (n y : ℕ) → 1 < n → dist n 0 y ≡ 1 → y < n → y ≡ 1
unfolding dist
at_one n y h d inside = ground arith

queue-IsValid : IsValid queue
unfolding dist get_desc_next address_to_index
queue-IsValid = record {
  count = inl refl;
  begin_in = omega arith;
  end_in = omega arith;
  next_in = omega arith;
  device = omega arith;
  pkt_begin_in = omega arith;
  pkt_end_in = omega arith;
  frag_begin_in = omega arith;
  frag_next_in = omega arith;
  frag_end_in = omega arith;
  frag_order = omega arith;
  paired = refl;
  tail = refl;
  posted = λ k y z lo hi y_in z_in dy dz.
      let one : k ≡ 1 = omega arith in
      let first : y ≡ 1 = at_one 64 y (omega arith) (dy ∙ one) y_in in
      let second : z ≡ 1 = at_one 8 z (omega arith) (dz ∙ one) z_in in rw (first, second) refl;
}

-- The same queue after `RxQueueCancel`.
abbrev stopped_queue : RxQueue
stopped_queue = record queue { running = false }

-- A queue before its first start.
abbrev fresh_queue : RxQueue
fresh_queue = record queue {
  regs = record {
    list_address_hi = 0;
    list_address = 0;
    ring_length = 0;
    tail_pointer = 0;
    current_app_rx_desc = 0;
    rx_control = no_rx_control;
  };
  fragment_ring = record { number_of_elements = 8; begin_index = 3; next_index = 3; end_index = 6 };
  descriptors = λ _. empty_descriptor;
  running = false;
  desc_end = 0;
}

fresh_queue-IsReset : IsReset fresh_queue
unfolding get_desc_next address_to_index
fresh_queue-IsReset = record {
  count = inl refl;
  device = refl;
  no_work = refl;
  pkt_begin_in = omega arith;
  pkt_end_in = omega arith;
  frag_begin_in = omega arith;
  frag_end_in = omega arith;
}

descriptor_count_examples :
    (descriptor_count 1 ≡ 64)
    × (descriptor_count 65 ≡ 128)
    × (descriptor_count 512 ≡ 512)
    × (descriptor_count 5000 ≡ 1024)
unfolding descriptor_count
descriptor_count_examples = (refl, refl, refl, refl)

descriptor_count_lem_example :
    IsDescriptorCount (descriptor_count 100)
    × (min 100 descriptor_max_count ≤ descriptor_count 100)
    × (descriptor_count 100 < 2 * max 100 descriptor_min_count)
descriptor_count_lem_example = descriptor_count_lem 100

address_to_index_lem_example : address_to_index (u32 (131072 + 1023 * descriptor_size)) ≡ 1023
address_to_index_lem_example =
    address_to_index_lem 131072 1023 (omega arith) (omega arith) (omega arith)

desc_remaining_lem_example : desc_remaining 64 3 60 ≡ 64 - 1 - dist 64 3 60
desc_remaining_lem_example = desc_remaining_lem 3 60 (inl refl) (omega arith) (omega arith)

start-IsValid_example :
    IsValid (start fresh_queue)
    × ((start fresh_queue).running ≡ true)
    × ((start fresh_queue).regs.rx_control.start ≡ true)
    × ((start fresh_queue).regs.ring_length + 1 ≡ 64)
    × ((start fresh_queue).regs.list_address ≡ fresh_queue.desc_physical_low)
    × ((start fresh_queue).regs.list_address_hi ≡ fresh_queue.desc_physical_high)
    × ((start fresh_queue).regs.tail_pointer ≡ u32 fresh_queue.desc_physical_low)
start-IsValid_example = start-IsValid fresh_queue fresh_queue-IsReset

advance_running_example :
    (s : RxQueue) × (own_count done : ℕ) × (advance adapter queue ≡ some (s, own_count, done))
    × Advanced adapter queue s done
advance_running_example = advance_running adapter adapter-IsNetAdapter queue queue-IsValid refl

-- What the first call after the start makes of it: three descriptors are posted.
abbrev posted_queue : RxQueue
unfolding start set_desc_end
posted_queue =
    let q = start fresh_queue in
    record q {
      descriptors =
          update (update (update q.descriptors 0 (read_descriptor 12288)) 1 (read_descriptor 16384))
            2 (read_descriptor 20480);
      fragment_ring = record (q.fragment_ring) { next_index = 6 };
      regs = record (q.regs) { tail_pointer = 65728 };
      desc_end = 3;
    }

first_call : advance adapter (start fresh_queue) ≡ some (posted_queue, 0, 0)
unfolding advance indicate settle prepare refill refill_one set_desc_end start get_desc_next
    address_to_index desc_next desc_full
first_call = refl

abbrev received_one : RxQueue
received_one = received posted_queue frame 65600

received_one-Reach : Reach adapter (start fresh_queue) received_one
unfolding start set_desc_end get_desc_next address_to_index
received_one-Reach =
    step (step stay (Step.driver 0 0 first_call)) (Step.device frame 65600 (omega arith) refl refl)

Reach-posted_example :
    IsValid received_one
    × (z : ℕ) × (z < 8)
    × (dist 8 3 z < dist 8 3 6)
    × (received_one.descriptors (get_desc_next received_one) ≡ read_descriptor (4096 * z))
unfolding start set_desc_end get_desc_next address_to_index
Reach-posted_example =
    Reach-posted adapter adapter-IsNetAdapter fresh_queue-IsReset received_one-Reach (omega arith)

receive_lem_example :
    let s = receive adapter queue frame 3 4 in
    ((s.packets 3).fragment_index ≡ 4)
    × ((s.packets 3).fragment_count ≡ 1)
    × ((s.packets 3).ignore ≡ (no_packet frame || false))
    × ((s.fragments 4).valid_length ≡ (if no_packet frame then 0 else field frame.rdes3 0 15 - 4))
    × ((s.checksums 3).layer3 ≡ (
        if no_packet frame || not (ip_present frame)
        then Evaluation.not_checked
        else if flag frame.rdes1 3
        then Evaluation.invalid
        else Evaluation.valid))
    × ((s.checksums 3).layer4 ≡ (
        if no_packet frame || not (ip_present frame)
        then Evaluation.not_checked
        else if flag frame.rdes1 7
        then Evaluation.invalid
        else Evaluation.valid))
receive_lem_example = receive_lem adapter adapter-IsNetAdapter queue frame 3 4 (omega arith)

-- ===== src/Net/Rx/Advance.antt =====
-- The callbacks of rxqueue.cpp.
use woa_rk.Base.{
  ℕ, zero, suc, ◌+◌, ◌*◌, true, false, ◌||◌, ◌==◌, if◌then◌else◌, Option, none, some, update, u32,
}
use woa_rk.Net.Adapter.{NetAdapter}
use woa_rk.Net.Queue.{descriptor_size, address_to_index}
use woa_rk.Net.Index.{desc_next, desc_full}
use woa_rk.Net.Rx.Types.{RxQueue, RxControl, own, read_descriptor}
use woa_rk.Net.Rx.Packet.{receive}

-- `GetDescNext`
unfoldable pub get_desc_next : RxQueue → ℕ
get_desc_next q = address_to_index q.regs.current_app_rx_desc

-- `SetDescEnd`
unfoldable pub set_desc_end : RxQueue → ℕ → RxQueue
set_desc_end q index = record q {
  regs = record (q.regs) {
    tail_pointer = u32 (q.desc_physical_low + u32 (index * descriptor_size));
  };
  desc_end = index;
}

abbrev no_control : RxControl
no_control = record { start = false; receive_buffer_size = 0; rx_pbl = 0; rx_packet_flush = false }

-- `RxQueueStart`
unfoldable pub start : RxQueue → RxQueue
unfolding set_desc_end
start q =
    let r = record q {
      running = true;
      desc_begin = 0;
      desc_end = 0;
      regs = record (q.regs) {
        list_address_hi = q.desc_physical_high;
        list_address = q.desc_physical_low;
        ring_length = u32 (q.desc_count + 4294967295);
      };
    } in
    let s = set_desc_end r r.desc_end in
    record s {
      regs = record (s.regs) {
        rx_control = record no_control {
          start = true;
          receive_buffer_size = s.rx_buffer_size;
          rx_pbl = s.rx_pbl;
        };
      };
    }

-- `RxQueueCancel`
unfoldable pub cancel : RxQueue → RxQueue
cancel q = record q {
  running = false;
  regs = record (q.regs) { rx_control = record no_control { rx_packet_flush = true } };
}

-- The variables of the first loop.
pub record Cursor : Type 0 where
  pub desc_index : ℕ
  pub pkt_index : ℕ
  pub frag_index : ℕ
  pub own_descriptors : ℕ
  pub done_frags : ℕ

-- The variables of the second loop.
pub record Refill : Type 0 where
  pub desc_index : ℕ
  pub frag_index : ℕ
  pub queued_frags : ℕ

module _ (net : NetAdapter) where
  -- One round of the first loop, the three increments included.
  unfoldable pub indicate_one : RxQueue × Cursor → RxQueue × Cursor
  indicate_one (q, c) = (
    receive net q (q.descriptors c.desc_index) c.pkt_index c.frag_index,
    record {
      desc_index = desc_next q.desc_count c.desc_index;
      pkt_index = net.increment q.packet_ring c.pkt_index;
      frag_index = net.increment q.fragment_ring c.frag_index;
      own_descriptors = c.own_descriptors;
      done_frags = c.done_frags + 1;
    },
  )

  -- The first loop, up to `descNext`.
  unfoldable pub indicate : ℕ → ℕ → RxQueue × Cursor → Option (RxQueue × Cursor)
  indicate zero next (q, c) = none
  indicate (suc fuel) next (q, c) =
      let rest = indicate fuel next (indicate_one (q, c)) in
      if c.desc_index == next
      then some (q, c)
      else if c.pkt_index == q.packet_ring.end_index || c.frag_index == q.fragment_ring.end_index
      then some (q, c)
      else if own (q.descriptors c.desc_index)
      then some (q, record c { own_descriptors = 1 })
      else rest

  -- One round of the second loop.
  unfoldable pub refill_one : RxQueue × Refill → RxQueue × Refill
  refill_one (q, v) = (
    record q {
      descriptors =
          update q.descriptors v.desc_index (read_descriptor (q.logical_address v.frag_index));
    },
    record {
      desc_index = desc_next q.desc_count v.desc_index;
      frag_index = net.increment q.fragment_ring v.frag_index;
      queued_frags = v.queued_frags + 1;
    },
  )

  -- The second loop, up to `descFull`.
  unfoldable pub refill : ℕ → ℕ → RxQueue × Refill → Option (RxQueue × Refill)
  refill zero full (q, v) = none
  refill (suc fuel) full (q, v) =
      let rest = refill fuel full (refill_one (q, v)) in
      if v.desc_index == full
      then some (q, v)
      else if v.frag_index == q.fragment_ring.end_index
      then some (q, v)
      else rest

  -- The loop that hands the remaining packets back after a cancellation.
  unfoldable pub ignore_rest : ℕ → ℕ → RxQueue → Option RxQueue
  ignore_rest zero pkt q = none
  ignore_rest (suc fuel) pkt q =
      let rest =
        ignore_rest fuel (net.increment q.packet_ring pkt) (record q {
          packets = update q.packets pkt (record (q.packets pkt) { ignore = true });
        }) in
      if pkt == q.packet_ring.end_index then some q else rest

  -- The second half, when the queue is running.
  unfoldable pub prepare : ℕ → RxQueue → Option RxQueue
  prepare next q =
      elim (refill (q.desc_count) (desc_full q.desc_count q.desc_begin) (
        q,
        record {
          desc_index = q.desc_end;
          frag_index = q.fragment_ring.next_index;
          queued_frags = 0;
        },
      )) [
        | none ↦ none
        | some (r, v) ↦ some (
            if v.desc_index == next then r else record (set_desc_end r v.desc_index) {
              fragment_ring = record (r.fragment_ring) { next_index = v.frag_index };
            })
      ]

  -- The second half, when the queue was cancelled and the device has stopped.
  unfoldable pub give_back : ℕ → RxQueue → Option RxQueue
  give_back pkt q = elim (ignore_rest (q.packet_ring.number_of_elements + 1) pkt q) [
    | none ↦ none
    | some r ↦ some (record r {
      packet_ring = record (r.packet_ring) { begin_index = r.packet_ring.end_index };
      fragment_ring = record (r.fragment_ring) { begin_index = r.fragment_ring.end_index };
    })
  ]

  -- What follows the first loop.
  unfoldable pub settle : ℕ → RxQueue × Cursor → Option RxQueue
  settle next (q, c) =
      let r = record q {
        desc_begin = c.desc_index;
        packet_ring = record (q.packet_ring) { begin_index = c.pkt_index };
        fragment_ring = record (q.fragment_ring) { begin_index = c.frag_index };
      } in
      if q.running
      then prepare next r
      else if c.desc_index == next
      then give_back c.pkt_index r
      else some r

  -- `RxQueueAdvance`, with the two counts that it hands to `DeviceAddStatisticsRxQueue`.
  unfoldable pub advance : RxQueue → Option (RxQueue × ℕ × ℕ)
  advance q =
      elim (indicate (q.desc_count) (get_desc_next q) (
        q,
        record {
          desc_index = q.desc_begin;
          pkt_index = q.packet_ring.begin_index;
          frag_index = q.fragment_ring.begin_index;
          own_descriptors = 0;
          done_frags = 0;
        },
      )) [
        | none ↦ none
        | some (r, c) ↦ elim (settle (get_desc_next q) (r, c)) [
          | none ↦ none
          | some s ↦ some (s, c.own_descriptors, c.done_frags)
        ]
      ]

-- ===== src/Net/Tx/Advance.antt =====
-- The callbacks of txqueue.cpp.
use woa_rk.Base.{
  ℕ, zero, suc, ◌+◌, ◌*◌, true, false, ◌||◌, field, flag, ltb, ◌==◌, if◌then◌else◌, Bool, Option,
  none, some, u32,
}
use woa_rk.Net.Adapter.{NetAdapter}
use woa_rk.Net.Queue.{descriptor_size}
use woa_rk.Net.Index.{desc_next, desc_remaining}
use woa_rk.Net.Tx.Types.{TxControl, TxQueue, own, context_type, last_descriptor}
use woa_rk.Net.Tx.Put.{needed, put}

-- `SetDescEnd`
unfoldable pub set_desc_end : TxQueue → ℕ → TxQueue
set_desc_end q index = record q {
  regs = record (q.regs) {
    tail_pointer = u32 (q.desc_physical_low + u32 (index * descriptor_size));
  };
  desc_end = index;
}

abbrev pub no_control : TxControl
no_control = record {
  start = false;
  operate_on_second_packet = false;
  tcp_segmentation = false;
  tcp_segmentation_mode = 0;
  tx_pbl = 0;
}

-- `TxQueueStart`
unfoldable pub start : TxQueue → TxQueue
unfolding set_desc_end
start q =
    let r = record q {
      last_mss = 0xFFFF;
      last_vlan_tag = 0;
      desc_begin = 0;
      desc_end = 0;
      regs = record (q.regs) {
        list_address_hi = q.desc_physical_high;
        list_address = q.desc_physical_low;
        ring_length = u32 (q.desc_count + 4294967295);
      };
    } in
    let s = set_desc_end r r.desc_end in
    record s {
      regs = record (s.regs) {
        tx_control = record {
          start = true;
          operate_on_second_packet = true;
          tcp_segmentation = true;
          tcp_segmentation_mode = 0;
          tx_pbl = s.tx_pbl;
        };
      };
    }

-- The three indices of the first loop.
pub record Done : Type 0 where
  pub desc_index : ℕ
  pub pkt_index : ℕ
  pub frag_index : ℕ

-- What a round of a loop decides.
pub data Turn (A : Type 0) : Type 0 where
  stuck : Turn A
  stop : Turn A
  go : A → Turn A

-- The rounds of a loop until one stops it.
unfoldable pub turns : {A : Type 0} → (A → Turn A) → ℕ → A → Option A
turns round zero a = none
turns round (suc fuel) a = elim (round a) [
  | stuck ↦ none
  | stop ↦ some a
  | go b ↦ turns round fuel b
]

-- The device is told to stop.
abbrev pub quiet : TxQueue → TxQueue
quiet q = record q { regs = record (q.regs) { tx_control = no_control } }

-- A packet is in progress: `ReadStatus` is `MtlTxReadStatus_Read`, or `NotEmpty` is set.
abbrev pub in_progress : (debug : ℕ) → Bool
in_progress debug = field debug 1 2 == 1 || flag debug 4

-- The loop that waits for the packet in progress, `left` reads from the `n`-th on: whether it has
-- seen the end of it.
unfoldable pub drained : (debug : ℕ → ℕ) (left n : ℕ) → Bool
drained debug zero n = false
drained debug (suc left) n =
    let rest = drained debug left (suc n) in if in_progress (debug n) then rest else true

-- The loop that waits until the device clears `FlushTxQueue`: the number of the read that finds it
-- clear.
unfoldable pub flush_wait : (mode : ℕ → ℕ) (fuel n : ℕ) → Option ℕ
flush_wait mode zero n = none
flush_wait mode (suc fuel) n =
    let rest = flush_wait mode fuel (suc n) in if flag (mode n) 0 then rest else some n

-- The queue behind a flush of the device's queue.
abbrev pub flushed : TxQueue → TxQueue
flushed q = record q {
  regs = record (q.regs) { flush_tx_queue = false };
  desc_begin = 0;
  desc_end = 0;
}

-- The packets that are still in the queue are discarded.
unfoldable pub discard : TxQueue → TxQueue
discard q = record q {
  packet_ring = record (q.packet_ring) { begin_index = q.packet_ring.end_index };
  fragment_ring = record (q.fragment_ring) { begin_index = q.fragment_ring.end_index };
}

module _ (net : NetAdapter) where
  -- A round of `SkipIgnorePackets`, on the packet's index.
  unfoldable pub skip_turn : TxQueue → ℕ → Turn ℕ
  skip_turn q pkt =
      if pkt == q.packet_ring.next_index
      then stop
      else if (q.packets pkt).ignore
      then go (net.increment q.packet_ring pkt)
      else stop

  -- `SkipIgnorePackets`, with the fragment's index that it leaves or replaces.
  unfoldable pub skip_ignore_packets : TxQueue → ℕ → ℕ → Option (ℕ × ℕ)
  skip_ignore_packets q pkt frag =
      elim (turns (skip_turn q) (q.packet_ring.number_of_elements) pkt) [
        | none ↦ none
        | some p ↦
            some (p, if p == q.packet_ring.next_index then frag else (q.packets p).fragment_index)
      ]

  -- The packet at `pkt_index` is complete.
  unfoldable pub complete : TxQueue → Done → Turn Done
  complete q c =
      let p = q.packets c.pkt_index in
      elim (skip_ignore_packets q (net.increment q.packet_ring c.pkt_index)
        (net.advance q.fragment_ring p.fragment_index p.fragment_count)) [
          | none ↦ stuck
          | some (pkt, frag) ↦ go (record {
            desc_index = desc_next q.desc_count c.desc_index;
            pkt_index = pkt;
            frag_index = frag;
          })
        ]

  -- A round of the first loop.
  unfoldable pub done_turn : TxQueue → Done → Turn Done
  done_turn q c =
      let d = q.descriptors c.desc_index in
      let next = record c { desc_index = desc_next q.desc_count c.desc_index } in
      if c.desc_index == q.desc_end
      then stop
      else if own d
      then stop
      else if context_type d
      then go next
      else if last_descriptor d
      then complete q c
      else go next

  -- The first loop, with the call that precedes it.
  unfoldable pub collect : TxQueue → Option Done
  collect q = elim (skip_ignore_packets q q.packet_ring.begin_index q.fragment_ring.begin_index) [
    | none ↦ none
    | some (pkt, frag) ↦
        turns (done_turn q) (q.desc_count)
          (record { desc_index = q.desc_begin; pkt_index = pkt; frag_index = frag })
  ]

  -- A round of the second loop: the queue, `descIndex` and `pktIndex`.
  unfoldable pub fill_turn : TxQueue × ℕ × ℕ → Turn (TxQueue × ℕ × ℕ)
  fill_turn (q, i, pkt) =
      let free = desc_remaining q.desc_count q.desc_begin i in
      let next = net.increment q.packet_ring pkt in
      if free == 0
      then stop
      else if pkt == q.packet_ring.end_index
      then stop
      else if (q.packets pkt).ignore
      then go (q, i, next)
      else if ltb free (needed net q pkt)
      then stop
      else elim (put net pkt (q, i)) [ none ↦ stuck | some (r, j) ↦ go (r, j, next) ]

  -- The second loop.
  unfoldable pub fill : TxQueue → Option (TxQueue × ℕ × ℕ)
  fill q =
      turns fill_turn (q.packet_ring.number_of_elements) (q, q.desc_end, q.packet_ring.next_index)

  -- `TxQueueAdvance`, with the count that it hands to `DeviceAddStatisticsTxQueue`.
  unfoldable pub advance : TxQueue → Option (TxQueue × ℕ)
  advance q = elim (collect q) [
    | none ↦ none
    | some c ↦
        elim (fill (record q {
          packet_ring = record (q.packet_ring) { begin_index = c.pkt_index };
          fragment_ring = record (q.fragment_ring) { begin_index = c.frag_index };
          desc_begin = c.desc_index;
        })) [
          | none ↦ none
          | some (r, i, pkt) ↦ some (
            if i == q.desc_end then r else record (set_desc_end r i) {
              packet_ring = record (r.packet_ring) { next_index = pkt };
            },
            0,
          )
        ]
  ]

  -- `TxQueueCancel`, where `debug n` and `mode n` are what the `n`-th reads of `Tx_Debug` and of
  -- `Tx_Operation_Mode` answer. The loop that waits for the flush has no bound: `none` is for the
  -- fuel that is used up.
  unfoldable pub cancel : (debug mode : ℕ → ℕ) (fuel : ℕ) → TxQueue → Option TxQueue
  cancel debug mode fuel q =
      if q.packet_ring.begin_index == q.packet_ring.end_index
      then some (quiet q)
      else if drained debug 100 0
      then elim (advance (quiet q)) [ none ↦ none | some (r, done) ↦ some (discard r) ]
      else elim (flush_wait mode fuel 0) [
        | none ↦ none
        | some n ↦ some (discard (flushed (quiet q)))
      ]

-- `TxQueueStop`, without the notification that it takes back.
unfoldable pub stop_queue : TxQueue → TxQueue
stop_queue q = record q { desc_begin = 0; desc_end = 0 }

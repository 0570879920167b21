-- ===== src/Net/Rx/Steps.antt =====
-- The receive queue between its calls from `RxQueueStart` to `RxQueueCancel`: `RxQueueAdvance`, the
-- device and NetAdapterCx take turns, in any order. The device writes back a posted descriptor and moves to the next one, while it has not
-- reached the tail; NetAdapterCx hands in more buffers and packets, and maps the buffers that it
-- still owns.
use woa_rk.Base.{
  ℕ, ◌+◌, ◌≤◌, ◌<◌, ◌≡◌, refl, sym, ap, ◌∙◌, ◌≢◌, true, false, some, update, u32, arith,
}
use woa_rk.Net.Adapter.{NetAdapter, IsNetAdapter, succ_mod}
use woa_rk.Net.Queue.{address_to_index, IsDescriptorCount}
use woa_rk.Net.Ring.{
  dist, dist_self, dist-lt, dist-place, place, dist_extend, dist_injective, succ_mod-lt,
}
use woa_rk.Net.Rx.Types.{RxQueue, RxDescriptor, own, read_descriptor}
use woa_rk.Net.Rx.Deliver.{update_ne}
use woa_rk.Net.Rx.Advance.{get_desc_next, start, advance}
use woa_rk.Net.Rx.Inv.{IsValid}
use woa_rk.Net.Rx.Laws.{advance_running}

-- The device at `next` stores `d` there, and its register shows `address`.
abbrev pub received : RxQueue → RxDescriptor → ℕ → RxQueue
received q d address = record q {
  descriptors = update q.descriptors (get_desc_next q) d;
  regs = record (q.regs) { current_app_rx_desc = address };
}

module _ (net : NetAdapter) where
  pub data Step : RxQueue → RxQueue → Type 0 where
    driver :
        {q s : RxQueue} (own_count done : ℕ) → advance net q ≡ some (s, own_count, done) → Step q s
    device :
        {q : RxQueue} (d : RxDescriptor) (address : ℕ)
        → get_desc_next q ≢ q.desc_end
        → address_to_index address ≡ succ_mod q.desc_count (get_desc_next q)
        → own d ≡ false
        → Step q (received q d address)
    more_buffers :
        {q : RxQueue} (end : ℕ)
        → end < q.fragment_ring.number_of_elements
        → dist q.fragment_ring.number_of_elements q.fragment_ring.begin_index
            q.fragment_ring.end_index
          ≤ dist q.fragment_ring.number_of_elements q.fragment_ring.begin_index end
        → Step q (record q { fragment_ring = record (q.fragment_ring) { end_index = end } })
    more_packets :
        {q : RxQueue} (end : ℕ)
        → end < q.packet_ring.number_of_elements
        → Step q (record q { packet_ring = record (q.packet_ring) { end_index = end } })
    map_buffers :
        {q : RxQueue} (address : ℕ → ℕ)
        → ((z : ℕ)
            → z < q.fragment_ring.number_of_elements
            → dist q.fragment_ring.number_of_elements q.fragment_ring.begin_index z
              < dist q.fragment_ring.number_of_elements q.fragment_ring.begin_index
                  q.fragment_ring.next_index
            → address z ≡ q.logical_address z)
        → Step q (record q { logical_address = address })

  pub data Reach (q : RxQueue) : RxQueue → Type 0 where
    stay : Reach q q
    step : {r s : RxQueue} → Reach q r → Step r s → Reach q s

device-IsValid :
    (q : RxQueue) (d : RxDescriptor) (address : ℕ)
    → get_desc_next q ≢ q.desc_end
    → address_to_index address ≡ succ_mod q.desc_count (get_desc_next q)
    → IsValid q
    → IsValid (received q d address)
unfolding get_desc_next
device-IsValid q d address ne moved v =
    let n = q.desc_count in
    let b = q.desc_begin in
    let next = get_desc_next q in
    let apart : dist n b next ≢ dist n b q.desc_end =
      λ e. ne (dist_injective n b next q.desc_end v.begin_in v.next_in v.end_in e) in
    let room = dist-lt n b q.desc_end v.begin_in v.end_in in
    let further : dist n b (succ_mod n next) ≡ dist n b next + 1 =
      dist_extend n b next v.begin_in v.next_in (omega (arith, apart, v.device, room)) in
    record {
      count = v.count;
      begin_in = v.begin_in;
      end_in = v.end_in;
      next_in = rw moved (succ_mod-lt n next v.next_in);
      device = rw moved (omega (arith, further, apart, v.device));
      pkt_begin_in = v.pkt_begin_in;
      pkt_end_in = v.pkt_end_in;
      frag_begin_in = v.frag_begin_in;
      frag_next_in = v.frag_next_in;
      frag_end_in = v.frag_end_in;
      frag_order = v.frag_order;
      paired = v.paired;
      tail = v.tail;
      posted = λ k y z lo hi y_in z_in dy dz.
          let lo' = rw moved at lo in
          let y_ne : next ≢ y = λ e.
            (let same : dist n b next ≡ dist n b y = ap (dist n b) e in
              omega (arith, same, dy, further, lo')) in
          update_ne q.descriptors next y d y_ne
          ∙ v.posted k y z (omega (arith, further, lo')) hi y_in z_in dy dz;
    }

buffers-IsValid :
    (q : RxQueue) (end : ℕ)
    → end < q.fragment_ring.number_of_elements
    → dist q.fragment_ring.number_of_elements q.fragment_ring.begin_index q.fragment_ring.end_index
      ≤ dist q.fragment_ring.number_of_elements q.fragment_ring.begin_index end
    → IsValid q
    → IsValid (record q { fragment_ring = record (q.fragment_ring) { end_index = end } })
unfolding get_desc_next
buffers-IsValid q end end_in more v = record {
  count = v.count;
  begin_in = v.begin_in;
  end_in = v.end_in;
  next_in = v.next_in;
  device = v.device;
  pkt_begin_in = v.pkt_begin_in;
  pkt_end_in = v.pkt_end_in;
  frag_begin_in = v.frag_begin_in;
  frag_next_in = v.frag_next_in;
  frag_end_in = end_in;
  frag_order = omega (arith, v.frag_order, more);
  paired = v.paired;
  tail = v.tail;
  posted = v.posted;
}

packets-IsValid :
    (q : RxQueue) (end : ℕ)
    → end < q.packet_ring.number_of_elements
    → IsValid q
    → IsValid (record q { packet_ring = record (q.packet_ring) { end_index = end } })
unfolding get_desc_next
packets-IsValid q end end_in v = record {
  count = v.count;
  begin_in = v.begin_in;
  end_in = v.end_in;
  next_in = v.next_in;
  device = v.device;
  pkt_begin_in = v.pkt_begin_in;
  pkt_end_in = end_in;
  frag_begin_in = v.frag_begin_in;
  frag_next_in = v.frag_next_in;
  frag_end_in = v.frag_end_in;
  frag_order = v.frag_order;
  paired = v.paired;
  tail = v.tail;
  posted = v.posted;
}

addresses-IsValid :
    (q : RxQueue) (address : ℕ → ℕ)
    → ((z : ℕ)
        → z < q.fragment_ring.number_of_elements
        → dist q.fragment_ring.number_of_elements q.fragment_ring.begin_index z
          < dist q.fragment_ring.number_of_elements q.fragment_ring.begin_index
              q.fragment_ring.next_index
        → address z ≡ q.logical_address z)
    → IsValid q
    → IsValid (record q { logical_address = address })
unfolding get_desc_next
addresses-IsValid q address same v = record {
  count = v.count;
  begin_in = v.begin_in;
  end_in = v.end_in;
  next_in = v.next_in;
  device = v.device;
  pkt_begin_in = v.pkt_begin_in;
  pkt_end_in = v.pkt_end_in;
  frag_begin_in = v.frag_begin_in;
  frag_next_in = v.frag_next_in;
  frag_end_in = v.frag_end_in;
  frag_order = v.frag_order;
  paired = v.paired;
  tail = v.tail;
  posted = λ k y z lo hi y_in z_in dy dz.
      v.posted k y z lo hi y_in z_in dy dz
      ∙ ap read_descriptor (sym (same z z_in (omega (arith, dz, hi, v.paired))));
}

-- The device and the driver have been reset together: `RxQueueStart` on a queue with no work.
pub record IsReset (q : RxQueue) : Type 0 where
  pub count : IsDescriptorCount q.desc_count
  pub device : get_desc_next q ≡ 0
  pub no_work : q.fragment_ring.next_index ≡ q.fragment_ring.begin_index
  pub pkt_begin_in : q.packet_ring.begin_index < q.packet_ring.number_of_elements
  pub pkt_end_in : q.packet_ring.end_index < q.packet_ring.number_of_elements
  pub frag_begin_in : q.fragment_ring.begin_index < q.fragment_ring.number_of_elements
  pub frag_end_in : q.fragment_ring.end_index < q.fragment_ring.number_of_elements

-- `RxQueueStart` on a reset queue establishes the invariant, and starts the device on the
-- descriptors: the registers hold the two halves of the ring's address, its length less one, and the
-- ring's address as the tail, so that the device owns none yet.
pub start-IsValid :
    (q : RxQueue)
    → IsReset q
    → IsValid (start q)
      × ((start q).running ≡ true)
      × ((start q).regs.rx_control.start ≡ true)
      × ((start q).regs.ring_length + 1 ≡ q.desc_count)
      × ((start q).regs.list_address ≡ q.desc_physical_low)
      × ((start q).regs.list_address_hi ≡ q.desc_physical_high)
      × ((start q).regs.tail_pointer ≡ u32 q.desc_physical_low)
unfolding start get_desc_next
start-IsValid q z =
    let nothing = dist_self q.desc_count 0 in
    let no_frags : dist q.fragment_ring.number_of_elements q.fragment_ring.begin_index
          q.fragment_ring.next_index
        ≡ 0 =
      ap (dist _ q.fragment_ring.begin_index) z.no_work ∙ dist_self _ _ in
    let first : 0 < q.desc_count = omega (arith, z.count) in
    (
      record {
        count = z.count;
        begin_in = first;
        end_in = first;
        next_in = rw z.device first;
        device = rw z.device (omega arith);
        pkt_begin_in = z.pkt_begin_in;
        pkt_end_in = z.pkt_end_in;
        frag_begin_in = z.frag_begin_in;
        frag_next_in = rw z.no_work z.frag_begin_in;
        frag_end_in = z.frag_end_in;
        frag_order = omega (arith, no_frags);
        paired = nothing ∙ sym no_frags;
        tail = refl;
        posted = λ k y x lo hi. absurd (omega (arith, hi, nothing));
      },
      refl,
      refl,
      omega (arith, z.count),
      refl,
      refl,
      ap u32 (omega arith),
    )

module _ (net : NetAdapter) (laws : IsNetAdapter net) where
  Step-IsValid :
      {q s : RxQueue} → Step net q s → IsValid q → q.running ≡ true → IsValid s × (s.running ≡ true)
  Step-IsValid {q} {s} (driver own_count done e) v run =
      let (s', own_count', done', e', a) = advance_running net laws q v run in
      let same : s' ≡ s = cc (sym e' ∙ e) in (rw (← same) a.valid, rw (← same) (a.running ∙ run))
  Step-IsValid {q} (device d address ne moved released) v run =
      (device-IsValid q d address ne moved v, run)
  Step-IsValid {q} (more_buffers end end_in more) v run = (buffers-IsValid q end end_in more v, run)
  Step-IsValid {q} (more_packets end end_in) v run = (packets-IsValid q end end_in v, run)
  Step-IsValid {q} (map_buffers address same) v run = (addresses-IsValid q address same v, run)

  Reach-IsValid :
      {q s : RxQueue}
      → IsValid q
      → q.running ≡ true
      → Reach net q s
      → IsValid s × (s.running ≡ true)
  Reach-IsValid v run stay = (v, run)
  Reach-IsValid v run (step r st) =
      let (v', run') = Reach-IsValid v run r in Step-IsValid st v' run'

  -- Whatever the order of calls of `RxQueueAdvance`, of descriptors that the device writes back and
  -- of buffers and packets that NetAdapterCx hands in, after `RxQueueStart` on a reset queue and as
  -- long as the queue is not cancelled, in a state in which the device has not come to the end of the
  -- posted region: the invariant holds, and the descriptor that the device stands at is owned by
  -- it and leads to the buffer of a fragment that the driver holds.
  pub Reach-posted :
      {q s : RxQueue}
      → IsReset q
      → Reach net (start q) s
      → get_desc_next s ≢ s.desc_end
      → IsValid s
        × (z : ℕ) × (z < s.fragment_ring.number_of_elements)
        × (dist s.fragment_ring.number_of_elements s.fragment_ring.begin_index z
            < dist s.fragment_ring.number_of_elements s.fragment_ring.begin_index
                s.fragment_ring.next_index)
        × (s.descriptors (get_desc_next s) ≡ read_descriptor (s.logical_address z))
  Reach-posted {q} {s} z reach ne =
      let (v0, run0, _, _, _, _, _) = start-IsValid q z in
      let (v, run) = Reach-IsValid v0 run0 reach in
      let k = dist s.desc_count s.desc_begin (get_desc_next s) in
      let fn = s.fragment_ring.number_of_elements in
      let fb = s.fragment_ring.begin_index in
      let last = dist-lt fn fb s.fragment_ring.next_index v.frag_begin_in v.frag_next_in in
      let apart : k ≢ dist s.desc_count s.desc_begin s.desc_end =
        λ e. ne (dist_injective _ _ _ _ v.begin_in v.next_in v.end_in e) in
      let before : k < dist s.desc_count s.desc_begin s.desc_end = omega (arith, apart, v.device) in
      let at = dist-place fn fb k v.frag_begin_in (omega (arith, before, v.paired, last)) in
      (
        v,
        place fn fb k,
        at.0,
        omega (arith, at.1, before, v.paired),
        v.posted k (get_desc_next s) (place fn fb k) (omega arith) before v.next_in at.0 refl at.1,
      )

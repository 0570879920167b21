-- ===== src/Net/Rx/Inv.antt =====
-- The representation invariant of the receive queue, kept by the first half of `RxQueueAdvance`.
use woa_rk.Base.{ℕ, ◌+◌, ◌*◌, ◌≤◌, ◌<◌, ◌≡◌, u32, arith}
use woa_rk.Net.Adapter.{NetAdapter}
use woa_rk.Net.Queue.{IsDescriptorCount, descriptor_size}
use woa_rk.Net.Ring.{dist, dist-lt, dist_split, dist_concat, IsWalk}
use woa_rk.Net.Rx.Types.{RxQueue, read_descriptor}
use woa_rk.Net.Rx.Advance.{Cursor, get_desc_next}
use woa_rk.Net.Rx.Indicate.{InRings, Indicated}

-- The descriptors from `desc_begin` to `desc_end` hold the fragments from `begin_index` to
-- `next_index` of their ring, the device stands between the two ends, and what it has not
-- reached yet is posted: owned by it, over the buffer of the fragment at the same distance.
pub record IsValid (q : RxQueue) : Type 0 where
  pub count : IsDescriptorCount q.desc_count
  pub begin_in : q.desc_begin < q.desc_count
  pub end_in : q.desc_end < q.desc_count
  pub next_in : get_desc_next q < q.desc_count
  pub device :
      dist q.desc_count q.desc_begin (get_desc_next q) ≤ dist q.desc_count q.desc_begin q.desc_end
  pub pkt_begin_in : q.packet_ring.begin_index < q.packet_ring.number_of_elements
  pub pkt_end_in : q.packet_ring.end_index < q.packet_ring.number_of_elements
  pub frag_begin_in : q.fragment_ring.begin_index < q.fragment_ring.number_of_elements
  pub frag_next_in : q.fragment_ring.next_index < q.fragment_ring.number_of_elements
  pub frag_end_in : q.fragment_ring.end_index < q.fragment_ring.number_of_elements
  pub frag_order :
      dist q.fragment_ring.number_of_elements q.fragment_ring.begin_index q.fragment_ring.next_index
      ≤ dist q.fragment_ring.number_of_elements q.fragment_ring.begin_index
          q.fragment_ring.end_index
  pub paired :
      dist q.desc_count q.desc_begin q.desc_end
      ≡ dist q.fragment_ring.number_of_elements q.fragment_ring.begin_index
          q.fragment_ring.next_index
  pub tail : q.regs.tail_pointer ≡ u32 (q.desc_physical_low + u32 (q.desc_end * descriptor_size))
  pub posted :
      (k y z : ℕ)
      → dist q.desc_count q.desc_begin (get_desc_next q) ≤ k
      → k < dist q.desc_count q.desc_begin q.desc_end
      → y < q.desc_count
      → z < q.fragment_ring.number_of_elements
      → dist q.desc_count q.desc_begin y ≡ k
      → dist q.fragment_ring.number_of_elements q.fragment_ring.begin_index z ≡ k
      → q.descriptors y ≡ read_descriptor (q.logical_address z)

-- The cursor that `RxQueueAdvance` starts from.
abbrev pub first_cursor : RxQueue → Cursor
first_cursor q = record {
  desc_index = q.desc_begin;
  pkt_index = q.packet_ring.begin_index;
  frag_index = q.fragment_ring.begin_index;
  own_descriptors = 0;
  done_frags = 0;
}

-- The three stores behind the first loop.
abbrev pub handed_over : RxQueue → Cursor → RxQueue
handed_over q c = record q {
  desc_begin = c.desc_index;
  packet_ring = record (q.packet_ring) { begin_index = c.pkt_index };
  fragment_ring = record (q.fragment_ring) { begin_index = c.frag_index };
}

pub IsValid-InRings : (q : RxQueue) → IsValid q → InRings q (first_cursor q) (get_desc_next q)
IsValid-InRings q v = record {
  count = v.count;
  next_in = v.next_in;
  desc_in = v.begin_in;
  pkt_in = v.pkt_begin_in;
  frag_in = v.frag_begin_in;
  pkt_end_in = v.pkt_end_in;
  frag_end_in = v.frag_end_in;
}

-- A place ahead of the new beginning is `m` nearer.
nearer :
    (n a e b m x : ℕ)
    → a < n
    → x < n
    → IsWalk n a e b m
    → m ≤ dist n a x
    → dist n b x + m ≡ dist n a x
nearer n a e b m x ha hx w h =
    omega (arith, dist_split n a b x ha w.inside hx (omega (arith, w.steps)), w.steps)

further :
    (n a e b m x k : ℕ)
    → a < n
    → x < n
    → IsWalk n a e b m
    → dist n b x ≡ k
    → m + k < n
    → dist n a x ≡ m + k
further n a e b m x k ha hx w d h =
    omega (arith, w.steps, dist_concat n a b x ha w.inside hx (omega (arith, w.steps)))

-- Handing the received packets over keeps the invariant.
pub handed_over-IsValid :
    (net : NetAdapter) (q r : RxQueue) (d : Cursor) (m : ℕ)
    → IsValid q
    → Indicated net q (first_cursor q) (get_desc_next q) r d m
    → IsValid (handed_over r d)
unfolding get_desc_next
handed_over-IsValid net q r d m v i =
    let n = q.desc_count in
    let b = q.desc_begin in
    let fn = q.fragment_ring.number_of_elements in
    let fb = q.fragment_ring.begin_index in
    let next : (dist n d.desc_index (get_desc_next q) + m ≡ dist n b (get_desc_next q)) =
      nearer n b _ _ m _ v.begin_in v.next_in i.desc i.desc.before_end in
    let last : (dist n d.desc_index q.desc_end + m ≡ dist n b q.desc_end) =
      nearer n b _ _ m _ v.begin_in v.end_in i.desc (omega (arith, i.desc.before_end, v.device)) in
    let frag_next : (dist fn d.frag_index q.fragment_ring.next_index + m
        ≡ dist fn fb q.fragment_ring.next_index) =
      nearer fn fb _ _ m _ v.frag_begin_in v.frag_next_in i.frag
        (omega (arith, i.desc.before_end, v.device, v.paired)) in
    let frag_end : (dist fn d.frag_index q.fragment_ring.end_index + m
        ≡ dist fn fb q.fragment_ring.end_index) =
      nearer fn fb _ _ m _ v.frag_begin_in v.frag_end_in i.frag i.frag.before_end in
    let in_desc = dist-lt n b q.desc_end v.begin_in v.end_in in
    let in_frag = dist-lt fn fb q.fragment_ring.next_index v.frag_begin_in v.frag_next_in in
    rw i.keeps (record {
      count = v.count;
      begin_in = i.desc.inside;
      end_in = v.end_in;
      next_in = v.next_in;
      device = omega (arith, next, last, v.device);
      pkt_begin_in = i.pkt.inside;
      pkt_end_in = v.pkt_end_in;
      frag_begin_in = i.frag.inside;
      frag_next_in = v.frag_next_in;
      frag_end_in = v.frag_end_in;
      frag_order = omega (arith, frag_next, frag_end, v.frag_order);
      paired = omega (arith, last, frag_next, v.paired);
      tail = v.tail;
      posted = λ k y z lo hi y_in z_in dy dz.
          v.posted (m + k) y z (omega (arith, next, lo)) (omega (arith, last, hi)) y_in z_in
            (further n b _ _ m y k v.begin_in y_in i.desc dy (omega (arith, last, hi, in_desc)))
            (further fn fb _ _ m z k v.frag_begin_in z_in i.frag dz
              (omega (arith, last, hi, v.paired, in_frag)));
    })

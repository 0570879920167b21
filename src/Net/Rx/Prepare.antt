-- ===== src/Net/Rx/Prepare.antt =====
-- The second half of `RxQueueAdvance` on a running queue: it keeps the invariant, and posts
-- fragments until the descriptors or the fragments are used up.
use woa_rk.Base.{
  ℕ, ◌+◌, ◌-◌, ◌≤◌, ◌<◌, ◌≡◌, refl, sym, ap, ◌∙◌, ◌⊎◌, inl, inr, ◌==◌, ==_iff, ltb, if◌then◌else◌,
  Bool-cases, some, arith,
}
use woa_rk.Net.Adapter.{NetAdapter, IsNetAdapter}
use woa_rk.Net.Queue.{IsDescriptorCount}
use woa_rk.Net.Ring.{dist, dist_zero, dist-lt, dist_split, dist_concat, dist_around}
use woa_rk.Net.Index.{desc_full, desc_full_lem}
use woa_rk.Net.Rx.Types.{RxQueue, read_descriptor}
use woa_rk.Net.Rx.Advance.{Refill, get_desc_next, set_desc_end, refill, prepare}
use woa_rk.Net.Rx.Refill.{CanRefill, Refilled, refill_lem}
use woa_rk.Net.Rx.Inv.{IsValid}

-- The slot before the beginning is the last one, which stays empty.
dist-desc_full :
    {c : ℕ} (b : ℕ)
    → IsDescriptorCount c
    → b < c
    → (desc_full c b < c) × (dist c b (desc_full c b) + 1 ≡ c)
unfolding dist
dist-desc_full {c} b v h = ground (arith, desc_full_lem b v h)

abbrev pub first_refill : RxQueue → Refill
first_refill q = record {
  desc_index = q.desc_end;
  frag_index = q.fragment_ring.next_index;
  queued_frags = 0;
}

abbrev limit : RxQueue → ℕ
limit q = desc_full q.desc_count q.desc_begin

-- The state behind the loop, where the end of the posted region moves.
abbrev moved_end : RxQueue → Refill → RxQueue
moved_end r w = record (set_desc_end r w.desc_index) {
  fragment_ring = record (r.fragment_ring) { next_index = w.frag_index };
}

CanRefill_first : (q : RxQueue) → IsValid q → CanRefill q (first_refill q) (limit q)
CanRefill_first q v = record {
  count = v.count;
  full_in = (dist-desc_full q.desc_begin v.count v.begin_in).0;
  desc_in = v.end_in;
  frag_in = v.frag_next_in;
  frag_end_in = v.frag_end_in;
}

module _ (q : RxQueue) (v : IsValid q) (r : RxQueue) (w : Refill) (m : ℕ)
    (filled : Refilled q (first_refill q) (limit q) r w m) where
  -- How far the loop has come, and the room that it had.
  desc_reach :
      (dist q.desc_count q.desc_begin w.desc_index ≡ dist q.desc_count q.desc_begin q.desc_end + m)
      × (dist q.desc_count q.desc_begin q.desc_end + m < q.desc_count)
  desc_reach =
      let full = dist-desc_full q.desc_begin v.count v.begin_in in
      let split =
        dist_split _ q.desc_begin q.desc_end (limit q) v.begin_in v.end_in full.0
          (omega (arith, full, dist-lt _ _ _ v.begin_in v.end_in)) in
      let room : (dist q.desc_count q.desc_begin q.desc_end + m < q.desc_count) =
        omega (arith, full, split, filled.desc.before_end) in
      (
        omega (
          arith,
          filled.desc.steps,
          dist_concat _ q.desc_begin q.desc_end w.desc_index v.begin_in v.end_in filled.desc.inside
              (omega (arith, room, filled.desc.steps)),
        ),
        room,
      )

  frag_reach :
      dist q.fragment_ring.number_of_elements q.fragment_ring.begin_index w.frag_index
      ≡ dist q.fragment_ring.number_of_elements q.fragment_ring.begin_index
          q.fragment_ring.next_index
        + m
  frag_reach =
      let split =
        dist_split _ q.fragment_ring.begin_index q.fragment_ring.next_index
          q.fragment_ring.end_index v.frag_begin_in v.frag_next_in v.frag_end_in v.frag_order in
      let last =
        dist-lt _ q.fragment_ring.begin_index q.fragment_ring.end_index v.frag_begin_in
          v.frag_end_in in
      omega (
        arith,
        filled.frag.steps,
        dist_concat _ q.fragment_ring.begin_index q.fragment_ring.next_index w.frag_index
            v.frag_begin_in v.frag_next_in filled.frag.inside
            (omega (arith, split, last, filled.frag.steps, filled.frag.before_end)),
      )

  -- Old and new descriptors alike are posted.
  all_posted :
      (k y z : ℕ)
      → dist q.desc_count q.desc_begin (get_desc_next q) ≤ k
      → k < dist q.desc_count q.desc_begin q.desc_end + m
      → y < q.desc_count
      → z < q.fragment_ring.number_of_elements
      → dist q.desc_count q.desc_begin y ≡ k
      → dist q.fragment_ring.number_of_elements q.fragment_ring.begin_index z ≡ k
      → r.descriptors y ≡ read_descriptor (q.logical_address z)
  all_posted k y z lo hi y_in z_in dy dz =
      elim (Bool-cases (ltb k (dist q.desc_count q.desc_begin q.desc_end))) [
        | inl old ↦
            let before : k < dist q.desc_count q.desc_begin q.desc_end = ground arith in
            filled.other y y_in (
              omega (
                arith,
                desc_reach,
                dist_around _ q.desc_begin q.desc_end y v.begin_in v.end_in y_in
                    (omega (arith, before, dy)),
                dy,
              ))
            ∙ v.posted k y z lo before y_in z_in dy dz
        | inr fresh ↦
            let behind : dist q.desc_count q.desc_begin q.desc_end ≤ k = ground arith in
            let near =
              dist_split _ q.desc_begin q.desc_end y v.begin_in v.end_in y_in
                (omega (arith, behind, dy)) in
            let frag_near =
              dist_split _ q.fragment_ring.begin_index q.fragment_ring.next_index z v.frag_begin_in
                v.frag_next_in z_in (omega (arith, behind, dz, v.paired)) in
            filled.posted (k - dist q.desc_count q.desc_begin q.desc_end) y z
              (omega (arith, hi, behind)) y_in z_in (omega (arith, near, dy))
              (omega (arith, frag_near, dz, v.paired))
      ]

  moved-IsValid : IsValid (moved_end r w)
  unfolding get_desc_next set_desc_end
  moved-IsValid = rw filled.keeps (record {
    count = v.count;
    begin_in = v.begin_in;
    end_in = filled.desc.inside;
    next_in = v.next_in;
    device = omega (arith, desc_reach, v.device);
    pkt_begin_in = v.pkt_begin_in;
    pkt_end_in = v.pkt_end_in;
    frag_begin_in = v.frag_begin_in;
    frag_next_in = filled.frag.inside;
    frag_end_in = v.frag_end_in;
    frag_order =
        let split =
          dist_split _ q.fragment_ring.begin_index q.fragment_ring.next_index
            q.fragment_ring.end_index v.frag_begin_in v.frag_next_in v.frag_end_in v.frag_order in
        omega (arith, frag_reach, split, filled.frag.before_end);
    paired = omega (arith, desc_reach, frag_reach, v.paired);
    tail = refl;
    posted = λ k y z lo hi. all_posted k y z lo (omega (arith, desc_reach, hi));
  })

  -- The loop ends at the device's place only if it posted nothing.
  idle : w.desc_index ≡ get_desc_next q → (m ≡ 0) × (w.desc_index ≡ q.desc_end)
  idle e =
      let same : dist q.desc_count q.desc_begin w.desc_index
          ≡ dist q.desc_count q.desc_begin (get_desc_next q) =
        ap (dist q.desc_count q.desc_begin) e in
      let none_posted : m ≡ 0 = omega (arith, desc_reach, same, v.device) in
      (
        none_posted,
        sym (
            dist_zero q.desc_count q.desc_end w.desc_index v.end_in filled.desc.inside
              (filled.desc.steps ∙ none_posted)),
      )

  kept-IsValid : w.desc_index ≡ get_desc_next q → IsValid r
  unfolding get_desc_next
  kept-IsValid e =
      let (none_posted, _) = idle e in
      rw filled.keeps (record {
        count = v.count;
        begin_in = v.begin_in;
        end_in = v.end_in;
        next_in = v.next_in;
        device = v.device;
        pkt_begin_in = v.pkt_begin_in;
        pkt_end_in = v.pkt_end_in;
        frag_begin_in = v.frag_begin_in;
        frag_next_in = v.frag_next_in;
        frag_end_in = v.frag_end_in;
        frag_order = v.frag_order;
        paired = v.paired;
        tail = v.tail;
        posted = λ k y z lo hi. all_posted k y z lo (omega (arith, none_posted, hi));
      })

-- What the second half has done to a valid queue.
pub record Prepared (q s : RxQueue) : Type 0 where
  pub valid : IsValid s
  pub running : s.running ≡ q.running
  pub desc_begin : s.desc_begin ≡ q.desc_begin
  pub packet_ring : s.packet_ring ≡ q.packet_ring
  pub frag_begin : s.fragment_ring.begin_index ≡ q.fragment_ring.begin_index
  pub packets : s.packets ≡ q.packets
  pub fragments : s.fragments ≡ q.fragments
  pub tags : s.tags ≡ q.tags
  pub checksums : s.checksums ≡ q.checksums
  pub used_up :
      (dist s.desc_count s.desc_begin s.desc_end + 1 ≡ s.desc_count)
      ⊎ (s.fragment_ring.next_index ≡ s.fragment_ring.end_index)

module _ (q : RxQueue) (v : IsValid q) (r : RxQueue) (w : Refill) (m : ℕ)
    (filled : Refilled q (first_refill q) (limit q) r w m) where
  used_up :
      (dist q.desc_count q.desc_begin w.desc_index + 1 ≡ q.desc_count)
      ⊎ (w.frag_index ≡ q.fragment_ring.end_index)
  used_up = elim filled.stopped [
    | inl e ↦ inl (
        ap (λ t. dist q.desc_count q.desc_begin t + 1) e
        ∙ (dist-desc_full q.desc_begin v.count v.begin_in).1)
    | inr e ↦ inr e
  ]

  moved-Prepared : Prepared q (moved_end r w)
  unfolding set_desc_end
  moved-Prepared =
      let parts = used_up in
      let valid = moved-IsValid q v r w m filled in
      rw filled.keeps (record {
        valid = rw filled.keeps at valid;
        running = refl;
        desc_begin = refl;
        packet_ring = refl;
        frag_begin = refl;
        packets = refl;
        fragments = refl;
        tags = refl;
        checksums = refl;
        used_up = parts;
      })

  kept-Prepared : w.desc_index ≡ get_desc_next q → Prepared q r
  kept-Prepared e =
      let (none_posted, last) = idle q v r w m filled e in
      let parts = rw last at used_up in
      let frag : w.frag_index ≡ q.fragment_ring.next_index =
        sym (dist_zero _ _ _ v.frag_next_in filled.frag.inside (filled.frag.steps ∙ none_posted)) in
      let valid = kept-IsValid q v r w m filled e in
      rw filled.keeps (record {
        valid = rw filled.keeps at valid;
        running = refl;
        desc_begin = refl;
        packet_ring = refl;
        frag_begin = refl;
        packets = refl;
        fragments = refl;
        tags = refl;
        checksums = refl;
        used_up = rw frag at parts;
      })

module _ (net : NetAdapter) (laws : IsNetAdapter net) where
  prepare_returns :
      (q r : RxQueue) (w : Refill) (next : ℕ)
      → refill net q.desc_count (limit q) (q, first_refill q) ≡ some (r, w)
      → prepare net next q ≡ some (if w.desc_index == next then r else moved_end r w)
  unfolding prepare
  prepare_returns q r w next e = rw (e, prepare)

  -- The second half returns, keeps the invariant and hands out all the fragments that it can.
  pub prepare_lem :
      (q : RxQueue)
      → IsValid q
      → (s : RxQueue) × (prepare net (get_desc_next q) q ≡ some s) × Prepared q s
  prepare_lem q v =
      let (r, w, m, returns, filled) =
        refill_lem net laws q.desc_count (limit q) q (first_refill q) (CanRefill_first q v)
          (dist-lt _ _ _ v.end_in (CanRefill_first q v).full_in) in
      elim (Bool-cases (w.desc_index == get_desc_next q)) [
        | inl e ↦ (
          r,
          prepare_returns q r w _ returns ∙ rw e,
          kept-Prepared q v r w m filled ((==_iff _ _).0 e),
        )
        | inr e ↦
            (moved_end r w, prepare_returns q r w _ returns ∙ rw e, moved-Prepared q v r w m filled)
      ]

-- ===== src/Net/Rx/Indicate.antt =====
-- The first loop of `RxQueueAdvance`: it ends, moves the three indices together, and leaves all
-- but the memory of packets and fragments alone.
use woa_rk.Base.{
  ℕ, zero, suc, ◌+◌, ◌<◌, ◌≡◌, refl, ◌≢◌, ◌⊎◌, inl, inr, true, false, ◌||◌, ◌==◌, ==_ne, ==_iff,
  Bool-cases, some, arith,
}
use woa_rk.Net.Adapter.{NetAdapter, IsNetAdapter}
use woa_rk.Net.Queue.{IsDescriptorCount}
use woa_rk.Net.Ring.{dist, dist-succ_mod, succ_mod-lt, IsWalk, IsWalk-none, IsWalk-step, IsWalk-lt}
use woa_rk.Net.Index.{desc_next_lem}
use woa_rk.Net.Rx.Types.{RxQueue, own}
use woa_rk.Net.Rx.Packet.{receive}
use woa_rk.Net.Rx.Deliver.{Delivered, Delivered-none, Delivered-step}
use woa_rk.Net.Rx.Advance.{Cursor, indicate_one, indicate}

-- All but the packets and fragments and their extensions is the same.
abbrev pub KeepsRings : RxQueue → RxQueue → Type 0
KeepsRings q r = r ≡ record q {
  packets = r.packets;
  fragments = r.fragments;
  tags = r.tags;
  checksums = r.checksums;
}

-- The indices lie in their rings.
pub record InRings (q : RxQueue) (c : Cursor) (next : ℕ) : Type 0 where
  pub count : IsDescriptorCount q.desc_count
  pub next_in : next < q.desc_count
  pub desc_in : c.desc_index < q.desc_count
  pub pkt_in : c.pkt_index < q.packet_ring.number_of_elements
  pub frag_in : c.frag_index < q.fragment_ring.number_of_elements
  pub pkt_end_in : q.packet_ring.end_index < q.packet_ring.number_of_elements
  pub frag_end_in : q.fragment_ring.end_index < q.fragment_ring.number_of_elements

-- What `m` rounds of the loop have done.
pub record Indicated (net : NetAdapter) (q : RxQueue) (c : Cursor) (next : ℕ) (r : RxQueue)
    (d : Cursor) (m : ℕ) : Type 0 where
  pub keeps : KeepsRings q r
  pub desc : IsWalk q.desc_count c.desc_index next d.desc_index m
  pub pkt :
      IsWalk q.packet_ring.number_of_elements c.pkt_index q.packet_ring.end_index d.pkt_index m
  pub frag :
      IsWalk q.fragment_ring.number_of_elements c.frag_index q.fragment_ring.end_index d.frag_index
        m
  pub delivered : Delivered net q c.desc_index c.pkt_index c.frag_index r m
  pub done : d.done_frags ≡ c.done_frags + m
  pub released :
      (y : ℕ)
      → y < q.desc_count
      → dist q.desc_count c.desc_index y < m
      → own (q.descriptors y) ≡ false
  pub stopped :
      (d.desc_index ≡ next)
      ⊎ (d.pkt_index ≡ q.packet_ring.end_index)
      ⊎ (d.frag_index ≡ q.fragment_ring.end_index)
      ⊎ (own (q.descriptors d.desc_index) ≡ true)

module _ (net : NetAdapter) (laws : IsNetAdapter net) where
  indicate_one-InRings :
      (q : RxQueue) (c : Cursor) (next : ℕ)
      → InRings q c next
      → InRings (indicate_one net (q, c)).0 (indicate_one net (q, c)).1 next
  unfolding indicate_one receive
  indicate_one-InRings q c next v = record {
    count = v.count;
    next_in = v.next_in;
    desc_in = rw (desc_next_lem c.desc_index v.count v.desc_in) (succ_mod-lt _ _ v.desc_in);
    pkt_in =
        rw (laws.increment_wraps q.packet_ring c.pkt_index v.pkt_in) (succ_mod-lt _ _ v.pkt_in);
    frag_in =
        rw (laws.increment_wraps q.fragment_ring c.frag_index v.frag_in)
          (succ_mod-lt _ _ v.frag_in);
    pkt_end_in = v.pkt_end_in;
    frag_end_in = v.frag_end_in;
  }

  -- Each round comes one nearer to `descNext`.
  indicate_one_nearer :
      (q : RxQueue) (c : Cursor) (next : ℕ)
      → InRings q c next
      → c.desc_index ≢ next
      → dist (indicate_one net (q, c)).0.desc_count (indicate_one net (q, c)).1.desc_index next + 1
        ≡ dist q.desc_count c.desc_index next
  unfolding indicate_one receive
  indicate_one_nearer q c next v ne =
      rw (desc_next_lem c.desc_index v.count v.desc_in)
        (dist-succ_mod q.desc_count c.desc_index next v.desc_in v.next_in ne)

  Indicated-none :
      (q : RxQueue) (c : Cursor) (next own_count : ℕ)
      → InRings q c next
      → (c.desc_index ≡ next)
        ⊎ (c.pkt_index ≡ q.packet_ring.end_index)
        ⊎ (c.frag_index ≡ q.fragment_ring.end_index)
        ⊎ (own (q.descriptors c.desc_index) ≡ true)
      → Indicated net q c next q (record c { own_descriptors = own_count }) 0
  Indicated-none q c next own_count v why = record {
    keeps = refl;
    desc = IsWalk-none _ _ _ v.desc_in;
    pkt = IsWalk-none _ _ _ v.pkt_in;
    frag = IsWalk-none _ _ _ v.frag_in;
    delivered = Delivered-none net q _ _ _;
    done = omega arith;
    released = λ y _ none. absurd (omega (arith, none));
    stopped = why;
  }

  Indicated-step :
      (q : RxQueue) (c : Cursor) (next : ℕ) (r : RxQueue) (d : Cursor) (m : ℕ)
      → InRings q c next
      → c.desc_index ≢ next
      → c.pkt_index ≢ q.packet_ring.end_index
      → c.frag_index ≢ q.fragment_ring.end_index
      → own (q.descriptors c.desc_index) ≡ false
      → Indicated net (indicate_one net (q, c)).0 (indicate_one net (q, c)).1 next r d m
      → Indicated net q c next r d (m + 1)
  unfolding indicate_one receive
  Indicated-step q c next r d m v desc_ne pkt_ne frag_ne o w =
      let desc_eq = desc_next_lem c.desc_index v.count v.desc_in in
      let pkt_eq = laws.increment_wraps q.packet_ring c.pkt_index v.pkt_in in
      let frag_eq = laws.increment_wraps q.fragment_ring c.frag_index v.frag_in in
      let pkt = rw pkt_eq at w.pkt in
      let frag = rw frag_eq at w.frag in
      record {
        keeps = w.keeps;
        desc = IsWalk-step _ _ _ _ m v.desc_in v.next_in desc_ne (rw desc_eq at w.desc);
        pkt = IsWalk-step _ _ _ _ m v.pkt_in v.pkt_end_in pkt_ne pkt;
        frag = IsWalk-step _ _ _ _ m v.frag_in v.frag_end_in frag_ne frag;
        delivered =
            Delivered-step net q c.desc_index c.pkt_index c.frag_index r m v.desc_in v.pkt_in
              v.frag_in (IsWalk-lt (succ_mod-lt _ _ v.pkt_in) pkt)
              (IsWalk-lt (succ_mod-lt _ _ v.frag_in) frag)
              (rw (desc_eq, pkt_eq, frag_eq) at w.delivered);
        done = omega (arith, w.done);
        released = λ y y_in near. elim (Bool-cases (c.desc_index == y)) [
          | inl e ↦ rw (← (==_iff _ _).0 e) o
          | inr e ↦ w.released y y_in (
              rw desc_eq (
                omega (
                  arith,
                  dist-succ_mod q.desc_count c.desc_index y v.desc_in y_in (==_ne _ _ e),
                  near,
                )))
        ];
        stopped = w.stopped;
      }

  -- With fuel for the way to `next` the first loop returns.
  pub indicate_lem :
      (fuel next : ℕ) (q : RxQueue) (c : Cursor)
      → InRings q c next
      → dist q.desc_count c.desc_index next < fuel
      → (r : RxQueue) × (d : Cursor) × (m : ℕ) × (indicate net fuel next (q, c) ≡ some (r, d))
        × Indicated net q c next r d m
  unfolding indicate
  indicate_lem zero next q c v h = elim h [ ]
  indicate_lem (suc fuel) next q c v h = elim (Bool-cases (c.desc_index == next)) [
    | inl e ↦ (q, c, 0, rw e, Indicated-none q c next c.own_descriptors v (inl ((==_iff _ _).0 e)))
    | inr e ↦
        elim (Bool-cases
          (c.pkt_index == q.packet_ring.end_index || c.frag_index == q.fragment_ring.end_index)) [
            | inl g ↦
                (q, c, 0, rw (e, g), Indicated-none q c next c.own_descriptors v (ground arith))
            | inr g ↦ elim (Bool-cases (own (q.descriptors c.desc_index))) [
              | inl o ↦ (
                q,
                record c { own_descriptors = 1 },
                0,
                rw (e, g, o),
                Indicated-none q c next 1 v (inr (inr (inr o))),
              )
              | inr o ↦
                  let ne : c.desc_index ≢ next = ==_ne _ _ e in
                  let v' = indicate_one-InRings q c next v in
                  let (r, d, m, returns, rest) =
                    indicate_lem fuel next (indicate_one net (q, c)).0 (indicate_one net (q, c)).1
                      v' (omega (arith, indicate_one_nearer q c next v ne)) in
                  (
                    r,
                    d,
                    m + 1,
                    rw (e, g, o) returns,
                    Indicated-step q c next r d m v ne (ground arith) (ground arith) o rest,
                  )
            ]
          ]
  ]

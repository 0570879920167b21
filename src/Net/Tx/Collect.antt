-- ===== src/Net/Tx/Collect.antt =====
-- `SkipIgnorePackets` and the first loop of `TxQueueAdvance`.
use woa_rk.Base.{
  ℕ, zero, suc, ◌+◌, ◌<◌, ◌≡◌, refl, ◌∙◌, ◌≢◌, ◌⊎◌, inl, inr, true, false, Bool-cases, ◌==◌, ==_ne,
  ==_iff, if◌then◌else◌, some, arith,
}
use woa_rk.Net.Adapter.{NetAdapter, IsNetAdapter, succ_mod}
use woa_rk.Net.Queue.{IsDescriptorCount}
use woa_rk.Net.Index.{desc_next, desc_next_lem}
use woa_rk.Net.Ring.{dist, dist-lt, dist-succ_mod, succ_mod-lt, IsWalk, IsWalk-none, IsWalk-step}
use woa_rk.Net.Tx.Types.{TxQueue, own, context_type, last_descriptor}
use woa_rk.Net.Tx.Advance.{
  Done, stop, go, turns, skip_turn, skip_ignore_packets, complete, done_turn, collect,
}
use woa_rk.Net.Tx.Fill.{turns_stop, turns_go}

-- Why the loop stops: at the end of the transmit region, or at a descriptor of the device.
abbrev pub Waits : TxQueue → ℕ → Type 0
Waits q i = (i ≡ q.desc_end) ⊎ (own (q.descriptors i) ≡ true)

-- What the loop has passed from the index `i` on: `k` descriptors that the device has released.
pub record Collected (q : TxQueue) (i : ℕ) (d : Done) (k : ℕ) : Type 0 where
  pub walked : IsWalk q.desc_count i q.desc_end d.desc_index k
  pub pkt_in : d.pkt_index < q.packet_ring.number_of_elements
  pub released :
      (y : ℕ) → y < q.desc_count → dist q.desc_count i y < k → own (q.descriptors y) ≡ false
  pub stopped : Waits q d.desc_index

module _ (net : NetAdapter) (laws : IsNetAdapter net) where
  -- From `pkt` the scan comes to the first packet that is not ignored, or to the next index.
  Skipped : TxQueue → ℕ → ℕ → Type 0
  Skipped q pkt p =
      (p < q.packet_ring.number_of_elements)
      × ((p ≡ q.packet_ring.next_index) ⊎ ((q.packets p).ignore ≡ false))

  skip_turn_lem :
      (fuel : ℕ) (q : TxQueue) (pkt : ℕ)
      → pkt < q.packet_ring.number_of_elements
      → q.packet_ring.next_index < q.packet_ring.number_of_elements
      → dist q.packet_ring.number_of_elements pkt q.packet_ring.next_index < fuel
      → (p : ℕ) × (turns (skip_turn net q) fuel pkt ≡ some p) × Skipped q pkt p
  unfolding skip_turn Skipped
  skip_turn_lem zero q pkt inside last enough = absurd (omega (arith, enough))
  skip_turn_lem (suc fuel) q pkt inside last enough =
      elim (Bool-cases (pkt == q.packet_ring.next_index)) [
        | inl e ↦ (pkt, turns_stop _ fuel pkt (rw e refl), (inside, inl ((==_iff _ _).0 e)))
        | inr e ↦ elim (Bool-cases ((q.packets pkt).ignore)) [
          | inr i ↦ (pkt, turns_stop _ fuel pkt (rw (e, i) refl), (inside, inr i))
          | inl i ↦
              let n = q.packet_ring.number_of_elements in
              let wraps = laws.increment_wraps q.packet_ring pkt inside in
              let (p, returns, there) =
                skip_turn_lem fuel q (net.increment q.packet_ring pkt)
                  (rw wraps (succ_mod-lt n pkt inside)) last
                  (rw wraps (
                    omega (
                      arith,
                      dist-succ_mod n pkt q.packet_ring.next_index inside last (==_ne _ _ e),
                      enough,
                    ))) in
              (p, turns_go _ fuel pkt _ (rw (e, i) refl) ∙ returns, there)
        ]
      ]

  skip_found :
      (q : TxQueue) (pkt frag p : ℕ)
      → turns (skip_turn net q) q.packet_ring.number_of_elements pkt ≡ some p
      → skip_ignore_packets net q pkt frag
        ≡ some (p, if p == q.packet_ring.next_index then frag else (q.packets p).fragment_index)
  unfolding skip_ignore_packets
  skip_found q pkt frag p e = rw (e, skip_ignore_packets) refl

  skip_lem :
      (q : TxQueue) (pkt frag : ℕ)
      → pkt < q.packet_ring.number_of_elements
      → q.packet_ring.next_index < q.packet_ring.number_of_elements
      → (p f : ℕ) × (skip_ignore_packets net q pkt frag ≡ some (p, f)) × Skipped q pkt p
  skip_lem q pkt frag inside last =
      let (p, returns, there) =
        skip_turn_lem q.packet_ring.number_of_elements q pkt inside last
          (dist-lt _ pkt q.packet_ring.next_index inside last) in
      (
        p,
        if p == q.packet_ring.next_index then frag else (q.packets p).fragment_index,
        skip_found q pkt frag p returns,
        there,
      )

  GoesOn : TxQueue → Done → Type 0
  GoesOn q c =
      (pkt frag : ℕ) × (done_turn net q c
        ≡ go (record {
          desc_index = desc_next q.desc_count c.desc_index;
          pkt_index = pkt;
          frag_index = frag;
        }))
      × (pkt < q.packet_ring.number_of_elements)
      × (c.desc_index ≢ q.desc_end)
      × (own (q.descriptors c.desc_index) ≡ false)

  complete_go :
      (q : TxQueue) (c : Done) (pkt frag : ℕ)
      → skip_ignore_packets net q (net.increment q.packet_ring c.pkt_index) (
          net.advance q.fragment_ring
            (q.packets c.pkt_index).fragment_index
            (q.packets c.pkt_index).fragment_count)
        ≡ some (pkt, frag)
      → complete net q c
        ≡ go (record {
          desc_index = desc_next q.desc_count c.desc_index;
          pkt_index = pkt;
          frag_index = frag;
        })
  unfolding complete
  complete_go q c pkt frag e = rw (e, complete) refl

  collect_starts :
      (q : TxQueue) (pkt frag : ℕ)
      → skip_ignore_packets net q q.packet_ring.begin_index q.fragment_ring.begin_index
        ≡ some (pkt, frag)
      → collect net q
        ≡ turns
            (done_turn net q)
            q.desc_count
            (record { desc_index = q.desc_begin; pkt_index = pkt; frag_index = frag })
  unfolding collect
  collect_starts q pkt frag e = rw (e, collect) refl

  complete_lem :
      (q : TxQueue) (c : Done)
      → c.pkt_index < q.packet_ring.number_of_elements
      → q.packet_ring.next_index < q.packet_ring.number_of_elements
      → (pkt frag : ℕ) × (complete net q c
          ≡ go (record {
            desc_index = desc_next q.desc_count c.desc_index;
            pkt_index = pkt;
            frag_index = frag;
          }))
        × (pkt < q.packet_ring.number_of_elements)
  unfolding Skipped
  complete_lem q c inside last =
      let wraps = laws.increment_wraps q.packet_ring c.pkt_index inside in
      let (p, f, returns, there) =
        skip_lem q (net.increment q.packet_ring c.pkt_index)
          (net.advance q.fragment_ring (q.packets c.pkt_index).fragment_index
            (q.packets c.pkt_index).fragment_count)
          (rw wraps (succ_mod-lt _ c.pkt_index inside)) last in
      (p, f, complete_go q c p f returns, there.0)

  done_turn_lem :
      (q : TxQueue) (c : Done)
      → c.pkt_index < q.packet_ring.number_of_elements
      → q.packet_ring.next_index < q.packet_ring.number_of_elements
      → ((done_turn net q c ≡ stop) × Waits q c.desc_index) ⊎ GoesOn q c
  unfolding done_turn GoesOn
  done_turn_lem q c inside last = elim (Bool-cases (c.desc_index == q.desc_end)) [
    | inl e1 ↦ inl (rw e1 refl, inl ((==_iff _ _).0 e1))
    | inr e1 ↦ elim (Bool-cases (own (q.descriptors c.desc_index))) [
      | inl e2 ↦ inl (rw (e1, e2) refl, inr e2)
      | inr e2 ↦ elim (Bool-cases (context_type (q.descriptors c.desc_index))) [
        | inl e3 ↦ inr (c.pkt_index, c.frag_index, rw (e1, e2, e3) refl, inside, ==_ne _ _ e1, e2)
        | inr e3 ↦ elim (Bool-cases (last_descriptor (q.descriptors c.desc_index))) [
          | inl e4 ↦
              let (p, f, returns, p_in) = complete_lem q c inside last in
              inr (p, f, rw (e1, e2, e3, e4) returns, p_in, ==_ne _ _ e1, e2)
          | inr e4 ↦
              inr (c.pkt_index, c.frag_index, rw (e1, e2, e3, e4) refl, inside, ==_ne _ _ e1, e2)
        ]
      ]
    ]
  ]

  collect_on :
      (q : TxQueue) (i : ℕ) (d : Done) (k : ℕ)
      → i < q.desc_count
      → q.desc_end < q.desc_count
      → i ≢ q.desc_end
      → own (q.descriptors i) ≡ false
      → Collected q (succ_mod q.desc_count i) d k
      → Collected q i d (k + 1)
  collect_on q i d k h last ne o w = record {
    walked = IsWalk-step _ i q.desc_end d.desc_index k h last ne w.walked;
    pkt_in = w.pkt_in;
    released = λ y y_in near. elim (Bool-cases (i == y)) [
      | inl e ↦ rw (← (==_iff _ _).0 e) o
      | inr e ↦
          w.released y y_in
            (omega (arith, dist-succ_mod q.desc_count i y h y_in (==_ne _ _ e), near))
    ];
    stopped = w.stopped;
  }

  done_lem :
      (fuel : ℕ) (q : TxQueue) (c : Done)
      → IsDescriptorCount q.desc_count
      → c.desc_index < q.desc_count
      → q.desc_end < q.desc_count
      → c.pkt_index < q.packet_ring.number_of_elements
      → q.packet_ring.next_index < q.packet_ring.number_of_elements
      → dist q.desc_count c.desc_index q.desc_end < fuel
      → (d : Done) × (k : ℕ) × (turns (done_turn net q) fuel c ≡ some d)
        × Collected q c.desc_index d k
  unfolding GoesOn
  done_lem zero q c v h end inside last enough = absurd (omega (arith, enough))
  done_lem (suc fuel) q c v h end inside last enough = elim (done_turn_lem q c inside last) [
    | inl (e, why) ↦ (
      c,
      0,
      turns_stop (done_turn net q) fuel c e,
      record {
        walked = IsWalk-none _ c.desc_index q.desc_end h;
        pkt_in = inside;
        released = λ y _ none. absurd (omega (arith, none));
        stopped = why;
      },
    )
    | inr (pkt, frag, e, pkt_in, ne, o) ↦
        let next = desc_next_lem c.desc_index v h in
        let (d, k, returns, w) =
          done_lem fuel q
            (record {
              desc_index = desc_next q.desc_count c.desc_index;
              pkt_index = pkt;
              frag_index = frag;
            })
            v (rw next (succ_mod-lt _ c.desc_index h)) end pkt_in last
            (rw next (
              omega
                (arith, dist-succ_mod q.desc_count c.desc_index q.desc_end h end ne, enough))) in
        (
          d,
          k + 1,
          turns_go (done_turn net q) fuel c _ e ∙ returns,
          collect_on q c.desc_index d k h end ne o (rw next at w),
        )
  ]

  -- The first loop returns: it passes the descriptors that the device has released.
  pub collect_lem :
      (q : TxQueue)
      → IsDescriptorCount q.desc_count
      → q.desc_begin < q.desc_count
      → q.desc_end < q.desc_count
      → q.packet_ring.begin_index < q.packet_ring.number_of_elements
      → q.packet_ring.next_index < q.packet_ring.number_of_elements
      → (d : Done) × (k : ℕ) × (collect net q ≡ some d) × Collected q q.desc_begin d k
  unfolding Skipped
  collect_lem q v begin end inside last =
      let (p, f, skipped, there) =
        skip_lem q q.packet_ring.begin_index q.fragment_ring.begin_index inside last in
      let (d, k, returns, w) =
        done_lem q.desc_count q
          (record { desc_index = q.desc_begin; pkt_index = p; frag_index = f }) v begin end there.0
          last (dist-lt _ q.desc_begin q.desc_end begin end) in
      (d, k, collect_starts q p f skipped ∙ returns, w)

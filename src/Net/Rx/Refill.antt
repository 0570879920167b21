-- ===== src/Net/Rx/Refill.antt =====
-- The second loop of `RxQueueAdvance`: it ends, and hands one descriptor to the device for each
-- new fragment, until it runs out of fragments or of free descriptors.
use woa_rk.Base.{
  ℕ, zero, suc, ◌+◌, ◌≤◌, ◌<◌, ◌≡◌, refl, ◌∙◌, ◌≢◌, ◌⊎◌, inl, inr, ◌==◌, ==_ne, ==_iff, Bool-cases,
  some, arith,
}
use woa_rk.Net.Adapter.{NetAdapter, IsNetAdapter}
use woa_rk.Net.Queue.{IsDescriptorCount}
use woa_rk.Net.Ring.{
  dist, dist_zero, dist_pos-ne, dist-succ_mod, dist-succ_mod-suc, dist-succ_mod_self, succ_mod-lt,
  IsWalk, IsWalk-none, IsWalk-step, IsWalk-lt,
}
use woa_rk.Net.Index.{desc_next_lem}
use woa_rk.Net.Rx.Types.{RxQueue, read_descriptor}
use woa_rk.Net.Rx.Deliver.{update_self, update_ne}
use woa_rk.Net.Rx.Advance.{Refill, refill_one, refill}

module _ (q : RxQueue) (v : Refill) (full : ℕ) where
  pub record CanRefill : Type 0 where
    pub count : IsDescriptorCount q.desc_count
    pub full_in : full < q.desc_count
    pub desc_in : v.desc_index < q.desc_count
    pub frag_in : v.frag_index < q.fragment_ring.number_of_elements
    pub frag_end_in : q.fragment_ring.end_index < q.fragment_ring.number_of_elements

  -- `m` rounds of the loop: the descriptors within `m` steps are the device's, each over the
  -- buffer of the fragment at the same distance, and all others are as before.
  pub record Refilled (r : RxQueue) (w : Refill) (m : ℕ) : Type 0 where
    pub keeps : r ≡ record q { descriptors = r.descriptors }
    pub desc : IsWalk q.desc_count v.desc_index full w.desc_index m
    pub frag :
        IsWalk q.fragment_ring.number_of_elements v.frag_index q.fragment_ring.end_index
          w.frag_index m
    pub queued : w.queued_frags ≡ v.queued_frags + m
    pub stopped : (w.desc_index ≡ full) ⊎ (w.frag_index ≡ q.fragment_ring.end_index)
    pub posted :
        (k y z : ℕ)
        → k < m
        → y < q.desc_count
        → z < q.fragment_ring.number_of_elements
        → dist q.desc_count v.desc_index y ≡ k
        → dist q.fragment_ring.number_of_elements v.frag_index z ≡ k
        → r.descriptors y ≡ read_descriptor (q.logical_address z)
    pub other :
        (y : ℕ)
        → y < q.desc_count
        → m ≤ dist q.desc_count v.desc_index y
        → r.descriptors y ≡ q.descriptors y

Refilled-none :
    (q : RxQueue) (v : Refill) (full : ℕ)
    → CanRefill q v full
    → (v.desc_index ≡ full) ⊎ (v.frag_index ≡ q.fragment_ring.end_index)
    → Refilled q v full q v 0
Refilled-none q v full c why = record {
  keeps = refl;
  desc = IsWalk-none _ _ _ c.desc_in;
  frag = IsWalk-none _ _ _ c.frag_in;
  queued = omega arith;
  stopped = why;
  posted = λ k y z h. elim h [ ];
  other = λ y _ _. refl;
}

module _ (net : NetAdapter) (laws : IsNetAdapter net) where
  Refilled-step :
      (q : RxQueue) (v : Refill) (full : ℕ) (r : RxQueue) (w : Refill) (m : ℕ)
      → CanRefill q v full
      → v.desc_index ≢ full
      → v.frag_index ≢ q.fragment_ring.end_index
      → Refilled (refill_one net (q, v)).0 (refill_one net (q, v)).1 full r w m
      → Refilled q v full r w (m + 1)
  unfolding refill_one
  Refilled-step q v full r w m c desc_ne frag_ne rest =
      let desc_eq = desc_next_lem v.desc_index c.count c.desc_in in
      let frag_eq = laws.increment_wraps q.fragment_ring v.frag_index c.frag_in in
      let desc = rw desc_eq at rest.desc in
      let room = IsWalk-lt (succ_mod-lt _ _ c.desc_in) desc in
      record {
        keeps = rest.keeps;
        desc = IsWalk-step _ _ _ _ m c.desc_in c.full_in desc_ne desc;
        frag = IsWalk-step _ _ _ _ m c.frag_in c.frag_end_in frag_ne (rw frag_eq at rest.frag);
        queued = omega (arith, rest.queued);
        stopped = rest.stopped;
        posted = λ k.
            elim k
              as (λ k.
                (y z : ℕ)
                → k < m + 1
                → y < q.desc_count
                → z < q.fragment_ring.number_of_elements
                → dist q.desc_count v.desc_index y ≡ k
                → dist q.fragment_ring.number_of_elements v.frag_index z ≡ k
                → r.descriptors y ≡ read_descriptor (q.logical_address z)) [
                  | zero ↦ λ y z h y_in z_in dy dz.
                      rw (← dist_zero _ _ y c.desc_in y_in dy, ← dist_zero _ _ z c.frag_in z_in dz)
                        (rest.other v.desc_index c.desc_in
                            (rw desc_eq (omega (arith, dist-succ_mod_self _ _ c.desc_in)))
                          ∙ update_self q.descriptors v.desc_index _)
                  | suc k ↦ λ y z h y_in z_in dy dz.
                      rest.posted k y z (omega arith) y_in z_in
                        (rw desc_eq (dist-succ_mod-suc _ _ y k c.desc_in y_in dy))
                        (rw frag_eq (dist-succ_mod-suc _ _ z k c.frag_in z_in dz))
                ];
        other = λ y y_in h.
            let ne = dist_pos-ne _ _ y m h in
            rest.other y y_in (rw desc_eq (omega (arith, dist-succ_mod _ _ y c.desc_in y_in ne)))
            ∙ update_ne q.descriptors v.desc_index y _ ne;
      }

  CanRefill_step :
      (q : RxQueue) (v : Refill) (full : ℕ)
      → CanRefill q v full
      → CanRefill (refill_one net (q, v)).0 (refill_one net (q, v)).1 full
  unfolding refill_one
  CanRefill_step q v full c = record {
    count = c.count;
    full_in = c.full_in;
    desc_in = rw (desc_next_lem v.desc_index c.count c.desc_in) (succ_mod-lt _ _ c.desc_in);
    frag_in =
        rw (laws.increment_wraps q.fragment_ring v.frag_index c.frag_in)
          (succ_mod-lt _ _ c.frag_in);
    frag_end_in = c.frag_end_in;
  }

  refill_one_nearer :
      (q : RxQueue) (v : Refill) (full : ℕ)
      → CanRefill q v full
      → v.desc_index ≢ full
      → dist (refill_one net (q, v)).0.desc_count (refill_one net (q, v)).1.desc_index full + 1
        ≡ dist q.desc_count v.desc_index full
  unfolding refill_one
  refill_one_nearer q v full c ne =
      rw (desc_next_lem v.desc_index c.count c.desc_in)
        (dist-succ_mod _ _ full c.desc_in c.full_in ne)

  -- With fuel for the way to `descFull` the second loop returns.
  pub refill_lem :
      (fuel full : ℕ) (q : RxQueue) (v : Refill)
      → CanRefill q v full
      → dist q.desc_count v.desc_index full < fuel
      → (r : RxQueue) × (w : Refill) × (m : ℕ) × (refill net fuel full (q, v) ≡ some (r, w))
        × Refilled q v full r w m
  unfolding refill
  refill_lem zero full q v c h = elim h [ ]
  refill_lem (suc fuel) full q v c h = elim (Bool-cases (v.desc_index == full)) [
    | inl e ↦ (q, v, 0, rw e, Refilled-none q v full c (inl ((==_iff _ _).0 e)))
    | inr e ↦ elim (Bool-cases (v.frag_index == q.fragment_ring.end_index)) [
      | inl g ↦ (q, v, 0, rw (e, g), Refilled-none q v full c (inr ((==_iff _ _).0 g)))
      | inr g ↦
          let ne : v.desc_index ≢ full = ==_ne _ _ e in
          let (r, w, m, returns, rest) =
            refill_lem fuel full (refill_one net (q, v)).0 (refill_one net (q, v)).1
              (CanRefill_step q v full c) (omega (arith, refill_one_nearer q v full c ne)) in
          (r, w, m + 1, rw (e, g) returns, Refilled-step q v full r w m c ne (==_ne _ _ g) rest)
    ]
  ]

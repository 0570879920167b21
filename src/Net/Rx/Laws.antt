-- ===== src/Net/Rx/Laws.antt =====
-- `RxQueueAdvance` as a whole: on a running queue, on a cancelled one, and its first call.
use woa_rk.Base.{ℕ, ◌+◌, ◌≤◌, ◌<◌, ◌≡◌, ap, ◌∙◌, ◌≢◌, ◌⊎◌, true, false, Option, none, some, arith}
use woa_rk.Net.Adapter.{NetAdapter, IsNetAdapter}
use woa_rk.Net.Ring.{dist, dist-lt}
use woa_rk.Net.Rx.Types.{RxQueue, own}
use woa_rk.Net.Rx.Deliver.{Reports}
use woa_rk.Net.Rx.Advance.{Cursor, get_desc_next, indicate, settle, prepare, advance}
use woa_rk.Net.Rx.Received.{Says, received-Says}
use woa_rk.Net.Rx.Indicate.{Indicated, indicate_lem}
use woa_rk.Net.Rx.Inv.{IsValid, first_cursor, handed_over, IsValid-InRings, handed_over-IsValid}
use woa_rk.Net.Rx.Prepare.{Prepared, prepare_lem}

-- The device has released the descriptor `y`, and packet `x` with the fragment `z` is what its bits
-- say.
pub record Handed (net : NetAdapter) (q : RxQueue) (y x z : ℕ) (r : RxQueue) : Type 0 where
  pub released : own (q.descriptors y) ≡ false
  pub reports : Reports net q y x z r
  pub says :
      Says
        (q.descriptors y)
        z
        (q.packets x)
        (q.checksums x)
        (r.packets x)
        (r.fragments z)
        (r.checksums x)

-- The first `done` packets, each with a descriptor and a fragment, were handed over.
abbrev pub AllHanded : (net : NetAdapter) (q s : RxQueue) (done : ℕ) → Type 0
AllHanded net q s done =
    (k y x z : ℕ)
    → k < done
    → y < q.desc_count
    → x < q.packet_ring.number_of_elements
    → z < q.fragment_ring.number_of_elements
    → dist q.desc_count q.desc_begin y ≡ k
    → dist q.packet_ring.number_of_elements q.packet_ring.begin_index x ≡ k
    → dist q.fragment_ring.number_of_elements q.fragment_ring.begin_index z ≡ k
    → Handed net q y x z s

-- What the call has done to a running queue: it handed `done` packets over, each as its
-- descriptor says, and posted all the new fragments that it could.
pub record Advanced (net : NetAdapter) (q s : RxQueue) (done : ℕ) : Type 0 where
  pub valid : IsValid s
  pub running : s.running ≡ q.running
  pub descriptors_done : dist q.desc_count q.desc_begin s.desc_begin ≡ done
  pub packets_done :
      dist q.packet_ring.number_of_elements q.packet_ring.begin_index s.packet_ring.begin_index
      ≡ done
  pub fragments_done :
      dist q.fragment_ring.number_of_elements q.fragment_ring.begin_index
        s.fragment_ring.begin_index
      ≡ done
  pub handed : AllHanded net q s done
  pub stopped :
      (s.desc_begin ≡ get_desc_next q)
      ⊎ (s.packet_ring.begin_index ≡ q.packet_ring.end_index)
      ⊎ (s.fragment_ring.begin_index ≡ q.fragment_ring.end_index)
      ⊎ (own (q.descriptors s.desc_begin) ≡ true)
  pub used_up :
      (dist s.desc_count s.desc_begin s.desc_end + 1 ≡ s.desc_count)
      ⊎ (s.fragment_ring.next_index ≡ s.fragment_ring.end_index)

module _ (net : NetAdapter) (laws : IsNetAdapter net) where
  abbrev with_counts : Cursor → Option RxQueue → Option (RxQueue × ℕ × ℕ)
  with_counts c o = elim o [ none ↦ none | some s ↦ some (s, c.own_descriptors, c.done_frags) ]

  advance_returns :
      (q r : RxQueue) (c : Cursor)
      → indicate net q.desc_count (get_desc_next q) (q, first_cursor q) ≡ some (r, c)
      → advance net q ≡ with_counts c (settle net (get_desc_next q) (r, c))
  unfolding advance
  advance_returns q r c e = rw (e, advance)

  settle_running :
      (next : ℕ) (r : RxQueue) (c : Cursor)
      → r.running ≡ true
      → settle net next (r, c) ≡ prepare net next (handed_over r c)
  unfolding settle
  settle_running next r c e = rw (e, settle)

  -- What the loop has delivered is still there if the rest has changed none of these packets.
  AllHanded-of :
      (q r : RxQueue) (c : Cursor) (m : ℕ)
      → Indicated net q (first_cursor q) (get_desc_next q) r c m
      → (s : RxQueue)
      → ((x : ℕ)
          → x < q.packet_ring.number_of_elements
          → dist q.packet_ring.number_of_elements q.packet_ring.begin_index x < c.done_frags
          → s.packets x ≡ r.packets x)
      → s.fragments ≡ r.fragments
      → s.tags ≡ r.tags
      → s.checksums ≡ r.checksums
      → AllHanded net q s c.done_frags
  AllHanded-of q r c m i s packets fragments tags checksums k y x z h y_in x_in z_in dy dx dz =
      let old = i.delivered.reports k y x z (omega (arith, h, i.done)) y_in x_in z_in dy dx dz in
      let packet = packets x x_in (omega (arith, dx, h)) ∙ old.packet in
      let fragment = ap (λ f. f z) fragments ∙ old.fragment in
      let evaluation = ap (λ f. f x) checksums ∙ old.evaluation in
      record {
        released = i.released y y_in (omega (arith, dy, h, i.done));
        reports = record {
          packet = packet;
          fragment = fragment;
          tag = ap (λ f. f x) tags ∙ old.tag;
          evaluation = evaluation;
        };
        says =
            received-Says net laws (q.descriptors y) z (q.packets x) (q.checksums x) (s.packets x)
              (s.fragments z) (s.checksums x) packet fragment evaluation;
      }

  Advanced-of :
      (q r : RxQueue) (c : Cursor) (m : ℕ) (s : RxQueue)
      → Indicated net q (first_cursor q) (get_desc_next q) r c m
      → Prepared (handed_over r c) s
      → Advanced net q s c.done_frags
  Advanced-of q r c m s i p =
      let pkt : s.packet_ring.begin_index ≡ c.pkt_index = ap (λ g. g.begin_index) p.packet_ring in
      record {
        valid = p.valid;
        running = p.running ∙ ap (λ t. t.running) i.keeps;
        descriptors_done =
            ap (dist q.desc_count q.desc_begin) p.desc_begin ∙ omega (arith, i.desc.steps, i.done);
        packets_done =
            ap (dist q.packet_ring.number_of_elements q.packet_ring.begin_index) pkt
            ∙ omega (arith, i.pkt.steps, i.done);
        fragments_done =
            ap (dist q.fragment_ring.number_of_elements q.fragment_ring.begin_index) p.frag_begin
            ∙ omega (arith, i.frag.steps, i.done);
        handed =
            AllHanded-of q r c m i s (λ x _ _. ap (λ f. f x) p.packets) p.fragments p.tags
              p.checksums;
        stopped = rw (p.desc_begin, pkt, p.frag_begin) i.stopped;
        used_up = p.used_up;
      }

module _ (net : NetAdapter) (laws : IsNetAdapter net) (q : RxQueue) (v : IsValid q) where
  first_half :
      (r : RxQueue) × (c : Cursor) × (m : ℕ) × (indicate net q.desc_count
          (get_desc_next q)
          (q, first_cursor q)
        ≡ some (r, c))
      × Indicated net q (first_cursor q) (get_desc_next q) r c m
  first_half =
      indicate_lem net laws q.desc_count (get_desc_next q) q (first_cursor q) (IsValid-InRings q v)
        (dist-lt _ _ _ v.begin_in v.next_in)

  -- On a valid queue that runs, `RxQueueAdvance` returns, keeps the invariant, hands the received
  -- packets, whose descriptors the device has released, over as their descriptors say until it meets the device or the end of a ring, and
  -- then posts new fragments until the fragments or the free descriptors are used up.
  pub advance_running :
      q.running ≡ true
      → (s : RxQueue) × (own_count done : ℕ) × (advance net q ≡ some (s, own_count, done))
        × Advanced net q s done
  advance_running run =
      let (r, c, m, returns, i) = first_half in
      let same : get_desc_next (handed_over r c) ≡ get_desc_next q =
        unfold get_desc_next in ap (λ t. get_desc_next t) i.keeps in
      let (s, prepared, p) =
        prepare_lem net laws (handed_over r c) (handed_over-IsValid net q r c m v i) in
      (
        s,
        c.own_descriptors,
        c.done_frags,
        advance_returns net laws q r c returns
            ∙ ap (with_counts net laws c) (
                settle_running net laws _ r c (ap (λ t. t.running) i.keeps ∙ run)
                ∙ (rw same at prepared)),
        Advanced-of net laws q r c m s i p,
      )

  -- What the call has done to a cancelled queue: while the device has not stopped it hands over
  -- what was received; once it has, both rings are empty and every packet that was not received
  -- is marked to be ignored.
  pub record Drained (s : RxQueue) (done : ℕ) : Type 0 where
    pub descriptors_done : dist q.desc_count q.desc_begin s.desc_begin ≡ done
    pub handed : AllHanded net q s done
    pub stopped :
        (s.desc_begin ≡ get_desc_next q)
        ⊎ (own (q.descriptors s.desc_begin) ≡ true)
        ⊎ (dist q.packet_ring.number_of_elements q.packet_ring.begin_index q.packet_ring.end_index
            ≡ done)
        ⊎ (dist q.fragment_ring.number_of_elements q.fragment_ring.begin_index
              q.fragment_ring.end_index
            ≡ done)
    pub pending : s.desc_begin ≢ get_desc_next q → IsValid s
    pub packets_back :
        s.desc_begin ≡ get_desc_next q → s.packet_ring.begin_index ≡ s.packet_ring.end_index
    pub fragments_back :
        s.desc_begin ≡ get_desc_next q → s.fragment_ring.begin_index ≡ s.fragment_ring.end_index
    pub rest_ignored :
        (x : ℕ)
        → s.desc_begin ≡ get_desc_next q
        → x < q.packet_ring.number_of_elements
        → done ≤ dist q.packet_ring.number_of_elements q.packet_ring.begin_index x
        → dist q.packet_ring.number_of_elements q.packet_ring.begin_index x
          < dist q.packet_ring.number_of_elements q.packet_ring.begin_index q.packet_ring.end_index
        → (s.packets x).ignore ≡ true

-- ===== src/Net/Rx/GiveBack.antt =====
-- The end of `RxQueueAdvance` on a queue that was cancelled and whose device has stopped: all
-- packets and fragments go back.
use woa_rk.Base.{
  ℕ, zero, suc, ◌+◌, ◌≤◌, ◌<◌, ◌≡◌, refl, sym, ap, ◌∙◌, ◌≢◌, true, inl, inr, ◌==◌, ==_ne, ==_iff,
  Bool-cases, some, update, arith,
}
use woa_rk.Net.Adapter.{NetAdapter, IsNetAdapter, succ_mod}
use woa_rk.Net.Ring.{
  dist, dist_self, dist_pos-ne, dist-lt, dist-succ_mod, dist-succ_mod_self, succ_mod-lt,
}
use woa_rk.Net.Rx.Types.{RxQueue}
use woa_rk.Net.Rx.Deliver.{update_self, update_ne}
use woa_rk.Net.Rx.Advance.{ignore_rest, give_back}

-- The packets from `pkt` up to the end of the ring are marked, the others are as before.
pub record Ignored (q : RxQueue) (pkt : ℕ) (r : RxQueue) : Type 0 where
  pub keeps : r ≡ record q { packets = r.packets }
  pub marked :
      (x : ℕ)
      → x < q.packet_ring.number_of_elements
      → dist q.packet_ring.number_of_elements pkt x
        < dist q.packet_ring.number_of_elements pkt q.packet_ring.end_index
      → (r.packets x).ignore ≡ true
  pub other :
      (x : ℕ)
      → x < q.packet_ring.number_of_elements
      → dist q.packet_ring.number_of_elements pkt q.packet_ring.end_index
        ≤ dist q.packet_ring.number_of_elements pkt x
      → r.packets x ≡ q.packets x

Ignored-none : (q : RxQueue) (pkt : ℕ) → pkt ≡ q.packet_ring.end_index → Ignored q pkt q
Ignored-none q pkt e =
    let none_left : dist q.packet_ring.number_of_elements pkt q.packet_ring.end_index ≡ 0 =
      ap (dist q.packet_ring.number_of_elements pkt) (sym e) ∙ dist_self _ pkt in
    record {
      keeps = refl;
      marked = λ x _ h. absurd (omega (arith, none_left));
      other = λ x _ _. refl;
    }

Ignored-step :
    (q : RxQueue) (pkt : ℕ) (r : RxQueue)
    → pkt < q.packet_ring.number_of_elements
    → q.packet_ring.end_index < q.packet_ring.number_of_elements
    → pkt ≢ q.packet_ring.end_index
    → Ignored
        (record q { packets = update q.packets pkt (record (q.packets pkt) { ignore = true }) })
        (succ_mod q.packet_ring.number_of_elements pkt)
        r
    → Ignored q pkt r
Ignored-step q pkt r pkt_in end_in ne rest =
    let n = q.packet_ring.number_of_elements in
    let near = dist-succ_mod n pkt q.packet_ring.end_index pkt_in end_in ne in
    let last = dist-lt n pkt q.packet_ring.end_index pkt_in end_in in
    record {
      keeps = rest.keeps;
      marked = λ x x_in h. elim (Bool-cases (pkt == x)) [
        | inl e ↦
            let here : pkt ≡ x = (==_iff _ _).0 e in
            rw (← here) (
              ap (λ p. p.ignore)
                (rest.other pkt pkt_in (omega (arith, near, last, dist-succ_mod_self n pkt pkt_in))
                  ∙ update_self q.packets pkt _))
        | inr e ↦
            rest.marked x x_in
              (omega (arith, near, dist-succ_mod n pkt x pkt_in x_in (==_ne _ _ e)))
      ];
      other = λ x x_in h.
          let x_ne : pkt ≢ x = dist_pos-ne n pkt x 0 (omega (arith, near)) in
          rest.other x x_in (omega (arith, near, dist-succ_mod n pkt x pkt_in x_in x_ne))
          ∙ update_ne q.packets pkt x _ x_ne;
    }

abbrev all_back : RxQueue → RxQueue
all_back r = record r {
  packet_ring = record (r.packet_ring) { begin_index = r.packet_ring.end_index };
  fragment_ring = record (r.fragment_ring) { begin_index = r.fragment_ring.end_index };
}

-- All is handed back, and the packets that were not received are marked.
pub record GaveBack (q : RxQueue) (pkt : ℕ) (s : RxQueue) : Type 0 where
  pub keeps : s ≡ record q {
    packets = s.packets;
    packet_ring = record (q.packet_ring) { begin_index = q.packet_ring.end_index };
    fragment_ring = record (q.fragment_ring) { begin_index = q.fragment_ring.end_index };
  }
  pub ignored : Ignored q pkt (record q { packets = s.packets })

module _ (net : NetAdapter) (laws : IsNetAdapter net) where
  ignore_rest_lem :
      (fuel pkt : ℕ) (q : RxQueue)
      → pkt < q.packet_ring.number_of_elements
      → q.packet_ring.end_index < q.packet_ring.number_of_elements
      → dist q.packet_ring.number_of_elements pkt q.packet_ring.end_index < fuel
      → (r : RxQueue) × (ignore_rest net fuel pkt q ≡ some r) × Ignored q pkt r
  unfolding ignore_rest
  ignore_rest_lem zero pkt q pkt_in end_in h = elim h [ ]
  ignore_rest_lem (suc fuel) pkt q pkt_in end_in h =
      elim (Bool-cases (pkt == q.packet_ring.end_index)) [
        | inl e ↦ (q, rw e, Ignored-none q pkt ((==_iff _ _).0 e))
        | inr e ↦
            let ne : pkt ≢ q.packet_ring.end_index = ==_ne _ _ e in
            let step = laws.increment_wraps q.packet_ring pkt pkt_in in
            let (r, returns, rest) =
              ignore_rest_lem fuel (succ_mod q.packet_ring.number_of_elements pkt)
                (record q {
                  packets = update q.packets pkt (record (q.packets pkt) { ignore = true });
                })
                (succ_mod-lt _ _ pkt_in) end_in
                (omega (arith, dist-succ_mod _ pkt _ pkt_in end_in ne)) in
            (r, rw (e, step) returns, Ignored-step q pkt r pkt_in end_in ne rest)
      ]

  give_back_returns :
      (pkt : ℕ) (q r : RxQueue)
      → ignore_rest net (q.packet_ring.number_of_elements + 1) pkt q ≡ some r
      → give_back net pkt q ≡ some (all_back r)
  unfolding give_back
  give_back_returns pkt q r e = rw (e, give_back)

  pub give_back_lem :
      (pkt : ℕ) (q : RxQueue)
      → pkt < q.packet_ring.number_of_elements
      → q.packet_ring.end_index < q.packet_ring.number_of_elements
      → (s : RxQueue) × (give_back net pkt q ≡ some s) × GaveBack q pkt s
  give_back_lem pkt q pkt_in end_in =
      let (r, returns, done) =
        ignore_rest_lem (q.packet_ring.number_of_elements + 1) pkt q pkt_in end_in
          (omega (arith, dist-lt _ _ _ pkt_in end_in)) in
      (
        all_back r,
        give_back_returns pkt q r returns,
        record {
          keeps = ap all_back done.keeps;
          ignored = record { keeps = refl; marked = done.marked; other = done.other };
        },
      )

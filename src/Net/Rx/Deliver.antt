-- ===== src/Net/Rx/Deliver.antt =====
-- What the rounds of the first loop leave in the memory of packets and fragments.
use woa_rk.Base.{ℕ, zero, suc, ◌+◌, ◌≤◌, ◌<◌, ◌≡◌, refl, ◌≢◌, ◌∙◌, ap, update, arith}
use woa_rk.Net.Adapter.{NetAdapter, succ_mod}
use woa_rk.Net.Ring.{
  dist, dist_zero, dist-suc-ne, dist_pos-ne, dist-succ_mod, dist-succ_mod-suc, dist-succ_mod_self,
}
use woa_rk.Net.Rx.Types.{RxQueue}
use woa_rk.Net.Rx.Packet.{
  received_packet, received_fragment, received_tag, received_evaluation, receive,
}

-- A store is read back where it was made, and nowhere else.
pub update_self {ℓ} : {A : Type ℓ} (f : ℕ → A) (i : ℕ) (v : A) → update f i v i ≡ v
update_self f i v = ground arith

pub update_ne {ℓ} : {A : Type ℓ} (f : ℕ → A) (i j : ℕ) (v : A) → i ≢ j → update f i v j ≡ f j
update_ne f i j v h = ground arith

module _ (net : NetAdapter) where
  -- Packet `x` and fragment `z` are as descriptor `y` says.
  pub record Reports (q : RxQueue) (y x z : ℕ) (r : RxQueue) : Type 0 where
    pub packet : r.packets x ≡ received_packet (q.descriptors y) z (q.packets x)
    pub fragment : r.fragments z ≡ received_fragment net (q.descriptors y)
    pub tag : r.tags x ≡ received_tag net (q.descriptors y) (q.tags x)
    pub evaluation : r.checksums x ≡ received_evaluation net (q.descriptors y) (q.checksums x)

  -- After `m` rounds from the descriptor `d`, the packet `p` and the fragment `f`: the packets
  -- and fragments within `m` steps report their descriptors, and all others are as before.
  pub record Delivered (q : RxQueue) (d p f : ℕ) (r : RxQueue) (m : ℕ) : Type 0 where
    pub reports :
        (k y x z : ℕ)
        → k < m
        → y < q.desc_count
        → x < q.packet_ring.number_of_elements
        → z < q.fragment_ring.number_of_elements
        → dist q.desc_count d y ≡ k
        → dist q.packet_ring.number_of_elements p x ≡ k
        → dist q.fragment_ring.number_of_elements f z ≡ k
        → Reports q y x z r
    pub packet_other :
        (x : ℕ)
        → x < q.packet_ring.number_of_elements
        → m ≤ dist q.packet_ring.number_of_elements p x
        → (r.packets x ≡ q.packets x) × (r.tags x ≡ q.tags x) × (r.checksums x ≡ q.checksums x)
    pub fragment_other :
        (z : ℕ)
        → z < q.fragment_ring.number_of_elements
        → m ≤ dist q.fragment_ring.number_of_elements f z
        → r.fragments z ≡ q.fragments z

  pub Delivered-none : (q : RxQueue) (d p f : ℕ) → Delivered q d p f q 0
  Delivered-none q d p f = record {
    reports = λ k y x z h _ _ _ _ _ _. elim h [ ];
    packet_other = λ x _ _. (refl, refl, refl);
    fragment_other = λ z _ _. refl;
  }

  module _ (q : RxQueue) (d p f : ℕ) (r : RxQueue) (m : ℕ) (d_in : d < q.desc_count)
      (p_in : p < q.packet_ring.number_of_elements) (f_in : f < q.fragment_ring.number_of_elements)
      (p_room : m < q.packet_ring.number_of_elements)
      (f_room : m < q.fragment_ring.number_of_elements)
      (rest : Delivered
        (receive net q (q.descriptors d) p f)
        (succ_mod q.desc_count d)
        (succ_mod q.packet_ring.number_of_elements p)
        (succ_mod q.fragment_ring.number_of_elements f)
        r
        m) where
    first_Reports : Reports q d p f r
    unfolding receive
    first_Reports =
        let other = rest.packet_other p p_in (omega (arith, dist-succ_mod_self _ p p_in)) in
        record {
          packet = other.0 ∙ update_self q.packets p _;
          fragment =
              rest.fragment_other f f_in (omega (arith, dist-succ_mod_self _ f f_in))
              ∙ update_self q.fragments f _;
          tag = other.1 ∙ update_self q.tags p _;
          evaluation = other.2 ∙ update_self q.checksums p _;
        }

    later_Reports :
        (k y x z : ℕ)
        → k < m
        → y < q.desc_count
        → x < q.packet_ring.number_of_elements
        → z < q.fragment_ring.number_of_elements
        → dist q.desc_count d y ≡ suc k
        → dist q.packet_ring.number_of_elements p x ≡ suc k
        → dist q.fragment_ring.number_of_elements f z ≡ suc k
        → Reports q y x z r
    unfolding receive
    later_Reports k y x z h y_in x_in z_in dy dx dz =
        let x_ne = dist-suc-ne _ p x k dx in
        let old =
          rest.reports k y x z h y_in x_in z_in (dist-succ_mod-suc _ d y k d_in y_in dy)
            (dist-succ_mod-suc _ p x k p_in x_in dx) (dist-succ_mod-suc _ f z k f_in z_in dz) in
        record {
          packet =
              old.packet
              ∙ ap (received_packet (q.descriptors y) z) (update_ne q.packets p x _ x_ne);
          fragment = old.fragment;
          tag = old.tag ∙ ap (received_tag net (q.descriptors y)) (update_ne q.tags p x _ x_ne);
          evaluation =
              old.evaluation
              ∙ ap (received_evaluation net (q.descriptors y)) (update_ne q.checksums p x _ x_ne);
        }

    -- One more round in front.
    pub Delivered-step : Delivered q d p f r (m + 1)
    unfolding receive
    Delivered-step = record {
      reports = λ k.
          elim k
            as (λ k.
              (y x z : ℕ)
              → k < m + 1
              → y < q.desc_count
              → x < q.packet_ring.number_of_elements
              → z < q.fragment_ring.number_of_elements
              → dist q.desc_count d y ≡ k
              → dist q.packet_ring.number_of_elements p x ≡ k
              → dist q.fragment_ring.number_of_elements f z ≡ k
              → Reports q y x z r) [
                | zero ↦ λ y x z h y_in x_in z_in dy dx dz.
                    rw
                      (
                        ← dist_zero _ d y d_in y_in dy,
                        ← dist_zero _ p x p_in x_in dx,
                        ← dist_zero _ f z f_in z_in dz,
                      )
                      first_Reports
                | suc k ↦ λ y x z h. later_Reports k y x z (omega arith)
              ];
      packet_other = λ x x_in h.
          let ne = dist_pos-ne _ p x m h in
          let old = rest.packet_other x x_in (omega (arith, dist-succ_mod _ p x p_in x_in ne)) in
          (
            old.0 ∙ update_ne q.packets p x _ ne,
            old.1 ∙ update_ne q.tags p x _ ne,
            old.2 ∙ update_ne q.checksums p x _ ne,
          );
      fragment_other = λ z z_in h.
          let ne = dist_pos-ne _ f z m h in
          rest.fragment_other z z_in (omega (arith, dist-succ_mod _ f z f_in z_in ne))
          ∙ update_ne q.fragments f z _ ne;
    }

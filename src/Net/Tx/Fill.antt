-- ===== src/Net/Tx/Fill.antt =====
-- The second loop of `TxQueueAdvance`.
use woa_rk.Base.{
  ℕ, zero, suc, ◌+◌, ◌≤◌, ◌<◌, ◌≡◌, refl, sym, ap, ◌∙◌, ◌≢◌, ◌⊎◌, inl, inr, true, false, Bool-cases,
  ltb, ◌==◌, ==_ne, ==_iff, some, arith,
}
use woa_rk.Net.Adapter.{NetAdapter, IsNetAdapter, succ_mod}
use woa_rk.Net.Queue.{IsDescriptorCount}
use woa_rk.Net.Index.{desc_remaining, desc_remaining_lem}
use woa_rk.Net.Ring.{
  dist, dist_self, dist_zero, dist-lt, dist-succ_mod, dist-succ_mod_self, succ_mod-lt, IsWalk,
  IsWalk-none, IsWalk-step, dist_concat,
}
use woa_rk.Net.Tx.Types.{TxQueue}
use woa_rk.Net.Tx.Put.{fragment_length, gso_mss, needed, put}
use woa_rk.Net.Tx.Written.{Written, Written-none, Written-append}
use woa_rk.Net.Tx.Whole.{IsSendable, Takes, Put, put_lem}
use woa_rk.Net.Tx.Advance.{Turn, stop, go, turns, fill_turn}

pub turns_stop :
    {A : Type 0} (round : A → Turn A) (fuel : ℕ) (a : A)
    → round a ≡ stop
    → turns round (suc fuel) a ≡ some a
unfolding turns
turns_stop round fuel a e = rw (e, turns) refl

pub turns_go :
    {A : Type 0} (round : A → Turn A) (fuel : ℕ) (a b : A)
    → round a ≡ go b
    → turns round (suc fuel) a ≡ turns round fuel b
unfolding turns
turns_go round fuel a b e = rw (e, turns) refl

IsSendable-Written :
    (net : NetAdapter) {q : TxQueue} {i : ℕ} {r : TxQueue} {j m : ℕ} (x : ℕ)
    → Written q i r j m
    → IsSendable net q x
    → IsSendable net r x
unfolding fragment_length gso_mss
IsSendable-Written net x w ok = rw w.keeps (record {
  short = ok.short;
  frag_in = ok.frag_in;
  few = ok.few;
  few_parts = ok.few_parts;
  header = ok.header;
})

-- The packets from `pkt` up to the end can be sent, unless they are ignored.
abbrev pub AllSendable : NetAdapter → TxQueue → ℕ → Type 0
AllSendable net q pkt =
    (x : ℕ)
    → x < q.packet_ring.number_of_elements
    → dist q.packet_ring.number_of_elements pkt x
      < dist q.packet_ring.number_of_elements pkt q.packet_ring.end_index
    → (q.packets x).ignore ≡ false
    → IsSendable net q x

-- Why the loop stops: no descriptor is free, or no packet is left, or the packet needs more.
abbrev pub Stopped : NetAdapter → TxQueue → ℕ → ℕ → Type 0
Stopped net q i pkt =
    (desc_remaining q.desc_count q.desc_begin i ≡ 0)
    ⊎ (pkt ≡ q.packet_ring.end_index)
    ⊎ (desc_remaining q.desc_count q.desc_begin i < needed net q pkt)

module _ (net : NetAdapter) where
  -- From the index `i` and the packet `pkt` on, each packet up to `p` is ignored, or it fits into the
  -- free descriptors and its descriptors were filled.
  pub data Sent : TxQueue → ℕ → ℕ → TxQueue → ℕ → ℕ → Type 0 where
    all_sent : {q : TxQueue} {i pkt : ℕ} → Sent q i pkt q i pkt
    packet_ignored :
        {q : TxQueue} {i pkt : ℕ} {r : TxQueue} {j p : ℕ}
        → (q.packets pkt).ignore ≡ true
        → Sent q i (net.increment q.packet_ring pkt) r j p
        → Sent q i pkt r j p
    packet_sent :
        {q : TxQueue} {i pkt : ℕ} {s : TxQueue} {k : ℕ} {r : TxQueue} {j p : ℕ} (m : ℕ)
        → (q.packets pkt).ignore ≡ false
        → needed net q pkt ≤ desc_remaining q.desc_count q.desc_begin i
        → put net pkt (q, i) ≡ some (s, k)
        → Written q i s k m
        → Takes net pkt q m
        → Sent s k (net.increment q.packet_ring pkt) r j p
        → Sent q i pkt r j p

  -- A round that goes on.
  GoesOn : TxQueue → ℕ → ℕ → Type 0
  GoesOn q i pkt =
      (r : TxQueue) × (j m : ℕ) × (fill_turn net (q, i, pkt)
        ≡ go (r, j, net.increment q.packet_ring pkt))
      × Written q i r j m
      × (m ≤ desc_remaining q.desc_count q.desc_begin i)
      × (pkt ≢ q.packet_ring.end_index)
      × ((s : TxQueue) (l p : ℕ)
          → Sent r j (net.increment q.packet_ring pkt) s l p
          → Sent q i pkt s l p)

  fill_turn-put :
      (q : TxQueue) (i pkt : ℕ) (r : TxQueue) (j : ℕ)
      → (desc_remaining q.desc_count q.desc_begin i == 0) ≡ false
      → (pkt == q.packet_ring.end_index) ≡ false
      → (q.packets pkt).ignore ≡ false
      → ltb (desc_remaining q.desc_count q.desc_begin i) (needed net q pkt) ≡ false
      → put net pkt (q, i) ≡ some (r, j)
      → fill_turn net (q, i, pkt) ≡ go (r, j, net.increment q.packet_ring pkt)
  unfolding fill_turn
  fill_turn-put q i pkt r j e1 e2 e3 e4 e5 = rw (e1, e2, e3, e4, e5) refl

  fill_turn_lem :
      (q : TxQueue) (i pkt : ℕ)
      → IsDescriptorCount q.desc_count
      → q.desc_begin < q.desc_count
      → i < q.desc_count
      → (pkt ≢ q.packet_ring.end_index → (q.packets pkt).ignore ≡ false → IsSendable net q pkt)
      → ((fill_turn net (q, i, pkt) ≡ stop) × Stopped net q i pkt) ⊎ GoesOn q i pkt
  unfolding fill_turn GoesOn Put
  fill_turn_lem q i pkt v b h ok =
      elim (Bool-cases (desc_remaining q.desc_count q.desc_begin i == 0)) [
        | inl e1 ↦ inl (rw e1 refl, inl ((==_iff _ _).0 e1))
        | inr e1 ↦ elim (Bool-cases (pkt == q.packet_ring.end_index)) [
          | inl e2 ↦ inl (rw (e1, e2) refl, inr (inl ((==_iff _ _).0 e2)))
          | inr e2 ↦ elim (Bool-cases ((q.packets pkt).ignore)) [
            | inl e3 ↦ inr (
              q,
              i,
              0,
              rw (e1, e2, e3) refl,
              Written-none q i h,
              omega arith,
              ==_ne _ _ e2,
              λ s l p. packet_ignored e3,
            )
            | inr e3 ↦
                elim (Bool-cases
                  (ltb (desc_remaining q.desc_count q.desc_begin i) (needed net q pkt))) [
                    | inl e4 ↦ inl (rw (e1, e2, e3, e4) refl, inr (inr (ground arith)))
                    | inr e4 ↦
                        let free = desc_remaining_lem q.desc_begin i v b h in
                        let enough : needed net q pkt ≤ desc_remaining q.desc_count q.desc_begin i =
                          ground arith in
                        let (r, j, m, returns, w, fits, takes) =
                          put_lem net pkt q i v h (ok (==_ne _ _ e2) e3)
                            (omega (arith, enough, free, b)) in
                        inr (
                          r,
                          j,
                          m,
                          fill_turn-put q i pkt r j e1 e2 e3 e4 returns,
                          w,
                          omega (arith, fits, enough),
                          ==_ne _ _ e2,
                          λ s l p. packet_sent m e3 enough returns w takes,
                        )
                  ]
          ]
        ]
      ]

  -- What the loop has done from the index `i` and the packet `pkt` on.
  pub record Filled (q : TxQueue) (i pkt : ℕ) (r : TxQueue) (j p m : ℕ) : Type 0 where
    pub written : Written q i r j m
    pub hole : dist q.desc_count q.desc_begin i + m < q.desc_count
    pub walked : (k : ℕ) × IsWalk q.packet_ring.number_of_elements pkt q.packet_ring.end_index p k
    pub stopped : Stopped net r j p
    pub sent : Sent q i pkt r j p

  module _ (laws : IsNetAdapter net) where
    fill_on :
        (q : TxQueue) (i pkt : ℕ) (r : TxQueue) (j m : ℕ) (s : TxQueue) (l p n : ℕ)
        → IsDescriptorCount q.desc_count
        → q.desc_begin < q.desc_count
        → i < q.desc_count
        → pkt < q.packet_ring.number_of_elements
        → q.packet_ring.end_index < q.packet_ring.number_of_elements
        → Written q i r j m
        → m ≤ desc_remaining q.desc_count q.desc_begin i
        → pkt ≢ q.packet_ring.end_index
        → (Sent r j (net.increment q.packet_ring pkt) s l p → Sent q i pkt s l p)
        → Filled r j (net.increment q.packet_ring pkt) s l p n
        → Filled q i pkt s l p (m + n)
    fill_on q i pkt r j m s l p n v b h inside last w fits ne on f =
        let f' = rw w.keeps at f.hole in
        let c = q.desc_count in
        let free = desc_remaining_lem q.desc_begin i v b h in
        let reached : dist c q.desc_begin j ≡ dist c q.desc_begin i + m =
          dist_concat c q.desc_begin i j b h w.inside
            (omega (arith, w.steps, fits, free, dist-lt c q.desc_begin i b h))
          ∙ omega (arith, w.steps) in
        record {
          written = Written-append h (omega (arith, f', reached)) w f.written;
          hole = omega (arith, f', reached);
          walked =
              let (k, wk) =
                rw (w.keeps, laws.increment_wraps q.packet_ring pkt inside) at f.walked in
              (k + 1, IsWalk-step _ pkt q.packet_ring.end_index p k inside last ne wk);
          stopped = f.stopped;
          sent = on f.sent;
        }

    starts_near :
        (q : TxQueue) (pkt : ℕ)
        → pkt < q.packet_ring.number_of_elements
        → q.packet_ring.end_index < q.packet_ring.number_of_elements
        → pkt ≢ q.packet_ring.end_index
        → dist q.packet_ring.number_of_elements pkt pkt
          < dist q.packet_ring.number_of_elements pkt q.packet_ring.end_index
    starts_near q pkt inside last ne =
        let n = q.packet_ring.number_of_elements in
        let apart : dist n pkt q.packet_ring.end_index ≢ 0 =
          λ z. ne (dist_zero n pkt q.packet_ring.end_index inside last z) in
        omega (arith, apart, dist_self n pkt)

    next_sendable :
        (q : TxQueue) (i pkt : ℕ) (r : TxQueue) (j m : ℕ)
        → pkt < q.packet_ring.number_of_elements
        → q.packet_ring.end_index < q.packet_ring.number_of_elements
        → pkt ≢ q.packet_ring.end_index
        → Written q i r j m
        → AllSendable net q pkt
        → AllSendable net r (net.increment q.packet_ring pkt)
    next_sendable q i pkt r j m inside last ne w ok x x_in near quiet =
        let n = q.packet_ring.number_of_elements in
        let x_in' : x < n = rw w.keeps at x_in in
        let near' : dist n (succ_mod n pkt) x < dist n (succ_mod n pkt) q.packet_ring.end_index =
          rw (w.keeps, laws.increment_wraps q.packet_ring pkt inside) at near in
        let quiet' : (q.packets x).ignore ≡ false =
          ap (λ t. (t.packets x).ignore) (sym w.keeps) ∙ quiet in
        let there = dist-succ_mod n pkt q.packet_ring.end_index inside last ne in
        let back = dist-succ_mod_self n pkt inside in
        let far = dist-lt n pkt q.packet_ring.end_index inside last in
        let other : pkt ≢ x = λ e.
          (let same : dist n (succ_mod n pkt) pkt ≡ dist n (succ_mod n pkt) x =
              ap (dist n (succ_mod n pkt)) e in
            omega (arith, same, near', there, back, far)) in
        IsSendable-Written net x w (
          ok x x_in' (omega (arith, dist-succ_mod n pkt x inside x_in' other, there, near')) quiet')

    -- With fuel for the packets that are left, the loop returns; it stops for want of a free
    -- descriptor or of a packet, or because the next packet needs more.
    pub fill_lem :
        (fuel : ℕ) (q : TxQueue) (i pkt : ℕ)
        → IsDescriptorCount q.desc_count
        → q.desc_begin < q.desc_count
        → i < q.desc_count
        → pkt < q.packet_ring.number_of_elements
        → q.packet_ring.end_index < q.packet_ring.number_of_elements
        → AllSendable net q pkt
        → dist q.packet_ring.number_of_elements pkt q.packet_ring.end_index < fuel
        → (r : TxQueue) × (j p m : ℕ) × (turns (fill_turn net) fuel (q, i, pkt) ≡ some (r, j, p))
          × Filled q i pkt r j p m
    unfolding GoesOn
    fill_lem zero q i pkt v b h inside last ok enough = absurd (omega (arith, enough))
    fill_lem (suc fuel) q i pkt v b h inside last ok enough =
        elim (fill_turn_lem q i pkt v b h
          (λ ne. ok pkt inside (starts_near q pkt inside last ne))) [
            | inl (e, why) ↦ (
              q,
              i,
              pkt,
              0,
              turns_stop (fill_turn net) fuel (q, i, pkt) e,
              record {
                written = Written-none q i h;
                hole = omega (arith, dist-lt q.desc_count q.desc_begin i b h);
                walked = (0, IsWalk-none _ pkt _ inside);
                stopped = why;
                sent = all_sent;
              },
            )
            | inr (r, j, m, e, w, fits, ne, on) ↦
                let n = q.packet_ring.number_of_elements in
                let wraps = laws.increment_wraps q.packet_ring pkt inside in
                let (s, l, p, k, returns, f) =
                  fill_lem fuel r j (net.increment q.packet_ring pkt) (rw w.keeps v) (rw w.keeps b)
                    (rw w.keeps w.inside) (rw (w.keeps, wraps) (succ_mod-lt n pkt inside))
                    (rw w.keeps last) (next_sendable q i pkt r j m inside last ne w ok)
                    (rw (w.keeps, wraps)
                      (omega (
                        arith,
                        dist-succ_mod n pkt q.packet_ring.end_index inside last ne,
                        enough,
                      ))) in
                (
                  s,
                  l,
                  p,
                  m + k,
                  turns_go (fill_turn net) fuel (q, i, pkt) _ e ∙ returns,
                  fill_on q i pkt r j m s l p k v b h inside last w fits ne (on s l p) f,
                )
          ]

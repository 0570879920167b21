-- ===== src/Net/Tx/Laws.antt =====
-- `TxQueueStart`, `TxQueueAdvance` and `TxQueueCancel` as a whole.
use woa_rk.Base.{
  ℕ, flag, ◌⊎◌, zero, suc, ◌+◌, ◌*◌, ◌<◌, ◌≡◌, refl, sym, ap, subst, ◌∙◌, ◌≢◌, inl, inr, true,
  false, Bool-cases, ◌==◌, ==_ne, ==_iff, if◌then◌else◌, some, u32, arith,
}
use woa_rk.Net.Adapter.{NetAdapter, IsNetAdapter, NetRing, NetFragment, succ_mod}
use woa_rk.Net.Tx.Fit.{parts, parts_of}
use woa_rk.Net.Queue.{IsDescriptorCount, descriptor_size}
use woa_rk.Net.Ring.{dist, dist_around, dist-lt, succ_mod-lt, IsWalk}
use woa_rk.Net.Tx.Types.{TxQueue, own}
use woa_rk.Net.Tx.Put.{
  needed, measure, fragment_length, gso_mss, context_needed, context_tag_needed, vlan_tag,
}
use woa_rk.Net.Tx.Advance.{
  Done, set_desc_end, collect, fill, advance, quiet, flushed, discard, cancel, in_progress, drained,
  flush_wait,
}
use woa_rk.Net.Tx.Whole.{IsSendable}
use woa_rk.Net.Tx.Fill.{AllSendable, Sent, Stopped, Filled, fill_lem}
use woa_rk.Net.Tx.Collect.{Waits, Collected, collect_lem}

-- The indices lie in their rings, and the tail pointer is the address of the end.
pub record IsValid (q : TxQueue) : Type 0 where
  pub count : IsDescriptorCount q.desc_count
  pub begin_in : q.desc_begin < q.desc_count
  pub end_in : q.desc_end < q.desc_count
  pub pkt_begin_in : q.packet_ring.begin_index < q.packet_ring.number_of_elements
  pub pkt_next_in : q.packet_ring.next_index < q.packet_ring.number_of_elements
  pub pkt_end_in : q.packet_ring.end_index < q.packet_ring.number_of_elements
  pub tail : q.regs.tail_pointer ≡ u32 (q.desc_physical_low + u32 (q.desc_end * descriptor_size))

-- The three stores behind the first loop.
abbrev pub returned : TxQueue → Done → TxQueue
returned q c = record q {
  packet_ring = record (q.packet_ring) { begin_index = c.pkt_index };
  fragment_ring = record (q.fragment_ring) { begin_index = c.frag_index };
  desc_begin = c.desc_index;
}

-- The stores behind the second loop, if it has filled a descriptor.
unfoldable moved_end : TxQueue → ℕ → ℕ → TxQueue
unfolding set_desc_end
moved_end r i pkt = record (set_desc_end r i) {
  packet_ring = record (r.packet_ring) { next_index = pkt };
}

module _ (net : NetAdapter) where
  measure_same :
      (r : TxQueue) (i p left frag : ℕ) (acc : ℕ × ℕ)
      → measure net (moved_end r i p) left frag acc ≡ measure net r left frag acc
  unfolding measure moved_end fragment_length
  measure_same r i p zero frag acc = refl
  measure_same r i p (suc left) frag acc =
      measure_same r i p left (net.increment r.fragment_ring frag) _

  needed_same : (r : TxQueue) (i p pkt : ℕ) → needed net (moved_end r i p) pkt ≡ needed net r pkt
  unfolding needed gso_mss context_needed context_tag_needed vlan_tag moved_end measure
  needed_same r i p pkt =
      rw (measure_same r i p (r.packets pkt).fragment_count (r.packets pkt).fragment_index (0, 0))
        refl

-- What a call has done: `k` descriptors that the device released were passed, and `m` filled.
pub record Advanced (net : NetAdapter) (q s : TxQueue) (k m : ℕ) : Type 0 where
  pub valid : IsValid s
  pub passed : IsWalk q.desc_count q.desc_begin q.desc_end s.desc_begin k
  pub released :
      (y : ℕ)
      → y < q.desc_count
      → dist q.desc_count q.desc_begin y < k
      → own (q.descriptors y) ≡ false
  pub control : s.regs.tx_control ≡ q.regs.tx_control
  pub waits : Waits q s.desc_begin
  pub filled : dist q.desc_count q.desc_end s.desc_end ≡ m
  pub hole : dist q.desc_count s.desc_begin q.desc_end + m < q.desc_count
  pub handed :
      (y : ℕ) → y < q.desc_count → dist q.desc_count q.desc_end y < m → own (s.descriptors y) ≡ true
  pub kept :
      (y : ℕ)
      → y < q.desc_count
      → dist q.desc_count s.desc_begin y < dist q.desc_count s.desc_begin q.desc_end
      → s.descriptors y ≡ q.descriptors y
  pub looked_at :
      (p n : ℕ) × IsWalk q.packet_ring.number_of_elements q.packet_ring.next_index
        q.packet_ring.end_index p n
      × Stopped net s s.desc_end p
      × (s.packet_ring.next_index
          ≡ (if s.desc_end == q.desc_end then q.packet_ring.next_index else p))
      × (c : Done) × (c.desc_index ≡ s.desc_begin)
      × (r : TxQueue) × (r.descriptors ≡ s.descriptors)
      × Sent net (returned q c) q.desc_end q.packet_ring.next_index r s.desc_end p

module _ (net : NetAdapter) where
  advance_returns :
      (q : TxQueue) (c : Done) (r : TxQueue) (i pkt : ℕ)
      → collect net q ≡ some c
      → fill net (returned q c) ≡ some (r, i, pkt)
      → advance net q ≡ some (if i == q.desc_end then r else moved_end r i pkt, 0)
  unfolding advance moved_end
  advance_returns q c r i pkt e e' = rw (e, e', advance) refl

  module _ (q : TxQueue) (v : IsValid q) (c : Done) (k : ℕ) (w : Collected q q.desc_begin c k)
      (r : TxQueue) (i p m : ℕ)
      (f : Filled net (returned q c) q.desc_end q.packet_ring.next_index r i p m) where
    -- A descriptor that is still with the device lies behind those that were filled.
    kept_lem :
        (y : ℕ)
        → y < q.desc_count
        → dist q.desc_count c.desc_index y < dist q.desc_count c.desc_index q.desc_end
        → r.descriptors y ≡ q.descriptors y
    kept_lem y y_in near = f.written.others y y_in (
        omega (
          arith,
          dist_around q.desc_count c.desc_index q.desc_end y w.walked.inside v.end_in y_in near,
          f.hole,
        ))

    unmoved : i ≡ q.desc_end → Advanced net q r k m
    unmoved e =
        let kept = f.written.keeps in
        let end : r.desc_end ≡ q.desc_end = ap (λ t. t.desc_end) kept in
        let (n, walk) = f.walked in
        record {
          valid = rw kept (record {
            count = v.count;
            begin_in = w.walked.inside;
            end_in = v.end_in;
            pkt_begin_in = w.pkt_in;
            pkt_next_in = v.pkt_next_in;
            pkt_end_in = v.pkt_end_in;
            tail = v.tail;
          });
          passed = rw kept w.walked;
          released = w.released;
          control = rw kept refl;
          waits = rw kept w.stopped;
          filled = ap (dist q.desc_count q.desc_end) (end ∙ sym e) ∙ f.written.steps;
          hole = rw kept f.hole;
          handed = f.written.owned;
          kept = λ y y_in near. kept_lem y y_in (rw kept at near);
          looked_at = (
            p,
            n,
            walk,
            simp (end ∙ sym e) f.stopped,
            let same : (r.desc_end == q.desc_end) ≡ true = (==_iff _ _).1 end in
                rw same (ap (λ t. t.packet_ring.next_index) kept),
            c,
            sym (ap (λ t. t.desc_begin) kept),
            r,
            refl,
            subst (λ x. Sent net (returned q c) q.desc_end q.packet_ring.next_index r x p)
                (e ∙ sym end) f.sent,
          );
        }

    moved : i ≢ q.desc_end → Advanced net q (moved_end r i p) k m
    unfolding moved_end
    moved ne =
        let kept = f.written.keeps in
        let (n, walk) = f.walked in
        record {
          valid = rw kept (record {
            count = v.count;
            begin_in = w.walked.inside;
            end_in = f.written.inside;
            pkt_begin_in = w.pkt_in;
            pkt_next_in = walk.inside;
            pkt_end_in = v.pkt_end_in;
            tail = refl;
          });
          passed = rw kept w.walked;
          released = w.released;
          control = rw kept refl;
          waits = rw kept w.stopped;
          filled = f.written.steps;
          hole = rw kept f.hole;
          handed = f.written.owned;
          kept = λ y y_in near. kept_lem y y_in (rw kept at near);
          looked_at = (
            p,
            n,
            walk,
            elim f.stopped [
              | inl none ↦ inl none
              | inr (inl last) ↦ inr (inl last)
              | inr (inr more) ↦ inr (inr (rw (needed_same net r i p p) more))
            ],
            let other : (i == q.desc_end) ≡ false = ground arith in rw other refl,
            c,
            sym (ap (λ t. t.desc_begin) kept),
            r,
            refl,
            f.sent,
          );
        }

    ends :
        collect net q ≡ some c
        → fill net (returned q c) ≡ some (r, i, p)
        → (s : TxQueue) × (k m : ℕ) × (advance net q ≡ some (s, 0)) × Advanced net q s k m
    ends e e' = elim (Bool-cases (i == q.desc_end)) [
      | inl same ↦
          let kept : (if i == q.desc_end then r else moved_end r i p) ≡ r = rw same refl in
          (
            r,
            k,
            m,
            advance_returns q c r i p e e' ∙ ap (λ t. some (t, 0)) kept,
            unmoved ((==_iff _ _).0 same),
          )
      | inr other ↦
          let kept : (if i == q.desc_end then r else moved_end r i p) ≡ moved_end r i p =
            rw other refl in
          (
            moved_end r i p,
            k,
            m,
            advance_returns q c r i p e e' ∙ ap (λ t. some (t, 0)) kept,
            moved (==_ne _ _ other),
          )
    ]

parts_same :
    (net : NetAdapter) (laws : IsNetAdapter net) (a b : NetRing) (f : ℕ → NetFragment)
    (left frag : ℕ)
    → a.number_of_elements ≡ b.number_of_elements
    → frag < a.number_of_elements
    → parts net a f left frag ≡ parts net b f left frag
unfolding parts
parts_same net laws a b f zero frag same inside = refl
parts_same net laws a b f (suc left) frag same inside =
    let here = laws.increment_wraps a frag inside in
    let there = laws.increment_wraps b frag (rw (← same) inside) in
    let next : net.increment b frag ≡ net.increment a frag =
      there ∙ ap (λ n. succ_mod n frag) (sym same) ∙ sym here in
    rw next (
      ap (λ n. parts_of (u32 (f frag).valid_length) + n)
        (parts_same net laws a b f left (net.increment a frag) same
          (rw here (succ_mod-lt _ frag inside))))

-- Handing packets back changes nothing of those that are to be sent.
returned-IsSendable :
    (net : NetAdapter) (laws : IsNetAdapter net) (q : TxQueue) (c : Done) (x : ℕ)
    → IsSendable net q x
    → IsSendable net (returned q c) x
unfolding fragment_length gso_mss
returned-IsSendable net laws q c x ok =
    let same =
      parts_same net laws q.fragment_ring (returned q c).fragment_ring q.fragments
        (q.packets x).fragment_count (q.packets x).fragment_index refl ok.frag_in in
    record {
      short = ok.short;
      frag_in = ok.frag_in;
      few = ok.few;
      few_parts = omega (arith, same, ok.few_parts);
      header = ok.header;
    }

-- On valid indices, and with packets that can be sent, `TxQueueAdvance` returns. It passes the
-- descriptors that the device has released up to one that it has not, or to the end. It gives
-- the device the following descriptors, never one that it still has, until no descriptor is
-- free, no packet is left, or the next packet needs more: each packet up to there is ignored, or
-- its descriptors were filled, one per fragment if it is not segmented. The indices stay valid, and the count
-- of fragments for the statistics is 0.
pub advance_lem :
    (net : NetAdapter) (q : TxQueue)
    → IsNetAdapter net
    → IsValid q
    → AllSendable net q q.packet_ring.next_index
    → (s : TxQueue) × (k m : ℕ) × (advance net q ≡ some (s, 0)) × Advanced net q s k m
unfolding fill
advance_lem net q laws v ok =
    let (c, k, collects, w) =
      collect_lem net laws q v.count v.begin_in v.end_in v.pkt_begin_in v.pkt_next_in in
    let n = q.packet_ring.number_of_elements in
    let (r, i, p, m, fills, f) =
      fill_lem net laws n (returned q c) q.desc_end q.packet_ring.next_index v.count w.walked.inside
        v.end_in v.pkt_next_in v.pkt_end_in
        (λ x x_in near quiet. returned-IsSendable net laws q c x (ok x x_in near quiet))
        (dist-lt n q.packet_ring.next_index q.packet_ring.end_index v.pkt_next_in v.pkt_end_in) in
    ends net q v c k w r i p m f collects fills

quiet-IsSendable :
    (net : NetAdapter) (q : TxQueue) (x : ℕ) → IsSendable net q x → IsSendable net (quiet q) x
unfolding fragment_length gso_mss
quiet-IsSendable net q x ok = record {
  short = ok.short;
  frag_in = ok.frag_in;
  few = ok.few;
  few_parts = ok.few_parts;
  header = ok.header;
}

drained_lem :
    (debug : ℕ → ℕ) (left n : ℕ)
    → ((drained debug left n ≡ true) × (i : ℕ) × (i < left) × (in_progress (debug (n + i)) ≡ false))
      ⊎ ((drained debug left n ≡ false) × ((i : ℕ) → i < left → in_progress (debug (n + i)) ≡ true))
unfolding drained
drained_lem debug zero n = inr (refl, λ i lt. absurd (omega arith))
drained_lem debug (suc left) n =
    let now : n + 0 ≡ n = omega arith in
    let shift : (i : ℕ) → suc n + i ≡ n + suc i = λ i. omega arith in
    elim (Bool-cases (in_progress (debug n))) [
      | inr e ↦ inl (rw e refl, 0, omega arith, rw now e)
      | inl e ↦ elim (drained_lem debug left (suc n)) [
        | inl (d, i, lt, f) ↦ inl (rw (e, d) refl, suc i, omega arith, rw (shift i) at f)
        | inr (d, all) ↦ inr (rw (e, d) refl, each debug left n (rw now e) shift all)
      ]
    ]
  where
    each :
        (debug : ℕ → ℕ) (left n : ℕ)
        → in_progress (debug (n + 0)) ≡ true
        → ((i : ℕ) → suc n + i ≡ n + suc i)
        → ((i : ℕ) → i < left → in_progress (debug (suc n + i)) ≡ true)
        → (i : ℕ) → i < suc left
        → in_progress (debug (n + i)) ≡ true
    each debug left n now shift all zero lt = now
    each debug left n now shift all (suc i) lt = rw (← shift i) (all i (omega arith))

flush_wait_lem :
    (mode : ℕ → ℕ) (fuel n k : ℕ)
    → k < fuel
    → flag (mode (n + k)) 0 ≡ false
    → (m : ℕ) × (flush_wait mode fuel n ≡ some m)
unfolding flush_wait
flush_wait_lem mode zero n k lt e = absurd (omega (arith, lt))
flush_wait_lem mode (suc fuel) n zero lt e =
    let now : n + 0 ≡ n = omega arith in let clear = rw now at e in (n, rw clear refl)
flush_wait_lem mode (suc fuel) n (suc k) lt e = elim (Bool-cases (flag (mode n) 0)) [
  | inl f ↦
      let shift : n + suc k ≡ suc n + k = omega arith in
      let (m, found) = flush_wait_lem mode fuel (suc n) k (omega arith) (rw shift at e) in
      (m, rw f found)
  | inr f ↦ (n, rw f refl)
]

zero_plus : (i : ℕ) → 0 + i ≡ i
zero_plus i = omega arith

-- How `TxQueueCancel` has come to its end: the ring held no packet; or one of the 100 reads of the
-- debug register found no packet in progress, and the descriptors are as `TxQueueAdvance` leaves
-- them; or none did, and the flushed queue begins at 0 again.
abbrev pub Cancelled : NetAdapter → (debug : ℕ → ℕ) → (q s : TxQueue) → Type 0
Cancelled net debug q s =
    ((q.packet_ring.begin_index ≡ q.packet_ring.end_index)
      × (s.desc_begin ≡ q.desc_begin)
      × (s.desc_end ≡ q.desc_end))
    ⊎ (((i : ℕ) × (i < 100) × (in_progress (debug i) ≡ false))
        × (t : TxQueue) × (k m : ℕ) × Advanced net (quiet q) t k m
        × (s.desc_begin ≡ t.desc_begin)
        × (s.desc_end ≡ t.desc_end)
        × (s.descriptors ≡ t.descriptors))
    ⊎ (((i : ℕ) → i < 100 → in_progress (debug i) ≡ true) × (s.desc_begin ≡ 0) × (s.desc_end ≡ 0))

-- On valid indices, with packets that can be sent, and if one of the first `fuel` reads of the
-- operation mode finds that the device has ended a flush, `TxQueueCancel` returns, whether the
-- packet in progress ends within 100 reads or not: the device is stopped, no packet is left, and
-- the descriptors are those before, those that `TxQueueAdvance` leaves, or none.
pub cancel_lem :
    (net : NetAdapter) (q : TxQueue) (debug mode : ℕ → ℕ) (fuel n : ℕ)
    → IsNetAdapter net
    → IsValid q
    → AllSendable net q q.packet_ring.next_index
    → n < fuel
    → flag (mode n) 0 ≡ false
    → (s : TxQueue) × (cancel net debug mode fuel q ≡ some s)
      × (s.packet_ring.begin_index ≡ s.packet_ring.end_index)
      × (s.regs.tx_control.start ≡ false)
      × Cancelled net debug q s
unfolding cancel discard
cancel_lem net q debug mode fuel n laws v ok lt clear =
    elim (Bool-cases (q.packet_ring.begin_index == q.packet_ring.end_index)) [
      | inl e ↦
          let nothing = (==_iff _ _).0 e in
          (quiet q, rw e refl, nothing, refl, inl (nothing, refl, refl))
      | inr e ↦ elim (drained_lem debug 100 0) [
        | inr (d, all) ↦
            let (m, found) =
              flush_wait_lem mode fuel 0 n lt (ap (λ i. flag (mode i) 0) (zero_plus n) ∙ clear) in
            (
              discard (flushed (quiet q)),
              rw (e, d, found) refl,
              refl,
              refl,
              inr (inr ((λ i h. rw (zero_plus i) at (all i h)), refl, refl)),
            )
        | inl (d, i, near, none_left) ↦
            let (s, k, m, returns, a) =
              advance_lem net (quiet q) laws
                (record {
                  count = v.count;
                  begin_in = v.begin_in;
                  end_in = v.end_in;
                  pkt_begin_in = v.pkt_begin_in;
                  pkt_next_in = v.pkt_next_in;
                  pkt_end_in = v.pkt_end_in;
                  tail = v.tail;
                })
                (λ x x_in near loud. quiet-IsSendable net q x (ok x x_in near loud)) in
            (
              discard s,
              rw (e, d, returns) refl,
              refl,
              ap (λ c. c.start) a.control,
              inr (inl ((i, near, rw (zero_plus i) at none_left), s, k, m, a, refl, refl, refl)),
            )
      ]
    ]

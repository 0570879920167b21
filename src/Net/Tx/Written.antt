-- ===== src/Net/Tx/Written.antt =====
-- Runs of descriptors that `TxQueueAdvance` fills, one after the other round the ring.
use woa_rk.Base.{ℕ, suc, ◌+◌, ◌≤◌, ◌<◌, ◌≡◌, refl, ap, ◌∙◌, inl, inr, true, Bool-cases, ltb, arith}
use woa_rk.Net.Queue.{IsDescriptorCount}
use woa_rk.Net.Index.{desc_next, desc_next_lem}
use woa_rk.Net.Ring.{
  dist, dist_self, dist_zero, dist_extend, dist_split, dist_concat, dist_around, succ_mod-lt,
}
use woa_rk.Net.Rx.Deliver.{update_self, update_ne}
use woa_rk.Net.Tx.Types.{
  TxDescriptor, TxQueue, TxRead, TxReadTso, TxContext, own, read_words, tso_words, context_words,
}
use woa_rk.Net.Tx.Put.{emit}

-- From `q` at the index `i` to `r` at the index `j`, the `m` descriptors from `i` on were given to
-- the device; of the queue nothing else has changed but `lastMss` and `lastVlanTag`.
pub record Written (q : TxQueue) (i : ℕ) (r : TxQueue) (j m : ℕ) : Type 0 where
  pub keeps : r ≡ record q {
    descriptors = r.descriptors;
    last_mss = r.last_mss;
    last_vlan_tag = r.last_vlan_tag;
  }
  pub inside : j < q.desc_count
  pub steps : dist q.desc_count i j ≡ m
  pub owned : (y : ℕ) → y < q.desc_count → dist q.desc_count i y < m → own (r.descriptors y) ≡ true
  pub others :
      (y : ℕ) → y < q.desc_count → m ≤ dist q.desc_count i y → r.descriptors y ≡ q.descriptors y

pub own-read_words : (d : TxRead) → own (read_words d) ≡ true
unfolding own read_words
own-read_words d = ground arith

pub own-tso_words : (d : TxReadTso) → own (tso_words d) ≡ true
unfolding own tso_words
own-tso_words d = ground arith

pub own-context_words : (d : TxContext) → own (context_words d) ≡ true
unfolding own context_words
own-context_words d = ground arith

pub Written-none : (q : TxQueue) (i : ℕ) → i < q.desc_count → Written q i q i 0
Written-none q i h = record {
  keeps = refl;
  inside = h;
  steps = dist_self _ i;
  owned = λ y _ none. absurd (omega (arith, none));
  others = λ y _ _. refl;
}

pub Written-emit :
    (d : TxDescriptor) (q : TxQueue) (i : ℕ)
    → IsDescriptorCount q.desc_count
    → i < q.desc_count
    → own d ≡ true
    → Written q i (emit d (q, i)).0 (emit d (q, i)).1 1
unfolding emit
Written-emit d q i count h o =
    let n = q.desc_count in
    let self = dist_self n i in
    let next = desc_next_lem i count h in
    record {
      keeps = refl;
      inside = rw next (succ_mod-lt n i h);
      steps = rw next (dist_extend n i i h h (omega (arith, self, count)) ∙ omega (arith, self));
      owned = λ y y_in near.
          let same : i ≡ y = dist_zero n i y h y_in (omega (arith, near)) in
          rw (← same) (rw (update_self q.descriptors i d) o);
      others = λ y y_in far.
          update_ne q.descriptors i y d
            (λ e. (let zero : dist n i y ≡ 0 = rw (← e) self in omega (arith, zero, far)));
    }

pub Written-append :
    {q : TxQueue} {i : ℕ} {r : TxQueue} {j m : ℕ} {s : TxQueue} {k n : ℕ}
    → i < q.desc_count
    → m + n < q.desc_count
    → Written q i r j m
    → Written r j s k n
    → Written q i s k (m + n)
Written-append {q} {i} {r} {j} {m} {s} {k} {n} h room w v =
    let v' = rw w.keeps at v in
    let c = q.desc_count in
    record {
      keeps = v'.keeps;
      inside = v'.inside;
      steps =
          dist_concat c i j k h w.inside v'.inside (omega (arith, w.steps, v'.steps, room))
          ∙ omega (arith, w.steps, v'.steps);
      owned = λ y y_in near. elim (Bool-cases (ltb (dist c i y) m)) [
        | inl e ↦
            let first : dist c i y < m = ground arith in
            ap (λ d. own d)
              (v'.others y y_in (
                omega (
                  arith,
                  dist_around c i j y h w.inside y_in (omega (arith, w.steps, first)),
                  w.steps,
                  room,
                )))
            ∙ w.owned y y_in first
        | inr e ↦
            let second : m ≤ dist c i y = ground arith in
            v'.owned y y_in (
              omega (
                arith,
                dist_split c i j y h w.inside y_in (omega (arith, w.steps, second)),
                w.steps,
                near,
              ))
      ];
      others = λ y y_in far.
          v'.others y y_in (
            omega (
              arith,
              dist_split c i j y h w.inside y_in (omega (arith, w.steps, far)),
              w.steps,
              far,
            ))
          ∙ w.others y y_in (omega (arith, far));
    }

-- The run goes on from what the driver remembers of it.
pub Written-remember :
    {q : TxQueue} {i : ℕ} {r : TxQueue} {j m : ℕ} (mss tag : ℕ)
    → Written q i r j m
    → Written q i (record r { last_mss = mss; last_vlan_tag = tag }) j m
Written-remember mss tag w = record {
  keeps = rw w.keeps refl;
  inside = w.inside;
  steps = w.steps;
  owned = w.owned;
  others = w.others;
}

-- One more descriptor before a run.
pub Written-after :
    (d : TxDescriptor) {q : TxQueue} {i : ℕ} {s : TxQueue} {k n : ℕ}
    → IsDescriptorCount q.desc_count
    → i < q.desc_count
    → suc n < q.desc_count
    → own d ≡ true
    → Written (emit d (q, i)).0 (emit d (q, i)).1 s k n
    → Written q i s k (suc n)
Written-after d {q} {i} {s} {k} {n} count h room o w =
    let one : 1 + n ≡ suc n = omega arith in
    rw (← one) (Written-append h (omega arith) (Written-emit d q i count h o) w)

pub desc_next-lt : {c : ℕ} (i : ℕ) → IsDescriptorCount c → i < c → desc_next c i < c
desc_next-lt {c} i count h = rw (desc_next_lem i count h) (succ_mod-lt c i h)

pub Written-count :
    {q : TxQueue} {i : ℕ} {r : TxQueue} {j m n : ℕ} → m ≡ n → Written q i r j m → Written q i r j n
Written-count e w = rw (← e) w

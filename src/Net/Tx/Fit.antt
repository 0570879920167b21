-- ===== src/Net/Tx/Fit.antt =====
-- What one packet asks for and what it takes: `TxQueueAdvance` never fills more descriptors for a
-- packet than it has counted before.
use woa_rk.Base.{
  ℕ, zero, suc, ◌+◌, ◌-◌, ◌/◌, ◌^◌, ◌≤◌, ◌<◌, ◌≡◌, refl, ap, ◌∙◌, ◌≢◌, Bool, true, inl, inr,
  Bool-cases, ◌==◌, ==_iff, ==_ne, some, u32, update, arith,
}
use woa_rk.Net.Adapter.{NetAdapter, NetFragment, NetRing}
use woa_rk.Net.Queue.{IsDescriptorCount}
use woa_rk.Net.Index.{desc_next}
use woa_rk.Net.Tx.Types.{TxQueue, own, bit}
use woa_rk.Net.Tx.Put.{
  emit, buffer_length, buffer_read, fragment_length, measure, needed, put_plain, put_buffers,
  put_fragments, put_plain_context, put_tso_context, context_needed, context_tag_needed,
}
use woa_rk.Net.Tx.Written.{
  Written, desc_next-lt, Written-count, Written-none, Written-after, Written-emit, Written-append,
  Written-remember, own-read_words, own-context_words,
}

-- The most descriptors that `length` bytes of a segmented packet take.
abbrev pub parts_of : ℕ → ℕ
parts_of length = (length + 16382) / 16383

module _ (net : NetAdapter) where
  -- The sum of them over the fragments that are left.
  unfoldable pub parts : NetRing → (ℕ → NetFragment) → ℕ → ℕ → ℕ
  parts ring fragments zero frag = 0
  parts ring fragments (suc left) frag =
      parts_of (u32 (fragments frag).valid_length)
      + parts ring fragments left (net.increment ring frag)

  pub put_plain_lem :
      (left i count control frame checksum frag : ℕ) (q : TxQueue) (j : ℕ)
      → IsDescriptorCount q.desc_count
      → j < q.desc_count
      → left < q.desc_count
      → let t = put_plain net left i count control frame checksum frag (q, j) in
        Written q j t.0 t.1 left
  unfolding put_plain emit
  put_plain_lem zero i count control frame checksum frag q j v h room = Written-none q j h
  put_plain_lem (suc left) i count control frame checksum frag q j v h room =
      Written-after _ v h room (own-read_words _) (
        put_plain_lem left (u32 (i + 1)) count control frame checksum
          (net.increment q.fragment_ring frag) _ _ v (desc_next-lt j v h) (omega (arith, room)))

  -- The rounds over the buffers of a fragment end, and take one descriptor for each piece.
  put_buffers_lem :
      (fuel control : ℕ) (last_fragment : Bool) (address length pos : ℕ) (q : TxQueue) (j : ℕ)
      → IsDescriptorCount q.desc_count
      → j < q.desc_count
      → length < 2 ^ 32
      → pos ≤ length
      → length - pos < fuel
      → parts_of (length - pos) < q.desc_count
      → (r : TxQueue) × (k : ℕ) × (put_buffers net fuel control last_fragment address length pos
            (q, j)
          ≡ some (r, k))
        × Written q j r k (parts_of (length - pos))
  unfolding put_buffers emit
  put_buffers_lem zero control lf address length pos q j v h word le enough room =
      absurd (omega arith)
  put_buffers_lem (suc fuel) control lf address length pos q j v h word le enough room =
      elim (Bool-cases (pos == length)) [
        | inl e ↦
            let same : pos ≡ length = (==_iff _ _).0 e in
            let none : parts_of (length - pos) ≡ 0 = omega arith in
            (q, j, rw e refl, rw none (Written-none q j h))
        | inr e ↦
            let apart : pos ≢ length = ==_ne _ _ e in
            let next = u32 (pos + buffer_length length pos) in
            let d = buffer_read control lf address length pos in
            let less : (next ≡ pos + buffer_length length pos)
                × (next ≤ length)
                × (pos < next)
                × (suc (parts_of (length - next)) ≡ parts_of (length - pos)) =
              ground arith in
            let o : own d ≡ true = own-read_words _ in
            let (r, k, returns, w) =
              put_buffers_lem fuel control lf address length next
                (record q { descriptors = update q.descriptors j d }) (desc_next q.desc_count j) v
                (desc_next-lt j v h) word less.1 (omega (arith, less))
                (omega (arith, less, room)) in
            (
              r,
              k,
              rw e returns,
              Written-count {r = r} {j = k} less.3
                  (Written-after d {s = r} {k = k} v h (omega (arith, less, room)) o w),
            )
      ]

  put_fragments_next :
      (left i count control frag start : ℕ) (q : TxQueue) (j : ℕ) (r : TxQueue) (k : ℕ)
      → put_buffers net
          (fragment_length q frag + 1)
          control
          (i == u32 (count + 4294967295))
          (q.logical_address frag)
          (fragment_length q frag)
          start
          (q, j)
        ≡ some (r, k)
      → put_fragments net (suc left) i count control frag start (q, j)
        ≡ put_fragments net left
            (u32 (i + 1))
            count
            control
            (net.increment q.fragment_ring frag)
            0
            (r, k)
  unfolding put_fragments
  put_fragments_next left i count control frag start q j r k e = rw (e, put_fragments)

  -- What the rounds over the fragments that are left make of `q`.
  unfoldable pub PutFragments : (left i count control frag start : ℕ) → TxQueue → ℕ → Type 0
  PutFragments left i count control frag start q j =
      (r : TxQueue) × (k m : ℕ) × (put_fragments net left i count control frag start (q, j)
        ≡ some (r, k))
      × Written q j r k m
      × (m ≤ parts q.fragment_ring q.fragments left frag)

  PutFragments-first :
      (left i count control frag start : ℕ) (q : TxQueue) (j : ℕ) (r : TxQueue) (k : ℕ)
      → j < q.desc_count
      → start ≤ fragment_length q frag
      → parts q.fragment_ring q.fragments (suc left) frag < q.desc_count
      → put_buffers net
          (fragment_length q frag + 1)
          control
          (i == u32 (count + 4294967295))
          (q.logical_address frag)
          (fragment_length q frag)
          start
          (q, j)
        ≡ some (r, k)
      → Written q j r k (parts_of (fragment_length q frag - start))
      → PutFragments left (u32 (i + 1)) count control (net.increment q.fragment_ring frag) 0 r k
      → PutFragments (suc left) i count control frag start q j
  unfolding parts fragment_length PutFragments
  PutFragments-first left i count control frag start q j r k h le room returns w
        (s, l, m, returns', w', fits) =
      let same : parts r.fragment_ring r.fragments left (net.increment q.fragment_ring frag)
          ≡ parts q.fragment_ring q.fragments left (net.increment q.fragment_ring frag) =
        ap (λ t. parts t.fragment_ring t.fragments left (net.increment q.fragment_ring frag))
          w.keeps in
      (
        s,
        l,
        parts_of (fragment_length q frag - start) + m,
        put_fragments_next left i count control frag start q j r k returns ∙ returns',
        Written-append h (omega (arith, fits, same, le, room)) w w',
        omega (arith, fits, same, le),
      )

  -- The rounds over the fragments of a segmented packet end, and take no more descriptors than
  -- were counted.
  pub put_fragments_lem :
      (left i count control frag start : ℕ) (q : TxQueue) (j : ℕ)
      → IsDescriptorCount q.desc_count
      → j < q.desc_count
      → ((f : ℕ) → fragment_length q f < 2 ^ 31)
      → (0 < left → start ≤ fragment_length q frag)
      → parts q.fragment_ring q.fragments left frag < q.desc_count
      → PutFragments left i count control frag start q j
  unfolding put_fragments parts fragment_length PutFragments
  put_fragments_lem zero i count control frag start q j v h short le room =
      (q, j, 0, refl, Written-none q j h, omega arith)
  put_fragments_lem (suc left) i count control frag start q j v h short le room =
      let start_le : start ≤ fragment_length q frag = le (omega arith) in
      let (r, k, returns, w) =
        put_buffers_lem (fragment_length q frag + 1) control (i == u32 (count + 4294967295))
          (q.logical_address frag) (fragment_length q frag) start q j v h
          (omega (arith, short frag)) start_le (omega arith) (omega (arith, start_le, room)) in
      PutFragments-first left i count control frag start q j r k h start_le room returns w (
        put_fragments_lem left (u32 (i + 1)) count control (net.increment q.fragment_ring frag) 0 r
          k (rw w.keeps v) (rw w.keeps w.inside) (λ f. rw w.keeps (short f)) (λ _. omega arith)
          (rw w.keeps (omega (arith, room))))

  -- Without a wrap, the count of descriptors is the sum over the fragments.
  pub measure_lem :
      (q : TxQueue) (left frag length needed : ℕ)
      → ((f : ℕ) → fragment_length q f < 2 ^ 31)
      → needed + parts q.fragment_ring q.fragments left frag < 2 ^ 32
      → (measure net q left frag (length, needed)).1
        ≡ needed + parts q.fragment_ring q.fragments left frag
  unfolding measure parts fragment_length
  measure_lem q zero frag length needed short few = omega arith
  measure_lem q (suc left) frag length needed short few =
      measure_lem q left (net.increment q.fragment_ring frag) _ _ short
        (omega (arith, short frag, few))
      ∙ omega (arith, short frag, few)

  pub put_plain_context_lem :
      (pkt : ℕ) (q : TxQueue) (j : ℕ)
      → IsDescriptorCount q.desc_count
      → j < q.desc_count
      → let t = put_plain_context pkt (q, j) in Written q j t.0 t.1 (bit (context_tag_needed q pkt))
  unfolding put_plain_context emit
  put_plain_context_lem pkt q j v h = elim (Bool-cases (context_tag_needed q pkt)) [
    | inl e ↦ rw e (Written-remember _ _ (Written-emit _ q j v h (own-context_words _)))
    | inr e ↦ rw e (Written-none q j h)
  ]

  pub put_tso_context_lem :
      (pkt : ℕ) (q : TxQueue) (j : ℕ)
      → IsDescriptorCount q.desc_count
      → j < q.desc_count
      → let t = put_tso_context pkt (q, j) in Written q j t.0 t.1 (bit (context_needed q pkt))
  unfolding put_tso_context emit
  put_tso_context_lem pkt q j v h = elim (Bool-cases (context_needed q pkt)) [
    | inl e ↦ rw e (Written-remember _ _ (Written-emit _ q j v h (own-context_words _)))
    | inr e ↦ rw e (Written-none q j h)
  ]

-- ===== src/Net/Tx/Whole.antt =====
-- All the descriptors of one packet, against the number that `TxQueueAdvance` asks for.
use woa_rk.Base.{
  ℕ, ◌+◌, ◌^◌, ◌≤◌, ◌<◌, ◌≡◌, refl, ap, ◌≢◌, ◌⊎◌, inl, inr, Bool-cases, ◌==◌, true, false, ==_ne,
  ==_iff, some, u16, u32, arith,
}
use woa_rk.Net.Adapter.{NetAdapter}
use woa_rk.Net.Queue.{IsDescriptorCount}
use woa_rk.Net.Tx.Types.{TxQueue, bit}
use woa_rk.Net.Tx.Put.{
  fragment_length, needed, put_plain, put_fragments, put_header, put_plain_context, put_tso_context,
  put, gso_mss, header_length, context_needed, context_tag_needed, tag_control, vlan_tag,
  frame_length, checksum_insertion,
}
use woa_rk.Net.Tx.Written.{Written, Written-emit, Written-append, own-tso_words}
use woa_rk.Net.Tx.Fit.{
  parts, put_plain_lem, PutFragments, put_fragments_lem, measure_lem, put_plain_context_lem,
  put_tso_context_lem,
}

put_header_lem :
    (net : NetAdapter) (pkt control : ℕ) (q : TxQueue) (j : ℕ)
    → IsDescriptorCount q.desc_count
    → j < q.desc_count
    → let t = put_header net pkt control (q, j) in Written q j t.0 t.1 1
unfolding put_header
put_header_lem net pkt control q j v h = Written-emit _ q j v h (own-tso_words _)

-- What the queue relies on of a packet (its assertions): fragments in their ring, lengths that do not wrap, and for a
-- segmented packet all the headers within the first fragment.
pub record IsSendable (net : NetAdapter) (q : TxQueue) (pkt : ℕ) : Type 0 where
  pub short : (f : ℕ) → fragment_length q f < 2 ^ 31
  pub frag_in : (q.packets pkt).fragment_index < q.fragment_ring.number_of_elements
  pub few : (q.packets pkt).fragment_count + 1 < 2 ^ 32
  pub few_parts :
      parts net q.fragment_ring q.fragments
          (q.packets pkt).fragment_count
          (q.packets pkt).fragment_index
        + 2
      < 2 ^ 32
  pub header :
      gso_mss q pkt ≢ 0
      → header_length (q.packets pkt).layout ≤ fragment_length q (q.packets pkt).fragment_index

module _ (net : NetAdapter) where
  -- What the packet takes: one descriptor per fragment and one for the tag's context if it is needed,
  -- or, for a segmented packet, at least the header's and the context's.
  abbrev pub Takes : ℕ → TxQueue → ℕ → Type 0
  Takes pkt q m =
      ((gso_mss q pkt ≡ 0) × (m ≡ bit (context_tag_needed q pkt) + (q.packets pkt).fragment_count))
      ⊎ ((gso_mss q pkt ≢ 0) × (bit (context_needed q pkt) + 1 ≤ m))

  -- The packet's descriptors were filled, no more than were asked for.
  unfoldable pub Put : ℕ → TxQueue → ℕ → Type 0
  Put pkt q j =
      (r : TxQueue) × (k m : ℕ) × (put net pkt (q, j) ≡ some (r, k))
      × Written q j r k m
      × (m ≤ needed net q pkt)
      × Takes pkt q m

  -- A run of plain descriptors after the context descriptor.
  plain_after :
      (control frame checksum frag count : ℕ) (q : TxQueue) (j : ℕ) (r : TxQueue) (k b : ℕ)
      → IsDescriptorCount q.desc_count
      → j < q.desc_count
      → b + count < q.desc_count
      → Written q j r k b
      → let t = put_plain net count 0 count control frame checksum frag (r, k) in
        Written q j t.0 t.1 (b + count)
  plain_after control frame checksum frag count q j r k b v h room w = Written-append h room w (
      put_plain_lem net count 0 count control frame checksum frag r k (rw w.keeps v)
        (rw w.keeps w.inside) (rw w.keeps (omega (arith, room))))

  -- The header descriptor after the context descriptor.
  header_after :
      (pkt control : ℕ) (q : TxQueue) (j : ℕ) (r : TxQueue) (k b : ℕ)
      → IsDescriptorCount q.desc_count
      → j < q.desc_count
      → b + 1 < q.desc_count
      → Written q j r k b
      → let t = put_header net pkt control (r, k) in Written q j t.0 t.1 (b + 1)
  header_after pkt control q j r k b v h room w =
      Written-append h room w
        (put_header_lem net pkt control r k (rw w.keeps v) (rw w.keeps w.inside))

  -- The buffers after the header.
  buffers_after :
      (count control frag start : ℕ) (q : TxQueue) (j : ℕ) (r : TxQueue) (k b : ℕ)
      → IsDescriptorCount q.desc_count
      → j < q.desc_count
      → ((f : ℕ) → fragment_length q f < 2 ^ 31)
      → start ≤ fragment_length q frag
      → b + parts net q.fragment_ring q.fragments count frag < q.desc_count
      → Written q j r k b
      → (s : TxQueue) × (l m : ℕ) × (put_fragments net count 0 count control frag start (r, k)
          ≡ some (s, l))
        × Written q j s l m
        × (m ≤ b + parts net q.fragment_ring q.fragments count frag)
        × (b ≤ m)
  unfolding PutFragments fragment_length
  buffers_after count control frag start q j r k b v h short le room w =
      let (s, l, m, returns, w', fits) =
        put_fragments_lem net count 0 count control frag start r k (rw w.keeps v)
          (rw w.keeps w.inside) (λ f. rw w.keeps (short f)) (λ _. rw w.keeps le)
          (rw w.keeps (omega (arith, room))) in
      let same : parts net r.fragment_ring r.fragments count frag
          ≡ parts net q.fragment_ring q.fragments count frag =
        ap (λ t. parts net t.fragment_ring t.fragments count frag) w.keeps in
      (
        s,
        l,
        b + m,
        returns,
        Written-append h (omega (arith, fits, same, room)) w w',
        omega (arith, fits, same),
        omega arith,
      )

  Put-whole :
      (pkt : ℕ) (q : TxQueue) (j : ℕ) (r : TxQueue) (k : ℕ)
      → (gso_mss q pkt == 0) ≡ true
      → IsDescriptorCount q.desc_count
      → j < q.desc_count
      → IsSendable net q pkt
      → needed net q pkt < q.desc_count
      → put_plain_context pkt (q, j) ≡ (r, k)
      → Written q j r k (bit (context_tag_needed q pkt))
      → Put pkt q j
  unfolding put needed Put
  Put-whole pkt q j r k e v h ok room context w =
      let p = q.packets pkt in
      let b = bit (context_tag_needed q pkt) in
      let room' : u32 (p.fragment_count + b) < q.desc_count = rw e at room in
      let bits : b ≤ 1 = ground arith in
      let sum : u32 (p.fragment_count + b) ≡ b + p.fragment_count = omega (arith, ok.few, bits) in
      let t =
        put_plain net p.fragment_count 0 p.fragment_count (tag_control (vlan_tag q pkt))
          (u16 (frame_length net q p.fragment_count p.fragment_index 0)) (checksum_insertion q pkt)
          p.fragment_index (r, k) in
      (
        t.0,
        t.1,
        b + p.fragment_count,
        rw (e, context) refl,
        plain_after _ _ _ _ _ q j r k b v h (omega (arith, sum, room')) w,
        rw e (omega (arith, sum)),
        inl ((==_iff _ _).0 e, refl),
      )

  parts-needed :
      (pkt : ℕ) (q : TxQueue)
      → (gso_mss q pkt == 0) ≡ false
      → IsSendable net q pkt
      → needed net q pkt
        ≡ bit (context_needed q pkt)
          + 1
          + parts net q.fragment_ring q.fragments
              (q.packets pkt).fragment_count
              (q.packets pkt).fragment_index
  unfolding needed
  parts-needed pkt q e ok =
      let p = q.packets pkt in
      let count =
        measure_lem net q p.fragment_count p.fragment_index 0 0 ok.short
          (omega (arith, ok.few_parts)) in
      let bits : bit (context_needed q pkt) ≤ 1 = ground arith in
      rw e (omega (arith, ok.few_parts, bits, count))

  parts_returns :
      (pkt : ℕ) (q : TxQueue) (j : ℕ) (r : TxQueue) (k : ℕ) (s : TxQueue) (l : ℕ) (t : TxQueue × ℕ)
      → (gso_mss q pkt == 0) ≡ false
      → put_tso_context pkt (q, j) ≡ (r, k)
      → put_header net pkt (tag_control (vlan_tag q pkt)) (r, k) ≡ (s, l)
      → put_fragments net
          (q.packets pkt).fragment_count
          0
          (q.packets pkt).fragment_count
          (tag_control (vlan_tag q pkt))
          (q.packets pkt).fragment_index
          (header_length (q.packets pkt).layout)
          (s, l)
        ≡ some t
      → put net pkt (q, j) ≡ some t
  unfolding put
  parts_returns pkt q j r k s l t e e1 e2 e3 = rw (e, e1, e2, e3) refl

  Put-parts :
      (pkt : ℕ) (q : TxQueue) (j : ℕ) (r : TxQueue) (k : ℕ) (s : TxQueue) (l : ℕ)
      → (gso_mss q pkt == 0) ≡ false
      → IsDescriptorCount q.desc_count
      → j < q.desc_count
      → IsSendable net q pkt
      → needed net q pkt < q.desc_count
      → put_tso_context pkt (q, j) ≡ (r, k)
      → put_header net pkt (tag_control (vlan_tag q pkt)) (r, k) ≡ (s, l)
      → Written q j s l (bit (context_needed q pkt) + 1)
      → Put pkt q j
  unfolding Put
  Put-parts pkt q j r k s l e v h ok room e1 e2 w =
      let p = q.packets pkt in
      let sum = parts-needed pkt q e ok in
      let (t, n, m, returns, w', fits, least) =
        buffers_after p.fragment_count (tag_control (vlan_tag q pkt)) p.fragment_index
          (header_length p.layout) q j s l (bit (context_needed q pkt) + 1) v h ok.short
          (ok.header (==_ne _ _ e)) (omega (arith, sum, room)) w in
      (
        t,
        n,
        m,
        parts_returns pkt q j r k s l (t, n) e e1 e2 returns,
        w',
        omega (arith, sum, fits),
        inr (==_ne _ _ e, least),
      )

  -- In a ring whose size is a descriptor count, from an index in it, and for a packet that can be
  -- sent and needs fewer descriptors than the ring has: the filling returns, gives the device a
  -- run of descriptors from the index on and changes no other, and takes no more than were
  -- counted before. For a packet that is not segmented the run has one descriptor per fragment, and
  -- one more if the tag needs a context; for a segmented one it has at least the header's, and the
  -- context's if one is needed.
  pub put_lem :
      (pkt : ℕ) (q : TxQueue) (j : ℕ)
      → IsDescriptorCount q.desc_count
      → j < q.desc_count
      → IsSendable net q pkt
      → needed net q pkt < q.desc_count
      → Put pkt q j
  put_lem pkt q j v h ok room = elim (Bool-cases (gso_mss q pkt == 0)) [
    | inl e ↦
        let t = put_plain_context pkt (q, j) in
        Put-whole pkt q j t.0 t.1 e v h ok room refl (put_plain_context_lem net pkt q j v h)
    | inr e ↦
        let t = put_tso_context pkt (q, j) in
        let u = put_header net pkt (tag_control (vlan_tag q pkt)) (t.0, t.1) in
        let sum = parts-needed pkt q e ok in
        Put-parts pkt q j t.0 t.1 u.0 u.1 e v h ok room refl refl (
          header_after pkt _ q j t.0 t.1 _ v h (omega (arith, sum, room))
            (put_tso_context_lem net pkt q j v h))
  ]
